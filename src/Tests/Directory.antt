-- ===== src/Tests/Directory.antt =====
-- Alice's room gets the alias #lounge:x.
use dragonite.Base.{String, List, ◌≡◌, refl, elem}
use dragonite.Store.{tip_eq}
use dragonite.Store.Action.{Db, ok, ◌>>=◌, fail_if}
use dragonite.Directory.{Scan, create_alias, resolve_local_alias}
use dragonite.Directory.Roundtrip.{IsFound, create_alias-resolve_local_alias}
use dragonite.Tests.Rooms.{calm}

abbrev as_stored : Scan
as_stored rows = rows

create_alias-resolve_local_alias_example :
    (found : String × List String) × (end : Db) × (resolve_local_alias as_stored "x" "#lounge:x"
        (create_alias as_stored "x" "#lounge:x" "!r:x" calm).1
      ≡ (ok found, end))
    × IsFound "x" "#lounge:x" "!r:x" found
unfolding create_alias ◌>>=◌ fail_if elem
create_alias-resolve_local_alias_example =
    create_alias-resolve_local_alias as_stored as_stored "x" "#lounge:x" "!r:x" calm
      (create_alias as_stored "x" "#lounge:x" "!r:x" calm).1
      (create_alias as_stored "x" "#lounge:x" "!r:x" calm).1 (λ rows row. refl) (λ rows row. refl)
      (λ a b h. absurd cc) refl refl refl
