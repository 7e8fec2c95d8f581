-- ===== src/Tests/Backup.antt =====
-- Alice makes a version and puts two keys, one of them twice.
use dragonite.Base.{String, refl, true, Option, some, [], ◌∷◌, string_eq}
use dragonite.Base.Int.{ℤ, pos}
use dragonite.Base.Rows.{are_up_to}
use dragonite.Domain.Delivery.{ChaveBackup}
use dragonite.Store.Action.{Db, ◌>>=◌, of_option, returning, return}
use dragonite.Backup.{
  CreateBackupParams, add_version, new_version, create_backup_version, put_room_keys,
}
use dragonite.Backup.Count.{are_counted, IsConsistent}
use dragonite.Backup.Service.{PutInLatest}
use dragonite.Backup.History.{
  creates, puts, unchanged, changed, Changes-IsConsistent, put_room_keys_guarded,
}
use dragonite.Tests.Rooms.{tables, calm}

abbrev parse : String → Option ℤ
parse s = some (pos 1)

abbrev plan : CreateBackupParams
plan = record { user_id = "@alice:x"; algorithm = "m.megolm"; auth_data = "{}" }

abbrev key : ChaveBackup
key = record {
  id_versao = pos 0;
  id_canal = "!r:x";
  id_sessao = "S";
  first_message_index = pos 0;
  forwarded_count = pos 0;
  is_verified = true;
  session_data = "{}";
}

abbrev made : Db
made = record calm { tables = add_version (new_version plan) tables }

Changes-IsConsistent_example :
    IsConsistent (put_room_keys parse "@alice:x" "1" (key ∷ key ∷ []) made).1.tables
unfolding are_up_to are_counted create_backup_version returning
Changes-IsConsistent_example =
    Changes-IsConsistent parse (refl, refl, refl)
      (changed tables made.tables
        (put_room_keys parse "@alice:x" "1" (key ∷ key ∷ []) made).1.tables (creates plan calm)
        (changed made.tables (put_room_keys parse "@alice:x" "1" (key ∷ key ∷ []) made).1.tables
          (put_room_keys parse "@alice:x" "1" (key ∷ key ∷ []) made).1.tables
          (puts "@alice:x" "1" (key ∷ key ∷ []) made)
          (unchanged (put_room_keys parse "@alice:x" "1" (key ∷ key ∷ []) made).1.tables)))

put_room_keys_guarded_example :
    PutInLatest parse "@alice:x" "1"
      (pos 1, pos 1)
      made.tables
      (put_room_keys parse "@alice:x" "1" (key ∷ key ∷ []) made).1.tables
unfolding are_up_to are_counted put_room_keys ◌>>=◌ of_option return returning add_version
    new_version
put_room_keys_guarded_example =
    put_room_keys_guarded parse "@alice:x" "1" (key ∷ key ∷ []) (pos 1, pos 1) made
      (put_room_keys parse "@alice:x" "1" (key ∷ key ∷ []) made).1 (refl, refl, refl) refl
