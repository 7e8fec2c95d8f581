-- ===== src/Directory/Roundtrip.antt =====
-- What an alias leads to after it was created.
use dragonite.Base.{
  String, ◌≡◌, refl, sym, true, inl, inr, Option-cases, ap, ◌∙◌, ◌||◌, false, not, ◌==◌, ◌++◌,
  Option, none, some, List, [], ◌∷◌, string_eq, elem, arith,
}
use dragonite.Store.{Tables, Tip, tip_eq, tip_beq_iff, insert_tip}
use dragonite.Store.Action.{
  ok, Db, fail_if, read, read_or, not_found, invalid_param, already_in_use, Ensures,
}
use dragonite.Store.Triples.{
  read-Ensures, read_or-Ensures, of_option-Ensures, return-Ensures, fail_if-Ensures, bind-Ensures,
  write-Ensures, Ensures-map,
}
use mathlib.Core.Path.{subst}
use dragonite.Store.Outcome.{observed, attained}
use dragonite.Rooms.Admin.{save_alias}
use dragonite.Directory.{
  Scan, room_of, is_foreign, get_room_id_by_alias, servers_of, with_server, resolve_local,
  resolve_local_alias, claim_alias, create_alias,
}
use text.Mathlib.TextEquality.{eq_iff}

-- The database visits exactly the rows of the table.
abbrev pub VisitsAll : Scan → Type 0
VisitsAll scan = (rows : List Tip) (row : Tip) → elem row (scan rows) ≡ elem row rows

-- The alias stands for no two rooms.
abbrev pub HasOneRoom : String → List Tip → Type 0
HasOneRoom alias rows =
    (a b : Tip)
    → elem a rows ≡ true
    → elem b rows ≡ true
    → a.evento ≡ alias
    → b.evento ≡ alias
    → a.canal ≡ b.canal

abbrev row_for : String → String → Tip
row_for alias room = record { canal = room; evento = alias }

room_of-none :
    (alias : String) (rows : List Tip) (row : Tip)
    → room_of alias rows ≡ none
    → elem row rows ≡ true
    → row.evento ≡ alias
    → ⊥
unfolding room_of elem
room_of-none alias [] row h among named = absurd cc
room_of-none alias (x ∷ rows) row h among named =
    ground (
      arith,
      h,
      among,
      named,
      eq_iff x.evento alias,
      tip_beq_iff x row,
      room_of-none alias rows row,
    )

room_of-some :
    (alias room : String) (rows : List Tip)
    → room_of alias rows ≡ some room
    → elem (row_for alias room) rows ≡ true
unfolding room_of elem
room_of-some alias room [] h = absurd cc
room_of-some alias room (x ∷ rows) h = ground (
  arith,
  h,
  eq_iff x.evento alias,
  tip_beq_iff x (row_for alias room),
  room_of-some alias room rows,
)

elem-append : (x y : Tip) (rows : List Tip) → elem x (rows ++ y ∷ []) ≡ (elem x rows || y == x)
unfolding elem
elem-append x y [] = ground arith
elem-append x y (r ∷ rows) = ground (arith, elem-append x y rows)

elem-insert : (x y : Tip) (rows : List Tip) → elem x (insert_tip y rows) ≡ (elem x rows || y == x)
unfolding insert_tip
elem-insert x y rows = ground (arith, elem-append x y rows, tip_beq_iff y x)

-- The room has the alias, and no other room has it.
abbrev Owns : String → String → List Tip → Type 0
Owns alias room rows =
    (elem (row_for alias room) rows ≡ true)
    × ((row : Tip) → elem row rows ≡ true → row.evento ≡ alias → row.canal ≡ room)

found-Owns :
    (alias room : String) (rows : List Tip)
    → HasOneRoom alias rows
    → elem (row_for alias room) rows ≡ true
    → Owns alias room rows
found-Owns alias room rows one there =
    (there, λ row among named. one row (row_for alias room) among there named refl)

insert-Owns :
    (alias room : String) (rows : List Tip)
    → ((row : Tip) → elem row rows ≡ true → row.evento ≡ alias → ⊥)
    → Owns alias room (insert_tip (row_for alias room) rows)
insert-Owns alias room rows free = (
  ground (
    arith,
    elem-insert (row_for alias room) (row_for alias room) rows,
    tip_beq_iff (row_for alias room) (row_for alias room),
  ),
  λ row among named. ground (
    arith,
    among,
    named,
    free row,
    elem-insert row (row_for alias room) rows,
    tip_beq_iff (row_for alias room) row,
  ),
)

Owns-room_of :
    (scan : Scan) (alias room : String) (rows : List Tip)
    → VisitsAll scan
    → Owns alias room rows
    → room_of alias (scan rows) ≡ some room
Owns-room_of scan alias room rows all (there, only) =
    elim (Option-cases (room_of alias (scan rows))) [
      | inl missing ↦ absurd (
          room_of-none alias (scan rows) (row_for alias room) missing
            (all rows (row_for alias room) ∙ there) refl)
      | inr (r, found) ↦
          found
          ∙ ap some (
              only (row_for alias r)
                (sym (all rows (row_for alias r)) ∙ room_of-some alias r (scan rows) found) refl)
    ]

elem-with_server :
    (server : String) (servers : List String) → elem server (with_server server servers) ≡ true
unfolding with_server elem
elem-with_server server servers = ground (arith, eq_iff server server)

abbrev LeadsTo : Scan → String → String → Tables → Type 0
LeadsTo scan alias room t = room_of alias (scan t.aliases) ≡ some room

claim_alias-Ensures :
    (scan : Scan) (alias room : String) (o : Option String) (t : Tables)
    → VisitsAll scan
    → HasOneRoom alias t.aliases
    → room_of alias (scan t.aliases) ≡ o
    → Ensures ⊥ (claim_alias alias room o) (λ u t'. Owns alias room t'.aliases) t
unfolding claim_alias save_alias
claim_alias-Ensures scan alias room none t all one free =
    write-Ensures ⊥ (save_alias room alias) _ t (
      insert-Owns alias room t.aliases
        (λ row among. room_of-none alias (scan t.aliases) row free (all t.aliases row ∙ among)))
claim_alias-Ensures scan alias room (some existing) t all one held =
    fail_if-Ensures ⊥ (not (existing == room)) already_in_use _ t (λ e n. n)
      λ same. found-Owns alias room t.aliases one (
        sym (all t.aliases (row_for alias room))
        ∙ room_of-some alias room (scan t.aliases)
            (held ∙ ap some (ground (arith, same, eq_iff existing room))))

create_alias-Ensures :
    (scan : Scan) (server alias room : String) (t : Tables)
    → VisitsAll scan
    → HasOneRoom alias t.aliases
    → Ensures ⊥
        (create_alias scan server alias room)
        (λ u t'. (is_foreign server alias ≡ false) × Owns alias room t'.aliases)
        t
unfolding create_alias
create_alias-Ensures scan server alias room t all one =
    bind-Ensures ⊥ (fail_if (is_foreign server alias) invalid_param) _ _ t (
      fail_if-Ensures ⊥ (is_foreign server alias) invalid_param _ t (λ e n. n)
        λ own. bind-Ensures ⊥ (read (λ t. room_of alias (scan t.aliases))) _ _ t (
          read-Ensures ⊥ (λ t. room_of alias (scan t.aliases)) _ t
            (Ensures-map ⊥ (claim_alias alias room (room_of alias (scan t.aliases))) _ _ t
              (λ u t' leads. (own, leads))
              (claim_alias-Ensures scan alias room (room_of alias (scan t.aliases)) t all one
                refl))))

-- What a look-up shows: the room that the alias leads to, and this server among its servers.
abbrev pub IsFound : String → String → String → String × List String → Type 0
IsFound server alias room found = (found.0 ≡ room) × (elem server (found.1) ≡ true)

resolve_local_alias-Ensures :
    (scan : Scan) (server alias room : String) (t : Tables)
    → LeadsTo scan alias room t
    → is_foreign server alias ≡ false
    → Ensures
        (Unit {0})
        (resolve_local_alias scan server alias)
        (λ found u. IsFound server alias room found)
        t
unfolding resolve_local_alias resolve_local get_room_id_by_alias
resolve_local_alias-Ensures scan server alias room t leads mine =
    bind-Ensures (Unit {0}) (fail_if (is_foreign server alias) not_found) _ _ t (
      fail_if-Ensures (Unit {0}) (is_foreign server alias) not_found _ t (λ e u. absurd cc)
        λ own. bind-Ensures (Unit {0}) (get_room_id_by_alias scan alias) _ _ t (
          bind-Ensures (Unit {0}) (read (λ t. room_of alias (scan t.aliases))) _ _ t (
            read-Ensures (Unit {0}) (λ t. room_of alias (scan t.aliases)) _ t
              (of_option-Ensures (Unit {0}) not_found (room_of alias (scan t.aliases)) _ t
                (λ e u. absurd cc)
                λ r found.
                  bind-Ensures (Unit {0}) (read_or [] (λ t. servers_of r t.memberships)) _ _ t (
                    read_or-Ensures (Unit {0}) [] (λ t. servers_of r t.memberships) _ t
                      (return-Ensures (Unit {0})
                        (r, with_server server (servers_of r t.memberships)) _ t
                        (
                          ground (arith, leads, found),
                          elem-with_server server (servers_of r t.memberships),
                        ))
                      (λ n. absurd (n tt)))))))

-- If the database visits all rows of a table, in whatever order, the alias stands for no two rooms,
-- and CreateAlias succeeds, whatever statements may fail, then a look-up of the alias in which no
-- statement fails, on the tables that CreateAlias left, succeeds: it gives the room that was named,
-- and this server is among the servers.
pub create_alias-resolve_local_alias :
    (scan again : Scan) (server alias room : String) (db db' later : Db)
    → VisitsAll scan
    → VisitsAll again
    → HasOneRoom alias db.tables.aliases
    → create_alias scan server alias room db ≡ (ok tt, db')
    → later.tables ≡ db'.tables
    → later.faults ≡ []
    → (found : String × List String) × (end : Db) × (resolve_local_alias again server alias later
        ≡ (ok found, end))
      × IsFound server alias room found
create_alias-resolve_local_alias scan again server alias room db db' later all all_again one ran
      same calm =
    let created =
      observed (create_alias scan server alias room) _ tt db db'
        (create_alias-Ensures scan server alias room db.tables all one) ran in
    attained (resolve_local_alias again server alias) _ later
      (resolve_local_alias-Ensures again server alias room later.tables
        (Owns-room_of again alias room later.tables.aliases all_again
          (subst (λ u. Owns alias room u.aliases) (sym same) (created.1)))
        (created.0))
      calm
