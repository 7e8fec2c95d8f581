-- ===== src/Rooms/Reading/Access.antt =====
-- Who is shown what.
use dragonite.Base.{String, ◌≡◌, not, some, Option-cases, inl, inr, ◌==◌, string_eq, arith}
use dragonite.Base.Map.{Map, lookup}
use dragonite.Base.Int.{pos}
use dragonite.Domain.{Evento}
use dragonite.Store.{Tables, membership_of}
use dragonite.Store.Action.{ok, Db, db_failure, forbidden, fail_if, read, Ensures}
use dragonite.Store.Triples.{
  read-Ensures, of_option-Ensures, return-Ensures, fail_if-Ensures, bind-Ensures,
}
use dragonite.Store.Outcome.{observed}
use dragonite.Rooms.Messages.{require_join}
use dragonite.Rooms.Messages.Sent.{require_join-Ensures}
use dragonite.Rooms.Reading.{find_selected, selected, get_evento, get_event}
use text.Mathlib.TextEquality.{eq_iff}

-- The user is a member of the room, and the event has the columns that GetEvento selects of a row
-- that is stored under this id, and belongs to the room.
abbrev pub MaySee : String → String → String → Evento → Tables → Type 0
MaySee user canal id ev t =
    (membership_of canal user t ≡ "join")
    × ((row : Evento) × (lookup id t.eventos ≡ some row)
        × (ev ≡ record row { stream_ordering = pos 0; redacts = "" }))
    × (ev.canal_id ≡ canal)

found-row :
    (id : String) (ev : Evento) (eventos : Map String Evento)
    → find_selected id eventos ≡ some ev
    → (row : Evento) × (lookup id eventos ≡ some row)
      × (ev ≡ record row { stream_ordering = pos 0; redacts = "" })
unfolding find_selected selected
found-row id ev eventos h = elim (Option-cases (lookup id eventos)) [
  | inl missing ↦ absurd (ground (arith, missing, h))
  | inr (row, found) ↦ (row, found, ground (arith, found, h))
]

get_event-Ensures :
    (user canal id : String) (t : Tables)
    → Ensures ⊥ (get_event user canal id) (λ ev u. MaySee user canal id ev t) t
unfolding get_event get_evento
get_event-Ensures user canal id t = bind-Ensures ⊥ (require_join canal user) _ _ t (
    require_join-Ensures ⊥ canal user _ t (λ n. absurd n)
      λ joined. bind-Ensures ⊥ (get_evento id) _ _ t (
        bind-Ensures ⊥ (read (λ t. find_selected id t.eventos)) _ _ t (
          read-Ensures ⊥ (λ t. find_selected id t.eventos) _ t
            (of_option-Ensures ⊥ db_failure (find_selected id t.eventos) _ t (λ e n. n)
              λ ev found. bind-Ensures ⊥ (fail_if (not (ev.canal_id == canal)) forbidden) _ _ t (
                fail_if-Ensures ⊥ (not (ev.canal_id == canal)) forbidden _ t (λ e n. n)
                  λ own. return-Ensures ⊥ ev _ t (
                    joined,
                    found-row id ev t.eventos found,
                    ground (arith, own, eq_iff ev.canal_id canal),
                  ))))))

-- GetEvent shows an event to members only, and only as an event of its own room: if it succeeds,
-- whatever statements may fail, the user is a member of the room, and the event has the columns that
-- GetEvento selects of the row that is stored under the id that was asked for, and belongs to the
-- room.
pub get_event_guarded :
    (user canal id : String) (ev : Evento) (db db' : Db)
    → get_event user canal id db ≡ (ok ev, db')
    → MaySee user canal id ev db.tables
get_event_guarded user canal id ev db db' ran =
    observed (get_event user canal id) (λ ev t. MaySee user canal id ev db.tables) ev db db'
      (get_event-Ensures user canal id db.tables) ran
