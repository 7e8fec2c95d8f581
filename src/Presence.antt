-- ===== src/Presence.antt =====
-- Presence (internal/usecase/presence_service.go). The stored presence and the joined rooms of a
-- user are read from a state of their own. `joined_rooms` is `none` where that query fails;
-- `reads` and `writes` say whether the statements on Presence succeed; `timestamptz` is what a
-- column of that type keeps of a time.
pub mod Visibility
use dragonite.Base.{
  String, Bool, true, false, ◌||◌, Option, none, some, List, [], ◌∷◌, ◌==◌, string_eq, elem,
  if◌then◌else◌,
}
use dragonite.Base.Int.{ℤ}
use dragonite.Base.Map.{Map, lookup, insert}

pub record Presence : Type 0 where
  pub id_usuario : String
  pub state : String
  pub status_msg : Option String
  pub last_active_at : ℤ

-- types.ErrForbidden, ErrNotFound, ErrInvalidUserID, ErrInvalidParam and a storage error
pub data Failure : Type 0 where
  forbidden not_found invalid_user_id invalid_param storage : Failure

pub data Answer {ℓ} (A : Type ℓ) : Type ℓ where
  ok : A → Answer A
  err : Failure → Answer A

pub record Stores : Type 0 where
  pub joined_rooms : String → Option (List String)
  pub presences : Map String Presence
  pub reads : Bool
  pub writes : Bool
  pub timestamptz : ℤ → ℤ

-- The range over roomsA with its test against the set of roomsB.
unfoldable pub any_in : List String → List String → Bool
unfolding elem
any_in [] roomsB = false
any_in (r ∷ rooms) roomsB = elem r roomsB || any_in rooms roomsB

unfoldable pub shares_with_rooms : Stores → List String → String → Answer Bool
unfolding any_in
shares_with_rooms s [] b = ok false
shares_with_rooms s (r ∷ rooms) b = elim (s.joined_rooms b) [
  | none ↦ err storage
  | some roomsB ↦ ok (any_in (r ∷ rooms) roomsB)
]

unfoldable pub shares_room_with : Stores → String → String → Answer Bool
unfolding shares_with_rooms
shares_room_with s a b = elim (s.joined_rooms a) [
  | none ↦ err storage
  | some rooms ↦ shares_with_rooms s rooms b
]

unfoldable pub fetch : Stores → String → Answer Presence
unfolding lookup
fetch s target =
    if s.reads
    then elim (lookup target s.presences) [ none ↦ err not_found | some p ↦ ok p ]
    else err storage

unfoldable pub fetch_if : Stores → String → Answer Bool → Answer Presence
unfolding fetch
fetch_if s target (err e) = err e
fetch_if s target (ok shared) = if shared then fetch s target else err forbidden

unfoldable pub get_status : Stores → String → String → Answer Presence
unfolding shares_room_with fetch fetch_if
get_status s requester target =
    if requester == target
    then fetch s target
    else fetch_if s target (shares_room_with s requester target)

unfoldable pub is_valid_presence_state : String → Bool
is_valid_presence_state s = s == "online" || (s == "offline" || s == "unavailable")

-- UpsertPresence
unfoldable pub upsert_presence : Presence → Stores → Answer Stores
unfolding insert
upsert_presence p s =
    if s.writes
    then ok (record s {
      presences =
          insert p.id_usuario (record p { last_active_at = s.timestamptz p.last_active_at })
            s.presences;
    })
    else err storage

unfoldable pub set_status : ℤ → Stores → String → String → Option String → Answer Stores
unfolding is_valid_presence_state upsert_presence
set_status now s user state msg =
    if user == ""
    then err invalid_user_id
    else if is_valid_presence_state state
    then upsert_presence
        (record { id_usuario = user; state = state; status_msg = msg; last_active_at = now }) s
    else err invalid_param
