-- ===== src/Presence/Visibility.antt =====
-- Who sees whose presence.
use dragonite.Base.{
  String, ◌≡◌, ◌⊎◌, inl, inr, refl, Bool, true, false, Option, some, List, [], ◌∷◌, arith, ◌==◌,
  string_eq, elem, Bool-cases, Option-cases,
}
use dragonite.Base.Int.{ℤ}
use dragonite.Base.Map.{lookup-insert}
use dragonite.Presence.{
  Presence, Answer, ok, err, Stores, any_in, shares_with_rooms, shares_room_with, fetch, fetch_if,
  get_status, upsert_presence, set_status,
}
use text.Mathlib.TextEquality.{eq_iff}

-- Two users have a room in common.
abbrev pub HasCommonRoom : Stores → String → String → Type 0
HasCommonRoom s a b =
    (mine yours : List String) × (r : String) × (s.joined_rooms a ≡ some mine)
    × (s.joined_rooms b ≡ some yours)
    × (elem r mine ≡ true)
    × (elem r yours ≡ true)

any_in-common :
    (mine yours : List String)
    → any_in mine yours ≡ true
    → (r : String) × (elem r mine ≡ true) × (elem r yours ≡ true)
unfolding any_in elem
any_in-common [] yours h = absurd cc
any_in-common (a ∷ mine) yours h = elim (Bool-cases (elem a yours)) [
  | inl here ↦ (a, ground (arith, eq_iff a a), here)
  | inr further ↦
      let (r, in_mine, in_yours) = any_in-common mine yours (ground (arith, h, further)) in
      (r, ground (arith, in_mine), in_yours)
]

shares-common : (s : Stores) (a b : String) → shares_room_with s a b ≡ ok true → HasCommonRoom s a b
unfolding shares_room_with shares_with_rooms any_in
shares-common s a b h = elim (Option-cases (s.joined_rooms a)) [
  | inl missing ↦ absurd (ground (arith, missing, h))
  | inr ([], found) ↦ absurd (ground (arith, found, h))
  | inr (x ∷ mine, found) ↦ elim (Option-cases (s.joined_rooms b)) [
    | inl missing ↦ absurd (ground (arith, missing, found, h))
    | inr (yours, other) ↦
        let (r, in_mine, in_yours) =
          any_in-common (x ∷ mine) yours (unfold any_in in ground (arith, other, found, h)) in
        (x ∷ mine, yours, r, found, other, in_mine, in_yours)
  ]
]

-- A presence is shown only to the user it is about and to users who have joined a room that this
-- user has joined.
pub get_status-HasCommonRoom :
    (s : Stores) (requester target : String) (p : Presence)
    → get_status s requester target ≡ ok p
    → (requester ≡ target) ⊎ HasCommonRoom s requester target
unfolding get_status fetch_if
get_status-HasCommonRoom s requester target p h = elim (Bool-cases (requester == target)) [
  | inl self ↦ inl ((eq_iff requester target).0 self)
  | inr other ↦ inr (
      shares-common s requester target
        (answer (shares_room_with s requester target) (ground (arith, other, h))))
]
  where
    answer : (o : Answer Bool) → fetch_if s target o ≡ ok p → o ≡ ok true
    answer (err e) h = absurd cc
    answer (ok true) h = refl
    answer (ok false) h = absurd cc

-- If SetStatus succeeds, then a GetStatus by its user whose query succeeds, on the presences that
-- SetStatus left, shows the state and the message that were set, with what the column keeps of the
-- server's time.
pub get_status-set_status :
    (now : ℤ) (s s' later : Stores) (user state : String) (msg : Option String)
    → set_status now s user state msg ≡ ok s'
    → later.presences ≡ s'.presences
    → later.reads ≡ true
    → get_status later user user
      ≡ ok (record {
        id_usuario = user;
        state = state;
        status_msg = msg;
        last_active_at = s.timestamptz now;
      })
unfolding set_status get_status fetch upsert_presence
get_status-set_status now s s' later user state msg h same up = elim (Bool-cases s.writes) [
  | inr down ↦ absurd (ground (arith, down, h))
  | inl works ↦ ground (
    arith,
    works,
    h,
    same,
    up,
    eq_iff user user,
    lookup-insert user user
        (record {
          id_usuario = user;
          state = state;
          status_msg = msg;
          last_active_at = s.timestamptz now;
        })
        s.presences,
  )
]
