-- ===== src/Rooms/Membership/Joining.antt =====
-- What joining a room establishes (internal/usecase/room_membership.go).
use dragonite.Base.{
  String, ◌≡◌, ◌⊎◌, inl, inr, true, not, ◌||◌, some, arith, ◌==◌, string_eq, Bool-cases,
}
use dragonite.Domain.{Evento}
use dragonite.Store.{Tables, member_id_eq, membership_of}
use dragonite.Store.Action.{db_failure, forbidden, of_option, read, read_or, Ensures}
use dragonite.Store.Triples.{
  read-Ensures, read_or-Ensures, of_option-Ensures, fail_if-Ensures, bind-Ensures,
  queue_outgoing-Ensures,
}
use dragonite.Rooms.{Env}
use dragonite.Rooms.Build.{build_join_event}
use dragonite.Rooms.Membership.{
  profile_names, store_own, join_rule_of, check_access, join_local_room,
}
use text.Mathlib.TextEquality.{eq_iff}
use dragonite.Rooms.Membership.Effects.{profile_names-Ensures, store_own-Ensures}

-- The room is public, or the user is invited to a room that asks for an invitation.
abbrev pub MayJoin : Env → String → String → Tables → Type 0
MayJoin env user canal t =
    (join_rule_of env canal t ≡ some "public")
    ⊎ (((join_rule_of env canal t ≡ some "invite") ⊎ (join_rule_of env canal t ≡ some "private"))
        × (membership_of canal user t ≡ "invite"))

module _ (F : Type 0) where
  check_access-Ensures :
      (env : Env) (user canal rule : String) (Q : Unit {0} → Tables → Type 0) (t : Tables)
      → join_rule_of env canal t ≡ some rule
      → (F → MayJoin env user canal t)
      → (MayJoin env user canal t → Q tt t)
      → Ensures F (check_access user canal rule) Q t
  unfolding check_access
  check_access-Ensures env user canal rule Q t found may q =
      elim (Bool-cases (rule == "invite" || rule == "private")) [
        | inl closed ↦ rw closed (
            bind-Ensures F (read_or "" (membership_of canal user)) _ _ t (
              read_or-Ensures F "" (membership_of canal user) _ t
                (fail_if-Ensures F (not (membership_of canal user t == "invite")) forbidden _ t
                  (λ no f. ground (
                    arith,
                    may f,
                    found,
                    closed,
                    no,
                    eq_iff (membership_of canal user t) "invite",
                    eq_iff rule "invite",
                    eq_iff rule "private",
                    eq_iff rule "public",
                    eq_iff "invite" "public",
                    eq_iff "private" "public",
                  ))
                  (λ yes. q (
                    ground (
                      arith,
                      found,
                      closed,
                      yes,
                      eq_iff (membership_of canal user t) "invite",
                      eq_iff rule "invite",
                      eq_iff rule "private",
                    ))))
                (λ n. fail_if-Ensures F true forbidden _ t (λ e f. n f) (λ e. absurd cc))))
        | inr open_to ↦ rw open_to (
            fail_if-Ensures F (not (rule == "public")) forbidden _ t
              (λ no f. ground (
                arith,
                may f,
                found,
                open_to,
                no,
                eq_iff rule "invite",
                eq_iff rule "private",
                eq_iff rule "public",
              ))
              (λ yes. q (ground (arith, found, yes, eq_iff rule "public"))))
      ]

  -- A user who may join joins, unless a statement fails; whenever JoinLocalRoom succeeds the user
  -- was allowed to join and is a member.
  pub join_local_room-Ensures :
      (env : Env) (user canal : String) (t : Tables)
      → (F → MayJoin env user canal t)
      → Ensures F
          (join_local_room env user canal)
          (λ u t'. (membership_of canal user t' ≡ "join") × MayJoin env user canal t)
          t
  unfolding join_local_room
  join_local_room-Ensures env user canal t may =
      bind-Ensures F (read (join_rule_of env canal)) _ _ t (
        read-Ensures F (join_rule_of env canal) _ t (
          bind-Ensures F (of_option db_failure (join_rule_of env canal t)) _ _ t (
            of_option-Ensures F db_failure (join_rule_of env canal t) _ t
              (λ none f. ground (arith, may f, none))
              λ rule found. bind-Ensures F (check_access user canal rule) _ _ t (
                check_access-Ensures env user canal rule _ t found may λ allowed.
                  bind-Ensures F (profile_names user) _ _ t (
                    profile_names-Ensures F user _ t λ names.
                      bind-Ensures F (store_own env canal user "join" (built names)) _ _ t (
                        store_own-Ensures F env canal user "join" (built names) _ t
                          λ e t' joined. queue_outgoing-Ensures F e _ t' (joined, allowed)))))))
    where
      built : String × String → Evento
      built names = build_join_event env canal user (names.0) (names.1)
