-- ===== src/Rooms/Membership/Invites.antt =====
-- Who is invited by whom, and that nothing but the database, the hash and the other server stops it.
use dragonite.Base.{
  String, ◌≡◌, ◌≢◌, inl, inr, Bool, false, not, Option, none, some, List, [], ◌∷◌, arith, ◌==◌,
  string_eq, Bool-cases,
}
use dragonite.Base.Int.{ltb_ℤ}
use dragonite.Base.Map.{lookup}
use dragonite.Domain.{Evento, StrippedEvento}
use dragonite.Store.{Tables, Profile, membership_of, state_event_id}
use dragonite.Store.Action.{
  hash_failure, remote_failure, db_failure, forbidden, bad_content, ◌>>=◌, ◌>>◌, fail_if, of_option,
  read, read_or, execute, queue_outgoing, Ensures, Db, ok,
}
use dragonite.Store.Triples.{
  read-Ensures, read_or-Ensures, of_option-Ensures, return-Ensures, fail_if-Ensures, bind-Ensures,
  execute-Ensures, queue_outgoing-Ensures,
}
use dragonite.Rooms.{
  InviteLevels, Env, hash_matrix_event, is_remote_user, extract_domain_from_user_id,
}
use dragonite.Rooms.Membership.{place, store_member}
use dragonite.Rooms.Membership.Invite.{
  number_or_zero, inviter_level, check_levels_event, check_invite_power_level, build_invite,
  sign_invite, check_invite, invite_user, strip_id, strip_found, strip_types, relevant_types,
  build_invite_room_state, version_of, countersign,
}
use dragonite.Rooms.Membership.Effects.{place-Ensures, store_member-Ensures}
use dragonite.Rooms.Membership.Outcome.{reached, established}
use text.Mathlib.TextEquality.{eq_iff}

-- The room's power levels, if it has any, let the user invite.
abbrev pub LevelsAllow : Env → String → Tables → Option String → Type 0
LevelsAllow env user t none = Unit
LevelsAllow env user t (some id) =
    (ev : Evento) × (pl : InviteLevels) × (lookup id t.eventos ≡ some ev)
    × (env.invite_levels ev.content ≡ some pl)
    × (ltb_ℤ (inviter_level pl user) (number_or_zero pl.invite) ≡ false)

-- The inviter is a member, the invitee is neither a member nor banned.
abbrev pub MayMeet : String → String → String → Tables → Type 0
MayMeet canal inviter invitee t =
    (membership_of canal inviter t ≡ "join")
    × (membership_of canal invitee t ≢ "ban")
    × (membership_of canal invitee t ≢ "join")

module _ (F : Type 0) where
  check_levels_event-Ensures :
      (env : Env) (user : String) (id : Option String) (Q : Unit {0} → Tables → Type 0) (t : Tables)
      → (F → LevelsAllow env user t id)
      → Q tt t
      → Ensures F (check_levels_event env user id) Q t
  unfolding check_levels_event
  check_levels_event-Ensures env user none Q t may q = return-Ensures F tt Q t q
  check_levels_event-Ensures env user (some id) Q t may q =
      bind-Ensures F (read (λ t. lookup id t.eventos)) _ _ t (
        read-Ensures F (λ t. lookup id t.eventos) _ t
          (bind-Ensures F (of_option db_failure (lookup id t.eventos)) _ _ t (
            of_option-Ensures F db_failure (lookup id t.eventos) _ t
              (λ missing f.
                let (ev, pl, found, read_levels, enough) = may f in ground (arith, missing, found))
              λ ev found.
                bind-Ensures F (of_option bad_content (env.invite_levels ev.content)) _ _ t (
                  of_option-Ensures F bad_content (env.invite_levels ev.content) _ t
                    (λ missing f.
                      let (ev', pl, found', read_levels, enough) = may f in
                      ground (arith, missing, found, found', read_levels))
                    λ pl levels.
                      fail_if-Ensures F (ltb_ℤ (inviter_level pl user) (number_or_zero pl.invite))
                        forbidden Q t
                        (λ low f.
                          let (ev', pl', found', read_levels, enough) = may f in
                          ground (arith, low, found, found', levels, read_levels, enough))
                        (λ high. q)))))

  check_invite-Ensures :
      (env : Env) (canal inviter invitee : String) (Q : Unit {0} → Tables → Type 0) (t : Tables)
      → (F
          → MayMeet canal inviter invitee t
            × LevelsAllow env inviter t (state_event_id canal "m.room.power_levels" "" t))
      → (MayMeet canal inviter invitee t → Q tt t)
      → Ensures F (check_invite env canal inviter invitee) Q t
  unfolding check_invite check_invite_power_level
  check_invite-Ensures env canal inviter invitee Q t may q =
      bind-Ensures F (read (membership_of canal inviter)) _ _ t (
        read-Ensures F (membership_of canal inviter) _ t (
          bind-Ensures F (fail_if (not (membership_of canal inviter t == "join")) forbidden) _ _ t (
            fail_if-Ensures F (not (membership_of canal inviter t == "join")) forbidden _ t
              (λ out f.
                ground (arith, out, (may f).0.0, eq_iff (membership_of canal inviter t) "join"))
              λ member. bind-Ensures F (read (membership_of canal invitee)) _ _ t (
                read-Ensures F (membership_of canal invitee) _ t (
                  bind-Ensures F (fail_if (membership_of canal invitee t == "ban") forbidden) _ _ t
                    (fail_if-Ensures F (membership_of canal invitee t == "ban") forbidden _ t
                      (λ banned f.
                        (may f).0.1 ((eq_iff (membership_of canal invitee t) "ban").0 banned))
                      λ welcome.
                        bind-Ensures F (fail_if (membership_of canal invitee t == "join") forbidden)
                          _ _ t
                          (fail_if-Ensures F (membership_of canal invitee t == "join") forbidden _ t
                            (λ joined f.
                              (may f).0.2
                                ((eq_iff (membership_of canal invitee t) "join").0 joined))
                            λ new_here. levels (
                              ground (arith, member, eq_iff (membership_of canal inviter t) "join"),
                              (λ e. ground (
                                arith,
                                welcome,
                                e,
                                eq_iff (membership_of canal invitee t) "ban",
                              )),
                              (λ e. ground (
                                arith,
                                new_here,
                                e,
                                eq_iff (membership_of canal invitee t) "join",
                              )),
                            ))))))))
    where
      levels :
          MayMeet canal inviter invitee t
          → Ensures F
              (read_or none (state_event_id canal "m.room.power_levels" "")
                >>= check_levels_event env inviter)
              Q
              t
      levels meet =
          bind-Ensures F (read_or none (state_event_id canal "m.room.power_levels" ""))
            (check_levels_event env inviter) Q t
            (read_or-Ensures F none (state_event_id canal "m.room.power_levels" "") _ t
              (check_levels_event-Ensures env inviter
                (state_event_id canal "m.room.power_levels" "" t) Q t (λ f. (may f).1) (q meet))
              (λ n. check_levels_event-Ensures env inviter none Q t (λ f. tt) (q meet)))

  strip_id-Ensures :
      (stripped : List StrippedEvento) (id : Option String)
      (Q : List StrippedEvento → Tables → Type 0) (t : Tables)
      → ((state : List StrippedEvento) → Q state t)
      → Ensures F (strip_id stripped id) Q t
  unfolding strip_id
  strip_id-Ensures stripped none Q t q = return-Ensures F stripped Q t (q stripped)
  strip_id-Ensures stripped (some id) Q t q =
      bind-Ensures F (read_or none (λ t. lookup id t.eventos)) _ Q t (
        read_or-Ensures F none (λ t. lookup id t.eventos) _ t
          (return-Ensures F (strip_found stripped (lookup id t.eventos)) Q t (q _))
          (λ n. return-Ensures F (strip_found stripped none) Q t (q _)))

  strip_types-Ensures :
      (canal : String) (tipos : List String) (stripped : List StrippedEvento)
      (Q : List StrippedEvento → Tables → Type 0) (t : Tables)
      → ((state : List StrippedEvento) → Q state t)
      → Ensures F (strip_types canal tipos stripped) Q t
  unfolding strip_types
  strip_types-Ensures canal [] stripped Q t q = return-Ensures F stripped Q t (q stripped)
  strip_types-Ensures canal (tipo ∷ tipos) stripped Q t q =
      bind-Ensures F (read_or none (state_event_id canal tipo "")) _ Q t (
        read_or-Ensures F none (state_event_id canal tipo "") _ t
          (bind-Ensures F (strip_id stripped (state_event_id canal tipo "" t)) _ Q t (
            strip_id-Ensures stripped (state_event_id canal tipo "" t) _ t
              λ more. strip_types-Ensures canal tipos more Q t q))
          (λ n. bind-Ensures F (strip_id stripped none) _ Q t (
            strip_id-Ensures stripped none _ t λ more. strip_types-Ensures canal tipos more Q t q)))

  -- A local invitee's event is signed by nobody else.
  sign_invite-Ensures :
      (env : Env) (canal invitee : String) (ev : Evento) (Q : Evento → Tables → Type 0) (t : Tables)
      → (F → is_remote_user invitee env.server_name ≡ false)
      → ((signed : Evento) → Q signed t)
      → Ensures F (sign_invite env canal invitee ev) Q t
  unfolding sign_invite countersign build_invite_room_state
  sign_invite-Ensures env canal invitee ev Q t here q =
      elim (Bool-cases (is_remote_user invitee env.server_name)) [
        | inr home ↦ rw home (return-Ensures F ev Q t (q ev))
        | inl remote ↦ rw remote (
            bind-Ensures F (of_option hash_failure (env.sign_matrix_event ev)) _ Q t (
              of_option-Ensures F hash_failure (env.sign_matrix_event ev) _ t
                (λ e f. ground (arith, here f, remote))
                λ sigs e. bind-Ensures F (read (λ t. lookup canal t.canais)) _ Q t (
                  read-Ensures F (λ t. lookup canal t.canais) _ t
                    (bind-Ensures F (strip_types canal relevant_types []) _ Q t (
                      strip_types-Ensures canal relevant_types [] _ t λ state.
                        of_option-Ensures F remote_failure
                          (env.send_invite_call (extract_domain_from_user_id invitee) canal
                            (version_of (lookup canal t.canais)) (record ev { signatures = sigs })
                            state)
                          Q t (λ e f. ground (arith, here f, remote)) (λ signed e. q signed))))))
      ]

  invite_user-Ensures :
      (env : Env) (canal inviter invitee reason : String) (is_direct : Bool) (t : Tables)
      → (F
          → (MayMeet canal inviter invitee t
              × LevelsAllow env inviter t (state_event_id canal "m.room.power_levels" "" t))
            × ((ev : Evento) → (id : String) × (env.digest ev ≡ some id))
            × (is_remote_user invitee env.server_name ≡ false))
      → Ensures F
          (invite_user env canal inviter invitee reason is_direct)
          (λ u t'. (membership_of canal invitee t' ≡ "invite") × MayMeet canal inviter invitee t)
          t
  unfolding invite_user
  invite_user-Ensures env canal inviter invitee reason is_direct t may =
      bind-Ensures F (check_invite env canal inviter invitee) _ _ t (
        check_invite-Ensures env canal inviter invitee _ t (λ f. (may f).0)
          λ meet. bind-Ensures F (read_or none (λ t. lookup invitee t.perfis)) _ _ t (
            read_or-Ensures F none (λ t. lookup invitee t.perfis) _ t (rest meet _)
              (λ n. rest meet none)))
    where
      built : Option Profile → Evento
      built profile = build_invite env canal inviter invitee reason is_direct profile

      Q : Unit {0} → Tables → Type 0
      Q u t' = (membership_of canal invitee t' ≡ "invite") × MayMeet canal inviter invitee t

      rest :
          MayMeet canal inviter invitee t
          → (profile : Option Profile)
          → Ensures F
              (place canal inviter (build_invite env canal inviter invitee reason is_direct profile)
                >>= λ placed. of_option hash_failure (hash_matrix_event env placed) >>= λ id.
                    sign_invite env canal invitee (record placed { id = id }) >>= λ ev.
                    execute (store_member canal invitee "invite" ev) >> queue_outgoing ev)
              Q
              t
      rest meet profile = bind-Ensures F (place canal inviter (built profile)) _ Q t (
          place-Ensures F canal inviter (built profile) _ t λ placed.
            bind-Ensures F (of_option hash_failure (hash_matrix_event env placed)) _ Q t (
              of_option-Ensures F hash_failure (hash_matrix_event env placed) _ t
                (λ missing f.
                  unfold hash_matrix_event in
                  ground (
                    arith,
                    missing,
                    ((may f).1 (record placed { id = ""; signatures = ""; unsigned = "" })).1,
                  ))
                λ id hashed.
                  bind-Ensures F (sign_invite env canal invitee (record placed { id = id })) _ Q t (
                    sign_invite-Ensures env canal invitee (record placed { id = id }) _ t
                      (λ f. (may f).2)
                      λ ev.
                        bind-Ensures F (execute (store_member canal invitee "invite" ev)) _ Q t (
                          execute-Ensures F (store_member canal invitee "invite" ev) _ t (
                            store_member-Ensures F canal invitee "invite" ev _ t
                              λ t' invited. queue_outgoing-Ensures F ev Q t' (invited, meet))))))

-- Where no statement fails and every event can be hashed, a member whom the power levels let invite
-- succeeds in inviting a user of this server who is neither a member nor banned: the user's
-- membership is then "invite".
pub invite_user_invites :
    (env : Env) (canal inviter invitee reason : String) (is_direct : Bool) (db : Db)
    → db.faults ≡ []
    → MayMeet canal inviter invitee db.tables
    → LevelsAllow env inviter db.tables (state_event_id canal "m.room.power_levels" "" db.tables)
    → ((ev : Evento) → (id : String) × (env.digest ev ≡ some id))
    → is_remote_user invitee env.server_name ≡ false
    → (db' : Db) × (invite_user env canal inviter invitee reason is_direct db ≡ (ok tt, db'))
      × (membership_of canal invitee db'.tables ≡ "invite")
invite_user_invites env canal inviter invitee reason is_direct db calm meet levels digests here =
    let (db', h, (invited, met)) =
      reached (invite_user env canal inviter invitee reason is_direct)
        (λ t. (membership_of canal invitee t ≡ "invite") × MayMeet canal inviter invitee db.tables)
        db
        (invite_user-Ensures (Unit {0}) env canal inviter invitee reason is_direct db.tables
          (λ u. ((meet, levels), digests, here)))
        calm in
    (db', h, invited)

-- If InviteUser succeeds, whatever statements may fail, the inviter was a member, the invitee was
-- neither a member nor banned, and the invitee's membership is then "invite".
pub invite_user_guarded :
    (env : Env) (canal inviter invitee reason : String) (is_direct : Bool) (db db' : Db)
    → invite_user env canal inviter invitee reason is_direct db ≡ (ok tt, db')
    → (membership_of canal invitee db'.tables ≡ "invite") × MayMeet canal inviter invitee db.tables
invite_user_guarded env canal inviter invitee reason is_direct db db' h =
    established (invite_user env canal inviter invitee reason is_direct)
      (λ t. (membership_of canal invitee t ≡ "invite") × MayMeet canal inviter invitee db.tables) db
      db'
      (invite_user-Ensures ⊥ env canal inviter invitee reason is_direct db.tables
        (λ never. absurd never))
      h
