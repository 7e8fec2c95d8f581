-- ===== src/Rooms/Membership/Effects.antt =====
-- What the membership operations establish, and that nothing but the database stops them.
use dragonite.Base.{
  String, ◌≡◌, ◌⊎◌, inl, inr, refl, Bool, true, false, not, ◌&&◌, ◌||◌, Option, none, some, List,
  [], arith, ◌==◌, string_eq, if◌then◌else◌, Bool-cases,
}
use dragonite.Base.Int.{next_int64}
use dragonite.Base.Map.{lookup, lookup-insert}
use dragonite.Domain.{Evento}
use dragonite.Store.{
  Tables, member_id_eq, member_id_beq_iff, tips_of, membership_of, state_event_id, save_evento,
  update_forward_extremities, upsert_current_state, upsert_membership, max_depth_from_eventos,
}
use dragonite.Store.Action.{
  bad_state, ◌>>=◌, return, fail_if, read, read_or, write, wake_up, Ensures,
}
use dragonite.Store.Triples.{
  read-Ensures, read_or-Ensures, return-Ensures, fail_if-Ensures, write-Ensures, bind-Ensures,
  execute-Ensures, wake_up-Ensures, queue_outgoing-Ensures,
}
use dragonite.Rooms.{Env, hash_matrix_event, append_state}
use dragonite.Rooms.Build.{build_leave_event}
use dragonite.Rooms.Membership.{
  append_target, resolve_event_dependencies, profile_names, place, store_member, own_body,
  id_or_empty, store_own, leave_from, leave_room,
}
use text.Mathlib.TextEquality.{eq_iff}

-- A written membership is what is read.
pub membership_of-upsert :
    (canal user kind id : String) (t : Tables)
    → membership_of canal user (upsert_membership canal user kind id t) ≡ kind
unfolding membership_of upsert_membership
membership_of-upsert canal user kind id t = ground (
  arith,
  lookup-insert (record { canal = canal; usuario = user })
      (record { canal = canal; usuario = user }) (record { kind = kind; evento = id })
      t.memberships,
  member_id_beq_iff (record { canal = canal; usuario = user })
      (record { canal = canal; usuario = user }),
)

-- The user is out of the room.
abbrev pub HasLeft : String → String → Tables → Type 0
HasLeft canal user t = (membership_of canal user t ≡ "leave") ⊎ (membership_of canal user t ≡ "ban")

module _ (F : Type 0) where
  append_state-Ensures :
      (canal tipo key : String) (auths : List String) (Q : List String → Tables → Type 0)
      (t : Tables)
      → ((found : List String) → Q found t)
      → Ensures F (append_state canal tipo key auths) Q t
  unfolding append_state
  append_state-Ensures canal tipo key auths Q t q = bind-Ensures F _ _ Q t (
      read_or-Ensures F none (state_event_id canal tipo key) _ t (return-Ensures F _ Q t (q _))
        (λ n. return-Ensures F _ Q t (q _)))

  append_target-Ensures :
      (canal tipo : String) (key : Option String) (auths : List String)
      (Q : List String → Tables → Type 0) (t : Tables)
      → ((found : List String) → Q found t)
      → Ensures F (append_target canal tipo key auths) Q t
  unfolding append_target
  append_target-Ensures canal tipo none auths Q t q = return-Ensures F auths Q t (q auths)
  append_target-Ensures canal tipo (some key) auths Q t q = go (tipo == "m.room.member")
    where
      go :
          (b : Bool)
          → Ensures F
              (if b
                then (append_state canal "m.room.member" key auths
                    >>= append_state canal "m.room.join_rules" "")
                else return auths)
              Q
              t
      go true = bind-Ensures F _ _ Q t (
          append_state-Ensures canal "m.room.member" key auths _ t
            (λ a. append_state-Ensures canal "m.room.join_rules" "" a Q t q))
      go false = return-Ensures F auths Q t (q auths)

  -- Finding an event's place in the graph changes nothing and fails only with the database; the
  -- previous events are all the tips of the room.
  pub place_exact-Ensures :
      (canal sender : String) (ev : Evento) (Q : Evento → Tables → Type 0) (t : Tables)
      → ((auths : List String)
          → Q
              (record ev {
                prev_eventos = tips_of canal t.extremidades;
                auth_eventos = auths;
                depth = next_int64 (max_depth_from_eventos (tips_of canal t.extremidades) t);
              })
              t)
      → Ensures F (place canal sender ev) Q t
  unfolding place resolve_event_dependencies
  place_exact-Ensures canal sender ev Q t q =
      bind-Ensures F (resolve_event_dependencies canal sender ev.tipo ev.state_key) _ Q t (
        bind-Ensures F (read (λ t. tips_of canal t.extremidades)) _ _ t (
          read-Ensures F (λ t. tips_of canal t.extremidades) _ t
            (bind-Ensures F (append_state canal "m.room.create" "" []) _ _ t (
              append_state-Ensures canal "m.room.create" "" [] _ t λ a.
                bind-Ensures F (append_state canal "m.room.power_levels" "" a) _ _ t (
                  append_state-Ensures canal "m.room.power_levels" "" a _ t λ b.
                    bind-Ensures F (append_state canal "m.room.member" sender b) _ _ t (
                      append_state-Ensures canal "m.room.member" sender b _ t λ c.
                        bind-Ensures F (append_target canal ev.tipo ev.state_key c) _ _ t (
                          append_target-Ensures canal ev.tipo ev.state_key c _ t
                            λ d. return-Ensures F _ _ t (depth_read d))))))))
    where
      tips : List String
      tips = tips_of canal t.extremidades

      depth_read :
          (auths : List String)
          → Ensures F
              (read (max_depth_from_eventos tips) >>= λ depth.
                return (record ev {
                  prev_eventos = tips;
                  auth_eventos = auths;
                  depth = next_int64 depth;
                }))
              Q
              t
      depth_read auths =
          bind-Ensures F (read (max_depth_from_eventos tips)) _ Q t
            (read-Ensures F (max_depth_from_eventos tips) _ t (return-Ensures F _ Q t (q auths)))

  pub place-Ensures :
      (canal sender : String) (ev : Evento) (Q : Evento → Tables → Type 0) (t : Tables)
      → ((placed : Evento) → Q placed t)
      → Ensures F (place canal sender ev) Q t
  place-Ensures canal sender ev Q t q = place_exact-Ensures canal sender ev Q t (λ auths. q _)

  -- The writes of a member event leave the user with the membership it gives.
  pub store_member-Ensures :
      (canal user kind : String) (ev : Evento) (Q : Unit {0} → Tables → Type 0) (t : Tables)
      → ((t' : Tables) → membership_of canal user t' ≡ kind → Q tt t')
      → Ensures F (store_member canal user kind ev) Q t
  unfolding store_member
  store_member-Ensures canal user kind ev Q t q = bind-Ensures F (write (save_evento ev)) _ _ t (
      write-Ensures F (save_evento ev) _ t (
        bind-Ensures F (write (update_forward_extremities canal ev.id ev.prev_eventos)) _ _ _ (
          write-Ensures F (update_forward_extremities canal ev.id ev.prev_eventos) _ _ (
            bind-Ensures F
              (write (
                upsert_current_state canal
                  (record { event_type = "m.room.member"; state_key = user }) ev.id))
              _ _ _
              (write-Ensures F
                (upsert_current_state canal
                  (record { event_type = "m.room.member"; state_key = user }) ev.id)
                _ _
                (write-Ensures F (upsert_membership canal user kind ev.id) _ _
                  (q _ (membership_of-upsert canal user kind ev.id _))))))))

  pub store_own-Ensures :
      (env : Env) (canal user kind : String) (ev : Evento) (Q : Evento → Tables → Type 0)
      (t : Tables)
      → ((e : Evento) (t' : Tables) → membership_of canal user t' ≡ kind → Q e t')
      → Ensures F (store_own env canal user kind ev) Q t
  unfolding store_own own_body
  store_own-Ensures env canal user kind ev Q t q =
      execute-Ensures F (own_body env canal user kind ev) Q t (
        bind-Ensures F (place canal user ev) _ _ t (
          place-Ensures canal user ev _ t λ placed.
            bind-Ensures F (store_member canal user kind (identified placed)) _ _ t (
              store_member-Ensures canal user kind (identified placed) _ t λ t' left.
                return-Ensures F (identified placed) Q t' (q (identified placed) t' left))))
    where
      identified : Evento → Evento
      identified placed = record placed { id = id_or_empty (hash_matrix_event env placed) }

  pub profile_names-Ensures :
      (user : String) (Q : String × String → Tables → Type 0) (t : Tables)
      → ((names : String × String) → Q names t)
      → Ensures F (profile_names user) Q t
  unfolding profile_names
  profile_names-Ensures user Q t q =
      bind-Ensures F (read_or none (λ t. lookup user t.perfis)) _ Q t (
        read_or-Ensures F none (λ t. lookup user t.perfis) _ t (return-Ensures F _ Q t (q _))
          (λ n. return-Ensures F _ Q t (q _)))

  leave_from-Ensures :
      (env : Env) (user canal status : String) (t : Tables)
      → (F → (HasLeft canal user t ⊎ (status ≡ "join") ⊎ (status ≡ "invite")))
      → membership_of canal user t ≡ status
      → Ensures F (leave_from env user canal status) (λ u t'. HasLeft canal user t') t
  unfolding leave_from
  leave_from-Ensures env user canal status t known now =
      elim (Bool-cases (status == "leave" || status == "ban")) [
        | inl out ↦ rw out (
            return-Ensures F tt _ t
              (ground (arith, now, out, eq_iff status "leave", eq_iff status "ban")))
        | inr in_room ↦ rw in_room (
            bind-Ensures F (fail_if (not (status == "join") && not (status == "invite")) bad_state)
              _ _ t
              (fail_if-Ensures F (not (status == "join") && not (status == "invite")) bad_state _ t
                (λ neither f. ground (
                  arith,
                  known f,
                  now,
                  in_room,
                  neither,
                  eq_iff status "join",
                  eq_iff status "invite",
                  eq_iff status "leave",
                  eq_iff status "ban",
                ))
                (λ one. bind-Ensures F (profile_names user) _ _ t (
                  profile_names-Ensures user _ t λ names.
                    bind-Ensures F (store_own env canal user "leave" (built names)) _ _ t (
                      store_own-Ensures env canal user "leave" (built names) _ t λ e t' left.
                        bind-Ensures F (wake_up user) _ _ t' (
                          wake_up-Ensures F user _ t'
                            (queue_outgoing-Ensures F e _ t' (inl left))))))))
      ]
    where
      built : String × String → Evento
      built names = build_leave_event env canal user (names.0) (names.1)

  -- If the user is in the room, invited, gone or banned, LeaveRoom succeeds unless a statement
  -- fails; whenever it succeeds the user is out of the room.
  pub leave_room-Ensures :
      (env : Env) (user canal : String) (t : Tables)
      → (F
          → (HasLeft canal user t
              ⊎ (membership_of canal user t ≡ "join")
              ⊎ (membership_of canal user t ≡ "invite")))
      → Ensures F (leave_room env user canal) (λ u t'. HasLeft canal user t') t
  unfolding leave_room
  leave_room-Ensures env user canal t known =
      bind-Ensures F (read (membership_of canal user)) _ _ t (
        read-Ensures F (membership_of canal user) _ t
          (leave_from-Ensures env user canal (membership_of canal user t) t known refl))
