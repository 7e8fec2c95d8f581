-- ===== src/Rooms/Membership/Atomic.antt =====
-- A membership operation that fails leaves the tables as they were.
use dragonite.Base.{
  String, Bool, true, false, not, ◌&&◌, ◌||◌, Option, none, some, List, [], ◌∷◌, ◌==◌, string_eq,
  if◌then◌else◌,
}
use dragonite.Base.Map.{lookup}
use dragonite.Domain.{Evento, StrippedEvento}
use dragonite.Store.{tips_of, membership_of, state_event_id, max_depth_from_eventos}
use dragonite.Store.Action.{
  hash_failure, remote_failure, db_failure, forbidden, bad_state, bad_content, ◌>>=◌, ◌>>◌, return,
  fail_if, read_or, wake_up, queue_outgoing, IsAtomic, IsPure,
}
use dragonite.Store.Rules.{
  read-IsPure, read_or-IsPure, of_option-IsPure, fail_if-IsPure, return-IsPure, then-IsTotal,
  IsPure-IsAtomic, bind-IsPure, bind-IsAtomic, then_total-IsAtomic, execute-IsAtomic,
  wake_up-IsTotal, queue_outgoing-IsTotal,
}
use dragonite.Rooms.{
  Env, hash_matrix_event, is_remote_user, extract_domain_from_user_id, append_state,
}
use dragonite.Rooms.Build.{build_join_event, build_leave_event}
use dragonite.Rooms.Membership.{
  append_target, resolve_event_dependencies, profile_names, place, own_body, store_own, leave_from,
  leave_room, join_rule_of, check_access, join_local_room, store_member,
}
use dragonite.Rooms.Membership.Invite.{
  check_levels_event, check_invite_power_level, strip_id, strip_types, relevant_types,
  build_invite_room_state, build_invite, version_of, countersign, sign_invite, check_invite,
  invite_user,
}

pub append_state-IsPure :
    (canal tipo key : String) (auths : List String) → IsPure (append_state canal tipo key auths)
unfolding append_state
append_state-IsPure canal tipo key auths =
    bind-IsPure _ _ (read_or-IsPure none (state_event_id canal tipo key)) (λ o. return-IsPure _)

append_target-IsPure :
    (canal tipo : String) (key : Option String) (auths : List String)
    → IsPure (append_target canal tipo key auths)
unfolding append_target
append_target-IsPure canal tipo none auths = return-IsPure auths
append_target-IsPure canal tipo (some key) auths = go (tipo == "m.room.member")
  where
    go :
        (b : Bool)
        → IsPure (
            if b
            then append_state canal "m.room.member" key auths
              >>= append_state canal "m.room.join_rules" ""
            else return auths)
    go true =
        bind-IsPure _ _ (append_state-IsPure canal "m.room.member" key auths)
          (append_state-IsPure canal "m.room.join_rules" "")
    go false = return-IsPure auths

resolve_event_dependencies-IsPure :
    (canal sender tipo : String) (key : Option String)
    → IsPure (resolve_event_dependencies canal sender tipo key)
unfolding resolve_event_dependencies
resolve_event_dependencies-IsPure canal sender tipo key =
    bind-IsPure _ _ (read-IsPure (λ t. tips_of canal t.extremidades)) (λ prevs.
      bind-IsPure _ _ (append_state-IsPure canal "m.room.create" "" []) (λ a.
        bind-IsPure _ _ (append_state-IsPure canal "m.room.power_levels" "" a) (λ b.
          bind-IsPure _ _ (append_state-IsPure canal "m.room.member" sender b)
            (λ c. bind-IsPure _ _ (append_target-IsPure canal tipo key c) (λ d. return-IsPure _)))))

place-IsPure : (canal sender : String) (ev : Evento) → IsPure (place canal sender ev)
unfolding place
place-IsPure canal sender ev =
    bind-IsPure _ _ (resolve_event_dependencies-IsPure canal sender ev.tipo ev.state_key) (λ deps.
      bind-IsPure _ _ (read-IsPure (max_depth_from_eventos (deps.0))) (λ d. return-IsPure _))

profile_names-IsPure : (user : String) → IsPure (profile_names user)
unfolding profile_names
profile_names-IsPure user =
    bind-IsPure _ _ (read_or-IsPure none (λ t. lookup user t.perfis)) (λ p. return-IsPure _)

store_own-IsAtomic :
    (env : Env) (canal user kind : String) (ev : Evento)
    → IsAtomic (store_own env canal user kind ev)
unfolding store_own
store_own-IsAtomic env canal user kind ev = execute-IsAtomic (own_body env canal user kind ev)

leave_from-IsAtomic :
    (env : Env) (user canal status : String) → IsAtomic (leave_from env user canal status)
unfolding leave_from
leave_from-IsAtomic env user canal status =
    go (status == "leave" || status == "ban") (not (status == "join") && not (status == "invite"))
  where
    go :
        (gone elsewhere : Bool)
        → IsAtomic (
            if gone then return tt else do
              fail_if elsewhere bad_state
              names ← profile_names user
              ev ←
                  store_own env canal user "leave"
                    (build_leave_event env canal user (names.0) (names.1))
              wake_up user
              queue_outgoing ev)
    go true elsewhere = IsPure-IsAtomic _ (return-IsPure tt)
    go false elsewhere = bind-IsAtomic _ _ (fail_if-IsPure elsewhere bad_state) (λ u.
        bind-IsAtomic _ _ (profile_names-IsPure user) (λ names.
          then_total-IsAtomic _ _
            (store_own-IsAtomic env canal user "leave"
              (build_leave_event env canal user (names.0) (names.1)))
            (λ ev. then-IsTotal _ _ (wake_up-IsTotal user) (queue_outgoing-IsTotal ev))))

-- A LeaveRoom that fails, at whatever statement, leaves all tables as they were.
pub leave_room-IsAtomic : (env : Env) (user canal : String) → IsAtomic (leave_room env user canal)
unfolding leave_room
leave_room-IsAtomic env user canal =
    bind-IsAtomic _ _ (read-IsPure (membership_of canal user)) (leave_from-IsAtomic env user canal)

check_access-IsPure : (user canal rule : String) → IsPure (check_access user canal rule)
unfolding check_access
check_access-IsPure user canal rule =
    go (rule == "invite" || rule == "private") (not (rule == "public"))
  where
    go :
        (closed shut : Bool)
        → IsPure (
            if closed
            then (read_or "" (membership_of canal user) >>= λ status.
                fail_if (not (status == "invite")) forbidden)
            else fail_if shut forbidden)
    go true shut =
        bind-IsPure _ _ (read_or-IsPure "" (membership_of canal user))
          (λ status. fail_if-IsPure _ forbidden)
    go false shut = fail_if-IsPure shut forbidden

-- A JoinLocalRoom that fails, at whatever statement, leaves all tables as they were.
pub join_local_room-IsAtomic :
    (env : Env) (user canal : String) → IsAtomic (join_local_room env user canal)
unfolding join_local_room
join_local_room-IsAtomic env user canal =
    bind-IsAtomic _ _ (read-IsPure (join_rule_of env canal)) (λ found.
      bind-IsAtomic _ _ (of_option-IsPure db_failure found) (λ rule.
        bind-IsAtomic _ _ (check_access-IsPure user canal rule) (λ u.
          bind-IsAtomic _ _ (profile_names-IsPure user) (λ names.
            then_total-IsAtomic _ _
              (store_own-IsAtomic env canal user "join"
                (build_join_event env canal user (names.0) (names.1)))
              queue_outgoing-IsTotal))))

check_levels_event-IsPure :
    (env : Env) (user : String) (id : Option String) → IsPure (check_levels_event env user id)
unfolding check_levels_event
check_levels_event-IsPure env user none = return-IsPure tt
check_levels_event-IsPure env user (some id) =
    bind-IsPure _ _ (read-IsPure (λ t. lookup id t.eventos)) (λ found.
      bind-IsPure _ _ (of_option-IsPure db_failure found) (λ ev.
        bind-IsPure _ _ (of_option-IsPure bad_content (env.invite_levels ev.content))
          (λ pl. fail_if-IsPure _ forbidden)))

check_invite-IsPure :
    (env : Env) (canal inviter invitee : String) → IsPure (check_invite env canal inviter invitee)
unfolding check_invite check_invite_power_level
check_invite-IsPure env canal inviter invitee =
    bind-IsPure _ _ (read-IsPure (membership_of canal inviter)) (λ s.
      bind-IsPure _ _ (fail_if-IsPure _ forbidden) (λ u.
        bind-IsPure _ _ (read-IsPure (membership_of canal invitee)) (λ r.
          bind-IsPure _ _ (fail_if-IsPure _ forbidden) (λ v.
            bind-IsPure _ _ (fail_if-IsPure _ forbidden) (λ w.
              bind-IsPure _ _ (read_or-IsPure none (state_event_id canal "m.room.power_levels" ""))
                (check_levels_event-IsPure env inviter))))))

strip_id-IsPure :
    (stripped : List StrippedEvento) (id : Option String) → IsPure (strip_id stripped id)
unfolding strip_id
strip_id-IsPure stripped none = return-IsPure stripped
strip_id-IsPure stripped (some id) =
    bind-IsPure _ _ (read_or-IsPure none (λ t. lookup id t.eventos)) (λ found. return-IsPure _)

strip_types-IsPure :
    (canal : String) (tipos : List String) (stripped : List StrippedEvento)
    → IsPure (strip_types canal tipos stripped)
unfolding strip_types
strip_types-IsPure canal [] stripped = return-IsPure stripped
strip_types-IsPure canal (tipo ∷ tipos) stripped =
    bind-IsPure _ _ (read_or-IsPure none (state_event_id canal tipo ""))
      (λ found. bind-IsPure _ _ (strip_id-IsPure stripped found) (strip_types-IsPure canal tipos))

countersign-IsPure :
    (env : Env) (canal invitee : String) (ev : Evento) → IsPure (countersign env canal invitee ev)
unfolding countersign build_invite_room_state
countersign-IsPure env canal invitee ev =
    bind-IsPure _ _ (of_option-IsPure hash_failure (env.sign_matrix_event ev)) (λ sigs.
      bind-IsPure _ _ (read-IsPure (λ t. lookup canal t.canais)) (λ room.
        bind-IsPure _ _ (strip_types-IsPure canal relevant_types []) (λ state.
          of_option-IsPure remote_failure (
            env.send_invite_call (extract_domain_from_user_id invitee) canal (version_of room)
              (record ev { signatures = sigs }) state))))

sign_invite-IsPure :
    (env : Env) (canal invitee : String) (ev : Evento) → IsPure (sign_invite env canal invitee ev)
unfolding sign_invite
sign_invite-IsPure env canal invitee ev = go (is_remote_user invitee env.server_name)
  where
    go : (b : Bool) → IsPure (if b then countersign env canal invitee ev else return ev)
    go true = countersign-IsPure env canal invitee ev
    go false = return-IsPure ev

-- An InviteUser that fails, at whatever statement or in the handshake with the invitee's server,
-- leaves all tables as they were.
pub invite_user-IsAtomic :
    (env : Env) (canal inviter invitee reason : String) (is_direct : Bool)
    → IsAtomic (invite_user env canal inviter invitee reason is_direct)
unfolding invite_user
invite_user-IsAtomic env canal inviter invitee reason is_direct =
    bind-IsAtomic _ _ (check_invite-IsPure env canal inviter invitee) (λ u.
      bind-IsAtomic _ _ (read_or-IsPure none (λ t. lookup invitee t.perfis)) (λ profile.
        bind-IsAtomic _ _
          (place-IsPure canal inviter
            (build_invite env canal inviter invitee reason is_direct profile))
          (λ placed.
            bind-IsAtomic _ _ (of_option-IsPure hash_failure (hash_matrix_event env placed)) (λ id.
              bind-IsAtomic _ _ (sign_invite-IsPure env canal invitee (record placed { id = id }))
                (λ ev.
                  then_total-IsAtomic _ _
                    (execute-IsAtomic (store_member canal invitee "invite" ev))
                    (λ w. queue_outgoing-IsTotal ev))))))
