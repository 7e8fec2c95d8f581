-- ===== src/Rooms/Membership.antt =====
-- Leaving, joining and inviting (internal/usecase/room_membership.go) and the events that a new
-- event names (ResolveEventDependencies, internal/usecase/auth_rule_resolver.go).
pub mod Atomic
pub mod Effects
pub mod Invite
pub mod Invites
pub mod Joining
pub mod Outcome
use dragonite.Base.{
  String, Bool, true, false, not, ◌&&◌, ◌||◌, Option, none, some, List, [], ◌∷◌, ◌++◌, ◌==◌,
  string_eq, if◌then◌else◌,
}
use dragonite.Base.Int.{ℤ, pos, incr, next_int64, ltb_ℤ}
use dragonite.Base.Map.{Map, lookup}
use dragonite.Domain.{RawMessage, Evento, StrippedEvento, StateTuple}
use dragonite.Store.{
  StateId, Tables, Profile, Canal, save_evento, upsert_current_state, upsert_membership,
  update_forward_extremities, tips_of, membership_of, state_event_id, max_depth_from_eventos,
}
use dragonite.Store.Action.{
  Result, db_failure, forbidden, bad_state, hash_failure, remote_failure, bad_content, Action,
  ◌>>=◌, ◌>>◌, return, fail, fail_if, of_option, read, read_or, write, execute, wake_up,
  queue_outgoing,
}
use dragonite.Rooms.{
  Value, text, flag, Fields, InviteLevels, Env, hash_matrix_event, is_remote_user,
  extract_domain_from_user_id, append_state,
}
use dragonite.Rooms.Build.{new_base_event, text_field, build_join_event, build_leave_event}

-- The last two auth events: only an event about a member has them.
unfoldable pub append_target : String → String → Option String → List String → Action (List String)
unfolding append_state
append_target canal tipo none auths = return auths
append_target canal tipo (some key) auths =
    if tipo == "m.room.member"
    then (append_state canal "m.room.member" key auths
        >>= append_state canal "m.room.join_rules" "")
    else return auths

unfoldable pub resolve_event_dependencies :
    String → String → String → Option String → Action (List String × List String)
unfolding append_state append_target read tips_of
resolve_event_dependencies canal sender tipo key = do
  prevs ← read (λ t. tips_of canal t.extremidades)
  a ← append_state canal "m.room.create" "" []
  b ← append_state canal "m.room.power_levels" "" a
  c ← append_state canal "m.room.member" sender b
  auths ← append_target canal tipo key c
  return (prevs, auths)

-- GetProfileByID, whose error is dropped, and the two names with "" for nil.
unfoldable pub name_or_empty : Option String → String
name_or_empty none = ""
name_or_empty (some s) = s

unfoldable pub names_of : Option Profile → String × String
unfolding name_or_empty
names_of none = ("", "")
names_of (some p) = (name_or_empty p.display_name, name_or_empty p.avatar_url)

unfoldable pub profile_names : String → Action (String × String)
unfolding read_or names_of lookup
profile_names user = do
  profile ← read_or none (λ t. lookup user t.perfis)
  return (names_of profile)

-- `eventID, _ := HashMatrixEvent(...)`
unfoldable pub id_or_empty : Option String → String
id_or_empty none = ""
id_or_empty (some id) = id

-- The event with its place in the graph.
unfoldable pub place : String → String → Evento → Action Evento
unfolding resolve_event_dependencies read max_depth_from_eventos next_int64
place canal sender ev = do
  deps ← resolve_event_dependencies canal sender ev.tipo ev.state_key
  depth ← read (max_depth_from_eventos (deps.0))
  return (record ev { prev_eventos = deps.0; auth_eventos = deps.1; depth = next_int64 depth })

-- The four writes of a member event about `user`.
unfoldable pub store_member : String → String → String → Evento → Action (Unit {0})
unfolding write save_evento update_forward_extremities upsert_current_state upsert_membership
store_member canal user kind ev = do
  write (save_evento ev)
  write (update_forward_extremities canal ev.id ev.prev_eventos)
  write
      (upsert_current_state canal (record { event_type = "m.room.member"; state_key = user }) ev.id)
  write (upsert_membership canal user kind ev.id)

-- The body of the transaction of LeaveRoom and JoinLocalRoom; it returns the event as the body left it.
unfoldable pub own_body : Env → String → String → String → Evento → Action Evento
unfolding place hash_matrix_event id_or_empty store_member
own_body env canal user kind built = do
  placed ← place canal user built
  let ev : Evento = record placed { id = id_or_empty (hash_matrix_event env placed) }
  store_member canal user kind ev
  return ev

unfoldable pub store_own : Env → String → String → String → Evento → Action Evento
unfolding execute own_body
store_own env canal user kind built = execute (own_body env canal user kind built)

-- Once the user's membership is known.
unfoldable pub leave_from : Env → String → String → String → Action (Unit {0})
unfolding profile_names build_leave_event store_own wake_up queue_outgoing
leave_from env user canal status = if status == "leave" || status == "ban" then return tt else do
  fail_if (not (status == "join") && not (status == "invite")) bad_state
  names ← profile_names user
  ev ← store_own env canal user "leave" (build_leave_event env canal user (names.0) (names.1))
  wake_up user
  queue_outgoing ev

unfoldable pub leave_room : Env → String → String → Action (Unit {0})
unfolding read membership_of leave_from
leave_room env user canal = read (membership_of canal user) >>= leave_from env user canal

-- The rules event of the room's state, whatever its state key, if its event is stored.
unfoldable pub rules_event : String → Map StateId String → Map String Evento → Option Evento
unfolding lookup
rules_event canal [] eventos = none
rules_event canal ((k, id) ∷ rest) eventos =
    let further = rules_event canal rest eventos in
    if k.canal == canal && k.tuple.event_type == "m.room.join_rules"
    then elim (lookup id eventos) [ none ↦ further | some ev ↦ some ev ]
    else further

-- GetJoinRule: no rules event reads as "invite"; one without a rule is an error (`none`).
unfoldable pub join_rule_of : Env → String → Tables → Option String
unfolding rules_event
join_rule_of env canal t = elim (rules_event canal t.estado_atual t.eventos) [
  | none ↦ some "invite"
  | some ev ↦ env.join_rule ev.content
]

-- The access check; an error of GetUserMembership reads as no membership.
unfoldable pub check_access : String → String → String → Action (Unit {0})
unfolding read_or membership_of
check_access user canal rule =
    if rule == "invite" || rule == "private"
    then (read_or "" (membership_of canal user) >>= λ status.
        fail_if (not (status == "invite")) forbidden)
    else fail_if (not (rule == "public")) forbidden

unfoldable pub join_local_room : Env → String → String → Action (Unit {0})
unfolding read join_rule_of check_access profile_names build_join_event store_own queue_outgoing
join_local_room env user canal = do
  found ← read (join_rule_of env canal)
  rule ← of_option db_failure found
  check_access user canal rule
  names ← profile_names user
  ev ← store_own env canal user "join" (build_join_event env canal user (names.0) (names.1))
  queue_outgoing ev
