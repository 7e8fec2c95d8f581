-- ===== src/Rooms/Membership/Invite.antt =====
-- Inviting a user (internal/usecase/room_membership.go).
use dragonite.Base.{
  String, Bool, true, not, Option, none, some, List, [], ◌∷◌, ◌++◌, ◌==◌, string_eq, if◌then◌else◌,
}
use dragonite.Base.Int.{ℤ, pos, ltb_ℤ}
use dragonite.Base.Map.{lookup}
use dragonite.Domain.{Evento, StrippedEvento}
use dragonite.Store.{Profile, Canal, membership_of, state_event_id}
use dragonite.Store.Action.{
  db_failure, forbidden, hash_failure, remote_failure, bad_content, Action, ◌>>=◌, ◌>>◌, return,
  fail_if, of_option, read, read_or, execute, queue_outgoing,
}
use dragonite.Rooms.{
  text, flag, Fields, InviteLevels, Env, hash_matrix_event, is_remote_user,
  extract_domain_from_user_id,
}
use dragonite.Rooms.Build.{new_base_event, text_field}
use dragonite.Rooms.Membership.{place, store_member}

-- The level of a user, and the one that an invitation asks for.
unfoldable pub number_or_zero : Option ℤ → ℤ
number_or_zero none = pos 0
number_or_zero (some n) = n

unfoldable pub inviter_level : InviteLevels → String → ℤ
unfolding lookup number_or_zero
inviter_level pl user = elim (lookup user pl.users) [
  | none ↦ number_or_zero pl.users_default
  | some level ↦ level
]

-- GetEvento fails on an id without an event.
unfoldable pub check_levels_event : Env → String → Option String → Action (Unit {0})
unfolding read lookup inviter_level number_or_zero
check_levels_event env user none = return tt
check_levels_event env user (some id) = do
  found ← read (λ t. lookup id t.eventos)
  ev ← of_option db_failure found
  pl ← of_option bad_content (env.invite_levels ev.content)
  fail_if (ltb_ℤ (inviter_level pl user) (number_or_zero pl.invite)) forbidden

unfoldable pub check_invite_power_level : Env → String → String → Action (Unit {0})
unfolding read_or state_event_id check_levels_event
check_invite_power_level env canal user =
    read_or none (state_event_id canal "m.room.power_levels" "") >>= check_levels_event env user

-- A state without an event is left out, and so is one whose query fails.
unfoldable pub strip_found : List StrippedEvento → Option Evento → List StrippedEvento
strip_found stripped none = stripped
strip_found stripped (some ev) =
    stripped
    ++ record { tipo = ev.tipo; content = ev.content; state_key = ev.state_key; sender = ev.sender }
      ∷ []

unfoldable pub strip_id : List StrippedEvento → Option String → Action (List StrippedEvento)
unfolding read_or lookup strip_found
strip_id stripped none = return stripped
strip_id stripped (some id) = do
  found ← read_or none (λ t. lookup id t.eventos)
  return (strip_found stripped found)

unfoldable pub strip_types :
    String → List String → List StrippedEvento → Action (List StrippedEvento)
unfolding read_or state_event_id strip_id
strip_types canal [] stripped = return stripped
strip_types canal (tipo ∷ tipos) stripped = do
  found ← read_or none (state_event_id canal tipo "")
  more ← strip_id stripped found
  strip_types canal tipos more

abbrev pub relevant_types : List String
relevant_types =
    "m.room.create" ∷ "m.room.join_rules" ∷ "m.room.canonical_alias" ∷ "m.room.name"
    ∷ "m.room.avatar" ∷ "m.room.topic" ∷ "m.room.encryption" ∷ []

unfoldable pub build_invite_room_state : String → Action (List StrippedEvento)
unfolding strip_types
build_invite_room_state canal = strip_types canal relevant_types []

unfoldable pub invite_content : String → Bool → Option Profile → Fields
unfolding text_field
invite_content reason is_direct profile =
    ("membership", text "invite")
    ∷ (text_field "reason" reason
        ++ ((if is_direct then ("is_direct", flag true) ∷ [] else []) ++ profile_fields profile))
  where
    field : String → Option String → Fields
    field name none = []
    field name (some s) = (name, text s) ∷ []

    profile_fields : Option Profile → Fields
    profile_fields none = []
    profile_fields (some p) = field "displayname" p.display_name ++ field "avatar_url" p.avatar_url

-- roomVersion
unfoldable pub version_of : Option Canal → String
version_of none = "11"
version_of (some canal) = if canal.versao == "" then "11" else canal.versao

-- The handshake with the invitee's server, whose event replaces ours. Two further queries of
-- GetByID, whose errors are dropped and whose results are not used here, are left out.
unfoldable pub countersign : Env → String → String → Evento → Action Evento
unfolding read lookup version_of build_invite_room_state extract_domain_from_user_id
countersign env canal invitee ev = do
  sigs ← of_option hash_failure (env.sign_matrix_event ev)
  room ← read (λ t. lookup canal t.canais)
  state ← build_invite_room_state canal
  of_option remote_failure (
      env.send_invite_call (extract_domain_from_user_id invitee) canal (version_of room)
        (record ev { signatures = sigs }) state)

unfoldable pub sign_invite : Env → String → String → Evento → Action Evento
unfolding is_remote_user countersign
sign_invite env canal invitee ev =
    if is_remote_user invitee env.server_name then countersign env canal invitee ev else return ev

-- Steps 1 to 3: who may invite whom.
unfoldable pub check_invite : Env → String → String → String → Action (Unit {0})
unfolding read membership_of check_invite_power_level
check_invite env canal inviter invitee = do
  inviter_status ← read (membership_of canal inviter)
  fail_if (not (inviter_status == "join")) forbidden
  invitee_status ← read (membership_of canal invitee)
  fail_if (invitee_status == "ban") forbidden
  fail_if (invitee_status == "join") forbidden
  check_invite_power_level env canal inviter

unfoldable pub build_invite :
    Env → String → String → String → String → Bool → Option Profile → Evento
unfolding new_base_event invite_content
build_invite env canal inviter invitee reason is_direct profile =
    new_base_event env canal inviter "m.room.member" (some invitee)
      (env.marshal (invite_content reason is_direct profile))

unfoldable pub invite_user : Env → String → String → String → String → Bool → Action (Unit {0})
unfolding check_invite read_or lookup build_invite place hash_matrix_event sign_invite execute
    store_member queue_outgoing
invite_user env canal inviter invitee reason is_direct = do
  check_invite env canal inviter invitee
  profile ← read_or none (λ t. lookup invitee t.perfis)
  placed ← place canal inviter (build_invite env canal inviter invitee reason is_direct profile)
  id ← of_option hash_failure (hash_matrix_event env placed)
  ev ← sign_invite env canal invitee (record placed { id = id })
  execute (store_member canal invitee "invite" ev)
  queue_outgoing ev
