-- ===== src/Sync/View.antt =====
-- The rooms of a response (GetInviteRooms, GetJoinedRooms and GetLeaveRooms of
-- internal/usecase/sync_service.go).
use dragonite.Base.{
  String, Bool, true, false, not, ◌&&◌, Option, none, some, List, [], ◌∷◌, ◌++◌, map, ◌==◌,
  string_eq, if◌then◌else◌,
}
use dragonite.Base.Int.{ℤ, pos, ltb_ℤ, int_eq}
use dragonite.Base.Map.{Map, lookup, insert}
use dragonite.Domain.{Evento, StrippedEvento}
use dragonite.Domain.Delivery.{SyncToken, AccountData}
use dragonite.Store.Action.{Action, ◌>>=◌, return, attempt, read, read_or}
use dragonite.Rooms.Membership.Invite.{strip_types, relevant_types}
use dragonite.Sync.{
  get_events_of_canal_since, get_events_of_canal_since_left, get_user_rooms,
  get_current_state_events, get_account_data_of_canal, get_invite_events_since,
}
use dragonite.Sync.Unsigned.{Codec, unsigned_for_recipient}

pub record EventoWithoutCanalId : Type 0 where
  pub id : String
  pub tipo : String
  pub content : String
  pub sender : String
  pub origem_servidor_ts : ℤ
  pub state_key : Option String
  pub unsigned : String

pub record Chunk : Type 0 where
  pub events : List EventoWithoutCanalId
  pub limited : Bool
  pub prev_batch : SyncToken

pub record JoinedRoom : Type 0 where
  pub account_data : List AccountData
  pub state : List EventoWithoutCanalId
  pub timeline : Chunk

pub record LeftRoom : Type 0 where
  pub state : List EventoWithoutCanalId
  pub timeline : Chunk

unfoldable pub state_event : Evento → EventoWithoutCanalId
state_event ev = record {
  id = ev.id;
  tipo = ev.tipo;
  content = ev.content;
  sender = ev.sender;
  origem_servidor_ts = ev.origem_servidor_ts;
  state_key = ev.state_key;
  unsigned = ev.unsigned;
}

unfoldable pub timeline_event : Codec → String → Evento → EventoWithoutCanalId
unfolding unsigned_for_recipient
timeline_event c user ev = record {
  id = ev.id;
  tipo = ev.tipo;
  content = ev.content;
  sender = ev.sender;
  origem_servidor_ts = ev.origem_servidor_ts;
  state_key = ev.state_key;
  unsigned = unsigned_for_recipient c ev.unsigned ev.sender user;
}

-- The state events among those of the timeline.
unfoldable pub state_among : List Evento → List EventoWithoutCanalId
unfolding state_event
state_among [] = []
state_among (ev ∷ evs) = elim ev.state_key [
  | none ↦ state_among evs
  | some key ↦ state_event ev ∷ state_among evs
]

-- max(events[0].StreamOrdering, 0)
unfoldable pub prev_batch_of : SyncToken → List Evento → SyncToken
prev_batch_of since [] = since
prev_batch_of since (ev ∷ evs) = record since {
  timeline_position = if ltb_ℤ ev.stream_ordering (pos 0) then pos 0 else ev.stream_ordering;
}

unfoldable pub timeline_of : Codec → String → SyncToken → List Evento → Chunk
unfolding timeline_event prev_batch_of
timeline_of c user since events = record {
  events = map (timeline_event c user) events;
  limited = false;
  prev_batch = prev_batch_of since events;
}

unfoldable pub is_first_sync : SyncToken → Bool
is_first_sync since = since.timeline_position == pos 0

-- On the first sync the state of the room, later the state events among the new ones.
unfoldable pub state_of : String → SyncToken → List Evento → Action (List EventoWithoutCanalId)
unfolding is_first_sync read get_current_state_events state_event state_among
state_of canal since events =
    if is_first_sync since
    then (read (λ t. get_current_state_events canal t.estado_atual t.eventos) >>= λ state.
        return (map state_event state))
    else return (state_among events)

unfoldable pub is_nothing {ℓ} : {A : Type ℓ} → List A → Bool
is_nothing [] = true
is_nothing (x ∷ xs) = false

unfoldable pub joined_room : Codec → String → SyncToken → String → Action (Option JoinedRoom)
unfolding read get_events_of_canal_since state_of get_account_data_of_canal is_first_sync is_nothing
    timeline_of
joined_room c user since canal = do
  events ← read (get_events_of_canal_since user canal since.timeline_position)
  state ← state_of canal since events
  account ← read (get_account_data_of_canal user canal)
  return (
      if not (is_first_sync since)
        && (is_nothing events && (is_nothing state && is_nothing account))
      then none
      else some (record {
        account_data = account;
        state = state;
        timeline = timeline_of c user since events;
      }))

unfoldable pub left_room : Codec → String → SyncToken → String → Action (Option LeftRoom)
unfolding read get_events_of_canal_since_left state_of is_first_sync is_nothing timeline_of
left_room c user since canal = do
  events ← read (get_events_of_canal_since_left user canal since.timeline_position)
  state ← state_of canal since events
  return (
      if not (is_first_sync since) && (is_nothing events && is_nothing state)
      then none
      else some (record { state = state; timeline = timeline_of c user since events }))

-- A room for which a statement fails is skipped, and so is one without news.
unfoldable pub add_room {ℓ} :
    {R : Type ℓ} → String → Option (Option R) → Map String R → Map String R
unfolding insert
add_room canal none held = held
add_room canal (some none) held = held
add_room canal (some (some room)) held = insert canal room held

unfoldable pub each_room {ℓ} :
    {R : Type ℓ} → (String → Action (Option R)) → List String → Map String R → Action (Map String R)
unfolding attempt add_room
each_room view [] held = return held
each_room view (canal ∷ canais) held = do
  room ← attempt (view canal)
  each_room view canais (add_room canal room held)

-- A failed query is no rooms.
unfoldable pub get_joined_rooms : Codec → String → SyncToken → Action (Map String JoinedRoom)
unfolding read_or get_user_rooms each_room joined_room
get_joined_rooms c user since = do
  canais ← read_or [] (λ t. get_user_rooms "join" user t.memberships)
  each_room (joined_room c user since) canais []

unfoldable pub get_leave_rooms : Codec → String → SyncToken → Action (Map String LeftRoom)
unfolding read_or get_user_rooms each_room left_room
get_leave_rooms c user since = do
  canais ← read_or [] (λ t. get_user_rooms "leave" user t.memberships)
  each_room (left_room c user since) canais []

unfoldable pub build_invite_state_preview : String → Action (List StrippedEvento)
unfolding strip_types
build_invite_state_preview canal = strip_types canal relevant_types []

unfoldable pub preview_of : String → Option (List StrippedEvento) → Action (List StrippedEvento)
unfolding build_invite_state_preview
preview_of canal none = build_invite_state_preview canal
preview_of canal (some held) = return held

unfoldable pub add_invites :
    List Evento → Map String (List StrippedEvento) → Action (Map String (List StrippedEvento))
unfolding lookup preview_of insert
add_invites [] held = return held
add_invites (ev ∷ evs) held = do
  preview ← preview_of ev.canal_id (lookup ev.canal_id held)
  add_invites evs (
      insert ev.canal_id
        (preview
          ++ record {
            tipo = ev.tipo;
            content = ev.content;
            state_key = ev.state_key;
            sender = ev.sender;
          }
            ∷ [])
        held)

unfoldable pub get_invite_rooms : String → SyncToken → Action (Map String (List StrippedEvento))
unfolding read get_invite_events_since add_invites
get_invite_rooms user since =
    read (get_invite_events_since user since.timeline_position) >>= λ events. add_invites events []
