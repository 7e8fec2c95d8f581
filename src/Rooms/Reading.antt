-- ===== src/Rooms/Reading.antt =====
-- Reading a room, receipts and typing: the other operations of
-- internal/usecase/room_interaction.go, with their statements of
-- internal/infrastructure/postgres/evento_storage.go. The JSON library, the formatting of tokens and
-- strconv.ParseInt are the parameter `Format`.
pub mod Access
pub mod Messages
pub mod Pages
use dragonite.Base.{
  ℕ, String, Bool, true, false, not, ◌&&◌, ◌||◌, Option, none, some, List, [], ◌∷◌, ◌==◌, string_eq,
  if◌then◌else◌,
}
use dragonite.Base.Int.{ℤ, pos, negsuc, ltb_ℤ, int_eq}
use dragonite.Base.Map.{Map, lookup, insert}
use dragonite.Base.Paging.{keep, take}
use dragonite.Base.Rows.{order_by}
use dragonite.Domain.{Evento}
use dragonite.Domain.Delivery.{SyncToken, Receipt, Typing}
use dragonite.Store.{Tables, StateId, member_id_eq, membership_of, state_event_id}
use dragonite.Store.Action.{
  db_failure, forbidden, not_found, bad_content, Action, ◌>>=◌, ◌>>◌, return, fail_if, of_option,
  read, read_or, write,
}
use dragonite.Rooms.Messages.{require_join}
use dragonite.Sync.{rows, kind_in, get_current_state_events}

-- The content of a member event as a struct.
pub record MemberContent : Type 0 where
  pub membership : String
  pub display_name : Option String
  pub avatar_url : Option String

-- `membership_text` is content["membership"] if it is a text.
pub record Format : Type 0 where
  pub scan : String → Option SyncToken
  pub encode : SyncToken → String
  pub parse_int : String → Option ℤ
  pub membership_text : String → Option String
  pub member_content : String → Option MemberContent

abbrev pub zero_token : SyncToken
zero_token = record {
  timeline_position = pos 0;
  presence_position = pos 0;
  receipt_position = pos 0;
  to_device_position = pos 0;
}

-- `ParseToken`
unfoldable pub parse_token : Format → String → SyncToken
parse_token c s = elim (c.scan s) [ none ↦ zero_token | some token ↦ token ]

-- The columns that GetEvento selects; the others stay zero.
unfoldable pub selected : Evento → Evento
selected row = record row { stream_ordering = pos 0; redacts = "" }

unfoldable pub find_selected : String → Map String Evento → Option Evento
unfolding lookup selected
find_selected id eventos = elim (lookup id eventos) [ none ↦ none | some row ↦ some (selected row) ]

-- GetEvento fails on an id without an event.
unfoldable pub get_evento : String → Action Evento
unfolding read find_selected of_option
get_evento id = read (λ t. find_selected id t.eventos) >>= of_option db_failure

unfoldable pub get_event : String → String → String → Action Evento
unfolding require_join get_evento
get_event user canal id = do
  require_join canal user
  ev ← get_evento id
  fail_if (not (ev.canal_id == canal)) forbidden
  return ev

unfoldable pub get_room_state : String → String → Action (List Evento)
unfolding require_join read get_current_state_events
get_room_state user canal = do
  require_join canal user
  read (λ t. get_current_state_events canal t.estado_atual t.eventos)

unfoldable pub get_room_member_events : String → Tables → List Evento
unfolding keep get_current_state_events
get_room_member_events canal t =
    keep (λ ev. ev.tipo == "m.room.member")
      (get_current_state_events canal t.estado_atual t.eventos)

unfoldable pub passes : String → String → Option String → Bool
passes wanted unwanted none = false
passes wanted unwanted (some kind) =
    if not (wanted == "") && not (kind == wanted)
    then false
    else if not (unwanted == "") && kind == unwanted
    then false
    else true

unfoldable pub filter_members : Format → String → String → List Evento → List Evento
unfolding keep passes
filter_members c wanted unwanted events =
    if wanted == "" && unwanted == ""
    then events
    else keep (λ ev. passes wanted unwanted (c.membership_text ev.content)) events

unfoldable pub get_room_members : Format → String → String → String → String → Action (List Evento)
unfolding require_join read get_room_member_events filter_members
get_room_members c user canal wanted unwanted = do
  require_join canal user
  events ← read (get_room_member_events canal)
  return (filter_members c wanted unwanted events)

pub record JoinedMemberProfile : Type 0 where
  pub display_name : Option String
  pub avatar_url : Option String

unfoldable pub add_joined :
    String → Option MemberContent → Map String JoinedMemberProfile → Map String JoinedMemberProfile
unfolding insert
add_joined user none joined = joined
add_joined user (some m) joined =
    if m.membership == "join"
    then insert user (record { display_name = m.display_name; avatar_url = m.avatar_url }) joined
    else joined

unfoldable pub joined_of :
    Format → List Evento → Map String JoinedMemberProfile → Map String JoinedMemberProfile
unfolding add_joined
joined_of c [] joined = joined
joined_of c (ev ∷ evs) joined = joined_of c evs (elim ev.state_key [
  | none ↦ joined
  | some user ↦ if user == "" then joined else add_joined user (c.member_content ev.content) joined
])

unfoldable pub get_joined_members :
    Format → String → String → Action (Map String JoinedMemberProfile)
unfolding require_join read get_room_member_events joined_of
get_joined_members c user canal = do
  require_join canal user
  events ← read (get_room_member_events canal)
  return (joined_of c events [])

unfoldable pub may_read_state : Option String → Bool
may_read_state none = false
may_read_state (some kind) = kind == "join" || kind == "leave"

-- A failed query of the state is a missing state.
unfoldable pub get_state_event_content : String → String → String → String → Action Evento
unfolding read kind_in may_read_state read_or state_event_id of_option get_evento
get_state_event_content canal user tipo key = do
  kind ← read (kind_in canal user)
  fail_if (not (may_read_state kind)) forbidden
  found ← read_or none (state_event_id canal tipo key)
  id ← of_option not_found found
  get_evento id

-- INSERT INTO read_receipts ... ON CONFLICT DO UPDATE: the type is not stored.
unfoldable pub save_receipt : String → String → String → String → ℤ → Tables → Tables
unfolding insert
save_receipt user canal tipo id ts t = record t {
  recibos =
      insert (record { canal = canal; usuario = user }) (record { evento = id; ts = ts }) t.recibos;
}

unfoldable pub send_receipt : ℤ → String → String → String → String → Action (Unit {0})
unfolding read_or membership_of fail_if write save_receipt
send_receipt now user canal tipo id = do
  status ← read_or "" (membership_of canal user)
  fail_if (not (status == "join") && not (status == "invite")) forbidden
  write (save_receipt user canal tipo id now)

unfoldable pub save_typing_state : String → String → Bool → ℤ → Tables → Tables
unfolding insert
save_typing_state canal user is_typing expires_at t = record t {
  digitando =
      insert (record { canal = canal; usuario = user })
        (record { is_typing = is_typing; expires_at = expires_at }) t.digitando;
}

-- The addition of the clock is a parameter `plus`, since it is of 64 bits.
unfoldable pub expires : (ℤ → ℤ) → Bool → ℤ → ℤ
expires plus is_typing timeout =
    if is_typing then plus (if ltb_ℤ (pos 0) timeout then timeout else pos 30000) else pos 0

unfoldable pub set_typing : (ℤ → ℤ) → String → String → Bool → ℤ → Action (Unit {0})
unfolding require_join write save_typing_state expires
set_typing plus user canal is_typing timeout = do
  require_join canal user
  write (save_typing_state canal user is_typing (expires plus is_typing timeout))
