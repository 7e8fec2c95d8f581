-- ===== src/ToDevice.antt =====
-- Messages from device to device: ToDeviceService (internal/usecase/to_device_service.go), the
-- statements of internal/infrastructure/postgres/to_device_storage.go and getToDeviceSync of
-- internal/usecase/sync_service.go. A Go map is given in the order of its iteration.
pub mod Mailbox
pub mod Delivery
pub mod Session
use dragonite.Base.{
  ℕ, suc, String, Bool, true, false, not, ◌&&◌, Option, none, some, List, [], ◌∷◌, ◌++◌, map, ◌==◌,
  string_eq, elem, if◌then◌else◌,
}
use dragonite.Base.Int.{ℤ, pos, ltb_ℤ, leb_ℤ}
use dragonite.Base.Map.{Map, keys, lookup, insert}
use dragonite.Base.Paging.{keep, take}
use dragonite.Base.Rows.{order_by}
use dragonite.Domain.Delivery.{ToDeviceMessage, SyncToken}
use dragonite.Domain.Keys.{Dispositivo}
use dragonite.Store.{Tables}
use dragonite.Store.Action.{Action, ◌>>=◌, ◌>>◌, return, read, read_or, write}
use dragonite.Rooms.{extract_domain_from_user_id}

-- The statements. A new message takes the next id.
unfoldable pub insert_message : ToDeviceMessage → Tables → Tables
insert_message m t = record t {
  mensagens = t.mensagens ++ record m { id = pos (suc t.mensagem_serial) } ∷ [];
  mensagem_serial = suc t.mensagem_serial;
}

unfoldable pub belongs : String → String → ToDeviceMessage → Bool
belongs user device m = m.user_id == user && m.device_id == device

unfoldable pub is_after : String → String → ℤ → ToDeviceMessage → Bool
unfolding belongs
is_after user device since m = belongs user device m && ltb_ℤ since m.id

unfoldable pub is_delivered : String → String → ℤ → ToDeviceMessage → Bool
unfolding belongs
is_delivered user device up_to m = belongs user device m && leb_ℤ m.id up_to

unfoldable pub get_to_device_messages_since :
    String → String → ℤ → ℕ → Tables → List ToDeviceMessage
unfolding keep is_after order_by take
get_to_device_messages_since user device since limit t =
    take limit (order_by (λ m. m.id) (keep (is_after user device since) t.mensagens))

unfoldable pub delete_to_device_messages_up_to : String → String → ℤ → Tables → Tables
unfolding keep is_delivered
delete_to_device_messages_up_to user device up_to t = record t {
  mensagens = keep (λ m. not (is_delivered user device up_to m)) t.mensagens;
}

-- One statement for each message.
unfoldable pub insert_to_device_messages : List ToDeviceMessage → Action (Unit {0})
unfolding write insert_message
insert_to_device_messages [] = return tt
insert_to_device_messages (m ∷ ms) = write (insert_message m) >> insert_to_device_messages ms

-- The ids of the user's devices with keys: GetDeviceKeys without a list of devices.
unfoldable pub devices_with_keys : String → Map String Dispositivo → List String → List String
unfolding elem
devices_with_keys user [] keyed = []
devices_with_keys user ((id, d) ∷ rest) keyed =
    let further = devices_with_keys user rest keyed in
    if d.usuario == user && elem id keyed then id ∷ further else further

-- The devices that one entry means; a failed query of "*" skips the entry.
unfoldable pub target_devices : String → String → Action (List String)
unfolding read_or devices_with_keys keys
target_devices user device =
    if device == "*"
    then read_or [] (λ t. devices_with_keys user t.dispositivos (keys t.chaves_dispositivo))
    else return (device ∷ [])

-- params: who sends which type of message.
pub record SendParams : Type 0 where
  pub sender : String
  pub event_type : String
  pub messages : Map String (Map String String)

unfoldable pub addressed : SendParams → String → String → List String → List ToDeviceMessage
addressed p user content [] = []
addressed p user content (device ∷ devices) =
    record {
      id = pos 0;
      user_id = user;
      device_id = device;
      sender = p.sender;
      tipo = p.event_type;
      content = content;
    }
    ∷ addressed p user content devices

unfoldable pub pending_for : SendParams → String → Map String String → Action (List ToDeviceMessage)
unfolding target_devices addressed
pending_for p user [] = return []
pending_for p user ((device, content) ∷ rest) = do
  targets ← target_devices user device
  more ← pending_for p user rest
  return (addressed p user content targets ++ more)

-- The users of this server.
unfoldable pub pending_of :
    String → SendParams → Map String (Map String String) → Action (List ToDeviceMessage)
unfolding extract_domain_from_user_id pending_for
pending_of server p [] = return []
pending_of server p ((user, devices) ∷ rest) =
    if extract_domain_from_user_id user == server
    then (pending_for p user devices >>= λ here.
        pending_of server p rest >>= λ more. return (here ++ more))
    else pending_of server p rest

-- remoteByServer, the calls to make to the other servers: server -> user -> device -> content.
abbrev pub Remote : Type 0
Remote = Map String (Map String (Map String String))

unfoldable pub remote_by_server : String → Map String (Map String String) → Remote → Remote
unfolding extract_domain_from_user_id lookup insert
remote_by_server server [] remote = remote
remote_by_server server ((user, devices) ∷ rest) remote =
    if extract_domain_from_user_id user == server
    then remote_by_server server rest remote
    else remote_by_server server rest (
        insert (extract_domain_from_user_id user)
          (insert user devices (users_of (lookup (extract_domain_from_user_id user) remote)))
          remote)
  where
    users_of : Option (Map String (Map String String)) → Map String (Map String String)
    users_of none = []
    users_of (some users) = users

-- `Send`: the local messages are stored; the calls to other servers, which run on their own, are
-- the result.
unfoldable pub send : String → SendParams → Action Remote
unfolding pending_of insert_to_device_messages remote_by_server
send server p = do
  pending ← pending_of server p p.messages
  insert_to_device_messages pending
  return (remote_by_server server p.messages [])

unfoldable pub delivered_to : SendParams → String → Map String String → List ToDeviceMessage
unfolding addressed
delivered_to p user [] = []
delivered_to p user ((device, content) ∷ rest) =
    addressed p user content (device ∷ []) ++ delivered_to p user rest

unfoldable pub delivered :
    String → SendParams → Map String (Map String String) → List ToDeviceMessage
unfolding extract_domain_from_user_id delivered_to
delivered server p [] = []
delivered server p ((user, devices) ∷ rest) =
    let more = delivered server p rest in
    if extract_domain_from_user_id user == server then delivered_to p user devices ++ more else more

-- `DeliverFromFederation`
unfoldable pub deliver_from_federation : String → SendParams → Action (Unit {0})
unfolding delivered insert_to_device_messages
deliver_from_federation server p = insert_to_device_messages (delivered server p p.messages)

pub record ToDeviceEventSync : Type 0 where
  pub content : String
  pub sender : String
  pub tipo : String

unfoldable pub event_of : ToDeviceMessage → ToDeviceEventSync
event_of m = record { content = m.content; sender = m.sender; tipo = m.tipo }

-- maxID
unfoldable pub max_id : ℤ → List ToDeviceMessage → ℤ
max_id k [] = k
max_id k (m ∷ ms) = max_id (if ltb_ℤ k m.id then m.id else k) ms

-- No message is nil.
unfoldable pub to_device_answer : ℤ → List ToDeviceMessage → Option (List ToDeviceEventSync) × ℤ
unfolding event_of max_id
to_device_answer since [] = (none, since)
to_device_answer since (m ∷ ms) = (some (map event_of (m ∷ ms)), max_id since (m ∷ ms))

-- The messages that the client has confirmed are deleted.
unfoldable pub confirm : String → String → ℤ → Action (Unit {0})
unfolding write delete_to_device_messages_up_to
confirm user device since =
    if ltb_ℤ (pos 0) since
    then write (delete_to_device_messages_up_to user device since)
    else return tt

unfoldable pub fetch_to_device : String → String → ℤ → Action (Option (List ToDeviceEventSync) × ℤ)
unfolding confirm read get_to_device_messages_since to_device_answer
fetch_to_device user device since = do
  confirm user device since
  messages ← read (get_to_device_messages_since user device since 100)
  return (to_device_answer since messages)

unfoldable pub get_to_device_sync :
    String → String → SyncToken → Action (Option (List ToDeviceEventSync) × ℤ)
unfolding fetch_to_device
get_to_device_sync user device since =
    if device == ""
    then return (none, since.to_device_position)
    else fetch_to_device user device since.to_device_position
