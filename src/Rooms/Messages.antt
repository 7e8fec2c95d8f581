-- ===== src/Rooms/Messages.antt =====
-- Sending a message or a state event (SendEvent and SendStateEvent of
-- internal/usecase/room_interaction.go). The content is the JSON text that the client gave.
pub mod Timeline
pub mod Sent
pub mod StateSent
pub mod Outcome
use dragonite.Base.{
  String, Bool, true, false, not, ◌&&◌, Option, none, some, List, [], ◌∷◌, ◌==◌, string_eq,
  if◌then◌else◌,
}
use dragonite.Domain.{RawMessage, Evento, Decoder}
use dragonite.Store.{
  save_evento, update_forward_extremities, upsert_current_state, upsert_membership, membership_of,
}
use dragonite.Store.Action.{
  forbidden, bad_content, hash_failure, Action, ◌>>=◌, ◌>>◌, return, fail_if, of_option, read_or,
  write, execute, queue_outgoing,
}
use dragonite.Rooms.{text, Env}
use dragonite.Rooms.Build.{new_base_event}
use dragonite.Rooms.Genesis.{seal}
use dragonite.Rooms.Membership.{place}

pub record EventParams : Type 0 where
  pub event_type : String
  pub room_id : String
  pub sender_id : String
  pub content : RawMessage
  pub txn_id : String

pub record StateParams : Type 0 where
  pub room_id : String
  pub user_id : String
  pub event_type : String
  pub state_key : String
  pub content : RawMessage

-- `status, err := GetUserMembership(...)`; an error is not "join" either.
unfoldable pub require_join : String → String → Action (Unit {0})
unfolding read_or membership_of fail_if
require_join canal user = do
  status ← read_or "" (membership_of canal user)
  fail_if (not (status == "join")) forbidden

-- The event with its place in the graph, its id and its signature.
unfoldable pub compose : Env → String → String → Evento → Action Evento
unfolding place seal
compose env canal sender built = do
  placed ← place canal sender built
  of_option hash_failure (seal env placed)

-- The event is saved and becomes the end of the timeline.
unfoldable pub extend_timeline : String → Evento → Action (Unit {0})
unfolding write save_evento update_forward_extremities
extend_timeline canal ev = do
  write (save_evento ev)
  write (update_forward_extremities canal ev.id ev.prev_eventos)

unfoldable pub build_message : Env → EventParams → RawMessage → Evento
unfolding new_base_event
build_message env p content =
    let built = new_base_event env p.room_id p.sender_id p.event_type none content in
    if p.txn_id == ""
    then built
    else record built { unsigned = env.marshal (("transaction_id", text p.txn_id) ∷ []) }

unfoldable pub send_event_body : Env → EventParams → Evento → Action Evento
unfolding compose extend_timeline
send_event_body env p built = do
  ev ← compose env p.room_id p.sender_id built
  extend_timeline p.room_id ev
  return ev

unfoldable pub send_event : Env → (RawMessage → Option RawMessage) → EventParams → Action String
unfolding require_join of_option build_message send_event_body execute queue_outgoing
send_event env marshal p = do
  require_join p.room_id p.sender_id
  content ← of_option bad_content (marshal p.content)
  ev ← execute (send_event_body env p (build_message env p content))
  queue_outgoing ev
  return ev.id

unfoldable pub build_state : Env → StateParams → RawMessage → Evento
unfolding new_base_event
build_state env p content =
    new_base_event env p.room_id p.user_id p.event_type (some p.state_key) content

-- The membership that the content of a member event gives, if it can be read and is not empty.
unfoldable pub membership_given : Decoder → String → RawMessage → Option String
membership_given d tipo content =
    if tipo == "m.room.member"
    then elim (d.membership content) [
      | none ↦ none
      | some kind ↦ if kind == "" then none else some kind
    ]
    else none

unfoldable pub record_membership : String → String → Option String → String → Action (Unit {0})
unfolding write upsert_membership
record_membership canal user none id = return tt
record_membership canal user (some kind) id = write (upsert_membership canal user kind id)

unfoldable pub send_state_body : Env → Decoder → StateParams → Evento → Action Evento
unfolding compose extend_timeline upsert_current_state membership_given record_membership
send_state_body env d p built = do
  ev ← compose env p.room_id p.user_id built
  extend_timeline p.room_id ev
  write (
      upsert_current_state p.room_id (record { event_type = p.event_type; state_key = p.state_key })
        ev.id)
  record_membership p.room_id p.state_key (membership_given d p.event_type built.content) ev.id
  return ev

unfoldable pub send_state_event :
    Env → Decoder → (RawMessage → Option RawMessage) → StateParams → Action String
unfolding require_join of_option build_state send_state_body execute queue_outgoing
send_state_event env d marshal p = do
  require_join p.room_id p.user_id
  content ← of_option bad_content (marshal p.content)
  ev ← execute (send_state_body env d p (build_state env p content))
  queue_outgoing ev
  return ev.id
