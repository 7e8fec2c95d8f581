-- ===== src/Rooms/Messages/Outcome.antt =====
-- The outcomes of sending a message or a state event.
use dragonite.Base.{String, true, ◌≡◌, Option, some, [], string_eq}
use dragonite.Domain.{RawMessage, Evento, Decoder}
use dragonite.Store.{membership_of}
use dragonite.Store.Action.{Error, ok, err, Db, forbidden, bad_content, IsAtomic, IsPure}
use dragonite.Store.Outcome.{undone, attained}
use dragonite.Store.Rules.{
  read_or-IsPure, of_option-IsPure, fail_if-IsPure, bind-IsPure, bind-IsAtomic, then_total-IsAtomic,
  then-IsTotal, execute-IsAtomic, queue_outgoing-IsTotal, return-IsTotal,
}
use dragonite.Rooms.{Env}
use dragonite.Rooms.Genesis.{seal}
use dragonite.Rooms.Messages.{
  EventParams, StateParams, require_join, send_event_body, build_message, send_event,
  send_state_body, build_state, send_state_event,
}
use dragonite.Rooms.Messages.Timeline.{are_shallow}
use dragonite.Rooms.Messages.Sent.{Extends, send_event-Ensures}
use dragonite.Rooms.Messages.StateSent.{Holds, IsNoted, send_state_event-Ensures}

require_join-IsPure : (canal user : String) → IsPure (require_join canal user)
unfolding require_join
require_join-IsPure canal user =
    bind-IsPure _ _ (read_or-IsPure "" (membership_of canal user))
      (λ status. fail_if-IsPure _ forbidden)

send_event-IsAtomic :
    (env : Env) (marshal : RawMessage → Option RawMessage) (p : EventParams)
    → IsAtomic (send_event env marshal p)
unfolding send_event
send_event-IsAtomic env marshal p =
    bind-IsAtomic _ _ (require_join-IsPure p.room_id p.sender_id) (λ u.
      bind-IsAtomic _ _ (of_option-IsPure bad_content (marshal p.content)) (λ content.
        then_total-IsAtomic _ _
          (execute-IsAtomic (send_event_body env p (build_message env p content)))
          (λ ev. then-IsTotal _ _ (queue_outgoing-IsTotal ev) (return-IsTotal ev.id))))

send_state_event-IsAtomic :
    (env : Env) (d : Decoder) (marshal : RawMessage → Option RawMessage) (p : StateParams)
    → IsAtomic (send_state_event env d marshal p)
unfolding send_state_event
send_state_event-IsAtomic env d marshal p =
    bind-IsAtomic _ _ (require_join-IsPure p.room_id p.user_id) (λ u.
      bind-IsAtomic _ _ (of_option-IsPure bad_content (marshal p.content)) (λ content.
        then_total-IsAtomic _ _
          (execute-IsAtomic (send_state_body env d p (build_state env p content)))
          (λ ev. then-IsTotal _ _ (queue_outgoing-IsTotal ev) (return-IsTotal ev.id))))

-- A SendEvent that fails, at whatever statement, leaves all tables as they were.
pub send_event_undone :
    (env : Env) (marshal : RawMessage → Option RawMessage) (p : EventParams) (db db' : Db)
    (e : Error)
    → send_event env marshal p db ≡ (err e, db')
    → db'.tables ≡ db.tables
send_event_undone env marshal p db db' e h =
    undone (send_event env marshal p) (send_event-IsAtomic env marshal p) db db' e h

-- A SendStateEvent that fails, at whatever statement, leaves all tables as they were.
pub send_state_event_undone :
    (env : Env) (d : Decoder) (marshal : RawMessage → Option RawMessage) (p : StateParams)
    (db db' : Db) (e : Error)
    → send_state_event env d marshal p db ≡ (err e, db')
    → db'.tables ≡ db.tables
send_state_event_undone env d marshal p db db' e h =
    undone (send_state_event env d marshal p) (send_state_event-IsAtomic env d marshal p) db db' e h

-- Where no statement fails, no stored event has the greatest depth of an int64, and every event can
-- be hashed and signed, a member's SendEvent of a content that can be encoded succeeds and extends
-- the timeline of the room: the new event names all the tips that the room had, is deeper than each
-- that is stored, is stored, and is the only tip.
pub send_event_sends :
    (env : Env) (marshal : RawMessage → Option RawMessage) (p : EventParams) (db : Db)
    → db.faults ≡ []
    → are_shallow db.tables.eventos ≡ true
    → membership_of p.room_id p.sender_id db.tables ≡ "join"
    → (content : RawMessage) × (marshal p.content ≡ some content)
    → ((e : Evento) → (out : Evento) × (seal env e ≡ some out))
    → (id : String) × (db' : Db) × (send_event env marshal p db ≡ (ok id, db'))
      × Extends p.room_id id db.tables db'.tables
send_event_sends env marshal p db calm shallow member encodes sealable =
    let (id, db', h, (joined, extended)) =
      attained (send_event env marshal p)
        (λ id t.
          (membership_of p.room_id p.sender_id db.tables ≡ "join")
          × Extends p.room_id id db.tables t)
        db
        (send_event-Ensures (Unit {0}) env marshal p db.tables shallow (λ u. member) (λ u. encodes)
          (λ u. sealable))
        calm in
    (id, db', h, extended)

-- Where no statement fails, no stored event has the greatest depth of an int64, and every event can
-- be hashed and signed, a member's SendStateEvent of a content that can be encoded succeeds and
-- extends the timeline of the room. The room's state holds the new event under its type and key. A
-- member event whose content names a membership that is not empty sets the membership of the user
-- that it is about, and any other event leaves it.
pub send_state_event_sends :
    (env : Env) (d : Decoder) (marshal : RawMessage → Option RawMessage) (p : StateParams) (db : Db)
    → db.faults ≡ []
    → are_shallow db.tables.eventos ≡ true
    → membership_of p.room_id p.user_id db.tables ≡ "join"
    → (content : RawMessage) × (marshal p.content ≡ some content)
    → ((e : Evento) → (out : Evento) × (seal env e ≡ some out))
    → (id : String) × (db' : Db) × (send_state_event env d marshal p db ≡ (ok id, db'))
      × Extends p.room_id id db.tables db'.tables
      × Holds p id db'.tables
      × IsNoted d marshal p db.tables db'.tables
send_state_event_sends env d marshal p db calm shallow member encodes sealable =
    let (id, db', h, (joined, extended, held, noted)) =
      attained (send_state_event env d marshal p)
        (λ id t.
          (membership_of p.room_id p.user_id db.tables ≡ "join")
          × Extends p.room_id id db.tables t
          × Holds p id t
          × IsNoted d marshal p db.tables t)
        db
        (send_state_event-Ensures (Unit {0}) env d marshal p db.tables shallow (λ u. member)
          (λ u. encodes) (λ u. sealable))
        calm in
    (id, db', h, extended, held, noted)
