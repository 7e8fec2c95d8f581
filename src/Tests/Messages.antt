-- ===== src/Tests/Messages.antt =====
-- Alice, a member, sends a message and invites by a state event; the commit of a third attempt
-- fails.
use dragonite.Base.{String, ◌≡◌, refl, some}
use dragonite.Store.{membership_of}
use dragonite.Store.Action.{Db, ok, db_failure, ◌>>=◌, of_option, fail_if, return}
use dragonite.Base.Map.{lookup}
use dragonite.Rooms.Messages.{EventParams, StateParams, send_state_event}
use dragonite.Rooms.Messages.Timeline.{are_shallow}
use dragonite.Rooms.Messages.Sent.{Extends}
use dragonite.Rooms.Messages.StateSent.{Holds, IsNoted}
use dragonite.Rooms.Messages.Outcome.{send_state_event_sends, send_state_event_undone}
use dragonite.Rooms.Genesis.{seal}
use dragonite.Rooms.{hash_matrix_event}
use dragonite.Tests.Rooms.{env, tables, calm, shaky}
use dragonite.Tests.Samples.{decoder}

abbrev message : EventParams
message = record {
  event_type = "m.room.message";
  room_id = "!r:x";
  sender_id = "@alice:x";
  content = "hello";
  txn_id = "t1";
}

abbrev banning : StateParams
banning = record {
  room_id = "!r:x";
  user_id = "@alice:x";
  event_type = "m.room.member";
  state_key = "@bob:x";
  content = "ban";
}

send_state_event_sends_example :
    (id : String) × (db : Db) × (send_state_event env decoder some banning calm ≡ (ok id, db))
    × Extends "!r:x" id tables db.tables
    × Holds banning id db.tables
    × IsNoted decoder some banning tables db.tables
unfolding membership_of lookup seal hash_matrix_event are_shallow
send_state_event_sends_example =
    send_state_event_sends env decoder some banning calm refl refl refl ("ban", refl)
      (λ e. (_, refl))

send_state_event_undone_example :
    (send_state_event env decoder some banning shaky).1.tables ≡ tables
unfolding send_state_event ◌>>=◌ of_option fail_if return
send_state_event_undone_example =
    send_state_event_undone env decoder some banning shaky
      (send_state_event env decoder some banning shaky).1 db_failure refl
