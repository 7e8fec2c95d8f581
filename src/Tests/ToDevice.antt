-- ===== src/Tests/ToDevice.antt =====
-- A message arrives for Bob's device, which syncs twice.
use dragonite.Base.{◌≡◌, refl, some, [], ◌∷◌, ◌++◌, map}
use dragonite.Base.Int.{pos}
use dragonite.Base.Rows.{are_rising, are_up_to}
use dragonite.Domain.Delivery.{ToDeviceMessage}
use dragonite.Store.Action.{Db, ◌>>=◌, return}
use dragonite.ToDevice.{event_of, fetch_to_device, insert_message}
use dragonite.ToDevice.Mailbox.{mailbox}
use dragonite.ToDevice.Session.{
  State, Steps, arrives, answered, stop, step, fresh, steps-exactly_once,
}
use dragonite.Tests.Rooms.{tables, calm}

abbrev hello : ToDeviceMessage
hello = record {
  id = pos 0;
  user_id = "@bob:x";
  device_id = "D";
  sender = "@alice:x";
  tipo = "m.room_key";
  content = "{}";
}

abbrev arrived : State
arrived = record {
  tables = insert_message hello tables;
  position = pos 0;
  received = [];
  sent = event_of hello ∷ [];
}

abbrev waiting : Db
waiting = record calm { tables = insert_message hello tables }

abbrev synced : State
synced = record {
  tables = (fetch_to_device "@bob:x" "D" (pos 0) waiting).1.tables;
  position = pos 1;
  received = event_of hello ∷ [];
  sent = event_of hello ∷ [];
}

abbrev one_sync : Steps "@bob:x" "D" (fresh "@bob:x" "D" tables) synced
unfolding mailbox event_of fetch_to_device ◌>>=◌ insert_message return
one_sync =
    step (fresh "@bob:x" "D" tables) arrived synced (arrives (fresh "@bob:x" "D" tables) hello) (
      step arrived synced synced
        (answered arrived waiting (fetch_to_device "@bob:x" "D" (pos 0) waiting).1
          (some (event_of hello ∷ [])) (pos 1) refl refl)
        (stop synced))

steps-exactly_once_example :
    (event_of hello ∷ []) ++ map event_of (mailbox "@bob:x" "D" (pos 1) synced.tables)
    ≡ event_of hello ∷ []
unfolding are_rising are_up_to
steps-exactly_once_example = steps-exactly_once "@bob:x" "D" tables synced (refl, refl) one_sync
