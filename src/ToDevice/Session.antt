-- ===== src/ToDevice/Session.antt =====
-- A device that syncs again and again while messages arrive, other devices sync, calls fail and
-- responses are lost. The abstract view is a queue: what was sent to the device, of which it has
-- received a first part, and the mailbox is the rest.
use dragonite.Base.{
  suc, String, ◌≡◌, refl, sym, ◌∙◌, false, ◌&&◌, Option, List, [], ◌∷◌, ◌++◌, map, arith, ◌==◌,
  string_eq, if◌then◌else◌, Bool-cases, inl, inr,
}
use mathlib.Core.Path.{subst}
use dragonite.Base.Int.{ℤ, pos, ltb_ℤ}
use dragonite.Base.Paging.{take, drop, take-drop, append_assoc, append_nil}
use dragonite.Domain.Delivery.{ToDeviceMessage}
use dragonite.Store.{Tables}
use dragonite.Store.Action.{ok, Db}
use dragonite.Store.Outcome.{observed}
use dragonite.ToDevice.{
  ToDeviceEventSync, event_of, belongs, insert_message, fetch_to_device, to_device_answer,
  delete_to_device_messages_up_to,
}
use dragonite.ToDevice.Mailbox.{
  mailbox, IsNumbered, insert_message-IsNumbered, delete-IsNumbered, mailbox-insert,
  mailbox-delete_other,
}
use dragonite.ToDevice.Delivery.{
  Confirmed, delete-Confirmed, fetch_to_device-Keeps, fetch_to_device-Ensures, events_of,
  answer-page,
}

pub record State : Type 0 where
  pub tables : Tables
  pub position : ℤ
  pub received : List ToDeviceEventSync
  pub sent : List ToDeviceEventSync

pub data Step (user device : String) : State → State → Type 0 where
  -- A message is stored, for this device or another one.
  arrives :
      (s : State) (m : ToDeviceMessage)
      → Step user device s (record s {
        tables = insert_message m s.tables;
        sent = s.sent ++ (if belongs user device m then event_of m ∷ [] else []);
      })
  -- The device syncs from its position and takes what it gets.
  answered :
      (s : State) (db db' : Db) (answer : Option (List ToDeviceEventSync)) (next : ℤ)
      → db.tables ≡ s.tables
      → fetch_to_device user device s.position db ≡ (ok (answer, next), db')
      → Step user device s (record s {
        tables = db'.tables;
        position = next;
        received = s.received ++ events_of answer;
      })
  -- It syncs, and the call fails or its response is lost.
  unanswered :
      (s : State) (db : Db)
      → db.tables ≡ s.tables
      → Step user device s
          (record s { tables = (fetch_to_device user device s.position db).1.tables })
  -- Another device syncs, from any position.
  elsewhere :
      (s : State) (db : Db) (owner other : String) (since : ℤ)
      → db.tables ≡ s.tables
      → (owner == user && other == device) ≡ false
      → Step user device s (record s { tables = (fetch_to_device owner other since db).1.tables })

pub data Steps (user device : String) : State → State → Type 0 where
  stop : (s : State) → Steps user device s s
  step : (s t u : State) → Step user device s t → Steps user device t u → Steps user device s u

-- Nothing is lost, repeated or out of order.
abbrev pub IsFaithful : String → String → State → Type 0
IsFaithful user device s =
    IsNumbered s.tables
    × (ltb_ℤ (pos s.tables.mensagem_serial) s.position ≡ false)
    × (s.received ++ map event_of (mailbox user device s.position s.tables) ≡ s.sent)

map-append :
    (xs ys : List ToDeviceMessage) → map event_of (xs ++ ys) ≡ map event_of xs ++ map event_of ys
map-append [] ys = refl
map-append (x ∷ xs) ys = cc (map-append xs ys)

-- What a sync of this device keeps is faithful.
unanswered-IsFaithful :
    (user device : String) (s : State) (t : Tables)
    → IsFaithful user device s
    → Confirmed user device s.position s.tables t
    → IsFaithful user device (record s { tables = t })
unanswered-IsFaithful user device s t (numbered, fits, whole) (numbered', serial, waiting) =
    (numbered', ground (arith, serial, fits), rw waiting whole)

answered-IsFaithful :
    (user device : String) (s : State) (t : Tables) (answer : Option (List ToDeviceEventSync))
    (next : ℤ)
    → IsFaithful user device s
    → Confirmed user device s.position s.tables t
    → (answer, next)
      ≡ to_device_answer s.position (take 100 (mailbox user device s.position s.tables))
    → IsFaithful user device
        (record s { tables = t; position = next; received = s.received ++ events_of answer })
answered-IsFaithful user device s t answer next (numbered, fits, whole) (numbered', serial, waiting)
      made =
    (
      numbered',
      subst (λ a. ltb_ℤ (pos t.mensagem_serial) a.1 ≡ false) (sym made') (page.2),
      append_assoc s.received (events_of answer) (map event_of (mailbox user device next t))
          ∙ rw
              (
                subst (λ a. events_of a.0 ≡ map event_of (take 100 here)) (sym made') (page.0),
                subst (λ a. mailbox user device a.1 t ≡ drop 100 here) (sym made') (page.1),
              )
              (rw (sym (map-append (take 100 here) (drop 100 here)), take-drop 100 here, waiting)
                whole),
    )
  where
    here : List ToDeviceMessage
    here = mailbox user device s.position t

    page :
        (events_of (to_device_answer s.position (take 100 here)).0 ≡ map event_of (take 100 here))
        × (mailbox user device (to_device_answer s.position (take 100 here)).1 t ≡ drop 100 here)
        × (ltb_ℤ (pos t.mensagem_serial) (to_device_answer s.position (take 100 here)).1 ≡ false)
    page = answer-page user device s.position t numbered' (ground (arith, serial, fits))

    made' : (answer, next) ≡ to_device_answer s.position (take 100 here)
    made' = rw waiting made

Step-IsFaithful :
    (user device : String) {s t : State}
    → Step user device s t
    → IsFaithful user device s
    → IsFaithful user device t
unfolding event_of insert_message delete_to_device_messages_up_to
Step-IsFaithful user device (arrives s m) (numbered, fits, whole) =
    (insert_message-IsNumbered m s.tables numbered, ground (arith, fits), arrived)
  where
    arrived :
        s.received ++ map event_of (mailbox user device s.position (insert_message m s.tables))
        ≡ s.sent ++ (if belongs user device m then event_of m ∷ [] else [])
    arrived = elim (Bool-cases (belongs user device m)) [
      | inl own ↦
          rw (mailbox-insert user device s.position m s.tables fits, own)
            (rw
              (map-append (mailbox user device s.position s.tables)
                (record m { id = pos (suc s.tables.mensagem_serial) } ∷ []))
              (sym (
                  append_assoc s.received (map event_of (mailbox user device s.position s.tables))
                    (event_of m ∷ []))
                ∙ rw whole refl))
      | inr other ↦
          rw (mailbox-insert user device s.position m s.tables fits, other)
            (rw (append_nil (mailbox user device s.position s.tables))
              (rw (append_nil s.sent) whole))
    ]
Step-IsFaithful user device (answered s db db' answer next same ran) faithful =
    let (confirmed, made) =
      observed (fetch_to_device user device s.position)
        (λ a t.
          Confirmed user device s.position db.tables t
          × (a ≡ to_device_answer s.position (take 100 (mailbox user device s.position db.tables))))
        (answer, next) db db'
        (fetch_to_device-Ensures ⊥ user device s.position db.tables
          (subst IsNumbered (sym same) (faithful.0)))
        ran in
    answered-IsFaithful user device s db'.tables answer next faithful
      (subst (λ u. Confirmed user device s.position u db'.tables) same confirmed)
      (subst
        (λ u.
          (answer, next)
          ≡ to_device_answer s.position (take 100 (mailbox user device s.position u)))
        same made)
Step-IsFaithful user device (unanswered s db same) faithful =
    unanswered-IsFaithful user device s (fetch_to_device user device s.position db).1.tables
      faithful
      ((fetch_to_device-Keeps (Confirmed user device s.position s.tables) user device s.position
          (delete-Confirmed user device s.position s.tables)).run
        db (subst (Confirmed user device s.position s.tables) (sym same) (faithful.0, refl, refl)))
Step-IsFaithful user device (elsewhere s db owner other since same differ) faithful =
    unanswered-IsFaithful user device s (fetch_to_device owner other since db).1.tables faithful (
      (fetch_to_device-Keeps (Confirmed user device s.position s.tables) owner other since
          λ t (numbered, serial, waiting). (
            delete-IsNumbered owner other since t numbered,
            serial,
            mailbox-delete_other owner other user device s.position since t differ ∙ waiting,
          )).run
        db (subst (Confirmed user device s.position s.tables) (sym same) (faithful.0, refl, refl)))

Steps-IsFaithful :
    (user device : String) {s t : State}
    → Steps user device s t
    → IsFaithful user device s
    → IsFaithful user device t
Steps-IsFaithful user device (stop s) faithful = faithful
Steps-IsFaithful user device (step s t u first rest) faithful =
    Steps-IsFaithful user device rest (Step-IsFaithful user device first faithful)

-- A device that starts at position 0.
abbrev pub fresh : String → String → Tables → State
fresh user device t = record {
  tables = t;
  position = pos 0;
  received = [];
  sent = map event_of (mailbox user device (pos 0) t);
}

-- Exactly-once delivery, in order. In every run that starts at position 0 with numbered messages,
-- whatever messages arrive, other devices sync, calls fail and responses are lost, what the device
-- has received, followed by what waits in its mailbox, is what was sent to it.
pub steps-exactly_once :
    (user device : String) (t : Tables) (s : State)
    → IsNumbered t
    → Steps user device (fresh user device t) s
    → s.received ++ map event_of (mailbox user device s.position s.tables) ≡ s.sent
steps-exactly_once user device t s numbered steps =
    (Steps-IsFaithful user device steps (numbered, ground arith, refl)).2
