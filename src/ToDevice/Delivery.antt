-- ===== src/ToDevice/Delivery.antt =====
-- What one sync delivers to a device, and what it leaves.
use dragonite.Base.{
  String, ◌≡◌, refl, ◌∙◌, Bool, true, false, Option, none, some, List, [], ◌∷◌, map, arith,
  string_eq, if◌then◌else◌,
}
use dragonite.Base.Int.{ℤ, pos, ltb_ℤ}
use dragonite.Base.Paging.{take, drop}
use dragonite.Base.Rows.{
  last_key, are_above, are_rising, are_above-after, are_rising-keep, are_above-take,
  are_rising-take, last_key-up_to, are_up_to-keep,
}
use dragonite.Domain.Delivery.{ToDeviceMessage}
use dragonite.Store.{Tables}
use dragonite.Store.Action.{return, read, write, Ensures}
use dragonite.Store.Triples.{read-Ensures, return-Ensures, write-Ensures, bind-Ensures}
use dragonite.Store.Invariants.{Keeps, pure-Keeps, write-Keeps, bind-Keeps}
use dragonite.Store.Rules.{read-IsPure, return-IsPure}
use dragonite.ToDevice.{
  ToDeviceEventSync, event_of, max_id, is_after, to_device_answer, confirm, fetch_to_device,
  get_to_device_messages_since, delete_to_device_messages_up_to,
}
use dragonite.ToDevice.Mailbox.{
  mailbox, IsNumbered, delete-IsNumbered, mailbox-delete, get-mailbox, mailbox-page,
  max_id-last_key,
}

-- The tables after a sync from a position: what it confirmed may be gone, and nothing else.
abbrev pub Confirmed : String → String → ℤ → Tables → Tables → Type 0
Confirmed user device since before after =
    IsNumbered after
    × (after.mensagem_serial ≡ before.mensagem_serial)
    × (mailbox user device since after ≡ mailbox user device since before)

pub delete-Confirmed :
    (user device : String) (since : ℤ) (before t : Tables)
    → Confirmed user device since before t
    → Confirmed user device since before (delete_to_device_messages_up_to user device since t)
unfolding delete_to_device_messages_up_to
delete-Confirmed user device since before t (numbered, serial, waiting) = (
  delete-IsNumbered user device since t numbered,
  serial,
  mailbox-delete user device since t ∙ waiting,
)

-- A sync keeps what its deletion keeps, whatever the outcome.
module _ (I : Tables → Type 0) (user device : String) (since : ℤ)
    (keeps : (t : Tables) → I t → I (delete_to_device_messages_up_to user device since t)) where
  confirm-Keeps : Keeps I (confirm user device since)
  unfolding confirm
  confirm-Keeps = go (ltb_ℤ (pos 0) since)
    where
      go :
          (b : Bool)
          → Keeps I
              (if b then write (delete_to_device_messages_up_to user device since) else return tt)
      go true = write-Keeps I (delete_to_device_messages_up_to user device since) keeps
      go false = pure-Keeps I (return tt) (return-IsPure tt)

  pub fetch_to_device-Keeps : Keeps I (fetch_to_device user device since)
  unfolding fetch_to_device
  fetch_to_device-Keeps = bind-Keeps I (confirm user device since) _ confirm-Keeps λ u.
      bind-Keeps I (read (get_to_device_messages_since user device since 100)) _
        (pure-Keeps I _ (read-IsPure (get_to_device_messages_since user device since 100)))
        λ messages. pure-Keeps I _ (return-IsPure _)

module _ (F : Type 0) where
  confirm-Ensures :
      (user device : String) (since : ℤ) (Q : Unit {0} → Tables → Type 0) (t : Tables)
      → IsNumbered t
      → ((t' : Tables) → Confirmed user device since t t' → Q tt t')
      → Ensures F (confirm user device since) Q t
  unfolding confirm
  confirm-Ensures user device since Q t numbered q = go (ltb_ℤ (pos 0) since)
    where
      go :
          (b : Bool)
          → Ensures F
              (if b then write (delete_to_device_messages_up_to user device since) else return tt)
              Q
              t
      go true =
          write-Ensures F (delete_to_device_messages_up_to user device since) Q t
            (q _ (delete-Confirmed user device since t t (numbered, refl, refl)))
      go false = return-Ensures F tt Q t (q t (numbered, refl, refl))

  -- The answer is made of the first hundred messages that wait.
  pub fetch_to_device-Ensures :
      (user device : String) (since : ℤ) (t : Tables)
      → IsNumbered t
      → Ensures F
          (fetch_to_device user device since)
          (λ answer t'.
            Confirmed user device since t t'
            × (answer ≡ to_device_answer since (take 100 (mailbox user device since t))))
          t
  unfolding fetch_to_device
  fetch_to_device-Ensures user device since t numbered =
      bind-Ensures F (confirm user device since) _ _ t (
        confirm-Ensures user device since _ t numbered λ t' (numbered', serial, waiting).
          bind-Ensures F (read (get_to_device_messages_since user device since 100)) _ _ t' (
            read-Ensures F (get_to_device_messages_since user device since 100) _ t' (
              return-Ensures F
                (to_device_answer since (get_to_device_messages_since user device since 100 t')) _
                t'
                (
                  (numbered', serial, waiting),
                  rw (get-mailbox user device since 100 t' numbered', waiting) refl,
                ))))

-- The events and the position of an answer.
abbrev pub events_of : Option (List ToDeviceEventSync) → List ToDeviceEventSync
events_of none = []
events_of (some events) = events

answer-events :
    (since : ℤ) (ms : List ToDeviceMessage)
    → events_of (to_device_answer since ms).0 ≡ map event_of ms
unfolding to_device_answer
answer-events since [] = refl
answer-events since (m ∷ ms) = refl

answer-position :
    (since : ℤ) (ms : List ToDeviceMessage) → (to_device_answer since ms).1 ≡ max_id since ms
unfolding to_device_answer max_id
answer-position since [] = refl
answer-position since (m ∷ ms) = refl

-- A page that was delivered, and the position after it.
pub answer-page :
    (user device : String) (since : ℤ) (t : Tables)
    → IsNumbered t
    → ltb_ℤ (pos t.mensagem_serial) since ≡ false
    → (events_of (to_device_answer since (take 100 (mailbox user device since t))).0
        ≡ map event_of (take 100 (mailbox user device since t)))
      × (mailbox user device (to_device_answer since (take 100 (mailbox user device since t))).1 t
          ≡ drop 100 (mailbox user device since t))
      × (ltb_ℤ
            (pos t.mensagem_serial)
            (to_device_answer since (take 100 (mailbox user device since t))).1
          ≡ false)
unfolding mailbox is_after
answer-page user device since t (rising, low) fits = (
  answer-events since page,
  rw (answer-position since page ∙ last) (mailbox-page user device since 100 t (rising, low)),
  rw (answer-position since page ∙ last) (
      last_key-up_to (λ m. m.id) since (pos t.mensagem_serial) 100 (mailbox user device since t)
        fits
        (are_up_to-keep (λ m. m.id) (pos t.mensagem_serial) (is_after user device since) t.mensagens
          low)),
)
  where
    page : List ToDeviceMessage
    page = take 100 (mailbox user device since t)

    above : are_above (λ m. m.id) since (mailbox user device since t) ≡ true
    above =
        are_above-after (λ m. m.id) since (is_after user device since) t.mensagens
          (λ m h. ground (arith, h))

    ordered : are_rising (λ m. m.id) (mailbox user device since t) ≡ true
    ordered = are_rising-keep (λ m. m.id) (is_after user device since) t.mensagens rising

    last : max_id since page ≡ last_key (λ m. m.id) since page
    last =
        max_id-last_key since page
          (are_above-take (λ m. m.id) since 100 (mailbox user device since t) above)
          (are_rising-take (λ m. m.id) 100 (mailbox user device since t) ordered)
