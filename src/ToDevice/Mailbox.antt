-- ===== src/ToDevice/Mailbox.antt =====
-- What waits for a device: its messages after a position, in the order of their ids.
use dragonite.Base.{
  ℕ, suc, String, ◌≡◌, refl, sym, ◌∙◌, true, false, not, ◌&&◌, List, [], ◌∷◌, ◌++◌, arith, ◌==◌,
  string_eq, if◌then◌else◌, Bool-cases, inl, inr,
}
use dragonite.Base.Int.{ℤ, pos, ltb_ℤ, ltb_ℤ_trans}
use dragonite.Base.Paging.{keep, take, drop, keep-append, keep-keep}
use dragonite.Base.Rows.{
  order_by, last_key, are_above, are_rising, are_up_to, are_rising-keep, order_by-rising,
  keep-last_key, are_above-after, are_up_to-keep, are_up_to-append, are_rising-append,
  last_key-take,
}
use dragonite.Domain.Delivery.{ToDeviceMessage}
use dragonite.Store.{Tables}
use dragonite.ToDevice.{
  insert_message, belongs, is_after, is_delivered, get_to_device_messages_since,
  delete_to_device_messages_up_to, max_id,
}
use text.Mathlib.TextEquality.{eq_iff}

unfoldable pub mailbox : String → String → ℤ → Tables → List ToDeviceMessage
unfolding keep is_after
mailbox user device since t = keep (is_after user device since) t.mensagens

-- The ids rise in the order of insertion, and none is beyond the serial.
abbrev pub IsNumbered : Tables → Type 0
IsNumbered t =
    (are_rising (λ m. m.id) t.mensagens ≡ true)
    × (are_up_to (λ m. m.id) (pos t.mensagem_serial) t.mensagens ≡ true)

pub insert_message-IsNumbered :
    (m : ToDeviceMessage) (t : Tables) → IsNumbered t → IsNumbered (insert_message m t)
unfolding insert_message
insert_message-IsNumbered m t (rising, low) = (
  are_rising-append (λ m. m.id) (pos t.mensagem_serial) t.mensagens
      (record m { id = pos (suc t.mensagem_serial) }) rising low (ground arith),
  are_up_to-append (λ m. m.id) (pos t.mensagem_serial) (pos (suc t.mensagem_serial)) t.mensagens
      (record m { id = pos (suc t.mensagem_serial) }) (ground arith) (ground arith) low,
)

pub delete-IsNumbered :
    (user device : String) (up_to : ℤ) (t : Tables)
    → IsNumbered t
    → IsNumbered (delete_to_device_messages_up_to user device up_to t)
unfolding delete_to_device_messages_up_to
delete-IsNumbered user device up_to t (rising, low) = (
  are_rising-keep (λ m. m.id) (λ m. not (is_delivered user device up_to m)) t.mensagens rising,
  are_up_to-keep (λ m. m.id) (pos t.mensagem_serial) (λ m. not (is_delivered user device up_to m))
      t.mensagens low,
)

-- A new message waits at the end of the mailbox of its device.
pub mailbox-insert :
    (user device : String) (since : ℤ) (m : ToDeviceMessage) (t : Tables)
    → ltb_ℤ (pos t.mensagem_serial) since ≡ false
    → mailbox user device since (insert_message m t)
      ≡ mailbox user device since t
        ++ (if belongs user device m
            then record m { id = pos (suc t.mensagem_serial) } ∷ []
            else [])
unfolding mailbox insert_message keep is_after belongs
mailbox-insert user device since m t fits = elim (Bool-cases (belongs user device m)) [
  | inl own ↦ ground (
    arith,
    own,
    fits,
    keep-append (is_after user device since) t.mensagens
        (record m { id = pos (suc t.mensagem_serial) } ∷ []),
  )
  | inr other ↦ ground (
    arith,
    other,
    keep-append (is_after user device since) t.mensagens
        (record m { id = pos (suc t.mensagem_serial) } ∷ []),
  )
]

-- What is confirmed is not waiting: its deletion leaves every mailbox as it is.
pub mailbox-delete :
    (user device : String) (up_to : ℤ) (t : Tables)
    → mailbox user device up_to (delete_to_device_messages_up_to user device up_to t)
      ≡ mailbox user device up_to t
unfolding mailbox delete_to_device_messages_up_to is_after is_delivered
mailbox-delete user device up_to t =
    keep-keep (is_after user device up_to) (λ m. not (is_delivered user device up_to m))
      (is_after user device up_to) (λ m. ground arith) t.mensagens

pub mailbox-delete_other :
    (user device owner other : String) (since up_to : ℤ) (t : Tables)
    → (user == owner && device == other) ≡ false
    → mailbox owner other since (delete_to_device_messages_up_to user device up_to t)
      ≡ mailbox owner other since t
unfolding mailbox delete_to_device_messages_up_to is_after is_delivered belongs
mailbox-delete_other user device owner other since up_to t differ =
    keep-keep (is_after owner other since) (λ m. not (is_delivered user device up_to m))
      (is_after owner other since)
      (λ m. ground (
        arith,
        differ,
        eq_iff user owner,
        eq_iff device other,
        eq_iff m.user_id user,
        eq_iff m.user_id owner,
        eq_iff m.device_id device,
        eq_iff m.device_id other,
      ))
      t.mensagens

-- The query returns the first messages that wait.
pub get-mailbox :
    (user device : String) (since : ℤ) (limit : ℕ) (t : Tables)
    → IsNumbered t
    → get_to_device_messages_since user device since limit t
      ≡ take limit (mailbox user device since t)
unfolding get_to_device_messages_since mailbox
get-mailbox user device since limit t (rising, low) =
    let ordered : order_by (λ m. m.id) (keep (is_after user device since) t.mensagens)
        ≡ keep (is_after user device since) t.mensagens =
      order_by-rising (λ m. m.id) (keep (is_after user device since) t.mensagens)
        (are_rising-keep (λ m. m.id) (is_after user device since) t.mensagens rising) in
    rw ordered refl

-- maxID is the last id.
pub max_id-last_key :
    (k : ℤ) (ms : List ToDeviceMessage)
    → are_above (λ m. m.id) k ms ≡ true
    → are_rising (λ m. m.id) ms ≡ true
    → max_id k ms ≡ last_key (λ m. m.id) k ms
unfolding max_id last_key are_above are_rising
max_id-last_key k [] above rising = refl
max_id-last_key k (m ∷ ms) above rising =
    let next : max_id m.id ms ≡ last_key (λ m. m.id) m.id ms =
      max_id-last_key m.id ms (ground (arith, rising)) (ground (arith, rising)) in
    ground (arith, above, next)

-- After the last message of a page, the rest waits.
pub mailbox-page :
    (user device : String) (since : ℤ) (limit : ℕ) (t : Tables)
    → IsNumbered t
    → mailbox user device (last_key (λ m. m.id) since (take limit (mailbox user device since t))) t
      ≡ drop limit (mailbox user device since t)
unfolding mailbox is_after
mailbox-page user device since limit t (rising, low) =
    sym (
      keep-keep (λ m. ltb_ℤ last m.id) (is_after user device since) (is_after user device last)
        (λ m. ground (arith, late, ltb_ℤ_trans since m.id last, ltb_ℤ_trans last m.id since))
        t.mensagens)
    ∙ keep-last_key (λ m. m.id) since limit waiting above ordered
  where
    waiting : List ToDeviceMessage
    waiting = keep (is_after user device since) t.mensagens

    last : ℤ
    last = last_key (λ m. m.id) since (take limit waiting)

    above : are_above (λ m. m.id) since waiting ≡ true
    above =
        are_above-after (λ m. m.id) since (is_after user device since) t.mensagens
          (λ m h. ground (arith, h))

    ordered : are_rising (λ m. m.id) waiting ≡ true
    ordered = are_rising-keep (λ m. m.id) (is_after user device since) t.mensagens rising

    late : ltb_ℤ last since ≡ false
    late = last_key-take (λ m. m.id) since limit waiting above ordered
