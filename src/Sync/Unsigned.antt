-- ===== src/Sync/Unsigned.antt =====
-- unsignedForRecipient of internal/usecase/sync_service.go: the transaction id of an event is for its
-- sender only. The JSON library is the parameter `Codec`; an empty text is nil.
use dragonite.Base.{
  String, ◌≡◌, refl, sym, Bool, false, ◌||◌, Option, none, some, [], ◌∷◌, arith, ◌==◌, string_eq,
  elem, if◌then◌else◌, Bool-cases, Option-cases, inl, inr,
}
use mathlib.Core.Path.{subst}
use dragonite.Base.Map.{Map, keys}
use text.Mathlib.TextEquality.{eq_iff}

pub record Codec : Type 0 where
  pub decode : String → Option (Map String String)
  pub encode : Map String String → Option String

-- delete(data, name)
unfoldable pub erase : String → Map String String → Map String String
erase name [] = []
erase name ((at, value) ∷ rest) =
    let further = erase name rest in if at == name then further else (at, value) ∷ further

unfoldable pub encoded_or : String → Option String → String
encoded_or unsigned none = unsigned
encoded_or unsigned (some text) = text

unfoldable pub strip_transaction : Codec → String → Map String String → String
unfolding keys elem erase encoded_or
strip_transaction c unsigned fields =
    if elem "transaction_id" (keys fields)
    then elim (erase "transaction_id" fields) [
      | [] ↦ ""
      | kept ∷ more ↦ encoded_or unsigned (c.encode (kept ∷ more))
    ]
    else unsigned

unfoldable pub unsigned_for_recipient : Codec → String → String → String → String
unfolding strip_transaction
unsigned_for_recipient c unsigned sender requester =
    if unsigned == "" || sender == requester then unsigned else elim (c.decode unsigned) [
      | none ↦ unsigned
      | some fields ↦ strip_transaction c unsigned fields
    ]

-- The text shows a transaction id.
unfoldable pub shows_transaction : Codec → String → Bool
unfolding keys elem
shows_transaction c text = elim (c.decode text) [
  | none ↦ false
  | some fields ↦ elem "transaction_id" (keys fields)
]

elem-erase :
    (name : String) (fields : Map String String) → elem name (keys (erase name fields)) ≡ false
unfolding elem keys erase
elem-erase name [] = refl
elem-erase name ((at, value) ∷ rest) = ground (arith, elem-erase name rest)

undecoded : (c : Codec) (text : String) → c.decode text ≡ none → shows_transaction c text ≡ false
unfolding shows_transaction
undecoded c text h = rw (shows_transaction, h) refl

decoded :
    (c : Codec) (text : String) (fields : Map String String)
    → c.decode text ≡ some fields
    → elem "transaction_id" (keys fields) ≡ false
    → shows_transaction c text ≡ false
unfolding shows_transaction
decoded c text fields h absent = rw (shows_transaction, h) absent

-- The JSON library reads what it writes.
abbrev pub ReadsBack : Codec → Map String String → Type 0
ReadsBack c fields = (text : String) × (c.encode fields ≡ some text) × (c.decode text ≡ some fields)

kept-shows :
    (c : Codec) (unsigned : String) (kept : Map String String)
    → ReadsBack c kept
    → elem "transaction_id" (keys kept) ≡ false
    → shows_transaction c (encoded_or unsigned (c.encode kept)) ≡ false
unfolding shows_transaction encoded_or
kept-shows c unsigned kept faithful gone =
    let (text, made, back) = faithful in ground (arith, made, back, gone)

strip-hides :
    (c : Codec) (unsigned : String) (fields : Map String String)
    → c.decode "" ≡ none
    → ReadsBack c (erase "transaction_id" fields)
    → c.decode unsigned ≡ some fields
    → shows_transaction c (strip_transaction c unsigned fields) ≡ false
unfolding strip_transaction
strip-hides c unsigned fields empty faithful read =
    elim (Bool-cases (elem "transaction_id" (keys fields))) [
      | inl there ↦
          rw there
            (rest (erase "transaction_id" fields) faithful (elem-erase "transaction_id" fields))
      | inr absent ↦ rw absent (shown absent)
    ]
  where
    shown : elem "transaction_id" (keys fields) ≡ false → shows_transaction c unsigned ≡ false
    shown absent = decoded c unsigned fields read absent

    rest :
        (left : Map String String)
        → ReadsBack c left
        → elem "transaction_id" (keys left) ≡ false
        → shows_transaction c
            (elim left [ [] ↦ "" | kept ∷ more ↦ encoded_or unsigned (c.encode (kept ∷ more)) ])
          ≡ false
    rest [] back gone = undecoded c "" empty
    rest (kept ∷ more) back gone = kept-shows c unsigned (kept ∷ more) back gone

-- If the JSON library finds no object in an empty text, and reads back the object that it writes
-- without the transaction id, nobody but the sender of an event is shown its transaction id.
pub unsigned_for_recipient-hides :
    (c : Codec) (unsigned sender requester : String)
    → c.decode "" ≡ none
    → ((fields : Map String String)
        → c.decode unsigned ≡ some fields
        → ReadsBack c (erase "transaction_id" fields))
    → (sender == requester) ≡ false
    → shows_transaction c (unsigned_for_recipient c unsigned sender requester) ≡ false
unfolding unsigned_for_recipient
unsigned_for_recipient-hides c unsigned sender requester empty faithful other =
    elim (Bool-cases (unsigned == "")) [
      | inl blank ↦ rw blank (
          subst (λ text. shows_transaction c text ≡ false) (sym ((eq_iff unsigned "").0 blank))
            (undecoded c "" empty))
      | inr filled ↦ elim (Option-cases (c.decode unsigned)) [
        | inl unread ↦ rw (filled, other, unread) (undecoded c unsigned unread)
        | inr (fields, read) ↦
            rw (filled, other, read)
              (strip-hides c unsigned fields empty (faithful fields read) read)
      ]
    ]
