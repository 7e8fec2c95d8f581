-- ===== src/DeviceKeys/Queue.antt =====
-- The one-time keys of a device for an algorithm are a queue: what was added, of which a first part
-- has been handed out, and the rows are the rest.
use dragonite.Base.{
  suc, String, ◌≡◌, refl, sym, ◌∙◌, ap, true, false, not, ◌&&◌, Option, none, some, List, [], ◌∷◌,
  ◌++◌, arith, ◌==◌, string_eq, if◌then◌else◌, Bool-cases, inl, inr, List-cases,
}
use mathlib.Core.Path.{subst}
use dragonite.Base.Int.{pos, int_eq}
use dragonite.Base.Paging.{keep, keep-append, append_nil}
use dragonite.Base.Rows.{
  are_rising, are_up_to, are_rising-append, are_up_to-append, are_up_to-raise, are_rising-keep,
  are_up_to-keep, order_by-rising, keep-but_first, keep-but_other,
}
use dragonite.Domain.Keys.{ChaveUsoUnico}
use dragonite.Store.{Tables}
use dragonite.DeviceKeys.{has_key, add_one_time_key, is_for, first_of, oldest, without}
use text.Mathlib.TextEquality.{eq_iff}

unfoldable pub queue : String → String → Tables → List ChaveUsoUnico
unfolding keep is_for
queue device algorithm t = keep (is_for device algorithm) t.chaves_uso_unico

-- The ids rise in the order of insertion, and none is beyond the serial.
abbrev pub IsNumbered : Tables → Type 0
IsNumbered t =
    (are_rising (λ k. k.id) t.chaves_uso_unico ≡ true)
    × (are_up_to (λ k. k.id) (pos t.uso_unico_serial) t.chaves_uso_unico ≡ true)

-- The row that an upload adds, if it adds one.
unfoldable pub row_added : String → ChaveUsoUnico → Tables → List ChaveUsoUnico
unfolding has_key
row_added device k t =
    if has_key device k.key_id t.chaves_uso_unico
    then []
    else record k { id = pos (suc t.uso_unico_serial); dispositivo_id = device } ∷ []

rows-add :
    (device : String) (k : ChaveUsoUnico) (t : Tables)
    → (add_one_time_key device k t).chaves_uso_unico ≡ t.chaves_uso_unico ++ row_added device k t
unfolding add_one_time_key row_added
rows-add device k t = elim (Bool-cases (has_key device k.key_id t.chaves_uso_unico)) [
  | inl present ↦ rw present (sym (append_nil t.chaves_uso_unico))
  | inr new ↦ rw new refl
]

pub queue-add :
    (device algorithm : String) (owner : String) (k : ChaveUsoUnico) (t : Tables)
    → queue device algorithm (add_one_time_key owner k t)
      ≡ queue device algorithm t ++ keep (is_for device algorithm) (row_added owner k t)
unfolding queue
queue-add device algorithm owner k t =
    ap (keep (is_for device algorithm)) (rows-add owner k t)
    ∙ keep-append (is_for device algorithm) t.chaves_uso_unico (row_added owner k t)

pub add-IsNumbered :
    (device : String) (k : ChaveUsoUnico) (t : Tables)
    → IsNumbered t
    → IsNumbered (add_one_time_key device k t)
unfolding add_one_time_key
add-IsNumbered device k t (rising, low) =
    elim (Bool-cases (has_key device k.key_id t.chaves_uso_unico)) [
      | inl present ↦ rw present (
        rising,
        are_up_to-raise (λ k. k.id) (pos t.uso_unico_serial) (pos (suc t.uso_unico_serial))
            t.chaves_uso_unico (ground arith) low,
      )
      | inr new ↦ rw new (
        are_rising-append (λ k. k.id) (pos t.uso_unico_serial) t.chaves_uso_unico row rising low
            (ground arith),
        are_up_to-append (λ k. k.id) (pos t.uso_unico_serial) (pos (suc t.uso_unico_serial))
            t.chaves_uso_unico row (ground arith) (ground arith) low,
      )
    ]
  where
    row : ChaveUsoUnico
    row = record k { id = pos (suc t.uso_unico_serial); dispositivo_id = device }

pub oldest-queue :
    (device algorithm : String) (t : Tables)
    → IsNumbered t
    → oldest device algorithm t ≡ first_of (queue device algorithm t)
unfolding oldest queue
oldest-queue device algorithm t (rising, low) = ap first_of (
    order_by-rising (λ k. k.id) (keep (is_for device algorithm) t.chaves_uso_unico)
      (are_rising-keep (λ k. k.id) (is_for device algorithm) t.chaves_uso_unico rising))

pub without-IsNumbered :
    (o : Option ChaveUsoUnico) (t : Tables) → IsNumbered t → IsNumbered (without o t)
unfolding without
without-IsNumbered none t numbered = numbered
without-IsNumbered (some k) t (rising, low) = (
  are_rising-keep (λ k. k.id) (λ row. not (row.id == k.id)) t.chaves_uso_unico rising,
  are_up_to-keep (λ k. k.id) (pos t.uso_unico_serial) (λ row. not (row.id == k.id))
      t.chaves_uso_unico low,
)

abbrev pub taken_of : Option ChaveUsoUnico → List ChaveUsoUnico
taken_of none = []
taken_of (some k) = k ∷ []

-- A claim takes the first of the queue and leaves the rest.
pub queue-claim :
    (device algorithm : String) (t : Tables)
    → IsNumbered t
    → taken_of (oldest device algorithm t)
        ++ queue device algorithm (without (oldest device algorithm t) t)
      ≡ queue device algorithm t
unfolding without queue first_of
queue-claim device algorithm t numbered = elim (List-cases (queue device algorithm t)) [
  | inl empty ↦
      let nothing : oldest device algorithm t ≡ none =
        oldest-queue device algorithm t numbered ∙ ap first_of empty in
      subst (λ o. taken_of o ++ queue device algorithm (without o t) ≡ queue device algorithm t)
        (sym nothing) refl
  | inr (k, ks, found) ↦
      let first : oldest device algorithm t ≡ some k =
        oldest-queue device algorithm t numbered ∙ ap first_of found in
      subst (λ o. taken_of o ++ queue device algorithm (without o t) ≡ queue device algorithm t)
        (sym first)
        (ap (λ l. k ∷ l)
            (keep-but_first (λ k. k.id) (is_for device algorithm) t.chaves_uso_unico k ks
              (numbered.0) found)
          ∙ sym found)
]

-- A claim for another device or algorithm leaves it as it is.
pub queue-claim_other :
    (device algorithm owner other : String) (t : Tables)
    → (owner == device && other == algorithm) ≡ false
    → IsNumbered t
    → queue device algorithm (without (oldest owner other t) t) ≡ queue device algorithm t
unfolding without queue first_of is_for
queue-claim_other device algorithm owner other t differ numbered =
    elim (List-cases (queue owner other t)) [
      | inl empty ↦
          let nothing : oldest owner other t ≡ none =
            oldest-queue owner other t numbered ∙ ap first_of empty in
          subst (λ o. queue device algorithm (without o t) ≡ queue device algorithm t) (sym nothing)
            refl
      | inr (k, ks, found) ↦
          let first : oldest owner other t ≡ some k =
            oldest-queue owner other t numbered ∙ ap first_of found in
          subst (λ o. queue device algorithm (without o t) ≡ queue device algorithm t) (sym first)
            (keep-but_other (λ k. k.id) (is_for owner other) (is_for device algorithm)
              t.chaves_uso_unico k ks
              (λ x own. ground (
                arith,
                own,
                differ,
                eq_iff owner device,
                eq_iff other algorithm,
                eq_iff x.dispositivo_id owner,
                eq_iff x.dispositivo_id device,
                eq_iff x.algorithm other,
                eq_iff x.algorithm algorithm,
              ))
              (numbered.0) found)
    ]
