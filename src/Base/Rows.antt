-- ===== src/Base/Rows.antt =====
-- Rows with a number that grows: ORDER BY, the last row of a page, and what follows it.
use Prim.Native.Nat.{ℕ, zero, suc}
use mathlib.Core.Path.{◌≡◌, refl, sym, subst}
use mathlib.Core.Bool.{Bool, true, false, not, ◌&&◌}
use mathlib.Core.Logic.{inl, inr}
use mathlib.Core.List.{List, [], ◌∷◌, ◌++◌}
use native.Mathlib.Omega.{arith}
use dragonite.Base.Tests.{◌==◌, if◌then◌else◌, Bool-cases}
use dragonite.Base.Int.{ℤ, ltb_ℤ, ltb_ℤ_trans, ltb_ℤ_irrefl, int_eq, int_beq_iff}
use dragonite.Base.Paging.{drop, keep, take}

module _ {ℓ} {A : Type ℓ} (key : A → ℤ) where
  -- ORDER BY key ASC
  unfoldable pub insert_by : A → List A → List A
  insert_by x [] = x ∷ []
  insert_by x (y ∷ ys) =
      let rest = insert_by x ys in if ltb_ℤ (key x) (key y) then x ∷ y ∷ ys else y ∷ rest

  unfoldable pub order_by : List A → List A
  unfolding insert_by
  order_by [] = []
  order_by (x ∷ xs) = insert_by x (order_by xs)

  -- The number of the last row, or of x.
  unfoldable pub last_key : ℤ → List A → ℤ
  last_key k [] = k
  last_key k (x ∷ xs) = last_key (key x) xs

  unfoldable pub are_above : ℤ → List A → Bool
  are_above k [] = true
  are_above k (x ∷ xs) = ltb_ℤ k (key x) && are_above k xs

  unfoldable pub are_rising : List A → Bool
  unfolding are_above
  are_rising [] = true
  are_rising (x ∷ xs) = are_above (key x) xs && are_rising xs

  are_above-lower :
      (j k : ℤ) (xs : List A) → ltb_ℤ j k ≡ true → are_above k xs ≡ true → are_above j xs ≡ true
  unfolding are_above
  are_above-lower j k [] h above = refl
  are_above-lower j k (x ∷ xs) h above =
      ground (arith, h, above, are_above-lower j k xs h, ltb_ℤ_trans j k (key x))

  are_above-keep :
      (k : ℤ) (p : A → Bool) (xs : List A) → are_above k xs ≡ true → are_above k (keep p xs) ≡ true
  unfolding are_above keep
  are_above-keep k p [] above = refl
  are_above-keep k p (x ∷ xs) above = ground (arith, above, are_above-keep k p xs)

  pub are_rising-keep :
      (p : A → Bool) (xs : List A) → are_rising xs ≡ true → are_rising (keep p xs) ≡ true
  unfolding are_rising keep
  are_rising-keep p [] rising = refl
  are_rising-keep p (x ∷ xs) rising =
      ground (arith, rising, are_above-keep (key x) p xs, are_rising-keep p xs)

  -- Rows that lie in their order are in order.
  insert_by-least : (x : A) (xs : List A) → are_above (key x) xs ≡ true → insert_by x xs ≡ x ∷ xs
  unfolding insert_by are_above
  insert_by-least x [] above = refl
  insert_by-least x (y ∷ ys) above = ground (arith, above)

  pub order_by-rising : (xs : List A) → are_rising xs ≡ true → order_by xs ≡ xs
  unfolding order_by are_rising
  order_by-rising [] rising = refl
  order_by-rising (x ∷ xs) rising = ground (arith, rising, order_by-rising xs, insert_by-least x xs)

  -- Rows above a number, where all are.
  pub keep-above :
      (k : ℤ) (xs : List A) → are_above k xs ≡ true → keep (λ x. ltb_ℤ k (key x)) xs ≡ xs
  unfolding keep are_above
  keep-above k [] above = refl
  keep-above k (x ∷ xs) above = ground (arith, above, keep-above k xs)

  pub last_key-take :
      (k : ℤ) (n : ℕ) (xs : List A)
      → are_above k xs ≡ true
      → are_rising xs ≡ true
      → ltb_ℤ (last_key k (take n xs)) k ≡ false
  unfolding last_key take are_above are_rising
  last_key-take k zero xs above rising = ltb_ℤ_irrefl k
  last_key-take k (suc n) [] above rising = ltb_ℤ_irrefl k
  last_key-take k (suc n) (x ∷ xs) above rising = ground (
    arith,
    above,
    rising,
    last_key-take (key x) n xs,
    ltb_ℤ_trans (last_key (key x) (take n xs)) k (key x),
  )

  -- The page after the last row of a page is the rest.
  pub keep-last_key :
      (k : ℤ) (n : ℕ) (xs : List A)
      → are_above k xs ≡ true
      → are_rising xs ≡ true
      → keep (λ x. ltb_ℤ (last_key k (take n xs)) (key x)) xs ≡ drop n xs
  unfolding keep drop last_key take are_above are_rising
  keep-last_key k zero xs above rising = keep-above k xs above
  keep-last_key k (suc n) [] above rising = refl
  keep-last_key k (suc n) (x ∷ xs) above rising =
      let late : ltb_ℤ (last_key (key x) (take n xs)) (key x) ≡ false =
        last_key-take (key x) n xs (ground (arith, rising)) (ground (arith, rising)) in
      let rest : keep (λ y. ltb_ℤ (last_key (key x) (take n xs)) (key y)) xs ≡ drop n xs =
        keep-last_key (key x) n xs (ground (arith, rising)) (ground (arith, rising)) in
      rw (late, rest) refl

  pub are_above-after :
      (k : ℤ) (p : A → Bool) (xs : List A)
      → ((x : A) → p x ≡ true → ltb_ℤ k (key x) ≡ true)
      → are_above k (keep p xs) ≡ true
  unfolding are_above keep
  are_above-after k p [] above = refl
  are_above-after k p (x ∷ xs) above = ground (arith, above x, are_above-after k p xs above)

  -- Every row lies at or below a number.
  unfoldable pub are_up_to : ℤ → List A → Bool
  are_up_to k [] = true
  are_up_to k (x ∷ xs) = not (ltb_ℤ k (key x)) && are_up_to k xs

  pub are_up_to-keep :
      (k : ℤ) (p : A → Bool) (xs : List A) → are_up_to k xs ≡ true → are_up_to k (keep p xs) ≡ true
  unfolding are_up_to keep
  are_up_to-keep k p [] low = refl
  are_up_to-keep k p (x ∷ xs) low = ground (arith, low, are_up_to-keep k p xs)

  pub are_up_to-append :
      (j k : ℤ) (xs : List A) (y : A)
      → ltb_ℤ k j ≡ false
      → ltb_ℤ k (key y) ≡ false
      → are_up_to j xs ≡ true
      → are_up_to k (xs ++ y ∷ []) ≡ true
  unfolding are_up_to
  are_up_to-append j k [] y h top low = ground (arith, top)
  are_up_to-append j k (x ∷ xs) y h top low =
      ground (arith, h, top, low, are_up_to-append j k xs y h top)

  pub above-append :
      (j : ℤ) (xs : List A) (y : A)
      → are_above j xs ≡ true
      → ltb_ℤ j (key y) ≡ true
      → are_above j (xs ++ y ∷ []) ≡ true
  unfolding are_above
  above-append j [] y above top = ground (arith, top)
  above-append j (x ∷ xs) y above top = ground (arith, above, top, above-append j xs y)

  -- A row with a greater number goes to the end.
  pub are_rising-append :
      (k : ℤ) (xs : List A) (y : A)
      → are_rising xs ≡ true
      → are_up_to k xs ≡ true
      → ltb_ℤ k (key y) ≡ true
      → are_rising (xs ++ y ∷ []) ≡ true
  unfolding are_rising are_up_to are_above
  are_rising-append k [] y rising low top = refl
  are_rising-append k (x ∷ xs) y rising low top =
      ground (arith, rising, low, top, are_rising-append k xs y, above-append (key x) xs y)

  pub last_key-up_to :
      (j k : ℤ) (n : ℕ) (xs : List A)
      → ltb_ℤ k j ≡ false
      → are_up_to k xs ≡ true
      → ltb_ℤ k (last_key j (take n xs)) ≡ false
  unfolding last_key take are_up_to
  last_key-up_to j k zero xs h low = h
  last_key-up_to j k (suc n) [] h low = h
  last_key-up_to j k (suc n) (x ∷ xs) h low =
      last_key-up_to (key x) k n xs (ground (arith, low)) (ground (arith, low))

  pub are_above-take :
      (k : ℤ) (n : ℕ) (xs : List A) → are_above k xs ≡ true → are_above k (take n xs) ≡ true
  unfolding are_above take
  are_above-take k zero xs above = refl
  are_above-take k (suc n) [] above = refl
  are_above-take k (suc n) (x ∷ xs) above = ground (arith, above, are_above-take k n xs)

  pub are_rising-take : (n : ℕ) (xs : List A) → are_rising xs ≡ true → are_rising (take n xs) ≡ true
  unfolding are_rising take
  are_rising-take zero xs rising = refl
  are_rising-take (suc n) [] rising = refl
  are_rising-take (suc n) (x ∷ xs) rising =
      ground (arith, rising, are_above-take (key x) n xs, are_rising-take n xs)

  pub are_up_to-raise :
      (j k : ℤ) (xs : List A) → ltb_ℤ k j ≡ false → are_up_to j xs ≡ true → are_up_to k xs ≡ true
  unfolding are_up_to
  are_up_to-raise j k [] h low = refl
  are_up_to-raise j k (x ∷ xs) h low = ground (arith, h, low, are_up_to-raise j k xs h)

  keep-apart : (k : ℤ) (xs : List A) → are_above k xs ≡ true → keep (λ x. not (key x == k)) xs ≡ xs
  unfolding keep are_above
  keep-apart k [] above = refl
  keep-apart k (x ∷ xs) above =
      ground (arith, above, keep-apart k xs, int_beq_iff (key x) k, ltb_ℤ_irrefl k)

  -- The first row of a kind, taken out by its number: the others of its kind stay, and those of
  -- another kind.
  pub keep-but_first :
      (p : A → Bool) (xs : List A) (first : A) (rest : List A)
      → are_rising xs ≡ true
      → keep p xs ≡ first ∷ rest
      → keep p (keep (λ x. not (key x == key first)) xs) ≡ rest
  unfolding keep are_rising are_above
  keep-but_first p [] first rest rising h = absurd cc
  keep-but_first p (x ∷ xs) first rest rising h = elim (Bool-cases (p x)) [
    | inl own ↦
        let same : x ≡ first = ground (arith, h, own) in
        let others : keep p xs ≡ rest = ground (arith, h, own) in
        subst (λ y. keep p (keep (λ z. not (key z == key y)) (x ∷ xs)) ≡ rest) same
          (rw ((int_beq_iff (key x) (key x)).1 refl, keep-apart (key x) xs (ground (arith, rising)))
            others)
    | inr other ↦
        let further : keep p xs ≡ first ∷ rest = ground (arith, h, other) in
        let among : are_above (key x) (first ∷ rest) ≡ true =
          subst (λ l. are_above (key x) l ≡ true) further
            (are_above-keep (key x) p xs (ground (arith, rising))) in
        let below : ltb_ℤ (key x) (key first) ≡ true = ground (arith, among) in
        let apart : (key x == key first) ≡ false =
          ground (arith, below, int_beq_iff (key x) (key first), ltb_ℤ_irrefl (key first)) in
        rw (apart, other) (keep-but_first p xs first rest (ground (arith, rising)) further)
  ]

  pub keep-but_other :
      (p q : A → Bool) (xs : List A) (first : A) (rest : List A)
      → ((x : A) → p x ≡ true → q x ≡ false)
      → are_rising xs ≡ true
      → keep p xs ≡ first ∷ rest
      → keep q (keep (λ x. not (key x == key first)) xs) ≡ keep q xs
  unfolding keep are_rising are_above
  keep-but_other p q [] first rest apart rising h = refl
  keep-but_other p q (x ∷ xs) first rest disjoint rising h = elim (Bool-cases (p x)) [
    | inl own ↦
        let same : x ≡ first = ground (arith, h, own) in
        subst (λ y. keep q (keep (λ z. not (key z == key y)) (x ∷ xs)) ≡ keep q (x ∷ xs)) same
          (rw
            (
              (int_beq_iff (key x) (key x)).1 refl,
              keep-apart (key x) xs (ground (arith, rising)),
              disjoint x own,
            )
            refl)
    | inr other ↦
        let further : keep p xs ≡ first ∷ rest = ground (arith, h, other) in
        let among : are_above (key x) (first ∷ rest) ≡ true =
          subst (λ l. are_above (key x) l ≡ true) further
            (are_above-keep (key x) p xs (ground (arith, rising))) in
        let below : ltb_ℤ (key x) (key first) ≡ true = ground (arith, among) in
        let apart : (key x == key first) ≡ false =
          ground (arith, below, int_beq_iff (key x) (key first), ltb_ℤ_irrefl (key first)) in
        rw (apart, keep-but_other p q xs first rest disjoint (ground (arith, rising)) further) refl
  ]

  pub last_key-low :
      (k : ℤ) (xs : List A)
      → are_above k xs ≡ true
      → are_rising xs ≡ true
      → ltb_ℤ (last_key k xs) k ≡ false
  unfolding last_key are_above are_rising
  last_key-low k [] above rising = ltb_ℤ_irrefl k
  last_key-low k (x ∷ xs) above rising =
      ground
        (arith, above, rising, last_key-low (key x) xs, ltb_ℤ_trans (last_key (key x) xs) k (key x))

  -- Nothing of a kind lies beyond the last of a wider kind.
  pub keep-beyond_last :
      (p q : A → Bool) (k : ℤ) (xs : List A)
      → ((x : A) → q x ≡ true → ltb_ℤ k (key x) ≡ true → p x ≡ true)
      → are_above k xs ≡ true
      → are_rising xs ≡ true
      → keep (λ x. q x && ltb_ℤ (last_key k (keep p xs)) (key x)) xs ≡ []
  unfolding keep last_key are_above are_rising
  keep-beyond_last p q k [] wider above rising = refl
  keep-beyond_last p q k (x ∷ xs) wider above rising = elim (Bool-cases (p x)) [
    | inl own ↦
        let low : ltb_ℤ (last_key (key x) (keep p xs)) (key x) ≡ false =
          last_key-low (key x) (keep p xs) (are_above-keep (key x) p xs (ground (arith, rising)))
            (are_rising-keep p xs (ground (arith, rising))) in
        let rest : keep (λ y. q y && ltb_ℤ (last_key (key x) (keep p xs)) (key y)) xs ≡ [] =
          keep-beyond_last p q (key x) xs
            (λ y is h. wider y is (ltb_ℤ_trans k (key x) (key y) (ground (arith, above)) h))
            (ground (arith, rising)) (ground (arith, rising)) in
        let here : keep (λ y. q y && ltb_ℤ (last_key (key x) (keep p xs)) (key y)) (x ∷ xs) ≡ [] =
          ground (arith, low, rest) in
        let same : last_key k (keep p (x ∷ xs)) ≡ last_key (key x) (keep p xs) = rw own refl in
        subst (λ l. keep (λ y. q y && ltb_ℤ l (key y)) (x ∷ xs) ≡ []) (sym same) here
    | inr other ↦
        let rest : keep (λ y. q y && ltb_ℤ (last_key k (keep p xs)) (key y)) xs ≡ [] =
          keep-beyond_last p q k xs wider (ground (arith, above)) (ground (arith, rising)) in
        let here : keep (λ y. q y && ltb_ℤ (last_key k (keep p xs)) (key y)) (x ∷ xs) ≡ [] =
          ground (arith, other, above, rest, wider x) in
        let same : last_key k (keep p (x ∷ xs)) ≡ last_key k (keep p xs) = rw other refl in
        subst (λ l. keep (λ y. q y && ltb_ℤ l (key y)) (x ∷ xs) ≡ []) (sym same) here
  ]

  pub are_up_to-member :
      (k : ℤ) (p : A → Bool) (xs : List A)
      → are_up_to k xs ≡ true
      → ((x : A) → p x ≡ true → ltb_ℤ k (key x) ≡ true)
      → keep p xs ≡ []
  unfolding keep are_up_to
  are_up_to-member k p [] low high = refl
  are_up_to-member k p (x ∷ xs) low high = ground (arith, low, high x, are_up_to-member k p xs)

  pub last_key-bound :
      (k top : ℤ) (xs : List A)
      → ltb_ℤ top k ≡ false
      → are_up_to top xs ≡ true
      → ltb_ℤ top (last_key k xs) ≡ false
  unfolding last_key are_up_to
  last_key-bound k top [] h low = h
  last_key-bound k top (x ∷ xs) h low =
      last_key-bound (key x) top xs (ground (arith, low)) (ground (arith, low))

  pub last_key-no_less :
      (j k : ℤ) (xs : List A)
      → ltb_ℤ j k ≡ false
      → are_above k xs ≡ true
      → ltb_ℤ (last_key j xs) k ≡ false
  unfolding last_key are_above
  last_key-no_less j k [] h above = h
  last_key-no_less j k (x ∷ xs) h above =
      last_key-no_less (key x) k xs (ground (arith, above)) (ground (arith, above))

  are_above-insert_by :
      (k : ℤ) (x : A) (xs : List A)
      → ltb_ℤ k (key x) ≡ true
      → are_above k xs ≡ true
      → are_above k (insert_by x xs) ≡ true
  unfolding are_above insert_by
  are_above-insert_by k x [] h above = ground (arith, h)
  are_above-insert_by k x (y ∷ ys) h above = ground (arith, h, above, are_above-insert_by k x ys h)

  pub are_above-order_by :
      (k : ℤ) (xs : List A) → are_above k xs ≡ true → are_above k (order_by xs) ≡ true
  unfolding are_above order_by
  are_above-order_by k [] above = refl
  are_above-order_by k (x ∷ xs) above =
      are_above-insert_by k x (order_by xs) (ground (arith, above))
        (are_above-order_by k xs (ground (arith, above)))
