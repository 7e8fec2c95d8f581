-- ===== src/StateRes/Sort/Unique.antt =====
-- Sorting by a strict total order has one result, whatever order the elements come in.
use dragonite.Base.{
  ◌≡◌, ◌∙◌, refl, sym, ap₂, elem-same, Bool, true, false, ◌||◌, List, [], ◌∷◌, arith, Eq, ◌==◌,
  elem, count, Bool-cases, inl, inr,
}
use dragonite.StateRes.Sort.{insert_sorted, slice_stable}

module _ {A : Type 0} ⦃e : Eq A⦄ (less : A → A → Bool) where
  -- No element of the list is less than the given one.
  abbrev AtLeast : A → List A → Type 0
  AtLeast x l = (z : A) → elem z l ≡ true → less z x ≡ false

  abbrev Sorted : List A → Type 0
  Sorted [] = Unit
  Sorted (x ∷ l) = AtLeast x l × Sorted l

  elem-insert_sorted :
      (z x : A) (l : List A) → elem z (insert_sorted less x l) ≡ (x == z || elem z l)
  unfolding insert_sorted elem
  elem-insert_sorted z x [] = refl
  elem-insert_sorted z x (y ∷ l) = ground (arith, elem-insert_sorted z x l)

  pub elem-slice_stable : (z : A) (l : List A) → elem z (slice_stable less l) ≡ elem z l
  unfolding slice_stable elem
  elem-slice_stable z [] = refl
  elem-slice_stable z (x ∷ l) =
      ground (arith, elem-insert_sorted z x (slice_stable less l), elem-slice_stable z l)

  module _ (P : A → Type 0) (irrefl : (a : A) → P a → less a a ≡ false)
      (trans : (a b c : A) → P a → P b → P c → less a b ≡ true → less b c ≡ true → less a c ≡ true)
      (connex : (a b : A) → P a → P b → less a b ≡ false → less b a ≡ false → a ≡ b) where
    asym : (a b : A) → P a → P b → less a b ≡ true → less b a ≡ false
    asym a b p q h = ground (arith, irrefl a p, trans a b a p q p)

    -- What is not less than `y` is not less than an `x` that `y` is not less than.
    below : (x y z : A) → P x → P y → P z → less y x ≡ false → less z y ≡ false → less z x ≡ false
    below x y z p q r h k = elim (Bool-cases (less x y)) [
      | inl lt ↦ ground (arith, lt, trans z x y r p q)
      | inr ge ↦ rw (connex x y p q ge h) k
    ]

    insert_sorted-Sorted :
        (x : A) (l : List A)
        → P x
        → ((z : A) → elem z l ≡ true → P z)
        → Sorted l
        → Sorted (insert_sorted less x l)
    unfolding insert_sorted elem
    insert_sorted-Sorted x [] p all s = (λ z m. cc, tt)
    insert_sorted-Sorted x (y ∷ l) p all s = elim (Bool-cases (less y x)) [
      | inl lt ↦ rw lt (
        λ z m. elim (Bool-cases (x == z)) [
          | inl eq ↦
              rw (← (e.beq_iff x z).0 eq) (asym y x (all y (ground (arith, e.beq_iff y y))) p lt)
          | inr ne ↦ s.0 z (ground (arith, m, ne, elem-insert_sorted z x l))
        ],
        insert_sorted-Sorted x l p (λ z m. all z (ground (arith, m))) s.1,
      )
      | inr ge ↦ rw ge (
        λ z m. elim (Bool-cases (y == z)) [
          | inl eq ↦ rw (← (e.beq_iff y z).0 eq) ge
          | inr ne ↦
              below x y z p (all y (ground (arith, e.beq_iff y y))) (all z m) ge
                (s.0 z (ground (arith, m, ne)))
        ],
        s,
      )
    ]

    slice_stable-Sorted :
        (l : List A) → ((z : A) → elem z l ≡ true → P z) → Sorted (slice_stable less l)
    unfolding slice_stable elem
    slice_stable-Sorted [] all = tt
    slice_stable-Sorted (x ∷ l) all =
        insert_sorted-Sorted x (slice_stable less l) (all x (ground (arith, e.beq_iff x x)))
          (λ z m. all z (ground (arith, m, elem-slice_stable z l)))
          (slice_stable-Sorted l (λ z m. all z (ground (arith, m))))

    Sorted-unique :
        (xs ys : List A)
        → ((z : A) → elem z xs ≡ true → P z)
        → Sorted xs
        → Sorted ys
        → ((a : A) → count a xs ≡ count a ys)
        → xs ≡ ys
    unfolding count elem
    Sorted-unique [] [] all s t same = refl
    Sorted-unique [] (y ∷ ys) all s t same = absurd (ground (arith, same y, e.beq_iff y y))
    Sorted-unique (x ∷ xs) [] all s t same = absurd (ground (arith, same x, e.beq_iff x x))
    Sorted-unique (x ∷ xs) (y ∷ ys) all s t same =
        let y_in : elem y (x ∷ xs) ≡ true =
          elem-same y (y ∷ ys) (x ∷ xs) (λ a. sym (same a)) (ground (arith, e.beq_iff y y)) in
        let x_in : elem x (y ∷ ys) ≡ true =
          elem-same x (x ∷ xs) (y ∷ ys) same (ground (arith, e.beq_iff x x)) in
        let heads : x ≡ y = elim (Bool-cases (x == y)) [
          | inl eq ↦ (e.beq_iff x y).0 eq
          | inr ne ↦
              connex x y (all x (ground (arith, e.beq_iff x x))) (all y y_in)
                (t.0 x (ground (arith, x_in, e.beq_iff x y, e.beq_iff y x)))
                (s.0 y (ground (arith, y_in, ne)))
        ] in
        ap₂ ◌∷◌ heads (
          Sorted-unique xs ys (λ z m. all z (ground (arith, m))) s.1 t.1
            (λ a. ground (arith, same a, heads)))

    -- The sorted list depends only on which elements there are, and how often.
    pub slice_stable_unique :
        (xs ys : List A)
        → ((z : A) → elem z xs ≡ true → P z)
        → ((z : A) → elem z ys ≡ true → P z)
        → ((a : A) → count a (slice_stable less xs) ≡ count a (slice_stable less ys))
        → slice_stable less xs ≡ slice_stable less ys
    slice_stable_unique xs ys all_x all_y same =
        Sorted-unique (slice_stable less xs) (slice_stable less ys)
          (λ z m. all_x z (sym (elem-slice_stable z xs) ∙ m)) (slice_stable-Sorted xs all_x)
          (slice_stable-Sorted ys all_y) same
