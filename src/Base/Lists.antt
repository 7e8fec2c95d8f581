-- ===== src/Base/Lists.antt =====
-- Lists measured, counted and searched with native numbers.
use Prim.Native.Nat.{ℕ, suc, ◌+◌, ◌≤◌, ◌<◌}
use mathlib.Core.Path.{◌≡◌, refl}
use mathlib.Core.Bool.{Bool, true, false, ◌||◌}
use mathlib.Core.Logic.{◌⊎◌, inl, inr}
use mathlib.Core.List.{List, [], ◌∷◌, ◌++◌}
use native.Mathlib.Omega.{arith}
use dragonite.Base.Tests.{Eq, ◌==◌, if◌then◌else◌, Bool-cases}

module _ {ℓ} {A : Type ℓ} where
  abbrev pub length : List A → ℕ
  length [] = 0
  length (x ∷ xs) = suc (length xs)

  pub length-append : (xs ys : List A) → length (xs ++ ys) ≡ length xs + length ys
  length-append [] ys = omega arith
  length-append (x ∷ xs) ys = omega (arith, length-append xs ys)

  pub List-cases : (xs : List A) → (xs ≡ []) ⊎ ((x : A) × (rest : List A) × (xs ≡ x ∷ rest))
  List-cases [] = inl refl
  List-cases (x ∷ xs) = inr (x, xs, refl)

  pub nil_of_length : (xs : List A) → length xs ≤ 0 → xs ≡ []
  nil_of_length [] h = refl
  nil_of_length (x ∷ xs) h = absurd (omega arith)

-- 1 for true, 0 for false.
abbrev pub one_if : Bool → ℕ
one_if b = if b then 1 else 0

module _ {ℓ} {A : Type ℓ} ⦃e : Eq A⦄ where
  unfoldable pub elem : A → List A → Bool
  elem a [] = false
  elem a (x ∷ xs) = x == a || elem a xs

  unfoldable pub count : A → List A → ℕ
  count a [] = 0
  count a (x ∷ xs) = one_if (x == a) + count a xs

  pub count-append : (a : A) (xs ys : List A) → count a (xs ++ ys) ≡ count a xs + count a ys
  unfolding count
  count-append a [] ys = omega arith
  count-append a (x ∷ xs) ys = omega (arith, count-append a xs ys)

  -- A member is counted, and what is counted is a member.
  pub elem-count : (a : A) (xs : List A) → one_if (elem a xs) ≤ count a xs
  unfolding count elem
  elem-count a [] = omega arith
  elem-count a (x ∷ xs) = ground (arith, elem-count a xs)

  pub count-elem : (a : A) (xs : List A) → elem a xs ≡ false → count a xs ≡ 0
  unfolding count elem
  count-elem a [] h = refl
  count-elem a (x ∷ xs) h = ground (arith, count-elem a xs)

  pub elem-append : (a : A) (xs ys : List A) → elem a (xs ++ ys) ≡ (elem a xs || elem a ys)
  unfolding elem
  elem-append a [] ys = refl
  elem-append a (x ∷ xs) ys = ground (arith, elem-append a xs ys)

  -- Lists compared by what they hold.
  remove_one : A → List A → List A
  remove_one a [] = []
  remove_one a (x ∷ xs) = if x == a then xs else x ∷ remove_one a xs

  count-remove_one :
      (a b : A) (xs : List A) → count b xs ≤ count b (remove_one a xs) + one_if (a == b)
  unfolding remove_one count
  count-remove_one a b [] = omega arith
  count-remove_one a b (x ∷ xs) =
      ground (arith, count-remove_one a b xs, e.beq_iff x a, e.beq_iff x b, e.beq_iff a b)

  length-remove_one :
      (a : A) (xs : List A) → 0 < count a xs → length xs ≡ suc (length (remove_one a xs))
  unfolding remove_one count
  length-remove_one a [] h = absurd (omega arith)
  length-remove_one a (x ∷ xs) h = ground (arith, length-remove_one a xs)

  pub length-le_of_count :
      (xs ys : List A) → ((a : A) → count a xs ≤ count a ys) → length xs ≤ length ys
  unfolding count
  length-le_of_count [] ys h = omega arith
  length-le_of_count (x ∷ xs) ys h =
      let shorter : length xs ≤ length (remove_one x ys) =
        length-le_of_count xs (remove_one x ys)
          (λ a. ground (arith, h a, count-remove_one x a ys)) in
      ground (arith, h x, shorter, length-remove_one x ys, e.beq_iff x x)

  pub nil_of_count : (xs : List A) → ((a : A) → count a xs ≡ 0) → xs ≡ []
  unfolding count
  nil_of_count [] h = refl
  nil_of_count (x ∷ xs) h = absurd (ground (arith, h x, e.beq_iff x x))

  -- What is in a list is in every list that holds the same.
  pub elem-same :
      (a : A) (xs ys : List A)
      → ((b : A) → count b xs ≡ count b ys)
      → elem a xs ≡ true
      → elem a ys ≡ true
  elem-same a xs ys same m = elim (Bool-cases (elem a ys)) [
    | inl y ↦ y
    | inr n ↦ absurd (ground (arith, m, same a, elem-count a xs, count-elem a ys n))
  ]
