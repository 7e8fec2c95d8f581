-- ===== src/Base/Paging.antt =====
-- Rows with a number that grows, and the queries on them: WHERE, ORDER BY and LIMIT.
use Prim.Native.Nat.{ℕ, zero, suc, ◌≤◌}
use mathlib.Core.Path.{◌≡◌, refl}
use mathlib.Core.Bool.{Bool, ◌&&◌}
use mathlib.Core.List.{List, [], ◌∷◌, ◌++◌}
use native.Mathlib.Omega.{arith}
use dragonite.Base.Tests.{if◌then◌else◌}
use dragonite.Base.Lists.{length}
use dragonite.Base.Int.{int_eq}

module _ {ℓ} {A : Type ℓ} where
  -- WHERE
  unfoldable pub keep : (A → Bool) → List A → List A
  keep p [] = []
  keep p (x ∷ xs) = if p x then x ∷ keep p xs else keep p xs

  -- LIMIT
  unfoldable pub take : ℕ → List A → List A
  take zero xs = []
  take (suc n) [] = []
  take (suc n) (x ∷ xs) = x ∷ take n xs

  unfoldable pub drop : ℕ → List A → List A
  drop zero xs = xs
  drop (suc n) [] = []
  drop (suc n) (x ∷ xs) = drop n xs

  pub append_nil : (xs : List A) → xs ++ [] ≡ xs
  append_nil [] = refl
  append_nil (x ∷ xs) = cc (append_nil xs)

  pub append_assoc : (xs ys zs : List A) → (xs ++ ys) ++ zs ≡ xs ++ (ys ++ zs)
  append_assoc [] ys zs = refl
  append_assoc (x ∷ xs) ys zs = cc (append_assoc xs ys zs)

  pub take-drop : (n : ℕ) (xs : List A) → take n xs ++ drop n xs ≡ xs
  unfolding take drop
  take-drop zero xs = refl
  take-drop (suc n) [] = refl
  take-drop (suc n) (x ∷ xs) = cc (take-drop n xs)

  pub length-take : (n : ℕ) (xs : List A) → length (take n xs) ≤ n
  unfolding take
  length-take zero xs = omega arith
  length-take (suc n) [] = omega arith
  length-take (suc n) (x ∷ xs) = omega (arith, length-take n xs)

  pub keep-append : (p : A → Bool) (xs ys : List A) → keep p (xs ++ ys) ≡ keep p xs ++ keep p ys
  unfolding keep
  keep-append p [] ys = refl
  keep-append p (x ∷ xs) ys = ground (arith, keep-append p xs ys)

  -- A condition that follows from another one asks nothing more.
  pub keep-keep :
      (p q r : A → Bool)
      → ((x : A) → (p x && q x) ≡ r x)
      → (xs : List A) → keep p (keep q xs) ≡ keep r xs
  unfolding keep
  keep-keep p q r both [] = refl
  keep-keep p q r both (x ∷ xs) = ground (arith, both x, keep-keep p q r both xs)

  pub keep-same : (p q : A → Bool) → ((x : A) → p x ≡ q x) → (xs : List A) → keep p xs ≡ keep q xs
  unfolding keep
  keep-same p q same [] = refl
  keep-same p q same (x ∷ xs) = ground (arith, same x, keep-same p q same xs)
