-- ===== src/StateRes/Sort/Loop.antt =====
-- The loop of `sortEventsTopologically`: what is ready or sorted is exactly what has no auth
-- event left to wait for, and the rounds are enough.
use dragonite.Base.{
  ℕ, zero, suc, ◌+◌, ◌-◌, ◌≤◌, String, ◌≡◌, ◌∙◌, refl, ap, Bool, ◌&&◌, some, List, [], ◌∷◌, arith,
  ◌==◌, nat_beq, string_eq, ltb, count, count-append, one_if,
}
use dragonite.Base.Int.{pos, decr}
use dragonite.Base.Map.{lookup, get_or, lookup-insert}
use dragonite.StateRes.Sort.{insert_sorted, slice_stable, Kahn, release_one, release}
use text.Mathlib.TextEquality.{eq_iff}

-- Sorting moves the candidates and loses none.
count-insert_sorted :
    (less : String → String → Bool) (a x : String) (xs : List String)
    → count a (insert_sorted less x xs) ≡ count a (x ∷ xs)
unfolding insert_sorted count
count-insert_sorted less a x [] = refl
count-insert_sorted less a x (y ∷ ys) = ground (arith, count-insert_sorted less a x ys)

pub count-slice_stable :
    (less : String → String → Bool) (a : String) (xs : List String)
    → count a (slice_stable less xs) ≡ count a xs
unfolding slice_stable count
count-slice_stable less a [] = refl
count-slice_stable less a (x ∷ xs) =
    count-insert_sorted less a x (slice_stable less xs)
    ∙ unfold count in ap (λ n. one_if (x == a) + n) (count-slice_stable less a xs)

-- What one round of the inner loop does to an event `v` of degree `n`.
release_one-in_degree :
    (v m : String) (s : Kahn) (n : ℕ)
    → lookup v s.in_degree ≡ some (pos n)
    → one_if (m == v) ≤ n
    → lookup v (release_one m s).in_degree ≡ some (pos (n - one_if (m == v)))
unfolding release_one get_or
release_one-in_degree v m s zero d c =
    ground (arith, eq_iff m v, lookup-insert m v (decr (get_or m (pos 0) s.in_degree)) s.in_degree)
release_one-in_degree v m s (suc n) d c =
    ground (arith, eq_iff m v, lookup-insert m v (decr (get_or m (pos 0) s.in_degree)) s.in_degree)

release_one-ready :
    (v m : String) (s : Kahn) (n : ℕ)
    → lookup v s.in_degree ≡ some (pos n)
    → one_if (m == v) ≤ n
    → count v (release_one m s).ready ≡ count v s.ready + one_if (m == v && nat_beq n 1)
unfolding release_one get_or count
release_one-ready v m s zero d c = ground (arith, eq_iff m v, count-append v s.ready (m ∷ []))
release_one-ready v m s (suc n) d c = ground (arith, eq_iff m v, count-append v s.ready (m ∷ []))

-- What the whole inner loop does to it.
pub release-in_degree :
    (v : String) (ns : List String) (s : Kahn) (n : ℕ)
    → lookup v s.in_degree ≡ some (pos n)
    → count v ns ≤ n
    → lookup v (release ns s).in_degree ≡ some (pos (n - count v ns))
unfolding release count
release-in_degree v [] s n d c = ground arith
release-in_degree v (m ∷ ns) s n d c = ground (
  arith,
  release-in_degree v ns (release_one m s) (n - one_if (m == v))
      (release_one-in_degree v m s n d (omega arith)) (omega arith),
)

pub release-ready :
    (v : String) (ns : List String) (s : Kahn) (n : ℕ)
    → lookup v s.in_degree ≡ some (pos n)
    → count v ns ≤ n
    → count v (release ns s).ready
      ≡ count v s.ready + one_if (ltb 0 (count v ns) && nat_beq n (count v ns))
unfolding release count
release-ready v [] s n d c = ground arith
release-ready v (m ∷ ns) s n d c = ground (
  arith,
  release_one-ready v m s n d (omega arith),
  release-ready v ns (release_one m s) (n - one_if (m == v))
      (release_one-in_degree v m s n d (omega arith)) (omega arith),
)

-- An event that no edge leads to is left alone.
pub release-ready_foreign :
    (v : String) (ns : List String) (s : Kahn)
    → count v ns ≡ 0
    → count v (release ns s).ready ≡ count v s.ready
unfolding release release_one count
release-ready_foreign v [] s c = refl
release-ready_foreign v (m ∷ ns) s c =
    ground (arith, release-ready_foreign v ns (release_one m s), count-append v s.ready (m ∷ []))

pub release-sorted : (ns : List String) (s : Kahn) → (release ns s).sorted ≡ s.sorted
unfolding release release_one
release-sorted [] s = refl
release-sorted (m ∷ ns) s = release-sorted ns (release_one m s)
