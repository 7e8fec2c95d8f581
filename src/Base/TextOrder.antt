-- ===== src/Base/TextOrder.antt =====
-- Go's order on strings is a strict total order.
use Prim.Native.Nat.{Ordering, compare as compare_number}
use Prim.Native.Char.{Char, code}
use Prim.Native.String.{String, compare, then}
use Prim.Native.String.compare
use mathlib.Core.Path.{◌≡◌}
use mathlib.Core.Bool.{true, false}
use native.Mathlib.Omega.{arith}
use text.Mathlib.TextEquality.{path_by_compare}
use dragonite.Base.Tests.{text_lt}

compare-nil : compare String.[] String.[] ≡ Ordering.eq
compare-nil = compare.nil-nil

compare-nil_cons : (d : Char) (t : String) → compare String.[] (String.◌∷◌ d t) ≡ Ordering.lt
compare-nil_cons d t = compare.nil-cons d t

compare-cons_nil : (c : Char) (s : String) → compare (String.◌∷◌ c s) String.[] ≡ Ordering.gt
compare-cons_nil c s = compare.cons-nil c s

compare-cons :
    (c d : Char) (s t : String)
    → compare (String.◌∷◌ c s) (String.◌∷◌ d t)
      ≡ then (compare_number (code c) (code d)) (compare s t)
compare-cons c d s t = compare.cons-cons c d s t

pub text_lt_trans : (a b c : String) → text_lt a b ≡ true → text_lt b c ≡ true → text_lt a c ≡ true
text_lt_trans String.[] String.[] c h k = ground (arith, compare-nil)
text_lt_trans String.[] (String.◌∷◌ y b) String.[] h k = ground (arith, compare-cons_nil y b)
text_lt_trans String.[] (String.◌∷◌ y b) (String.◌∷◌ z c) h k = ground (arith, compare-nil_cons z c)
text_lt_trans (String.◌∷◌ x a) String.[] c h k = ground (arith, compare-cons_nil x a)
text_lt_trans (String.◌∷◌ x a) (String.◌∷◌ y b) String.[] h k = ground (arith, compare-cons_nil y b)
text_lt_trans (String.◌∷◌ x a) (String.◌∷◌ y b) (String.◌∷◌ z c) h k =
    ground
      (arith, text_lt_trans a b c, compare-cons x y a b, compare-cons y z b c, compare-cons x z a c)

compare-swap : (a b : String) → compare a b ≡ Ordering.gt → compare b a ≡ Ordering.lt
compare-swap String.[] String.[] h = ground (arith, compare-nil)
compare-swap String.[] (String.◌∷◌ y b) h = ground (arith, compare-nil_cons y b)
compare-swap (String.◌∷◌ x a) String.[] h = compare-nil_cons x a
compare-swap (String.◌∷◌ x a) (String.◌∷◌ y b) h =
    ground (arith, compare-swap a b, compare-cons x y a b, compare-cons y x b a)

pub text_lt_irrefl : (a : String) → text_lt a a ≡ false
text_lt_irrefl String.[] = ground (arith, compare-nil)
text_lt_irrefl (String.◌∷◌ x a) = ground (arith, compare-cons x x a a, text_lt_irrefl a)

-- Two texts neither of which is less are equal.
pub text_lt_connex : (a b : String) → text_lt a b ≡ false → text_lt b a ≡ false → a ≡ b
text_lt_connex a b h k = path_by_compare a b (ground (arith, compare-swap a b))
