-- ===== src/Base/Int.antt =====
-- Signed integers over the native numbers, and the step of an int64. The program's int64 values
-- here (power levels, timestamps, depths and counters) are compared, stepped by one and never
-- multiplied.
use Prim.Native.Nat.{ℕ, zero, suc, ◌+◌, ◌-◌, ◌^◌, ◌≤◌, ◌<◌}
use mathlib.Core.Path.{◌≡◌}
use mathlib.Core.Logic.{◌↔◌, inl, inr}
use mathlib.Core.Bool.{Bool, true, false, not}
use native.Mathlib.Omega.{arith}
use dragonite.Base.Tests.{Eq, ◌==◌, ltb, leb, nat_beq, if◌then◌else◌, Bool-cases}

-- `negsuc n` is -(n + 1).
pub data ℤ : Type 0 where
  pos : ℕ → ℤ
  negsuc : ℕ → ℤ

abbrev pub pos_part : ℤ → ℕ
pos_part (pos n) = n
pos_part (negsuc n) = 0

abbrev pub neg_part : ℤ → ℕ
neg_part (pos n) = 0
neg_part (negsuc n) = suc n

abbrev pub ltb_ℤ : ℤ → ℤ → Bool
ltb_ℤ a b = ltb (pos_part a + neg_part b) (pos_part b + neg_part a)

abbrev pub leb_ℤ : ℤ → ℤ → Bool
leb_ℤ a b = leb (pos_part a + neg_part b) (pos_part b + neg_part a)

abbrev pub ◌≤ℤ◌ : ℤ → ℤ → Type 0
◌≤ℤ◌ a b = pos_part a + neg_part b ≤ pos_part b + neg_part a

abbrev pub ◌<ℤ◌ : ℤ → ℤ → Type 0
◌<ℤ◌ a b = pos_part a + neg_part b < pos_part b + neg_part a

infix 50 ◌≤ℤ◌ ◌<ℤ◌
abbrev pub int_beq : ℤ → ℤ → Bool
int_beq (pos a) (pos b) = nat_beq a b
int_beq (negsuc a) (negsuc b) = nat_beq a b
int_beq _ _ = false

pub int_beq_iff : (a b : ℤ) → (int_beq a b ≡ true) ↔ (a ≡ b)
int_beq_iff (pos a) (pos b) = ground arith
int_beq_iff (pos a) (negsuc b) = ground arith
int_beq_iff (negsuc a) (pos b) = ground arith
int_beq_iff (negsuc a) (negsuc b) = ground arith

instance abbrev pub int_eq : Eq ℤ
int_eq = record { beq = int_beq; beq_iff = int_beq_iff }

-- x + 1 and x - 1
abbrev pub incr : ℤ → ℤ
incr (pos n) = pos (suc n)
incr (negsuc zero) = pos 0
incr (negsuc (suc n)) = negsuc n

-- The greatest int64, and x + 1 on an int64: the greatest one wraps to the least.
abbrev pub max_int64 : ℕ
max_int64 = 2 ^ 63 - 1

unfoldable pub next_int64 : ℤ → ℤ
next_int64 x = if int_beq x (pos max_int64) then negsuc max_int64 else incr x

-- A value that is not the greatest grows.
pub next_int64-grows :
    (a b : ℤ) → ltb_ℤ b a ≡ false → ltb_ℤ b (pos max_int64) ≡ true → ltb_ℤ a (next_int64 b) ≡ true
unfolding next_int64
next_int64-grows a (pos n) h k = ground arith
next_int64-grows a (negsuc zero) h k = ground arith
next_int64-grows a (negsuc (suc n)) h k = ground arith

abbrev pub decr : ℤ → ℤ
decr (pos zero) = negsuc 0
decr (pos (suc n)) = pos n
decr (negsuc n) = negsuc (suc n)

pub ltb_ℤ_trans : (a b c : ℤ) → ltb_ℤ a b ≡ true → ltb_ℤ b c ≡ true → ltb_ℤ a c ≡ true
ltb_ℤ_trans a b c h k = ground arith

pub ltb_ℤ_irrefl : (a : ℤ) → ltb_ℤ a a ≡ false
ltb_ℤ_irrefl a = ground arith

-- A comparison by integers that hands ties on to a further one is transitive if that one is.
pub tie_trans :
    (lt : ℤ → ℤ → Bool)
    → ((a b c : ℤ) → lt a b ≡ true → lt b c ≡ true → lt a c ≡ true)
    → ((a : ℤ) → lt a a ≡ false)
    → (p q r : ℤ) {b₁ b₂ b₃ : Bool} → (b₁ ≡ true → b₂ ≡ true → b₃ ≡ true)
    → (if not (p == q) then lt p q else b₁) ≡ true
    → (if not (q == r) then lt q r else b₂) ≡ true
    → (if not (p == r) then lt p r else b₃) ≡ true
tie_trans lt trans irrefl p q r further h k = elim (Bool-cases (p == q)) [
  | inl pq ↦ ground (arith, pq, int_beq_iff p q, further)
  | inr pq ↦ elim (Bool-cases (q == r)) [
    | inl qr ↦ ground (arith, pq, qr, int_beq_iff q r)
    | inr qr ↦ ground (arith, pq, qr, int_beq_iff p r, trans p q r, trans q p q, irrefl q)
  ]
]

pub ltb_ℤ_asym : (a b : ℤ) → ltb_ℤ a b ≡ true → ltb_ℤ b a ≡ false
ltb_ℤ_asym a b h = ground arith
