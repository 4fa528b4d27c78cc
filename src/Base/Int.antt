-- ===== src/Base/Int.antt =====
-- Go's `int` and `int64`: integers whose arithmetic wraps at 64 bits.
-- `negsuc n` is -(n + 1). Sums and orders go through the two parts of an integer.
use harness_core.Base.{ℕ, zero, suc, ◌+◌, ◌-◌, ◌/◌, ◌%◌, ◌≤◌, ◌<◌, ◌≡◌, ◌≢◌, Bool, true, arith}
use harness_core.Base.{ltb, leb, nat_eq, if◌then◌else◌}

pub data ℤ : Type 0 where
  pos : ℕ → ℤ
  negsuc : ℕ → ℤ

abbrev pub pos_part : ℤ → ℕ
pos_part (pos n) = n
pos_part (negsuc n) = 0

abbrev pub neg_part : ℤ → ℕ
neg_part (pos n) = 0
neg_part (negsuc n) = suc n

-- a - b, as an integer.
abbrev pub sub_ℕ : ℕ → ℕ → ℤ
sub_ℕ a b = if leb b a then pos (a - b) else negsuc (b - a - 1)

abbrev pub ltb_ℤ : ℤ → ℤ → Bool
ltb_ℤ a b = ltb (pos_part a + neg_part b) (pos_part b + neg_part a)

abbrev pub leb_ℤ : ℤ → ℤ → Bool
leb_ℤ a b = leb (pos_part a + neg_part b) (pos_part b + neg_part a)

abbrev pub eqb_ℤ : ℤ → ℤ → Bool
eqb_ℤ a b = nat_eq (pos_part a + neg_part b) (pos_part b + neg_part a)

abbrev pub is_zero : ℤ → Bool
is_zero a = eqb_ℤ a (pos 0)

infix 50 ◌≤ℤ◌ ◌<ℤ◌
abbrev pub ◌≤ℤ◌ : ℤ → ℤ → Type 0
a ≤ℤ b = pos_part a + neg_part b ≤ pos_part b + neg_part a

abbrev pub ◌<ℤ◌ : ℤ → ℤ → Type 0
a <ℤ b = suc (pos_part a + neg_part b) ≤ pos_part b + neg_part a

-- The two's complement value of the low 64 bits.
unfoldable pub wrap64 : ℤ → ℤ
wrap64 (pos n) =
    let m = n % 18446744073709551616 in
    if ltb m 9223372036854775808 then pos m else negsuc (18446744073709551615 - m)
wrap64 (negsuc n) =
    let m = n % 18446744073709551616 in
    if ltb m 9223372036854775808 then negsuc m else pos (18446744073709551615 - m)

unfoldable pub add64 : ℤ → ℤ → ℤ
unfolding wrap64
add64 a b = wrap64 (sub_ℕ (pos_part a + pos_part b) (neg_part a + neg_part b))

unfoldable pub sub64 : ℤ → ℤ → ℤ
unfolding wrap64
sub64 a b = wrap64 (sub_ℕ (pos_part a + neg_part b) (neg_part a + pos_part b))

-- `x++`
abbrev pub inc64 : ℤ → ℤ
inc64 a = add64 a (pos 1)

abbrev pub max64 : ℤ
max64 = pos 9223372036854775807

pub inc64-ne : (a : ℤ) → inc64 a ≢ a
unfolding add64
inc64-ne (pos n) h = ground arith
inc64-ne (negsuc n) h = ground arith

pub eqb_ℤ-eq : (a b : ℤ) → eqb_ℤ a b ≡ true → a ≡ b
eqb_ℤ-eq (pos n) (pos m) h = ground arith
eqb_ℤ-eq (pos n) (negsuc m) h = ground arith
eqb_ℤ-eq (negsuc n) (pos m) h = ground arith
eqb_ℤ-eq (negsuc n) (negsuc m) h = ground arith

pub eqb_ℤ_refl : (a : ℤ) → eqb_ℤ a a ≡ true
eqb_ℤ_refl a = ground arith

-- A counter that starts at 0 grows by one, up to the largest value.
pub inc64_bounds :
    (a : ℤ)
    → pos 0 ≤ℤ a
    → a <ℤ max64
    → (pos_part (inc64 a) ≡ pos_part a + 1) × (neg_part (inc64 a) ≡ 0)
unfolding add64
inc64_bounds (pos n) h k = ground arith
inc64_bounds (negsuc n) h k = absurd (omega arith)

pub inc64-above : (a : ℤ) → pos 0 ≤ℤ a → a <ℤ max64 → a <ℤ inc64 a
inc64-above (pos n) h k = omega (arith, inc64_bounds (pos n) h k)
inc64-above (negsuc n) h k = absurd (omega arith)

pub inc64-pos : (n : ℕ) → n < 9223372036854775807 → inc64 (pos n) ≡ pos (n + 1)
unfolding add64
inc64-pos n h = ground arith

-- The successor of what lies below a bound lies within it.
pub inc64-within :
    (a b : ℤ) → pos 0 ≤ℤ a → a <ℤ b → b ≤ℤ max64 → (pos 0 ≤ℤ inc64 a) × (inc64 a ≤ℤ b)
inc64-within (pos n) b h k l = omega (arith, inc64_bounds (pos n) h (omega arith))
inc64-within (negsuc n) b h k l = absurd (omega arith)

abbrev pub negated : ℕ → ℤ
negated zero = pos 0
negated (suc n) = negsuc n

-- `Duration.Milliseconds()`: a division that truncates toward zero.
abbrev pub milliseconds : ℤ → ℤ
milliseconds (pos n) = pos (n / 1000000)
milliseconds (negsuc n) = negated (suc n / 1000000)
