-- ===== src/Common/Int.antt =====
-- Signed integers over the native numbers, under the library's names. Sums and orders go through
-- the two parts of an integer, which are numbers that `omega` reads.
use Prim.Native.Nat.{ℕ, suc, ◌%◌, ◌^◌, ◌+◌, ◌-◌, ◌≤◌, ◌<◌}
use mathlib.Core.Path.{◌≡◌}
use mathlib.Core.Bool.{Bool, true}
use native.Mathlib.Omega.{arith}
use eu_nex.Common.Tests.{ltb, leb, ◌==◌, if◌then◌else◌}

-- `negsuc n` is -(n + 1).
pub data ℤ : Type 0 where
  pos : ℕ → ℤ
  negsuc : ℕ → ℤ

abbrev pub pos_part : ℤ → ℕ
pos_part (pos n) = n
pos_part (negsuc n) = 0

abbrev pub neg_part : ℤ → ℕ
neg_part (pos n) = 0
neg_part (negsuc n) = suc n

infix 50 ◌≤ℤ◌ ◌<ℤ◌
abbrev pub ◌≤ℤ◌ : ℤ → ℤ → Type 0
a ≤ℤ b = pos_part a + neg_part b ≤ pos_part b + neg_part a

abbrev pub ◌<ℤ◌ : ℤ → ℤ → Type 0
a <ℤ b = pos_part a + neg_part b < pos_part b + neg_part a

abbrev pub ltb_ℤ : ℤ → ℤ → Bool
ltb_ℤ a b = ltb (pos_part a + neg_part b) (pos_part b + neg_part a)

abbrev pub leb_ℤ : ℤ → ℤ → Bool
leb_ℤ a b = leb (pos_part a + neg_part b) (pos_part b + neg_part a)

abbrev pub eq_ℤ : ℤ → ℤ → Bool
eq_ℤ a b = pos_part a + neg_part b == pos_part b + neg_part a

pub eq_of_parts : (a b : ℤ) → pos_part a + neg_part b ≡ pos_part b + neg_part a → a ≡ b
eq_of_parts a b h = ground arith

pub eq_ℤ→eq : (a b : ℤ) → eq_ℤ a b ≡ true → a ≡ b
eq_ℤ→eq a b h = ground arith

infixl 60 ◌+ℤ◌
abbrev pub ◌+ℤ◌ : ℤ → ℤ → ℤ
pos a +ℤ pos b = pos (a + b)
pos a +ℤ negsuc b = if ltb b a then pos (a - suc b) else negsuc (b - a)
negsuc a +ℤ pos b = if ltb a b then pos (b - suc a) else negsuc (a - b)
negsuc a +ℤ negsuc b = negsuc (suc (a + b))

abbrev pub neg : ℤ → ℤ
neg (pos a) = if a == 0 then pos 0 else negsuc (a - 1)
neg (negsuc a) = pos (suc a)

abbrev pub abs : ℤ → ℕ
abs a = pos_part a + neg_part a

pub zero_+ℤ : (a : ℤ) → pos 0 +ℤ a ≡ a
zero_+ℤ (pos a) = ground arith
zero_+ℤ (negsuc a) = ground arith

pub +ℤ_zero : (a : ℤ) → a +ℤ pos 0 ≡ a
+ℤ_zero (pos a) = ground arith
+ℤ_zero (negsuc a) = ground arith

-- The value in a signed word of 64 bits, where an operation leaves its range. (C++ leaves such an
-- overflow of a signed operation undefined.)
abbrev pub wrap_i64 : ℤ → ℤ
wrap_i64 (pos n) =
    let low = n % 2 ^ 64 in if ltb low (2 ^ 63) then pos low else negsuc (2 ^ 64 - 1 - low)
wrap_i64 (negsuc n) =
    let low = n % 2 ^ 64 in if ltb low (2 ^ 63) then negsuc low else pos (2 ^ 64 - 1 - low)

abbrev pub add_i64 : ℤ → ℤ → ℤ
add_i64 a b = wrap_i64 (a +ℤ b)

pub wrap_i64-eq : (a : ℤ) → abs a < 2 ^ 63 → wrap_i64 a ≡ a
wrap_i64-eq (pos n) h = ground arith
wrap_i64-eq (negsuc n) h = ground arith

pub abs-add : (a b : ℤ) → abs (a +ℤ b) ≤ abs a + abs b
abs-add (pos a) (pos b) = ground arith
abs-add (pos a) (negsuc b) = ground arith
abs-add (negsuc a) (pos b) = ground arith
abs-add (negsuc a) (negsuc b) = ground arith

pub add_i64-eq : (a b : ℤ) → abs a + abs b < 2 ^ 63 → add_i64 a b ≡ a +ℤ b
add_i64-eq a b h = wrap_i64-eq (a +ℤ b) (omega (arith, abs-add a b))

-- What is known of the size of a sum.
pub abs-add_i64 : (a b : ℤ) → abs a + abs b < 2 ^ 63 → abs (add_i64 a b) ≤ abs a + abs b
abs-add_i64 a b h = rw (add_i64-eq a b h) (abs-add a b)
