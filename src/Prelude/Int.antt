-- ===== src/Prelude/Int.antt =====
-- Signed integers over the native numbers, under the library's names, and the two's complement of an `i64`.
use zenextras.Prelude.{ℕ, suc, ◌+◌, ◌-◌, ◌*◌, ◌/◌, ◌%◌, ◌^◌, ◌≤◌, ◌<◌, ◌≡◌, refl, arith}
use zenextras.Prelude.{Bool, true, false, ltb, leb, ◌==◌, ◌&&◌, if◌then◌else◌}

-- `negsuc n` is -(n + 1).
pub data ℤ : Type 0 where
  pos : ℕ → ℤ
  negsuc : ℕ → ℤ

-- An integer is the difference of its two parts, one of which is zero.
abbrev pub pos_part : ℤ → ℕ
pos_part (pos n) = n
pos_part (negsuc n) = 0

abbrev pub neg_part : ℤ → ℕ
neg_part (pos n) = 0
neg_part (negsuc n) = suc n

abbrev pub sub_ℕ : ℕ → ℕ → ℤ
sub_ℕ a b = if leb b a then pos (a - b) else negsuc (b - a - 1)

infixl 65 ◌+ℤ◌ ◌-ℤ◌
unfoldable pub ◌+ℤ◌ : ℤ → ℤ → ℤ
a +ℤ b = sub_ℕ (pos_part a + pos_part b) (neg_part a + neg_part b)

unfoldable pub ◌-ℤ◌ : ℤ → ℤ → ℤ
a -ℤ b = sub_ℕ (pos_part a + neg_part b) (neg_part a + pos_part b)

-- The product with a number, and the quotient by one, rounded towards zero.
unfoldable pub times : ℤ → ℕ → ℤ
times a n = sub_ℕ (pos_part a * n) (neg_part a * n)

unfoldable pub div_trunc : ℤ → ℕ → ℤ
div_trunc a n = sub_ℕ (pos_part a / n) (neg_part a / n)

abbrev pub abs : ℤ → ℕ
abs a = pos_part a + neg_part a

infix 50 ◌≤ℤ◌ ◌<ℤ◌
abbrev pub ◌≤ℤ◌ : ℤ → ℤ → Type 0
a ≤ℤ b = pos_part a + neg_part b ≤ pos_part b + neg_part a

abbrev pub ◌<ℤ◌ : ℤ → ℤ → Type 0
a <ℤ b = pos_part a + neg_part b < pos_part b + neg_part a

abbrev pub ltb_ℤ : ℤ → ℤ → Bool
ltb_ℤ a b = ltb (pos_part a + neg_part b) (pos_part b + neg_part a)

abbrev pub leb_ℤ : ℤ → ℤ → Bool
leb_ℤ a b = leb (pos_part a + neg_part b) (pos_part b + neg_part a)

abbrev pub eqb_ℤ : ℤ → ℤ → Bool
eqb_ℤ a b = pos_part a + neg_part b == pos_part b + neg_part a

abbrev pub max_ℤ : ℤ → ℤ → ℤ
max_ℤ a b = if leb_ℤ a b then b else a

abbrev pub min_ℤ : ℤ → ℤ → ℤ
min_ℤ a b = if leb_ℤ a b then a else b

-- One lemma for each operation, so that `omega` works with the operations shut.
pub +ℤ_parts :
    (a b : ℤ)
    → pos_part (a +ℤ b) + (neg_part a + neg_part b) ≡ pos_part a + pos_part b + neg_part (a +ℤ b)
unfolding ◌+ℤ◌
+ℤ_parts a b = ground arith

pub -ℤ_parts :
    (a b : ℤ)
    → pos_part (a -ℤ b) + (neg_part a + pos_part b) ≡ pos_part a + neg_part b + neg_part (a -ℤ b)
unfolding ◌-ℤ◌
-ℤ_parts a b = ground arith

-- Two integers with the same difference are the same.
pub by_parts : (a b : ℤ) → pos_part a + neg_part b ≡ pos_part b + neg_part a → a ≡ b
by_parts a b h = ground arith

pub ruleset int_laws = (arith, +ℤ_parts, -ℤ_parts, by_parts)

-- The bits of an `i64`, and the integer that they stand for.
unfoldable pub i64_bits : ℤ → ℕ
i64_bits (pos n) = n % 2 ^ 64
i64_bits (negsuc n) = 2 ^ 64 - 1 - n % 2 ^ 64

abbrev pub as_i64 : ℕ → ℤ
as_i64 w = if ltb w (2 ^ 63) then pos w else negsuc (2 ^ 64 - 1 - w)

-- An integer that an `i64` holds.
abbrev pub is_i64 : ℤ → Bool
is_i64 (pos n) = ltb n (2 ^ 63)
is_i64 (negsuc n) = ltb n (2 ^ 63)

abbrev pub IsI64 : ℤ → Type 0
IsI64 a = (pos_part a < 2 ^ 63) × (neg_part a ≤ 2 ^ 63)

-- `a - b` on `i64`, which wraps.
unfoldable pub sub_i64 : ℤ → ℤ → ℤ
sub_i64 a b = as_i64 (i64_bits (a -ℤ b))

pub i64_bits-lt : (a : ℤ) → i64_bits a < 2 ^ 64
unfolding i64_bits
i64_bits-lt (pos n) = omega arith
i64_bits-lt (negsuc n) = omega arith

pub as_i64-i64_bits : (a : ℤ) → IsI64 a → as_i64 (i64_bits a) ≡ a
unfolding i64_bits
as_i64-i64_bits (pos n) h = ground arith
as_i64-i64_bits (negsuc n) h = ground arith

-- A difference that fits is the exact one.
pub sub_i64-exact : (a b : ℤ) → IsI64 (a -ℤ b) → sub_i64 a b ≡ a -ℤ b
unfolding sub_i64
sub_i64-exact a b h = as_i64-i64_bits (a -ℤ b) h

-- `a + b` on `u64`.
abbrev pub add_u64 : ℕ → ℕ → ℕ
add_u64 a b = (a + b) % 2 ^ 64

-- An integer cast to an `i128`, and its absolute value there.
abbrev pub as_i128 : ℕ → ℤ
as_i128 w = if ltb w (2 ^ 127) then pos w else negsuc (2 ^ 128 - 1 - w)

unfoldable pub wrap_i128 : ℤ → ℤ
wrap_i128 (pos n) = as_i128 (n % 2 ^ 128)
wrap_i128 (negsuc n) = as_i128 (2 ^ 128 - 1 - n % 2 ^ 128)

unfoldable pub abs_i128 : ℤ → ℤ
abs_i128 (pos n) = pos n
abs_i128 (negsuc n) = wrap_i128 (pos (suc n))
