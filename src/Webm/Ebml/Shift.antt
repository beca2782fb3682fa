-- ===== src/Webm/Ebml/Shift.antt =====
-- The byte loop and the width of a first byte, as arithmetic.
use native.Mathlib.Nat.{pow-suc, one-le-pow, pow-le-pow_right, mul-le-mul_left, mod-eq_of_lt}
use native.Mathlib.Nat.{div-add-mod, add-mul-mod_self_right}
use zenextras.Prelude.{ℕ, zero, suc, ◌+◌, ◌*◌, ◌/◌, ◌%◌, ◌^◌, ◌≤◌, ◌<◌, bit_or}
use zenextras.Prelude.{[], ◌∷◌, length, lt→ltb, le→ltb, ltb→lt, ltb→le, ltb}
use zenextras.Prelude.{◌⊎◌, inl, inr, Bool-cases, refl, ◌-◌}
use zenextras.Prelude.{◌≡◌, ap, sym, ◌∙◌, arith}
use zenextras.Prelude.Bits.{bit_or_disjoint}
use zenextras.Prelude.Bytes.{Bytes, AllBytes, be_bytes, be_bytes-cons, be_bytes-lt}
use zenextras.Webm.Ebml.{shift_in, leading_zeros}

-- One round: the shift drops the top byte of `v`.
shift_byte : (v x : ℕ) → x < 256 → bit_or (v * 2 ^ 8 % 2 ^ 64) x ≡ v % 2 ^ 56 * 256 + x
shift_byte v x hx =
    let kept : v * 2 ^ 8 % 2 ^ 64 ≡ v % 2 ^ 56 * 2 ^ 8 = omega arith in
    rw kept (bit_or_disjoint 8 (v % 2 ^ 56) x hx)

-- A high part that is a multiple of 2 ^ 64 makes no difference.
drop_top : (v r p : ℕ) → (v % 2 ^ 56 * 256 * p + r) % 2 ^ 64 ≡ (v * 256 * p + r) % 2 ^ 64
drop_top v r p =
    let split : v * 256 * p + r ≡ v % 2 ^ 56 * 256 * p + r + v / 2 ^ 56 * p * 2 ^ 64 =
      omega (arith, ap (λ (t : ℕ). t * 256 * p) (div-add-mod v (2 ^ 56))) in
    rw split (sym (add-mul-mod_self_right (v % 2 ^ 56 * 256 * p + r) (v / 2 ^ 56 * p) (2 ^ 64)))

-- The loop appends its bytes to `v` as a big-endian number, in 64 bits.
pub shift_in_mod :
    (v : ℕ) (xs : Bytes)
    → AllBytes xs
    → v < 2 ^ 64
    → shift_in v xs ≡ (v * 256 ^ length xs + be_bytes xs) % 2 ^ 64
unfolding shift_in
shift_in_mod v [] h fits = omega arith
shift_in_mod v (x ∷ xs) h fits =
    let p = 256 ^ length xs in
    let part : v * 256 ^ suc (length xs) ≡ v * 256 * p =
      omega (arith, ap (λ (t : ℕ). v * t) (pow-suc 256 (length xs))) in
    rw (shift_byte v x h.0) (
      shift_in_mod (v % 2 ^ 56 * 256 + x) xs h.1 (omega arith)
      ∙ ap (λ (t : ℕ). t % 2 ^ 64) (omega arith)
      ∙ drop_top v (x * p + be_bytes xs) p
      ∙ ap (λ (t : ℕ). t % 2 ^ 64) (omega (arith, part, be_bytes-cons x xs)))

-- Where the number fits in 64 bits, nothing is dropped.
pub shift_in-be_bytes :
    (v : ℕ) (xs : Bytes)
    → AllBytes xs
    → (v + 1) * 256 ^ length xs ≤ 2 ^ 64
    → shift_in v xs ≡ v * 256 ^ length xs + be_bytes xs
shift_in-be_bytes v xs h fits =
    let least : (v + 1) * 1 ≤ (v + 1) * 256 ^ length xs =
      mul-le-mul_left (v + 1) (one-le-pow (length xs) 256 (omega arith)) in
    shift_in_mod v xs h (omega arith) ∙ mod-eq_of_lt (omega (arith, be_bytes-lt xs h))

pub leading_zeros-eq :
    (n k w x : ℕ) → n + suc k ≡ w → 2 ^ k ≤ x → x < 2 ^ suc k → leading_zeros w x ≡ n
unfolding leading_zeros
leading_zeros-eq n k zero x e lo hi = absurd (omega arith)
leading_zeros-eq zero k (suc w) x e lo hi =
    let same : w ≡ k = omega arith in rw (same, le→ltb x (2 ^ k) lo)
leading_zeros-eq (suc n) k (suc w) x e lo hi =
    let shorter : n + suc k ≡ w = omega arith in
    let below : 2 ^ suc k ≤ 2 ^ w = pow-le-pow_right (omega arith) (omega arith) in
    rw (lt→ltb x (2 ^ w) (omega arith), leading_zeros-eq n k w x shorter lo hi)

-- The value bits of a word start right behind its leading zeros.
pub leading_zeros_bounds :
    (w x : ℕ)
    → x < 2 ^ w
    → (leading_zeros w x ≤ w)
      × (x < 2 ^ (w - leading_zeros w x))
      × ((leading_zeros w x ≡ w) ⊎ (2 ^ (w - leading_zeros w x - 1) ≤ x))
unfolding leading_zeros
leading_zeros_bounds zero x h = (omega arith, omega arith, inl refl)
leading_zeros_bounds (suc w) x h = elim (Bool-cases (ltb x (2 ^ w))) [
  | inl small ↦
      let (le, below, high) = leading_zeros_bounds w x (ltb→lt x (2 ^ w) small) in
      let less : suc w - suc (leading_zeros w x) ≡ w - leading_zeros w x = omega arith in
      rw (small, less) (omega arith, below, elim high [ inl e ↦ inl (omega arith) | inr g ↦ inr g ])
  | inr big ↦
      let all : suc w - 0 ≡ suc w = omega arith in
      let same : suc w - 1 ≡ w = omega arith in
      rw (big, all) (omega arith, h, inr (rw same (ltb→le x (2 ^ w) big)))
]
