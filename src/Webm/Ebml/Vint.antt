-- ===== src/Webm/Ebml/Vint.antt =====
-- `vint` on the fields that the writers make, and on every input.
use zenextras.Prelude.{ℕ, suc, ◌+◌, ◌-◌, ◌*◌, ◌/◌, ◌%◌, ◌^◌, ◌≤◌, ◌<◌, bit_and}
use zenextras.Prelude.{◌∷◌, ◌++◌, length, ◌==◌, if◌then◌else◌}
use zenextras.Prelude.{Bool, true, false, some, ok, length-append, take-append}
use zenextras.Prelude.{◌≡◌, ◌≢◌, refl, ap, ◌∙◌, arith}
use native.Mathlib.Nat.{pow-suc, one-le-pow, mod-eq_of_lt, le-div_iff_mul-le, div-lt_iff_lt-mul}
use native.Mathlib.Nat.{div-add-mod', mod-eq-sub-mod, mul-le-mul_right}
use zenextras.Prelude.Bits.{bit_and-mod, all_below, all_below_sound}
use zenextras.Prelude.Bytes.{be_bytes-to_be_bytes_mod}
use zenextras.Prelude.{==→eq, leb, ◌&&◌}
use zenextras.Prelude.Bytes.{Bytes, to_be_bytes, to_be_bytes-suc}
use zenextras.Prelude.Bytes.{length-to_be_bytes, AllBytes-to_be_bytes}
use zenextras.Webm.Ebml.{leading_zeros, shift_in, vint}
use zenextras.Webm.Ebml.Shift.{shift_in-be_bytes, leading_zeros-eq}

-- A first byte that announces exactly the bytes behind it.
pub vint_whole :
    (first n max_len : ℕ) (keep : Bool) (rest more : Bytes)
    → first ≢ 0
    → leading_zeros 8 first ≡ n
    → n < max_len
    → length rest ≡ n
    → vint (first ∷ (rest ++ more)) max_len keep
      ≡ ok
          (some (shift_in (if keep then first else bit_and first (0xff / 2 ^ (n + 1))) rest, n + 1))
unfolding vint
vint_whole first n max_len keep rest more nz e lt len =
    rw (e, take-append rest more (n + 1 - 1) (omega arith))
      (ground (arith, length-append rest more))

-- What the eight widths have in common: the mask of the value bits, and room for the field in a `u64`.
width_table :
    all_below 8 (λ n.
      (0xff / 2 ^ (n + 1) == 2 ^ (7 - n) - 1)
      && leb (2 * 2 ^ (7 - n) * 256 ^ n) (2 ^ 64)
      && leb (2 ^ suc (7 - n)) 256)
    ≡ true
unfolding all_below
width_table = refl

width :
    (n : ℕ)
    → n < 8
    → (0xff / 2 ^ (n + 1) ≡ 2 ^ (7 - n) - 1)
      × (2 * 2 ^ (7 - n) * 256 ^ n ≤ 2 ^ 64)
      × (2 ^ suc (7 - n) ≤ 256)
width n h = ground (arith, all_below_sound 8 _ n width_table h)

-- A field of `n + 1` bytes: the marker is the lowest bit of `2 ^ (7 - n)` in its first byte.
abbrev pub marker : ℕ → ℕ
marker n = 2 ^ (7 - n) * 256 ^ n

module _ (n v : ℕ) (fits : n < 8) (lo : marker n ≤ v) (hi : v < 2 * marker n) where
  high_byte : (2 ^ (7 - n) ≤ v / 256 ^ n) × (v / 256 ^ n < 2 * 2 ^ (7 - n))
  high_byte = (
    (le-div_iff_mul-le (one-le-pow n 256 (omega arith))).1 lo,
    (div-lt_iff_lt-mul (one-le-pow n 256 (omega arith))).1 (omega arith),
  )

  first_byte : v / 256 ^ n % 256 ≡ v / 256 ^ n
  first_byte = mod-eq_of_lt (omega (arith, high_byte, width n fits, pow-suc 2 (7 - n)))

  -- The bytes behind the first, read onto a high part `f`.
  low_bytes : (f : ℕ) → f ≤ v / 256 ^ n → shift_in f (to_be_bytes n v) ≡ f * 256 ^ n + v % 256 ^ n
  low_bytes f le =
      let more : (f + 1) * 256 ^ n ≤ 2 * 2 ^ (7 - n) * 256 ^ n =
        mul-le-mul_right (256 ^ n) (omega (arith, high_byte)) in
      let room : (f + 1) * 256 ^ length (to_be_bytes n v) ≤ 2 ^ 64 =
        rw (length-to_be_bytes n v) (omega (arith, width n fits)) in
      shift_in-be_bytes f (to_be_bytes n v) (AllBytes-to_be_bytes n v) room
      ∙ rw (length-to_be_bytes n v, be_bytes-to_be_bytes_mod n v)

  masked : bit_and (v / 256 ^ n) (0xff / 2 ^ (n + 1)) ≡ v / 256 ^ n - 2 ^ (7 - n)
  masked =
      rw ((width n fits).0, bit_and-mod (7 - n) (v / 256 ^ n), mod-eq-sub-mod high_byte.0)
        (mod-eq_of_lt (omega (arith, high_byte)))

  value_bits :
      (keep : Bool)
      → shift_in
          (if keep then v / 256 ^ n else bit_and (v / 256 ^ n) (0xff / 2 ^ (n + 1)))
          (to_be_bytes n v)
        ≡ (if keep then v else v - marker n)
  value_bits true = low_bytes (v / 256 ^ n) (omega arith) ∙ div-add-mod' v (256 ^ n)
  value_bits false = rw masked (
      low_bytes (v / 256 ^ n - 2 ^ (7 - n)) (omega arith)
      ∙ grind (arith, div-add-mod' v (256 ^ n), high_byte))

  -- `vint` on a field and whatever follows it.
  pub vint_field :
      (max_len : ℕ) (keep : Bool) (more : Bytes)
      → n < max_len
      → vint (to_be_bytes (suc n) v ++ more) max_len keep
        ≡ ok (some (if keep then v else v - marker n, n + 1))
  vint_field max_len keep more lt =
      let zeros : leading_zeros 8 (v / 256 ^ n) ≡ n =
        leading_zeros-eq n (7 - n) 8 (v / 256 ^ n) (omega arith) high_byte.0
          (omega (arith, high_byte, pow-suc 2 (7 - n))) in
      rw (to_be_bytes-suc n v, first_byte)
        (vint_whole (v / 256 ^ n) n max_len keep (to_be_bytes n v) more
            (λ e. absurd (omega (arith, high_byte, one-le-pow (7 - n) 2))) zeros lt
            (length-to_be_bytes n v)
          ∙ ap (λ (t : ℕ). ok (some (t, n + 1))) (value_bits keep))

marker_table : all_below 8 (λ n. marker n == 2 ^ (7 * (n + 1))) ≡ true
unfolding all_below
marker_table = refl

pub marker-eq : (n : ℕ) → n < 8 → marker n ≡ 2 ^ (7 * (n + 1))
marker-eq n h = ==→eq _ _ (all_below_sound 8 _ n marker_table h)
