-- ===== src/Webm/Ebml/Integers.antt =====
-- Integer payloads: what `put_uint` and `put_int` write is read back, at minimal width.
use native.Mathlib.Nat.{pow-le-pow_right}
use zenextras.Prelude.{ℕ, suc, ◌+◌, ◌-◌, ◌*◌, ◌/◌, ◌^◌, ◌≤◌, ◌<◌, min, bit_and}
use zenextras.Prelude.{[], ◌∷◌, ◌++◌, length, drop, ok, le→ltb, if◌then◌else◌, ◌==◌}
use zenextras.Prelude.{Bool, true, false, ◌⊎◌, inl, inr, Bool-cases, ◌≡◌, refl, ap, sym, ◌∙◌, arith}
use zenextras.Prelude.{==→eq}
use zenextras.Prelude.Bits.{all_below, all_below_sound}
use zenextras.Prelude.Bytes.{
  Bytes, AllBytes, be_bytes, be_bytes-lt, to_be_bytes, length-to_be_bytes,
}
use zenextras.Prelude.Bytes.{AllBytes-to_be_bytes, be_bytes-to_be_bytes, drop-to_be_bytes}
use zenextras.Prelude.Int.{as_i64}
use zenextras.Webm.Ebml.{shift_in, leading_zeros, uint, int, is_negative, trim, is_redundant}
use zenextras.Webm.Ebml.{next, put_uint, put_int}
use zenextras.Webm.Ebml.Fields.{IsId}
use zenextras.Webm.Ebml.Elements.{next-put}
use zenextras.Webm.Ebml.Shift.{leading_zeros_bounds, shift_in_mod, shift_in-be_bytes}

-- A payload of up to eight bytes is a big-endian number.
pub uint-be_bytes : (b : Bytes) → AllBytes b → length b ≤ 8 → uint b ≡ ok (be_bytes b)
unfolding uint
uint-be_bytes b h le =
    let fits : (0 + 1) * 256 ^ length b ≤ 2 ^ 64 =
      rw_pow (pow-le-pow_right {n = 256} (omega arith) le) in
    rw (le→ltb 8 (length b) le) (ap ok (shift_in-be_bytes 0 b h fits ∙ omega arith))
  where
    rw_pow : 256 ^ length b ≤ 256 ^ 8 → (0 + 1) * 256 ^ length b ≤ 2 ^ 64
    rw_pow q = omega arith

power_table : all_below 9 (λ k. 256 ^ k == 2 ^ (8 * k)) ≡ true
unfolding all_below
power_table = refl

byte_power : (k : ℕ) → k < 9 → 256 ^ k ≡ 2 ^ (8 * k)
byte_power k h = ==→eq _ _ (all_below_sound 9 _ k power_table h)

-- How many bytes `put_uint` keeps of a `u64`: enough for it, and no more.
kept_bytes :
    (v : ℕ)
    → v < 2 ^ 64
    → (k : ℕ) × (8 - min (leading_zeros 64 v / 8) 7 ≡ suc k)
      × (k < 8)
      × (v < 256 ^ suc k)
      × ((k ≡ 0) ⊎ (256 ^ k ≤ v))
kept_bytes v h =
    let z = leading_zeros 64 v in
    let k = 7 - min (z / 8) 7 in
    let (le, below, high) = leading_zeros_bounds 64 v h in
    let up : 2 ^ (64 - z) ≤ 2 ^ (8 * suc k) = pow-le-pow_right (omega arith) (omega arith) in
    (
      k,
      omega arith,
      omega arith,
      omega (arith, byte_power (suc k) (omega arith)),
      elim high [
        | inl all ↦ inl (omega arith)
        | inr top ↦ elim (Bool-cases (k == 0)) [
          | inl none_left ↦ inl (==→eq k 0 none_left)
          | inr some_left ↦
              let down : 2 ^ (8 * k) ≤ 2 ^ (64 - z - 1) =
                pow-le-pow_right (omega arith) (ground arith) in
              inr (omega (arith, byte_power k (omega arith)))
        ]
      ],
    )

uint_payload :
    (v : ℕ)
    → v < 2 ^ 64
    → (k : ℕ) × (drop (min (leading_zeros 64 v / 8) 7) (to_be_bytes 8 v) ≡ to_be_bytes (suc k) v)
      × (k < 8)
      × (v < 256 ^ suc k)
      × ((k ≡ 0) ⊎ (256 ^ k ≤ v))
uint_payload v h =
    let (k, e, small, fits, least) = kept_bytes v h in
    (k, drop-to_be_bytes 8 _ (suc k) v (omega (arith, e)), small, fits, least)

-- The payload that `put_uint` writes.
abbrev pub uint_bytes : ℕ → Bytes
uint_bytes v = drop (min (leading_zeros 64 v / 8) 7) (to_be_bytes 8 v)

pub uint-uint_bytes :
    (v : ℕ) → v < 2 ^ 64 → (uint (uint_bytes v) ≡ ok v) × (length (uint_bytes v) ≤ 8)
uint-uint_bytes v h =
    let (k, payload, small, fits, least) = uint_payload v h in
    let p = to_be_bytes (suc k) v in
    let long : length p ≡ suc k = length-to_be_bytes (suc k) v in
    rw payload (
      uint-be_bytes p (AllBytes-to_be_bytes (suc k) v) (omega (arith, long))
          ∙ ap ok (be_bytes-to_be_bytes (suc k) v fits),
      omega (arith, long),
    )

-- An unsigned integer element is read back from what `put_uint` wrote, whatever follows it, and its
-- payload has the fewest bytes that hold the value, one at least.
pub next-put_uint :
    (id v : ℕ) (rest : Bytes)
    → IsId id
    → v < 2 ^ 64
    → (p : Bytes) × (next (put_uint [] id v ++ rest) ≡ (ok (id, p), rest))
      × (uint p ≡ ok v)
      × (1 ≤ length p)
      × (length p ≤ 8)
      × ((length p ≡ 1) ⊎ (256 ^ (length p - 1) ≤ v))
unfolding put_uint
next-put_uint id v rest w h =
    let (k, payload, small, fits, least) = uint_payload v h in
    let p = to_be_bytes (suc k) v in
    let long : length p ≡ suc k = length-to_be_bytes (suc k) v in
    let read : uint p ≡ ok v =
      uint-be_bytes p (AllBytes-to_be_bytes (suc k) v) (omega (arith, long))
      ∙ ap ok (be_bytes-to_be_bytes (suc k) v fits) in
    let less : suc k - 1 ≡ k = omega arith in
    (
      p,
      rw payload (next-put id p rest (record { valid = w; fits = omega (arith, long) })),
      read,
      omega (arith, long),
      omega (arith, long),
      rw (long, less) (elim least [ inl z ↦ inl (ap suc z) | inr b ↦ inr b ]),
    )

redundant_cases :
    (x y : ℕ)
    → is_redundant x y ≡ true
    → ((x ≡ 0) × ((bit_and y 0x80 == 0) ≡ true)) ⊎ ((x ≡ 0xff) × ((bit_and y 0x80 == 0) ≡ false))
redundant_cases x y r = ground arith

-- A byte that repeats the sign in front of eight bytes at most changes nothing.
int_redundant :
    (x y : ℕ) (rest : Bytes)
    → is_redundant x y ≡ true
    → length (x ∷ y ∷ rest) ≤ 8
    → int (x ∷ y ∷ rest) ≡ int (y ∷ rest)
unfolding int is_negative shift_in
int_redundant x y rest r le = elim (redundant_cases x y r) [
  | inl (zeros, high) ↦
      rw (zeros, high, le→ltb 8 _ le, le→ltb 8 (suc (length rest)) (omega arith)) refl
  | inr (ones, high) ↦
      rw (ones, high, le→ltb 8 _ le, le→ltb 8 (suc (length rest)) (omega arith)) refl
]

int-trim : (b : Bytes) → length b ≤ 8 → int (trim b) ≡ int b
unfolding trim
int-trim [] le = refl
int-trim (x ∷ []) le = refl
int-trim (x ∷ y ∷ rest) le = elim (Bool-cases (is_redundant x y)) [
  | inl r ↦ rw r (int-trim (y ∷ rest) (omega arith) ∙ sym (int_redundant x y rest r le))
  | inr k ↦ rw k
]

length-trim : (b : Bytes) → length (trim b) ≤ length b
unfolding trim
length-trim [] = omega arith
length-trim (x ∷ []) = omega arith
length-trim (x ∷ y ∷ rest) = ground (arith, length-trim (y ∷ rest))

-- Eight bytes are the bits themselves: the sign that the loop starts from is shifted out.
int_eight : (b : Bytes) → AllBytes b → length b ≡ 8 → int b ≡ ok (as_i64 (be_bytes b))
unfolding int
int_eight b h e =
    let s : ℕ = if is_negative b then 2 ^ 64 - 1 else 0 in
    let all : shift_in s b ≡ be_bytes b =
      shift_in_mod s b h (sign_lt (is_negative b))
      ∙ rw e (omega (arith, be_bytes-lt b h, ap (λ (t : ℕ). 256 ^ t) e)) in
    rw (le→ltb 8 (length b) (omega arith)) (ap (λ (t : ℕ). ok (as_i64 t)) all)
  where
    sign_lt : (n : Bool) → (if n then 2 ^ 64 - 1 else 0) < 2 ^ 64
    sign_lt true = omega arith
    sign_lt false = omega arith

int_whole : (bits : ℕ) → bits < 2 ^ 64 → int (to_be_bytes 8 bits) ≡ ok (as_i64 bits)
int_whole bits h =
    int_eight (to_be_bytes 8 bits) (AllBytes-to_be_bytes 8 bits) (length-to_be_bytes 8 bits)
    ∙ ap (λ (t : ℕ). ok (as_i64 t)) (be_bytes-to_be_bytes 8 bits h)

-- A signed integer element is read back from what `put_int` wrote, whatever follows it.
pub next-put_int :
    (id bits : ℕ) (rest : Bytes)
    → IsId id
    → bits < 2 ^ 64
    → (p : Bytes) × (next (put_int [] id bits ++ rest) ≡ (ok (id, p), rest))
      × (int p ≡ ok (as_i64 bits))
      × (length p ≤ 8)
unfolding put_int
next-put_int id bits rest w h =
    let b = to_be_bytes 8 bits in
    let long : length b ≡ 8 = length-to_be_bytes 8 bits in
    (
      trim b,
      next-put id (trim b) rest (record { valid = w; fits = omega (arith, length-trim b, long) }),
      int-trim b (omega (arith, long)) ∙ int_whole bits h,
      omega (arith, length-trim b, long),
    )

-- The payload that `put_int` writes.
abbrev pub int_bytes : ℕ → Bytes
int_bytes bits = trim (to_be_bytes 8 bits)

pub int-int_bytes :
    (bits : ℕ)
    → bits < 2 ^ 64
    → (int (int_bytes bits) ≡ ok (as_i64 bits)) × (length (int_bytes bits) ≤ 8)
int-int_bytes bits h =
    let b = to_be_bytes 8 bits in
    let long : length b ≡ 8 = length-to_be_bytes 8 bits in
    (int-trim b (omega (arith, long)) ∙ int_whole bits h, omega (arith, length-trim b, long))
