-- ===== src/Webm/RoundTrip/Heads.antt =====
-- The head of a block: what `block_head` writes, `read_head` reads.
use zenextras.Prelude.{ℕ, ◌+◌, ◌-◌, ◌*◌, ◌/◌, ◌%◌, ◌^◌, ◌≤◌, ◌<◌, bit_or, ok, some}
use zenextras.Prelude.{◌∷◌, ◌++◌, length, le→ltb}
use zenextras.Prelude.{◌≡◌, ap, sym, ◌∙◌, arith, false}
use zenextras.Prelude.Bits.{bit_or_disjoint}
use zenextras.Prelude.Bytes.{Bytes, to_be_bytes}
use zenextras.Prelude.Int.{ℤ, pos, negsuc, i64_bits, pos_part, neg_part}
use zenextras.Webm.Ebml.{vint}
use zenextras.Webm.Ebml.Vint.{vint_field}
use zenextras.Webm.Muxer.Blocks.{block_head}
use zenextras.Webm.Demuxer.Heads.{read_head, as_i16}

-- An integer that an `i16` holds.
abbrev pub IsI16 : ℤ → Type 0
IsI16 a = (pos_part a < 2 ^ 15) × (neg_part a ≤ 2 ^ 15)

as_i16_bits : (rel : ℤ) → IsI16 rel → as_i16 (i64_bits rel % 2 ^ 16) ≡ rel
unfolding i64_bits
as_i16_bits (pos n) h = ground arith
as_i16_bits (negsuc n) h = ground arith

number_byte :
    (index : ℕ) → index < 126 → bit_or 0x80 ((index % 2 ^ 8 + 1) % 2 ^ 8) ≡ 128 + (index + 1)
number_byte index h =
    let small : (index % 2 ^ 8 + 1) % 2 ^ 8 ≡ index + 1 = omega arith in
    rw small (bit_or_disjoint 7 1 (index + 1) (omega arith))

-- The number of a track is read from one byte with a marker.
track_number : (n : ℕ) (rest : Bytes) → n < 127 → vint ((128 + n) ∷ rest) 8 false ≡ ok (some (n, 1))
track_number n rest h =
    let byte : (128 + n) % 256 ≡ 128 + n = omega arith in
    let value : 128 + n - 128 ≡ n = omega arith in
    let read : vint (to_be_bytes 1 (128 + n) ++ rest) 8 false ≡ ok (some (128 + n - 128, 1)) =
      vint_field 0 (128 + n) (omega arith) (omega arith) (omega arith) 8 false rest (omega arith) in
    ap (λ (t : ℕ). vint (t ∷ rest) 8 false) (sym byte)
    ∙ read
    ∙ ap (λ (t : ℕ). ok (some (t, 1))) value

pub read_head-block_head :
    (index : ℕ) (rel : ℤ) (flags : ℕ) (rest : Bytes)
    → index < 126
    → IsI16 rel
    → read_head (block_head index rel ++ (flags ∷ rest))
      ≡ ok (record { number = index + 1; len = 1; rel = rel; flags = flags })
unfolding read_head block_head
read_head-block_head index rel flags rest h range =
    let bits = i64_bits rel % 2 ^ 16 in
    let two : bits % 256 + 256 * (bits / 256 % 256 + 0) ≡ bits = omega arith in
    let long : 4 ≤ length (block_head index rel ++ (flags ∷ rest)) = omega arith in
    rw
      (
        number_byte index h,
        track_number (index + 1) (to_be_bytes 2 bits ++ (flags ∷ rest)) (omega arith),
        le→ltb _ 4 long,
        two,
      )
      (ap (λ (z : ℤ). ok (record { number = index + 1; len = 1; rel = z; flags = flags }))
        (as_i16_bits rel range))
