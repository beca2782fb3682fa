-- ===== src/Webm/Tests.antt =====
-- Examples for zenwebm/src/ebml.rs: two elements of a Matroska header, and numbers.
mod Blocks
mod Media
mod Seeks
use zenextras.Prelude.{
  ℕ, ◌-◌, ◌^◌, ◌<◌, ◌≤◌, List, [], ◌∷◌, ◌++◌, map, length, ok, some, none, ◌≡◌, refl, arith, ◌⊎◌,
}
use zenextras.Prelude.Bytes.{Bytes}
use zenextras.Prelude.Int.{as_i64}
use zenextras.Webm.Ebml.{
  Header, max_header_len, header, vint, shift_in, leading_zeros, next, children, uint, int,
  put_uint, put_int,
}
use zenextras.Webm.Ebml.{float, widen, put_float}
use zenextras.Webm.Ebml.Floats.{next-put_float}
use zenextras.Webm.Ebml.Fields.{IsId}
use zenextras.Webm.Ebml.Elements.{put_all, children-put_all}
use zenextras.Webm.Ebml.Integers.{next-put_uint, next-put_int}
use zenextras.Webm.Ebml.Streaming.{header-append, header_short}

-- `DocType` and `DocTypeVersion`.
abbrev two_elements : List (ℕ × Bytes)
two_elements = (0x4282, b'w' ∷ b'e' ∷ b'b' ∷ b'm' ∷ []) ∷ (0x4287, 4 ∷ []) ∷ []

abbrev doc_type-IsId : IsId 0x4282
doc_type-IsId = record { width = 1; narrow = omega arith; from = omega arith; below = omega arith }

abbrev version-IsId : IsId 0x4287
version-IsId = record { width = 1; narrow = omega arith; from = omega arith; below = omega arith }

children-put_all_example : children (put_all [] two_elements) ≡ map ok two_elements
children-put_all_example = children-put_all two_elements (
  record { valid = doc_type-IsId; fits = omega arith },
  (record { valid = version-IsId; fits = omega arith }, tt),
)

next-put_uint_example :
    (p : Bytes) × (next (put_uint [] 0x4287 1000 ++ (7 ∷ [])) ≡ (ok (0x4287, p), 7 ∷ []))
    × (uint p ≡ ok 1000)
    × (1 ≤ length p)
    × (length p ≤ 8)
    × ((length p ≡ 1) ⊎ (256 ^ (length p - 1) ≤ 1000))
next-put_uint_example = next-put_uint 0x4287 1000 (7 ∷ []) version-IsId (omega arith)

-- Minus two.
next-put_int_example :
    (p : Bytes) × (next (put_int [] 0x4287 18446744073709551614 ++ (7 ∷ []))
      ≡ (ok (0x4287, p), 7 ∷ []))
    × (int p ≡ ok (as_i64 18446744073709551614))
    × (length p ≤ 8)
next-put_int_example = next-put_int 0x4287 18446744073709551614 (7 ∷ []) version-IsId (omega arith)

abbrev small_header : Header
small_header = record { id = 0x4287; size = some 1; len = 3 }

header_read : header (0x42 ∷ 0x87 ∷ 0x81 ∷ []) ≡ ok (some small_header)
unfolding header vint shift_in leading_zeros
header_read = refl

header-append_example :
    (header ((0x42 ∷ 0x87 ∷ 0x81 ∷ []) ++ (4 ∷ [])) ≡ ok (some small_header))
    × (2 ≤ small_header.len)
    × (small_header.len ≤ max_header_len)
    × (small_header.len ≤ length {A = ℕ} (0x42 ∷ 0x87 ∷ 0x81 ∷ []))
header-append_example = header-append (0x42 ∷ 0x87 ∷ 0x81 ∷ []) (4 ∷ []) small_header header_read

header_cut : header (0x42 ∷ 0x87 ∷ []) ≡ ok none
unfolding header vint shift_in leading_zeros
header_cut = refl

header_short_example : length {A = ℕ} (0x42 ∷ 0x87 ∷ []) < max_header_len
header_short_example = header_short (0x42 ∷ 0x87 ∷ []) header_cut

abbrev duration-IsId : IsId 0x4489
duration-IsId = record { width = 1; narrow = omega arith; from = omega arith; below = omega arith }

-- The duration 2.5.
next-put_float_example :
    (p : Bytes) × (next (put_float [] 0x4489 0x4004000000000000 ++ (7 ∷ []))
      ≡ (ok (0x4489, p), 7 ∷ []))
    × (float p ≡ ok 0x4004000000000000)
next-put_float_example =
    next-put_float 0x4489 0x4004000000000000 (7 ∷ []) duration-IsId (omega arith)

-- The same number in four bytes.
widen_exact : widen 0x40200000 ≡ 0x4004000000000000
unfolding widen
widen_exact = refl

-- The least number above zero, and infinity.
widen_least : (widen 1 ≡ 0x36a0000000000000) × (widen 0x7f800000 ≡ 0x7ff0000000000000)
unfolding widen
widen_least = (refl, refl)
