-- ===== src/Webm/Ebml.antt =====
-- zenwebm/src/ebml.rs: element headers, integer and float payloads, and the writers. A byte slice is
-- a list of numbers below 256; a `u64` is a number below 2 ^ 64, and `<<` drops the bits above it.
pub mod Ids
pub mod Shift
pub mod Vint
pub mod Fields
pub mod Elements
pub mod Integers
pub mod Streaming
pub mod Floats
use zenextras.Prelude.{ℕ, zero, suc, ◌+◌, ◌-◌, ◌*◌, ◌/◌, ◌%◌, ◌^◌, min, max, bit_and, bit_or}
use zenextras.Prelude.{Bool, true, false, ◌&&◌, ◌||◌, Option, none, some, List, [], ◌∷◌, ◌++◌}
use zenextras.Prelude.{ltb, leb, ◌==◌, if◌then◌else◌, length, take, drop}
use zenextras.Prelude.{Result, ok, err, ◌>>=◌}
use zenextras.Prelude.Bytes.{Bytes, slice, be_bytes, to_be_bytes}
use zenextras.Prelude.Bits.{log_2}
use zenextras.Prelude.Int.{ℤ, as_i64}
use zenextras.Webm.Error.{WebmError, bad_vint, bad_integer, bad_float, unknown_size, overrun}

abbrev pub max_id_len : ℕ
max_id_len = 4

abbrev pub max_size_len : ℕ
max_size_len = 8

abbrev pub max_header_len : ℕ
max_header_len = max_id_len + max_size_len

pub record Header : Type 0 where
  pub id : ℕ
  pub size : Option ℕ
  pub len : ℕ

-- A size read from a file is below 2 ^ 56, so the sum does not wrap.
unfoldable pub total : Header → Option ℕ
total h = elim h.size [ none ↦ none | some s ↦ some (s + h.len) ]

-- `x.leading_zeros()` of a word of `w` bits.
unfoldable pub leading_zeros : ℕ → ℕ → ℕ
leading_zeros zero x = 0
leading_zeros (suc w) x = if ltb x (2 ^ w) then suc (leading_zeros w x) else 0

-- `for x in bytes { v = (v << 8) | x }`
unfoldable pub shift_in : ℕ → Bytes → ℕ
shift_in v [] = v
shift_in v (x ∷ xs) = shift_in (bit_or (v * 2 ^ 8 % 2 ^ 64) x) xs

abbrev pub Vint : Type 0
Vint = Result WebmError (Option (ℕ × ℕ))

-- `none` asks for more bytes.
unfoldable pub vint : Bytes → ℕ → Bool → Vint
vint [] max_len keep_marker = ok none
vint (first ∷ rest) max_len keep_marker =
    let len = leading_zeros 8 first + 1 in
    let v = if keep_marker then first else bit_and first (0xff / 2 ^ len) in
    if first == 0 || ltb max_len len
    then err bad_vint
    else if ltb (length (first ∷ rest)) len
    then ok none
    else ok (some (shift_in v (take (len - 1) rest), len))

-- The header of an ID field and a size field that were both read whole.
abbrev pub of_fields : ℕ × ℕ → ℕ × ℕ → Header
of_fields (id, id_len) (raw, size_len) = record {
  id = id % 2 ^ 32;
  size = if raw == 2 ^ (7 * size_len) - 1 then none else some raw;
  len = id_len + size_len;
}

unfoldable pub header : Bytes → Result WebmError (Option Header)
header b = do
  field ← vint b max_id_len true
  elim field [
    | none ↦ ok none
    | some (id, id_len) ↦ do
      size ← vint (drop id_len b) max_size_len false
      elim size [ none ↦ ok none | some s ↦ ok (some (of_fields (id, id_len) s)) ]
  ]

abbrev pub Child : Type 0
Child = Result WebmError (ℕ × Bytes)

-- One element cut off `rest`: `usize::try_from`, `checked_add` and the filter on the end.
unfoldable pub cut : Bytes → Header → Child × Bytes
cut rest h = elim h.size [
  | none ↦ (err unknown_size, [])
  | some size ↦
      let end = size + h.len in
      if ltb end (2 ^ 64) && leb end (length rest)
      then (ok (h.id, slice h.len end rest), drop end rest)
      else (err overrun, [])
]

-- `Children::next` on a rest that is not empty; an error ends the iteration.
unfoldable pub next : Bytes → Child × Bytes
next rest = elim (header rest) [
  | ok (some h) ↦ cut rest h
  | ok none ↦ (err overrun, [])
  | err e ↦ (err e, [])
]

-- The iterator run to its end. Each child takes two bytes at least, so `length body` rounds are enough.
unfoldable pub children_from : ℕ → Bytes → List Child
children_from fuel [] = []
children_from zero (b ∷ bs) = []
children_from (suc fuel) (b ∷ bs) =
    let (child, rest) = next (b ∷ bs) in child ∷ children_from fuel rest

unfoldable pub children : Bytes → List Child
children body = children_from (length body) body

unfoldable pub uint : Bytes → Result WebmError ℕ
uint b = if ltb 8 (length b) then err bad_integer else ok (shift_in 0 b)

-- `b.first().is_some_and(|&x| x & 0x80 != 0)`
unfoldable pub is_negative : Bytes → Bool
is_negative [] = false
is_negative (x ∷ _) = if bit_and x 0x80 == 0 then false else true

unfoldable pub int : Bytes → Result WebmError ℤ
int b =
    if ltb 8 (length b)
    then err bad_integer
    else ok (as_i64 (shift_in (if is_negative b then 2 ^ 64 - 1 else 0) b))

unfoldable pub put_id : Bytes → ℕ → Bytes
put_id out id =
    let len = max (4 - leading_zeros 32 id / 8) 1 in out ++ drop (4 - len) (to_be_bytes 4 id)

-- `while len < MAX_SIZE_LEN && size >= (1 << (7 * len)) - 1 { len += 1 }`; seven rounds reach 8.
unfoldable pub size_len : ℕ → ℕ → ℕ → ℕ
size_len zero len size = len
size_len (suc fuel) len size =
    if ltb len max_size_len && leb (2 ^ (7 * len) - 1) size
    then size_len fuel (len + 1) size
    else len

unfoldable pub put_size : Bytes → ℕ → Bytes
put_size out size =
    let len = size_len 7 1 size in
    out ++ drop (8 - len) (to_be_bytes 8 (bit_or (1 * 2 ^ (7 * len)) size))

unfoldable pub put_unknown_size : Bytes → Bytes
put_unknown_size out = out ++ (0x01 ∷ 0xff ∷ 0xff ∷ 0xff ∷ 0xff ∷ 0xff ∷ 0xff ∷ 0xff ∷ [])

unfoldable pub put : Bytes → ℕ → Bytes → Bytes
put out id payload = put_size (put_id out id) (length payload) ++ payload

unfoldable pub put_uint : Bytes → ℕ → ℕ → Bytes
put_uint out id v =
    let skip = min (leading_zeros 64 v / 8) 7 in put out id (drop skip (to_be_bytes 8 v))

-- Whether the first of two bytes repeats the sign bit of the second.
abbrev pub is_redundant : ℕ → ℕ → Bool
is_redundant x y =
    let high = bit_and y 0x80 in
    (x == 0 && high == 0) || (x == 0xff && (if high == 0 then false else true))

-- The loop of `put_int`: while two bytes are left and the first is redundant, drop it.
unfoldable pub trim : Bytes → Bytes
trim [] = []
trim (x ∷ []) = x ∷ []
trim (x ∷ y ∷ rest) = if is_redundant x y then trim (y ∷ rest) else x ∷ y ∷ rest

-- An `i64` is given by its bits, a number below 2 ^ 64.
unfoldable pub put_int : Bytes → ℕ → ℕ → Bytes
put_int out id bits = put out id (trim (to_be_bytes 8 bits))

-- `f64::from` of an `f32`, both by their bits: exact, with the exponent of the wider format; a number below the
-- normal ones has its highest bit made the hidden one, and a NaN is made quiet.
unfoldable pub widen : ℕ → ℕ
widen bits =
    let sign = bits / 2 ^ 31 * 2 ^ 63 in
    let exponent = bits / 2 ^ 23 % 2 ^ 8 in
    let mantissa = bits % 2 ^ 23 in
    let high = log_2 22 mantissa in
    if exponent == 255
    then sign + 2047 * 2 ^ 52 + (if mantissa == 0 then 0 else bit_or (mantissa * 2 ^ 29) (2 ^ 51))
    else if exponent == 0
    then if mantissa == 0
      then sign
      else sign + (high + 874) * 2 ^ 52 + (mantissa * 2 ^ (52 - high) - 2 ^ 52)
    else sign + (exponent + 896) * 2 ^ 52 + mantissa * 2 ^ 29

-- A float is given by its bits.
unfoldable pub float : Bytes → Result WebmError ℕ
float b =
    if length b == 0
    then ok 0
    else if length b == 4
    then ok (widen (be_bytes b))
    else if length b == 8
    then ok (be_bytes b)
    else err bad_float

unfoldable pub put_float : Bytes → ℕ → ℕ → Bytes
put_float out id bits = put out id (to_be_bytes 8 bits)
