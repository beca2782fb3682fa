-- ===== src/Psd/Metadata.antt =====
-- zenpsd/src/parser.rs: resolution, metadata and layout records, and the two conversions of the language
-- that the resources need: a 16.16 number as `f32`, and `String::from_utf8_lossy`.
use zenextras.Prelude.{
  ℕ, zero, suc, ◌+◌, ◌-◌, ◌*◌, ◌/◌, ◌%◌, ◌^◌, Bool, true, false, ◌&&◌, ◌||◌, not, Option, none,
}
use zenextras.Prelude.{List, [], ◌∷◌, ◌++◌, length, drop, take, ltb, leb, ◌==◌, if◌then◌else◌}
use zenextras.Prelude.Bits.{log_2}
use zenextras.Prelude.Bytes.{Bytes}
use zenextras.Psd.Types.{PsdHeader, Compression}

pub data ResolutionUnit : Type 0 where
  pixels_per_inch pixels_per_centimeter : ResolutionUnit

-- `h_res` and `v_res` are the 32 bits of the `f32`.
pub record ResolutionInfo : Type 0 where
  pub h_res : ℕ
  pub h_unit : ResolutionUnit
  pub v_res : ℕ
  pub v_unit : ResolutionUnit

-- A `String` is its bytes in UTF-8.
pub record PsdMetadata : Type 0 where
  pub icc_profile : Option Bytes
  pub exif : Option Bytes
  pub xmp : Option Bytes
  pub resolution : Option ResolutionInfo
  pub transparency_index : Option ℕ
  pub has_real_merged_data : Option Bool
  pub alpha_channel_names : List Bytes

abbrev pub default_metadata : PsdMetadata
default_metadata = record {
  icc_profile = none;
  exif = none;
  xmp = none;
  resolution = none;
  transparency_index = none;
  has_real_merged_data = none;
  alpha_channel_names = [];
}

pub record PsdInfo : Type 0 where
  pub header : PsdHeader
  pub compression : Compression
  pub metadata : PsdMetadata

-- A `Range<usize>`.
pub record Range : Type 0 where
  pub start : ℕ
  pub end : ℕ

pub record ParsedLayout : Type 0 where
  pub info : PsdInfo
  pub reserved_zero : Bool
  pub color_mode_len_range : Range
  pub color_mode_data_range : Range
  pub resources_len_range : Range
  pub resources_data_range : Range
  pub layer_mask_len_range : Range
  pub layer_mask_data_range : Range
  pub compression_range : Range
  pub image_data_payload_start : ℕ

-- `v / 2 ^ s`, to the nearest, ties to even.
abbrev pub round_shift : ℕ → ℕ → ℕ
round_shift v s =
    let q = v / 2 ^ s in
    let r = v % 2 ^ s in
    if ltb (2 ^ s) (2 * r) then q + 1 else if 2 * r == 2 ^ s then q + q % 2 else q

-- `(v as f64 / 65536.0) as f32` of a `u32`: the division is exact in an `f64`, so the bits are those of the
-- nearest `f32`. A mantissa that rounds up to `2 ^ 24` carries into the exponent.
unfoldable pub fixed_as_f32 : ℕ → ℕ
fixed_as_f32 v =
    let e = log_2 32 v in
    let m = if leb e 23 then v * 2 ^ (23 - e) else round_shift v (e - 23) in
    if v == 0 then 0 else (e + 111) * 2 ^ 23 + (m - 2 ^ 23)

-- One character in front, or the longest part of one: whether it is whole, and its bytes.
abbrev pub in_range : ℕ → ℕ → ℕ → Bool
in_range lo hi b = leb lo b && leb b hi

abbrev pub is_continuation : Bytes → ℕ → ℕ → Bool
is_continuation [] lo hi = false
is_continuation (b ∷ _) lo hi = in_range lo hi b

-- The range of the second byte behind a first.
abbrev pub second_range : ℕ → ℕ × ℕ
second_range b =
    if b == 0xE0
    then (0xA0, 0xBF)
    else if b == 0xED
    then (0x80, 0x9F)
    else if b == 0xF0
    then (0x90, 0xBF)
    else if b == 0xF4
    then (0x80, 0x8F)
    else (0x80, 0xBF)

abbrev pub char_at : ℕ → Bytes → Bool × ℕ
char_at b rest =
    let (lo, hi) = second_range b in
    if ltb b 0x80
    then (true, 1)
    else if ltb b 0xC2 || ltb 0xF4 b
    then (false, 1)
    else if not (is_continuation rest lo hi)
    then (false, 1)
    else if ltb b 0xE0
    then (true, 2)
    else if not (is_continuation (drop 1 rest) 0x80 0xBF)
    then (false, 2)
    else if ltb b 0xF0
    then (true, 3)
    else if not (is_continuation (drop 2 rest) 0x80 0xBF)
    then (false, 3)
    else (true, 4)

-- `String::from_utf8_lossy`: each part of no character is U+FFFD.
unfoldable pub lossy_from : ℕ → Bytes → Bytes
lossy_from fuel [] = []
lossy_from zero (b ∷ bs) = []
lossy_from (suc fuel) (b ∷ bs) =
    let (whole, n) = char_at b bs in
    (if whole then take n (b ∷ bs) else 0xEF ∷ 0xBF ∷ 0xBD ∷ [])
    ++ lossy_from fuel (drop n (b ∷ bs))

unfoldable pub from_utf8_lossy : Bytes → Bytes
from_utf8_lossy bs = lossy_from (length bs) bs
