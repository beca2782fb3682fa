-- ===== src/Psd/Types.antt =====
-- zenpsd/src/parser.rs and error.rs: versions, depths, colour modes, compressions, the file header and
-- the errors. An enum's numeric values are in `code`, `bits` and `mode_code`.
use zenextras.Prelude.{ℕ, ◌+◌, ◌*◌, ◌/◌, ◌^◌, Bool, true, false, ◌&&◌, Option, none, some}
use zenextras.Prelude.{ltb, ◌==◌, if◌then◌else◌, unwrap_or}
use Prim.Native.String.{String}

-- Failures carry what the source's variants carry; the reason of a stop is not kept.
pub data PsdError : Type 0 where
  invalid_signature unexpected_eof missing_merged_data stopped : PsdError
  unsupported_version unsupported_bit_depth : ℕ → PsdError
  unsupported_color_mode unsupported_compression : ℕ → PsdError
  invalid_dimensions : ℕ → ℕ → ℕ → PsdError
  malformed : String → PsdError
  pixel_buffer : String → PsdError
  -- The number of bytes that the message names.
  out_of_memory : ℕ → PsdError

pub data Version : Type 0 where
  psd psb : Version

unfoldable pub version_from_u16 : ℕ → Option Version
version_from_u16 v = if v == 1 then some psd else if v == 2 then some psb else none

abbrev pub code : Version → ℕ
code psd = 1
code psb = 2

abbrev pub max_psd_dimension : ℕ
max_psd_dimension = 30000

abbrev pub max_psb_dimension : ℕ
max_psb_dimension = 300000

abbrev pub max_channels : ℕ
max_channels = 56

abbrev pub max_dimension : Version → ℕ
max_dimension psd = max_psd_dimension
max_dimension psb = max_psb_dimension

pub data BitDepth : Type 0 where
  one eight sixteen thirty_two : BitDepth

unfoldable pub depth_from_u16 : ℕ → Option BitDepth
depth_from_u16 v =
    if v == 1
    then some one
    else if v == 8
    then some eight
    else if v == 16
    then some sixteen
    else if v == 32
    then some thirty_two
    else none

abbrev pub bits : BitDepth → ℕ
bits one = 1
bits eight = 8
bits sixteen = 16
bits thirty_two = 32

-- `usize` has 64 bits.
abbrev pub checked_add : ℕ → ℕ → Option ℕ
checked_add a b = if ltb (a + b) (2 ^ 64) then some (a + b) else none

abbrev pub checked_mul : ℕ → ℕ → Option ℕ
checked_mul a b = if ltb (a * b) (2 ^ 64) then some (a * b) else none

unfoldable pub scanline_bytes : BitDepth → ℕ → Option ℕ
scanline_bytes one w = elim (checked_add w 7) [ none ↦ none | some n ↦ some (n / 8) ]
scanline_bytes eight w = some w
scanline_bytes sixteen w = checked_mul w 2
scanline_bytes thirty_two w = checked_mul w 4

pub data ColorMode : Type 0 where
  bitmap grayscale indexed rgb cmyk multichannel duotone lab : ColorMode

unfoldable pub mode_from_u16 : ℕ → Option ColorMode
mode_from_u16 v =
    if v == 0
    then some bitmap
    else if v == 1
    then some grayscale
    else if v == 2
    then some indexed
    else if v == 3
    then some rgb
    else if v == 4
    then some cmyk
    else if v == 7
    then some multichannel
    else if v == 8
    then some duotone
    else if v == 9
    then some lab
    else none

abbrev pub mode_code : ColorMode → ℕ
mode_code bitmap = 0
mode_code grayscale = 1
mode_code indexed = 2
mode_code rgb = 3
mode_code cmyk = 4
mode_code multichannel = 7
mode_code duotone = 8
mode_code lab = 9

abbrev pub base_channels : ColorMode → Option ℕ
base_channels bitmap = some 1
base_channels grayscale = some 1
base_channels indexed = some 1
base_channels duotone = some 1
base_channels rgb = some 3
base_channels cmyk = some 4
base_channels multichannel = none
base_channels lab = none

abbrev pub supports_depth : ColorMode → BitDepth → Bool
supports_depth bitmap one = true
supports_depth bitmap _ = false
supports_depth grayscale one = false
supports_depth grayscale _ = true
supports_depth rgb one = false
supports_depth rgb _ = true
supports_depth indexed eight = true
supports_depth indexed _ = false
supports_depth duotone eight = true
supports_depth duotone _ = false
supports_depth cmyk eight = true
supports_depth cmyk sixteen = true
supports_depth cmyk _ = false
supports_depth multichannel _ = false
supports_depth lab _ = false

pub data Compression : Type 0 where
  raw rle zip zip_prediction : Compression

unfoldable pub compression_from_u16 : ℕ → Option Compression
compression_from_u16 v =
    if v == 0
    then some raw
    else if v == 1
    then some rle
    else if v == 2
    then some zip
    else if v == 3
    then some zip_prediction
    else none

pub record PsdHeader : Type 0 where
  pub version : Version
  pub channels : ℕ
  pub height : ℕ
  pub width : ℕ
  pub depth : BitDepth
  pub color_mode : ColorMode

-- Whether a colour mode may have one channel of alpha behind its own.
abbrev pub takes_alpha : ColorMode → Bool
takes_alpha grayscale = true
takes_alpha duotone = true
takes_alpha rgb = true
takes_alpha cmyk = true
takes_alpha _ = false

unfoldable pub used_channels : PsdHeader → ℕ
used_channels h =
    let base = unwrap_or (base_channels h.color_mode) h.channels in
    if takes_alpha h.color_mode && ltb base h.channels then base + 1 else base
