-- ===== src/Psd/Interleave.antt =====
-- zenpsd/src/parser.rs, `interleave_planes`: planes of samples to pixels. The host is little endian, so `to_ne_bytes`
-- turns a sample's bytes round; a 32-bit sample keeps its bits through the `f32`. Every place that is read lies in
-- its plane, whose length the caller has fixed; past the end the model reads 0. `make` is `PixelBuffer::from_vec`.
pub mod Size
use zenextras.Prelude.{
  ℕ, zero, suc, ◌+◌, ◌-◌, ◌*◌, ◌/◌, ◌%◌, ◌^◌, Bool, true, false, Option, none, some,
}
use zenextras.Prelude.{[], ◌∷◌, ◌++◌, take, get_or, ltb, ◌==◌, if◌then◌else◌}
use zenextras.Prelude.{Result, ok, err, ◌>>=◌, ◌>>◌, ok_or}
use zenextras.Prelude.Bytes.{Bytes, slice, be_bytes, to_le_bytes}
use zenextras.Psd.Types.{
  PsdError, malformed, unsupported_color_mode, checked_mul, PsdHeader, mode_code,
}
use zenextras.Psd.Types.{BitDepth, one, eight, sixteen, thirty_two, ColorMode}
use zenextras.Psd.Types.{bitmap, grayscale, indexed, rgb, cmyk, multichannel, duotone, lab}
use zenextras.Psd.Metadata.{PsdMetadata}
use zenextras.Psd.Output.{PixelDescriptor, bytes_per_pixel, has_alpha, output_descriptor}
use zenextras.Psd.Alloc.{AllocPref, alloc_zeroed}

-- `for i in i..i + n`: each pixel's bytes go behind those of the pixel before.
unfoldable pub pixels : (ℕ → Bytes) → ℕ → ℕ → Bytes
pixels pixel i zero = []
pixels pixel i (suc n) = pixel i ++ pixels pixel (i + 1) n

-- A sample of one, two or four bytes, in the order of the host.
abbrev pub sample_8 : Bytes → ℕ → Bytes
sample_8 plane i = get_or plane i 0 ∷ []

abbrev pub be_16 : Bytes → ℕ → ℕ
be_16 plane i = be_bytes (get_or plane (i * 2) 0 ∷ get_or plane (i * 2 + 1) 0 ∷ [])

abbrev pub sample_16 : Bytes → ℕ → Bytes
sample_16 plane i = to_le_bytes 2 (be_16 plane i)

abbrev pub sample_32 : Bytes → ℕ → Bytes
sample_32 plane i = to_le_bytes 4 (
    be_bytes (
      get_or plane (i * 4) 0
      ∷ get_or plane (i * 4 + 1) 0
      ∷ get_or plane (i * 4 + 2) 0
      ∷ get_or plane (i * 4 + 3) 0
      ∷ []))

-- `&planes[plane_bytes * k..plane_bytes * (k + 1)]`
abbrev pub plane : ℕ → ℕ → Bytes → Bytes
plane plane_bytes k planes = slice (plane_bytes * k) (plane_bytes * (k + 1)) planes

-- The bits of a row, the high one first: 0 is white.
unfoldable pub bit_row : Bytes → ℕ → Bytes
bit_row row x = (if row_bit row x == 0 then 255 else 0) ∷ []
  where
    row_bit : Bytes → ℕ → ℕ
    row_bit row x = get_or row (x / 8) 0 / 2 ^ (7 - x % 8) % 2

unfoldable pub bitmap_rows : Bytes → ℕ → ℕ → ℕ → ℕ → Bytes
bitmap_rows planes row_bytes w y zero = []
bitmap_rows planes row_bytes w y (suc h) =
    pixels (bit_row (slice (y * row_bytes) ((y + 1) * row_bytes) planes)) 0 w
    ++ bitmap_rows planes row_bytes w (y + 1) h

-- Ink times black, rounded: 0 is full ink.
unfoldable pub ink_8 : ℕ → ℕ → ℕ
ink_8 c k = (c * k + 127) / 255

unfoldable pub ink_16 : ℕ → ℕ → ℕ
ink_16 c k = (c * k + 32767) / 65535

unfoldable pub cmyk_8 : (ℕ → Bytes) → ℕ → Bytes
cmyk_8 ch i =
    let k = get_or (ch 3) i 0 in
    ink_8 (get_or (ch 0) i 0) k ∷ ink_8 (get_or (ch 1) i 0) k ∷ ink_8 (get_or (ch 2) i 0) k ∷ []

unfoldable pub cmyk_16 : (ℕ → Bytes) → ℕ → Bytes
cmyk_16 ch i =
    let k = be_16 (ch 3) i in
    to_le_bytes 2 (ink_16 (be_16 (ch 0) i) k)
    ++ (to_le_bytes 2 (ink_16 (be_16 (ch 1) i) k) ++ to_le_bytes 2 (ink_16 (be_16 (ch 2) i) k))

-- An index looked up in the three parts of the colour table, with alpha where a transparent index is given.
abbrev pub palette_rgb : Bytes → ℕ → Bytes
palette_rgb pal k = get_or pal k 0 ∷ get_or pal (256 + k) 0 ∷ get_or pal (512 + k) 0 ∷ []

unfoldable pub palette_pixel : Bytes → Option ℕ → Bytes → ℕ → Bytes
palette_pixel pal none planes i = palette_rgb pal (get_or planes i 0)
palette_pixel pal (some ti) planes i =
    let k = get_or planes i 0 in palette_rgb pal k ++ ((if k == ti then 0 else 255) ∷ [])

-- `o.filter(|&i| i < 256)`
abbrev pub palette_index : Option ℕ → Option ℕ
palette_index none = none
palette_index (some i) = if ltb i 256 then some i else none

-- One pixel of gray, by depth and alpha.
unfoldable pub gray_pixel : (ℕ → Bytes) → BitDepth → Bool → Option (ℕ → Bytes)
gray_pixel ch eight false = some (sample_8 (ch 0))
gray_pixel ch eight true = some (λ i. sample_8 (ch 0) i ++ sample_8 (ch 1) i)
gray_pixel ch sixteen false = some (sample_16 (ch 0))
gray_pixel ch sixteen true = some (λ i. sample_16 (ch 0) i ++ sample_16 (ch 1) i)
gray_pixel ch thirty_two false = some (sample_32 (ch 0))
gray_pixel ch thirty_two true =
    some (λ i.
      sample_32 (ch 0) i ++ (sample_32 (ch 0) i ++ (sample_32 (ch 0) i ++ sample_32 (ch 1) i)))
gray_pixel ch one _ = none

abbrev pub three : (Bytes → ℕ → Bytes) → (ℕ → Bytes) → ℕ → Bytes
three sample ch i = sample (ch 0) i ++ (sample (ch 1) i ++ sample (ch 2) i)

abbrev pub four : (Bytes → ℕ → Bytes) → (ℕ → Bytes) → ℕ → Bytes
four sample ch i = sample (ch 0) i ++ (sample (ch 1) i ++ (sample (ch 2) i ++ sample (ch 3) i))

unfoldable pub rgb_pixel : (ℕ → Bytes) → BitDepth → Bool → Option (ℕ → Bytes)
rgb_pixel ch eight false = some (three sample_8 ch)
rgb_pixel ch eight true = some (four sample_8 ch)
rgb_pixel ch sixteen false = some (three sample_16 ch)
rgb_pixel ch sixteen true = some (four sample_16 ch)
rgb_pixel ch thirty_two false = some (three sample_32 ch)
rgb_pixel ch thirty_two true = some (four sample_32 ch)
rgb_pixel ch one _ = none

unfoldable pub cmyk_pixel : (ℕ → Bytes) → BitDepth → Bool → Option (ℕ → Bytes)
cmyk_pixel ch eight false = some (cmyk_8 ch)
cmyk_pixel ch eight true = some (λ i. cmyk_8 ch i ++ sample_8 (ch 4) i)
cmyk_pixel ch sixteen false = some (cmyk_16 ch)
cmyk_pixel ch sixteen true = some (λ i. cmyk_16 ch i ++ sample_16 (ch 4) i)
cmyk_pixel ch one _ = none
cmyk_pixel ch thirty_two _ = none

unfoldable pub unsupported : ColorMode → Result PsdError Bytes
unsupported mode = err (unsupported_color_mode (mode_code mode))

unfoldable pub all_pixels : ColorMode → ℕ → Option (ℕ → Bytes) → Result PsdError Bytes
all_pixels mode num_pixels none = unsupported mode
all_pixels mode num_pixels (some pixel) = ok (pixels pixel 0 num_pixels)

unfoldable pub indexed_pixels : Bytes → PsdMetadata → Option Bytes → ℕ → Result PsdError Bytes
indexed_pixels planes metadata palette num_pixels = do
  pal ← ok_or palette (malformed "missing indexed palette")
  ok (pixels (palette_pixel pal (palette_index metadata.transparency_index) planes) 0 num_pixels)

module _ (planes : Bytes) (metadata : PsdMetadata) (palette : Option Bytes)
    (row_bytes plane_bytes w h : ℕ) where
  -- The `match` on mode, depth and alpha: the bytes of `out`, or the mode's number in the error.
  unfoldable pub interleave : ColorMode → BitDepth → Bool → Result PsdError Bytes
  interleave bitmap one alpha = ok (bitmap_rows planes row_bytes w 0 h)
  interleave bitmap _ alpha = unsupported bitmap
  interleave grayscale depth alpha =
      all_pixels grayscale (w * h) (gray_pixel (λ k. plane plane_bytes k planes) depth alpha)
  interleave duotone depth alpha =
      all_pixels duotone (w * h) (gray_pixel (λ k. plane plane_bytes k planes) depth alpha)
  interleave indexed eight alpha = indexed_pixels planes metadata palette (w * h)
  interleave indexed _ alpha = unsupported indexed
  interleave rgb depth alpha =
      all_pixels rgb (w * h) (rgb_pixel (λ k. plane plane_bytes k planes) depth alpha)
  interleave cmyk depth alpha =
      all_pixels cmyk (w * h) (cmyk_pixel (λ k. plane plane_bytes k planes) depth alpha)
  interleave multichannel depth alpha = unsupported multichannel
  interleave lab depth alpha = unsupported lab

-- Every arm that makes an output allocates it first, zeroed, and then writes all of it; the palette of the indexed
-- arm is looked at before.
unfoldable pub interleave_planes {ℓ} :
    {B : Type ℓ}
    → (Bytes → ℕ → ℕ → PixelDescriptor → Result PsdError B)
    → (ℕ → Bool)
    → Bytes
    → PsdHeader
    → PsdMetadata
    → Option Bytes
    → ℕ
    → ℕ
    → AllocPref
    → Result PsdError B
interleave_planes make reserve planes h metadata palette row_bytes plane_bytes alloc_pref = do
  num_pixels ← ok_or (checked_mul h.width h.height) (malformed "pixel count overflow")
  let descriptor = output_descriptor h metadata
  out_bytes ←
      ok_or (checked_mul num_pixels (bytes_per_pixel descriptor))
        (malformed "output buffer size overflow")
  out ←
      interleave planes metadata palette row_bytes plane_bytes h.width h.height h.color_mode h.depth
        (has_alpha h metadata)
  zeroed ← alloc_zeroed reserve alloc_pref true out_bytes
  make out h.width h.height descriptor
