-- ===== src/Psd/Output.antt =====
-- zenpsd/src/parser.rs, `has_alpha` and `output_descriptor`. A descriptor is named by the constant of the pixel library
-- that the source names, and `bytes_per_pixel` is the size of such a pixel.
use zenextras.Prelude.{ℕ, Bool, true, false, Option, none, some, ltb, unwrap_or}
use zenextras.Psd.Types.{
  BitDepth, one, eight, sixteen, thirty_two, ColorMode, PsdHeader, used_channels,
}
use zenextras.Psd.Types.{
  bitmap, grayscale, indexed, rgb, cmyk, multichannel, duotone, lab, base_channels,
}
use zenextras.Psd.Metadata.{PsdMetadata}

pub data PixelDescriptor : Type 0 where
  gray8_srgb graya8_srgb gray16_srgb graya16_srgb grayf32_linear : PixelDescriptor
  rgb8_srgb rgba8_srgb rgb16_srgb rgba16_srgb rgbf32_linear rgbaf32_linear : PixelDescriptor

abbrev pub bytes_per_pixel : PixelDescriptor → ℕ
bytes_per_pixel gray8_srgb = 1
bytes_per_pixel graya8_srgb = 2
bytes_per_pixel gray16_srgb = 2
bytes_per_pixel graya16_srgb = 4
bytes_per_pixel grayf32_linear = 4
bytes_per_pixel rgb8_srgb = 3
bytes_per_pixel rgba8_srgb = 4
bytes_per_pixel rgb16_srgb = 6
bytes_per_pixel rgba16_srgb = 8
bytes_per_pixel rgbf32_linear = 12
bytes_per_pixel rgbaf32_linear = 16

-- `o.is_some_and(|i| i < 256)`
abbrev pub is_palette_index : Option ℕ → Bool
is_palette_index none = false
is_palette_index (some i) = ltb i 256

abbrev pub has_alpha_by : ColorMode → Bool → Bool → Bool
has_alpha_by indexed transparent extra = transparent
has_alpha_by grayscale transparent extra = extra
has_alpha_by duotone transparent extra = extra
has_alpha_by rgb transparent extra = extra
has_alpha_by cmyk transparent extra = extra
has_alpha_by _ transparent extra = false

unfoldable pub has_alpha : PsdHeader → PsdMetadata → Bool
has_alpha h metadata =
    has_alpha_by h.color_mode (is_palette_index metadata.transparency_index)
      (ltb (unwrap_or (base_channels h.color_mode) 0) (used_channels h))

abbrev pub gray_descriptor : BitDepth → Bool → PixelDescriptor
gray_descriptor eight false = gray8_srgb
gray_descriptor eight true = graya8_srgb
gray_descriptor sixteen false = gray16_srgb
gray_descriptor sixteen true = graya16_srgb
gray_descriptor thirty_two false = grayf32_linear
gray_descriptor thirty_two true = rgbaf32_linear
gray_descriptor one _ = rgba8_srgb

-- The `match` on mode, depth and alpha.
unfoldable pub descriptor_of : ColorMode → BitDepth → Bool → PixelDescriptor
descriptor_of bitmap _ _ = gray8_srgb
descriptor_of grayscale depth alpha = gray_descriptor depth alpha
descriptor_of duotone depth alpha = gray_descriptor depth alpha
descriptor_of indexed _ false = rgb8_srgb
descriptor_of indexed _ true = rgba8_srgb
descriptor_of rgb eight false = rgb8_srgb
descriptor_of rgb eight true = rgba8_srgb
descriptor_of rgb sixteen false = rgb16_srgb
descriptor_of rgb sixteen true = rgba16_srgb
descriptor_of rgb thirty_two false = rgbf32_linear
descriptor_of rgb thirty_two true = rgbaf32_linear
descriptor_of rgb one _ = rgba8_srgb
descriptor_of cmyk eight false = rgb8_srgb
descriptor_of cmyk eight true = rgba8_srgb
descriptor_of cmyk sixteen false = rgb16_srgb
descriptor_of cmyk sixteen true = rgba16_srgb
descriptor_of cmyk one _ = rgba8_srgb
descriptor_of cmyk thirty_two _ = rgba8_srgb
descriptor_of multichannel _ _ = rgba8_srgb
descriptor_of lab _ _ = rgba8_srgb

abbrev pub output_descriptor : PsdHeader → PsdMetadata → PixelDescriptor
output_descriptor h metadata = descriptor_of h.color_mode h.depth (has_alpha h metadata)
