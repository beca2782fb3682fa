-- ===== src/Psd/Layout.antt =====
-- zenpsd/src/parser.rs, `parse_layout`: the five sections of a document, one behind the other.
pub mod Bounds
pub mod Document
use zenextras.Prelude.{ℕ, ◌+◌, Bool, true, false, not, Option, none, some, length, ltb, ◌==◌}
use zenextras.Prelude.{if◌then◌else◌, Result, ok, err, ◌>>=◌, ◌>>◌, refuse, ok_or}
use zenextras.Prelude.Bytes.{Bytes, slice}
use zenextras.Psd.Types.{PsdError, unexpected_eof, malformed, unsupported_compression, checked_add}
use zenextras.Psd.Types.{Compression, Version, psd, psb, ColorMode, indexed, duotone, PsdHeader}
use zenextras.Psd.Types.{compression_from_u16}
use zenextras.Psd.Header.{read_u16_be, read_u32_be, read_u64_be, parse_file_header}
use zenextras.Psd.Metadata.{PsdMetadata, PsdInfo, Range, ParsedLayout}
use zenextras.Psd.Resources.{parse_image_resources}

abbrev pub range : ℕ → ℕ → Range
range start end = record { start = start; end = end }

-- The `match header.color_mode` on the length of the colour data.
abbrev pub check_color_mode : ColorMode → ℕ → Result PsdError (Unit {0})
check_color_mode indexed n =
    refuse (not (n == 768)) (malformed "indexed color mode requires a 768-byte color table")
check_color_mode duotone n =
    refuse (n == 0) (malformed "duotone color mode requires non-empty duotone data")
check_color_mode _ n =
    refuse (not (n == 0)) (malformed "non-empty color mode data for non-indexed/duotone mode")

-- The bytes of the layer section's length.
abbrev pub layer_len_bytes : Version → ℕ
layer_len_bytes psd = 4
layer_len_bytes psb = 8

-- `usize` has 64 bits, so `usize::try_from` of a `u64` does not fail.
unfoldable pub read_layer_len : Version → Bytes → ℕ → Result PsdError ℕ
read_layer_len psd xs start = ok_or (read_u32_be xs start) unexpected_eof
read_layer_len psb xs start = ok_or (read_u64_be xs start) unexpected_eof

-- A section of `len` bytes at `start`: its end, inside the document.
unfoldable pub section_end : Bytes → ℕ → ℕ → PsdError → Result PsdError ℕ
section_end xs start len overflow = do
  end ← ok_or (checked_add start len) overflow
  refuse (ltb (length xs) end) unexpected_eof
  ok end

-- The end of the colour data.
unfoldable pub color_mode_section : Bytes → ColorMode → Result PsdError ℕ
color_mode_section xs mode = do
  color_mode_len ← ok_or (read_u32_be xs 26) unexpected_eof
  color_mode_end ← section_end xs 30 color_mode_len (malformed "color mode section length overflow")
  check_color_mode mode color_mode_len
  ok color_mode_end

-- The end of the resources, and what they say.
unfoldable pub resources_section : Bytes → ℕ → Result PsdError (ℕ × PsdMetadata)
resources_section xs color_mode_end = do
  res_len ← ok_or (read_u32_be xs color_mode_end) unexpected_eof
  resources_end ←
      section_end xs (color_mode_end + 4) res_len (malformed "image resources length overflow")
  metadata ← parse_image_resources (slice (color_mode_end + 4) resources_end xs)
  ok (resources_end, metadata)

-- The end of the layer and mask data.
unfoldable pub layer_section : Bytes → Version → ℕ → Result PsdError ℕ
layer_section xs version resources_end = do
  layer_mask_len ← read_layer_len version xs resources_end
  section_end xs (resources_end + layer_len_bytes version) layer_mask_len
      (malformed "layer section length overflow")

unfoldable pub image_compression : Bytes → ℕ → Result PsdError Compression
image_compression xs layer_mask_end = do
  raw_comp ← ok_or (read_u16_be xs layer_mask_end) unexpected_eof
  ok_or (compression_from_u16 raw_comp) (unsupported_compression raw_comp)

abbrev pub layout : PsdInfo → Bool → ℕ → ℕ → ℕ → ParsedLayout
layout info reserved_zero color_mode_end resources_end layer_mask_end =
    let layer_mask_start = resources_end + layer_len_bytes info.header.version in
    record {
      info = info;
      reserved_zero = reserved_zero;
      color_mode_len_range = range 26 30;
      color_mode_data_range = range 30 color_mode_end;
      resources_len_range = range color_mode_end (color_mode_end + 4);
      resources_data_range = range (color_mode_end + 4) resources_end;
      layer_mask_len_range = range resources_end layer_mask_start;
      layer_mask_data_range = range layer_mask_start layer_mask_end;
      compression_range = range layer_mask_end (layer_mask_end + 2);
      image_data_payload_start = layer_mask_end + 2;
    }

unfoldable pub parse_layout : Bytes → Result PsdError ParsedLayout
parse_layout xs = do
  h ← parse_file_header xs
  color_mode_end ← color_mode_section xs h.0.color_mode
  r ← resources_section xs color_mode_end
  layer_mask_end ← layer_section xs h.0.version r.0
  compression ← image_compression xs layer_mask_end
  let info : PsdInfo = record { header = h.0; compression = compression; metadata = r.1 }
  ok (layout info h.1 color_mode_end r.0 layer_mask_end)

unfoldable pub probe : Bytes → Result PsdError PsdInfo
probe xs = parse_layout xs >>= λ l. ok l.info
