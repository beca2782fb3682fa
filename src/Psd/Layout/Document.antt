-- ===== src/Psd/Layout/Document.antt =====
-- A document written section by section, and what `parse_layout` reads of it.
use zenextras.Prelude.{ℕ, ◌+◌, ◌^◌, ◌<◌, length, ◌++◌, some}
use zenextras.Prelude.{◌≡◌, refl, arith, ok}
use zenextras.Prelude.Bytes.{Bytes, to_be_bytes, length-to_be_bytes}
use zenextras.Psd.Types.{malformed, Version, psd, psb, PsdHeader, Compression, raw, rle, zip}
use zenextras.Psd.Types.{zip_prediction, compression_from_u16}
use zenextras.Psd.Header.Valid.{IsValid}
use zenextras.Psd.Header.Read.{reserved, file_header, zeros, parse_file_header-file_header}
use zenextras.Psd.Metadata.{PsdMetadata, ParsedLayout, PsdInfo}
use zenextras.Psd.Resources.{parse_image_resources}
use zenextras.Psd.Layout.{check_color_mode, layer_len_bytes, read_layer_len, parse_layout, layout}
use zenextras.Psd.Layout.{color_mode_section, resources_section, layer_section, image_compression}
use zenextras.Psd.At.{At, At-start, At-step, slice-At, read_be-At, section_end-At}

abbrev pub compression_code : Compression → ℕ
compression_code raw = 0
compression_code rle = 1
compression_code zip = 2
compression_code zip_prediction = 3

-- The parts of a document.
pub record Parts : Type 0 where
  pub header : PsdHeader
  pub color : Bytes
  pub resources : Bytes
  pub layers : Bytes
  pub compression : Compression
  pub payload : Bytes

-- A section's length in `n` bytes, its data, and what follows.
abbrev pub section : ℕ → Bytes → Bytes → Bytes
section n body rest = to_be_bytes n (length body) ++ (body ++ rest)

abbrev pub sections : Parts → Bytes
sections p = section 4 p.color (
    section 4 p.resources (
      section (layer_len_bytes p.header.version) p.layers
        (to_be_bytes 2 (compression_code p.compression) ++ p.payload)))

abbrev pub document : Parts → Bytes → Bytes
document p spare = file_header p.header spare ++ sections p

abbrev pub color_end : Parts → ℕ
color_end p = 30 + length p.color

abbrev pub resources_end : Parts → ℕ
resources_end p = color_end p + 4 + length p.resources

abbrev pub layer_start : Parts → ℕ
layer_start p = resources_end p + layer_len_bytes p.header.version

abbrev pub layer_end : Parts → ℕ
layer_end p = layer_start p + length p.layers

abbrev pub layout_of : Parts → Bytes → PsdMetadata → ParsedLayout
layout_of p spare meta =
    let info : PsdInfo = record {
      header = p.header;
      compression = p.compression;
      metadata = meta;
    } in
    layout info (zeros spare) (color_end p) (resources_end p) (layer_end p)

-- What the format asks of the parts: a valid header, colour data of the length that the mode wants, and lengths
-- that their fields can hold.
pub record IsDocument (p : Parts) (meta : PsdMetadata) : Type 0 where
  pub valid : IsValid p.header
  pub colored : check_color_mode p.header.color_mode (length p.color) ≡ ok tt
  pub color_fits : length p.color < 256 ^ 4
  pub resources_fit : length p.resources < 256 ^ 4
  pub understood : parse_image_resources p.resources ≡ ok meta
  pub layers_fit : length p.layers < 256 ^ layer_len_bytes p.header.version

length-file_header :
    (h : PsdHeader) (r0 r1 r2 r3 r4 r5 : ℕ)
    → length (file_header h (reserved r0 r1 r2 r3 r4 r5)) ≡ 26
length-file_header h r0 r1 r2 r3 r4 r5 = refl

compression_from_u16-code : (c : Compression) → compression_from_u16 (compression_code c) ≡ some c
unfolding compression_from_u16
compression_from_u16-code raw = refl
compression_from_u16-code rle = refl
compression_from_u16-code zip = refl
compression_from_u16-code zip_prediction = refl

compression_code_lt : (c : Compression) → compression_code c < 256 ^ 2
compression_code_lt c = ground arith

read_layer_len-At :
    (v : Version) (n : ℕ) (xs zs : Bytes) (start : ℕ)
    → At xs start (to_be_bytes (layer_len_bytes v) n ++ zs)
    → n < 256 ^ layer_len_bytes v
    → read_layer_len v xs start ≡ ok n
unfolding read_layer_len
read_layer_len-At psd n xs zs start a h = rw (read_be-At 4 n xs zs start a h)
read_layer_len-At psb n xs zs start a h = rw (read_be-At 8 n xs zs start a h)

-- A length field that is stepped over.
over_field :
    (n v start : ℕ) (xs zs : Bytes) → At xs start (to_be_bytes n v ++ zs) → At xs (start + n) zs
over_field n v start xs zs a =
    At-step xs (to_be_bytes n v) zs start (start + n) a (omega (arith, length-to_be_bytes n v))

-- A document whose parts are as the format asks, of a size below 2^64, is laid out as it was written: every
-- section at its place, the metadata of its resources, and the compression method.
pub parse_layout-document :
    (p : Parts) (meta : PsdMetadata) (r0 r1 r2 r3 r4 r5 : ℕ)
    → IsDocument p meta
    → length (document p (reserved r0 r1 r2 r3 r4 r5)) < 2 ^ 64
    → parse_layout (document p (reserved r0 r1 r2 r3 r4 r5))
      ≡ ok (layout_of p (reserved r0 r1 r2 r3 r4 r5) meta)
unfolding parse_layout color_mode_section resources_section layer_section image_compression
parse_layout-document p meta r0 r1 r2 r3 r4 r5 is small =
    let xs = document p (reserved r0 r1 r2 r3 r4 r5) in
    let at_color_len : At xs 26 (sections p) =
      At-step xs (file_header p.header (reserved r0 r1 r2 r3 r4 r5)) (sections p) 0 26 (At-start xs)
        (length-file_header p.header r0 r1 r2 r3 r4 r5) in
    let at_color = over_field 4 (length p.color) 26 xs _ at_color_len in
    let at_res_len = At-step xs p.color _ 30 (color_end p) at_color refl in
    let at_res = over_field 4 (length p.resources) (color_end p) xs _ at_res_len in
    let at_layer_len = At-step xs p.resources _ (color_end p + 4) (resources_end p) at_res refl in
    let at_layer =
      over_field (layer_len_bytes p.header.version) (length p.layers) (resources_end p) xs _
        at_layer_len in
    let at_comp = At-step xs p.layers _ (layer_start p) (layer_end p) at_layer refl in
    rw
      (
        parse_file_header-file_header p.header r0 r1 r2 r3 r4 r5 (sections p) is.valid,
        read_be-At 4 (length p.color) xs _ 26 at_color_len is.color_fits,
        section_end-At xs p.color _ 30 (color_end p)
            (malformed "color mode section length overflow") small at_color refl,
        is.colored,
        read_be-At 4 (length p.resources) xs _ (color_end p) at_res_len is.resources_fit,
        section_end-At xs p.resources _ (color_end p + 4) (resources_end p)
            (malformed "image resources length overflow") small at_res refl,
        slice-At xs p.resources _ (color_end p + 4) (resources_end p) at_res refl,
        is.understood,
        read_layer_len-At p.header.version (length p.layers) xs _ (resources_end p) at_layer_len
            is.layers_fit,
        section_end-At xs p.layers _ (layer_start p) (layer_end p)
            (malformed "layer section length overflow") small at_layer refl,
        read_be-At 2 (compression_code p.compression) xs _ (layer_end p) at_comp
            (compression_code_lt p.compression),
        compression_from_u16-code p.compression,
      )
      refl
