-- ===== src/Psd/Tests/Images.antt =====
-- Examples for the sections, the resources and the pixels of zenpsd/src/parser.rs.
use zenextras.Prelude.{ℕ, ◌*◌, ◌<◌, ◌≤◌, Bool, true, false, not, ◌&&◌, none, some}
use zenextras.Prelude.{
  List, [], ◌∷◌, length, take, length-take, leb, ◌==◌, ok, ◌≡◌, refl, ap, ◌∙◌, arith, Result,
  &&-true,
}
use zenextras.Prelude.Bytes.{Bytes}
use zenextras.Psd.Types.{
  PsdError, PsdHeader, psd, eight, rgb, raw, zip, scanline_bytes, used_channels,
}
use zenextras.Psd.Header.Read.{reserved}
use zenextras.Psd.Metadata.{default_metadata, ParsedLayout}
use zenextras.Psd.Resources.{is_resource_signature, resource_loop, parse_image_resources}
use zenextras.Psd.Resources.Walk.{Block, blocks_bytes, take_blocks, resource_loop_enough}
use zenextras.Psd.Resources.Walk.{parse_image_resources-blocks_bytes}
use zenextras.Psd.Layout.{parse_layout}
use zenextras.Psd.Layout.Bounds.{IsContiguous, parse_layout-IsContiguous}
use zenextras.Psd.Layout.Document.{Parts, document, layout_of, parse_layout-document}
use zenextras.Psd.Alloc.{codec_default, alloc_zeroed, resolve_fallible}
use zenextras.Psd.Output.{
  PixelDescriptor, bytes_per_pixel, has_alpha, output_descriptor, descriptor_of,
}
use zenextras.Psd.Interleave.{
  pixels, gray_pixel, rgb_pixel, all_pixels, interleave, interleave_planes, ink_8, ink_16,
}
use zenextras.Psd.Interleave.Size.{interleave_size, ink_8_bounds, ink_16_bounds}
use zenextras.Psd.Merged.{
  Inflated, Inflater, Planes, zip_loop, decompress, decompress_zip_planes, raw_planes,
}
use zenextras.Psd.Merged.{palette_of, decode_merged_image}
use zenextras.Psd.Merged.Inflate.{IsInflater, zip_loop_enough}
use zenextras.Psd.Merged.Size.{decompress_taken, decode_merged_image_end}
use zenextras.Psd.Tests.{gray_header, gray_header-IsValid}

abbrev gray_parts : Parts
gray_parts = record {
  header = gray_header;
  color = [];
  resources = [];
  layers = 3 ∷ 4 ∷ [];
  compression = raw;
  payload = 10 ∷ 20 ∷ [];
}

no_resources : parse_image_resources [] ≡ ok default_metadata
unfolding parse_image_resources resource_loop
no_resources = refl

parse_layout-document_example :
    parse_layout (document gray_parts (reserved 0 0 0 0 0 0))
    ≡ ok (layout_of gray_parts (reserved 0 0 0 0 0 0) default_metadata)
parse_layout-document_example =
    parse_layout-document gray_parts default_metadata 0 0 0 0 0 0
      (record {
        valid = gray_header-IsValid;
        colored = refl;
        color_fits = omega arith;
        resources_fit = omega arith;
        understood = no_resources;
        layers_fit = omega arith;
      })
      (omega arith)

parse_layout-IsContiguous_example :
    IsContiguous
      (length (document gray_parts (reserved 0 0 0 0 0 0)))
      (layout_of gray_parts (reserved 0 0 0 0 0 0) default_metadata)
parse_layout-IsContiguous_example =
    parse_layout-IsContiguous (document gray_parts (reserved 0 0 0 0 0 0))
      (layout_of gray_parts (reserved 0 0 0 0 0 0) default_metadata) parse_layout-document_example

-- A transparent index behind a name of one letter.
abbrev blocks : List Block
blocks =
    record {
      sig = b'8' ∷ b'B' ∷ b'I' ∷ b'M' ∷ [];
      id = 0x0417;
      name = b'a' ∷ [];
      payload = 0 ∷ 3 ∷ [];
    }
    ∷ []

known_signature : is_resource_signature (b'8' ∷ b'B' ∷ b'I' ∷ b'M' ∷ []) ≡ true
unfolding is_resource_signature
known_signature = refl

parse_image_resources-blocks_bytes_example :
    parse_image_resources (blocks_bytes blocks) ≡ ok (take_blocks blocks default_metadata)
parse_image_resources-blocks_bytes_example =
    parse_image_resources-blocks_bytes blocks
      (
        record {
          known = known_signature;
          four = refl;
          id_fits = omega arith;
          name_fits = omega arith;
          payload_fits = omega arith;
        },
        tt,
      )
      (omega arith)

resource_loop_enough_example :
    resource_loop 14 (blocks_bytes blocks) 0 default_metadata
    ≡ resource_loop 500 (blocks_bytes blocks) 0 default_metadata
resource_loop_enough_example =
    resource_loop_enough 14 500 (blocks_bytes blocks) 0 default_metadata (omega arith) (omega arith)

abbrev color_header : PsdHeader
color_header = record {
  version = psd;
  channels = 3;
  height = 1;
  width = 2;
  depth = eight;
  color_mode = rgb;
}

two_pixels :
    interleave
      (1 ∷ 2 ∷ 3 ∷ 4 ∷ 5 ∷ 6 ∷ [])
      default_metadata
      none
      2
      2
      2
      1
      rgb
      eight
      (has_alpha color_header default_metadata)
    ≡ ok (1 ∷ 3 ∷ 5 ∷ 2 ∷ 4 ∷ 6 ∷ [])
unfolding interleave all_pixels rgb_pixel pixels has_alpha used_channels
two_pixels = refl

interleave_size_example :
    length {A = ℕ} (1 ∷ 3 ∷ 5 ∷ 2 ∷ 4 ∷ 6 ∷ [])
    ≡ 2 * 1 * bytes_per_pixel (output_descriptor color_header default_metadata)
interleave_size_example =
    interleave_size (1 ∷ 2 ∷ 3 ∷ 4 ∷ 5 ∷ 6 ∷ []) color_header default_metadata none 2 2 two_pixels

ink_8_bounds_example : (ink_8 200 100 ≤ 200) × (ink_8 200 100 ≤ 100) × (ink_8 200 255 ≡ 200)
ink_8_bounds_example = ink_8_bounds 200 100 (omega arith) (omega arith)

ink_16_bounds_example :
    (ink_16 60000 100 ≤ 60000) × (ink_16 60000 100 ≤ 100) × (ink_16 60000 65535 ≡ 60000)
ink_16_bounds_example = ink_16_bounds 60000 100 (omega arith) (omega arith)

-- An inflater of stored bytes: it copies, and its stream ends with its input.
abbrev copy : Unit {0} → Bytes → ℕ → Inflated (Unit {0})
copy s input room = record {
  state = s;
  consumed = length (take room input);
  produced = take room input;
  stream_end = not (length (take room input) == 0) && leb (length input) room;
}

abbrev stored : Inflater
stored = record {
  Z = Unit {0};
  fresh = tt;
  reset = λ s. s;
  decompress = λ s input room. some (copy s input room);
}

some_copy : {a b : Inflated (Unit {0})} → some a ≡ some b → a ≡ b
some_copy e = cc

ended_taken : (n : ℕ) (b : Bool) → (not (n == 0) && b) ≡ true → 0 < n
ended_taken n b e = ground (arith, (&&-true (not (n == 0)) b e).0)

fresh_copy :
    (s : Unit {0}) (input : Bytes) (room : ℕ) (r : Inflated (Unit {0}))
    → some (copy s input room) ≡ some r
    → r.stream_end ≡ true
    → 0 < r.consumed
fresh_copy s input room r e ended =
    let same = some_copy e in
    let here : (copy s input room).stream_end ≡ true =
      ap (λ (t : Inflated (Unit {0})). t.stream_end) same ∙ ended in
    rw (← same) (ended_taken (length (take room input)) (leb (length input) room) here)

abbrev stored-IsInflater : IsInflater stored
stored-IsInflater = record {
  takes = λ s input room r e. rw (← some_copy e) (omega (arith, length-take room input));
  makes = λ s input room r e. rw (← some_copy e) (omega (arith, length-take room input));
  new_is_fresh = λ input room r e ended. fresh_copy tt input room r e ended;
  reset_is_fresh = λ s input room r e ended. fresh_copy s input room r e ended;
}

abbrev never : ℕ → Bool
never n = false

abbrev granted : ℕ → Bool
granted n = true

zip_loop_enough_example :
    zip_loop stored never (5 ∷ 6 ∷ []) 2 2 2 9 tt 1 0 0 []
    ≡ zip_loop stored never (5 ∷ 6 ∷ []) 2 2 2 100 tt 1 0 0 []
zip_loop_enough_example =
    zip_loop_enough stored never (5 ∷ 6 ∷ []) 2 2 2 stored-IsInflater (omega arith) 9 100 0 tt 1 0 0
      [] (λ _. stored-IsInflater.new_is_fresh) (omega arith) (omega arith)

abbrev two_taken : Planes
two_taken = record { planes = 5 ∷ 6 ∷ []; consumed = 2; checks = 2 }

inflated :
    decompress stored granted never codec_default zip gray_header (5 ∷ 6 ∷ []) 2 2 2 1
    ≡ ok two_taken
unfolding decompress decompress_zip_planes zip_loop alloc_zeroed resolve_fallible used_channels
inflated = refl

one_channel : used_channels gray_header ≤ 1
unfolding used_channels
one_channel = omega arith

gray_scanline : scanline_bytes eight 2 ≡ some 2
unfolding scanline_bytes
gray_scanline = refl

two_used : 2 ≡ 2 * used_channels gray_header
unfolding used_channels
two_used = refl

decompress_taken_example : (two_taken.consumed ≤ 2) × (length two_taken.planes ≡ 2)
decompress_taken_example =
    decompress_taken stored granted never codec_default zip gray_header (5 ∷ 6 ∷ []) 2 2 2 1
      stored-IsInflater (ground arith) one_channel gray_scanline refl two_used two_taken inflated

abbrev keep : Bytes → ℕ → ℕ → PixelDescriptor → Result PsdError Bytes
keep b w h d = ok b

abbrev gray_layout : ParsedLayout
gray_layout = layout_of gray_parts (reserved 0 0 0 0 0 0) default_metadata

decoded :
    decode_merged_image stored granted never codec_default keep
      (document gray_parts (reserved 0 0 0 0 0 0))
      gray_layout
      1
    ≡ ok (10 ∷ 20 ∷ [], 44)
unfolding decode_merged_image decompress raw_planes alloc_zeroed resolve_fallible used_channels
    scanline_bytes interleave_planes interleave gray_pixel all_pixels pixels has_alpha descriptor_of
    palette_of
decoded = refl

decode_merged_image_end_example :
    (gray_layout.image_data_payload_start ≤ 44)
    × (44 ≤ length (document gray_parts (reserved 0 0 0 0 0 0)))
decode_merged_image_end_example =
    decode_merged_image_end stored granted never codec_default keep
      (document gray_parts (reserved 0 0 0 0 0 0)) gray_layout 1 stored-IsInflater (ground arith)
      gray_header-IsValid decoded
