-- ===== src/Psd/Tests.antt =====
-- Examples for zenpsd/src/parser.rs: a document of two by one gray pixels, scanlines, resources and pixels.
mod Images
use zenextras.Prelude.{
  ℕ, zero, ◌+◌, ◌*◌, ◌^◌, ◌<◌, ◌≤◌, Bool, true, false, List, [], ◌∷◌, ◌++◌, length, ok, some, none,
}
use zenextras.Prelude.{◌≡◌, refl, arith, Result}
use zenextras.Prelude.Bytes.{Bytes}
use zenextras.Psd.Types.{PsdHeader, psd, eight, sixteen, grayscale, rgb, raw, rle, scanline_bytes}
use zenextras.Psd.Header.{parse_file_header}
use zenextras.Psd.Header.Valid.{IsValid}
use zenextras.Psd.Header.Read.{
  reserved, file_header, zeros, HeaderAt, parse_file_header-file_header,
}
use zenextras.Psd.Header.Read.{parse_file_header_sound}
use zenextras.Psd.PackBits.{decode_packbits_row}
use zenextras.Psd.PackBits.Packets.{Packet, literal, run, filler, packed, expanded}
use zenextras.Psd.PackBits.Decode.{IsRow, decode_packbits_row-packed, decode_packbits_row_sound}
use zenextras.Psd.Prediction.{apply_zip_prediction}
use zenextras.Psd.Prediction.Predict.{predict_rows, plane_of}
use zenextras.Psd.Prediction.RoundTrip.{apply_zip_prediction-predict_rows}

abbrev pub gray_header : PsdHeader
gray_header = record {
  version = psd;
  channels = 1;
  height = 1;
  width = 2;
  depth = eight;
  color_mode = grayscale;
}

abbrev pub gray_header-IsValid : IsValid gray_header
gray_header-IsValid = record {
  some_channels = omega arith;
  few_channels = omega arith;
  wide = omega arith;
  high = omega arith;
  width_fits = omega arith;
  height_fits = omega arith;
  decodable = refl;
  enough_channels = omega arith;
}

parse_file_header-file_header_example :
    parse_file_header (file_header gray_header (reserved 0 0 0 0 0 9) ++ (1 ∷ []))
    ≡ ok (gray_header, zeros (reserved 0 0 0 0 0 9))
parse_file_header-file_header_example =
    parse_file_header-file_header gray_header 0 0 0 0 0 9 (1 ∷ []) gray_header-IsValid

parse_file_header_sound_example :
    HeaderAt (file_header gray_header (reserved 0 0 0 0 0 9) ++ (1 ∷ [])) gray_header false
parse_file_header_sound_example =
    parse_file_header_sound (file_header gray_header (reserved 0 0 0 0 0 9) ++ (1 ∷ [])) gray_header
      false (ground arith) parse_file_header-file_header_example

abbrev packets : List Packet
packets = literal (1 ∷ 2 ∷ []) ∷ filler ∷ run 3 9 ∷ []

decode_packbits_row-packed_example :
    decode_packbits_row (packed packets ++ (128 ∷ [])) 5 ≡ ok (expanded packets)
decode_packbits_row-packed_example =
    decode_packbits_row-packed packets (128 ∷ []) 5
      ((omega arith, omega arith), (tt, ((omega arith, omega arith), tt))) refl

decode_packbits_row_sound_example : IsRow (packed packets ++ (128 ∷ [])) 5 [] (expanded packets)
decode_packbits_row_sound_example =
    decode_packbits_row_sound (packed packets ++ (128 ∷ [])) 5 (expanded packets) (ground arith)
      decode_packbits_row-packed_example

-- Two scanlines of two 16-bit samples.
abbrev rows : List Bytes
rows = (1 ∷ 200 ∷ 1 ∷ 100 ∷ []) ∷ (0 ∷ 0 ∷ 255 ∷ 255 ∷ []) ∷ []

two_samples : scanline_bytes sixteen 2 ≡ some 4
unfolding scanline_bytes
two_samples = refl

apply_zip_prediction-predict_rows_example :
    apply_zip_prediction (predict_rows sixteen rows) 2 (length rows) 4 sixteen ≡ plane_of rows
apply_zip_prediction-predict_rows_example =
    apply_zip_prediction-predict_rows sixteen 2 4 rows two_samples
      ((refl, ground arith), ((refl, ground arith), tt))
