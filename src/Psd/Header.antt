-- ===== src/Psd/Header.antt =====
-- zenpsd/src/parser.rs, `parse_file_header`: the 26 bytes in front of a document.
pub mod Valid
pub mod Read
use zenextras.Prelude.{ℕ, ◌+◌, ◌<◌, Bool, true, false, not, ◌&&◌, ◌||◌, Option, none, some}
use zenextras.Prelude.{[], ◌∷◌, length, ltb, ◌==◌, if◌then◌else◌, unwrap_or}
use zenextras.Prelude.{Result, ok, err, ◌>>=◌, ◌>>◌, refuse, ok_or}
use zenextras.Prelude.Bytes.{Bytes, slice, get_range?, be_bytes}
use zenextras.Psd.Types.{PsdError, invalid_signature, unexpected_eof, invalid_dimensions}
use zenextras.Psd.Types.{unsupported_version, unsupported_bit_depth, unsupported_color_mode}
use zenextras.Psd.Types.{Version, BitDepth, ColorMode, multichannel, lab, PsdHeader, max_dimension}
use zenextras.Psd.Types.{
  version_from_u16, depth_from_u16, mode_from_u16, supports_depth, base_channels,
}
use zenextras.Psd.Types.{max_channels}

-- `u16::from_be_bytes` and its like on `data.get(at..at + n)`.
unfoldable pub read_be : ℕ → Bytes → ℕ → Option ℕ
read_be n xs start = elim (get_range? xs start (start + n)) [
  | none ↦ none
  | some b ↦ some (be_bytes b)
]

abbrev pub read_u16_be : Bytes → ℕ → Option ℕ
read_u16_be = read_be 2

abbrev pub read_u32_be : Bytes → ℕ → Option ℕ
read_u32_be = read_be 4

abbrev pub read_u64_be : Bytes → ℕ → Option ℕ
read_u64_be = read_be 8

abbrev pub signature : Bytes
signature = b'8' ∷ b'B' ∷ b'P' ∷ b'S' ∷ []

abbrev pub bytes_eq : Bytes → Bytes → Bool
bytes_eq [] [] = true
bytes_eq (x ∷ xs) (y ∷ ys) = x == y && bytes_eq xs ys
bytes_eq _ _ = false

-- `xs.iter().zip(ys).all(|(a, b)| a == b)`
abbrev pub agree : Bytes → Bytes → Bool
agree (x ∷ xs) (y ∷ ys) = x == y && agree xs ys
agree _ _ = true

-- `matches!(mode, Multichannel | Lab)`
abbrev pub is_unsupported : ColorMode → Bool
is_unsupported multichannel = true
is_unsupported lab = true
is_unsupported _ = false

abbrev check_depth : ColorMode → BitDepth → ℕ → ℕ → Result PsdError (Unit {0})
check_depth mode depth raw_depth raw_mode =
    if not (supports_depth mode depth)
    then if is_unsupported mode
      then err (unsupported_color_mode raw_mode)
      else err (unsupported_bit_depth raw_depth)
    else ok tt

-- The checks on the six numbers that were read, in the order in which they are made.
unfoldable pub check_fields : ℕ → ℕ → ℕ → ℕ → ℕ → ℕ → Result PsdError PsdHeader
check_fields raw_version channels height width raw_depth raw_mode = do
  version ← ok_or (version_from_u16 raw_version) (unsupported_version raw_version)
  refuse
      (channels == 0
        || ltb max_channels channels
        || width == 0
        || height == 0
        || ltb (max_dimension version) width
        || ltb (max_dimension version) height)
      (invalid_dimensions width height channels)
  depth ← ok_or (depth_from_u16 raw_depth) (unsupported_bit_depth raw_depth)
  mode ← ok_or (mode_from_u16 raw_mode) (unsupported_color_mode raw_mode)
  check_depth mode depth raw_depth raw_mode
  refuse (ltb channels (unwrap_or (base_channels mode) 1))
      (invalid_dimensions width height channels)
  ok (record {
    version = version;
    channels = channels;
    height = height;
    width = width;
    depth = depth;
    color_mode = mode;
  })

-- The version is checked before the other fields are read, and reading cannot fail on 26 bytes, so each
-- `unwrap` has a value.
unfoldable pub parse_file_header : Bytes → Result PsdError (PsdHeader × Bool)
parse_file_header xs =
    if ltb (length xs) 4
    then err (if agree xs signature then unexpected_eof else invalid_signature)
    else if not (bytes_eq (slice 0 4 xs) signature)
    then err invalid_signature
    else if ltb (length xs) 26
    then err unexpected_eof
    else do
      h ←
          check_fields (unwrap_or (read_u16_be xs 4) 0) (unwrap_or (read_u16_be xs 12) 0)
            (unwrap_or (read_u32_be xs 14) 0) (unwrap_or (read_u32_be xs 18) 0)
            (unwrap_or (read_u16_be xs 22) 0) (unwrap_or (read_u16_be xs 24) 0)
      ok (h, bytes_eq (slice 6 12 xs) (0 ∷ 0 ∷ 0 ∷ 0 ∷ 0 ∷ 0 ∷ []))
