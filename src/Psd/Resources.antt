-- ===== src/Psd/Resources.antt =====
-- zenpsd/src/parser.rs, `is_resource_signature` and `parse_image_resources`. A section is at most `2 ^ 32`
-- bytes, so sums of a position and a small constant do not overflow a `usize`.
pub mod Walk
use zenextras.Prelude.{
  ℕ, zero, suc, ◌+◌, ◌-◌, ◌*◌, ◌/◌, ◌^◌, min, Bool, true, false, not, ◌||◌, ◌&&◌, Option, none,
}
use zenextras.Prelude.{
  some, List, [], ◌∷◌, ◌++◌, length, take, drop, get_elem?, get_or, ltb, leb, ◌==◌,
}
use zenextras.Prelude.{if◌then◌else◌, unwrap_or, Result, ok, err, ◌>>=◌, ◌>>◌, refuse, ok_or}
use zenextras.Prelude.Bytes.{Bytes, slice}
use zenextras.Psd.Types.{PsdError, malformed, checked_add}
use zenextras.Psd.Header.{read_u16_be, read_u32_be, bytes_eq}
use zenextras.Psd.Metadata.{ResolutionUnit, pixels_per_inch, pixels_per_centimeter, ResolutionInfo}
use zenextras.Psd.Metadata.{PsdMetadata, default_metadata, fixed_as_f32, from_utf8_lossy}

unfoldable pub is_resource_signature : Bytes → Bool
is_resource_signature sig =
    bytes_eq sig (b'8' ∷ b'B' ∷ b'I' ∷ b'M' ∷ [])
    || bytes_eq sig (b'M' ∷ b'e' ∷ b'S' ∷ b'a' ∷ [])
    || bytes_eq sig (b'A' ∷ b'g' ∷ b'H' ∷ b'g' ∷ [])
    || bytes_eq sig (b'P' ∷ b'H' ∷ b'U' ∷ b'T' ∷ [])
    || bytes_eq sig (b'D' ∷ b'C' ∷ b'S' ∷ b'R' ∷ [])
    || bytes_eq sig (b'L' ∷ b'r' ∷ b'1' ∷ b'6' ∷ [])
    || bytes_eq sig (b'L' ∷ b'r' ∷ b'3' ∷ b'2' ∷ [])

-- `n & !1` of `n + 1`: the next even number.
abbrev pub even_up : ℕ → ℕ
even_up n = (n + 1) / 2 * 2

abbrev pub resolution_unit : ℕ → ResolutionUnit
resolution_unit raw = if raw == 2 then pixels_per_centimeter else pixels_per_inch

unfoldable pub resolution_info : Bytes → ResolutionInfo
resolution_info payload = record {
  h_res = fixed_as_f32 (unwrap_or (read_u32_be payload 0) 0);
  h_unit = resolution_unit (unwrap_or (read_u16_be payload 4) 0);
  v_res = fixed_as_f32 (unwrap_or (read_u32_be payload 8) 0);
  v_unit = resolution_unit (unwrap_or (read_u16_be payload 12) 0);
}

-- The loop over Pascal strings. Each takes a byte at least, so `length payload` rounds are enough.
unfoldable pub alpha_names : ℕ → Bytes → List Bytes
alpha_names fuel [] = []
alpha_names zero (n ∷ rest) = []
alpha_names (suc fuel) (n ∷ rest) =
    let names = alpha_names fuel (drop n rest) in
    if ltb (length rest) n then [] else from_utf8_lossy (take n rest) ∷ names

-- The `match id` on one payload.
unfoldable pub take_payload : ℕ → Bytes → PsdMetadata → PsdMetadata
take_payload id payload meta =
    if id == 0x03ED && leb 16 (length payload)
    then record meta { resolution = some (resolution_info payload) }
    else if id == 0x03EE
    then record meta {
      alpha_channel_names = meta.alpha_channel_names ++ alpha_names (length payload) payload;
    }
    else if id == 0x040F && not (length payload == 0)
    then record meta { icc_profile = some payload }
    else if id == 0x0417 && leb 2 (length payload)
    then record meta { transparency_index = read_u16_be payload 0 }
    else if id == 0x0421 && leb 5 (length payload)
    then if unwrap_or (read_u32_be payload 0) 0 == 1
      then record meta { has_real_merged_data = some (not (get_or payload 4 0 == 0)) }
      else meta
    else if id == 0x0422 && not (length payload == 0)
    then record meta { exif = some payload }
    else if id == 0x0423 && not (length payload == 0) && is_none meta.exif
    then record meta { exif = some payload }
    else if id == 0x0424 && not (length payload == 0)
    then record meta { xmp = some payload }
    else meta
  where
    is_none : Option Bytes → Bool
    is_none none = true
    is_none (some _) = false

-- One round: the block at `pos` is taken in, and the place of the next one.
unfoldable pub resource_block : Bytes → ℕ → PsdMetadata → Result PsdError (ℕ × PsdMetadata)
resource_block res_bytes start meta = do
  refuse (ltb (length res_bytes) (start + 4)) (malformed "truncated image resource block signature")
  refuse (not (is_resource_signature (slice start (start + 4) res_bytes)))
      (malformed "invalid image resource block signature")
  id ← ok_or (read_u16_be res_bytes (start + 4)) (malformed "truncated image resource ID")
  name_len ← ok_or (get_elem? res_bytes (start + 6)) (malformed "truncated image resource name")
  let len_offset = start + 6 + even_up (1 + name_len)
  data_len ←
      ok_or (read_u32_be res_bytes len_offset) (malformed "truncated image resource data length")
  let data_start = len_offset + 4
  data_end ←
      ok_or (checked_add data_start data_len) (malformed "image resource data length overflow")
  padded_end ←
      ok_or (checked_add data_start (even_up data_len))
        (malformed "image resource data padding overflow")
  refuse (ltb (length res_bytes) data_end) (malformed "image resource block exceeds section length")
  ok (min padded_end (length res_bytes), take_payload id (slice data_start data_end res_bytes) meta)

-- `while pos < res_bytes.len()`. A block is at least twelve bytes, so `length res_bytes` rounds are enough.
unfoldable pub resource_loop : ℕ → Bytes → ℕ → PsdMetadata → Result PsdError PsdMetadata
resource_loop zero res_bytes start meta = ok meta
resource_loop (suc fuel) res_bytes start meta =
    if not (ltb start (length res_bytes))
    then ok meta
    else resource_block res_bytes start meta >>= λ r. resource_loop fuel res_bytes r.0 r.1

unfoldable pub parse_image_resources : Bytes → Result PsdError PsdMetadata
parse_image_resources res_bytes = resource_loop (length res_bytes) res_bytes 0 default_metadata
