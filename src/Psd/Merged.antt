-- ===== src/Psd/Merged.antt =====
-- zenpsd/src/parser.rs, `decode_merged_image`, `decompress_zip_planes` and `decode_internal`. `stop n` is the answer of
-- the n-th `stop.check()`, and `n` is handed on; `reserve` is the allocator, `make` is `PixelBuffer::from_vec`, and
-- `z` the inflater of flate2.
pub mod Inflate
pub mod Lines
pub mod Size
use zenextras.Prelude.{
  ℕ, zero, suc, ◌+◌, ◌-◌, ◌*◌, ◌%◌, min, Bool, true, false, not, ◌&&◌, Option, none, some,
}
use zenextras.Prelude.{[], ◌++◌, length, take, drop, ltb, ◌==◌, if◌then◌else◌, unwrap_or}
use zenextras.Prelude.{Result, ok, err, ◌>>=◌, ◌>>◌, refuse, ok_or}
use zenextras.Prelude.Bytes.{Bytes, slice}
use zenextras.Psd.Types.{
  PsdError, malformed, unexpected_eof, stopped, missing_merged_data, checked_add,
}
use zenextras.Psd.Types.{checked_mul, Version, psd, psb, BitDepth, one, eight, sixteen, thirty_two}
use zenextras.Psd.Types.{
  Compression, raw, rle, zip, zip_prediction, PsdHeader, scanline_bytes, used_channels,
}
use zenextras.Psd.Types.{ColorMode, indexed}
use zenextras.Psd.Header.{read_u16_be, read_u32_be}
use zenextras.Psd.PackBits.{decode_packbits_row}
use zenextras.Psd.Prediction.{apply_zip_prediction}
use zenextras.Psd.Metadata.{PsdMetadata, PsdInfo, ParsedLayout}
use zenextras.Psd.Layout.{parse_layout}
use zenextras.Psd.Alloc.{AllocPref, alloc_zeroed}
use zenextras.Psd.Output.{PixelDescriptor}
use zenextras.Psd.Interleave.{interleave_planes}

-- What one call of `Decompress::decompress` does: how many bytes it took, what it wrote, and whether the stream ended.
pub record Inflated (Z : Type 0) : Type 0 where
  pub state : Z
  pub consumed : ℕ
  pub produced : Bytes
  pub stream_end : Bool

-- `Decompress::new(true)`, `reset(true)`, and `decompress` on an input and the room for the output.
pub record Inflater : Type 1 where
  pub Z : Type 0
  pub fresh : Z
  pub reset : Z → Z
  pub decompress : Z → Bytes → ℕ → Option (Inflated Z)

-- A buffer, the bytes of the payload that it took, and the number of the next check.
pub record Planes : Type 0 where
  pub planes : Bytes
  pub consumed : ℕ
  pub checks : ℕ

abbrev check_stop : (ℕ → Bool) → ℕ → Result PsdError ℕ
check_stop stop n = if stop n then err stopped else ok (n + 1)

module _ (reserve : ℕ → Bool) (alloc_pref : AllocPref) (payload : Bytes) where
  -- `Compression::Raw`
  unfoldable pub raw_planes : ℕ → ℕ → ℕ → ℕ → Result PsdError Planes
  raw_planes plane_bytes used_plane_bytes total_channels n = do
    total_raw ←
        ok_or (checked_mul plane_bytes total_channels) (malformed "raw image data size overflow")
    refuse (ltb (length payload) total_raw) unexpected_eof
    buf ← alloc_zeroed reserve alloc_pref true used_plane_bytes
    ok (record { planes = take used_plane_bytes payload; consumed = total_raw; checks = n })

-- The bytes of a count in the table of scanline lengths.
abbrev pub count_size : Version → ℕ
count_size psd = 2
count_size psb = 4

-- A scanline's length in the table, which lies in the payload.
unfoldable pub line_len : Version → Bytes → ℕ → ℕ
line_len psd payload line = unwrap_or (read_u16_be payload (line * 2)) 0
line_len psb payload line = unwrap_or (read_u32_be payload (line * 4)) 0

-- `for line in line..line + count`: the lengths added up.
unfoldable pub total_compressed : Version → Bytes → ℕ → ℕ → ℕ → Result PsdError ℕ
total_compressed version payload line zero total = ok total
total_compressed version payload line (suc count) total = do
  t ←
      ok_or (checked_add total (line_len version payload line))
        (malformed "RLE compressed length overflow")
  total_compressed version payload (line + 1) count t

-- The scanlines from `line` on, each from its own bytes; there is a check before every 64th.
unfoldable pub rle_lines :
    (ℕ → Bool) → Version → Bytes → ℕ → ℕ → ℕ → ℕ → ℕ → Result PsdError (Bytes × ℕ)
rle_lines stop version payload row_bytes line src_pos n zero = ok ([], n)
rle_lines stop version payload row_bytes line src_pos n (suc count) = do
  n' ← if line % 64 == 0 then check_stop stop n else ok n
  let len = line_len version payload line
  row ← decode_packbits_row (slice src_pos (src_pos + len) payload) row_bytes
  rest ← rle_lines stop version payload row_bytes (line + 1) (src_pos + len) n' count
  ok (row ++ rest.0, rest.1)

module _ (reserve stop : ℕ → Bool) (alloc_pref : AllocPref) (payload : Bytes) where
  -- `Compression::Rle`
  unfoldable pub rle_planes : Version → ℕ → ℕ → ℕ → ℕ → ℕ → ℕ → Result PsdError Planes
  rle_planes version row_bytes used_plane_bytes height used_channels total_channels n = do
    total_scanlines ←
        ok_or (checked_mul total_channels height) (malformed "scanline count overflow")
    table_bytes ←
        ok_or (checked_mul total_scanlines (count_size version))
          (malformed "RLE table size overflow")
    refuse (ltb (length payload) table_bytes) unexpected_eof
    total ← total_compressed version payload 0 total_scanlines table_bytes
    refuse (ltb (length payload) total) unexpected_eof
    buf ← alloc_zeroed reserve alloc_pref true used_plane_bytes
    lines ← rle_lines stop version payload row_bytes 0 table_bytes n (used_channels * height)
    ok (record { planes = lines.0; consumed = total; checks = lines.1 })

module _ (z : Inflater) (stop : ℕ → Bool) (payload : Bytes)
    (plane_bytes used_total all_total : ℕ) where
  -- `while out_pos < all_total`; `out` is the part of the buffer that is written. A round takes or makes a byte, or
  -- ends a stream that was begun, so twice the payload's length and the size of the output are enough rounds.
  unfoldable pub zip_loop : ℕ → z.Z → ℕ → ℕ → ℕ → Bytes → Result PsdError Planes
  zip_loop zero state n in_pos out_pos out = err unexpected_eof
  zip_loop (suc fuel) state n in_pos out_pos out =
      if not (ltb out_pos all_total)
      then ok (record { planes = out; consumed = in_pos; checks = n })
      else if stop n
      then err stopped
      else elim (z.decompress state (drop in_pos payload) (
          if ltb out_pos used_total
          then used_total - out_pos
          else min (all_total - out_pos) 8192)) [
            | none ↦ err (malformed "corrupt zlib stream in PSD image data")
            | some s ↦
                let in_pos' = in_pos + s.consumed in
                let out_pos' = out_pos + length s.produced in
                let out' = if ltb out_pos used_total then out ++ s.produced else out in
                let again = zip_loop fuel (z.reset s.state) (n + 1) in_pos' out_pos' out' in
                let more = zip_loop fuel s.state (n + 1) in_pos' out_pos' out' in
                if s.stream_end
                then if out_pos' == all_total
                  then ok (record { planes = out'; consumed = in_pos'; checks = n + 1 })
                  else if ltb 0 plane_bytes && out_pos' % plane_bytes == 0
                  then again
                  else err
                      (malformed "zlib stream ended before all PSD channel scanlines were decoded")
                else if s.consumed == 0 && length s.produced == 0
                then err unexpected_eof
                else more
          ]

module _ (z : Inflater) (reserve stop : ℕ → Bool) (alloc_pref : AllocPref) (payload : Bytes) where
  unfoldable pub decompress_zip_planes : ℕ → ℕ → ℕ → ℕ → Result PsdError Planes
  decompress_zip_planes plane_bytes used_channels total_channels n = do
    refuse (length payload == 0) unexpected_eof
    used_total ←
        ok_or (checked_mul plane_bytes used_channels) (malformed "ZIP buffer size overflow")
    all_total ← ok_or (checked_mul plane_bytes total_channels) (malformed "ZIP total size overflow")
    zeroed ← alloc_zeroed reserve alloc_pref true used_total
    zip_loop z stop payload plane_bytes used_total all_total (2 * (length payload + all_total) + 1)
        z.fresh n 0 0 []

-- `for ch in ch..ch + count`: the predictor undone plane by plane.
unfoldable pub undo_planes : ℕ → ℕ → ℕ → ℕ → BitDepth → ℕ → Bytes → Bytes
undo_planes width height row_bytes plane_bytes depth zero planes = planes
undo_planes width height row_bytes plane_bytes depth (suc count) planes =
    apply_zip_prediction (take plane_bytes planes) width height row_bytes depth
    ++ undo_planes width height row_bytes plane_bytes depth count (drop plane_bytes planes)

abbrev pub is_one : BitDepth → Bool
is_one one = true
is_one _ = false

-- The colour table of an indexed document.
unfoldable pub palette_of : Bytes → ParsedLayout → Option Bytes
palette_of xs layout = elim layout.info.header.color_mode [
  | indexed ↦ some (slice layout.color_mode_data_range.start layout.color_mode_data_range.end xs)
  | _ ↦ none
]

abbrev is_false : Option Bool → Bool
is_false (some false) = true
is_false _ = false

module _ (z : Inflater) (reserve stop : ℕ → Bool) (alloc_pref : AllocPref) where
  -- The `match` on the compression.
  unfoldable pub decompress :
      Compression → PsdHeader → Bytes → ℕ → ℕ → ℕ → ℕ → Result PsdError Planes
  decompress raw h payload row_bytes plane_bytes used_plane_bytes n =
      raw_planes reserve alloc_pref payload plane_bytes used_plane_bytes h.channels n
  decompress rle h payload row_bytes plane_bytes used_plane_bytes n =
      rle_planes reserve stop alloc_pref payload h.version row_bytes used_plane_bytes h.height
        (used_channels h) h.channels n
  decompress zip h payload row_bytes plane_bytes used_plane_bytes n = do
    refuse (is_one h.depth) (malformed "ZIP compression is not valid for 1-bit Bitmap mode")
    decompress_zip_planes z reserve stop alloc_pref payload plane_bytes (used_channels h) h.channels
        n
  decompress zip_prediction h payload row_bytes plane_bytes used_plane_bytes n = do
    refuse (is_one h.depth) (malformed "ZIP compression is not valid for 1-bit Bitmap mode")
    p ←
        decompress_zip_planes z reserve stop alloc_pref payload plane_bytes (used_channels h)
          h.channels n
    ok (record p {
      planes =
          undo_planes h.width h.height row_bytes plane_bytes h.depth (used_channels h) p.planes;
    })

  unfoldable pub decode_merged_image {ℓ} :
      {B : Type ℓ}
      → (Bytes → ℕ → ℕ → PixelDescriptor → Result PsdError B)
      → Bytes
      → ParsedLayout
      → ℕ
      → Result PsdError (B × ℕ)
  decode_merged_image make xs layout n =
      let h = layout.info.header in
      do
        row_bytes ← ok_or (scanline_bytes h.depth h.width) (malformed "scanline byte size overflow")
        plane_bytes ←
            ok_or (checked_mul row_bytes h.height) (malformed "channel plane size overflow")
        used_plane_bytes ←
            ok_or (checked_mul plane_bytes (used_channels h))
              (malformed "total plane size overflow")
        refuse (ltb (length xs) layout.image_data_payload_start) unexpected_eof
        p ←
            decompress layout.info.compression h (drop layout.image_data_payload_start xs) row_bytes
              plane_bytes used_plane_bytes n
        n' ← check_stop stop p.checks
        buffer ←
            interleave_planes make reserve p.planes h layout.info.metadata (palette_of xs layout)
              row_bytes plane_bytes alloc_pref
        ok (buffer, layout.image_data_payload_start + p.consumed)

  unfoldable pub decode_internal {ℓ} :
      {B : Type ℓ}
      → (Bytes → ℕ → ℕ → PixelDescriptor → Result PsdError B)
      → Bytes
      → Bool
      → Result PsdError (B × PsdInfo)
  decode_internal make xs require_real_merged_data = do
    n ← check_stop stop 0
    layout ← parse_layout xs
    refuse (require_real_merged_data && not layout.reserved_zero)
        (malformed "non-zero reserved header bytes")
    refuse (require_real_merged_data && is_false layout.info.metadata.has_real_merged_data)
        missing_merged_data
    r ← decode_merged_image make xs layout n
    ok (r.0, layout.info)
