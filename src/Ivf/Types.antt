-- ===== src/Ivf/Types.antt =====
-- zenivf/src/lib.rs: constants, errors, codec names and the numbers of a header.
use zenextras.Prelude.{ℕ, ◌+◌, ◌||◌, Option, none, some}
use zenextras.Prelude.{[], ◌∷◌, length, ◌==◌, if◌then◌else◌}
use zenextras.Prelude.Bytes.{Bytes, slice, le_bytes}
use zenextras.Psd.Header.{bytes_eq}

abbrev pub signature : Bytes
signature = b'D' ∷ b'K' ∷ b'I' ∷ b'F' ∷ []

abbrev pub header_len : ℕ
header_len = 32

abbrev pub packet_header_len : ℕ
packet_header_len = 12

abbrev pub count_offset : ℕ
count_offset = 24

pub data IvfError : Type 0 where
  bad_signature : IvfError
  unsupported_version : ℕ → IvfError
  short_header zero_dimensions zero_time_base truncated empty_packet : IvfError
  count_mismatch : ℕ → ℕ → IvfError
  no_such_frame headers_first no_such_track one_video_track : IvfError
  unsupported_codec dimensions_too_large too_many_packets : IvfError

-- The failures of a session that the source returns: its own, a limit, an order of calls, a pulse that says stop.
pub data SessionError : Type 0 where
  codec : IvfError → SessionError
  limit : SessionError
  begin_twice no_begin missing_timestamp clock_mismatch no_payload : SessionError
  unsupported_seek interrupted : SessionError
  -- An `expect` without a value: the program ends.
  panicked : SessionError

-- `CodecId` with the variants that the source names; `unnamed` stands for the others, and a tag is its characters.
pub data CodecId : Type 0 where
  av1 vp9 vp8 h264 hevc unnamed : CodecId
  other : Bytes → CodecId

-- `tag` makes the text of `CodecTag::new` from four bytes.
unfoldable pub codec_from_fourcc : (Bytes → Bytes) → Bytes → CodecId
codec_from_fourcc tag fourcc =
    if bytes_eq fourcc (b'A' ∷ b'V' ∷ b'0' ∷ b'1' ∷ [])
    then av1
    else if bytes_eq fourcc (b'V' ∷ b'P' ∷ b'9' ∷ b'0' ∷ [])
    then vp9
    else if bytes_eq fourcc (b'V' ∷ b'P' ∷ b'8' ∷ b'0' ∷ [])
    then vp8
    else if bytes_eq fourcc (b'H' ∷ b'2' ∷ b'6' ∷ b'4' ∷ [])
        || bytes_eq fourcc (b'A' ∷ b'V' ∷ b'C' ∷ b'1' ∷ [])
    then h264
    else if bytes_eq fourcc (b'H' ∷ b'E' ∷ b'V' ∷ b'C' ∷ [])
        || bytes_eq fourcc (b'H' ∷ b'2' ∷ b'6' ∷ b'5' ∷ [])
    then hevc
    else other (tag fourcc)

unfoldable pub fourcc_for : CodecId → Option Bytes
fourcc_for av1 = some (b'A' ∷ b'V' ∷ b'0' ∷ b'1' ∷ [])
fourcc_for vp9 = some (b'V' ∷ b'P' ∷ b'9' ∷ b'0' ∷ [])
fourcc_for vp8 = some (b'V' ∷ b'P' ∷ b'8' ∷ b'0' ∷ [])
fourcc_for h264 = some (b'H' ∷ b'2' ∷ b'6' ∷ b'4' ∷ [])
fourcc_for hevc = some (b'H' ∷ b'E' ∷ b'V' ∷ b'C' ∷ [])
fourcc_for (other b) = if length b == 4 then some b else none
fourcc_for unnamed = none

abbrev pub u16_at : Bytes → ℕ → ℕ
u16_at b i = le_bytes (slice i (i + 2) b)

abbrev pub u32_at : Bytes → ℕ → ℕ
u32_at b i = le_bytes (slice i (i + 4) b)

-- An `i64` is given by its 64 bits.
abbrev pub i64_at : Bytes → ℕ → ℕ
i64_at b i = le_bytes (slice i (i + 8) b)

-- A time base is its numerator and denominator.
pub record TimeBase : Type 0 where
  pub numerator : ℕ
  pub denominator : ℕ
