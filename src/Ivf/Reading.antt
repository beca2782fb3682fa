-- ===== src/Ivf/Reading.antt =====
-- zenivf/src/lib.rs, `IvfDemuxer`: its state, and how it reads the header and the packets. An operation returns the
-- reader it leaves, also where it fails.
use zenextras.Prelude.{ℕ, ◌+◌, ◌-◌, ◌^◌, Bool, true, false, not, ◌&&◌, ◌||◌, Option, none, some}
use zenextras.Prelude.{List, [], ◌∷◌, ◌++◌, length, ltb, leb, ◌==◌, if◌then◌else◌, Result, ok, err}
use zenextras.Prelude.Bytes.{Bytes, slice}
use zenextras.Psd.Header.{bytes_eq}
use zenextras.Ivf.Types.{signature, header_len, packet_header_len, IvfError, bad_signature}
use zenextras.Ivf.Types.{
  unsupported_version, short_header, zero_dimensions, zero_time_base, truncated,
}
use zenextras.Ivf.Types.{empty_packet, count_mismatch, SessionError, codec, limit, CodecId}
use zenextras.Ivf.Types.{codec_from_fourcc, u16_at, u32_at, i64_at, TimeBase}

pub record IndexEntry : Type 0 where
  pub offset : ℕ
  pub pts : ℕ
  pub ordinal : ℕ

pub data State : Type 0 where
  in_header in_packets scanning done : State

-- `TrackInfo::video(0, ..)` as the reader builds it.
pub record Track : Type 0 where
  pub codec_id : CodecId
  pub base : TimeBase
  pub width : ℕ
  pub height : ℕ
  pub declared_packets : Option ℕ

pub data InputRequest : Type 0 where
  at_least range : ℕ → ℕ → InputRequest
  len : InputRequest

pub data SeekMode : Type 0 where
  nearest at_or_before at_or_after unnamed_mode : SeekMode

-- `time` is the 64 bits of its ticks, in its own base; `any_scope` is `scope == SeekScope::Any`.
pub record SeekTarget : Type 0 where
  pub track : ℕ
  pub time : ℕ
  pub base : TimeBase
  pub mode : SeekMode
  pub any_scope : Bool

pub record IvfDemuxer : Type 0 where
  pub state : State
  pub tracks : List Track
  pub requests : List InputRequest
  pub time_base : Option TimeBase
  pub header_bytes : ℕ
  pub start : ℕ
  pub ordinal : ℕ
  pub declared : Option ℕ
  pub index : List IndexEntry
  pub index_complete : Bool
  pub scan_pos : ℕ
  pub scan_ordinal : ℕ
  pub pending_seek : Option SeekTarget

-- `IvfDemuxer::new`
unfoldable pub new : IvfDemuxer
new = record {
  state = in_header;
  tracks = [];
  requests = [];
  time_base = none;
  header_bytes = header_len;
  start = 0;
  ordinal = 0;
  declared = none;
  index = [];
  index_complete = false;
  scan_pos = 0;
  scan_ordinal = 0;
  pending_seek = none;
}

pub record Input : Type 0 where
  pub offset : ℕ
  pub bytes : Bytes
  pub total_len : Option ℕ
  pub reaches_end : Bool

pub record Packet : Type 0 where
  pub payload : Bytes
  pub pts : ℕ
  pub base : Option TimeBase
  pub ordinal : ℕ
  pub input_offset : ℕ

-- Where a seek has put the reader.
pub record SeekResult : Type 0 where
  pub pts : ℕ
  pub base : TimeBase
  pub ordinal : ℕ

-- How many bytes a step took, and what it found; `need` asks for more.
pub data DemuxEvent : Type 0 where
  need headers all_done : DemuxEvent
  found : Packet → DemuxEvent
  seeked : SeekResult → DemuxEvent

abbrev pub Progress : Type 0
Progress = Result SessionError (ℕ × DemuxEvent)

abbrev pub Outcome : Type 0
Outcome = IvfDemuxer × Progress

-- What the reader asks of the media library and of the allocator: which lengths the limits admit, whether a time base
-- is one, whether a track is one, whether memory is granted, and the text of a tag.
pub record Library : Type 0 where
  pub table_entries_ok : ℕ → Bool
  pub header_bytes_ok : ℕ → Bool
  pub packet_bytes_ok : ℕ → Bool
  pub reserve_ok : ℕ → Bool
  pub time_base_ok : ℕ → ℕ → Bool
  pub track_ok : Track → Bool
  pub tag : Bytes → Bytes

abbrev pub ask : IvfDemuxer → InputRequest → Outcome
ask d r = (record d { requests = d.requests ++ (r ∷ []) }, ok (0, need))

abbrev pub fail : IvfDemuxer → IvfError → Outcome
fail d e = (d, err (codec e))

-- `note`: an entry goes into the index when it is the next one; the limit may refuse it.
unfoldable pub note :
    Library → IvfDemuxer → IndexEntry → IvfDemuxer × Result SessionError (Unit {0})
note lib d entry =
    if not d.index_complete && length d.index == entry.ordinal
    then if lib.table_entries_ok (length d.index + 1)
      then (record d { index = d.index ++ (entry ∷ []) }, ok tt)
      else (d, err limit)
    else (d, ok tt)

-- `(frames != 0 && frames != u32::MAX).then_some(frames)`
abbrev pub declared_of : ℕ → Option ℕ
declared_of frames = if frames == 0 || frames == 2 ^ 32 - 1 then none else some frames

-- The track of a header: its codec, time base (scale, rate), size and declared count.
unfoldable pub track_of : Library → Bytes → Track
track_of lib b = record {
  codec_id = codec_from_fourcc lib.tag (slice 8 12 b);
  base = record { numerator = u32_at b 20; denominator = u32_at b 16 };
  width = u16_at b 12;
  height = u16_at b 14;
  declared_packets = declared_of (u32_at b 24);
}

-- The checks on 32 bytes, in their order, and the reader that has taken them in. `declared` is set before the
-- track is built.
unfoldable pub take_header : Library → IvfDemuxer → Bytes → Outcome
take_header lib d b =
    let track = track_of lib b in
    let counted = record d { declared = declared_of (u32_at b 24) } in
    if not (bytes_eq (slice 0 4 b) signature)
    then fail d bad_signature
    else if not (u16_at b 4 == 0)
    then fail d (unsupported_version (u16_at b 4))
    else if ltb (u16_at b 6) header_len
    then fail d short_header
    else if not (lib.header_bytes_ok (u16_at b 6))
    then (d, err limit)
    else if u16_at b 12 == 0 || u16_at b 14 == 0
    then fail d zero_dimensions
    else if not (lib.time_base_ok (u32_at b 20) (u32_at b 16))
    then fail d zero_time_base
    else if not (lib.track_ok track)
    then fail counted zero_dimensions
    else (
      record counted {
        tracks = track ∷ [];
        time_base = some track.base;
        header_bytes = u16_at b 6;
        start = u16_at b 6;
        scan_pos = u16_at b 6;
        state = in_packets;
      },
      ok (header_len, headers),
    )

unfoldable pub header : Library → IvfDemuxer → Input → Outcome
header lib d input =
    if not (input.offset == 0)
    then ask d (at_least 0 header_len)
    else if ltb (length input.bytes) header_len
    then if input.reaches_end then fail d truncated else ask d (at_least 0 header_len)
    else take_header lib d input.bytes

-- The end of the input: every packet that was declared must have been found.
unfoldable pub at_end : IvfDemuxer → Outcome
at_end d =
    let ended = record d { state = done; index_complete = true } in
    elim d.declared [
      | none ↦ (ended, ok (0, all_done))
      | some n ↦
          if n == d.ordinal
          then (ended, ok (0, all_done))
          else fail ended (count_mismatch n d.ordinal)
    ]

abbrev pub is_exhausted : Option ℕ → ℕ → Option ℕ
is_exhausted none ordinal = none
is_exhausted (some n) ordinal = if leb n ordinal then some n else none

-- The places move on behind a packet whose entry was noted.
unfoldable pub noted_packet :
    IvfDemuxer → ℕ → Packet → IvfDemuxer × Result SessionError (Unit {0}) → Outcome
noted_packet d total packet (noted, err e) = (noted, err e)
noted_packet d total packet (noted, ok _) =
    let end = d.start + total in
    (
      record noted {
        start = end;
        scan_pos = if leb d.scan_ordinal d.ordinal then end else d.scan_pos;
        scan_ordinal = if leb d.scan_ordinal d.ordinal then d.ordinal + 1 else d.scan_ordinal;
        ordinal = d.ordinal + 1;
      },
      ok (total, found packet),
    )

-- A whole packet of `n` bytes.
unfoldable pub take_packet : Library → IvfDemuxer → Bytes → ℕ → Outcome
take_packet lib d b n =
    let total = packet_header_len + n in
    let packet : Packet = record {
      payload = slice packet_header_len total b;
      pts = i64_at b 4;
      base = d.time_base;
      ordinal = d.ordinal;
      input_offset = d.start + packet_header_len;
    } in
    let entry : IndexEntry = record { offset = d.start; pts = i64_at b 4; ordinal = d.ordinal } in
    noted_packet d total packet (note lib d entry)

-- The packet's length is read once its header is there. A packet of a positive length has a payload, so
-- `Packet::from_vec` does not fail.
unfoldable pub sized_packet : Library → IvfDemuxer → Input → Outcome
sized_packet lib d input =
    let n = u32_at input.bytes 0 in
    if n == 0
    then fail d empty_packet
    else if not (lib.packet_bytes_ok n)
    then (d, err limit)
    else if ltb (length input.bytes) (packet_header_len + n)
    then if input.reaches_end
      then fail d truncated
      else ask d (at_least d.start (packet_header_len + n))
    else if not (lib.reserve_ok n)
    then (d, err limit)
    else take_packet lib d input.bytes n

unfoldable pub packet : Library → IvfDemuxer → Input → Outcome
packet lib d input =
    if not (input.offset == d.start)
    then ask d (at_least d.start packet_header_len)
    else if length input.bytes == 0 && input.reaches_end
    then at_end d
    else if ltb (length input.bytes) packet_header_len
    then if input.reaches_end then fail d truncated else ask d (at_least d.start packet_header_len)
    else elim (is_exhausted d.declared d.ordinal) [
      | some n ↦ fail d (count_mismatch n (d.ordinal + 1))
      | none ↦ sized_packet lib d input
    ]
