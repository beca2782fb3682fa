-- ===== src/Ivf/Muxer.antt =====
-- zenivf/src/lib.rs, `IvfMuxer`. `out` is what was pushed and not yet taken.
use zenextras.Prelude.{
  ℕ, ◌+◌, ◌-◌, ◌%◌, ◌^◌, Bool, true, false, not, ◌&&◌, ◌||◌, Option, none, some,
}
use zenextras.Prelude.{
  List, [], ◌∷◌, ◌++◌, length, drop, replicate, leb, ◌==◌, if◌then◌else◌, Result, ok,
}
use zenextras.Prelude.{◌>>=◌, ◌>>◌, refuse, ok_or}
use zenextras.Prelude.Bytes.{Bytes, to_le_bytes}
use zenextras.Ivf.Types.{signature, header_len, count_offset, no_such_track, one_video_track}
use zenextras.Ivf.Types.{
  unsupported_codec, dimensions_too_large, too_many_packets, CodecId, fourcc_for,
}
use zenextras.Ivf.Types.{SessionError, codec, limit, begin_twice, no_begin, missing_timestamp}
use zenextras.Ivf.Types.{clock_mismatch, no_payload, interrupted, TimeBase}

pub record IvfMuxer : Type 0 where
  pub out : Bytes
  pub begun : Bool
  pub count_patch : Bool
  pub patching : Bool
  pub time_base : Option TimeBase
  pub count : ℕ

abbrev pub new : IvfMuxer
new = record {
  out = [];
  begun = false;
  count_patch = false;
  patching = false;
  time_base = none;
  count = 0;
}

abbrev pub with_count_patch : IvfMuxer → IvfMuxer
with_count_patch m = record m { count_patch = true }

-- A track: whether it is one of video with video information, its codec, size and time base.
pub record TrackInfo : Type 0 where
  pub is_video : Bool
  pub codec_id : CodecId
  pub coded_width : ℕ
  pub coded_height : ℕ
  pub base : TimeBase

pub data MuxTiming : Type 0 where
  streaming streaming_with_patches : MuxTiming

abbrev pub one_track : List TrackInfo → Option TrackInfo
one_track (track ∷ []) = if track.is_video then some track else none
one_track _ = none

-- The 32 bytes; version and count are zero.
abbrev pub header : Bytes → ℕ → ℕ → TimeBase → Bytes
header fourcc w h tb =
    signature
    ++ (replicate 2 0
        ++ (to_le_bytes 2 header_len
            ++ (fourcc
                ++ (to_le_bytes 2 w
                    ++ (to_le_bytes 2 h
                        ++ (to_le_bytes 4 tb.denominator
                            ++ (to_le_bytes 4 tb.numerator ++ replicate 8 0)))))))

-- `begin` and `write_packet` change nothing where they fail, so a failure keeps the writer.
unfoldable pub begin : IvfMuxer → List TrackInfo → Bool → Result SessionError (IvfMuxer × MuxTiming)
begin m tracks forward_only = do
  refuse m.begun begin_twice
  track ← ok_or (one_track tracks) (codec one_video_track)
  fourcc ← ok_or (fourcc_for track.codec_id) (codec unsupported_codec)
  refuse (leb (2 ^ 16) track.coded_width || leb (2 ^ 16) track.coded_height)
      (codec dimensions_too_large)
  let patching = m.count_patch && not forward_only
  ok (
    record m {
      out = m.out ++ header fourcc track.coded_width track.coded_height track.base;
      time_base = some track.base;
      patching = patching;
      begun = true;
    },
    if patching then streaming_with_patches else streaming,
  )

-- A packet: its track, its time with the base it counts in, and the bytes, unless they were taken out before.
pub record Packet : Type 0 where
  pub track : ℕ
  pub pts : Option (ℕ × TimeBase)
  pub payload : Option Bytes

abbrev pub same_base : TimeBase → Option TimeBase → Bool
same_base a none = false
same_base a (some b) = a.numerator == b.numerator && a.denominator == b.denominator

unfoldable pub write_packet : IvfMuxer → Packet → Bool → Result SessionError IvfMuxer
write_packet m packet pulse = do
  refuse (not pulse) interrupted
  refuse (not m.begun) no_begin
  refuse (not (packet.track == 0)) (codec no_such_track)
  pts ← ok_or packet.pts missing_timestamp
  refuse (not (same_base pts.1 m.time_base)) clock_mismatch
  refuse (m.patching && leb (2 ^ 32 - 1 - 1) m.count) (codec too_many_packets)
  bytes ← ok_or packet.payload no_payload
  refuse (leb (2 ^ 32) (length bytes)) limit
  ok (record m {
    out = m.out ++ (to_le_bytes 4 (length bytes) ++ (to_le_bytes 8 pts.0 ++ bytes));
    count = m.count + 1;
  })

-- The output buffer, looked at, shortened by what was taken, and taken whole.
abbrev pub pending_output : IvfMuxer → Bytes
pending_output m = m.out

unfoldable pub consume_output : IvfMuxer → ℕ → IvfMuxer
consume_output m n = record m { out = drop n m.out }

unfoldable pub take_output : IvfMuxer → Bytes → IvfMuxer × Bytes
take_output m into = (record m { out = [] }, into ++ m.out)

-- A patch of the bytes at an offset of the output.
pub record Patch : Type 0 where
  pub offset : ℕ
  pub bytes : Bytes

unfoldable pub finish : IvfMuxer → Bool → Result SessionError (Bytes × List Patch)
finish m pulse = do
  refuse (not pulse) interrupted
  refuse (not m.begun) no_begin
  ok (
    m.out,
    if m.patching
        then record { offset = count_offset; bytes = to_le_bytes 4 (m.count % 2 ^ 32) } ∷ []
        else [],
  )
