-- ===== src/Webm/Muxer.antt =====
-- zenwebm/src/mux.rs, `impl Muxer for WebmMuxer`: the start of a file, packets into clusters, and the end.
pub mod State
pub mod Times
pub mod Tracks
pub mod Blocks
pub mod ObuSizes
pub mod Delimiter
pub mod Scale
pub mod Rounding
pub mod Opening
pub mod Clusters
use zenextras.Prelude.{ℕ, zero, suc, ◌+◌, ◌-◌, ◌*◌, ◌/◌, ◌%◌, ◌^◌, min, max, not, ◌&&◌, ◌||◌}
use zenextras.Prelude.{
  Bool, true, false, Option, none, some, List, [], ◌∷◌, ◌++◌, length, drop, map,
}
use zenextras.Prelude.{get_elem?, ltb, leb, ◌==◌, if◌then◌else◌, Result, ok, err, ok_or, refuse}
use zenextras.Prelude.Bytes.{Bytes}
use zenextras.Prelude.Int.{
  ℤ, pos, negsuc, ◌+ℤ◌, ltb_ℤ, leb_ℤ, max_ℤ, sub_i64, i64_bits, is_i64, pos_part,
}
use zenextras.Prelude.Text.{codes}
use zenextras.Webm.Action.{Action, ◌>>=◌, ◌>>◌, give, fail, read, lift, change}
use zenextras.Webm.Error.{no_tracks, too_many_tracks, bad_timestamp_scale, timestamp_overflow}
use zenextras.Webm.Error.{
  discard_both_ends, out_of_order, negative_timestamp, no_such_track, epoch_change,
}
use zenextras.Webm.Types.{SessionError, codec, begin_twice, no_begin, missing_timestamp}
use zenextras.Webm.Types.{clock_mismatch, no_payload, interrupted, panicked, TimeBase, Timestamp}
use zenextras.Webm.Types.{
  FrameDuration, RandomAccess, yes_random, no_random, unknown, TrackKind, video, audio, subtitle,
  data_track,
}
use zenextras.Webm.Types.{unnamed_kind, CodecId, av1, TrackInfo, Discard, Packet}
use zenextras.Webm.Ebml.{put_id, put_size, put, put_uint, put_unknown_size}
use zenextras.Webm.Ebml.Ids
use zenextras.Webm.Muxer.State.{WebmMuxer, MuxReport, MuxTrack, OpenCluster, Library}
use zenextras.Webm.Muxer.State.{ns_per_second}
use zenextras.Webm.Muxer.Times.{ticks, nanos, choose_scale}
use zenextras.Webm.Muxer.Tracks.{track_entry}
use zenextras.Webm.Muxer.Blocks.{without_temporal_delimiter, is_random, Block, put_block}
use zenextras.Webm.Muxer.Opening.{
  put_entries, ebml_entry, info_entry, head, is_video, is_av1, mux_track, clamp_ticks, MuxTiming,
  begin,
}
use zenextras.Webm.Muxer.Clusters.{cluster_bytes, close_with, close_cluster}

-- An `i64` from a `u64`.
abbrev pub to_i64 : ℕ → Action WebmMuxer ℤ
to_i64 n = if ltb n (2 ^ 63) then give (pos n) else fail (codec timestamp_overflow)

abbrev pub negate : ℕ → ℤ
negate zero = pos 0
negate (suc n) = negsuc n

-- Padding is positive at the end of a packet and negative at its start; the number is an `i64`.
unfoldable pub padding_ns : Option Discard → Action WebmMuxer (Option ℤ)
padding_ns none = give none
padding_ns (some d) = elim d.start [
  | none ↦ elim d.end [
    | none ↦ give none
    | some e ↦ do ns ← nanos e; padding ← to_i64 ns; give (some padding)
  ]
  | some s ↦ elim d.end [
    | none ↦ do ns ← nanos s; padding ← to_i64 ns; give (some (negate (pos_part padding)))
    | some _ ↦ fail (codec discard_both_ends)
  ]
]

-- The end of the packet in ticks, less its start.
unfoldable pub duration_of : Library → Timestamp → ℤ → Option ℕ → Action WebmMuxer (Option ℕ)
duration_of lib pts start none = give none
duration_of lib pts start (some d) = do
  length ← to_i64 d
  lift (refuse (not (is_i64 (pts.ticks +ℤ length))) (codec timestamp_overflow))
  end ← ticks lib (record pts { ticks = pts.ticks +ℤ length })
  give (some (pos_part (sub_i64 end start)))

-- Whether a block at a distance from the open cluster begins a new one.
abbrev pub roll_in :
    WebmMuxer → Bool → RandomAccess → ℤ → Option OpenCluster → Result SessionError Bool
roll_in m is_video random_access ticks none = ok true
roll_in m is_video random_access ticks (some c) =
    let rel = sub_i64 ticks c.base in
    if ltb_ℤ rel (negsuc (2 ^ 15 - 1))
    then err (codec out_of_order)
    else ok (
        ltb_ℤ (pos (2 ^ 15 - 1)) rel
        || leb_ℤ m.cluster_ticks rel
        || leb m.max_cluster_bytes (length c.body)
        || (is_video && (is_random random_access && ltb 0 c.blocks)))

unfoldable pub should_roll : WebmMuxer → Bool → RandomAccess → ℤ → Result SessionError Bool
should_roll m is_video random_access ticks = roll_in m is_video random_access ticks m.cluster

-- A cluster's timestamp is unsigned.
unfoldable pub open_cluster : ℤ → Action WebmMuxer (Unit {0})
open_cluster ticks = do
  change close_cluster
  lift (refuse (ltb_ℤ ticks (negsuc (2 ^ 15 - 1))) (codec negative_timestamp))
  change (λ m. record m {
    cluster = some (record { base = max_ℤ ticks (pos 0); body = []; blocks = 0 });
  })

abbrev pub set_last : List MuxTrack → ℕ → ℤ → List MuxTrack
set_last [] index ticks = []
set_last (t ∷ ts) zero ticks = record t { last_ticks = some ticks } ∷ ts
set_last (t ∷ ts) (suc index) ticks = t ∷ set_last ts index ticks

abbrev pub is_unknown : RandomAccess → Bool
is_unknown unknown = true
is_unknown yes_random = false
is_unknown no_random = false

-- The block goes to the end of the open cluster `c`, and the packet is counted.
unfoldable pub add_block : OpenCluster → Block → WebmMuxer → WebmMuxer
add_block c b m = record m {
  cluster = some (record c { body = put_block c.body b; blocks = (c.blocks + 1) % 2 ^ 32 });
  tracks = set_last m.tracks b.index b.ticks;
  report = record (m.report) {
    unknown_random_access =
        m.report.unknown_random_access + (if is_unknown b.random_access then 1 else 0);
    packets = m.report.packets + 1;
  };
}

-- The block of a packet, its time relative to the cluster that is open.
unfoldable pub block_in : OpenCluster → MuxTrack → Packet → ℤ → Option ℕ → Option ℤ → Bytes → Block
block_in c track packet ticks duration padding payload = record {
  index = packet.track;
  ticks = ticks;
  rel = sub_i64 ticks c.base;
  random_access = packet.random_access;
  body = if track.av1 then without_temporal_delimiter payload else payload;
  duration = duration;
  padding = padding;
  additions = packet.additions;
  prev = track.last_ticks;
}

abbrev pub same_base : TimeBase → TimeBase → Bool
same_base a b = a.numerator == b.numerator && a.denominator == b.denominator

-- The block goes into the open cluster, or into a new one.
unfoldable pub into_cluster :
    MuxTrack → Packet → ℤ → Option ℕ → Option ℤ → Bytes → Action WebmMuxer (Unit {0})
into_cluster track packet at duration padding payload = do
  answer ← read (λ m. should_roll m track.video packet.random_access at)
  roll ← lift answer
  if roll then open_cluster at else give tt
  opened ← read (λ m. m.cluster)
  c ← lift (ok_or opened panicked)
  change (add_block c (block_in c track packet at duration padding payload))

-- The times of a packet on the segment's clock, and its bytes.
unfoldable pub place_packet : Library → MuxTrack → Packet → Timestamp → Action WebmMuxer (Unit {0})
place_packet lib track packet pts = do
  padding ← padding_ns packet.discard
  at ← ticks lib pts
  duration ← duration_of lib pts at packet.duration_ticks
  payload ← lift (ok_or packet.payload no_payload)
  into_cluster track packet at duration padding payload

unfoldable pub write_packet : Library → Packet → Bool → Action WebmMuxer (Unit {0})
write_packet lib packet pulse = do
  lift (refuse (not pulse) interrupted)
  begun ← read (λ m. m.begun)
  lift (refuse (not begun) no_begin)
  found ← read (λ m. get_elem? m.tracks packet.track)
  track ← lift (ok_or found (codec no_such_track))
  lift (refuse (not (packet.config_epoch == track.epoch)) (codec epoch_change))
  pts ← lift (ok_or packet.pts missing_timestamp)
  lift (refuse (not (same_base pts.base track.time_base)) clock_mismatch)
  place_packet lib track packet pts

-- The output buffer, looked at, shortened by what was taken, and taken whole.
abbrev pub pending_output : WebmMuxer → Bytes
pending_output m = m.out

unfoldable pub consume_output : WebmMuxer → ℕ → WebmMuxer
consume_output m n = record m { out = drop n m.out }

unfoldable pub take_output : WebmMuxer → Bytes → WebmMuxer × Bytes
take_output m into = (record m { out = [] }, into ++ m.out)

-- The bytes that are left; there are no patches.
unfoldable pub finish : WebmMuxer → Bool → Result SessionError Bytes
finish m pulse =
    if not pulse
    then err interrupted
    else if not m.begun
    then err no_begin
    else ok (close_cluster m).out
