-- ===== src/Webm/Demuxer.antt =====
-- zenwebm/src/demux.rs, `impl Demuxer for WebmDemuxer`: one element a step.
pub mod State
pub mod Tracks
pub mod Build
pub mod Lacing
pub mod Tiling
pub mod Heads
pub mod Info
pub mod Blocks
pub mod Picking
pub mod Choice
pub mod Chosen
pub mod Best
pub mod Scanning
pub mod Ordinals
pub mod Counting
pub mod Resuming
pub mod FailedSeek
pub mod Elements
pub mod Opening
pub mod Seeks
use zenextras.Prelude.{ℕ, zero, suc, ◌+◌, ◌-◌, ◌*◌, ◌^◌, min, not, ◌&&◌, ◌||◌}
use zenextras.Prelude.{
  Bool, true, false, Option, none, some, List, [], ◌∷◌, ◌++◌, length, replicate,
}
use zenextras.Prelude.{ltb, leb, ◌==◌, if◌then◌else◌, Result, ok, err, ok_or, refuse, map}
use zenextras.Prelude.Bytes.{Bytes, slice}
use zenextras.Prelude.Int.{ℤ, pos, add_u64}
use zenextras.Prelude.Text.{codes}
use zenextras.Psd.Header.{bytes_eq}
use zenextras.Webm.Error.{
  truncated, unknown_size, not_ebml, unsupported_doc_type, no_segment, no_tracks,
}
use zenextras.Webm.Error.{
  duplicate_tracks, overrun, bad_timestamp_scale, timestamp_overflow, headers_first, no_such_frame,
}
use zenextras.Webm.Types.{SessionError, codec, limit, interrupted, panicked, TimeBase, TrackInfo}
use zenextras.Webm.Ebml.{Child, Header, header, total, children, uint, max_header_len}
use zenextras.Webm.Ebml.Ids
use zenextras.Webm.Action.{Action, ◌>>=◌, ◌>>◌, give, fail, read, lift, change}
use zenextras.Webm.Demuxer.State.{WebmDemuxer, in_ebml, in_segment, in_body, scanning, done}
use zenextras.Webm.Demuxer.State.{
  Cluster, Scan, RawTrack, no_extras, SeekTarget, SeekResult, Library, Input, InputRequest,
}
use zenextras.Webm.Demuxer.State.{DemuxProgress, need, headers, all_done, packet, ns_per_second}
use zenextras.Webm.Demuxer.Tracks.{of_codec, read_tracks}
use zenextras.Webm.Demuxer.Info.{doc_type, build_tracks, numbers_of}
use zenextras.Webm.Demuxer.Blocks.{block, block_group}
use zenextras.Webm.Demuxer.Picking
use zenextras.Webm.Demuxer.Scanning.{is_behind, is_at, known_end, scan_step}
use zenextras.Webm.Demuxer.Elements.{ask, move_to, with_header, with_body, skip}
use zenextras.Webm.Demuxer.Opening.{
  send_headers, finish, ebml_header, is_empty_end, segment_header, set_scale, read_info, is_some,
  take_header, or_unbounded, header_child, enter_cluster, segment_child,
}
use zenextras.Webm.Demuxer.Seeks.{SeekStatus, begin_scan, seek_indexed, seek}

-- The Timestamp of the cluster that is open.
unfoldable pub set_timestamp : Bytes → Action WebmDemuxer (Unit {0})
set_timestamp body = do
  ts ← lift (of_codec (uint body))
  lift (refuse (not (ltb ts (2 ^ 63))) (codec timestamp_overflow))
  found ← read (λ d. d.cluster)
  c ← lift (ok_or found panicked)
  change (λ d. record d { cluster = some (record c { timestamp = some (pos ts) }) })

-- The front packet of the queue, or a need for more.
unfoldable pub pop : ℕ → Action WebmDemuxer DemuxProgress
pop consumed d = elim d.pending [
  | p ∷ rest ↦ (record d { pending = rest }, ok (consumed, packet p))
  | [] ↦ ask consumed d
]

abbrev pub is_block : ℕ → Bool
is_block id = id == Ids.simple_block || id == Ids.block_group

unfoldable pub take_child : Library → ℕ → Bytes → ℕ → Action WebmDemuxer (Unit {0})
take_child lib id body offset =
    if id == Ids.timestamp
    then set_timestamp body
    else if id == Ids.simple_block
    then block lib body offset true no_extras
    else block_group lib body offset

-- A Timestamp or a block, whose size is known.
unfoldable pub known_child : Library → Header → Input → Action WebmDemuxer DemuxProgress
known_child lib h input = do
  size ← lift (ok_or h.size panicked)
  lift (refuse (is_block h.id && not (lib.check_packet_bytes size)) limit)
  with_body h input (λ body. do
    at ← read (λ d. d.pos)
    take_child lib h.id body (add_u64 at h.len)
    change (λ d. record d { pos = add_u64 d.pos (h.len + length body) })
    pop (h.len + length body))

unfoldable pub cluster_child : Library → Header → Input → Action WebmDemuxer DemuxProgress
cluster_child lib h input =
    if h.id == Ids.timestamp || is_block h.id then known_child lib h input else skip h input

-- A cluster of known size ends at its end, and a top-level element ends one of unknown size.
abbrev pub leave_known : WebmDemuxer → WebmDemuxer
leave_known d = elim d.cluster [
  | none ↦ d
  | some c ↦ if is_at c.end d.pos then record d { cluster = none } else d
]

abbrev pub has_end : Option Cluster → Bool
has_end none = false
has_end (some c) = is_some c.end

abbrev pub or_else : Option ℕ → Option ℕ → Option ℕ
or_else none other = other
or_else (some n) other = some n

abbrev pub parent_end : WebmDemuxer → Option ℕ
parent_end d = elim d.cluster [ none ↦ d.segment_end | some c ↦ or_else c.end d.segment_end ]

-- The element at `pos` runs past the end of its parent; both are known.
abbrev pub overruns : ℕ → Option ℕ → Option ℕ → Bool
overruns at none end = false
overruns at (some total) none = false
overruns at (some total) (some end) = leb (2 ^ 64) (at + total) || ltb end (at + total)

unfoldable pub body_element : Library → Input → Header → Action WebmDemuxer DemuxProgress
body_element lib input h = do
  before ← read (λ d. d.cluster)
  lift (refuse (is_some before && Ids.is_top_level h.id && has_end before) (codec overrun))
  change (λ d. if Ids.is_top_level h.id then record d { cluster = none } else d)
  past ← read (λ d. overruns d.pos (total h) (parent_end d))
  lift (refuse past (codec overrun))
  lift (refuse (not (is_some h.size) && not (h.id == Ids.cluster)) (codec unknown_size))
  cluster ← read (λ d. d.cluster)
  if is_some cluster then cluster_child lib h input else segment_child lib h input

unfoldable pub body_step : Library → Input → Action WebmDemuxer DemuxProgress
body_step lib input = do
  change leave_known
  d ← read (λ d. d)
  if is_at d.segment_end d.pos
      then finish lib
      else if is_empty_end input d.pos
      then if is_some d.segment_end || has_end d.cluster then fail (codec truncated) else finish lib
      else with_header input (body_element lib input)

abbrev pub or_known : Option ℕ → Option ℕ → Option ℕ
or_known known none = known
or_known known (some total) = some total

unfoldable pub dispatch : Library → Input → Action WebmDemuxer DemuxProgress
dispatch lib input d = elim d.state [
  | in_ebml ↦ ebml_header lib input d
  | in_segment ↦ segment_header input d
  | in_body ↦ body_step lib input d
  | scanning ↦ scan_step lib input d
  | done ↦ (d, ok (0, all_done))
]

unfoldable pub step : Library → Bool → Input → Action WebmDemuxer DemuxProgress
step lib pulse input = do
  lift (refuse (not pulse) interrupted)
  change (λ d. record d { requests = []; total = or_known d.total input.total_len })
  next ← read (λ d. d.pending)
  elim next [
    | p ∷ rest ↦ change (λ d. record d { pending = rest }) >> give (0, packet p)
    | [] ↦ dispatch lib input
  ]
