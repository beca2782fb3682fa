-- ===== src/Webm/Demuxer/Scanning.antt =====
-- zenwebm/src/demux.rs: one step of the scan that builds the index of a seek, and its end.
use zenextras.Prelude.{ℕ, ◌+◌, ◌/◌, ◌%◌, ◌^◌, min, not, ◌&&◌, ◌||◌}
use zenextras.Prelude.{Bool, true, false, Option, none, some, [], ◌∷◌, ◌++◌, length}
use zenextras.Prelude.{get_or, get_elem?, ltb, ◌==◌, if◌then◌else◌, Result, ok, err, ok_or, refuse}
use zenextras.Prelude.Bytes.{Bytes, slice}
use zenextras.Prelude.Int.{ℤ, pos, add_u64}
use zenextras.Webm.Error.{
  truncated, unknown_size, bad_block, undeclared_track, block_before_timestamp,
}
use zenextras.Webm.Error.{timestamp_overflow}
use zenextras.Webm.Types.{SessionError, codec, limit, panicked}
use zenextras.Webm.Ebml.{Header, header, total, uint}
use zenextras.Webm.Ebml.Ids
use zenextras.Webm.Action.{Action, ◌>>=◌, ◌>>◌, give, fail, read, lift, change}
use zenextras.Webm.Demuxer.State.{WebmDemuxer, Scan, Library, Input, DemuxProgress, SeekTarget}
use zenextras.Webm.Demuxer.State.{need, seeked}
use zenextras.Webm.Demuxer.Tracks.{of_codec}
use zenextras.Webm.Demuxer.Heads.{position, BlockHead, read_head, scan_group}
use zenextras.Webm.Demuxer.Blocks.{add_i64, bump, is_set}
use zenextras.Webm.Demuxer.Picking

-- `self.total.is_some_and(|t| pos > t)`
abbrev pub is_behind : Option ℕ → ℕ → Bool
is_behind none at = false
is_behind (some t) at = ltb t at

unfoldable pub scan_need : ℕ → ℕ → Action WebmDemuxer DemuxProgress
scan_need at len = do
  total ← read (λ d. d.total)
  lift (refuse (is_behind total at) (codec truncated))
  change (λ d. record d { requests = d.requests ++ (record { offset = at; len = len } ∷ []) })
  give (0, need)

unfoldable pub answer_seek : SeekTarget → Action WebmDemuxer DemuxProgress
answer_seek target = do
  change (λ d. record d { pending_seek = none })
  answer ← read (λ d. Picking.pick d target)
  e ← lift answer
  result ← read (λ d. (Picking.position d e).1)
  change (λ d. (Picking.position d e).0)
  give (0, seeked result)

-- The seek is taken before its block is chosen.
unfoldable pub resolve_seek : Action WebmDemuxer DemuxProgress
resolve_seek = do
  pending ← read (λ d. d.pending_seek)
  target ← lift (ok_or pending panicked)
  answer_seek target

unfoldable pub finish_scan : Action WebmDemuxer DemuxProgress
finish_scan = do change (λ d. record d { index_complete = true; scan = none }); resolve_seek

abbrev pub is_at : Option ℕ → ℕ → Bool
is_at none at = false
is_at (some e) at = e == at

-- A cluster of known size ends at its end.
abbrev pub leave_in : Scan → Option (Option ℕ × Option ℤ) → Scan
leave_in s none = s
leave_in s (some (end, _)) = if is_at end s.pos then record s { cluster = none } else s

abbrev pub leave_known : Scan → Scan
leave_known s = leave_in s s.cluster

-- A top-level element ends a cluster of unknown size.
abbrev pub leave_unknown : Scan → ℕ → Scan
leave_unknown s id = if Ids.is_top_level id then record s { cluster = none } else s

abbrev pub set_scan : Scan → Action WebmDemuxer (Unit {0})
set_scan s = change (λ d. record d { scan = some s })

-- `pos + total`, where the next header is.
unfoldable pub advance : Scan → ℕ → Action WebmDemuxer DemuxProgress
advance s total = do
  let next = add_u64 s.pos total
  set_scan (record s { pos = next })
  scan_need next 32

abbrev pub known_end : ℕ → Option ℕ → Option ℕ
known_end start none = none
known_end start (some size) = some (add_u64 start size)

-- An element outside the clusters.
unfoldable pub scan_outside : Scan → Header → Action WebmDemuxer DemuxProgress
scan_outside s h =
    if h.id == Ids.cluster
    then set_scan (record s {
      cluster = some (known_end (add_u64 s.pos h.len) h.size, none);
      pos = add_u64 s.pos h.len;
    })
      >> scan_need (add_u64 s.pos h.len) 32
    else if h.id == Ids.ebml || h.id == Ids.segment
    then finish_scan
    else lift (ok_or (total h) (codec unknown_size)) >>= advance s

-- How much of an element the scan reads: the head of a SimpleBlock, the others whole.
abbrev pub wanted : Library → Header → ℕ → Result SessionError ℕ
wanted lib h total =
    if h.id == Ids.simple_block
    then ok (min total (h.len + 12))
    else if h.id == Ids.block_group && not (lib.check_packet_bytes total)
    then err limit
    else ok total

-- A count of frames, less one, follows the head of a laced block.
abbrev pub frame_count : Bytes → BlockHead → Result SessionError ℕ
frame_count head h = if h.flags / 2 % 4 == 0 then ok 1 else elim (get_elem? head (h.len + 3)) [
  | none ↦ err (codec bad_block)
  | some count ↦ ok (count + 1)
]

-- The block whose head is given goes into the index; a group says itself whether it is a keyframe.
unfoldable pub record_block :
    Library → Scan → Option ℕ → Option ℤ → Bytes → Option Bool → Action WebmDemuxer (Unit {0})
record_block lib s cluster_end cluster_ts head key_from_group = do
  h ← lift (read_head head)
  frames ← lift (frame_count head h)
  numbers ← read (λ d. d.numbers)
  track ← lift (ok_or (position h.number numbers) (codec undeclared_track))
  base ← lift (ok_or cluster_ts (codec block_before_timestamp))
  pts ← lift (ok_or (add_i64 base h.rel) (codec timestamp_overflow))
  index ← read (λ d. d.index)
  lift (refuse (not (lib.check_table_entries (length index + 1))) limit)
  set_scan (record s { ordinals = bump s.ordinals track frames })
  change (λ d. record d {
    index =
        d.index
        ++ (record {
          offset = s.pos;
          cluster_end = cluster_end;
          cluster_ts = base;
          track = track;
          pts = pts;
          key = elim key_from_group [ none ↦ is_set h.flags 0x80 | some key ↦ key ];
          ordinal = get_or s.ordinals track 0;
          frames = frames;
        }
            ∷ []);
  })

-- The Timestamp of the cluster.
unfoldable pub record_timestamp : Scan → Option ℕ → Bytes → Action WebmDemuxer (Unit {0})
record_timestamp s cluster_end body = do
  ts ← lift (of_codec (uint body))
  lift (refuse (not (ltb ts (2 ^ 63))) (codec timestamp_overflow))
  set_scan (record s { cluster = some (cluster_end, some (pos ts)) })

unfoldable pub scan_body :
    Library → Scan → Option ℕ → Option ℤ → ℕ → Bytes → Action WebmDemuxer (Unit {0})
scan_body lib s cluster_end cluster_ts id body =
    if id == Ids.timestamp
    then record_timestamp s cluster_end body
    else if id == Ids.simple_block
    then record_block lib s cluster_end cluster_ts body none
    else lift (scan_group body) >>= λ group.
        record_block lib s cluster_end cluster_ts group.0 (some group.1)

abbrev pub is_scanned : ℕ → Bool
is_scanned id = id == Ids.timestamp || id == Ids.simple_block || id == Ids.block_group

-- The scan position moves on, whatever else the body changed.
unfoldable pub move_on : ℕ → Action WebmDemuxer DemuxProgress
move_on total = do found ← read (λ d. d.scan); s ← lift (ok_or found panicked); advance s total

-- An element in a cluster.
unfoldable pub scan_inside :
    Library → Input → Scan → Option ℕ → Option ℤ → Header → Action WebmDemuxer DemuxProgress
scan_inside lib input s cluster_end cluster_ts h = do
  total ← lift (ok_or (total h) (codec unknown_size))
  want ← lift (if is_scanned h.id then wanted lib h total else ok 0)
  if ltb (length input.bytes) want
      then if input.reaches_end then fail (codec truncated) else scan_need s.pos want
      else (if is_scanned h.id
          then scan_body lib s cluster_end cluster_ts h.id (slice h.len want input.bytes)
          else give tt)
        >> move_on total

abbrev pub scan_in :
    Library
    → Input
    → Scan
    → Header
    → Option (Option ℕ × Option ℤ)
    → Action WebmDemuxer DemuxProgress
scan_in lib input s h none = scan_outside s h
scan_in lib input s h (some (end, ts)) = scan_inside lib input s end ts h

unfoldable pub scan_element : Library → Input → Scan → Header → Action WebmDemuxer DemuxProgress
scan_element lib input s h =
    let s' = leave_unknown s h.id in set_scan s' >> scan_in lib input s' h s'.cluster

-- What the scan makes of the header at its position, or of one that is cut short.
abbrev pub scan_header : Library → Input → Scan → Option Header → Action WebmDemuxer DemuxProgress
scan_header lib input s none =
    if input.reaches_end then fail (codec truncated) else scan_need s.pos 32
scan_header lib input s (some h) = scan_element lib input s h

abbrev pub is_over : WebmDemuxer → Input → ℕ → Bool
is_over d input at =
    is_at d.segment_end at || (input.offset == at && length input.bytes == 0 && input.reaches_end)

unfoldable pub scan_from : Library → Input → Scan → Action WebmDemuxer DemuxProgress
scan_from lib input s = do
  set_scan s
  over ← read (λ d. is_over d input s.pos)
  if over
      then finish_scan
      else if not (input.offset == s.pos)
      then scan_need s.pos 32
      else lift (of_codec (header input.bytes)) >>= scan_header lib input s

unfoldable pub scan_step : Library → Input → Action WebmDemuxer DemuxProgress
scan_step lib input = do
  found ← read (λ d. d.scan)
  before ← lift (ok_or found panicked)
  scan_from lib input (leave_known before)
