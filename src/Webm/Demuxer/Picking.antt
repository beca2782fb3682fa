-- ===== src/Webm/Demuxer/Picking.antt =====
-- zenwebm/src/demux.rs: the block that a seek chooses, and the reader moved there.
use zenextras.Prelude.{ℕ, ◌+◌, not, ◌&&◌, ◌||◌}
use zenextras.Prelude.{Bool, Option, none, some, List, [], ◌∷◌, ltb, leb, ◌==◌}
use zenextras.Prelude.{if◌then◌else◌, Result, ok, err, ok_or}
use zenextras.Prelude.Int.{ℤ, ◌-ℤ◌, times, wrap_i128, abs_i128, ltb_ℤ, leb_ℤ, eqb_ℤ}
use zenextras.Webm.Error.{no_such_frame}
use zenextras.Webm.Types.{SessionError, codec, unsupported_seek, TimeBase, yes_random, no_random}
use zenextras.Webm.Demuxer.State.{WebmDemuxer, SeekEntry, SeekTarget, SeekMode, nearest}
use zenextras.Webm.Demuxer.State.{at_or_before, at_or_after, unnamed_mode, SeekResult, in_body}

-- A time in the ticks of the other base times both denominators: an `i128`.
abbrev pub value : TimeBase → TimeBase → ℤ → ℤ
value own theirs ticks = times (times ticks own.numerator) theirs.denominator

unfoldable pub candidates : WebmDemuxer → SeekTarget → List SeekEntry → List SeekEntry
candidates d target [] = []
candidates d target (e ∷ es) =
    if e.track == target.track && (e.key || target.any_scope)
    then e ∷ candidates d target es
    else candidates d target es

-- `Iterator::filter`
unfoldable pub kept : (SeekEntry → Bool) → List SeekEntry → List SeekEntry
kept test [] = []
kept test (e ∷ es) = if test e then e ∷ kept test es else kept test es

-- `a` is strictly before `b`.
abbrev pub earlier : SeekEntry → SeekEntry → Bool
earlier a b = ltb_ℤ a.pts b.pts || (eqb_ℤ a.pts b.pts && ltb a.offset b.offset)

-- `a` is strictly nearer to the time than `b`, or as near and strictly earlier.
unfoldable pub nearer : (ℤ → ℤ) → ℤ → SeekEntry → SeekEntry → Bool
nearer value want a b =
    let da = abs_i128 (wrap_i128 (value a.pts -ℤ want)) in
    let db = abs_i128 (wrap_i128 (value b.pts -ℤ want)) in
    ltb_ℤ da db || (eqb_ℤ da db && ltb_ℤ a.pts b.pts)

-- The first of the least entries: `min_by` and `min_by_key`.
unfoldable pub least_from : (SeekEntry → SeekEntry → Bool) → SeekEntry → List SeekEntry → SeekEntry
least_from less best [] = best
least_from less best (e ∷ es) = least_from less (if less e best then e else best) es

-- The last of the greatest entries: `max_by_key`.
unfoldable pub greatest_from :
    (SeekEntry → SeekEntry → Bool) → SeekEntry → List SeekEntry → SeekEntry
greatest_from less best [] = best
greatest_from less best (e ∷ es) = greatest_from less (if less e best then best else e) es

abbrev pub least : (SeekEntry → SeekEntry → Bool) → List SeekEntry → Option SeekEntry
least less [] = none
least less (e ∷ es) = some (least_from less e es)

abbrev pub greatest : (SeekEntry → SeekEntry → Bool) → List SeekEntry → Option SeekEntry
greatest less [] = none
greatest less (e ∷ es) = some (greatest_from less e es)

unfoldable pub choose :
    SeekMode → (ℤ → ℤ) → ℤ → List SeekEntry → Result SessionError (Option SeekEntry)
choose nearest value want es = ok (least (nearer value want) es)
choose at_or_before value want es = ok (greatest earlier (kept (λ e. leb_ℤ (value e.pts) want) es))
choose at_or_after value want es = ok (least earlier (kept (λ e. leb_ℤ want (value e.pts)) es))
choose unnamed_mode value want es = err unsupported_seek

abbrev pub or_no_frame : Result SessionError (Option SeekEntry) → Result SessionError SeekEntry
or_no_frame (ok chosen) = ok_or chosen (codec no_such_frame)
or_no_frame (err e) = err e

unfoldable pub pick : WebmDemuxer → SeekTarget → Result SessionError SeekEntry
pick d target = or_no_frame (
    choose target.mode (value d.time_base target.time.base)
      (value target.time.base d.time_base target.time.ticks) (candidates d target d.index))

-- The ordinal of a track's first block at or behind an offset, or how many frames it has.
unfoldable pub ordinal_at : ℕ → ℕ → List SeekEntry → ℕ → ℕ
ordinal_at t offset [] frames = frames
ordinal_at t offset (e ∷ es) frames =
    if not (e.track == t)
    then ordinal_at t offset es frames
    else if leb offset e.offset
    then e.ordinal
    else ordinal_at t offset es (frames + e.frames)

-- Every track's count, from track `t` on.
unfoldable pub resume : List SeekEntry → ℕ → ℕ → List ℕ → List ℕ
resume index offset t [] = []
resume index offset t (_ ∷ os) = ordinal_at t offset index 0 ∷ resume index offset (t + 1) os

unfoldable pub position : WebmDemuxer → SeekEntry → WebmDemuxer × SeekResult
position d e = (
  record d {
    pos = e.offset;
    cluster = some (record { end = e.cluster_end; timestamp = some e.cluster_ts });
    pending = [];
    ordinals = resume d.index e.offset 0 d.ordinals;
    state = in_body;
  },
  record {
    time = record { ticks = e.pts; base = d.time_base };
    ordinal = e.ordinal;
    random_access = if e.key then yes_random else no_random;
  },
)
