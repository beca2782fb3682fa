-- ===== src/Ivf/Demuxer.antt =====
-- zenivf/src/lib.rs, `impl Demuxer for IvfDemuxer`: the steps and the seeks.
pub mod Branches
pub mod Steps
pub mod Index
pub mod Count
pub mod FailedSeek
use zenextras.Prelude.{
  ℕ, Bool, true, false, not, Option, none, some, [], ◌==◌, if◌then◌else◌, Result, ok, err,
}
use zenextras.Prelude.{◌>>=◌}
use zenextras.Ivf.Types.{
  headers_first, no_such_track, SessionError, codec, unsupported_seek, interrupted,
}
use zenextras.Ivf.Reading.{
  State, in_header, in_packets, scanning, done, IvfDemuxer, Input, SeekTarget, SeekResult,
}
use zenextras.Ivf.Reading.{need, all_done, Outcome, Library, header, packet}
use zenextras.Ivf.Seeking.{pick, position, scan}

-- The pulse is asked before the requests are cleared.
unfoldable pub step : Library → Bool → IvfDemuxer → Input → Outcome
step lib pulse d input =
    let cleared = record d { requests = [] } in
    if not pulse then (d, err interrupted) else elim d.state [
      | in_header ↦ header lib cleared input
      | in_packets ↦ packet lib cleared input
      | scanning ↦ scan lib cleared input
      | done ↦ (cleared, ok (0, all_done))
    ]

pub data AccessPattern : Type 0 where
  random_access sequential : AccessPattern

unfoldable pub access_pattern : IvfDemuxer → AccessPattern
access_pattern d = elim d.state [ scanning ↦ random_access | _ ↦ sequential ]

pub data SeekStatus : Type 0 where
  positioned : SeekResult → SeekStatus
  is_scanning : SeekStatus

unfoldable pub is_in_header : State → Bool
is_in_header in_header = true
is_in_header _ = false

unfoldable pub seek : IvfDemuxer → SeekTarget → IvfDemuxer × Result SessionError SeekStatus
seek d target =
    if is_in_header d.state
    then (d, err (codec headers_first))
    else if not (target.track == 0)
    then (d, err (codec no_such_track))
    else if not target.any_scope
    then (d, err unsupported_seek)
    else if d.index_complete
    then elim (pick d target) [
      | err e ↦ (d, err e)
      | ok e ↦ let (moved, r) = position d e in (moved, r >>= λ s. ok (positioned s))
    ]
    else (record d { pending_seek = some target; state = scanning }, ok is_scanning)
