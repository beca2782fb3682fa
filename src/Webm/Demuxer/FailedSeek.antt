-- ===== src/Webm/Demuxer/FailedSeek.antt =====
-- A seek whose scan finds no block: what the reader is left in.
use zenextras.Prelude.{true, none, some, Option, [], Result, err, ok_or, ◌≡◌, refl, ap, ◌∙◌}
use zenextras.Webm.Types.{SessionError, panicked}
use zenextras.Webm.Action.{continue, continue-err}
use zenextras.Webm.Demuxer.State.{WebmDemuxer, SeekTarget, SeekEntry, Library, Input, scanning}
use zenextras.Webm.Demuxer.Picking.{pick}
use zenextras.Webm.Demuxer.Scanning.{answer_seek, resolve_seek, finish_scan, scan_step}
use zenextras.Webm.Demuxer.{dispatch, step}

-- The reader with its whole index, no scan, and no seek to answer.
abbrev pub completed : WebmDemuxer → WebmDemuxer
completed d = record d { index_complete = true; scan = none; pending_seek = none }

finish_scan-failed :
    (d : WebmDemuxer) (target : SeekTarget) (e : SessionError)
    → d.pending_seek ≡ some target
    → pick (completed d) target ≡ err e
    → finish_scan d ≡ (completed d, err e)
unfolding finish_scan resolve_seek answer_seek
finish_scan-failed d target e waiting failed =
    ap
      (λ (o : Option SeekTarget).
        continue (record d { index_complete = true; scan = none }, ok_or o panicked) answer_seek)
      waiting
    ∙ continue-err (completed d, pick (completed d) target) _
        (ap (λ (r : Result SessionError SeekEntry). (completed d, r)) failed)

-- A reader that scans without a scan ends the program.
step-panicked :
    (lib : Library) (d : WebmDemuxer) (input : Input)
    → d.state ≡ scanning
    → d.pending ≡ []
    → d.scan ≡ none
    → (step lib true input d).1 ≡ err panicked
unfolding step dispatch scan_step
step-panicked lib d input state idle over = rw (idle, state, over) refl

-- When a scan ends and no block satisfies the seek, the failure leaves the reader scanning with neither a scan nor a
-- seek, and the next step ends the program, on any input: the `expect` of `scan_step` has no value.
pub finish_scan-panicked :
    (lib : Library) (d : WebmDemuxer) (target : SeekTarget) (e : SessionError) (input : Input)
    → d.state ≡ scanning
    → d.pending ≡ []
    → d.pending_seek ≡ some target
    → pick (completed d) target ≡ err e
    → (finish_scan d ≡ (completed d, err e))
      × ((step lib true input (completed d)).1 ≡ err panicked)
finish_scan-panicked lib d target e input state idle waiting failed = (
  finish_scan-failed d target e waiting failed,
  step-panicked lib (completed d) input state idle refl,
)
