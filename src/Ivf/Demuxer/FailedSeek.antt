-- ===== src/Ivf/Demuxer/FailedSeek.antt =====
-- A seek whose scan finds no frame: what the reader is left in.
use zenextras.Prelude.{
  ℕ, ◌≤◌, true, none, some, leb, le→leb, ok, err, Result, Option, [], ◌>>=◌, ◌≡◌, refl, ap, ◌∙◌,
}
use zenextras.Ivf.Types.{SessionError, panicked}
use zenextras.Ivf.Reading.{scanning, IvfDemuxer, Input, SeekTarget}
use zenextras.Ivf.Reading.{seeked, IndexEntry, Outcome, Library}
use zenextras.Ivf.Seeking.{pick, position, finish_scan, scan}
use zenextras.Ivf.Demuxer.{step}
use zenextras.Ivf.Demuxer.Steps.{step-scan}

-- The reader with its whole index, and no seek to answer.
abbrev pub completed : IvfDemuxer → IvfDemuxer
completed d = record d { index_complete = true; pending_seek = none }

finish_scan-failed :
    (d : IvfDemuxer) (consumed : ℕ) (target : SeekTarget) (e : SessionError)
    → d.pending_seek ≡ some target
    → pick (completed d) target ≡ err e
    → finish_scan d consumed ≡ (completed d, err e)
unfolding finish_scan
finish_scan-failed d consumed target e waiting failed =
    ap (λ (o : Option SeekTarget). on_seek o) waiting
    ∙ ap (λ (r : Result SessionError IndexEntry). on_pick r) failed
  where
    on_pick : Result SessionError IndexEntry → Outcome
    on_pick r = elim r [
      | err e ↦ (completed d, err e)
      | ok entry ↦
          let (moved, r) = position (completed d) entry in
          (moved, r >>= λ s. ok (consumed, seeked s))
    ]

    on_seek : Option SeekTarget → Outcome
    on_seek o = elim o [
      | none ↦ (completed d, err panicked)
      | some target ↦ on_pick (pick (completed d) target)
    ]

finish_scan-unasked :
    (d : IvfDemuxer) (consumed : ℕ)
    → d.pending_seek ≡ none
    → (finish_scan d consumed).1 ≡ err panicked
unfolding finish_scan
finish_scan-unasked d consumed e = rw e refl

-- The end of the scan, by the length that the input gives.
scan_known :
    (lib : Library) (d : IvfDemuxer) (input : Input) (total : ℕ)
    → leb total d.scan_pos ≡ true
    → input.total_len ≡ some total
    → scan lib d input ≡ finish_scan d 0
unfolding scan
scan_known lib d input total past len = rw (scan, len, past) refl

scan_over :
    (lib : Library) (d : IvfDemuxer) (input : Input) (total : ℕ)
    → input.total_len ≡ some total
    → total ≤ d.scan_pos
    → scan lib d input ≡ finish_scan d 0
unfolding scan
scan_over lib d input total len over =
    let past : leb total d.scan_pos ≡ true = le→leb total d.scan_pos over in
    scan_known lib d input total past len

-- When a scan ends and no frame satisfies the seek, the failure leaves the reader scanning with no seek to answer, and
-- the next step on the same input, whose length is known, ends the program: the `expect` of `finish_scan` has no value.
pub finish_scan-step :
    (lib : Library) (d : IvfDemuxer) (input : Input) (consumed total : ℕ) (target : SeekTarget)
    (e : SessionError)
    → d.state ≡ scanning
    → d.pending_seek ≡ some target
    → pick (completed d) target ≡ err e
    → input.total_len ≡ some total
    → total ≤ d.scan_pos
    → (finish_scan d consumed ≡ (completed d, err e))
      × ((step lib true (completed d) input).1 ≡ err panicked)
finish_scan-step lib d input consumed total target e state waiting failed len over = (
  finish_scan-failed d consumed target e waiting failed,
  ap (λ (o : Outcome). o.1)
        (step-scan lib (completed d) input state
          ∙ scan_over lib (record (completed d) { requests = [] }) input total len over)
      ∙ finish_scan-unasked (record (completed d) { requests = [] }) 0 refl,
)
