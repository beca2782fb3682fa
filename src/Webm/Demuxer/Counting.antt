-- ===== src/Webm/Demuxer/Counting.antt =====
-- A step of the scan keeps the numbers of the index right.
use zenextras.Prelude.{
  ℕ, ◌+◌, ◌^◌, Bool, true, not, Option, none, some, List, length, get_or, ltb, ◌==◌, ◌||◌,
}
use zenextras.Prelude.{if◌then◌else◌, Result, ok, err, ok_or, ok_or-eq-ok, refuse, ◌≡◌, refl, subst}
use zenextras.Prelude.{if-elim, sym}
use zenextras.Prelude.Bytes.{Bytes, slice}
use zenextras.Prelude.Int.{ℤ, add_u64}
use zenextras.Webm.Types.{SessionError, codec, limit, panicked}
use zenextras.Webm.Error.{
  truncated, unknown_size, undeclared_track, block_before_timestamp, timestamp_overflow,
}
use zenextras.Webm.Demuxer.Picking
use zenextras.Webm.Demuxer.Tracks.{of_codec}
use zenextras.Webm.Demuxer.Blocks.{add_i64, is_set}
use zenextras.Webm.Ebml.{Header, header, total, uint}
use zenextras.Webm.Ebml.Ids
use zenextras.Webm.Action.{Action, Ensures, lift-Ensures, continue-Ensures, continue, give}
use zenextras.Webm.Demuxer.State.{
  WebmDemuxer, SeekEntry, Scan, SeekTarget, Library, Input, DemuxProgress,
}
use zenextras.Webm.Demuxer.Heads.{position, BlockHead, read_head, scan_group}
use zenextras.Webm.Demuxer.Scanning.{
  scan_need, answer_seek, resolve_seek, finish_scan, leave_known, leave_unknown, advance, is_at,
  is_behind, known_end, frame_count, is_scanned, wanted,
}
use zenextras.Webm.Demuxer.Scanning.{
  scan_outside, record_block, record_timestamp, scan_body, move_on, scan_inside, scan_element,
  scan_in, scan_header, scan_from, scan_step, leave_in, is_over,
}
use zenextras.Webm.Demuxer.Ordinals.{Counted, IsCounted, bump-IsCounted, position-lt}

-- The index is right, and so is what a scan that runs has counted.
abbrev pub ScanSound : Option Scan → List ℕ → List SeekEntry → Type 0
ScanSound none numbers index = Counted (λ t. 0) index
ScanSound (some s) numbers index = IsCounted s.ordinals numbers index

abbrev pub Sound : WebmDemuxer → Type 0
Sound d = ScanSound d.scan d.numbers d.index

-- The reader that an action leaves is sound, whether it fails or not.
abbrev Keeps : {A : Type 0} → WebmDemuxer × Result SessionError A → Type 0
Keeps {A = A} = Ensures (λ _ d. Sound d) Sound

lift-Keeps :
    {A B : Type 0} (r : Result SessionError A) (d : WebmDemuxer) (next : A → Action WebmDemuxer B)
    → Sound d
    → ((a : A) → r ≡ ok a → Keeps (next a d))
    → Keeps (continue (d, r) next)
lift-Keeps r d next h rest = lift-Ensures (λ _ d. Sound d) Sound r d next h rest

scan_need-Keeps : (at len : ℕ) (d : WebmDemuxer) → Sound d → Keeps (scan_need at len d)
unfolding scan_need
scan_need-Keeps at len d h =
    lift-Keeps (refuse (is_behind d.total at) (codec truncated)) d _ h (λ _ _. h)

advance-Keeps :
    (s : Scan) (total : ℕ) (d : WebmDemuxer)
    → IsCounted s.ordinals d.numbers d.index
    → Keeps (advance s total d)
unfolding advance
advance-Keeps s total d h = scan_need-Keeps _ 32 _ h

answer_seek-Keeps :
    (target : SeekTarget) (d : WebmDemuxer)
    → d.scan ≡ none
    → Counted (λ t. 0) d.index
    → Keeps (answer_seek target d)
unfolding answer_seek Picking.position
answer_seek-Keeps target d over h =
    lift-Keeps (Picking.pick (record d { pending_seek = none }) target)
      (record d { pending_seek = none }) _ sound (λ e _. sound)
  where
    sound : Sound d
    sound = subst (λ (o : Option Scan). ScanSound o d.numbers d.index) (sym over) h

finish_scan-Keeps : (d : WebmDemuxer) → Counted (λ t. 0) d.index → Keeps (finish_scan d)
unfolding finish_scan resolve_seek
finish_scan-Keeps d h =
    lift-Keeps (ok_or d.pending_seek panicked) (record d { index_complete = true; scan = none }) _ h
      (λ target _.
        answer_seek-Keeps target (record d { index_complete = true; scan = none }) refl h)

scan_outside-Keeps :
    (s : Scan) (h : Header) (d : WebmDemuxer)
    → Sound d
    → IsCounted s.ordinals d.numbers d.index
    → Keeps (scan_outside s h d)
unfolding scan_outside
scan_outside-Keeps s h d sound c =
    if-elim (λ (act : Action WebmDemuxer DemuxProgress). Keeps (act d)) (h.id == Ids.cluster)
      (λ _.
        scan_need-Keeps (add_u64 s.pos h.len) 32
          (record d {
            scan = some (record s {
              cluster = some (known_end (add_u64 s.pos h.len) h.size, none);
              pos = add_u64 s.pos h.len;
            });
          })
          c)
      (λ _.
        if-elim (λ (act : Action WebmDemuxer DemuxProgress). Keeps (act d))
          (h.id == Ids.ebml || h.id == Ids.segment) (λ _. finish_scan-Keeps d c.entries)
          (λ _.
            lift-Keeps (ok_or (total h) (codec unknown_size)) d _ sound
              (λ t _. advance-Keeps s t d c)))

record_block-Keeps :
    (lib : Library) (s : Scan) (cluster_end : Option ℕ) (cluster_ts : Option ℤ) (head : Bytes)
    (key : Option Bool) (d : WebmDemuxer)
    → Sound d
    → IsCounted s.ordinals d.numbers d.index
    → Keeps (record_block lib s cluster_end cluster_ts head key d)
unfolding record_block
record_block-Keeps lib s cluster_end cluster_ts head key d h c =
    lift-Keeps (read_head head) d _ h (λ block _.
      lift-Keeps (frame_count head block) d _ h (λ frames _.
        lift-Keeps (ok_or (position block.number d.numbers) (codec undeclared_track)) d _ h
          (λ track known.
            lift-Keeps (ok_or cluster_ts (codec block_before_timestamp)) d _ h (λ base _.
              lift-Keeps (ok_or (add_i64 base block.rel) (codec timestamp_overflow)) d _ h (λ pts _.
                lift-Keeps (refuse (not (lib.check_table_entries (length d.index + 1))) limit) d _ h
                  (λ _ _.
                    bump-IsCounted s.ordinals d.numbers d.index (entry block track base pts frames)
                      c (position-lt block.number d.numbers (ok_or-eq-ok _ _ known)) refl))))))
  where
    entry : BlockHead → ℕ → ℤ → ℤ → ℕ → SeekEntry
    entry block track base pts frames = record {
      offset = s.pos;
      cluster_end = cluster_end;
      cluster_ts = base;
      track = track;
      pts = pts;
      key = elim key [ none ↦ is_set block.flags 0x80 | some key ↦ key ];
      ordinal = get_or s.ordinals track 0;
      frames = frames;
    }

scan_body-Keeps :
    (lib : Library) (s : Scan) (cluster_end : Option ℕ) (cluster_ts : Option ℤ) (id : ℕ)
    (body : Bytes) (d : WebmDemuxer)
    → Sound d
    → IsCounted s.ordinals d.numbers d.index
    → Keeps (scan_body lib s cluster_end cluster_ts id body d)
unfolding scan_body record_timestamp
scan_body-Keeps lib s cluster_end cluster_ts id body d h c =
    if-elim (λ (act : Action WebmDemuxer (Unit {0})). Keeps (act d)) (id == Ids.timestamp)
      (λ _. lift-Keeps (of_codec (uint body)) d _ h (λ ts _.
        lift-Keeps (refuse (not (ltb ts (2 ^ 63))) (codec timestamp_overflow)) d _ h (λ _ _. c)))
      (λ _.
        if-elim (λ (act : Action WebmDemuxer (Unit {0})). Keeps (act d)) (id == Ids.simple_block)
          (λ _. record_block-Keeps lib s cluster_end cluster_ts body none d h c)
          (λ _. lift-Keeps (scan_group body) d _ h (λ group _.
            record_block-Keeps lib s cluster_end cluster_ts group.0 (some group.1) d h c)))

move_on-Keeps : (total : ℕ) (d : WebmDemuxer) → Sound d → Keeps (move_on total d)
unfolding move_on
move_on-Keeps total d h = lift-Keeps (ok_or d.scan panicked) d _ h (λ s found.
    advance-Keeps s total d
      (subst (λ (o : Option Scan). ScanSound o d.numbers d.index) (ok_or-eq-ok _ _ found) h))

scan_inside-Keeps :
    (lib : Library) (input : Input) (s : Scan) (cluster_end : Option ℕ) (cluster_ts : Option ℤ)
    (h : Header) (d : WebmDemuxer)
    → Sound d
    → IsCounted s.ordinals d.numbers d.index
    → Keeps (scan_inside lib input s cluster_end cluster_ts h d)
unfolding scan_inside
scan_inside-Keeps lib input s cluster_end cluster_ts h d sound c =
    lift-Keeps (ok_or (total h) (codec unknown_size)) d _ sound (λ t _.
      lift-Keeps (if is_scanned h.id then wanted lib h t else ok 0) d _ sound (λ want _.
        if-elim (λ (act : Action WebmDemuxer DemuxProgress). Keeps (act d))
          (ltb (length input.bytes) want)
          (λ _.
            if-elim (λ (act : Action WebmDemuxer DemuxProgress). Keeps (act d)) input.reaches_end
              (λ _. sound) (λ _. scan_need-Keeps s.pos want d sound))
          (λ _.
            continue-Ensures (λ _ d. Sound d) (λ _ d. Sound d) Sound
              ((if is_scanned h.id
                  then scan_body lib s cluster_end cluster_ts h.id (slice h.len want input.bytes)
                  else give tt)
                d)
              _
              (if-elim (λ (act : Action WebmDemuxer (Unit {0})). Keeps (act d)) (is_scanned h.id)
                (λ _.
                  scan_body-Keeps lib s cluster_end cluster_ts h.id (slice h.len want input.bytes) d
                    sound c)
                (λ _. sound))
              (λ _ m found. move_on-Keeps t m found))))

left_unknown :
    (s : Scan) (id : ℕ) (numbers : List ℕ) (index : List SeekEntry)
    → IsCounted s.ordinals numbers index
    → IsCounted (leave_unknown s id).ordinals numbers index
left_unknown s id numbers index c =
    if-elim (λ (s : Scan). IsCounted s.ordinals numbers index) (Ids.is_top_level id) (λ _. c)
      (λ _. c)

left_known :
    (s : Scan) (numbers : List ℕ) (index : List SeekEntry)
    → IsCounted s.ordinals numbers index
    → IsCounted (leave_known s).ordinals numbers index
left_known s numbers index c = by_cluster s.cluster
  where
    by_cluster :
        (o : Option (Option ℕ × Option ℤ)) → IsCounted (leave_in s o).ordinals numbers index
    by_cluster none = c
    by_cluster (some (end, ts)) =
        if-elim (λ (s : Scan). IsCounted s.ordinals numbers index) (is_at end s.pos) (λ _. c)
          (λ _. c)

scan_in-Keeps :
    (lib : Library) (input : Input) (s : Scan) (h : Header) (o : Option (Option ℕ × Option ℤ))
    (d : WebmDemuxer)
    → Sound d
    → IsCounted s.ordinals d.numbers d.index
    → Keeps (scan_in lib input s h o d)
scan_in-Keeps lib input s h none d sound c = scan_outside-Keeps s h d sound c
scan_in-Keeps lib input s h (some (end, ts)) d sound c =
    scan_inside-Keeps lib input s end ts h d sound c

scan_header-Keeps :
    (lib : Library) (input : Input) (s : Scan) (o : Option Header) (d : WebmDemuxer)
    → Sound d
    → IsCounted s.ordinals d.numbers d.index
    → Keeps (scan_header lib input s o d)
unfolding scan_element
scan_header-Keeps lib input s none d sound c =
    if-elim (λ (act : Action WebmDemuxer DemuxProgress). Keeps (act d)) input.reaches_end
      (λ _. sound) (λ _. scan_need-Keeps s.pos 32 d sound)
scan_header-Keeps lib input s (some h) d sound c =
    let left = left_unknown s h.id d.numbers d.index c in
    scan_in-Keeps lib input (leave_unknown s h.id) h (leave_unknown s h.id).cluster
      (record d { scan = some (leave_unknown s h.id) }) left left

scan_from-Keeps :
    (lib : Library) (input : Input) (s : Scan) (d : WebmDemuxer)
    → IsCounted s.ordinals d.numbers d.index
    → Keeps (scan_from lib input s d)
unfolding scan_from
scan_from-Keeps lib input s d c =
    if-elim (λ (act : Action WebmDemuxer DemuxProgress). Keeps (act at_scan))
      (is_over at_scan input s.pos) (λ _. finish_scan-Keeps at_scan c.entries)
      (λ _.
        if-elim (λ (act : Action WebmDemuxer DemuxProgress). Keeps (act at_scan))
          (not (input.offset == s.pos)) (λ _. scan_need-Keeps s.pos 32 at_scan c)
          (λ _.
            lift-Keeps (of_codec (header input.bytes)) at_scan _ c
              (λ o _. scan_header-Keeps lib input s o at_scan c c)))
  where
    at_scan : WebmDemuxer
    at_scan = record d { scan = some s }

left-Sound : {A : Type 0} (r : WebmDemuxer × Result SessionError A) → Keeps r → Sound r.0
left-Sound (d, ok a) h = h
left-Sound (d, err e) h = h

-- A step of a scan keeps the index right: every entry has the number of frames of its track that lie before it, and the
-- scan has counted the frames of each track so far. It does so on every input, also where it fails, ends the scan, and
-- answers the seek.
pub scan_step-Sound :
    (lib : Library) (input : Input) (d : WebmDemuxer) → Sound d → Sound (scan_step lib input d).0
unfolding scan_step
scan_step-Sound lib input d h = left-Sound (scan_step lib input d) (
    lift-Keeps (ok_or d.scan panicked) d _ h (λ s found.
      scan_from-Keeps lib input (leave_known s) d (
        left_known s d.numbers d.index
          (subst (λ (o : Option Scan). ScanSound o d.numbers d.index) (ok_or-eq-ok _ _ found) h))))
