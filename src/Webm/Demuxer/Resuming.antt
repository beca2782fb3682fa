-- ===== src/Webm/Demuxer/Resuming.antt =====
-- Where a seek leaves the counts of the tracks, and what a seek does to the counts of a scan.
use zenextras.Prelude.{ℕ, zero, suc, ◌+◌, ◌<◌, ◌≤◌, List, [], ◌∷◌, ◌++◌, All}
use zenextras.Prelude.{
  length, get_or, replicate, length-replicate, le→leb, ◌==◌, ==→eq, ◌≡◌, refl, ap, sym, ◌∙◌, arith,
  subst,
}
use zenextras.Prelude.{Bool-cases, inl, inr}
use zenextras.Webm.Demuxer.State.{WebmDemuxer, SeekEntry, SeekTarget}
use zenextras.Webm.Demuxer.Picking.{ordinal_at, resume, position}
use zenextras.Webm.Demuxer.Ordinals.{frames_if, frames_in, Counted, Counted-at, IsCounted}
use zenextras.Webm.Demuxer.Counting.{Sound}
use zenextras.Webm.Demuxer.Seeks.{begin_scan}

module _ (t offset : ℕ) where
  -- Behind the offset, the first entry of the track has the count; without one, nothing was added to it.
  behind-ordinal_at :
      (es : List SeekEntry) (seen : ℕ → ℕ)
      → All (λ (e : SeekEntry). offset ≤ e.offset) es
      → Counted seen es
      → ordinal_at t offset es (seen t) ≡ seen t
  unfolding ordinal_at
  behind-ordinal_at [] seen far c = refl
  behind-ordinal_at (e ∷ es) seen far c = elim (Bool-cases (e.track == t)) [
    | inl own ↦ rw (own, le→leb offset e.offset far.0) (c.0 ∙ ap seen (==→eq e.track t own))
    | inr other ↦
        let same : seen t ≡ seen t + frames_if t e = ground (arith, other) in
        let rest = behind-ordinal_at es (λ t. seen t + frames_if t e) far.1 c.1 in
        rw other (ap (ordinal_at t offset es) same ∙ rest ∙ sym same)
  ]

  -- In front of the offset, the frames of the track are added up.
  before-ordinal_at :
      (before : List SeekEntry) (after : List SeekEntry) (seen : ℕ → ℕ)
      → All (λ (e : SeekEntry). e.offset < offset) before
      → All (λ (e : SeekEntry). offset ≤ e.offset) after
      → Counted seen (before ++ after)
      → ordinal_at t offset (before ++ after) (seen t) ≡ seen t + frames_in t before
  unfolding ordinal_at frames_in
  before-ordinal_at [] after seen near far c = behind-ordinal_at after seen far c ∙ omega arith
  before-ordinal_at (e ∷ before) after seen near far c =
      let rest = before-ordinal_at before after (λ t. seen t + frames_if t e) near.1 far c.1 in
      grind (arith, rest, near.0)

resumed :
    (index : List SeekEntry) (offset first t : ℕ) (os : List ℕ)
    → t < length os
    → get_or (resume index offset first os) t 0 ≡ ordinal_at (first + t) offset index 0
unfolding resume
resumed index offset first t [] h = absurd (omega arith)
resumed index offset first zero (o ∷ os) h =
    ap (λ (n : ℕ). ordinal_at n offset index 0) (omega arith)
resumed index offset first (suc t) (o ∷ os) h =
    resumed index offset (first + 1) t os (omega arith)
    ∙ ap (λ (n : ℕ). ordinal_at n offset index 0) (omega arith)

-- Where an index with the right numbers is in the order of the offsets, resuming at one of its entries sets the number
-- of every track to its frames in front of that entry, and answers with the number of the entry's own.
pub position-frames_in :
    (d : WebmDemuxer) (before : List SeekEntry) (e : SeekEntry) (after : List SeekEntry) (t : ℕ)
    → d.index ≡ before ++ (e ∷ after)
    → Counted (λ t. 0) d.index
    → All (λ (x : SeekEntry). x.offset < e.offset) before
    → All (λ (x : SeekEntry). e.offset ≤ x.offset) after
    → t < length d.ordinals
    → (get_or (position d e).0.ordinals t 0 ≡ frames_in t before)
      × ((position d e).1.ordinal ≡ frames_in e.track before)
unfolding position
position-frames_in d before e after t split counted near far known =
    let own : 0 + t ≡ t = omega arith in
    (
      resumed d.index e.offset 0 t d.ordinals known
          ∙ ap (λ (es : List SeekEntry). ordinal_at (0 + t) e.offset es 0) split
          ∙ before-ordinal_at (0 + t) e.offset before (e ∷ after) (λ t. 0) near (omega arith, far)
              whole
          ∙ ap (λ (n : ℕ). 0 + frames_in n before) own
          ∙ omega arith,
      Counted-at before (λ t. 0) e after whole ∙ omega arith,
    )
  where
    whole : Counted (λ t. 0) (before ++ (e ∷ after))
    whole = subst (Counted (λ t. 0)) split counted

pub get_or-zeros : (n t : ℕ) → get_or {A = ℕ} (replicate n 0) t 0 ≡ 0
get_or-zeros zero t = refl
get_or-zeros (suc n) zero = refl
get_or-zeros (suc n) (suc t) = get_or-zeros n t

-- A scan that begins while there is no index has its counts right.
pub begin_scan-Sound :
    (d : WebmDemuxer) (target : SeekTarget)
    → d.index ≡ []
    → length d.tracks ≡ length d.numbers
    → Sound (begin_scan target d)
unfolding begin_scan frames_in
begin_scan-Sound d target none_yet same =
    subst (IsCounted (replicate (length d.tracks) 0) d.numbers) (sym none_yet) (record {
      entries = tt;
      next = get_or-zeros (length d.tracks);
      room = length-replicate (length d.tracks) 0 ∙ same;
    })

-- A seek that begins a scan anew over an index that has entries leaves the counts of the scan wrong: it starts them at 0
-- and keeps the entries.
pub begin_scan-not-Sound :
    (d : WebmDemuxer) (target : SeekTarget) (e : SeekEntry) (es : List SeekEntry)
    → d.index ≡ e ∷ es
    → 0 < e.frames
    → ¬ Sound (begin_scan target d)
unfolding begin_scan
begin_scan-not-Sound d target e es some_yet filled sound =
    let counts = sound.next e.track in
    let has : frames_in e.track d.index ≡ frames_if e.track e + frames_in e.track es =
      ap (frames_in e.track) some_yet ∙ unfold frames_in in refl in
    grind (arith, counts, has, get_or-zeros (length d.tracks) e.track)
