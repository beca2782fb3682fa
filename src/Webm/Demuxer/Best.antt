-- ===== src/Webm/Demuxer/Best.antt =====
-- What a seek promises, in exact arithmetic, and that `pick` keeps it.
use zenextras.Prelude.{ℕ, ◌≤◌, ◌<◌, ◌^◌, Bool, true, false, List, ok, err, All, [], ◌∷◌}
use zenextras.Prelude.{
  ◌&&◌, ◌||◌, ◌==◌, ltb, ltb→lt, Bool-cases, ==→eq, &&-true, leb→le, le→leb, ◌≡◌, refl, ap, sym,
  ◌∙◌, ◌⊎◌, inl, inr, arith, subst, ◌≢◌,
}
use zenextras.Prelude.Int.{
  ℤ, pos, negsuc, times, abs, ◌-ℤ◌, ◌≤ℤ◌, ◌<ℤ◌, wrap_i128, abs_i128, ltb_ℤ, eqb_ℤ, pos_part,
  neg_part, by_parts,
}
use zenextras.Webm.Error.{no_such_frame}
use zenextras.Webm.Types.{TimeBase, codec}
use zenextras.Webm.Demuxer.State.{
  WebmDemuxer, SeekEntry, SeekTarget, SeekMode, nearest, at_or_before, at_or_after, unnamed_mode,
}
use zenextras.Webm.Demuxer.Picking.{value, nearer, pick}
use zenextras.Webm.Demuxer.Choice.{IsIn}
use zenextras.Webm.Demuxer.Chosen.{MayPick, eligible, better, pick-IsPicked}

-- `ticks` of the base `own`, in units that divide its tick and that of the base `other`: exact.
abbrev pub in_units : TimeBase → TimeBase → ℤ → ℤ
in_units own other ticks = times (times ticks own.numerator) other.denominator

module _ (d : WebmDemuxer) (target : SeekTarget) where
  abbrev pub time_of : SeekEntry → ℤ
  time_of e = in_units d.time_base target.time.base e.pts

  abbrev pub wanted_time : ℤ
  wanted_time = in_units target.time.base d.time_base target.time.ticks

  -- How far a block is from the time, either way.
  abbrev pub distance : SeekEntry → ℕ
  distance e = abs (time_of e -ℤ wanted_time)

  -- Which side of the time a mode allows.
  abbrev pub OnSide : SeekMode → SeekEntry → Type 0
  OnSide nearest e = Unit {0}
  OnSide at_or_before e = time_of e ≤ℤ wanted_time
  OnSide at_or_after e = wanted_time ≤ℤ time_of e
  OnSide unnamed_mode e = ⊥

  -- A block of the index that the target's track has, that is a keyframe where one is wanted, on the right side.
  pub record IsCandidate (mode : SeekMode) (e : SeekEntry) : Type 0 where
    pub listed : IsIn e d.index
    pub of_track : e.track ≡ target.track
    pub keyframe : (e.key ≡ true) ⊎ (target.any_scope ≡ true)
    pub side : OnSide mode e

  -- That `e` is as good as `c`: nearer, or as near and no later; later before the time; earlier behind it. Of two at
  -- the same time, the one that stands later, or earlier, in the file.
  abbrev pub AsGood : SeekMode → SeekEntry → SeekEntry → Type 0
  AsGood nearest e c = (distance e < distance c) ⊎ ((distance e ≡ distance c) × (e.pts ≤ℤ c.pts))
  AsGood at_or_before e c = (c.pts <ℤ e.pts) ⊎ ((c.pts ≡ e.pts) × (c.offset ≤ e.offset))
  AsGood at_or_after e c = (e.pts <ℤ c.pts) ⊎ ((e.pts ≡ c.pts) × (e.offset ≤ c.offset))
  AsGood unnamed_mode e c = ⊥

  abbrev pub IsBest : SeekMode → SeekEntry → Type 0
  IsBest mode e = IsCandidate mode e × ((c : SeekEntry) → IsCandidate mode c → AsGood mode e c)

-- A difference that an `i128` holds is exact there, and so is its absolute value.
wrap_i128-exact : (z : ℤ) → abs z < 2 ^ 127 → wrap_i128 z ≡ z
unfolding wrap_i128
wrap_i128-exact (pos n) h = ground (arith, h)
wrap_i128-exact (negsuc n) h = ground (arith, h)

abs_i128-exact : (z : ℤ) → abs z < 2 ^ 127 → abs_i128 z ≡ pos (abs z)
unfolding abs_i128 wrap_i128
abs_i128-exact (pos n) h = ap pos (omega arith)
abs_i128-exact (negsuc n) h = ground (arith, h)

within : (P : SeekEntry → Type 0) (es : List SeekEntry) (e : SeekEntry) → All P es → IsIn e es → P e
within P [] e all i = absurd i
within P (x ∷ es) e all (inl same) = subst P (sym same) all.0
within P (x ∷ es) e all (inr i) = within P es e all.1 i

||-cases : (a b : Bool) → (a || b) ≡ true → (a ≡ true) ⊎ (b ≡ true)
||-cases true b h = inl refl
||-cases false b h = inr h

either : (a b : Bool) → (a ≡ true) ⊎ (b ≡ true) → (a || b) ≡ true
either a b (inl h) = rw h refl
either true b (inr h) = refl
either false b (inr h) = h

-- What a comparison that does not hold says of two times, each with an offset or a distance.
not_earlier :
    (p q : ℤ) (o r : ℕ)
    → (ltb_ℤ p q || (eqb_ℤ p q && ltb o r)) ≡ false
    → (q <ℤ p) ⊎ ((q ≡ p) × (r ≤ o))
not_earlier p q o r h = elim (Bool-cases (ltb_ℤ q p)) [
  | inl after ↦ inl (ltb→lt _ _ after)
  | inr not_after ↦ inr (by_parts q p (ground (arith, h, not_after)), ground (arith, h, not_after))
]

not_nearer :
    (a b p q : ℤ) (m n : ℕ)
    → a ≡ pos m
    → b ≡ pos n
    → (ltb_ℤ a b || (eqb_ℤ a b && ltb_ℤ p q)) ≡ false
    → (n < m) ⊎ ((n ≡ m) × (q ≤ℤ p))
not_nearer a b p q m n a_same b_same h = elim (Bool-cases (ltb n m)) [
  | inl less ↦ inl (ltb→lt n m less)
  | inr not_less ↦ inr (
    ground (
      arith,
      h,
      not_less,
      ap pos_part a_same,
      ap neg_part a_same,
      ap pos_part b_same,
      ap neg_part b_same,
    ),
    ground (
      arith,
      h,
      not_less,
      ap pos_part a_same,
      ap neg_part a_same,
      ap pos_part b_same,
      ap neg_part b_same,
    ),
  )
]

module _ (d : WebmDemuxer) (target : SeekTarget) where
  side_tested :
      (mode : SeekMode) (e : SeekEntry)
      → eligible mode (time_of d target e) (wanted_time d target) ≡ true
      → OnSide d target mode e
  side_tested nearest e h = tt
  side_tested at_or_before e h = leb→le _ _ h
  side_tested at_or_after e h = leb→le _ _ h
  side_tested unnamed_mode e h = cc

  side_taken :
      (mode : SeekMode) (e : SeekEntry)
      → OnSide d target mode e
      → eligible mode (time_of d target e) (wanted_time d target) ≡ true
  side_taken nearest e h = refl
  side_taken at_or_before e h = le→leb _ _ h
  side_taken at_or_after e h = le→leb _ _ h
  side_taken unnamed_mode e h = absurd h

  MayPick-IsCandidate :
      (mode : SeekMode) (e : SeekEntry) → MayPick mode d target e → IsCandidate d target mode e
  MayPick-IsCandidate mode e (listed, allowed, side) =
      let (own, wanted) = &&-true (e.track == target.track) (e.key || target.any_scope) allowed in
      record {
        listed = listed;
        of_track = ==→eq e.track target.track own;
        keyframe = ||-cases e.key target.any_scope wanted;
        side = side_tested mode e side;
      }

  IsCandidate-MayPick :
      (mode : SeekMode) (e : SeekEntry) → IsCandidate d target mode e → MayPick mode d target e
  IsCandidate-MayPick mode e c =
      let own : (e.track == target.track) ≡ true = ground (arith, c.of_track) in
      (c.listed, rw (own, either e.key target.any_scope c.keyframe) refl, side_taken mode e c.side)

  -- The order that the code compares by, without its `i128`.
  nearer-AsGood :
      (e c : SeekEntry)
      → distance d target e < 2 ^ 127
      → distance d target c < 2 ^ 127
      → nearer (value d.time_base target.time.base) (wanted_time d target) c e ≡ false
      → AsGood d target nearest e c
  unfolding nearer
  nearer-AsGood e c small_e small_c h =
      not_nearer _ _ c.pts e.pts (distance d target c) (distance d target e)
        (exact_distance c small_c) (exact_distance e small_e) h
    where
      exact_distance :
          (x : SeekEntry)
          → distance d target x < 2 ^ 127
          → abs_i128 (wrap_i128 (value d.time_base target.time.base x.pts -ℤ wanted_time d target))
            ≡ pos (distance d target x)
      exact_distance x small =
          let difference = time_of d target x -ℤ wanted_time d target in
          ap abs_i128 (wrap_i128-exact difference small) ∙ abs_i128-exact difference small

  better-AsGood :
      (mode : SeekMode) (e c : SeekEntry)
      → distance d target e < 2 ^ 127
      → distance d target c < 2 ^ 127
      → mode ≢ unnamed_mode
      → better mode d target c e ≡ false
      → AsGood d target mode e c
  better-AsGood nearest e c small_e small_c named h = nearer-AsGood e c small_e small_c h
  better-AsGood at_or_before e c small_e small_c named h =
      not_earlier e.pts c.pts e.offset c.offset h
  better-AsGood at_or_after e c small_e small_c named h =
      not_earlier c.pts e.pts c.offset e.offset h
  better-AsGood unnamed_mode e c small_e small_c named h = absurd (named refl)

  -- In each of the three modes that the reader knows, a seek gives the best block of the index that the target's track
  -- has, that is a keyframe where one is wanted, and that is on the right side of the time: the nearest, the earlier of
  -- two as near; the latest at or before the time, the one further on in the file of two; the earliest at or after it,
  -- the one further up of two. It says that there is no such frame only if there is none. Times are compared exactly;
  -- the distance of every block from the time is below 2 ^ 127.
  pub pick-IsBest :
      target.mode ≢ unnamed_mode
      → All (λ (e : SeekEntry). distance d target e < 2 ^ 127) d.index
      → ((e : SeekEntry) × (pick d target ≡ ok e) × IsBest d target target.mode e)
        ⊎ ((pick d target ≡ err (codec no_such_frame))
            × ((c : SeekEntry) → ¬ IsCandidate d target target.mode c))
  pick-IsBest named small = elim (pick-IsPicked d target named) [
    | inl (e, answer, (may, best)) ↦ inl (
      e,
      answer,
      (
        MayPick-IsCandidate target.mode e may,
        λ c candidate.
            better-AsGood target.mode e c
              (within (λ x. distance d target x < 2 ^ 127) d.index e small may.0)
              (within (λ x. distance d target x < 2 ^ 127) d.index c small candidate.listed) named
              (best c (IsCandidate-MayPick target.mode c candidate)),
      ),
    )
    | inr (answer, nothing) ↦
        inr (answer, λ c candidate. nothing c (IsCandidate-MayPick target.mode c candidate))
  ]
