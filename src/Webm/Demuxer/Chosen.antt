-- ===== src/Webm/Demuxer/Chosen.antt =====
-- The answer of `pick`, in every mode, by the comparisons that it makes.
use zenextras.Prelude.{
  Bool, true, false, ◌&&◌, ◌||◌, none, some, List, [], ◌∷◌, ◌==◌, ok, err, Result,
}
use zenextras.Prelude.{if◌then◌else◌, ◌≡◌, refl, ap, sym, ◌∙◌, ◌⊎◌, inl, inr, ◌≢◌}
use zenextras.Prelude.Int.{ℤ, leb_ℤ}
use zenextras.Webm.Error.{no_such_frame}
use zenextras.Webm.Types.{SessionError, codec}
use zenextras.Webm.Demuxer.State.{
  WebmDemuxer, SeekEntry, SeekTarget, SeekMode, nearest, at_or_before, at_or_after, unnamed_mode,
}
use zenextras.Webm.Demuxer.Picking.{
  value, candidates, kept, earlier, nearer, least_from, greatest_from, least, greatest,
}
use zenextras.Webm.Demuxer.Picking.{choose, pick, or_no_frame}
use zenextras.Webm.Demuxer.Choice.{
  IsIn, Less, IsOrder, IsLeast, IsGreatest, least_from-IsLeast, greatest_from-IsGreatest,
}
use zenextras.Webm.Demuxer.Choice.{earlier-IsOrder, nearer-IsOrder}

kept-IsIn :
    (es : List SeekEntry) (test : SeekEntry → Bool) (c : SeekEntry)
    → IsIn c (kept test es)
    → IsIn c es × (test c ≡ true)
unfolding kept
kept-IsIn [] test c i = absurd i
kept-IsIn (e ∷ es) test c i = by_test (test e) refl i (kept-IsIn es test c)
  where
    by_test :
        (b : Bool)
        → test e ≡ b
        → IsIn c (if b then e ∷ kept test es else kept test es)
        → (IsIn c (kept test es) → IsIn c es × (test c ≡ true))
        → IsIn c (e ∷ es) × (test c ≡ true)
    by_test true t (inl x) rest = (inl x, ap test x ∙ t)
    by_test true t (inr x) rest = let (i, k) = rest x in (inr i, k)
    by_test false f i rest = let (j, k) = rest i in (inr j, k)

IsIn-kept :
    (es : List SeekEntry) (test : SeekEntry → Bool) (c : SeekEntry)
    → IsIn c es
    → test c ≡ true
    → IsIn c (kept test es)
unfolding kept
IsIn-kept [] test c i t = absurd i
IsIn-kept (e ∷ es) test c i t = by_test (test e) refl i (λ j. IsIn-kept es test c j t)
  where
    by_test :
        (b : Bool)
        → test e ≡ b
        → IsIn c (e ∷ es)
        → (IsIn c es → IsIn c (kept test es))
        → IsIn c (if b then e ∷ kept test es else kept test es)
    by_test true k (inl x) rest = inl x
    by_test true k (inr x) rest = inr (rest x)
    by_test false k (inl x) rest = absurd_false (sym (ap test x ∙ k) ∙ t)
      where
        absurd_false : ◌≡◌ {A = Bool} false true → IsIn c (kept test es)
        absurd_false e = cc
    by_test false k (inr x) rest = rest x

-- A block that the target's track has, and that is a keyframe where the seek wants one.
abbrev pub is_allowed : SeekTarget → SeekEntry → Bool
is_allowed target e = e.track == target.track && (e.key || target.any_scope)

candidates-kept :
    (d : WebmDemuxer) (target : SeekTarget) (es : List SeekEntry)
    → candidates d target es ≡ kept (is_allowed target) es
unfolding candidates kept
candidates-kept d target [] = refl
candidates-kept d target (e ∷ es) = rw (candidates-kept d target es)

-- The times of blocks and of the target, in a common unit.
abbrev pub block_time : WebmDemuxer → SeekTarget → SeekEntry → ℤ
block_time d target e = value d.time_base target.time.base e.pts

abbrev pub target_time : WebmDemuxer → SeekTarget → ℤ
target_time d target = value target.time.base d.time_base target.time.ticks

-- What may be chosen in a mode, and that `a` is a better choice than `b`.
abbrev pub eligible : SeekMode → ℤ → ℤ → Bool
eligible nearest at want = true
eligible at_or_before at want = leb_ℤ at want
eligible at_or_after at want = leb_ℤ want at
eligible unnamed_mode at want = false

abbrev pub better : SeekMode → WebmDemuxer → SeekTarget → SeekEntry → SeekEntry → Bool
better nearest d target a b = nearer (value d.time_base target.time.base) (target_time d target) a b
better at_or_before d target a b = earlier b a
better at_or_after d target a b = earlier a b
better unnamed_mode d target a b = false

abbrev pub MayPick : SeekMode → WebmDemuxer → SeekTarget → SeekEntry → Type 0
MayPick mode d target e =
    IsIn e d.index
    × (is_allowed target e ≡ true)
    × (eligible mode (block_time d target e) (target_time d target) ≡ true)

abbrev pub IsPicked : SeekMode → WebmDemuxer → SeekTarget → SeekEntry → Type 0
IsPicked mode d target e =
    MayPick mode d target e
    × ((c : SeekEntry) → MayPick mode d target c → better mode d target c e ≡ false)

least-answer :
    (less : Less) (es : List SeekEntry)
    → IsOrder less
    → ((r : SeekEntry) × (least less es ≡ some r) × IsLeast less r es)
      ⊎ ((least less es ≡ none) × ((c : SeekEntry) → ¬ IsIn c es))
least-answer less [] o = inr (refl, λ c i. i)
least-answer less (e ∷ es) o = inl (least_from less e es, refl, least_from-IsLeast es less e o)

greatest-answer :
    (less : Less) (es : List SeekEntry)
    → IsOrder less
    → ((r : SeekEntry) × (greatest less es ≡ some r) × IsGreatest less r es)
      ⊎ ((greatest less es ≡ none) × ((c : SeekEntry) → ¬ IsIn c es))
greatest-answer less [] o = inr (refl, λ c i. i)
greatest-answer less (e ∷ es) o =
    inl (greatest_from less e es, refl, greatest_from-IsGreatest es less e o)

-- The answer of `choose` once its list is known.
abbrev answer : WebmDemuxer → SeekTarget → SeekMode → Result SessionError SeekEntry
answer d target mode = or_no_frame (
    choose mode (value d.time_base target.time.base) (target_time d target)
      (kept (is_allowed target) d.index))

abbrev Answers : SeekMode → WebmDemuxer → SeekTarget → Result SessionError SeekEntry → Type 0
Answers mode d target r =
    ((e : SeekEntry) × (r ≡ ok e) × IsPicked mode d target e)
    ⊎ ((r ≡ err (codec no_such_frame)) × ((c : SeekEntry) → ¬ MayPick mode d target c))

module _ (d : WebmDemuxer) (target : SeekTarget) where
  abbrev allowed : List SeekEntry
  allowed = kept (is_allowed target) d.index

  abbrev near_order : Less
  near_order = nearer (value d.time_base target.time.base) (target_time d target)

  abbrev before : SeekEntry → Bool
  before e = leb_ℤ (block_time d target e) (target_time d target)

  abbrev after : SeekEntry → Bool
  after e = leb_ℤ (target_time d target) (block_time d target e)

  nearest-Answers : Answers nearest d target (answer d target nearest)
  unfolding choose
  nearest-Answers =
      elim (least-answer near_order allowed
        (nearer-IsOrder (value d.time_base target.time.base) (target_time d target))) [
          | inl (r, e, (inside, best)) ↦
              let (i, k) = kept-IsIn d.index (is_allowed target) r inside in
              inl (
                r,
                rw e,
                (
                  (i, k, refl),
                  λ c may. best c (IsIn-kept d.index (is_allowed target) c may.0 may.1),
                ),
              )
          | inr (e, nothing) ↦
              inr (rw e, λ c may. nothing c (IsIn-kept d.index (is_allowed target) c may.0 may.1))
        ]

  at_or_before-Answers : Answers at_or_before d target (answer d target at_or_before)
  unfolding choose
  at_or_before-Answers = elim (greatest-answer earlier (kept before allowed) earlier-IsOrder) [
    | inl (r, e, (inside, best)) ↦
        let (j, l) = kept-IsIn allowed before r inside in
        let (i, k) = kept-IsIn d.index (is_allowed target) r j in
        inl (
          r,
          rw e,
          (
            (i, k, l),
            λ c may. best c (
                IsIn-kept allowed before c (IsIn-kept d.index (is_allowed target) c may.0 may.1)
                  may.2),
          ),
        )
    | inr (e, nothing) ↦ inr (
      rw e,
      λ c may.
          nothing c (
            IsIn-kept allowed before c (IsIn-kept d.index (is_allowed target) c may.0 may.1) may.2),
    )
  ]

  at_or_after-Answers : Answers at_or_after d target (answer d target at_or_after)
  unfolding choose
  at_or_after-Answers = elim (least-answer earlier (kept after allowed) earlier-IsOrder) [
    | inl (r, e, (inside, best)) ↦
        let (j, l) = kept-IsIn allowed after r inside in
        let (i, k) = kept-IsIn d.index (is_allowed target) r j in
        inl (
          r,
          rw e,
          (
            (i, k, l),
            λ c may. best c (
                IsIn-kept allowed after c (IsIn-kept d.index (is_allowed target) c may.0 may.1)
                  may.2),
          ),
        )
    | inr (e, nothing) ↦ inr (
      rw e,
      λ c may.
          nothing c
            (IsIn-kept allowed after c (IsIn-kept d.index (is_allowed target) c may.0 may.1) may.2),
    )
  ]

  any-Answers :
      (mode : SeekMode) → mode ≢ unnamed_mode → Answers mode d target (answer d target mode)
  any-Answers nearest h = nearest-Answers
  any-Answers at_or_before h = at_or_before-Answers
  any-Answers at_or_after h = at_or_after-Answers
  any-Answers unnamed_mode h = absurd (h refl)

  -- The answer of `pick` by the comparisons that it makes.
  pub pick-IsPicked :
      target.mode ≢ unnamed_mode
      → ((e : SeekEntry) × (pick d target ≡ ok e) × IsPicked target.mode d target e)
        ⊎ ((pick d target ≡ err (codec no_such_frame))
            × ((c : SeekEntry) → ¬ MayPick target.mode d target c))
  unfolding pick
  pick-IsPicked h = rw (candidates-kept d target d.index) (any-Answers target.mode h)
