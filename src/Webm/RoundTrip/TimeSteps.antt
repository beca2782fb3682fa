-- ===== src/Webm/RoundTrip/TimeSteps.antt =====
-- The time of a packet: it is what the clock says, is in range, and changes the report of the writer only.
use zenextras.Prelude.{Bool, false, sym, ap, ◌⊎◌, inl, inr}
use zenextras.Prelude.{some}
use zenextras.Prelude.{
  if◌then◌else◌, if-elim, Result, ok, ok_or, ok_or-eq-ok, ◌≡◌, refl, ◌∙◌, arith,
}
use zenextras.Prelude.Int.{by_parts}
use zenextras.Prelude.Int.{ℤ, IsI64, eqb_ℤ, times, ◌-ℤ◌}
use zenextras.Webm.Error.{timestamp_overflow}
use zenextras.Webm.Types.{codec, SessionError, Timestamp, Rounding, TimeBase, floor, ceil, nearest}
use zenextras.Webm.Action.{Action, Ensures, lift-Ensures, give}
use zenextras.Webm.Muxer.State.{WebmMuxer, Library}
use zenextras.Webm.Muxer.Times.{note_rounding, ticks, exact_ns, nearest_ticks, between_ticks}

-- What the times of a packet change: the report only.
pub record Same (m m' : WebmMuxer) : Type 0 where
  pub cluster : m'.cluster ≡ m.cluster
  pub tracks : m'.tracks ≡ m.tracks
  pub segment : m'.segment ≡ m.segment
  pub exact : m'.exact ≡ m.exact

pub note_rounding-Same : (m : WebmMuxer) (e : ℤ) → Same m (note_rounding e m)
unfolding note_rounding
note_rounding-Same m e = ground arith

-- `Timestamp::rescale` gives an `i64`.
abbrev pub IsClock : Library → Type 0
IsClock lib =
    (r : Rounding) (t : Timestamp) (b : TimeBase) (z : ℤ) → lib.rescale r t b ≡ some z → IsI64 z

pub Same-refl : (m : WebmMuxer) → Same m m
Same-refl m = record { cluster = refl; tracks = refl; segment = refl; exact = refl }

pub Same-trans : {m m' m'' : WebmMuxer} → Same m m' → Same m' m'' → Same m m''
Same-trans a b = record {
  cluster = b.cluster ∙ a.cluster;
  tracks = b.tracks ∙ a.tracks;
  segment = b.segment ∙ a.segment;
  exact = b.exact ∙ a.exact;
}

-- What the reading of a time that satisfies `P` leaves of the writer `m`.
abbrev pub Timed :
    {A : Type 0} → (A → Type 0) → WebmMuxer → WebmMuxer × Result SessionError A → Type 0
Timed P m = Ensures (λ a m'. Same m m' × P a) (Same m)

-- `z` is the time `t` in ticks of the segment: exactly, or, where rounding is allowed, the nearest.
abbrev pub IsTick : Library → TimeBase → Bool → Timestamp → ℤ → Type 0
IsTick lib segment exact t z =
    ((lib.rescale floor t segment ≡ some z) × (lib.rescale ceil t segment ≡ some z))
    ⊎ ((exact ≡ false) × (lib.rescale nearest t segment ≡ some z))

pub ticks-Timed :
    (lib : Library) (t : Timestamp) (m m' : WebmMuxer)
    → IsClock lib
    → Same m m'
    → Timed (λ z. IsI64 z × IsTick lib m.segment m.exact t z) m (ticks lib t m')
unfolding ticks
ticks-Timed lib t m m' clock same =
    lift-Ensures (λ z m''. Same m m'' × (IsI64 z × IsTick lib m.segment m.exact t z)) (Same m)
      (ok_or (lib.rescale floor t m'.segment) (codec timestamp_overflow)) m' _ same
      (λ low e.
        lift-Ensures (λ z m''. Same m m'' × (IsI64 z × IsTick lib m.segment m.exact t z)) (Same m)
          (ok_or (lib.rescale ceil t m'.segment) (codec timestamp_overflow)) m' _ same
          (λ high f. rounded low high (here floor low e) (here ceil high f)))
  where
    -- What the clock answers at the segment of `m`.
    here :
        (r : Rounding) (z : ℤ)
        → ok_or (lib.rescale r t m'.segment) (codec timestamp_overflow) ≡ ok z
        → lib.rescale r t m.segment ≡ some z
    here r z e = ap (lib.rescale r t) (sym same.segment) ∙ ok_or-eq-ok _ _ e

    nearest_time :
        m'.exact ≡ false
        → Timed (λ z. IsI64 z × IsTick lib m.segment m.exact t z) m (nearest_ticks lib t m')
    nearest_time free =
        lift-Ensures (λ z m''. Same m m'' × (IsI64 z × IsTick lib m.segment m.exact t z)) (Same m)
          (ok_or (lib.rescale nearest t m'.segment) (codec timestamp_overflow)) m' _ same
          (λ near e. (
            Same-trans same (note_rounding-Same m' (times near m'.scale_ns -ℤ exact_ns t)),
            (
              clock nearest t m.segment near (here nearest near e),
              inr (sym same.exact ∙ free, here nearest near e),
            ),
          ))

    rounded :
        (low high : ℤ)
        → lib.rescale floor t m.segment ≡ some low
        → lib.rescale ceil t m.segment ≡ some high
        → Timed
            (λ z. IsI64 z × IsTick lib m.segment m.exact t z)
            m
            ((if eqb_ℤ low high then give low else between_ticks lib t) m')
    rounded low high below above =
        if-elim
          (λ (a : Action WebmMuxer ℤ).
            Timed (λ z. IsI64 z × IsTick lib m.segment m.exact t z) m (a m'))
          (eqb_ℤ low high)
          (λ whole. (
            same,
            (
              clock floor t m.segment low below,
              inl (
                below,
                above ∙ ap (λ (z : ℤ). some z) (by_parts high low (ground (arith, whole))),
              ),
            ),
          ))
          (λ _.
            if-elim
              (λ (a : Action WebmMuxer ℤ).
                Timed (λ z. IsI64 z × IsTick lib m.segment m.exact t z) m (a m'))
              m'.exact (λ _. same) nearest_time)
