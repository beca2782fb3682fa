-- ===== src/Webm/RoundTrip/Lengths.antt =====
-- The duration and the padding of a packet: they are what the clock and the discard say, are in range, and change the
-- report of the writer only.
use zenextras.Prelude.{refuse, Bool, sym, subst}
use zenextras.Prelude.{ℕ, zero, suc, ◌<◌, ◌^◌, ◌*◌, ◌%◌, Option, none, some, not, ltb, ◌==◌}
use zenextras.Prelude.{if◌then◌else◌, if-elim, ltb→lt, ◌≡◌, refl, arith}
use zenextras.Prelude.Int.{is_i64, pos, ◌+ℤ◌}
use zenextras.Prelude.Int.{ℤ, IsI64, pos_part, neg_part, sub_i64, as_i64, i64_bits, ◌-ℤ◌}
use zenextras.Webm.Error.{timestamp_overflow}
use zenextras.Webm.Types.{codec, Timestamp, FrameDuration, Discard, TimeBase}
use zenextras.Webm.Action.{Action, Ensures, continue-Ensures, lift-Ensures, continue, give, ◌>>=◌}
use zenextras.Webm.Muxer.State.{WebmMuxer, Library}
use zenextras.Webm.Muxer.Times.{ticks, nanos, rounded_div, note_rest, fit_u64}
use zenextras.Webm.Muxer.State.{ns_per_second}
use zenextras.Webm.Muxer.Rounding.{IsNearest, rounded_div-IsNearest}
use zenextras.Webm.Muxer.{padding_ns, duration_of, to_i64, negate}
use zenextras.Webm.RoundTrip.Groups.{IsDuration, IsPadding}
use zenextras.Webm.RoundTrip.TimeSteps.{
  Same, Same-trans, note_rounding-Same, IsClock, IsTick, Timed, ticks-Timed,
}

-- `n` nanoseconds are nearest to the length `d`, and a `u64` holds them.
abbrev pub IsNanos : FrameDuration → ℕ → Type 0
IsNanos d n = IsNearest (d.numerator * ns_per_second) d.denominator n × (n < 2 ^ 64)

fit_u64-Timed :
    (d : FrameDuration) (n : ℕ) (m m' : WebmMuxer)
    → Same m m'
    → IsNearest (d.numerator * ns_per_second) d.denominator n
    → Timed (IsNanos d) m (fit_u64 n m')
fit_u64-Timed d n m m' same near =
    if-elim (λ (a : Action WebmMuxer ℕ). Timed (IsNanos d) m (a m')) (ltb n (2 ^ 64))
      (λ small. (same, (near, ltb→lt n (2 ^ 64) small))) (λ _. same)

note_rest-Same :
    (rem den : ℕ) (m m' : WebmMuxer)
    → Same m m'
    → Ensures (λ _ m''. Same m m'') (Same m) ((if rem == 0 then give tt else note_rest rem den) m')
note_rest-Same rem den m m' same =
    if-elim (λ (a : Action WebmMuxer (Unit {0})). Ensures (λ _ m''. Same m m'') (Same m) (a m'))
      (rem == 0) (λ _. same)
      (λ _.
        if-elim (λ (a : Action WebmMuxer (Unit {0})). Ensures (λ _ m''. Same m m'') (Same m) (a m'))
          m'.exact (λ _. same) (λ _. Same-trans same (note_rounding-Same m' _)))

nanos-Timed :
    (d : FrameDuration) (m m' : WebmMuxer)
    → 0 < d.denominator
    → Same m m'
    → Timed (IsNanos d) m (nanos d m')
unfolding nanos
nanos-Timed d m m' h same =
    let num = d.numerator * ns_per_second in
    let rem = num % d.denominator in
    continue-Ensures (λ _ m''. Same m m'') (λ n m''. Same m m'' × IsNanos d n) (Same m)
      ((if rem == 0 then give tt else note_rest rem d.denominator) m') _
      (note_rest-Same rem d.denominator m m' same)
      (λ _ m'' same'.
        fit_u64-Timed d (rounded_div num d.denominator) m m'' same'
          (rounded_div-IsNearest num d.denominator h))

-- A count that an `i64` holds is the integer.
to_i64-Timed :
    (n : ℕ) (m m' : WebmMuxer)
    → Same m m'
    → Timed (λ (z : ℤ). (z ≡ pos n) × (n < 2 ^ 63)) m (to_i64 n m')
to_i64-Timed n m m' same =
    if-elim (λ (a : Action WebmMuxer ℤ). Timed (λ (z : ℤ). (z ≡ pos n) × (n < 2 ^ 63)) m (a m'))
      (ltb n (2 ^ 63)) (λ small. (same, (refl, ltb→lt n (2 ^ 63) small))) (λ _. same)

-- Padding of as many nanoseconds as are nearest to the discarded length: positive where the end is discarded, negative
-- where the start is. There is none without a discard, and a discard of both ends is not written.
abbrev pub IsTrim : Option FrameDuration → Option FrameDuration → Option ℤ → Type 0
IsTrim none none padding = padding ≡ none
IsTrim (some s) none padding =
    (z : ℤ) × (padding ≡ some z) × (pos_part z ≡ 0) × IsNanos s (neg_part z)
IsTrim none (some e) padding =
    (z : ℤ) × (padding ≡ some z) × (neg_part z ≡ 0) × IsNanos e (pos_part z)
IsTrim (some _) (some _) padding = ⊥

abbrev pub IsTrimmed : Option Discard → Option ℤ → Type 0
IsTrimmed none padding = padding ≡ none
IsTrimmed (some d) padding = IsTrim d.start d.end padding

-- Lengths of time have denominators.
abbrev pub IsLength : Option FrameDuration → Type 0
IsLength none = Unit {0}
IsLength (some d) = 0 < d.denominator

abbrev pub IsDiscard : Option Discard → Type 0
IsDiscard none = Unit {0}
IsDiscard (some d) = IsLength d.start × IsLength d.end

-- One end of a discard, as padding of either sign.
end-Timed :
    (e : FrameDuration) (sign : ℤ → ℤ) (P : Option ℤ → Type 0) (m m' : WebmMuxer)
    → 0 < e.denominator
    → Same m m'
    → ((n : ℕ) → n < 2 ^ 63 → IsNanos e n → P (some (sign (pos n))))
    → Timed P m (continue (nanos e m') (λ ns. to_i64 ns >>= λ padding. give (some (sign padding))))
end-Timed e sign P m m' h same signed =
    continue-Ensures (λ n m''. Same m m'' × IsNanos e n) (λ p m''. Same m m'' × P p) (Same m)
      (nanos e m') _ (nanos-Timed e m m' h same)
      (λ ns m1 near.
        continue-Ensures (λ z m''. Same m m'' × ((z ≡ pos ns) × (ns < 2 ^ 63)))
          (λ p m''. Same m m'' × P p) (Same m) (to_i64 ns m1) _ (to_i64-Timed ns m m1 near.0)
          (λ z m2 k.
            (k.0, subst (λ (z : ℤ). P (some (sign z))) (sym k.1.0) (signed ns k.1.1 near.1))))

pub padding_ns-Timed :
    (o : Option Discard) (m m' : WebmMuxer)
    → IsDiscard o
    → Same m m'
    → Timed (λ p. IsPadding p × IsTrimmed o p) m (padding_ns o m')
unfolding padding_ns
padding_ns-Timed none m m' h same = (same, (tt, refl))
padding_ns-Timed (some d) m m' h same = by_ends d.start d.end h.0 h.1
  where
    by_ends :
        (start end : Option FrameDuration)
        → IsLength start
        → IsLength end
        → Timed
            (λ p. IsPadding p × IsTrim start end p)
            m
            (padding_ns (some (record { start = start; end = end })) m')
    by_ends none none hs he = (same, (tt, refl))
    by_ends none (some e) hs he =
        end-Timed e (λ z. z) (λ p. IsPadding p × IsTrim none (some e) p) m m' he same
          (λ n small near. ((small, omega arith), (pos n, refl, refl, near)))
    by_ends (some s) none hs he =
        end-Timed s (λ z. negate (pos_part z)) (λ p. IsPadding p × IsTrim (some s) none p) m m' hs
          same negated
      where
        negated :
            (n : ℕ)
            → n < 2 ^ 63
            → IsNanos s n
            → IsPadding (some (negate n)) × IsTrim (some s) none (some (negate n))
        negated zero small near = ((omega arith, omega arith), (negate 0, refl, refl, near))
        negated (suc n) small near =
            ((omega arith, omega arith), (negate (suc n), refl, refl, near))
    by_ends (some s) (some e) hs he = same

pos_part-sub_i64 : (a b : ℤ) → pos_part (sub_i64 a b) < 2 ^ 64
unfolding sub_i64
pos_part-sub_i64 a b = bits (i64_bits (a -ℤ b))
  where
    bits : (w : ℕ) → pos_part (as_i64 w) < 2 ^ 64
    bits w = ground arith

-- The duration in ticks of the segment: what lies between the tick `start` and the tick of the packet's end.
abbrev pub IsLasting : Library → TimeBase → Bool → Timestamp → ℤ → Option ℕ → Option ℕ → Type 0
IsLasting lib segment exact pts start none lasting = lasting ≡ none
IsLasting lib segment exact pts start (some d) lasting =
    (end : ℤ) × IsTick lib segment exact (record { ticks = pts.ticks +ℤ pos d; base = pts.base })
      end
    × (lasting ≡ some (pos_part (sub_i64 end start)))

pub duration_of-Timed :
    (lib : Library) (pts : Timestamp) (start : ℤ) (o : Option ℕ) (m m' : WebmMuxer)
    → IsClock lib
    → Same m m'
    → Timed
        (λ l. IsDuration l × IsLasting lib m.segment m.exact pts start o l)
        m
        (duration_of lib pts start o m')
unfolding duration_of
duration_of-Timed lib pts start none m m' clock same = (same, (tt, refl))
duration_of-Timed lib pts start (some d) m m' clock same =
    continue-Ensures (λ z m''. Same m m'' × ((z ≡ pos d) × (d < 2 ^ 63))) done (Same m)
      (to_i64 d m') _ (to_i64-Timed d m m' same)
      (λ length m1 h.
        lift-Ensures done (Same m)
          (refuse (not (is_i64 (pts.ticks +ℤ length))) (codec timestamp_overflow)) m1 _ h.0
          (λ _ _.
            continue-Ensures
              (λ z m''. Same m m'' × (IsI64 z × IsTick lib m.segment m.exact (ending length) z))
              done (Same m) (ticks lib (ending length) m1) _
              (ticks-Timed lib (ending length) m m1 clock h.0)
              (λ end m2 k. (
                k.0,
                (
                  pos_part-sub_i64 end start,
                  (
                    end,
                    subst (λ (z : ℤ). IsTick lib m.segment m.exact (ending z) end) h.1.0 k.1.1,
                    refl,
                  ),
                ),
              ))))
  where
    ending : ℤ → Timestamp
    ending length = record { ticks = pts.ticks +ℤ length; base = pts.base }

    done : Option ℕ → WebmMuxer → Type 0
    done l m'' = Same m m'' × (IsDuration l × IsLasting lib m.segment m.exact pts start (some d) l)
