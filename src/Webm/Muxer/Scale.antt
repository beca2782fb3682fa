-- ===== src/Webm/Muxer/Scale.antt =====
-- The tick of the segment: the longest that every clock's tick is a whole number of.
use Prim.Native.Nat.{◌∣◌}
use native.Mathlib.Nat.{
  dvd_refl, dvd_trans, dvd-zero, dvd-mod_iff, div-add-mod', mod-eq-zero_of_dvd,
  dvd_of_mul-dvd-mul_right, mul-dvd-mul_right,
}
use zenextras.Prelude.{ℕ, zero, suc, ◌*◌, ◌/◌, ◌%◌, ◌^◌, ◌<◌, Option, none, some, ok}
use zenextras.Prelude.{
  Bool, true, false, if◌then◌else◌, ltb→lt, ◌≤◌, List, [], ◌∷◌, All, ◌==◌, ==→eq, ltb,
  if_some-eq-some, if-elim, ◌⊎◌, inl, inr,
}
use zenextras.Prelude.{◌≡◌, refl, ap, sym, ◌∙◌, arith, subst}
use zenextras.Webm.Types.{TrackInfo}
use zenextras.Webm.Muxer.State.{WebmMuxer, default_scale_ns}
use zenextras.Webm.Muxer.Times.{
  gcd_loop, gcd, tick_ns, or_gcd, common_scale, scale_or, choose_scale,
}

-- `g` divides both numbers, and what divides both divides `g`.
pub record IsGcd (a b g : ℕ) : Type 0 where
  pub left : g ∣ a
  pub right : g ∣ b
  pub greatest : (d : ℕ) → d ∣ a → d ∣ b → d ∣ g

gcd_loop-IsGcd : (fuel a b : ℕ) → b < fuel → IsGcd a b (gcd_loop fuel a b)
unfolding gcd_loop
gcd_loop-IsGcd zero a b h = absurd (omega arith)
gcd_loop-IsGcd (suc fuel) a b h =
    if-elim (IsGcd a b) (b == 0) ends (λ e. goes_on e (gcd_loop-IsGcd fuel b (a % b)))
  where
    ends : (b == 0) ≡ true → IsGcd a b a
    ends e = record {
      left = dvd_refl a;
      right = subst (λ (t : ℕ). a ∣ t) (sym (==→eq b 0 e)) (dvd-zero a);
      greatest = λ d da db. da;
    }

    goes_on :
        (b == 0) ≡ false
        → (a % b < fuel → IsGcd b (a % b) (gcd_loop fuel b (a % b)))
        → IsGcd a b (gcd_loop fuel b (a % b))
    goes_on e rest =
        let less : a % b < b = ground (arith, e) in
        let g = rest (omega arith) in
        record {
          left = (dvd-mod_iff _ g.left).0 g.right;
          right = g.left;
          greatest = λ d da db. g.greatest d db ((dvd-mod_iff d db).1 da);
        }

pub gcd-IsGcd : (a b : ℕ) → IsGcd a b (gcd a b)
unfolding gcd
gcd-IsGcd a b = gcd_loop-IsGcd (suc b) a b (omega arith)

-- A tick of the clock of a track, in nanoseconds, is a whole number of times `d`.
abbrev pub Ticks : ℕ → TrackInfo → Type 0
Ticks d t = d * t.time_base.denominator ∣ t.time_base.numerator * 1_000_000_000

abbrev pub HasClock : TrackInfo → Type 0
HasClock t = 0 < t.time_base.denominator

-- `s` is the longest tick that all the clocks count in: any other goes into it.
abbrev pub IsLongest : List TrackInfo → ℕ → Type 0
IsLongest ts s = All (Ticks s) ts × ((d : ℕ) → All (Ticks d) ts → d ∣ s)

tick_ns-some :
    (t : TrackInfo) (tick : ℕ)
    → tick_ns t ≡ some tick
    → tick * t.time_base.denominator ≡ t.time_base.numerator * 1_000_000_000
tick_ns-some t tick e =
    let ns = t.time_base.numerator * 1_000_000_000 in
    let (whole, same) =
      if_some-eq-some (ns % t.time_base.denominator == 0) (ns / t.time_base.denominator) e in
    ap (λ (n : ℕ). n * t.time_base.denominator) (sym same)
    ∙ grind (arith, div-add-mod' ns t.time_base.denominator, whole)

tick_ns-none : (t : TrackInfo) → tick_ns t ≡ none → ¬ Ticks 1 t
tick_ns-none t e ticks =
    let den = t.time_base.denominator in
    let ns = t.time_base.numerator * 1_000_000_000 in
    let one : 1 * den ≡ den = omega arith in
    let rest : ns % den ≡ 0 = mod-eq-zero_of_dvd den (subst (λ (n : ℕ). n ∣ ns) one ticks) in
    let whole : (ns % den == 0) ≡ true = ground (arith, rest) in
    absurd_whole (sym (if_whole (ns % den == 0) whole) ∙ e)
  where
    if_whole :
        (b : Bool)
        → b ≡ true
        → (if b
            then some (t.time_base.numerator * 1_000_000_000 / t.time_base.denominator)
            else none)
          ≡ some (t.time_base.numerator * 1_000_000_000 / t.time_base.denominator)
    if_whole true h = refl
    if_whole false h = cc

    absurd_whole : {n : ℕ} → ◌≡◌ {A = Option ℕ} (some n) none → ⊥
    absurd_whole h = cc

-- What divides a whole tick.
Ticks-tick_ns :
    (t : TrackInfo) (tick d : ℕ)
    → HasClock t
    → tick_ns t ≡ some tick
    → (Ticks d t → d ∣ tick) × (d ∣ tick → Ticks d t)
Ticks-tick_ns t tick d clock e =
    let whole = tick_ns-some t tick e in
    (
      λ ticks.
          dvd_of_mul-dvd-mul_right d clock
            (subst (λ (n : ℕ). d * t.time_base.denominator ∣ n) (sym whole) ticks),
      λ div.
          subst (λ (n : ℕ). d * t.time_base.denominator ∣ n) whole
            (mul-dvd-mul_right d div t.time_base.denominator),
    )

-- What is chosen: a tick with the property `P` that a `u32` holds; or a millisecond, where some clock does not tick in
-- whole nanoseconds or the tick with the property `P` is too long.
abbrev pub Chosen : (ℕ → Type 0) → List TrackInfo → ℕ → Type 0
Chosen P ts s =
    (P s × (s < 2 ^ 32))
    ⊎ ((s ≡ 1_000_000) × ((¬ All (Ticks 1) ts) ⊎ ((b : ℕ) × P b × (2 ^ 32 ≤ b))))

-- One more clock, in front.
Chosen-cons :
    (P Q : ℕ → Type 0) (t : TrackInfo) (ts : List TrackInfo) (s : ℕ)
    → ((n : ℕ) → P n → Q n)
    → Chosen P ts s
    → Chosen Q (t ∷ ts) s
Chosen-cons P Q t ts s f (inl (p, small)) = inl (f s p, small)
Chosen-cons P Q t ts s f (inr (e, inl broken)) = inr (e, inl (λ all. broken all.1))
Chosen-cons P Q t ts s f (inr (e, inr (b, p, large))) = inr (e, inr (b, f b p, large))

-- The longest tick that goes into `before` and that the clocks count in.
record IsScale (before : ℕ) (ts : List TrackInfo) (s : ℕ) : Type 0 where
  fits : s ∣ before
  common : All (Ticks s) ts
  longest : (d : ℕ) → d ∣ before → All (Ticks d) ts → d ∣ s

IsScale-step :
    (before : ℕ) (t : TrackInfo) (ts : List TrackInfo) (tick s : ℕ)
    → HasClock t
    → tick_ns t ≡ some tick
    → IsScale (gcd before tick) ts s
    → IsScale before (t ∷ ts) s
IsScale-step before t ts tick s clock e h =
    let g = gcd-IsGcd before tick in
    record {
      fits = dvd_trans s h.fits g.left;
      common = ((Ticks-tick_ns t tick s clock e).1 (dvd_trans s h.fits g.right), h.common);
      longest = λ d small all.
          h.longest d (g.greatest d small ((Ticks-tick_ns t tick d clock e).0 all.0)) all.1;
    }

common_scale-Chosen :
    (ts : List TrackInfo) (before : ℕ)
    → All HasClock ts
    → Chosen (IsScale before ts) ts (common_scale ts (some before))
unfolding common_scale
common_scale-Chosen [] before clocks = by_size (ltb before (2 ^ 32)) refl
  where
    whole : IsScale before [] before
    whole = record { fits = dvd_refl before; common = tt; longest = λ d small all. small }

    by_size :
        (b : Bool)
        → ltb before (2 ^ 32) ≡ b
        → Chosen (IsScale before []) [] (if b then before else default_scale_ns)
    by_size true e = inl (whole, ltb→lt before (2 ^ 32) e)
    by_size false e = inr (refl, inr (before, whole, ground (arith, e)))
common_scale-Chosen (t ∷ ts) before clocks =
    by_tick (tick_ns t) refl (λ tick. common_scale-Chosen ts (gcd before tick) clocks.1)
  where
    by_tick :
        (o : Option ℕ)
        → tick_ns t ≡ o
        → ((tick : ℕ)
            → Chosen (IsScale (gcd before tick) ts) ts (common_scale ts (some (gcd before tick))))
        → Chosen (IsScale before (t ∷ ts)) (t ∷ ts) (elim o [
          | none ↦ default_scale_ns
          | some tick ↦ common_scale ts (some (or_gcd (some before) tick))
        ])
    by_tick none e rest = inr (refl, inl (λ all. tick_ns-none t e all.0))
    by_tick (some tick) e rest =
        Chosen-cons (IsScale (gcd before tick) ts) (IsScale before (t ∷ ts)) t ts _
          (λ s. IsScale-step before t ts tick s clocks.0 e) (rest tick)

-- For one track or more, each with a clock, and without a tick that the caller asks for, the tick of the segment is the
-- longest whole number of nanoseconds that goes into the tick of every clock. It is a millisecond where some clock does
-- not tick in whole nanoseconds, or where that longest tick is 2 ^ 32 or more.
pub choose_scale-IsLongest :
    (m : WebmMuxer) (t : TrackInfo) (ts : List TrackInfo)
    → m.scale_override ≡ none
    → All HasClock (t ∷ ts)
    → (s : ℕ) × (choose_scale m (t ∷ ts) ≡ ok s) × Chosen (IsLongest (t ∷ ts)) (t ∷ ts) s
unfolding choose_scale common_scale
choose_scale-IsLongest m t ts free clocks = (
  common_scale (t ∷ ts) none,
  ap (λ (o : Option ℕ). scale_or o (common_scale (t ∷ ts) none)) free,
  by_tick (tick_ns t) refl,
)
  where
    first : (tick s : ℕ) → tick_ns t ≡ some tick → IsScale tick ts s → IsLongest (t ∷ ts) s
    first tick s e h = (
      ((Ticks-tick_ns t tick s clocks.0 e).1 h.fits, h.common),
      λ d all. h.longest d ((Ticks-tick_ns t tick d clocks.0 e).0 all.0) all.1,
    )

    by_tick :
        (o : Option ℕ)
        → tick_ns t ≡ o
        → Chosen (IsLongest (t ∷ ts)) (t ∷ ts) (elim o [
          | none ↦ default_scale_ns
          | some tick ↦ common_scale ts (some (or_gcd none tick))
        ])
    by_tick none e = inr (refl, inl (λ all. tick_ns-none t e all.0))
    by_tick (some tick) e =
        Chosen-cons (IsScale tick ts) (IsLongest (t ∷ ts)) t ts _ (λ s. first tick s e)
          (common_scale-Chosen ts tick clocks.1)
