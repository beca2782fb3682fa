-- ===== src/Webm/Muxer/Rounding.antt =====
-- What rounding to nanoseconds costs.
use zenextras.Prelude.{ℕ, ◌+◌, ◌*◌, ◌%◌, ◌^◌, ◌≤◌, ◌<◌, false, ltb, ◌==◌}
use zenextras.Prelude.{◌≡◌, refl, arith, Bool-cases, inl, inr, ◌⊎◌, ltb→lt, ok, err}
use zenextras.Webm.Types.{FrameDuration, codec}
use zenextras.Webm.Error.{timestamp_overflow}
use zenextras.Webm.Muxer.State.{WebmMuxer, ns_per_second}
use zenextras.Webm.Muxer.Times.{rounded_div, fit_u64, nanos}

-- `n` is a whole number nearest to `num / den`.
abbrev pub IsNearest : ℕ → ℕ → ℕ → Type 0
IsNearest num den n = (2 * (n * den) ≤ 2 * num + den) × (2 * num ≤ 2 * (n * den) + den)

pub rounded_div-IsNearest : (num den : ℕ) → 0 < den → IsNearest num den (rounded_div num den)
unfolding rounded_div
rounded_div-IsNearest num den h = grind arith

-- The answer of `fit_u64` for a number that is nearest.
fitted :
    (num den n : ℕ) (m : WebmMuxer)
    → IsNearest num den n
    → ((k : ℕ) × ((fit_u64 n m).1 ≡ ok k) × IsNearest num den k × (k < 2 ^ 64))
      ⊎ (((fit_u64 n m).1 ≡ err (codec timestamp_overflow)) × (2 * (2 ^ 64 * den) ≤ 2 * num + den))
fitted num den n m h = elim (Bool-cases (ltb n (2 ^ 64))) [
  | inl small ↦ inl (n, rw small refl, (h.0, h.1), ltb→lt n (2 ^ 64) small)
  | inr large ↦ inr (rw large refl, grind (arith, h, large))
]

-- A writer that may round gives a duration in nanoseconds by a whole number nearest to it, below 2 ^ 64; or it fails by
-- an overflow, and then the duration is at least 2 ^ 64 nanoseconds less half a nanosecond.
pub nanos-IsNearest :
    (d : FrameDuration) (m : WebmMuxer)
    → 0 < d.denominator
    → m.exact ≡ false
    → ((n : ℕ) × ((nanos d m).1 ≡ ok n)
        × IsNearest (d.numerator * ns_per_second) d.denominator n
        × (n < 2 ^ 64))
      ⊎ (((nanos d m).1 ≡ err (codec timestamp_overflow))
          × (2 * (2 ^ 64 * d.denominator) ≤ 2 * (d.numerator * ns_per_second) + d.denominator))
unfolding nanos
nanos-IsNearest d m h free =
    elim (Bool-cases ((d.numerator * ns_per_second) % d.denominator == 0)) [
      | inl whole ↦ rw whole (fitted _ d.denominator _ m near)
      | inr rest ↦ rw (rest, free) (fitted _ d.denominator _ _ near)
    ]
  where
    near :
        IsNearest
          (d.numerator * ns_per_second)
          d.denominator
          (rounded_div (d.numerator * ns_per_second) d.denominator)
    near = rounded_div-IsNearest (d.numerator * ns_per_second) d.denominator h
