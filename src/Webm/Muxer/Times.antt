-- ===== src/Webm/Muxer/Times.antt =====
-- zenwebm/src/mux.rs: times in segment ticks and in nanoseconds, what rounding them costs, and the tick of the segment.
use zenextras.Prelude.{ℕ, zero, suc, ◌+◌, ◌-◌, ◌*◌, ◌/◌, ◌%◌, ◌^◌, min, max, not, ◌&&◌}
use zenextras.Prelude.{Option, none, some, List, [], ◌∷◌}
use zenextras.Prelude.{ltb, leb, ◌==◌, if◌then◌else◌, Result, ok, err, ok_or}
use zenextras.Prelude.Int.{ℤ, pos, ◌-ℤ◌, times, div_trunc, abs, eqb_ℤ}
use zenextras.Webm.Action.{Action, ◌>>=◌, ◌>>◌, give, fail, read, lift, change}
use zenextras.Webm.Error.{timestamp_overflow, inexact_timestamp, bad_timestamp_scale}
use zenextras.Webm.Types.{
  SessionError, codec, Timestamp, FrameDuration, floor, ceil, nearest, TrackInfo,
}
use zenextras.Webm.Muxer.State.{WebmMuxer, Library}
use zenextras.Webm.Muxer.State.{ns_per_second, default_scale_ns}

-- The error is below 2 ^ 127, and is recorded up to the largest `u64`.
unfoldable pub note_rounding : ℤ → WebmMuxer → WebmMuxer
note_rounding error_ns m = if abs error_ns == 0 then m else record m {
  report = record (m.report) {
    quantized = m.report.quantized + 1;
    max_quantization_ns = max m.report.max_quantization_ns (min (abs error_ns) (2 ^ 64 - 1));
  };
}

-- The exact instant in nanoseconds, by an `i128` division that drops the rest.
abbrev pub exact_ns : Timestamp → ℤ
exact_ns t = div_trunc (times (times t.ticks t.base.numerator) 1_000_000_000) t.base.denominator

-- The nearest tick, and what it costs.
abbrev pub nearest_ticks : Library → Timestamp → Action WebmMuxer ℤ
nearest_ticks lib t = do
  segment ← read (λ m. m.segment)
  near ← lift (ok_or (lib.rescale nearest t segment) (codec timestamp_overflow))
  change (λ m. note_rounding (times near m.scale_ns -ℤ exact_ns t) m)
  give near

-- A time between two ticks.
abbrev pub between_ticks : Library → Timestamp → Action WebmMuxer ℤ
between_ticks lib t = do
  exact ← read (λ m. m.exact)
  if exact then fail (codec inexact_timestamp) else nearest_ticks lib t

unfoldable pub ticks : Library → Timestamp → Action WebmMuxer ℤ
ticks lib t = do
  segment ← read (λ m. m.segment)
  low ← lift (ok_or (lib.rescale floor t segment) (codec timestamp_overflow))
  high ← lift (ok_or (lib.rescale ceil t segment) (codec timestamp_overflow))
  if eqb_ℤ low high then give low else between_ticks lib t

-- A quotient rounded to the nearest whole number, a half upwards.
unfoldable pub rounded_div : ℕ → ℕ → ℕ
rounded_div num den = num / den + (if leb den (num % den * 2) && not (num % den == 0) then 1 else 0)

-- What rounding a quotient with the rest `rem` costs.
abbrev pub note_rest : ℕ → ℕ → Action WebmMuxer (Unit {0})
note_rest rem den = do
  exact ← read (λ m. m.exact)
  if exact
      then fail (codec inexact_timestamp)
      else change (note_rounding (pos (if leb den (rem * 2) then den - rem else rem)))

-- `u64::try_from(ns)`
abbrev pub fit_u64 : ℕ → Action WebmMuxer ℕ
fit_u64 n = if ltb n (2 ^ 64) then give n else fail (codec timestamp_overflow)

unfoldable pub nanos : FrameDuration → Action WebmMuxer ℕ
nanos d = do
  let num = d.numerator * ns_per_second
  let rem = num % d.denominator
  if rem == 0 then give tt else note_rest rem d.denominator
  fit_u64 (rounded_div num d.denominator)

-- `while b != 0 { (a, b) = (b, a % b) }`: the second number falls, so `b` rounds and one more are enough.
unfoldable pub gcd_loop : ℕ → ℕ → ℕ → ℕ
gcd_loop zero a b = a
gcd_loop (suc fuel) a b = let rest = gcd_loop fuel b (a % b) in if b == 0 then a else rest

unfoldable pub gcd : ℕ → ℕ → ℕ
gcd a b = gcd_loop (suc b) a b

-- A clock's tick, when it is a whole number of nanoseconds.
abbrev pub tick_ns : TrackInfo → Option ℕ
tick_ns t =
    let ns = t.time_base.numerator * ns_per_second in
    if ns % t.time_base.denominator == 0 then some (ns / t.time_base.denominator) else none

abbrev pub or_gcd : Option ℕ → ℕ → ℕ
or_gcd none tick = tick
or_gcd (some s) tick = gcd s tick

-- `u32::try_from(s).ok()`, and the default without it.
abbrev pub scale_u32 : Option ℕ → ℕ
scale_u32 none = default_scale_ns
scale_u32 (some s) = if ltb s (2 ^ 32) then s else default_scale_ns

-- The loop over the tracks: the greatest common divisor of their ticks so far.
unfoldable pub common_scale : List TrackInfo → Option ℕ → ℕ
common_scale [] scale = scale_u32 scale
common_scale (t ∷ ts) scale = elim (tick_ns t) [
  | none ↦ default_scale_ns
  | some tick ↦ common_scale ts (some (or_gcd scale tick))
]

-- A tick that the caller asks for, if there is one.
abbrev pub scale_or : Option ℕ → ℕ → Result SessionError ℕ
scale_or none common = ok common
scale_or (some s) common = if s == 0 then err (codec bad_timestamp_scale) else ok s

unfoldable pub choose_scale : WebmMuxer → List TrackInfo → Result SessionError ℕ
choose_scale m tracks = scale_or m.scale_override (common_scale tracks none)
