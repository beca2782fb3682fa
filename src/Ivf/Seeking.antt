-- ===== src/Ivf/Seeking.antt =====
-- zenivf/src/lib.rs, `IvfDemuxer::pick`, `position`, `finish_scan` and `scan`. An `i128` is its 128 bits, with the
-- wrap-around of a release build.
use zenextras.Prelude.{ℕ, ◌+◌, ◌-◌, ◌*◌, ◌%◌, ◌^◌, Bool, true, not, ◌&&◌, ◌||◌, Option, none, some}
use zenextras.Prelude.{
  List, [], ◌∷◌, length, ltb, leb, ◌==◌, if◌then◌else◌, Result, ok, err, ◌>>=◌, ok_or,
}
use zenextras.Ivf.Types.{packet_header_len, headers_first, no_such_frame, empty_packet, truncated}
use zenextras.Ivf.Types.{SessionError, codec, unsupported_seek, panicked, u32_at, i64_at}
use zenextras.Ivf.Reading.{IndexEntry, in_packets, IvfDemuxer, Input, range, len, SeekMode, nearest}
use zenextras.Ivf.Reading.{
  at_or_before, at_or_after, unnamed_mode, SeekTarget, SeekResult, need, seeked,
}
use zenextras.Ivf.Reading.{Outcome, Library, ask, fail, note}

-- `i128::from` of an `i64`.
unfoldable pub widen : ℕ → ℕ
widen v = if ltb v (2 ^ 63) then v else v + (2 ^ 128 - 2 ^ 64)

-- Signed comparison, by the number with its sign bit turned.
abbrev signed_lt : ℕ → ℕ → Bool
signed_lt a b = ltb ((a + 2 ^ 127) % 2 ^ 128) ((b + 2 ^ 127) % 2 ^ 128)

abbrev pub pts_lt : IndexEntry → IndexEntry → Bool
pts_lt a b = ltb ((a.pts + 2 ^ 63) % 2 ^ 64) ((b.pts + 2 ^ 63) % 2 ^ 64)

-- Ticks of one base in the product of both: `value` and `want`.
unfoldable pub ticks_in : ℕ → ℕ → ℕ → ℕ
ticks_in ticks numerator denominator = widen ticks * numerator * denominator % 2 ^ 128

-- `(value(a) - want).abs()`
unfoldable pub distance : ℕ → ℕ → ℕ
distance value want =
    let gap = (value + 2 ^ 128 - want) % 2 ^ 128 in
    if ltb gap (2 ^ 127) then gap else (2 ^ 128 - gap) % 2 ^ 128

-- `min_by`: the first of the least; `max_by_key`: the last of the greatest.
unfoldable pub min_by : (IndexEntry → IndexEntry → Bool) → List IndexEntry → Option IndexEntry
min_by lt [] = none
min_by lt (e ∷ es) = some (least lt e es)
  where
    least : (IndexEntry → IndexEntry → Bool) → IndexEntry → List IndexEntry → IndexEntry
    least lt best [] = best
    least lt best (e ∷ es) = least lt (if lt e best then e else best) es

unfoldable pub max_by : (IndexEntry → IndexEntry → Bool) → List IndexEntry → Option IndexEntry
max_by lt [] = none
max_by lt (e ∷ es) = some (greatest lt e es)
  where
    greatest : (IndexEntry → IndexEntry → Bool) → IndexEntry → List IndexEntry → IndexEntry
    greatest lt best [] = best
    greatest lt best (e ∷ es) = greatest lt (if lt e best then best else e) es

unfoldable pub filter : (IndexEntry → Bool) → List IndexEntry → List IndexEntry
filter p [] = []
filter p (e ∷ es) = if p e then e ∷ filter p es else filter p es

-- The `match target.mode`, with the values of the entries and the value wanted.
unfoldable pub choose :
    (IndexEntry → ℕ) → ℕ → SeekMode → List IndexEntry → Result SessionError (Option IndexEntry)
choose value want nearest all = ok (
    min_by
      (λ a b.
        signed_lt (distance (value a) want) (distance (value b) want)
        || (not (signed_lt (distance (value b) want) (distance (value a) want)) && pts_lt a b))
      all)
choose value want at_or_before all =
    ok (max_by pts_lt (filter (λ e. not (signed_lt want (value e))) all))
choose value want at_or_after all =
    ok (min_by pts_lt (filter (λ e. not (signed_lt (value e) want)) all))
choose value want unnamed_mode all = err unsupported_seek

unfoldable pub pick : IvfDemuxer → SeekTarget → Result SessionError IndexEntry
pick d target = do
  tb ← ok_or d.time_base (codec headers_first)
  chosen ←
      choose (λ e. ticks_in e.pts tb.numerator target.base.denominator)
        (ticks_in target.time target.base.numerator tb.denominator) target.mode d.index
  ok_or chosen (codec no_such_frame)

-- `position`, with the time base that the header has set.
unfoldable pub position : IvfDemuxer → IndexEntry → IvfDemuxer × Result SessionError SeekResult
position d e =
    let moved = record d { start = e.offset; ordinal = e.ordinal; state = in_packets } in
    elim d.time_base [
      | none ↦ (moved, err panicked)
      | some tb ↦ (moved, ok (record { pts = e.pts; base = tb; ordinal = e.ordinal }))
    ]

-- The whole index is there: the seek that waits for it is answered.
unfoldable pub finish_scan : IvfDemuxer → ℕ → Outcome
finish_scan d consumed =
    let complete = record d { index_complete = true; pending_seek = none } in
    elim d.pending_seek [
      | none ↦ (complete, err panicked)
      | some target ↦ elim (pick complete target) [
        | err e ↦ (complete, err e)
        | ok entry ↦
            let (moved, r) = position complete entry in (moved, r >>= λ s. ok (consumed, seeked s))
      ]
    ]

-- A packet header of the scan: its entry is noted, and the scan goes on behind the packet.
unfoldable pub scan_packet : Library → IvfDemuxer → Input → ℕ → Outcome
scan_packet lib d input total =
    let n = u32_at input.bytes 0 in
    let entry : IndexEntry = record {
      offset = d.scan_pos;
      pts = i64_at input.bytes 4;
      ordinal = d.scan_ordinal;
    } in
    let (noted, r) = note lib d entry in
    let end = d.scan_pos + packet_header_len + n in
    let moved = record noted { scan_pos = end; scan_ordinal = d.scan_ordinal + 1 } in
    let (asked, _) = ask moved (range end packet_header_len) in
    if n == 0 then fail d empty_packet else elim r [
      | err e ↦ (noted, err e)
      | ok _ ↦
          if ltb total end
          then fail moved truncated
          else if end == total
          then finish_scan moved packet_header_len
          else (asked, ok (packet_header_len, need))
    ]

unfoldable pub scan : Library → IvfDemuxer → Input → Outcome
scan lib d input = elim input.total_len [
  | none ↦ ask d len
  | some total ↦
      if leb total d.scan_pos
      then finish_scan d 0
      else if not (input.offset == d.scan_pos) || ltb (length input.bytes) packet_header_len
      then if input.offset == d.scan_pos && input.reaches_end
        then fail d truncated
        else ask d (range d.scan_pos packet_header_len)
      else scan_packet lib d input total
]
