-- ===== src/Webm/Demuxer/Elements.antt =====
-- zenwebm/src/demux.rs, `need`, `header`, `body` and `skip`: the element at the position.
use zenextras.Prelude.{ℕ, min, not}
use zenextras.Prelude.{none, some, [], ◌∷◌, ◌++◌, length}
use zenextras.Prelude.{leb, ◌==◌, if◌then◌else◌, ok_or, refuse}
use zenextras.Prelude.Bytes.{Bytes, slice}
use zenextras.Prelude.Int.{add_u64}
use zenextras.Webm.Error.{truncated, unknown_size}
use zenextras.Webm.Types.{codec}
use zenextras.Webm.Ebml.{Header, header, total, max_header_len}
use zenextras.Webm.Action.{Action, ◌>>=◌, ◌>>◌, give, fail, read, lift, change}
use zenextras.Webm.Demuxer.State.{WebmDemuxer}
use zenextras.Webm.Demuxer.State.{Input}
use zenextras.Webm.Demuxer.State.{DemuxProgress, need}
use zenextras.Webm.Demuxer.Tracks.{of_codec}
use zenextras.Webm.Demuxer.Scanning.{is_behind}

-- The next header is asked for. An element that runs past the known end is truncated input.
unfoldable pub ask : ℕ → Action WebmDemuxer DemuxProgress
ask consumed = do
  total ← read (λ d. d.total)
  at ← read (λ d. d.pos)
  lift (refuse (is_behind total at) (codec truncated))
  change (λ d. record d {
    requests = d.requests ++ (record { offset = at; len = max_header_len } ∷ []);
  })
  give (consumed, need)

abbrev pub move_to : ℕ → Action WebmDemuxer (Unit {0})
move_to at = change (λ d. record d { pos = at })

-- The element header at `pos`, and what is done with it.
unfoldable pub with_header :
    Input → (Header → Action WebmDemuxer DemuxProgress) → Action WebmDemuxer DemuxProgress
with_header input next = do
  at ← read (λ d. d.pos)
  if not (input.offset == at)
      then ask 0
      else lift (of_codec (header input.bytes)) >>= λ found. elim found [
        | some h ↦ next h
        | none ↦ if input.reaches_end then fail (codec truncated) else ask 0
      ]

-- The whole payload of the element at `pos`, and what is done with it.
unfoldable pub with_body :
    Header → Input → (Bytes → Action WebmDemuxer DemuxProgress) → Action WebmDemuxer DemuxProgress
with_body h input next = do
  whole ← lift (ok_or (total h) (codec unknown_size))
  if leb whole (length input.bytes)
      then next (slice h.len whole input.bytes)
      else if input.reaches_end
      then fail (codec truncated)
      else change
          (λ d. record d { requests = d.requests ++ (record { offset = d.pos; len = whole } ∷ []) })
        >> give (0, need)

-- The element at `pos` is stepped over.
unfoldable pub skip : Header → Input → Action WebmDemuxer DemuxProgress
skip h input = do
  whole ← lift (ok_or (total h) (codec unknown_size))
  change (λ d. record d { pos = add_u64 d.pos whole })
  ask (min whole (length input.bytes))
