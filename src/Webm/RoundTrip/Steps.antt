-- ===== src/Webm/RoundTrip/Steps.antt =====
-- One step of the reader over a block that the writer made.
use zenextras.Prelude.{ℕ, ◌+◌, ◌≤◌, true, some, le→leb}
use zenextras.Prelude.{[], ◌++◌, length, length-append, append_assoc, ok, ◌==◌}
use zenextras.Prelude.{◌≡◌, refl, ap, ◌∙◌, arith}
use zenextras.Prelude.Bytes.{Bytes, slice, slice-append}
use zenextras.Webm.Ebml.{Header, header, total, put, put_id, put_size}
use zenextras.Webm.Ebml.Fields.{header_len, header_written, length-put_size}
use zenextras.Webm.Ebml.Elements.{IsElement}
use zenextras.Webm.Action.{Action}
use zenextras.Webm.Demuxer.State.{WebmDemuxer, Input, DemuxProgress}
use zenextras.Webm.Demuxer.Elements.{with_header, with_body}
use zenextras.Webm.RoundTrip.Placed.{head_size}

-- The input stands at the reader's position, with a whole element in front.
pub record Holds (d : WebmDemuxer) (input : Input) (e : ℕ × Bytes) (rest : Bytes) : Type 0 where
  pub at : input.offset ≡ d.pos
  pub bytes : input.bytes ≡ put [] e.0 e.1 ++ rest
  pub element : IsElement e

-- The header that the reader finds.
abbrev pub found : ℕ → Bytes → Header
found id p = record { id = id; size = some (length p); len = head_size id p }

module _ (d : WebmDemuxer) (input : Input) (id : ℕ) (p rest : Bytes)
    (h : Holds d input (id, p) rest) where
  split : input.bytes ≡ put_size (put_id [] id) (length p) ++ (p ++ rest)
  unfolding put
  split = h.bytes ∙ append_assoc (put_size (put_id [] id) (length p)) p rest

  header_found : header input.bytes ≡ ok (some (found id p))
  header_found =
      let long : header_len h.element.valid (length p) h.element.fits ≡ head_size id p =
        omega (arith, length-put_size [] id h.element.valid (length p) h.element.fits) in
      ap header split
      ∙ header_written id h.element.valid (length p) h.element.fits (p ++ rest)
      ∙ ap (λ (t : ℕ). ok (some (record { id = id; size = some (length p); len = t }))) long

  pub with_header-found :
      (next : Header → Action WebmDemuxer DemuxProgress)
      → with_header input next d ≡ next (found id p) d
  unfolding with_header
  with_header-found next =
      let here : (input.offset == d.pos) ≡ true = ground (arith, h.at) in rw (here, header_found)

  pub with_body-found :
      (next : Bytes → Action WebmDemuxer DemuxProgress)
      → with_body (found id p) input next d ≡ next p d
  unfolding with_body total
  with_body-found next =
      let end = length p + head_size id p in
      let all : end ≤ length input.bytes = omega (
        arith,
        ap length split,
        length-append (put_size (put_id [] id) (length p)) (p ++ rest),
        length-append p rest,
      ) in
      let payload : slice (head_size id p) end input.bytes ≡ p =
        ap (slice (head_size id p) end) split
        ∙ slice-append (put_size (put_id [] id) (length p)) p rest (head_size id p) end refl
            (omega arith) in
      rw (le→leb end (length input.bytes) all, payload)
