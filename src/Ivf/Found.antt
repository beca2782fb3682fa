-- ===== src/Ivf/Found.antt =====
-- A packet that stands in front of the reader, taken: the index entry, the places, and what is handed on.
use zenextras.Prelude.{ℕ, ◌+◌, ◌-◌, ◌^◌, ◌<◌, not, Option}
use zenextras.Prelude.{◌++◌, length, take, take-append, ◌==◌}
use zenextras.Prelude.{◌≡◌, refl, ap, ◌∙◌, arith, Result, ok, err}
use zenextras.Prelude.{Bool-cases, inl, inr, ◌&&◌}
use zenextras.Prelude.Bytes.{Bytes, slice, to_le_bytes, le_bytes, le_bytes-to_le_bytes}
use zenextras.Ivf.Types.{packet_header_len, TimeBase, i64_at, SessionError}
use zenextras.Ivf.Reading.{IndexEntry, IvfDemuxer, Packet}
use zenextras.Ivf.Reading.{found, Library, note, noted_packet, take_packet}
use zenextras.Ivf.Frames.{Frame, frame_bytes, IsFrame, IsGenerous, Ready, packet_of}

pub note_granted :
    (lib : Library) (d : IvfDemuxer) (e : IndexEntry) (start ordinal : ℕ) (base : TimeBase)
    → IsGenerous lib
    → Ready d start ordinal base
    → ((note lib d e).1 ≡ ok tt) × Ready (note lib d e).0 start ordinal base
unfolding note
note_granted lib d e start ordinal base law r =
    elim (Bool-cases (not d.index_complete && length d.index == e.ordinal)) [
      | inl new_one ↦
          rw (new_one, law.entries (length d.index + 1))
            (
              refl,
              record {
                state = r.state;
                place = r.place;
                number = r.number;
                uncounted = r.uncounted;
                clock = r.clock;
              },
            )
      | inr old ↦ rw old (refl, r)
    ]

pub four_bytes : (n : ℕ) → n < 2 ^ 32 → le_bytes (to_le_bytes 4 n) ≡ n
four_bytes n h = omega arith

eight_bytes : (n : ℕ) → n < 2 ^ 64 → le_bytes (to_le_bytes 8 n) ≡ n
eight_bytes n h = le_bytes-to_le_bytes 8 n h

payload_at :
    (f : Frame) (rest : Bytes)
    → slice packet_header_len (packet_header_len + length f.1) (frame_bytes f rest) ≡ f.1
payload_at f rest =
    let n : packet_header_len + length f.1 - packet_header_len ≡ length f.1 = omega arith in
    ap (λ (k : ℕ). take k (f.1 ++ rest)) n ∙ take-append f.1 rest (length f.1) refl

noted_granted :
    (d : IvfDemuxer) (total : ℕ) (p : Packet) (o : IvfDemuxer × Result SessionError (Unit {0}))
    → o.1 ≡ ok tt
    → (d' : IvfDemuxer) × (noted_packet d total p o ≡ (d', ok (total, found p)))
      × (d'.state ≡ o.0.state)
      × (d'.start ≡ d.start + total)
      × (d'.ordinal ≡ d.ordinal + 1)
      × (d'.declared ≡ o.0.declared)
      × (d'.time_base ≡ o.0.time_base)
unfolding noted_packet
noted_granted d total p (noted, err e) h = cc
noted_granted d total p (noted, ok _) h = (_, refl, refl, refl, refl, refl, refl)

pub take_step :
    (lib : Library) (d : IvfDemuxer) (f : Frame) (rest : Bytes) (start ordinal : ℕ)
    (base : TimeBase)
    → IsGenerous lib
    → Ready d start ordinal base
    → IsFrame f
    → (d' : IvfDemuxer) × (take_packet lib d (frame_bytes f rest) (length f.1)
        ≡ (d', ok (packet_header_len + length f.1, found (packet_of f start ordinal base))))
      × Ready d' (start + (packet_header_len + length f.1)) (ordinal + 1) base
unfolding take_packet
take_step lib d f rest start ordinal base law r is =
    let b = frame_bytes f rest in
    let total = packet_header_len + length f.1 in
    let entry : IndexEntry = record { offset = d.start; pts = i64_at b 4; ordinal = d.ordinal } in
    let read : Packet = record {
      payload = slice packet_header_len total b;
      pts = i64_at b 4;
      base = d.time_base;
      ordinal = d.ordinal;
      input_offset = d.start + packet_header_len;
    } in
    let (granted, ready) = note_granted lib d entry start ordinal base law r in
    let (d', taken, same_state, moved, counted, same_count, same_clock) =
      noted_granted d total read (note lib d entry) granted in
    let right : read ≡ packet_of f start ordinal base =
      same_packet (payload_at f rest) (eight_bytes f.0 is.0) r.clock r.number
        (ap (λ (t : ℕ). t + packet_header_len) r.place) in
    (
      d',
      taken ∙ ap (λ (p : Packet). (d', ok (total, found p))) right,
      record {
        state = same_state ∙ ready.state;
        place = omega (arith, moved, r.place);
        number = omega (arith, counted, r.number);
        uncounted = same_count ∙ ready.uncounted;
        clock = same_clock ∙ ready.clock;
      },
    )
  where
    same_packet :
        {p p' : Bytes} {t t' : ℕ} {b b' : Option TimeBase} {o o' i i' : ℕ}
        → p ≡ p'
        → t ≡ t'
        → b ≡ b'
        → o ≡ o'
        → i ≡ i'
        → ◌≡◌ {A = Packet}
            (record { payload = p; pts = t; base = b; ordinal = o; input_offset = i })
            (record { payload = p'; pts = t'; base = b'; ordinal = o'; input_offset = i' })
    same_packet ep et eb eo ei =
        λ k. record { payload = ep k; pts = et k; base = eb k; ordinal = eo k; input_offset = ei k }
