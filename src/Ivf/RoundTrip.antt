-- ===== src/Ivf/RoundTrip.antt =====
-- The packets of a file, found by the reader step by step to the end.
use zenextras.Prelude.{ℕ, ◌+◌, ◌≤◌, true, false, Option, none, some}
use zenextras.Prelude.{List, [], ◌∷◌, ◌++◌, All, length, drop, length-append, ◌==◌}
use zenextras.Prelude.{le→ltb, if◌then◌else◌, ◌≡◌, refl, ap, ◌∙◌, arith, ok}
use zenextras.Prelude.{append_assoc, ==-refl}
use zenextras.Prelude.Bytes.{Bytes, to_le_bytes}
use zenextras.Psd.At.{At, At-step}
use zenextras.Ivf.Types.{packet_header_len, TimeBase, count_mismatch, u32_at}
use zenextras.Ivf.Reading.{done, IvfDemuxer, Input}
use zenextras.Ivf.Reading.{found, all_done, Outcome, Library, take_packet, sized_packet}
use zenextras.Ivf.Reading.{packet, fail, is_exhausted, at_end}
use zenextras.Ivf.Demuxer.{step}
use zenextras.Ivf.Demuxer.Steps.{step-packet}
use zenextras.Ivf.Frames.{
  Frame, frame_bytes, frames_bytes, IsFrame, IsGenerous, Ready, rest_of, packet_of,
}
use zenextras.Ivf.Frames.{packets_of, Reads, ended, next}
use zenextras.Ivf.Found.{four_bytes, take_step}

packet_sized :
    (lib : Library) (d : IvfDemuxer) (input : Input)
    → input.offset ≡ d.start
    → packet_header_len ≤ length input.bytes
    → d.declared ≡ none
    → packet lib d input ≡ sized_packet lib d input
unfolding packet
packet_sized lib d input e long uncounted =
    let same : (input.offset == d.start) ≡ true = rw e (==-refl d.start) in
    let some_bytes : (length input.bytes == 0) ≡ false = ground arith in
    let open_end : is_exhausted d.declared d.ordinal ≡ none =
      ap (λ (o : Option ℕ). is_exhausted o d.ordinal) uncounted in
    rw (packet, same, some_bytes, le→ltb (length input.bytes) packet_header_len long, open_end) refl

sized_take :
    (lib : Library) (d : IvfDemuxer) (input : Input) (n : ℕ)
    → IsGenerous lib
    → u32_at input.bytes 0 ≡ n
    → 1 ≤ n
    → packet_header_len + n ≤ length input.bytes
    → sized_packet lib d input ≡ take_packet lib d input.bytes n
unfolding sized_packet
sized_take lib d input n law e some_bytes long =
    let more : (n == 0) ≡ false = ground arith in
    rw
      (
        sized_packet,
        e,
        more,
        law.packets n,
        le→ltb (length input.bytes) (packet_header_len + n) long,
        law.memory n,
      )
      refl

-- A packet that stands at the reader's place is found, whole and with its time, and the reader is behind it.
packet_step :
    (lib : Library) (file : Bytes) (d : IvfDemuxer) (f : Frame) (rest : Bytes) (start ordinal : ℕ)
    (base : TimeBase)
    → IsGenerous lib
    → Ready d start ordinal base
    → IsFrame f
    → At file start (frame_bytes f rest)
    → (d' : IvfDemuxer) × (step lib true d (rest_of file d)
        ≡ (d', ok (packet_header_len + length f.1, found (packet_of f start ordinal base))))
      × Ready d' (start + (packet_header_len + length f.1)) (ordinal + 1) base
packet_step lib file d f rest start ordinal base law r is a =
    let c = record d { requests = [] } in
    let ready : Ready c start ordinal base = record {
      state = r.state;
      place = r.place;
      number = r.number;
      uncounted = r.uncounted;
      clock = r.clock;
    } in
    let here : drop d.start file ≡ frame_bytes f rest = rw r.place a.rest in
    let size : length (drop d.start file) ≡ packet_header_len + length f.1 + length rest =
      ap length here ∙ omega (arith, length-append f.1 rest) in
    let count : u32_at (drop d.start file) 0 ≡ length f.1 =
      ap (λ (t : Bytes). u32_at t 0) here ∙ four_bytes (length f.1) is.2 in
    let (d', taken, ready') = take_step lib c f rest start ordinal base law ready is in
    (
      d',
      step-packet lib d (rest_of file d) r.state
          ∙ packet_sized lib c (rest_of file d) refl (omega (arith, size)) r.uncounted
          ∙ sized_take lib c (rest_of file d) (length f.1) law count is.1 (omega (arith, size))
          ∙ ap (λ (t : Bytes). take_packet lib c t (length f.1)) here
          ∙ taken,
      ready',
    )

end_step :
    (lib : Library) (file : Bytes) (d : IvfDemuxer) (start ordinal : ℕ) (base : TimeBase)
    → Ready d start ordinal base
    → At file start []
    → (d' : IvfDemuxer) × (step lib true d (rest_of file d) ≡ (d', ok (0, all_done)))
unfolding packet at_end
end_step lib file d start ordinal base r a =
    let here : drop d.start file ≡ [] = rw r.place a.rest in
    let same : (d.start == d.start) ≡ true = ==-refl d.start in
    let nothing : (length (drop d.start file) == 0) ≡ true =
      ap (λ (t : Bytes). length t == 0) here in
    let c = record d { requests = [] } in
    (
      record c { state = done; index_complete = true },
      step-packet lib d (rest_of file d) r.state
          ∙ at_the_end lib c (rest_of file d) same nothing
          ∙ ap (end_of c) r.uncounted,
    )
  where
    end_of : IvfDemuxer → Option ℕ → Outcome
    end_of d o =
        let over = record d { state = done; index_complete = true } in
        elim o [
          | none ↦ (over, ok (0, all_done))
          | some n ↦
              if n == d.ordinal
              then (over, ok (0, all_done))
              else fail over (count_mismatch n d.ordinal)
        ]

    at_the_end :
        (lib : Library) (d : IvfDemuxer) (input : Input)
        → (input.offset == d.start) ≡ true
        → (length input.bytes == 0) ≡ true
        → packet lib d (record input { reaches_end = true }) ≡ at_end d
    at_the_end lib d input same nothing = rw (packet, same, nothing) refl

-- Every packet of a file is found, one after the other, and then that all are done.
pub reads_frames :
    (fs : List Frame) (lib : Library) (file : Bytes) (d : IvfDemuxer) (start ordinal : ℕ)
    (base : TimeBase)
    → IsGenerous lib
    → Ready d start ordinal base
    → All IsFrame fs
    → At file start (frames_bytes fs)
    → Reads lib file d (packets_of fs start ordinal base)
reads_frames [] lib file d start ordinal base law r is a =
    let (d', e) = end_step lib file d start ordinal base r a in ended e
reads_frames (f ∷ fs) lib file d start ordinal base law r is a =
    let (d', e, r') = packet_step lib file d f (frames_bytes fs) start ordinal base law r is.0 a in
    let behind : At file (start + (packet_header_len + length f.1)) (frames_bytes fs) =
      At-step file (frame_bytes f []) (frames_bytes fs) start _
        (rw (frame_split f (frames_bytes fs)) a) (omega (arith, length-append f.1 [])) in
    next e (reads_frames fs lib file d' _ (ordinal + 1) base law r' is.1 behind)
  where
    frame_split : (f : Frame) (rest : Bytes) → frame_bytes f [] ++ rest ≡ frame_bytes f rest
    frame_split f rest =
        ap (λ (t : Bytes). to_le_bytes 4 (length f.1) ++ (to_le_bytes 8 f.0 ++ t))
          (append_assoc f.1 [] rest)
