-- ===== src/Ivf/WholeFile.antt =====
-- The writer from `begin` to `finish`, and the reader on what it wrote.
use zenextras.Prelude.{ℕ, ◌+◌, ◌^◌, ◌≤◌, ◌<◌, Bool, true, false, none, some}
use zenextras.Prelude.{
  List, [], ◌∷◌, ◌++◌, All, length, ltb, leb, ◌==◌, ==-refl, le→ltb, append_assoc,
}
use zenextras.Prelude.{◌≡◌, refl, sym, ap, ◌∙◌, arith, Result, ok, ◌>>=◌, append-nil}
use zenextras.Prelude.Bytes.{Bytes, to_le_bytes}
use zenextras.Psd.At.{At, At-start, At-step}
use zenextras.Ivf.Frames.{
  Frame, IsFrame, frame_bytes, frames_bytes, IsGenerous, Ready, Reads, packets_of, rest_of,
}
use zenextras.Ivf.RoundTrip.{reads_frames}
use zenextras.Ivf.Types.{SessionError, TimeBase, u16_at, u32_at, fourcc_for, codec_from_fourcc}
use zenextras.Ivf.Reading.{
  IvfDemuxer, Input, headers, Library, Track, track_of, take_header, Outcome,
}
use zenextras.Ivf.Reading.{in_packets, declared_of}
use zenextras.Ivf.Demuxer.{step}
use zenextras.Ivf.Muxer.{
  IvfMuxer, TrackInfo, MuxTiming, streaming, begin, write_packet, finish, Patch,
}
use zenextras.Ivf.Muxer
use zenextras.Ivf.Reading

abbrev pub packet_for : Frame → TimeBase → Muxer.Packet
packet_for f base = record { track = 0; pts = some (f.0, base); payload = some f.1 }

-- Packet after packet, in the order given.
abbrev pub write_all : IvfMuxer → TimeBase → List Frame → Result SessionError IvfMuxer
write_all m base [] = ok m
write_all m base (f ∷ fs) = write_packet m (packet_for f base) true >>= λ m'. write_all m' base fs

abbrev pub mux : TrackInfo → List Frame → Bool → Result SessionError (Bytes × List Patch)
mux track fs forward_only = begin Muxer.new (track ∷ []) forward_only >>= λ r.
    write_all r.0 track.base fs >>= λ m. finish m true

-- What the format can hold of a track.
pub record IsTrack (t : TrackInfo) (f0 f1 f2 f3 : ℕ) : Type 0 where
  pub video : t.is_video ≡ true
  pub named : fourcc_for t.codec_id ≡ some (f0 ∷ f1 ∷ f2 ∷ f3 ∷ [])
  pub wide : (1 ≤ t.coded_width) × (t.coded_width < 2 ^ 16)
  pub high : (1 ≤ t.coded_height) × (t.coded_height < 2 ^ 16)
  pub ticks : (1 ≤ t.base.numerator) × (t.base.numerator < 2 ^ 32)
  pub rate : (1 ≤ t.base.denominator) × (t.base.denominator < 2 ^ 32)

-- A writer that has begun, forwards only, with `out` written.
record Writing (m : IvfMuxer) (base : TimeBase) (out : Bytes) : Type 0 where
  begun : m.begun ≡ true
  forwards : m.patching ≡ false
  clock : m.time_base ≡ some base
  written : m.out ≡ out

write_step :
    (m : IvfMuxer) (base : TimeBase) (out : Bytes) (f : Frame)
    → Writing m base out
    → IsFrame f
    → (m' : IvfMuxer) × (write_packet m (packet_for f base) true ≡ ok m')
      × Writing m' base (out ++ frame_bytes f [])
unfolding write_packet
write_step m base out f w is =
    let more = to_le_bytes 4 (length f.1) ++ (to_le_bytes 8 f.0 ++ f.1) in
    let whole : m.out ++ more ≡ out ++ frame_bytes f [] = rw w.written (
      ap (λ (t : Bytes). out ++ (to_le_bytes 4 (length f.1) ++ (to_le_bytes 8 f.0 ++ t)))
        (sym (append-nil f.1))) in
    let short : leb (2 ^ 32) (length f.1) ≡ false = over_32 (length f.1) is.2 in
    let same : Muxer.same_base base m.time_base ≡ true =
      ap (Muxer.same_base base) w.clock
      ∙ rw (==-refl base.numerator, ==-refl base.denominator) refl in
    (
      record m { out = m.out ++ more; count = m.count + 1 },
      rw (w.begun, same, w.forwards, short) refl,
      record { begun = w.begun; forwards = w.forwards; clock = w.clock; written = whole },
    )
  where
    over_32 : (n : ℕ) → n < 2 ^ 32 → leb (2 ^ 32) n ≡ false
    over_32 n h = ground arith

write_all-frames :
    (fs : List Frame) (m : IvfMuxer) (base : TimeBase) (out : Bytes)
    → Writing m base out
    → All IsFrame fs
    → (m' : IvfMuxer) × (write_all m base fs ≡ ok m') × Writing m' base (out ++ frames_bytes fs)
write_all-frames [] m base out w is = (
  m,
  refl,
  record {
    begun = w.begun;
    forwards = w.forwards;
    clock = w.clock;
    written = w.written ∙ sym (append-nil out);
  },
)
write_all-frames (f ∷ fs) m base out w is =
    let (m1, e, w1) = write_step m base out f w is.0 in
    let (m2, e2, w2) = write_all-frames fs m1 base (out ++ frame_bytes f []) w1 is.1 in
    let whole : (out ++ frame_bytes f []) ++ frames_bytes fs
        ≡ out ++ frame_bytes f (frames_bytes fs) =
      append_assoc out (frame_bytes f []) (frames_bytes fs)
      ∙ ap (λ (t : Bytes). out ++ (to_le_bytes 4 (length f.1) ++ (to_le_bytes 8 f.0 ++ t)))
          (append_assoc f.1 [] (frames_bytes fs)) in
    (
      m2,
      ap (λ (r : Result SessionError IvfMuxer). r >>= λ m'. write_all m' base fs) e ∙ e2,
      record {
        begun = w2.begun;
        forwards = w2.forwards;
        clock = w2.clock;
        written = w2.written ∙ whole;
      },
    )

begin_written :
    (t : TrackInfo) (f0 f1 f2 f3 : ℕ) (forward_only : Bool)
    → IsTrack t f0 f1 f2 f3
    → (m : IvfMuxer) × (begin Muxer.new (t ∷ []) forward_only ≡ ok (m, streaming))
      × Writing m t.base (Muxer.header (f0 ∷ f1 ∷ f2 ∷ f3 ∷ []) t.coded_width t.coded_height t.base)
unfolding begin
begin_written t f0 f1 f2 f3 forward_only is = (
  record Muxer.new {
    out = Muxer.header (f0 ∷ f1 ∷ f2 ∷ f3 ∷ []) t.coded_width t.coded_height t.base;
    time_base = some t.base;
    begun = true;
  },
  rw (is.video, is.named, small t.coded_width is.wide.1, small t.coded_height is.high.1) refl,
  record { begun = refl; forwards = refl; clock = refl; written = refl },
)
  where
    small : (n : ℕ) → n < 2 ^ 16 → leb (2 ^ 16) n ≡ false
    small n h = ground arith

finish_written :
    (m : IvfMuxer) (base : TimeBase) (out : Bytes)
    → Writing m base out
    → finish m true ≡ ok (out, [])
unfolding finish
finish_written m base out w = rw (w.begun, w.forwards, w.written) refl

-- What the reader makes of the writer's track.
abbrev pub track_read : Library → TrackInfo → ℕ → ℕ → ℕ → ℕ → Track
track_read lib t f0 f1 f2 f3 = record {
  codec_id = codec_from_fourcc lib.tag (f0 ∷ f1 ∷ f2 ∷ f3 ∷ []);
  base = t.base;
  width = t.coded_width;
  height = t.coded_height;
  declared_packets = none;
}

header_step :
    (lib : Library) (t : TrackInfo) (f0 f1 f2 f3 : ℕ) (rest : Bytes)
    → IsGenerous lib
    → IsTrack t f0 f1 f2 f3
    → (d : IvfDemuxer) × (step lib true Reading.new (
          rest_of
            (Muxer.header (f0 ∷ f1 ∷ f2 ∷ f3 ∷ []) t.coded_width t.coded_height t.base ++ rest)
            Reading.new)
        ≡ (d, ok (32, headers)))
      × Ready d 32 0 t.base
      × (d.tracks ≡ track_read lib t f0 f1 f2 f3 ∷ [])
unfolding step Reading.header take_header Reading.new track_of codec_from_fourcc
header_step lib t f0 f1 f2 f3 rest law is =
    let b = Muxer.header (f0 ∷ f1 ∷ f2 ∷ f3 ∷ []) t.coded_width t.coded_height t.base ++ rest in
    let long : ltb (length b) 32 ≡ false = le→ltb (length b) 32 (omega arith) in
    let w : u16_at b 12 ≡ t.coded_width = omega (arith, is.wide.1) in
    let h : u16_at b 14 ≡ t.coded_height = omega (arith, is.high.1) in
    let rate : u32_at b 16 ≡ t.base.denominator = omega (arith, is.rate.1) in
    let ticks : u32_at b 20 ≡ t.base.numerator = omega (arith, is.ticks.1) in
    let track = track_read lib t f0 f1 f2 f3 in
    (
      record Reading.new {
        tracks = track ∷ [];
        time_base = some t.base;
        header_bytes = 32;
        start = 32;
        scan_pos = 32;
        state = in_packets;
      },
      rw
          (
            long,
            law.header 32,
            w,
            h,
            rate,
            ticks,
            some_of t.coded_width is.wide.0,
            some_of t.coded_height is.high.0,
            law.bases t.base.numerator t.base.denominator is.ticks.0 is.rate.0,
            law.tracks track,
          )
          refl,
      record { state = refl; place = refl; number = refl; uncounted = refl; clock = refl },
      refl,
    )
  where
    some_of : (n : ℕ) → 1 ≤ n → (n == 0) ≡ false
    some_of n h = ground arith

-- A track of video that the format can hold, and packets with bytes in them, of times that fit: the writer makes a file
-- without a patch, and the reader, stepping through that file with a library that grants every request, first finds the
-- track, then every packet with its time, bytes and number, in order, and then that all are done.
pub read-mux :
    (lib : Library) (t : TrackInfo) (f0 f1 f2 f3 : ℕ) (fs : List Frame) (forward_only : Bool)
    → IsGenerous lib
    → IsTrack t f0 f1 f2 f3
    → All IsFrame fs
    → (out : Bytes) × (mux t fs forward_only ≡ ok (out, []))
      × (d : IvfDemuxer) × (step lib true Reading.new (rest_of out Reading.new)
          ≡ (d, ok (32, headers)))
      × (d.tracks ≡ track_read lib t f0 f1 f2 f3 ∷ [])
      × Reads lib out d (packets_of fs 32 0 t.base)
read-mux lib t f0 f1 f2 f3 fs forward_only law is all =
    let (m, began, w) = begin_written t f0 f1 f2 f3 forward_only is in
    let front = Muxer.header (f0 ∷ f1 ∷ f2 ∷ f3 ∷ []) t.coded_width t.coded_height t.base in
    let (m', wrote, w') = write_all-frames fs m t.base front w all in
    let out = front ++ frames_bytes fs in
    let (d, stepped, ready, tracked) = header_step lib t f0 f1 f2 f3 (frames_bytes fs) law is in
    let behind : At out 32 (frames_bytes fs) =
      At-step out front (frames_bytes fs) 0 32 (At-start out) refl in
    (
      out,
      ap
            (λ (r : Result SessionError (IvfMuxer × MuxTiming)).
              r >>= λ m. write_all m.0 t.base fs >>= λ m. finish m true)
            began
          ∙ ap (λ (r : Result SessionError IvfMuxer). r >>= λ m. finish m true) wrote
          ∙ finish_written m' t.base out w',
      d,
      stepped,
      tracked,
      reads_frames fs lib out d 32 0 t.base law ready all behind,
    )
