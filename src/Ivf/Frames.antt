-- ===== src/Ivf/Frames.antt =====
-- Packets as bytes of a file, and what it is for a reader to find them: the steps that it takes, and the packets
-- that they give.
use zenextras.Prelude.{ℕ, ◌+◌, ◌^◌, ◌≤◌, ◌<◌, true, none, some}
use zenextras.Prelude.{List, [], ◌∷◌, ◌++◌, length, drop}
use zenextras.Prelude.{◌≡◌, ok}
use zenextras.Prelude.Bytes.{Bytes, to_le_bytes}
use zenextras.Ivf.Types.{packet_header_len, TimeBase}
use zenextras.Ivf.Reading.{in_packets, IvfDemuxer, Input, Packet}
use zenextras.Ivf.Reading.{found, all_done, Library, Track}
use zenextras.Ivf.Demuxer.{step}

-- A packet's time and bytes.
abbrev pub Frame : Type 0
Frame = ℕ × Bytes

abbrev pub frame_bytes : Frame → Bytes → Bytes
frame_bytes f rest = to_le_bytes 4 (length f.1) ++ (to_le_bytes 8 f.0 ++ (f.1 ++ rest))

abbrev pub frames_bytes : List Frame → Bytes
frames_bytes [] = []
frames_bytes (f ∷ fs) = frame_bytes f (frames_bytes fs)

-- What the format asks of a packet.
abbrev pub IsFrame : Frame → Type 0
IsFrame f = (f.0 < 2 ^ 64) × (1 ≤ length f.1) × (length f.1 < 2 ^ 32)

-- A library that grants every request.
pub record IsGenerous (lib : Library) : Type 0 where
  pub entries : (n : ℕ) → lib.table_entries_ok n ≡ true
  pub header : (n : ℕ) → lib.header_bytes_ok n ≡ true
  pub packets : (n : ℕ) → lib.packet_bytes_ok n ≡ true
  pub memory : (n : ℕ) → lib.reserve_ok n ≡ true
  pub bases : (n d : ℕ) → 1 ≤ n → 1 ≤ d → lib.time_base_ok n d ≡ true
  pub tracks : (t : Track) → lib.track_ok t ≡ true

-- The reader between two packets, with no count declared.
pub record Ready (d : IvfDemuxer) (start ordinal : ℕ) (base : TimeBase) : Type 0 where
  pub state : d.state ≡ in_packets
  pub place : d.start ≡ start
  pub number : d.ordinal ≡ ordinal
  pub uncounted : d.declared ≡ none
  pub clock : d.time_base ≡ some base

-- All of a file from the reader's place on.
abbrev pub rest_of : Bytes → IvfDemuxer → Input
rest_of file d = record {
  offset = d.start;
  bytes = drop d.start file;
  total_len = some (length file);
  reaches_end = true;
}

abbrev pub packet_of : Frame → ℕ → ℕ → TimeBase → Packet
packet_of f start ordinal base = record {
  payload = f.1;
  pts = f.0;
  base = some base;
  ordinal = ordinal;
  input_offset = start + packet_header_len;
}

abbrev pub packets_of : List Frame → ℕ → ℕ → TimeBase → List Packet
packets_of [] start ordinal base = []
packets_of (f ∷ fs) start ordinal base =
    packet_of f start ordinal base
    ∷ packets_of fs (start + (packet_header_len + length f.1)) (ordinal + 1) base

-- The packets that a reader finds, step by step, until it says that all are done.
pub data Reads (lib : Library) (file : Bytes) : IvfDemuxer → List Packet → Type 0 where
  ended :
      {d d' : IvfDemuxer}
      → step lib true d (rest_of file d) ≡ (d', ok (0, all_done))
      → Reads lib file d []
  next :
      {d d' : IvfDemuxer} {n : ℕ} {p : Packet} {ps : List Packet}
      → step lib true d (rest_of file d) ≡ (d', ok (n, found p))
      → Reads lib file d' ps
      → Reads lib file d (p ∷ ps)
