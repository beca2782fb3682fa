-- ===== src/Ivf/Demuxer/Index.antt =====
-- The index of the reader: whatever is asked of it, and whether it succeeds, entry i is that of packet i.
use zenextras.Prelude.{ℕ, ◌+◌, Bool, true, not, ◌&&◌, ◌||◌, none, List, [], ◌∷◌, ◌++◌, length}
use zenextras.Prelude.{ltb, leb, ◌==◌, ==→eq, if-elim, Option-cases, inl, inr, &&-true}
use zenextras.Prelude.{◌≡◌, arith, Result, ok, err}
use zenextras.Prelude.Bytes.{Bytes, slice}
use zenextras.Psd.Header.{bytes_eq}
use zenextras.Ivf.Types.{
  SessionError, signature, header_len, u16_at, u32_at, i64_at, packet_header_len,
}
use zenextras.Ivf.Reading.{
  IndexEntry, State, in_header, in_packets, scanning, done, IvfDemuxer, Input,
}
use zenextras.Ivf.Reading.{
  track_of, all_done, Progress, Outcome, Library, note, take_header, header, at_end, is_exhausted,
  Packet, noted_packet, take_packet,
}
use zenextras.Ivf.Reading.{sized_packet, packet}
use zenextras.Ivf.Seeking.{pick, position, finish_scan, scan_packet, scan}
use zenextras.Ivf.Demuxer.Branches.{either, on_option, on_result}
use zenextras.Ivf.Demuxer.{step}

-- Entries whose ordinals count up from `n`.
abbrev pub Numbered : ℕ → List IndexEntry → Type 0
Numbered n [] = Unit {0}
Numbered n (e ∷ es) = (e.ordinal ≡ n) × Numbered (n + 1) es

abbrev pub IsIndexed : IvfDemuxer → Type 0
IsIndexed d = Numbered 0 d.index

Numbered-concat :
    (es : List IndexEntry) (n : ℕ) (e : IndexEntry)
    → Numbered n es
    → n + length es ≡ e.ordinal
    → Numbered n (es ++ (e ∷ []))
Numbered-concat [] n e h same = (omega arith, tt)
Numbered-concat (x ∷ es) n e h same = (h.0, Numbered-concat es (n + 1) e h.1 (omega arith))

note-IsIndexed :
    (lib : Library) (d : IvfDemuxer) (entry : IndexEntry)
    → IsIndexed d
    → IsIndexed (note lib d entry).0
unfolding note
note-IsIndexed lib d entry h =
    if-elim (λ (o : IvfDemuxer × Result SessionError (Unit {0})). IsIndexed o.0)
      (not d.index_complete && length d.index == entry.ordinal)
      (λ new_one.
        let (_, next) = &&-true (not d.index_complete) _ new_one in
        if-elim (λ (o : IvfDemuxer × Result SessionError (Unit {0})). IsIndexed o.0)
          (lib.table_entries_ok (length d.index + 1))
          (λ _.
            Numbered-concat d.index 0 entry h
              (omega (arith, ==→eq (length d.index) entry.ordinal next)))
          (λ _. h))
      (λ _. h)

-- An outcome whose reader is indexed.
record Kept (o : Outcome) : Type 0 where
  indexed : IsIndexed o.0

kept : (d : IvfDemuxer) (r : Progress) → IsIndexed d → Kept (d, r)
kept d r h = record { indexed = h }

take_header-Kept :
    (lib : Library) (d : IvfDemuxer) (b : Bytes) → IsIndexed d → Kept (take_header lib d b)
unfolding take_header
take_header-Kept lib d b h = either Kept (not (bytes_eq (slice 0 4 b) signature)) (kept _ _ h) (
    either Kept (not (u16_at b 4 == 0)) (kept _ _ h) (
      either Kept (ltb (u16_at b 6) header_len) (kept _ _ h) (
        either Kept (not (lib.header_bytes_ok (u16_at b 6))) (kept _ _ h) (
          either Kept (u16_at b 12 == 0 || u16_at b 14 == 0) (kept _ _ h) (
            either Kept (not (lib.time_base_ok (u32_at b 20) (u32_at b 16))) (kept _ _ h)
              (either Kept (not (lib.track_ok (track_of lib b))) (kept _ _ h) (kept _ _ h)))))))

header-Kept :
    (lib : Library) (d : IvfDemuxer) (input : Input) → IsIndexed d → Kept (header lib d input)
unfolding header
header-Kept lib d input h = either Kept (not (input.offset == 0)) (kept _ _ h) (
    either Kept (ltb (length input.bytes) header_len)
      (either Kept input.reaches_end (kept _ _ h) (kept _ _ h))
      (take_header-Kept lib d input.bytes h))

at_end-Kept : (d : IvfDemuxer) → IsIndexed d → Kept (at_end d)
unfolding at_end
at_end-Kept d h =
    on_option Kept d.declared (kept _ _ h)
      (λ n. either Kept (n == d.ordinal) (kept _ _ h) (kept _ _ h))

take_packet-Kept :
    (lib : Library) (d : IvfDemuxer) (b : Bytes) (n : ℕ)
    → IsIndexed d
    → Kept (take_packet lib d b n)
unfolding take_packet noted_packet
take_packet-Kept lib d b n h =
    let entry : IndexEntry = record { offset = d.start; pts = i64_at b 4; ordinal = d.ordinal } in
    let noted = note-IsIndexed lib d entry h in after d _ _ (note lib d entry) noted
  where
    after :
        (d : IvfDemuxer) (total : ℕ) (packet : Packet)
        (o : IvfDemuxer × Result SessionError (Unit {0}))
        → IsIndexed o.0
        → Kept (noted_packet d total packet o)
    after d total packet (noted, err e) h = kept _ _ h
    after d total packet (noted, ok u) h = kept _ _ h

sized_packet-Kept :
    (lib : Library) (d : IvfDemuxer) (input : Input) → IsIndexed d → Kept (sized_packet lib d input)
unfolding sized_packet
sized_packet-Kept lib d input h =
    let n = u32_at input.bytes 0 in
    either Kept (n == 0) (kept _ _ h) (
      either Kept (not (lib.packet_bytes_ok n)) (kept _ _ h) (
        either Kept (ltb (length input.bytes) (packet_header_len + n))
          (either Kept input.reaches_end (kept _ _ h) (kept _ _ h))
          (either Kept (not (lib.reserve_ok n)) (kept _ _ h)
            (take_packet-Kept lib d input.bytes n h))))

packet-Kept :
    (lib : Library) (d : IvfDemuxer) (input : Input) → IsIndexed d → Kept (packet lib d input)
unfolding packet
packet-Kept lib d input h = either Kept (not (input.offset == d.start)) (kept _ _ h) (
    either Kept (length input.bytes == 0 && input.reaches_end) (at_end-Kept d h) (
      either Kept (ltb (length input.bytes) packet_header_len)
        (either Kept input.reaches_end (kept _ _ h) (kept _ _ h))
        (on_option Kept (is_exhausted d.declared d.ordinal) (sized_packet-Kept lib d input h)
          (λ n. kept _ _ h))))

position-Kept : (d : IvfDemuxer) (e : IndexEntry) → IsIndexed d → IsIndexed (position d e).0
unfolding position
position-Kept d e h = elim (Option-cases d.time_base) [ inl t ↦ rw t h | inr (tb, t) ↦ rw t h ]

finish_scan-Kept : (d : IvfDemuxer) (consumed : ℕ) → IsIndexed d → Kept (finish_scan d consumed)
unfolding finish_scan
finish_scan-Kept d consumed h =
    let complete = record d { index_complete = true; pending_seek = none } in
    on_option Kept d.pending_seek (kept _ _ h) (λ target.
      on_result Kept (pick complete target) (λ x. kept _ _ h)
        (λ entry. kept _ _ (position-Kept complete entry h)))

scan_packet-Kept :
    (lib : Library) (d : IvfDemuxer) (input : Input) (total : ℕ)
    → IsIndexed d
    → Kept (scan_packet lib d input total)
unfolding scan_packet
scan_packet-Kept lib d input total h =
    let n = u32_at input.bytes 0 in
    let entry : IndexEntry = record {
      offset = d.scan_pos;
      pts = i64_at input.bytes 4;
      ordinal = d.scan_ordinal;
    } in
    let noted = note-IsIndexed lib d entry h in
    let end = d.scan_pos + packet_header_len + n in
    let moved = record (note lib d entry).0 { scan_pos = end; scan_ordinal = d.scan_ordinal + 1 } in
    either Kept (n == 0) (kept _ _ h) (
      on_result Kept (note lib d entry).1 (λ x. kept _ _ noted)
        (λ u. either Kept (ltb total end) (kept _ _ noted) (
          either Kept (end == total) (finish_scan-Kept moved packet_header_len noted)
            (kept _ _ noted))))

scan-Kept : (lib : Library) (d : IvfDemuxer) (input : Input) → IsIndexed d → Kept (scan lib d input)
unfolding scan
scan-Kept lib d input h = on_option Kept input.total_len (kept _ _ h) (λ total.
    (either Kept (leb total d.scan_pos) (finish_scan-Kept d 0 h) (
      either Kept (not (input.offset == d.scan_pos) || ltb (length input.bytes) packet_header_len)
        (either Kept (input.offset == d.scan_pos && input.reaches_end) (kept _ _ h) (kept _ _ h))
        (scan_packet-Kept lib d input total h))))

in_state-Kept :
    (lib : Library) (d : IvfDemuxer) (input : Input) (s : State)
    → IsIndexed d
    → Kept (elim s [
      | in_header ↦ header lib d input
      | in_packets ↦ packet lib d input
      | scanning ↦ scan lib d input
      | done ↦ (d, ok (0, all_done))
    ])
in_state-Kept lib d input in_header h = header-Kept lib d input h
in_state-Kept lib d input in_packets h = packet-Kept lib d input h
in_state-Kept lib d input scanning h = scan-Kept lib d input h
in_state-Kept lib d input done h = kept _ _ h

-- A step keeps the index numbered from 0 in order, in every state, on every input, and where it fails.
pub step-IsIndexed :
    (lib : Library) (pulse : Bool) (d : IvfDemuxer) (input : Input)
    → IsIndexed d
    → IsIndexed (step lib pulse d input).0
unfolding step
step-IsIndexed lib pulse d input h =
    let cleared = record d { requests = [] } in
    let after : Kept (step lib pulse d input) =
      either Kept (not pulse) (kept _ _ h) (in_state-Kept lib cleared input d.state h) in
    after.indexed
