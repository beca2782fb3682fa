-- ===== src/Ivf/Demuxer/Count.antt =====
-- The frame count of a header against the packets that were found.
use zenextras.Prelude.{
  ℕ, ◌+◌, Bool, true, false, not, ◌&&◌, Option, none, some, [], length, ltb, ◌==◌, ==→eq,
  Bool-cases,
}
use zenextras.Prelude.{
  if◌then◌else◌, ok, err, Result, ◌≡◌, refl, ap, ◌∙◌, sym, ◌⊎◌, inl, inr, Option-cases,
}
use zenextras.Ivf.Types.{SessionError, packet_header_len, u32_at, count_mismatch, interrupted}
use zenextras.Ivf.Reading.{in_packets, done, IvfDemuxer, Input, Packet}
use zenextras.Ivf.Reading.{all_done, Progress, Outcome, Library, noted_packet, take_packet}
use zenextras.Ivf.Reading.{sized_packet, is_exhausted, packet, at_end, fail}
use zenextras.Ivf.Demuxer.Steps.{step-packet}
use zenextras.Ivf.Demuxer.{step}
use zenextras.Ivf.Demuxer.Branches.{either, on_option}

-- Whether an answer says that all is done.
abbrev says_done : Progress → Bool
says_done (ok (n, all_done)) = true
says_done _ = false

-- The reader has no count, or has found as many packets as were declared.
abbrev pub IsComplete : IvfDemuxer → Type 0
IsComplete d = (d.declared ≡ none) ⊎ (d.declared ≡ some d.ordinal)

-- If the outcome says that all is done, the reader `d` was complete.
record Ends (d : IvfDemuxer) (o : Outcome) : Type 0 where
  complete : says_done o.1 ≡ true → IsComplete d

other : (d : IvfDemuxer) (d' : IvfDemuxer) (r : Progress) → says_done r ≡ false → Ends d (d', r)
other d d' r e = record { complete = λ h. cc }

at_end-Ends : (d : IvfDemuxer) → Ends d (at_end d)
unfolding at_end
at_end-Ends d = elim (Option-cases d.declared) [
  | inl e ↦ record { complete = λ h. inl e }
  | inr (n, e) ↦ elim (Bool-cases (n == d.ordinal)) [
    | inl same ↦ record {
      complete = λ h. inr (e ∙ ap (λ (t : ℕ). some t) (==→eq n d.ordinal same));
    }
    | inr differs ↦
        let refused : says_done (at_end d).1 ≡ false =
          ap (λ (o : Option ℕ). says_done (ended o).1) e ∙ rw differs refl in
        record { complete = λ h. cc }
  ]
]
  where
    ended : Option ℕ → Outcome
    ended o =
        let over = record d { state = done; index_complete = true } in
        elim o [
          | none ↦ (over, ok (0, all_done))
          | some n ↦
              if n == d.ordinal
              then (over, ok (0, all_done))
              else fail over (count_mismatch n d.ordinal)
        ]

noted_packet-Ends :
    (d c : IvfDemuxer) (total : ℕ) (p : Packet) (o : IvfDemuxer × Result SessionError (Unit {0}))
    → Ends c (noted_packet d total p o)
unfolding noted_packet
noted_packet-Ends d c total p (noted, err e) = other c _ _ refl
noted_packet-Ends d c total p (noted, ok u) = other c _ _ refl

sized_packet-Ends :
    (lib : Library) (d : IvfDemuxer) (input : Input) → Ends d (sized_packet lib d input)
unfolding sized_packet take_packet
sized_packet-Ends lib d input =
    let n = u32_at input.bytes 0 in
    either (Ends d) (n == 0) (other d _ _ refl) (
      either (Ends d) (not (lib.packet_bytes_ok n)) (other d _ _ refl) (
        either (Ends d) (ltb (length input.bytes) (packet_header_len + n))
          (either (Ends d) input.reaches_end (other d _ _ refl) (other d _ _ refl))
          (either (Ends d) (not (lib.reserve_ok n)) (other d _ _ refl)
            (noted_packet-Ends d d _ _ _))))

packet-Ends : (lib : Library) (d : IvfDemuxer) (input : Input) → Ends d (packet lib d input)
unfolding packet
packet-Ends lib d input = either (Ends d) (not (input.offset == d.start)) (other d _ _ refl) (
    either (Ends d) (length input.bytes == 0 && input.reaches_end) (at_end-Ends d) (
      either (Ends d) (ltb (length input.bytes) packet_header_len)
        (either (Ends d) input.reaches_end (other d _ _ refl) (other d _ _ refl))
        (on_option (Ends d) (is_exhausted d.declared d.ordinal) (sized_packet-Ends lib d input)
          (λ n. other d _ _ refl))))

-- A reader between packets says that all is done only where no count was declared, or exactly as many packets
-- were found as the header declares.
pub step-IsComplete :
    (lib : Library) (pulse : Bool) (d d' : IvfDemuxer) (input : Input) (n : ℕ)
    → d.state ≡ in_packets
    → step lib pulse d input ≡ (d', ok (n, all_done))
    → IsComplete d
unfolding step
step-IsComplete lib false d d' input n e h = absurd (interrupted_step (ap (λ (o : Outcome). o.1) h))
  where
    interrupted_step : ¬ (◌≡◌ {A = Progress} (err interrupted) (ok (n, all_done)))
    interrupted_step e = cc
step-IsComplete lib true d d' input n e h =
    let c = record d { requests = [] } in
    let ends : Ends c (packet lib c input) = packet-Ends lib c input in
    ends.complete (ap (λ (o : Outcome). says_done o.1) (sym (step-packet lib d input e) ∙ h))
