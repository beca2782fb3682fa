-- ===== src/Webm/RoundTrip/Writing.antt =====
-- The writer as a whole: a packet that it takes is a block of the open cluster, and failures leave the cluster sound.
use zenextras.Prelude.{
  ℕ, ◌<◌, Bool, true, false, not, ◌==◌, Option, some, List, [], ◌∷◌, ◌++◌, if◌then◌else◌, refl,
}
use zenextras.Prelude.{Result, ok, err, ok_or, ok_or-eq-ok, refuse, get_elem?, subst, ◌≡◌, sym}
use zenextras.Prelude.Bytes.{Bytes}
use zenextras.Prelude.Int.{ℤ, IsI64, sub_i64}
use zenextras.Webm.Types.{SessionError, Timestamp, Packet}
use zenextras.Webm.Types.{
  codec, interrupted, no_begin, missing_timestamp, clock_mismatch, no_payload,
}
use zenextras.Webm.Error.{no_such_track, epoch_change}
use zenextras.Webm.Action.{Action, Ensures, lift-Ensures, continue}
use zenextras.Webm.Muxer.State.{WebmMuxer, OpenCluster, MuxTrack, Library}
use zenextras.Webm.Muxer.Blocks.{Block, without_temporal_delimiter}
use zenextras.Webm.Muxer.Delimiter.{
  IsWithoutDelimiter, without_temporal_delimiter-IsWithoutDelimiter,
}
use zenextras.Webm.Muxer.Times.{ticks}
use zenextras.Webm.Muxer.{
  write_packet, block_in, place_packet, into_cluster, padding_ns, duration_of, same_base,
}
use zenextras.Webm.RoundTrip.Groups.{IsDuration, IsPadding}
use zenextras.Webm.RoundTrip.Clusters.{
  Carries, IsOpen, IsPacket, given, Holding, into_cluster-Holding,
}
use zenextras.Webm.RoundTrip.TimeSteps.{Same, Same-refl, IsClock, IsTick, Timed, ticks-Timed}
use zenextras.Webm.RoundTrip.Lengths.{
  IsLasting, IsTrimmed, IsDiscard, padding_ns-Timed, duration_of-Timed,
}

-- The bytes of a block: a temporal delimiter in front of a payload of AV1 is dropped.
abbrev pub IsBody : Bool → Bytes → Bytes → Type 0
IsBody false payload body = body ≡ payload
IsBody true payload body = IsWithoutDelimiter payload body

-- The block `b` of a packet with the time `at`, in a cluster with the time `base`.
pub record IsBlockOf (track : MuxTrack) (packet : Packet) (payload : Bytes) (base at : ℤ)
    (b : Block) : Type 0 where
  pub index : b.index ≡ packet.track
  pub ticks : b.ticks ≡ at
  pub rel : b.rel ≡ sub_i64 at base
  pub flag : b.random_access ≡ packet.random_access
  pub body : IsBody track.av1 payload b.body
  pub additions : b.additions ≡ packet.additions
  pub prev : b.prev ≡ track.last_ticks

-- A packet was written by the writer `m`, which left the writer `m'`: the last block of the open cluster is the packet's.
pub record Written (lib : Library) (packet : Packet) (m m' : WebmMuxer) : Type 0 where
  pub track : MuxTrack
  pub of_track : get_elem? m.tracks packet.track ≡ some track
  pub pts : Timestamp
  pub timed : packet.pts ≡ some pts
  pub payload : Bytes
  pub taken : packet.payload ≡ some payload
  pub at : ℤ
  pub tick : IsTick lib m.segment m.exact pts at
  pub cluster : OpenCluster
  pub before : List Block
  pub block : Block
  pub opened : m'.cluster ≡ some cluster
  pub carried : Carries cluster (before ++ (block ∷ []))
  pub own : IsBlockOf track packet payload cluster.base at block
  pub duration : IsLasting lib m.segment m.exact pts at packet.duration_ticks block.duration
  pub padding : IsTrimmed packet.discard block.padding

-- The sizes of a packet that still has its bytes.
abbrev pub IsSized : Packet → Type 0
IsSized packet = (payload : Bytes) → packet.payload ≡ some payload → IsPacket packet payload

given-IsBlockOf :
    (track : MuxTrack) (packet : Packet) (at : ℤ) (duration : Option ℕ) (padding : Option ℤ)
    (payload : Bytes) (c : OpenCluster)
    → IsBlockOf track packet payload c.base at (given track packet at duration padding payload c)
unfolding block_in
given-IsBlockOf track packet at duration padding payload c = record {
  index = refl;
  ticks = refl;
  rel = refl;
  flag = refl;
  body = by_codec track.av1;
  additions = refl;
  prev = refl;
}
  where
    by_codec :
        (av1 : Bool)
        → IsBody av1 payload (if av1 then without_temporal_delimiter payload else payload)
    by_codec true = without_temporal_delimiter-IsWithoutDelimiter payload
    by_codec false = refl

module _ (lib : Library) (packet : Packet) (clock : IsClock lib) (numbered : packet.track < 126)
    (sized : IsSized packet) (lengths : IsDiscard packet.discard) (m : WebmMuxer)
    (open' : IsOpen m.cluster) where
  Sound : WebmMuxer × Result SessionError (Unit {0}) → Type 0
  Sound = Ensures (λ _ m'. Written lib packet m m') (λ m'. IsOpen m'.cluster)

  -- The cluster is as it was.
  moved : (m' : WebmMuxer) → Same m m' → IsOpen m'.cluster
  moved m' same = subst IsOpen (sym same.cluster) open'

  -- A reading of times before the rest of the packet.
  Timed-first :
      {A : Type 0} (P : A → Type 0) (r : WebmMuxer × Result SessionError A)
      (next : A → Action WebmMuxer (Unit {0}))
      → Timed P m r
      → ((a : A) (m' : WebmMuxer) → Same m m' → P a → Sound (next a m'))
      → Sound (continue r next)
  unfolding Sound
  Timed-first P (m', ok a) next h rest = rest a m' h.0 h.1
  Timed-first P (m', err e) next h rest = moved m' h

  place_packet-Sound :
      (track : MuxTrack) (pts : Timestamp)
      → get_elem? m.tracks packet.track ≡ some track
      → packet.pts ≡ some pts
      → Sound (place_packet lib track packet pts m)
  unfolding place_packet Sound block_in
  place_packet-Sound track pts of_track timed =
      Timed-first (λ p. IsPadding p × IsTrimmed packet.discard p) (padding_ns packet.discard m) _
        (padding_ns-Timed packet.discard m m lengths (Same-refl m))
        (λ padding m1 same1 padded.
          Timed-first (λ z. IsI64 z × IsTick lib m.segment m.exact pts z) (ticks lib pts m1) _
            (ticks-Timed lib pts m m1 clock same1)
            (λ at m2 same2 time.
              Timed-first
                (λ l. IsDuration l × IsLasting lib m.segment m.exact pts at packet.duration_ticks l)
                (duration_of lib pts at packet.duration_ticks m2) _
                (duration_of-Timed lib pts at packet.duration_ticks m m2 clock same2)
                (λ duration m3 same3 lasting.
                  lift-Ensures (λ _ m'. Written lib packet m m') (λ m'. IsOpen m'.cluster)
                    (ok_or packet.payload no_payload) m3 _ (moved m3 same3)
                    (λ payload e.
                      written padding at duration payload (ok_or-eq-ok _ _ e) time.1 lasting.1
                        padded.1 (into_cluster track packet at duration padding payload m3)
                        (into_cluster-Holding track packet at duration padding payload numbered
                          time.0 lasting.0 padded.0 (sized payload (ok_or-eq-ok _ _ e)) m3
                          (moved m3 same3))))))
    where
      written :
          (padding : Option ℤ) (at : ℤ) (duration : Option ℕ) (payload : Bytes)
          → packet.payload ≡ some payload
          → IsTick lib m.segment m.exact pts at
          → IsLasting lib m.segment m.exact pts at packet.duration_ticks duration
          → IsTrimmed packet.discard padding
          → (r : WebmMuxer × Result SessionError (Unit {0}))
          → Ensures
              (λ _ m'. Holding track packet at duration padding payload m')
              (λ m'. IsOpen m'.cluster)
              r
          → Ensures (λ _ m'. Written lib packet m m') (λ m'. IsOpen m'.cluster) r
      written padding at duration payload taken tick lasting trimmed (m', ok a)
            (c, bs, e, carries) =
          record {
            track = track;
            of_track = of_track;
            pts = pts;
            timed = timed;
            payload = payload;
            taken = taken;
            at = at;
            tick = tick;
            cluster = c;
            before = bs;
            block = given track packet at duration padding payload c;
            opened = e;
            carried = carries;
            own = given-IsBlockOf track packet at duration padding payload c;
            duration = lasting;
            padding = trimmed;
          }
      written padding at duration payload taken tick lasting trimmed (m', err x) h = h

  check :
      {A : Type 0} (r : Result SessionError A) (next : A → Action WebmMuxer (Unit {0}))
      → ((a : A) → r ≡ ok a → Sound (next a m))
      → Sound (continue (m, r) next)
  unfolding Sound
  check (ok a) next rest = rest a refl
  check (err e) next rest = open'

  -- Writing a packet, by a clock that gives an `i64`, for a track number below 126, with sizes that fields hold and lengths
  -- of time that have denominators, leaves an open cluster of whole blocks such a cluster, also where it fails. Where it succeeds, a cluster
  -- is open, and its last block is the packet's: it has the track, the flag and the additions, the bytes, without a
  -- leading temporal delimiter on an AV1 track, and the time in ticks of the segment, less the cluster's as a difference
  -- of two `i64`; its duration is from that tick to the one of the packet's end, and its padding the discarded length in
  -- nanoseconds. Ticks and nanoseconds are exact, or the nearest.
  pub write_packet-Sound :
      (pulse : Bool)
      → Ensures
          (λ _ m'. Written lib packet m m')
          (λ m'. IsOpen m'.cluster)
          (write_packet lib packet pulse m)
  unfolding write_packet Sound
  write_packet-Sound pulse = check (refuse (not pulse) interrupted) _ (λ _ _.
      check (refuse (not m.begun) no_begin) _ (λ _ _.
        check (ok_or (get_elem? m.tracks packet.track) (codec no_such_track)) _ (λ track known.
          check (refuse (not (packet.config_epoch == track.epoch)) (codec epoch_change)) _ (λ _ _.
            check (ok_or packet.pts missing_timestamp) _ (λ pts timed.
              check (refuse (not (same_base pts.base track.time_base)) clock_mismatch) _ (λ _ _.
                place_packet-Sound track pts (ok_or-eq-ok _ _ known) (ok_or-eq-ok _ _ timed)))))))
