-- ===== src/Webm/RoundTrip/BlockSteps.antt =====
-- The step of the reader over the element of a block: it answers with the packet.
use zenextras.Prelude.{ℕ, ◌+◌, Bool, true, false, some}
use zenextras.Prelude.{
  [], length, ok, ◌==◌, if◌then◌else◌, ◌≡◌, refl, ap, arith, length-append, Bool-cases, inl, inr,
}
use zenextras.Prelude.Bytes.{Bytes}
use zenextras.Prelude.Int.{ℤ, add_u64}
use zenextras.Webm.Ebml.{total, put}
use zenextras.Webm.Ebml.Elements.{length-put}
use zenextras.Webm.Ebml.Ids
use zenextras.Webm.Muxer.Blocks.{Block, is_simple, simple_entry, group_entry}
use zenextras.Webm.Demuxer.State.{WebmDemuxer, Library, Input, packet, Cluster}
use zenextras.Webm.Demuxer.Blocks.{bump}
use zenextras.Webm.Demuxer.Scanning.{is_at}
use zenextras.Webm.Demuxer.{
  body_step, body_element, cluster_child, known_child, pop, overruns, parent_end, is_block,
  leave_known,
}
use zenextras.Webm.Demuxer.Opening.{is_some, is_empty_end}
use zenextras.Webm.RoundTrip.WholeGroup.{IsBlock}
use zenextras.Webm.RoundTrip.Placed.{head_size}
use zenextras.Webm.RoundTrip.Packets.{
  Accepts, packet_of, block_element, frame_place, take_child-put_block,
}
use zenextras.Webm.RoundTrip.Steps.{Holds, found, with_header-found, with_body-found}

-- A reader inside a cluster that has not ended, with no packet waiting, before an element of a limited size that the
-- cluster has room for.
pub record Inside (lib : Library) (d : WebmDemuxer) (e : ℕ × Bytes) : Type 0 where
  pub cluster : Cluster
  pub entered : d.cluster ≡ some cluster
  pub cluster_goes_on : is_at cluster.end d.pos ≡ false
  pub segment_goes_on : is_at d.segment_end d.pos ≡ false
  pub room : overruns d.pos (total (found e.0 e.1)) (parent_end d) ≡ false
  pub size_limit : lib.check_packet_bytes (length e.1) ≡ true
  pub idle : d.pending ≡ []

-- How long the element of a block is, where the frame of the block stands, and the reader behind the element.
abbrev pub element_size : Block → ℕ
element_size b = head_size (block_element b).0 (block_element b).1 + length (block_element b).1

abbrev pub frame_start : WebmDemuxer → Block → ℕ
frame_start d b = add_u64 d.pos (head_size (block_element b).0 (block_element b).1) + frame_place b

abbrev pub behind : WebmDemuxer → Block → WebmDemuxer
behind d b = record d {
  ordinals = bump d.ordinals b.index 1;
  pos = add_u64 d.pos (element_size b);
  pending = [];
}

module _ (lib : Library) (d : WebmDemuxer) (input : Input) (base : ℤ) (b : Block) (rest : Bytes)
    (acc : Accepts lib d base b) (w : IsBlock b) (within : Inside lib d (block_element b))
    (h : Holds d input (block_element b) rest) where
  known_child-block :
      is_block (block_element b).0 ≡ true
      → known_child lib (found (block_element b).0 (block_element b).1) input d
        ≡ (behind d b, ok (element_size b, packet (packet_of lib d base b (frame_start d b))))
  unfolding known_child pop
  known_child-block e = rw (
    e,
    within.size_limit,
    with_body-found d input (block_element b).0 (block_element b).1 rest h,
    take_child-put_block lib d base b
        (add_u64 d.pos (head_size (block_element b).0 (block_element b).1)) acc w,
    within.idle,
  )

  id_known : (is_block (block_element b).0 ≡ true) × (Ids.is_top_level (block_element b).0 ≡ false)
  id_known = by_kind (is_simple b)
    where
      by_kind :
          (s : Bool)
          → let e : ℕ × Bytes =
              if s then (Ids.simple_block, simple_entry b) else (Ids.block_group, group_entry b) in
            (is_block e.0 ≡ true) × (Ids.is_top_level e.0 ≡ false)
      by_kind true = unfold Ids.is_top_level in (refl, refl)
      by_kind false = unfold Ids.is_top_level in (refl, refl)

  cluster_child-block :
      cluster_child lib (found (block_element b).0 (block_element b).1) input d
      ≡ (behind d b, ok (element_size b, packet (packet_of lib d base b (frame_start d b))))
  unfolding cluster_child
  cluster_child-block = elim (Bool-cases ((block_element b).0 == Ids.timestamp)) [
    | inl e ↦ rw e (known_child-block id_known.0)
    | inr e ↦ rw (e, id_known.0) (known_child-block id_known.0)
  ]

  body_element-block :
      body_element lib input (found (block_element b).0 (block_element b).1) d
      ≡ (behind d b, ok (element_size b, packet (packet_of lib d base b (frame_start d b))))
  unfolding body_element
  body_element-block =
      let open' : is_some d.cluster ≡ true = ap is_some within.entered in
      rw (open', id_known.1, within.room, open') cluster_child-block

  -- A reader in a cluster that has not ended, with no packet waiting, whose input stands at its position before the
  -- element that the writer makes of a block, answers in one step with the packet of that block and moves behind the
  -- element. The block fits its fields and has bytes; the reader knows its track; its time is an `i64`, its additions have
  -- numbers below 2 ^ 32; the limits, the allocator and the length of time for its padding allow it; and the cluster and
  -- the Segment have room for it. The packet has the block's track, bytes, time, duration, additions, and padding as a
  -- discard, and is a random-access point exactly if the block is marked as one.
  pub body_step-put_block :
      body_step lib input d
      ≡ (behind d b, ok (element_size b, packet (packet_of lib d base b (frame_start d b))))
  unfolding body_step
  body_step-put_block =
      rw
        (
          leave_known-same,
          within.segment_goes_on,
          not_empty,
          with_header-found d input (block_element b).0 (block_element b).1 rest h
              (body_element lib input),
        )
        body_element-block
    where
      leave_known-same : leave_known d ≡ d
      leave_known-same = ground (arith, within.entered, within.cluster_goes_on)

      not_empty : is_empty_end input d.pos ≡ false
      not_empty = ground (
        arith,
        ap length h.bytes,
        length-append (put [] (block_element b).0 (block_element b).1) rest,
        length-put (block_element b).0 (block_element b).1 h.element,
      )
