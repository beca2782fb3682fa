-- ===== src/Webm/RoundTrip/Packets.antt =====
-- A block read as a packet: the packet that the writer was given, with its time on the clock of the cluster.
use zenextras.Prelude.{ℕ, ◌+◌, ◌-◌, ◌/◌, ◌%◌, ◌<◌, not, ◌&&◌, Bool, true, false, Option, none, some}
use zenextras.Prelude.{List, [], ◌∷◌, ◌++◌, length, take_all, get_or, ok, ◌==◌, if◌then◌else◌}
use zenextras.Prelude.{◌≡◌, refl, ap, ◌∙◌, arith, Bool-cases, inl, inr}
use zenextras.Prelude.Bytes.{Bytes, slice}
use zenextras.Prelude.Int.{ℤ, ◌+ℤ◌, is_i64}
use zenextras.Webm.Types.{Packet, RandomAccess, yes_random, no_random}
use zenextras.Webm.Ebml.Ids
use zenextras.Webm.Ebml.{put}
use zenextras.Webm.Muxer.Blocks.{
  Block, block_head, put_block, is_random, is_none, is_empty, is_simple, simple_entry, group_entry,
}
use zenextras.Webm.Demuxer.State.{WebmDemuxer, Library, GroupExtras, no_extras}
use zenextras.Webm.Demuxer.Heads.{position}
use zenextras.Webm.Demuxer.Lacing.{unlace}
use zenextras.Webm.Demuxer.Blocks.{
  Frames, push_frame, push_frames, frame_packet, discard_of, takes, has_wide_id,
}
use zenextras.Webm.Demuxer.Blocks.{bump, cluster_time, block, block_group, block_access, is_set}
use zenextras.Webm.Demuxer.{take_child}
use zenextras.Webm.RoundTrip.Heads.{read_head-block_head}
use zenextras.Webm.RoundTrip.Groups.{extras}
use zenextras.Webm.RoundTrip.WholeGroup.{IsBlock, block_place, read_group-group_entry}

-- A reader that is in the cluster with the time `base`, knows the block's track, and has room for its bytes.
pub record Accepts (lib : Library) (d : WebmDemuxer) (base : ℤ) (b : Block) : Type 0 where
  pub known : position (b.index + 1) d.numbers ≡ some b.index
  pub inside : cluster_time d.cluster ≡ some base
  pub in_range : is_i64 (base +ℤ b.rel) ≡ true
  pub filled : 0 < length b.body
  pub packet_limit : lib.check_packet_bytes (length b.body) ≡ true
  pub memory : lib.reserve (length b.body) ≡ true
  pub narrow_ids : has_wide_id b.additions ≡ false
  pub trims : takes lib (discard_of b.padding true true) ≡ true

-- The packet that a block becomes, if its bytes begin at `offset`.
abbrev pub packet_of : Library → WebmDemuxer → ℤ → Block → ℕ → Packet
packet_of lib d base b offset = record {
  track = b.index;
  config_epoch = lib.epoch;
  ordinal = get_or d.ordinals b.index 0;
  input_offset = some (offset + 0);
  pts = some (record { ticks = base +ℤ b.rel; base = d.time_base });
  duration_ticks = b.duration;
  discard = discard_of b.padding true true;
  random_access = if is_random b.random_access then yes_random else no_random;
  payload = some b.body;
  additions = b.additions;
}

-- The reader behind the block.
abbrev pub received : Library → WebmDemuxer → ℤ → Block → ℕ → WebmDemuxer
received lib d base b offset = record d {
  ordinals = bump d.ordinals b.index 1;
  pending = d.pending ++ (packet_of lib d base b offset ∷ []);
}

abbrev frames_of : ℤ → Block → ℕ → RandomAccess → GroupExtras → Frames
frames_of base b offset access x = record {
  track = b.index;
  pts = base +ℤ b.rel;
  access = access;
  n = 1;
  bytes = b.body;
  offset = offset;
  extras = x;
}

module _ (lib : Library) (d : WebmDemuxer) (base : ℤ) (b : Block) (acc : Accepts lib d base b) where
  whole : (bytes : Bytes) → slice 0 (0 + length bytes) bytes ≡ bytes
  whole bytes = take_all bytes (0 + length bytes - 0) (omega arith)

  -- The only frame of a block.
  frame_pushed :
      (offset : ℕ) (r : Bool)
      → push_frames lib
          (frames_of base b offset
            (if is_random b.random_access then yes_random else no_random)
            (extras b.duration r b.padding b.additions))
          0
          ((0, length b.body) ∷ [])
          d
        ≡ (received lib d base b offset, ok tt)
  unfolding push_frames push_frame frame_packet
  frame_pushed offset r =
      let some_bytes : (length b.body == 0) ≡ false = ground (arith, acc.filled) in
      rw (some_bytes, acc.packet_limit, acc.memory, acc.narrow_ids, acc.trims, whole b.body)

  -- Any head whose flags say that there is no lace, and whose frames are as good as the block's.
  block_read :
      (flags offset : ℕ) (simple r : Bool)
      → IsBlock b
      → flags / 2 % 4 ≡ 0
      → block_access simple (is_set flags 0x80) r
        ≡ (if is_random b.random_access then yes_random else no_random)
      → block lib
          (block_head b.index b.rel ++ (flags ∷ b.body))
          offset
          simple
          (extras b.duration r b.padding b.additions)
          d
        ≡ (received lib d base b (offset + 4), ok tt)
  unfolding block unlace block_head
  block_read flags offset simple r w plain same =
      rw
        (
          read_head-block_head b.index b.rel flags b.body w.numbered w.near,
          acc.known,
          acc.inside,
          acc.in_range,
          plain,
          same,
        )
        (frame_pushed (offset + 4) r)

-- The element that a block is written as, and where its frame begins in the payload.
abbrev pub block_element : Block → ℕ × Bytes
block_element b =
    if is_simple b then (Ids.simple_block, simple_entry b) else (Ids.block_group, group_entry b)

abbrev pub frame_place : Block → ℕ
frame_place b = if is_simple b then 4 else block_place b + 4

pub put_block-block_element :
    (body : Bytes) (b : Block) → put_block body b ≡ put body (block_element b).0 (block_element b).1
unfolding put_block
put_block-block_element body b = by_kind (is_simple b)
  where
    by_kind :
        (s : Bool)
        → (if s
            then put body Ids.simple_block (simple_entry b)
            else put body Ids.block_group (group_entry b))
          ≡ (let e : ℕ × Bytes =
                if s
                then (Ids.simple_block, simple_entry b)
                else (Ids.block_group, group_entry b) in
              put body e.0 e.1)
    by_kind true = refl
    by_kind false = refl

-- A block with nothing to add has no extras.
plain_extras :
    (d : Option ℕ) (p : Option ℤ) (as' : List (ℕ × Bytes))
    → (is_none d && is_none p && is_empty as') ≡ true
    → no_extras ≡ extras d false p as'
plain_extras none none [] e = refl
plain_extras none none (a ∷ as') e = cc
plain_extras none (some p) as' e = cc
plain_extras (some d) p as' e = cc

module _ (lib : Library) (d : WebmDemuxer) (base : ℤ) (b : Block) (offset : ℕ)
    (acc : Accepts lib d base b) (w : IsBlock b) where
  simple_taken :
      is_simple b ≡ true
      → take_child lib Ids.simple_block (simple_entry b) offset d
        ≡ (received lib d base b (offset + 4), ok tt)
  unfolding take_child simple_entry
  simple_taken e =
      rw (plain_extras b.duration b.padding b.additions e)
        (by_flag (is_random b.random_access) refl)
    where
      by_flag :
          (r : Bool)
          → is_random b.random_access ≡ r
          → block lib
              (block_head b.index b.rel ++ ((if r then 0x80 else 0) ∷ b.body))
              offset
              true
              (extras b.duration false b.padding b.additions)
              d
            ≡ (received lib d base b (offset + 4), ok tt)
      by_flag true e = block_read lib d base b acc 0x80 offset true false w refl (rw e)
      by_flag false e = block_read lib d base b acc 0 offset true false w refl (rw e)

  group_taken :
      take_child lib Ids.block_group (group_entry b) offset d
      ≡ (received lib d base b (offset + (block_place b + 4)), ok tt)
  unfolding take_child block_group
  group_taken =
      let place : offset + block_place b + 4 ≡ offset + (block_place b + 4) = omega arith in
      rw (read_group-group_entry b w) (
        block_read lib d base b acc 0 (offset + block_place b) false
          (not (is_random b.random_access)) w refl (access (is_random b.random_access))
        ∙ ap (λ (t : ℕ). (received lib d base b t, ok tt)) place)
    where
      access : (r : Bool) → block_access false false (not r) ≡ (if r then yes_random else no_random)
      access true = refl
      access false = refl

  -- Reading the element that the writer makes of a packet, as a child of a cluster, gives the packet back to the end of
  -- the queue, with all that WebM records of it, and the ordinal of its track moves on. The reader is in a cluster, knows
  -- the track, and its limits allow the bytes, of which there is one at least.
  pub take_child-put_block :
      take_child lib (block_element b).0 (block_element b).1 offset d
      ≡ (received lib d base b (offset + frame_place b), ok tt)
  take_child-put_block = elim (Bool-cases (is_simple b)) [
    | inl e ↦ rw e (simple_taken e)
    | inr e ↦ rw e group_taken
  ]
