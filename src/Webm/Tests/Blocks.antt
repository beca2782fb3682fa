-- ===== src/Webm/Tests/Blocks.antt =====
-- Examples for zenwebm/src/mux.rs and zenwebm/src/demux.rs: a packet with a duration and an addition, as the writer
-- makes it and as the reader takes it.
use zenextras.Prelude.{◌+◌, true, false, Option, none, some, [], ◌∷◌, ◌++◌, map, length, ltb}
use zenextras.Prelude.{ok, ◌≡◌, refl, arith, if_some-eq-some, subst, ap, if◌then◌else◌}
use zenextras.Prelude.Bytes.{Bytes}
use zenextras.Prelude.Int.{ℤ, pos, i64_bits, pos_part, ◌+ℤ◌, is_i64, IsI64, negsuc}
use zenextras.Webm.Types.{TimeBase, Packet, yes_random}
use zenextras.Webm.Action.{Ensures}
use zenextras.Webm.Ebml.{
  put, put_id, put_size, size_len, put_uint, leading_zeros, total, next, children, uint,
}
use zenextras.Webm.Ebml.Ids
use zenextras.Webm.Ebml.Elements.{put_all}
use zenextras.Webm.Ebml.Integers.{uint_bytes}
use zenextras.Webm.Muxer.State as Writer
use zenextras.Webm.Muxer.State.{WebmMuxer, MuxTrack, OpenCluster}
use zenextras.Webm.Muxer.Blocks.{Block, group_entry, put_more, more_entry, block_head}
use zenextras.Webm.Muxer.{write_packet}
use zenextras.Webm.Muxer.Clusters.{close_cluster}
use zenextras.Webm.Demuxer.State as Reader
use zenextras.Webm.Demuxer.State.{WebmDemuxer, Input, Cluster, packet, in_body}
use zenextras.Webm.Demuxer.Heads.{read_group, position}
use zenextras.Webm.Demuxer.Blocks.{takes}
use zenextras.Webm.Demuxer.{body_step}
use zenextras.Webm.RoundTrip.WholeGroup.{
  IsBlock, block_bytes, block_place, extras_of, read_group-group_entry,
}
use zenextras.Webm.RoundTrip.Packets.{Accepts, packet_of, block_element}
use zenextras.Webm.RoundTrip.Sizes.{block_element-IsElement}
use zenextras.Webm.RoundTrip.Steps.{Holds}
use zenextras.Webm.RoundTrip.BlockSteps.{
  Inside, body_step-put_block, behind, element_size, frame_start,
}
use zenextras.Webm.RoundTrip.Clusters.{Carries, IsOpen}
use zenextras.Webm.RoundTrip.Closing.{cluster_elements, cluster_payload, close_cluster-children}
use zenextras.Webm.RoundTrip.Writing.{Written, IsSized, write_packet-Sound}
use zenextras.Webm.RoundTrip.TimeSteps.{IsClock}
use zenextras.Webm.Ebml.Fields.{IsSize}

abbrev a_block : Block
a_block = record {
  index = 0;
  ticks = pos 1040;
  rel = pos 40;
  random_access = yes_random;
  body = 1 ∷ 2 ∷ 3 ∷ [];
  duration = some 20;
  padding = none;
  additions = (4, 9 ∷ []) ∷ [];
  prev = none;
}

a_block-IsBlock : IsBlock a_block
unfolding put_more more_entry put put_uint put_id put_size size_len leading_zeros
a_block-IsBlock = record {
  numbered = omega arith;
  near = (omega arith, omega arith);
  duration = omega arith;
  padding = tt;
  additions = (record { number = omega arith; fits = omega arith; whole = omega arith }, tt);
  fits = omega arith;
}

read_group-group_entry_example :
    read_group (group_entry a_block)
    ≡ ok ((block_bytes a_block, block_place a_block), extras_of a_block)
read_group-group_entry_example = read_group-group_entry a_block a_block-IsBlock

-- A media library that refuses what is longer than a megabyte.
abbrev a_library : Reader.Library
a_library = record {
  check_header_bytes = λ n. ltb n 1_000_000;
  check_packet_bytes = λ n. ltb n 1_000_000;
  check_tracks = λ n. ltb n 100;
  check_table_entries = λ n. ltb n 1_000_000;
  reserve = λ n. true;
  time_base_new = λ n d. some (record { numerator = n; denominator = d });
  frame_duration_new = λ n d. true;
  tag = λ id. id;
  epoch = 0;
  build = λ t. none;
}

-- A reader in a cluster of unknown size, at the block.
abbrev a_reader : WebmDemuxer
a_reader = record (Reader.new) {
  state = in_body;
  pos = 100;
  cluster = some (record { end = none; timestamp = some (pos 1000) });
  numbers = 1 ∷ [];
  ordinals = 7 ∷ [];
  headers_sent = true;
}

abbrev an_input : Input
an_input = record {
  offset = 100;
  bytes = put [] (block_element a_block).0 (block_element a_block).1 ++ (0xA3 ∷ []);
  total_len = none;
  reaches_end = false;
}

a_block-Accepts : Accepts a_library a_reader (pos 1000) a_block
unfolding position ◌+ℤ◌ takes
a_block-Accepts = record {
  known = refl;
  inside = refl;
  in_range = refl;
  filled = omega arith;
  packet_limit = refl;
  memory = refl;
  narrow_ids = refl;
  trims = refl;
}

a_block-Inside : Inside a_library a_reader (block_element a_block)
unfolding group_entry put_more more_entry put put_uint put_id put_size size_len leading_zeros total
    block_head
a_block-Inside = record {
  cluster = record { end = none; timestamp = some (pos 1000) };
  entered = refl;
  cluster_goes_on = refl;
  segment_goes_on = refl;
  room = refl;
  size_limit = refl;
  idle = refl;
}

an_input-Holds : Holds a_reader an_input (block_element a_block) (0xA3 ∷ [])
an_input-Holds = record {
  at = refl;
  bytes = refl;
  element = block_element-IsElement a_block a_block-IsBlock;
}

body_step-put_block_example : body_step a_library an_input a_reader ≡ (
  behind a_reader a_block,
  ok (
    element_size a_block,
    packet (packet_of a_library a_reader (pos 1000) a_block (frame_start a_reader a_block)),
  ),
)
body_step-put_block_example =
    body_step-put_block a_library a_reader an_input (pos 1000) a_block (0xA3 ∷ []) a_block-Accepts
      a_block-IsBlock a_block-Inside an_input-Holds

abbrev a_cluster : OpenCluster
a_cluster = record {
  base = pos 1000;
  body = put_all [] (map block_element (a_block ∷ []));
  blocks = 1;
}

a_cluster-Carries : Carries a_cluster (a_block ∷ [])
a_cluster-Carries = record {
  from_zero = refl;
  base_range = omega arith;
  written = refl;
  blocks = (a_block-IsBlock, tt);
}

abbrev a_base : TimeBase
a_base = record { numerator = 1; denominator = 1000 }

abbrev a_writer : WebmMuxer
a_writer = record (Writer.new) {
  begun = true;
  tracks =
      (record { time_base = a_base; epoch = 0; video = true; av1 = false; last_ticks = none }) ∷ [];
  cluster_ticks = pos 5000;
  cluster = some a_cluster;
}

a_cluster-fits : IsSize (length a_cluster.body + 20)
unfolding group_entry put_more more_entry put put_uint put_id put_size size_len leading_zeros
    block_head put_all
a_cluster-fits = omega arith

close_cluster-children_example :
    ((close_cluster a_writer).out ≡ [] ++ put [] Ids.cluster (cluster_payload a_cluster))
    × (next (put [] Ids.cluster (cluster_payload a_cluster) ++ [])
        ≡ (ok (Ids.cluster, cluster_payload a_cluster), []))
    × (children (cluster_payload a_cluster) ≡ map ok (cluster_elements a_cluster (a_block ∷ [])))
    × (uint (uint_bytes (i64_bits a_cluster.base)) ≡ ok (pos_part a_cluster.base))
close_cluster-children_example =
    close_cluster-children a_cluster (a_block ∷ []) a_cluster-Carries a_writer [] refl
      a_cluster-fits

-- A clock that every track shares.
abbrev a_clock : Writer.Library
a_clock = record {
  time_base_new = λ n d. some (record { numerator = n; denominator = d });
  rescale = λ r t b. if is_i64 t.ticks then some t.ticks else none;
}

a_clock-IsClock : IsClock a_clock
a_clock-IsClock r t b z e =
    let (fits, same) = if_some-eq-some (is_i64 t.ticks) t.ticks e in
    subst IsI64 same (fitting t.ticks fits)
  where
    fitting : (a : ℤ) → is_i64 a ≡ true → IsI64 a
    fitting (pos n) h = ground (arith, h)
    fitting (negsuc n) h = ground (arith, h)

abbrev a_packet : Packet
a_packet = record {
  track = 0;
  config_epoch = 0;
  ordinal = 0;
  input_offset = none;
  pts = some (record { ticks = pos 1040; base = a_base });
  duration_ticks = some 20;
  discard =
      some (record { start = none; end = some (record { numerator = 1; denominator = 200 }) });
  random_access = yes_random;
  payload = some (1 ∷ 2 ∷ 3 ∷ []);
  additions = (4, 9 ∷ []) ∷ [];
}

a_packet-IsSized : IsSized a_packet
unfolding put_more more_entry put put_uint put_id put_size size_len leading_zeros
a_packet-IsSized payload e = record {
  additions = a_block-IsBlock.additions;
  fits = let long : 3 ≡ length payload = ap length (payload_same e) in omega (arith, long);
}
  where
    payload_same :
        ◌≡◌ {A = Option Bytes} (some (1 ∷ 2 ∷ 3 ∷ [])) (some payload) → (1 ∷ 2 ∷ 3 ∷ []) ≡ payload
    payload_same h = cc

write_packet-Sound_example :
    Ensures
      (λ _ m. Written a_clock a_packet a_writer m)
      (λ m. IsOpen m.cluster)
      (write_packet a_clock a_packet true a_writer)
write_packet-Sound_example =
    write_packet-Sound a_clock a_packet a_clock-IsClock (omega arith) a_packet-IsSized
      (tt, omega arith) a_writer (a_block ∷ [], a_cluster-Carries) true
