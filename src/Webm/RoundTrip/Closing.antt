-- ===== src/Webm/RoundTrip/Closing.antt =====
-- The bytes of a cluster that is closed: a Cluster element with a Timestamp and the blocks.
use zenextras.Prelude.{
  ℕ, ◌+◌, ◌≤◌, ◌<◌, ◌^◌, Option, some, List, [], ◌∷◌, ◌++◌, map, length, length-append, All,
}
use zenextras.Prelude.{ok, ◌≡◌, refl, ap, sym, ◌∙◌, arith}
use zenextras.Prelude.Bytes.{Bytes}
use zenextras.Prelude.Int.{ℤ, pos, negsuc, i64_bits, i64_bits-lt, pos_part, neg_part}
use zenextras.Webm.Ebml.{put_id, put_size, put, put_uint, next, children, uint}
use zenextras.Webm.Ebml.Ids
use zenextras.Webm.Ebml.Fields.{IsSize, by_width}
use zenextras.Webm.Ebml.Elements.{IsElement, put_all, put_all-append, next-put, children-put_all}
use zenextras.Webm.Ebml.Integers.{uint_bytes, uint-uint_bytes}
use zenextras.Webm.Muxer.State.{WebmMuxer, OpenCluster}
use zenextras.Webm.Muxer.Blocks.{Block}
use zenextras.Webm.Muxer.Clusters.{close_cluster, close_with, cluster_bytes}
use zenextras.Webm.RoundTrip.WholeGroup.{IsBlock}
use zenextras.Webm.RoundTrip.Packets.{block_element}
use zenextras.Webm.RoundTrip.Sizes.{block_element-IsElement, length-put-le}
use zenextras.Webm.RoundTrip.Clusters.{Carries}

-- The children of a cluster.
abbrev pub cluster_elements : OpenCluster → List Block → List (ℕ × Bytes)
cluster_elements c bs = (Ids.timestamp, uint_bytes (i64_bits c.base)) ∷ map block_element bs

abbrev pub cluster_payload : OpenCluster → Bytes
cluster_payload c = put_uint [] Ids.timestamp (i64_bits c.base) ++ c.body

all_elements : (bs : List Block) → All IsBlock bs → All IsElement (map block_element bs)
all_elements [] h = tt
all_elements (b ∷ bs) h = (block_element-IsElement b h.0, all_elements bs h.1)

base_bits : (base : ℤ) → neg_part base ≡ 0 → pos_part base < 2 ^ 63 → i64_bits base ≡ pos_part base
unfolding i64_bits
base_bits (pos n) z h = omega arith
base_bits (negsuc n) z h = absurd (omega arith)

module _ (c : OpenCluster) (bs : List Block) (h : Carries c bs) where
  time-IsElement : IsElement (Ids.timestamp, uint_bytes (i64_bits c.base))
  time-IsElement = record {
    valid = by_width 0 _ refl;
    fits = omega (arith, uint-uint_bytes (i64_bits c.base) (i64_bits-lt c.base));
  }

  payload-put_all : cluster_payload c ≡ put_all [] (cluster_elements c bs)
  unfolding put_uint put_all
  payload-put_all =
      ap (◌++◌ (put [] Ids.timestamp (uint_bytes (i64_bits c.base)))) h.written
      ∙ sym (
          put_all-append (map block_element bs)
            (put [] Ids.timestamp (uint_bytes (i64_bits c.base))) (all_elements bs h.blocks))

  cluster_bytes-put : cluster_bytes c ≡ put [] Ids.cluster (cluster_payload c)
  unfolding put
  cluster_bytes-put =
      let ts = put_uint [] Ids.timestamp (i64_bits c.base) in
      ap (λ (n : ℕ). put_size (put_id [] Ids.cluster) n ++ (ts ++ c.body))
        (sym (length-append ts c.body))

  payload_size : length (cluster_payload c) ≤ length c.body + 20
  unfolding put_uint
  payload_size = omega (
    arith,
    length-append (put [] Ids.timestamp (uint_bytes (i64_bits c.base))) c.body,
    length-put-le [] Ids.timestamp (uint_bytes (i64_bits c.base)) time-IsElement,
    uint-uint_bytes (i64_bits c.base) (i64_bits-lt c.base),
  )

  -- Closing a cluster of whole blocks puts one Cluster element behind the output, which is read whole whatever follows;
  -- its children are a Timestamp, which is the cluster's time, and the elements of the blocks in order. The blocks take
  -- fewer bytes than an EBML size field can say.
  pub close_cluster-children :
      (m : WebmMuxer) (rest : Bytes)
      → m.cluster ≡ some c
      → IsSize (length c.body + 20)
      → ((close_cluster m).out ≡ m.out ++ put [] Ids.cluster (cluster_payload c))
        × (next (put [] Ids.cluster (cluster_payload c) ++ rest)
            ≡ (ok (Ids.cluster, cluster_payload c), rest))
        × (children (cluster_payload c) ≡ map ok (cluster_elements c bs))
        × (uint (uint_bytes (i64_bits c.base)) ≡ ok (pos_part c.base))
  unfolding close_cluster
  close_cluster-children m rest e fits =
      let (number, _) = uint-uint_bytes (i64_bits c.base) (i64_bits-lt c.base) in
      (
        ap (λ (o : Option OpenCluster). (close_with m o).out) e ∙ ap (◌++◌ m.out) cluster_bytes-put,
        next-put Ids.cluster (cluster_payload c) rest
            (record { valid = by_width 3 _ refl; fits = omega (arith, payload_size) }),
        ap children payload-put_all
            ∙ children-put_all (cluster_elements c bs) (time-IsElement, all_elements bs h.blocks),
        number ∙ ap (λ (t : ℕ). ok t) (base_bits c.base h.from_zero h.base_range),
      )
