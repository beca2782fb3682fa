-- ===== src/Webm/Muxer/Clusters.antt =====
-- zenwebm/src/mux.rs, `close_cluster`.
use zenextras.Prelude.{◌+◌}
use zenextras.Prelude.{Option, none, some, [], ◌++◌, length}
use zenextras.Prelude.Bytes.{Bytes}
use zenextras.Prelude.Int.{i64_bits}
use zenextras.Webm.Ebml.{put_id, put_size, put_uint}
use zenextras.Webm.Ebml.Ids
use zenextras.Webm.Muxer.State.{WebmMuxer, OpenCluster}

-- The bytes of a cluster: its header, its Timestamp, its blocks.
abbrev pub cluster_bytes : OpenCluster → Bytes
cluster_bytes c =
    let ts = put_uint [] Ids.timestamp (i64_bits c.base) in
    put_size (put_id [] Ids.cluster) (length ts + length c.body) ++ (ts ++ c.body)

abbrev pub close_with : WebmMuxer → Option OpenCluster → WebmMuxer
close_with m none = m
close_with m (some c) = record m {
  out = m.out ++ cluster_bytes c;
  cluster = none;
  report = record (m.report) { clusters = m.report.clusters + 1 };
}

unfoldable pub close_cluster : WebmMuxer → WebmMuxer
close_cluster m = close_with m m.cluster
