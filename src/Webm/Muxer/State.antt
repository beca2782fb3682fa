-- ===== src/Webm/Muxer/State.antt =====
-- zenwebm/src/mux.rs: the writer's state and report, and actions on it. An action gives the writer that it leaves and
-- its result: what was changed before a failure stays changed.
use zenextras.Prelude.{ℕ, ◌*◌, ◌^◌, Bool, true, false, Option, none, some, List, []}
use zenextras.Prelude.Bytes.{Bytes}
use zenextras.Prelude.Int.{ℤ, pos}
use zenextras.Webm.Types.{TimeBase, Timestamp, FrameDuration, Rounding}

abbrev pub ns_per_second : ℕ
ns_per_second = 1_000_000_000

abbrev pub default_scale_ns : ℕ
default_scale_ns = 1_000_000

abbrev pub default_cluster_seconds : ℕ
default_cluster_seconds = 5

abbrev pub default_cluster_bytes : ℕ
default_cluster_bytes = 8 * 2 ^ 20

-- Counts of packets written, which stay far below 2 ^ 64.
pub record MuxReport : Type 0 where
  pub packets : ℕ
  pub clusters : ℕ
  pub quantized : ℕ
  pub max_quantization_ns : ℕ
  pub unknown_random_access : ℕ

pub record MuxTrack : Type 0 where
  pub time_base : TimeBase
  pub epoch : ℕ
  pub video : Bool
  pub av1 : Bool
  pub last_ticks : Option ℤ

pub record OpenCluster : Type 0 where
  pub base : ℤ
  pub body : Bytes
  pub blocks : ℕ

-- `out` is what was pushed to the output buffer and not yet taken.
pub record WebmMuxer : Type 0 where
  pub out : Bytes
  pub begun : Bool
  pub tracks : List MuxTrack
  pub scale_ns : ℕ
  pub segment : TimeBase
  pub scale_override : Option ℕ
  pub exact : Bool
  pub cluster_duration : FrameDuration
  pub cluster_ticks : ℤ
  pub max_cluster_bytes : ℕ
  pub cluster : Option OpenCluster
  pub report : MuxReport

abbrev pub new : WebmMuxer
new = record {
  out = [];
  begun = false;
  tracks = [];
  scale_ns = default_scale_ns;
  segment = record { numerator = default_scale_ns; denominator = ns_per_second };
  scale_override = none;
  exact = false;
  cluster_duration = record { numerator = default_cluster_seconds; denominator = 1 };
  cluster_ticks = pos 0;
  max_cluster_bytes = default_cluster_bytes;
  cluster = none;
  report = record {
    packets = 0;
    clusters = 0;
    quantized = 0;
    max_quantization_ns = 0;
    unknown_random_access = 0;
  };
}

abbrev pub with_timestamp_scale_ns : WebmMuxer → ℕ → WebmMuxer
with_timestamp_scale_ns m ns = record m { scale_override = some ns }

abbrev pub with_exact_timestamps : WebmMuxer → WebmMuxer
with_exact_timestamps m = record m { exact = true }

abbrev pub with_cluster_duration : WebmMuxer → FrameDuration → WebmMuxer
with_cluster_duration m d = record m { cluster_duration = d }

abbrev pub with_max_cluster_bytes : WebmMuxer → ℕ → WebmMuxer
with_max_cluster_bytes m bytes = record m { max_cluster_bytes = bytes }

-- `zencodec::time`: a time base of two numbers, unless it refuses them, and a time in the ticks of another base, unless
-- they do not fit an `i64`.
pub record Library : Type 0 where
  pub time_base_new : ℕ → ℕ → Option TimeBase
  pub rescale : Rounding → Timestamp → TimeBase → Option ℤ
