-- ===== src/Webm/Demuxer/State.antt =====
-- zenwebm/src/demux.rs: the reader's state, what it asks for and reports, and a track as it is read.
use zenextras.Prelude.{ℕ, Bool, false, Option, none, List, []}
use zenextras.Prelude.Bytes.{Bytes}
use zenextras.Prelude.Int.{ℤ}
use zenextras.Webm.Types.{TimeBase, Timestamp, RandomAccess, TrackInfo, Packet}

abbrev pub ns_per_second : ℕ
ns_per_second = 1_000_000_000

abbrev pub default_scale_ns : ℕ
default_scale_ns = 1_000_000

pub data State : Type 0 where
  in_ebml in_segment in_body scanning done : State

-- Enough of a block to resume there.
pub record SeekEntry : Type 0 where
  pub offset : ℕ
  pub cluster_end : Option ℕ
  pub cluster_ts : ℤ
  pub track : ℕ
  pub pts : ℤ
  pub key : Bool
  pub ordinal : ℕ
  pub frames : ℕ

-- `cluster` is the end of the cluster that the scan is in, and its Timestamp, as far as they are known.
pub record Scan : Type 0 where
  pub pos : ℕ
  pub cluster : Option (Option ℕ × Option ℤ)
  pub ordinals : List ℕ

pub record Cluster : Type 0 where
  pub end : Option ℕ
  pub timestamp : Option ℤ

-- Primaries, transfer, matrix and range.
pub record RawColor : Type 0 where
  pub primaries : ℕ
  pub transfer : ℕ
  pub matrix : ℕ
  pub range : ℕ

pub record RawVideo : Type 0 where
  pub width : ℕ
  pub height : ℕ
  pub display : Option ℕ × Option ℕ
  pub display_unit : ℕ
  pub color : Option RawColor

-- The sample rate of `audio` is the bits of a float.
pub record RawTrack : Type 0 where
  pub number : ℕ
  pub kind : ℕ
  pub codec : Bytes
  pub private : Option Bytes
  pub codec_delay_ns : ℕ
  pub seek_preroll_ns : ℕ
  pub video : Option RawVideo
  pub audio : Option (ℕ × ℕ)

abbrev pub empty_track : RawTrack
empty_track = record {
  number = 0;
  kind = 0;
  codec = [];
  private = none;
  codec_delay_ns = 0;
  seek_preroll_ns = 0;
  video = none;
  audio = none;
}

abbrev pub empty_video : RawVideo
empty_video = record {
  width = 0;
  height = 0;
  display = (none, none);
  display_unit = 0;
  color = none;
}

pub record GroupExtras : Type 0 where
  pub duration : Option ℕ
  pub referenced : Bool
  pub discard_padding : Option ℤ
  pub additions : List (ℕ × Bytes)

abbrev pub no_extras : GroupExtras
no_extras = record { duration = none; referenced = false; discard_padding = none; additions = [] }

pub data SeekMode : Type 0 where
  nearest at_or_before at_or_after unnamed_mode : SeekMode

-- `any_scope` is `scope == SeekScope::Any`.
pub record SeekTarget : Type 0 where
  pub track : ℕ
  pub time : Timestamp
  pub mode : SeekMode
  pub any_scope : Bool

-- `InputRequest::at_least`
pub record InputRequest : Type 0 where
  pub offset : ℕ
  pub len : ℕ

-- `pending` is the queue of packets, its front first.
pub record WebmDemuxer : Type 0 where
  pub state : State
  pub requests : List InputRequest
  pub pos : ℕ
  pub segment_end : Option ℕ
  pub cluster : Option Cluster
  pub raw_tracks : Option (List RawTrack)
  pub tracks : List TrackInfo
  pub numbers : List ℕ
  pub ordinals : List ℕ
  pub scale_ns : ℕ
  pub time_base : TimeBase
  pub headers_sent : Bool
  pub pending : List Packet
  pub matroska : Bool
  pub total : Option ℕ
  pub segment_data : ℕ
  pub index : List SeekEntry
  pub index_complete : Bool
  pub scan : Option Scan
  pub pending_seek : Option SeekTarget

abbrev pub new : WebmDemuxer
new = record {
  state = in_ebml;
  requests = [];
  pos = 0;
  segment_end = none;
  cluster = none;
  raw_tracks = none;
  tracks = [];
  numbers = [];
  ordinals = [];
  scale_ns = default_scale_ns;
  time_base = record { numerator = default_scale_ns; denominator = ns_per_second };
  headers_sent = false;
  pending = [];
  matroska = false;
  total = none;
  segment_data = 0;
  index = [];
  index_complete = false;
  scan = none;
  pending_seek = none;
}

pub record SeekResult : Type 0 where
  pub time : Timestamp
  pub ordinal : ℕ
  pub random_access : RandomAccess

pub data DemuxEvent : Type 0 where
  need headers all_done : DemuxEvent
  packet : Packet → DemuxEvent
  seeked : SeekResult → DemuxEvent

-- How many bytes of the input were used, and what happened.
abbrev pub DemuxProgress : Type 0
DemuxProgress = ℕ × DemuxEvent

pub record Input : Type 0 where
  pub offset : ℕ
  pub bytes : Bytes
  pub total_len : Option ℕ
  pub reaches_end : Bool

-- The error of `TrackInfoBuilder::build`.
pub data TrackError : Type 0 where
  zero_dimension other_error : TrackError

-- What the limits, the allocator and the constructors of the media library answer: whether a check passes, the text of
-- `CodecTag::new`, the error that `build` finds in a track, and the epoch that tracks and packets begin in.
pub record Library : Type 0 where
  pub check_header_bytes : ℕ → Bool
  pub check_packet_bytes : ℕ → Bool
  pub check_tracks : ℕ → Bool
  pub check_table_entries : ℕ → Bool
  pub reserve : ℕ → Bool
  pub time_base_new : ℕ → ℕ → Option TimeBase
  pub frame_duration_new : ℕ → ℕ → Bool
  pub tag : Bytes → Bytes
  pub epoch : ℕ
  pub build : TrackInfo → Option TrackError
