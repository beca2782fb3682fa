-- ===== src/Webm/Types.antt =====
-- zenwebm/src/lib.rs, the names of codecs, and the values of the media library that the reader and the writer
-- exchange with their callers: times, tracks and packets, with the fields that the crate uses.
use zenextras.Prelude.{ℕ, ◌||◌, Bool, true, false, Option, none, some, List, take}
use zenextras.Prelude.{if◌then◌else◌}
use zenextras.Prelude.Bytes.{Bytes}
use zenextras.Prelude.Int.{ℤ}
use zenextras.Prelude.Text.{codes}
use zenextras.Psd.Header.{bytes_eq}
use zenextras.Webm.Error.{WebmError}

-- How a session fails: by an error of the crate, a limit, a violated order of calls, or a pulse that says stop.
pub data SessionError : Type 0 where
  codec : WebmError → SessionError
  limit : SessionError
  begin_twice no_begin missing_timestamp clock_mismatch no_payload : SessionError
  unsupported_seek interrupted : SessionError
  -- An `expect` without a value: the program ends.
  panicked : SessionError

-- `unnamed` stands for the variants that the source does not name; a tag is its characters.
pub data CodecId : Type 0 where
  av1 vp9 vp8 h264 hevc opus aac flac pcm unnamed : CodecId
  other : Bytes → CodecId

-- `tag` makes the text of `CodecTag::new`.
unfoldable pub codec_from_id : (Bytes → Bytes) → Bytes → CodecId
codec_from_id tag id =
    if bytes_eq id (codes "V_AV1")
    then av1
    else if bytes_eq id (codes "V_VP9")
    then vp9
    else if bytes_eq id (codes "V_VP8")
    then vp8
    else if bytes_eq id (codes "V_MPEG4/ISO/AVC")
    then h264
    else if bytes_eq id (codes "V_MPEGH/ISO/HEVC")
    then hevc
    else if bytes_eq id (codes "A_OPUS")
    then opus
    else if bytes_eq id (codes "A_AAC")
    then aac
    else if bytes_eq id (codes "A_FLAC")
    then flac
    else if bytes_eq id (codes "A_PCM/INT/LIT")
    then pcm
    else other (tag id)

-- `s.starts_with(..)` for two characters.
abbrev pub starts_with : Bytes → Bytes → Bool
starts_with s two = bytes_eq (take 2 s) two

-- The Matroska name, and whether WebM allows the codec.
unfoldable pub codec_id_for : CodecId → Option (Bytes × Bool)
codec_id_for av1 = some (codes "V_AV1", true)
codec_id_for vp9 = some (codes "V_VP9", true)
codec_id_for vp8 = some (codes "V_VP8", true)
codec_id_for opus = some (codes "A_OPUS", true)
codec_id_for h264 = some (codes "V_MPEG4/ISO/AVC", false)
codec_id_for hevc = some (codes "V_MPEGH/ISO/HEVC", false)
codec_id_for aac = some (codes "A_AAC", false)
codec_id_for flac = some (codes "A_FLAC", false)
codec_id_for pcm = some (codes "A_PCM/INT/LIT", false)
codec_id_for (other s) =
    if starts_with s (codes "V_") || starts_with s (codes "A_")
    then some (s, bytes_eq s (codes "A_VORBIS"))
    else none
codec_id_for unnamed = none

-- One tick lasts `numerator / denominator` seconds.
pub record TimeBase : Type 0 where
  pub numerator : ℕ
  pub denominator : ℕ

pub record Timestamp : Type 0 where
  pub ticks : ℤ
  pub base : TimeBase

-- A length of time in seconds.
pub record FrameDuration : Type 0 where
  pub numerator : ℕ
  pub denominator : ℕ

pub data Rounding : Type 0 where
  floor ceil nearest : Rounding

pub data RandomAccess : Type 0 where
  yes_random no_random unknown : RandomAccess

pub data TrackKind : Type 0 where
  video audio subtitle data_track unnamed_kind : TrackKind

pub record Cicp : Type 0 where
  pub color_primaries : ℕ
  pub transfer_characteristics : ℕ
  pub matrix_coefficients : ℕ
  pub full_range : Bool

pub record VideoInfo : Type 0 where
  pub coded_width : ℕ
  pub coded_height : ℕ
  pub display : Option (ℕ × ℕ)
  pub color : Option Cicp

pub record AudioInfo : Type 0 where
  pub sample_rate : ℕ
  pub channel_count : ℕ

pub record TrackInfo : Type 0 where
  pub index : ℕ
  pub kind : TrackKind
  pub codec_id : CodecId
  pub time_base : TimeBase
  pub config_epoch : ℕ
  pub edit_delay_ticks : Option ℤ
  pub codec_private : Option Bytes
  pub codec_delay : Option FrameDuration
  pub seek_preroll : Option FrameDuration
  pub video_info : Option VideoInfo
  pub audio_info : Option AudioInfo

-- What is trimmed from a packet at its start and at its end.
pub record Discard : Type 0 where
  pub start : Option FrameDuration
  pub end : Option FrameDuration

-- `payload` is `none` once the bytes were taken out.
pub record Packet : Type 0 where
  pub track : ℕ
  pub config_epoch : ℕ
  pub ordinal : ℕ
  pub input_offset : Option ℕ
  pub pts : Option Timestamp
  pub duration_ticks : Option ℕ
  pub discard : Option Discard
  pub random_access : RandomAccess
  pub payload : Option Bytes
  pub additions : List (ℕ × Bytes)
