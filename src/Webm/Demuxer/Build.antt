-- ===== src/Webm/Demuxer/Build.antt =====
-- zenwebm/src/demux.rs, `build_track`: the track of the media library that a TrackEntry describes.
use zenextras.Prelude.{ℕ, ◌+◌, ◌-◌, ◌/◌, ◌%◌, ◌^◌, not, ◌&&◌}
use zenextras.Prelude.{Bool, Option, none, some}
use zenextras.Prelude.{ltb, leb, ◌==◌, if◌then◌else◌, Result, ok, err, ◌>>=◌, unwrap_or}
use zenextras.Webm.Error.{bad_video_size, bad_integer, bad_audio, timestamp_overflow}
use zenextras.Webm.Types.{SessionError, codec, TimeBase, TrackInfo, Cicp}
use zenextras.Webm.Types.{
  video, audio, subtitle, data_track, TrackKind, codec_from_id, FrameDuration,
}
use zenextras.Webm.Demuxer.State.{RawColor, RawVideo, RawTrack, ns_per_second}
use zenextras.Webm.Demuxer.State.{Library, TrackError, zero_dimension, other_error}
use zenextras.Webm.Demuxer.Tracks.{default_rate}

-- The whole number from 1 to the largest `u32` that a float is.
unfoldable pub whole_u32 : ℕ → Option ℕ
whole_u32 bits =
    let exponent = bits / 2 ^ 52 in
    let significand = 2 ^ 52 + bits % 2 ^ 52 in
    let unit = 2 ^ (52 - (exponent - 1023)) in
    if leb 1023 exponent && leb exponent 1054 && significand % unit == 0
    then some (significand / unit)
    else none

-- Both numbers fit a `u32`.
abbrev pub are_u32 : ℕ → ℕ → Bool
are_u32 w h = ltb w (2 ^ 32) && ltb h (2 ^ 32)

-- A display size in pixels only.
abbrev pub display_of : Option ℕ × Option ℕ → ℕ → Option (ℕ × ℕ)
display_of (some w, some h) unit = if unit == 0 && are_u32 w h then some (w, h) else none
display_of (some w, none) unit = none
display_of (none, h) unit = none

-- Range 2 is full.
abbrev pub color_of : Option RawColor → Result SessionError (Option Cicp)
color_of none = ok none
color_of (some c) =
    if ltb c.primaries 256 && ltb c.transfer 256 && ltb c.matrix 256
    then ok (
        some (record {
          color_primaries = c.primaries;
          transfer_characteristics = c.transfer;
          matrix_coefficients = c.matrix;
          full_range = c.range == 2;
        }))
    else err (codec bad_integer)

-- A track before its configuration and delays.
abbrev pub plain_track : Library → ℕ → TrackKind → RawTrack → TimeBase → TrackInfo
plain_track lib index kind t tb = record {
  index = index;
  kind = kind;
  codec_id = codec_from_id lib.tag t.codec;
  time_base = tb;
  config_epoch = lib.epoch;
  edit_delay_ticks = none;
  codec_private = none;
  codec_delay = none;
  seek_preroll = none;
  video_info = none;
  audio_info = none;
}

abbrev pub video_track : TrackInfo → Option RawVideo → Result SessionError TrackInfo
video_track b none = err (codec bad_video_size)
video_track b (some v) =
    if not (are_u32 v.width v.height)
    then err (codec bad_video_size)
    else color_of v.color >>= λ c. ok (record b {
      video_info = some (record {
        coded_width = v.width;
        coded_height = v.height;
        display = display_of v.display v.display_unit;
        color = c;
      });
    })

abbrev pub audio_of : TrackInfo → ℕ → Option ℕ → Result SessionError TrackInfo
audio_of b channels none = err (codec bad_audio)
audio_of b channels (some rate) =
    ok (record b { audio_info = some (record { sample_rate = rate; channel_count = channels }) })

abbrev pub audio_track : TrackInfo → ℕ × ℕ → Result SessionError TrackInfo
audio_track b (rate, channels) =
    if ltb channels (2 ^ 16) then audio_of b channels (whole_u32 rate) else err (codec bad_integer)

unfoldable pub kind_track : Library → ℕ → RawTrack → TimeBase → Result SessionError TrackInfo
kind_track lib index t tb =
    if t.kind == 1
    then video_track (plain_track lib index video t tb) t.video
    else if t.kind == 2
    then audio_track (plain_track lib index audio t tb) (unwrap_or t.audio (default_rate, 1))
    else ok (plain_track lib index (if t.kind == 17 then subtitle else data_track) t tb)

-- A delay of zero is none.
abbrev pub delay_of : Library → ℕ → Result SessionError (Option FrameDuration)
delay_of lib ns =
    if ns == 0
    then ok none
    else if lib.frame_duration_new ns ns_per_second
    then ok (some (record { numerator = ns; denominator = ns_per_second }))
    else err (codec timestamp_overflow)

abbrev pub built : Option TrackError → TrackInfo → Result SessionError TrackInfo
built none b = ok b
built (some zero_dimension) b = err (codec bad_video_size)
built (some other_error) b = err (codec bad_audio)

unfoldable pub build_track : Library → ℕ → RawTrack → TimeBase → Result SessionError TrackInfo
build_track lib index t tb = do
  b ← kind_track lib index t tb
  delay ← delay_of lib t.codec_delay_ns
  preroll ← delay_of lib t.seek_preroll_ns
  let info = record b { codec_private = t.private; codec_delay = delay; seek_preroll = preroll }
  built (lib.build info) info
