-- ===== src/Webm/Muxer/Tracks.antt =====
-- zenwebm/src/mux.rs, `track_entry`: a track as the children of its TrackEntry.
use zenextras.Prelude.{ℕ, ◌+◌, ◌-◌, ◌*◌, ◌^◌, not, Bool, false, Option, none, some, []}
use zenextras.Prelude.{◌==◌, if◌then◌else◌, Result, ok, err, ok_or, refuse}
use zenextras.Prelude.Bytes.{Bytes}
use zenextras.Prelude.Bits.{log_2}
use zenextras.Prelude.Int.{ℤ, abs}
use zenextras.Webm.Muxer.State.{WebmMuxer}
use zenextras.Webm.Action.{Action, ◌>>=◌, ◌>>◌, give, lift}
use zenextras.Webm.Error.{unsupported_codec, unsupported_track_kind, edit_list}
use zenextras.Webm.Types.{
  SessionError, codec, TrackInfo, TrackKind, video, audio, subtitle, data_track, unnamed_kind,
}
use zenextras.Webm.Types.{VideoInfo, AudioInfo, Cicp, FrameDuration, codec_id_for}
use zenextras.Webm.Ebml.{put, put_uint, put_float}
use zenextras.Webm.Ebml.Ids
use zenextras.Webm.Muxer.Times.{nanos}

-- `f64::from` of a `u32`, by its bits: the highest bit of the number is the hidden one.
unfoldable pub f64_bits : ℕ → ℕ
f64_bits n =
    let high = log_2 31 n in
    if n == 0 then 0 else (1023 + high) * 2 ^ 52 + (n * 2 ^ (52 - high) - 2 ^ 52)

abbrev pub kind_number : TrackKind → Result SessionError ℕ
kind_number video = ok 1
kind_number audio = ok 2
kind_number subtitle = err (codec unsupported_track_kind)
kind_number data_track = err (codec unsupported_track_kind)
kind_number unnamed_kind = err (codec unsupported_track_kind)

abbrev pub is_delayed : Option ℤ → Bool
is_delayed none = false
is_delayed (some d) = not (abs d == 0)

abbrev pub put_private : Bytes → Option Bytes → Bytes
put_private e none = e
put_private e (some p) = put e Ids.codec_private p

-- Number, UID, type, lacing, codec and its configuration.
unfoldable pub entry_head : ℕ → ℕ → Bytes → Option Bytes → Bytes
entry_head number kind name private =
    let e = put_uint [] Ids.track_number number in
    let e = put_uint e Ids.track_uid number in
    let e = put_uint e Ids.track_type kind in
    let e = put_uint e Ids.flag_lacing 0 in put_private (put e Ids.codec_id name) private

unfoldable pub colour_entry : Cicp → Bytes
colour_entry c =
    let ce = put_uint [] Ids.matrix_coefficients c.matrix_coefficients in
    let ce = put_uint ce Ids.range (if c.full_range then 2 else 1) in
    let ce = put_uint ce Ids.transfer_characteristics c.transfer_characteristics in
    put_uint ce Ids.primaries c.color_primaries

abbrev pub put_display : Bytes → Option (ℕ × ℕ) → Bytes
put_display ve none = ve
put_display ve (some (w, h)) = put_uint (put_uint ve Ids.display_width w) Ids.display_height h

abbrev pub put_colour : Bytes → Option Cicp → Bytes
put_colour ve none = ve
put_colour ve (some c) = put ve Ids.colour (colour_entry c)

unfoldable pub video_entry : VideoInfo → Bytes
video_entry v =
    let ve = put_uint [] Ids.pixel_width v.coded_width in
    let ve = put_uint ve Ids.pixel_height v.coded_height in
    put_colour (put_display ve v.display) v.color

unfoldable pub audio_entry : AudioInfo → Bytes
audio_entry a =
    let ae = put_float [] Ids.sampling_frequency (f64_bits a.sample_rate) in
    put_uint ae Ids.channels a.channel_count

abbrev pub put_video : Bytes → Option VideoInfo → Bytes
put_video e none = e
put_video e (some v) = put e Ids.video (video_entry v)

abbrev pub put_audio : Bytes → Option AudioInfo → Bytes
put_audio e none = e
put_audio e (some a) = put e Ids.audio (audio_entry a)

-- `CodecDelay` and `SeekPreRoll`, in nanoseconds.
abbrev pub put_delay : Bytes → ℕ → Option FrameDuration → Action WebmMuxer Bytes
put_delay e id none = give e
put_delay e id (some d) = do ns ← nanos d; give (put_uint e id ns)

unfoldable pub track_entry : ℕ → TrackInfo → Action WebmMuxer (Bytes × Bool)
track_entry i t = do
  name ← lift (ok_or (codec_id_for t.codec_id) (codec unsupported_codec))
  kind ← lift (kind_number t.kind)
  lift (refuse (is_delayed t.edit_delay_ticks) (codec edit_list))
  delayed ← put_delay (entry_head (i + 1) kind name.0 t.codec_private) Ids.codec_delay t.codec_delay
  rolled ← put_delay delayed Ids.seek_pre_roll t.seek_preroll
  give (put_audio (put_video rolled t.video_info) t.audio_info, name.1)
