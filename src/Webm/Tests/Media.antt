-- ===== src/Webm/Tests/Media.antt =====
-- Examples for zenwebm/src/mux.rs and zenwebm/src/demux.rs: the tick of a segment, a temporal delimiter, a lace and a
-- seek.
use zenextras.Prelude.{ℕ, ◌+◌, Bool, true, false, none, List, [], ◌∷◌, ok, err, All}
use zenextras.Prelude.{
  ◌*◌, ◌^◌, ◌<◌, ◌≤◌, some, arith, ◌==◌, if◌then◌else◌, get_or, ◌≡◌, refl, ◌⊎◌, ◌≢◌,
}
use zenextras.Prelude.Bytes.{Bytes}
use zenextras.Prelude.Int.{pos, times, ◌-ℤ◌}
use zenextras.Webm.Error.{no_such_frame, timestamp_overflow}
use zenextras.Webm.Types.{FrameDuration, TrackInfo, VideoInfo, codec, vp9, video}
use zenextras.Webm.Muxer.State as Writer
use zenextras.Webm.Muxer.State.{ns_per_second, WebmMuxer, default_scale_ns}
use zenextras.Webm.Muxer.Times.{nanos, choose_scale}
use zenextras.Webm.Muxer.Rounding.{IsNearest, nanos-IsNearest}
use zenextras.Webm.Muxer.Scale.{IsLongest, Chosen, choose_scale-IsLongest}
use zenextras.Webm.Muxer.Blocks.{without_temporal_delimiter}
use zenextras.Webm.Muxer.Delimiter.{
  IsWithoutDelimiter, without_temporal_delimiter-IsWithoutDelimiter,
}
use zenextras.Webm.Muxer.Tracks.{video_entry}
use zenextras.Webm.Demuxer.Tracks.{read_video}
use zenextras.Webm.Demuxer.Build.{video_track}
use zenextras.Webm.RoundTrip.VideoTracks.{IsVideo, raw_video, read_video-video_entry}
use zenextras.Webm.Demuxer.State as Reader
use zenextras.Webm.Demuxer.State.{
  WebmDemuxer, SeekEntry, SeekTarget, nearest, unnamed_mode, SeekMode,
}
use zenextras.Webm.Demuxer.Lacing.{
  unlace, laced, lace_sizes, xiph_sizes, xiph_size, total_size, place_frames, place,
}
use zenextras.Webm.Demuxer.Tiling.{Fills, unlace-Fills}
use zenextras.Webm.Demuxer.Picking.{pick}
use zenextras.Webm.Demuxer.Best.{distance, IsBest, IsCandidate, pick-IsBest}

-- A track whose clock ticks `n` times in a second.
abbrev a_track : ℕ → TrackInfo
a_track n = record {
  index = 0;
  kind = video;
  codec_id = vp9;
  time_base = record { numerator = 1; denominator = n };
  config_epoch = 0;
  edit_delay_ticks = none;
  codec_private = none;
  codec_delay = none;
  seek_preroll = none;
  video_info = none;
  audio_info = none;
}

abbrev two_tracks : List TrackInfo
two_tracks = a_track 25 ∷ a_track 1000 ∷ []

choose_scale-IsLongest_example :
    (s : ℕ) × (choose_scale Writer.new two_tracks ≡ ok s)
    × Chosen (IsLongest two_tracks) two_tracks s
choose_scale-IsLongest_example =
    choose_scale-IsLongest Writer.new (a_track 25) (a_track 1000 ∷ []) refl
      (omega arith, (omega arith, tt))

abbrev an_obu : Bytes
an_obu = 0x12 ∷ 0 ∷ 0x0A ∷ 1 ∷ 7 ∷ []

without_temporal_delimiter-IsWithoutDelimiter_example :
    IsWithoutDelimiter an_obu (without_temporal_delimiter an_obu)
without_temporal_delimiter-IsWithoutDelimiter_example =
    without_temporal_delimiter-IsWithoutDelimiter an_obu

-- Three frames of two bytes, one byte and the rest, by Xiph lacing.
abbrev a_lace : Bytes
a_lace = 2 ∷ 2 ∷ 1 ∷ 10 ∷ 11 ∷ 12 ∷ 13 ∷ []

a_lace-unlace : unlace a_lace 1 ≡ ok ((3, 2) ∷ (5, 1) ∷ (6, 1) ∷ [])
unfolding unlace laced lace_sizes xiph_sizes xiph_size total_size place_frames place
a_lace-unlace = refl

unlace-Fills_example :
    Fills 7 (if 1 == 0 then 1 else get_or a_lace 0 0 + 1) ((3, 2) ∷ (5, 1) ∷ (6, 1) ∷ [])
unlace-Fills_example = unlace-Fills a_lace 1 ((3, 2) ∷ (5, 1) ∷ (6, 1) ∷ []) a_lace-unlace

abbrev an_entry : ℕ → ℕ → Bool → SeekEntry
an_entry offset ticks key = record {
  offset = offset;
  cluster_end = none;
  cluster_ts = pos 0;
  track = 0;
  pts = pos ticks;
  key = key;
  ordinal = 0;
  frames = 1;
}

-- Keyframes at 0 and 400 milliseconds, and a frame between.
abbrev an_indexed : WebmDemuxer
an_indexed = record (Reader.new) {
  index = an_entry 60 0 true ∷ an_entry 80 200 false ∷ an_entry 99 400 true ∷ [];
}

abbrev a_target : SeekTarget
a_target = record {
  track = 0;
  time = record { ticks = pos 1; base = record { numerator = 1; denominator = 4 } };
  mode = nearest;
  any_scope = false;
}

an_index-near : All (λ (e : SeekEntry). distance an_indexed a_target e < 2 ^ 127) an_indexed.index
unfolding times ◌-ℤ◌
an_index-near = (omega arith, (omega arith, (omega arith, tt)))

nearest-named : nearest ≢ unnamed_mode
nearest-named h = cc

pick-IsBest_example :
    ((e : SeekEntry) × (pick an_indexed a_target ≡ ok e) × IsBest an_indexed a_target nearest e)
    ⊎ ((pick an_indexed a_target ≡ err (codec no_such_frame))
        × ((c : SeekEntry) → ¬ IsCandidate an_indexed a_target nearest c))
pick-IsBest_example = pick-IsBest an_indexed a_target nearest-named an_index-near

-- Full high definition, shown at 16:9 and in the colours of BT.709.
abbrev a_video : VideoInfo
a_video = record {
  coded_width = 1920;
  coded_height = 1088;
  display = some (1920, 1080);
  color = some (record {
    color_primaries = 1;
    transfer_characteristics = 1;
    matrix_coefficients = 1;
    full_range = false;
  });
}

a_video-IsVideo : IsVideo a_video
a_video-IsVideo = record {
  width = omega arith;
  height = omega arith;
  display = (omega arith, omega arith);
  color = record { primaries = omega arith; transfer = omega arith; matrix = omega arith };
}

read_video-video_entry_example :
    (read_video (video_entry a_video) ≡ ok (raw_video a_video))
    × (video_track (a_track 25) (some (raw_video a_video))
        ≡ ok (record (a_track 25) { video_info = some a_video }))
read_video-video_entry_example = read_video-video_entry (a_track 25) a_video a_video-IsVideo

-- A third of a second.
abbrev a_third : FrameDuration
a_third = record { numerator = 1; denominator = 3 }

nanos-IsNearest_example :
    ((n : ℕ) × ((nanos a_third Writer.new).1 ≡ ok n)
      × IsNearest (1 * ns_per_second) 3 n
      × (n < 2 ^ 64))
    ⊎ (((nanos a_third Writer.new).1 ≡ err (codec timestamp_overflow))
        × (2 * (2 ^ 64 * 3) ≤ 2 * (1 * ns_per_second) + 3))
nanos-IsNearest_example = nanos-IsNearest a_third Writer.new (omega arith) refl
