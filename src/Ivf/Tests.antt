-- ===== src/Ivf/Tests.antt =====
-- Examples for zenivf/src/lib.rs: a track of VP9 with two packets.
use zenextras.Prelude.{true, false, List, [], ◌∷◌, All, ok, err, some, none, ◌≡◌, refl, arith}
use zenextras.Prelude.Bytes.{Bytes}
use zenextras.Ivf.Frames.{Frame, frames_bytes, IsFrame, IsGenerous, Reads, packets_of, rest_of}
use zenextras.Ivf.Types.{vp9, fourcc_for, codec, no_such_frame, panicked}
use zenextras.Ivf.Reading.{in_packets, IvfDemuxer, Input, Library, Track, headers}
use zenextras.Ivf.Reading
use zenextras.Ivf.Reading.{SeekTarget, nearest, scanning}
use zenextras.Ivf.Seeking.{pick, choose, min_by, finish_scan}
use zenextras.Ivf.Reading.{done, all_done, packet, at_end}
use zenextras.Ivf.Demuxer.Count.{IsComplete, step-IsComplete}
use zenextras.Ivf.Demuxer.FailedSeek.{completed, finish_scan-step}
use zenextras.Ivf.Demuxer.{step}
use zenextras.Ivf.Demuxer.Index.{IsIndexed, step-IsIndexed}
use zenextras.Ivf.Muxer.{TrackInfo}
use zenextras.Ivf.WholeFile.{IsTrack, mux, track_read, read-mux}

abbrev open_library : Library
open_library = record {
  table_entries_ok = λ n. true;
  header_bytes_ok = λ n. true;
  packet_bytes_ok = λ n. true;
  reserve_ok = λ n. true;
  time_base_ok = λ n d. true;
  track_ok = λ t. true;
  tag = λ b. b;
}

abbrev open_library-IsGenerous : IsGenerous open_library
open_library-IsGenerous = record {
  entries = λ n. refl;
  header = λ n. refl;
  packets = λ n. refl;
  memory = λ n. refl;
  bases = λ n d h h'. refl;
  tracks = λ t. refl;
}

abbrev vp9_track : TrackInfo
vp9_track = record {
  is_video = true;
  codec_id = vp9;
  coded_width = 640;
  coded_height = 360;
  base = record { numerator = 1; denominator = 30 };
}

vp9_fourcc : fourcc_for vp9 ≡ some (b'V' ∷ b'P' ∷ b'9' ∷ b'0' ∷ [])
unfolding fourcc_for
vp9_fourcc = refl

vp9_track-IsTrack : IsTrack vp9_track b'V' b'P' b'9' b'0'
vp9_track-IsTrack = record {
  video = refl;
  named = vp9_fourcc;
  wide = (omega arith, omega arith);
  high = (omega arith, omega arith);
  ticks = (omega arith, omega arith);
  rate = (omega arith, omega arith);
}

abbrev frames : List Frame
frames = (0, 7 ∷ []) ∷ (1, 8 ∷ 9 ∷ []) ∷ []

frames-IsFrame : All IsFrame frames
frames-IsFrame =
    ((omega arith, omega arith, omega arith), ((omega arith, omega arith, omega arith), tt))

read-mux_example :
    (out : Bytes) × (mux vp9_track frames true ≡ ok (out, []))
    × (d : IvfDemuxer) × (step open_library true Reading.new (rest_of out Reading.new)
        ≡ (d, ok (32, headers)))
    × (d.tracks ≡ track_read open_library vp9_track b'V' b'P' b'9' b'0' ∷ [])
    × Reads open_library out d (packets_of frames 32 0 vp9_track.base)
read-mux_example =
    read-mux open_library vp9_track b'V' b'P' b'9' b'0' frames true open_library-IsGenerous
      vp9_track-IsTrack frames-IsFrame

-- A reader that has found one packet, with the next one in front of it.
abbrev between : IvfDemuxer
between = record {
  state = in_packets;
  tracks = [];
  requests = [];
  time_base = some vp9_track.base;
  header_bytes = 32;
  start = 0;
  ordinal = 1;
  declared = none;
  index = record { offset = 32; pts = 0; ordinal = 0 } ∷ [];
  index_complete = false;
  scan_pos = 0;
  scan_ordinal = 1;
  pending_seek = none;
}

step-IsIndexed_example :
    IsIndexed (step open_library true between (rest_of (frames_bytes frames) between)).0
step-IsIndexed_example =
    step-IsIndexed open_library true between (rest_of (frames_bytes frames) between) (refl, tt)

-- A file of a header alone, scanned for a time in it.
abbrev wanted : SeekTarget
wanted = record {
  track = 0;
  time = 5;
  base = record { numerator = 1; denominator = 1 };
  mode = nearest;
  any_scope = true;
}

abbrev empty_scan : IvfDemuxer
empty_scan = record between {
  state = scanning;
  index = [];
  scan_pos = 32;
  scan_ordinal = 0;
  pending_seek = some wanted;
}

abbrev no_more : Input
no_more = record { offset = 32; bytes = []; total_len = some 32; reaches_end = true }

nothing_found : pick (completed empty_scan) wanted ≡ err (codec no_such_frame)
unfolding pick choose min_by
nothing_found = refl

finish_scan-step_example :
    (finish_scan empty_scan 0 ≡ (completed empty_scan, err (codec no_such_frame)))
    × ((step open_library true (completed empty_scan) no_more).1 ≡ err panicked)
finish_scan-step_example =
    finish_scan-step open_library empty_scan no_more 0 32 wanted (codec no_such_frame) refl refl
      nothing_found refl (omega arith)

-- The end of a file whose header declares one packet, after that packet.
abbrev at_last : IvfDemuxer
at_last = record between { declared = some 1 }

abbrev nothing_left : Input
nothing_left = record { offset = 0; bytes = []; total_len = none; reaches_end = true }

last_step :
    step open_library true at_last nothing_left
    ≡ (record at_last { state = done; index_complete = true }, ok (0, all_done))
unfolding step packet at_end
last_step = refl

step-IsComplete_example : IsComplete at_last
step-IsComplete_example =
    step-IsComplete open_library true at_last
      (record at_last { state = done; index_complete = true }) nothing_left 0 refl last_step
