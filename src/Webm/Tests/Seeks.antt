-- ===== src/Webm/Tests/Seeks.antt =====
-- Examples for zenwebm/src/demux.rs: the scan of a seek over three blocks, and its end.
use zenextras.Prelude.{
  ℕ, true, false, none, some, List, [], ◌∷◌, ◌++◌, get_or, err, ◌≡◌, refl, arith,
}
use zenextras.Prelude.Int.{pos}
use zenextras.Webm.Error.{no_such_frame}
use zenextras.Webm.Types.{codec, panicked}
use zenextras.Webm.Ebml.{put}
use zenextras.Webm.Ebml.Ids
use zenextras.Webm.Demuxer.State.{
  WebmDemuxer, SeekEntry, SeekTarget, Scan, Input, Library, new, scanning, nearest,
}
use zenextras.Webm.Demuxer.Picking.{pick, choose, candidates, position}
use zenextras.Webm.Demuxer.Scanning.{finish_scan, scan_step}
use zenextras.Webm.Demuxer.{step}
use zenextras.Webm.Demuxer.Seeks.{begin_scan}
use zenextras.Webm.Demuxer.Ordinals.{frames_in}
use zenextras.Webm.Demuxer.Counting.{Sound, scan_step-Sound}
use zenextras.Webm.Demuxer.Resuming.{get_or-zeros, position-frames_in, begin_scan-not-Sound}
use zenextras.Webm.Demuxer.FailedSeek.{completed, finish_scan-panicked}

abbrev a_library : Library
a_library = record {
  check_header_bytes = λ n. true;
  check_packet_bytes = λ n. true;
  check_tracks = λ n. true;
  check_table_entries = λ n. true;
  reserve = λ n. true;
  time_base_new = λ n d. some (record { numerator = n; denominator = d });
  frame_duration_new = λ n d. true;
  tag = λ id. id;
  epoch = 0;
  build = λ t. none;
}

abbrev an_entry : ℕ → ℕ → SeekEntry
an_entry offset ordinal = record {
  offset = offset;
  cluster_end = none;
  cluster_ts = pos 0;
  track = 0;
  pts = pos ordinal;
  key = true;
  ordinal = ordinal;
  frames = 1;
}

abbrev an_index : List SeekEntry
an_index = an_entry 60 0 ∷ an_entry 80 1 ∷ an_entry 99 2 ∷ []

abbrev indexed : WebmDemuxer
indexed = record new { index = an_index; ordinals = 0 ∷ [] }

abbrev a_target : SeekTarget
a_target = record {
  track = 0;
  time = record { ticks = pos 1; base = record { numerator = 1; denominator = 4 } };
  mode = nearest;
  any_scope = false;
}

-- A scan that has just entered a cluster.
abbrev a_scan : Scan
a_scan = record { pos = 60; cluster = some (none, some (pos 0)); ordinals = 0 ∷ [] }

abbrev a_reader : WebmDemuxer
a_reader = record new {
  state = scanning;
  numbers = 1 ∷ [];
  scan = some a_scan;
  pending_seek = some a_target;
}

abbrev an_input : Input
an_input = record {
  offset = 60;
  bytes = put [] Ids.simple_block (0x81 ∷ 0 ∷ 0 ∷ 0x80 ∷ 7 ∷ []) ++ (0xA3 ∷ []);
  total_len = none;
  reaches_end = false;
}

a_reader-Sound : Sound a_reader
unfolding frames_in
a_reader-Sound = record { entries = tt; next = get_or-zeros 1; room = refl }

scan_step-Sound_example : Sound (scan_step a_library an_input a_reader).0
scan_step-Sound_example = scan_step-Sound a_library an_input a_reader a_reader-Sound

position-frames_in_example :
    (get_or (position indexed (an_entry 80 1)).0.ordinals 0 0 ≡ frames_in 0 (an_entry 60 0 ∷ []))
    × ((position indexed (an_entry 80 1)).1.ordinal ≡ frames_in 0 (an_entry 60 0 ∷ []))
position-frames_in_example =
    position-frames_in indexed (an_entry 60 0 ∷ []) (an_entry 80 1) (an_entry 99 2 ∷ []) 0 refl
      (refl, (refl, (refl, tt))) (omega arith, tt) (omega arith, tt) (omega arith)

-- Another seek while the index has a block.
begin_scan-not-Sound_example : ¬ Sound (begin_scan a_target indexed)
begin_scan-not-Sound_example =
    begin_scan-not-Sound indexed a_target (an_entry 60 0) (an_entry 80 1 ∷ an_entry 99 2 ∷ []) refl
      (omega arith)

nothing_found : pick (completed a_reader) a_target ≡ err (codec no_such_frame)
unfolding pick choose candidates
nothing_found = refl

finish_scan-panicked_example :
    (finish_scan a_reader ≡ (completed a_reader, err (codec no_such_frame)))
    × ((step a_library true an_input (completed a_reader)).1 ≡ err panicked)
finish_scan-panicked_example =
    finish_scan-panicked a_library a_reader a_target (codec no_such_frame) an_input refl refl refl
      nothing_found
