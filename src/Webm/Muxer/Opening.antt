-- ===== src/Webm/Muxer/Opening.antt =====
-- zenwebm/src/mux.rs, `begin`: everything before the first cluster.
use zenextras.Prelude.{ℕ, ◌+◌, ◌-◌, ◌/◌, ◌^◌, min, max, ◌&&◌}
use zenextras.Prelude.{Bool, true, false, none, List, [], ◌∷◌, ◌++◌, length, map}
use zenextras.Prelude.{ltb, ◌==◌, if◌then◌else◌, ok_or, refuse}
use zenextras.Prelude.Bytes.{Bytes}
use zenextras.Prelude.Int.{ℤ, pos}
use zenextras.Prelude.Text.{codes}
use zenextras.Webm.Action.{Action, ◌>>=◌, ◌>>◌, give, read, lift, change}
use zenextras.Webm.Error.{no_tracks, too_many_tracks, bad_timestamp_scale}
use zenextras.Webm.Types.{codec, begin_twice}
use zenextras.Webm.Types.{TrackKind, video, audio, subtitle, data_track}
use zenextras.Webm.Types.{unnamed_kind, CodecId, av1, TrackInfo}
use zenextras.Webm.Ebml.{put_id, put, put_uint, put_unknown_size}
use zenextras.Webm.Ebml.Ids
use zenextras.Webm.Muxer.State.{WebmMuxer, MuxTrack, Library}
use zenextras.Webm.Muxer.State.{ns_per_second}
use zenextras.Webm.Muxer.Times.{nanos, choose_scale}
use zenextras.Webm.Muxer.Tracks.{track_entry}

-- One TrackEntry for each track, and whether WebM allows them all.
unfoldable pub put_entries : ℕ → List TrackInfo → Bytes → Bool → Action WebmMuxer (Bytes × Bool)
put_entries i [] entries webm = give (entries, webm)
put_entries i (t ∷ ts) entries webm = do
  entry ← track_entry i t
  put_entries (i + 1) ts (put entries Ids.track_entry entry.0) (webm && entry.1)

unfoldable pub ebml_entry : Bool → Bytes
ebml_entry webm =
    let h = put_uint [] Ids.ebml_version 1 in
    let h = put_uint h Ids.ebml_read_version 1 in
    let h = put_uint h Ids.ebml_max_id_length 4 in
    let h = put_uint h Ids.ebml_max_size_length 8 in
    let h = put h Ids.doc_type (if webm then codes "webm" else codes "matroska") in
    let h = put_uint h Ids.doc_type_version 4 in put_uint h Ids.doc_type_read_version 2

unfoldable pub info_entry : ℕ → Bytes
info_entry scale_ns =
    let info = put_uint [] Ids.timestamp_scale scale_ns in
    let info = put info Ids.muxing_app (codes "zenwebm") in
    put info Ids.writing_app (codes "zenwebm")

-- Everything before the first cluster.
unfoldable pub head : Bool → ℕ → Bytes → Bytes
head webm scale_ns entries =
    let head = put [] Ids.ebml (ebml_entry webm) in
    let head = put_unknown_size (put_id head Ids.segment) in
    put (put head Ids.info (info_entry scale_ns)) Ids.tracks entries

abbrev pub is_video : TrackKind → Bool
is_video video = true
is_video audio = false
is_video subtitle = false
is_video data_track = false
is_video unnamed_kind = false

abbrev pub is_av1 : CodecId → Bool
is_av1 av1 = true
is_av1 _ = false

abbrev pub mux_track : TrackInfo → MuxTrack
mux_track t = record {
  time_base = t.time_base;
  epoch = t.config_epoch;
  video = is_video t.kind;
  av1 = is_av1 t.codec_id;
  last_ticks = none;
}

-- At least one tick, and at most what the 16-bit offset of a block reaches.
abbrev pub clamp_ticks : ℕ → ℤ
clamp_ticks cluster = pos (min (max cluster 1) (2 ^ 15 - 1))

pub data MuxTiming : Type 0 where
  streaming : MuxTiming

unfoldable pub begin : Library → List TrackInfo → Action WebmMuxer MuxTiming
begin lib tracks = do
  begun ← read (λ m. m.begun)
  lift (refuse begun begin_twice)
  lift (refuse (length tracks == 0) (codec no_tracks))
  lift (refuse (ltb 126 (length tracks)) (codec too_many_tracks))
  chosen ← read (λ m. choose_scale m tracks)
  scale_ns ← lift chosen
  segment ← lift (ok_or (lib.time_base_new scale_ns ns_per_second) (codec bad_timestamp_scale))
  change (λ m. record m { scale_ns = scale_ns; segment = segment })
  entries ← put_entries 0 tracks [] true
  duration ← read (λ m. m.cluster_duration)
  span ← nanos duration
  change (λ m. record m {
    cluster_ticks = clamp_ticks (span / scale_ns);
    out = m.out ++ head entries.1 scale_ns entries.0;
    tracks = map mux_track tracks;
    begun = true;
  })
  give streaming
