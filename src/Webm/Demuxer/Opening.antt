-- ===== src/Webm/Demuxer/Opening.antt =====
-- zenwebm/src/demux.rs, everything before the clusters: the EBML header, the Segment and its children.
use zenextras.Prelude.{ℕ, ◌+◌, ◌-◌, ◌^◌, not, ◌&&◌, ◌||◌}
use zenextras.Prelude.{
  Bool, true, false, Option, none, some, List, [], ◌∷◌, ◌++◌, length, replicate,
}
use zenextras.Prelude.{ltb, ◌==◌, if◌then◌else◌, ok, err, ok_or, refuse}
use zenextras.Prelude.Bytes.{Bytes}
use zenextras.Prelude.Int.{add_u64}
use zenextras.Webm.Error.{unknown_size, not_ebml, no_segment, no_tracks}
use zenextras.Webm.Error.{duplicate_tracks, bad_timestamp_scale}
use zenextras.Webm.Types.{codec, limit}
use zenextras.Webm.Ebml.{Child, Header, total, children, uint, max_header_len}
use zenextras.Webm.Ebml.Ids
use zenextras.Webm.Action.{Action, ◌>>=◌, ◌>>◌, give, fail, read, lift, change}
use zenextras.Webm.Demuxer.State.{WebmDemuxer, in_segment, in_body, done}
use zenextras.Webm.Demuxer.State.{Library, Input}
use zenextras.Webm.Demuxer.State.{DemuxProgress, headers, all_done, ns_per_second}
use zenextras.Webm.Demuxer.Tracks.{of_codec, read_tracks}
use zenextras.Webm.Demuxer.Info.{doc_type, build_tracks, numbers_of}
use zenextras.Webm.Demuxer.Scanning.{known_end}
use zenextras.Webm.Demuxer.Elements.{ask, with_header, with_body, skip}
use zenextras.Webm.Demuxer.Elements.{ask, with_header, with_body, skip}

unfoldable pub send_headers : Library → Action WebmDemuxer (Unit {0})
send_headers lib = do
  found ← read (λ d. d.raw_tracks)
  change (λ d. record d { raw_tracks = none })
  raw ← lift (ok_or found (codec no_tracks))
  base ← read (λ d. d.time_base)
  tracks ← lift (build_tracks lib 0 raw base)
  change (λ d. record d {
    numbers = numbers_of raw;
    ordinals = replicate (length tracks) 0;
    tracks = tracks;
    headers_sent = true;
  })

-- A file with tracks and no clusters still has headers.
unfoldable pub finish : Library → Action WebmDemuxer DemuxProgress
finish lib = do
  sent ← read (λ d. d.headers_sent)
  if sent
      then change (λ d. record d { state = done }) >> give (0, all_done)
      else send_headers lib >> give (0, headers)

unfoldable pub ebml_header : Library → Input → Action WebmDemuxer DemuxProgress
ebml_header lib input = with_header input (λ h. do
  lift (refuse (not (h.id == Ids.ebml)) (codec not_ebml))
  whole ← lift (ok_or (total h) (codec unknown_size))
  lift (refuse (not (lib.check_header_bytes whole)) limit)
  with_body h input (λ body. do
    matroska ← lift (doc_type body)
    change (λ d. record d { matroska = matroska; pos = whole; state = in_segment })
    ask whole))

abbrev pub is_empty_end : Input → ℕ → Bool
is_empty_end input at = input.offset == at && length input.bytes == 0 && input.reaches_end

unfoldable pub segment_header : Input → Action WebmDemuxer DemuxProgress
segment_header input = do
  at ← read (λ d. d.pos)
  lift (refuse (is_empty_end input at) (codec no_segment))
  with_header input (λ h.
      if h.id == Ids.segment
      then change (λ d. record d {
        pos = add_u64 d.pos h.len;
        segment_data = add_u64 d.pos h.len;
        segment_end = known_end (add_u64 d.pos h.len) h.size;
        state = in_body;
      })
        >> ask h.len
      else if h.id == Ids.void || h.id == Ids.crc32
      then skip h input
      else fail (codec no_segment))

-- `TimestampScale`: the scale stays set where the time base refuses it.
unfoldable pub set_scale : Library → Bytes → Action WebmDemuxer (Unit {0})
set_scale lib p = do
  scale ← lift (of_codec (uint p))
  lift (refuse (not (ltb scale (2 ^ 32) && ltb 0 scale)) (codec bad_timestamp_scale))
  change (λ d. record d { scale_ns = scale })
  base ← lift (ok_or (lib.time_base_new scale ns_per_second) (codec bad_timestamp_scale))
  change (λ d. record d { time_base = base })

unfoldable pub read_info : Library → List Child → Action WebmDemuxer (Unit {0})
read_info lib [] = give tt
read_info lib (err e ∷ cs) = fail (codec e)
read_info lib (ok (id, p) ∷ cs) = do
  if id == Ids.timestamp_scale then set_scale lib p else give tt
  read_info lib cs

abbrev pub is_some : {A : Type 0} → Option A → Bool
is_some none = false
is_some (some _) = true

-- The payload of Info or Tracks.
unfoldable pub take_header : Library → ℕ → Bytes → Action WebmDemuxer (Unit {0})
take_header lib id body = if id == Ids.info then read_info lib (children body) else do
  seen ← read (λ d. d.raw_tracks)
  sent ← read (λ d. d.headers_sent)
  lift (refuse (is_some seen || sent) (codec duplicate_tracks))
  raw ← lift (read_tracks lib body)
  change (λ d. record d { raw_tracks = some raw })

abbrev pub or_unbounded : Option ℕ → ℕ
or_unbounded none = 2 ^ 64 - 1
or_unbounded (some n) = n

-- The payload of Info or Tracks is read whole.
abbrev pub header_child : Library → Header → Input → Action WebmDemuxer DemuxProgress
header_child lib h input = with_body h input (λ body. do
  take_header lib h.id body
  change (λ d. record d { pos = add_u64 d.pos (h.len + length body) })
  ask (h.len + length body))

-- The first cluster sends the headers.
unfoldable pub enter_cluster : Library → Header → Action WebmDemuxer DemuxProgress
enter_cluster lib h = do
  change (λ d. record d {
    pos = add_u64 d.pos h.len;
    cluster = some (record { end = known_end (add_u64 d.pos h.len) h.size; timestamp = none });
  })
  sent ← read (λ d. d.headers_sent)
  if sent then ask h.len else do
    send_headers lib
    change (λ d. record d {
      requests = d.requests ++ (record { offset = d.pos; len = max_header_len } ∷ []);
    })
    give (h.len, headers)

-- A child of the Segment outside the clusters.
unfoldable pub segment_child : Library → Header → Input → Action WebmDemuxer DemuxProgress
segment_child lib h input =
    if h.id == Ids.info || h.id == Ids.tracks
    then lift (refuse (not (lib.check_header_bytes (or_unbounded (total h)))) limit)
      >> header_child lib h input
    else if h.id == Ids.cluster
    then enter_cluster lib h
    else if h.id == Ids.ebml || h.id == Ids.segment
    then finish lib
    else skip h input
