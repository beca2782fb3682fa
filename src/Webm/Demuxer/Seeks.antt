-- ===== src/Webm/Demuxer/Seeks.antt =====
-- zenwebm/src/demux.rs, `seek`.
use zenextras.Prelude.{not}
use zenextras.Prelude.{none, some, [], length, replicate}
use zenextras.Prelude.{leb, if◌then◌else◌, refuse}
use zenextras.Webm.Error.{headers_first, no_such_frame}
use zenextras.Webm.Types.{codec}
use zenextras.Webm.Action.{Action, ◌>>=◌, ◌>>◌, give, read, lift, change}
use zenextras.Webm.Demuxer.State.{WebmDemuxer, scanning}
use zenextras.Webm.Demuxer.State.{SeekTarget, SeekResult}
use zenextras.Webm.Demuxer.Picking

pub data SeekStatus : Type 0 where
  positioned : SeekResult → SeekStatus
  is_scanning : SeekStatus

-- The seek waits for a scan of the Segment from its start.
unfoldable pub begin_scan : SeekTarget → WebmDemuxer → WebmDemuxer
begin_scan target d = record d {
  pending_seek = some target;
  pending = [];
  scan =
      some
        (record { pos = d.segment_data; cluster = none; ordinals = replicate (length d.tracks) 0 });
  state = scanning;
}

-- A seek with the index at hand.
unfoldable pub seek_indexed : SeekTarget → Action WebmDemuxer SeekStatus
seek_indexed target = do
  answer ← read (λ d. Picking.pick d target)
  e ← lift answer
  result ← read (λ d. (Picking.position d e).1)
  change (λ d. (Picking.position d e).0)
  give (positioned result)

unfoldable pub seek : SeekTarget → Action WebmDemuxer SeekStatus
seek target = do
  d ← read (λ d. d)
  lift (refuse (not d.headers_sent) (codec headers_first))
  lift (refuse (leb (length d.tracks) target.track) (codec no_such_frame))
  if d.index_complete then seek_indexed target else change (begin_scan target) >> give is_scanning
