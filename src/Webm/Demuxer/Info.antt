-- ===== src/Webm/Demuxer/Info.antt =====
-- zenwebm/src/demux.rs: the document type, and the tracks of the file.
use zenextras.Prelude.{ℕ, ◌+◌, Bool, true, false, Option, none, some, List, [], ◌∷◌}
use zenextras.Prelude.{◌==◌, if◌then◌else◌, Result, ok, err, ◌>>=◌, unwrap_or}
use zenextras.Prelude.Bytes.{Bytes}
use zenextras.Prelude.Text.{codes}
use zenextras.Psd.Header.{bytes_eq}
use zenextras.Webm.Error.{unsupported_doc_type}
use zenextras.Webm.Types.{SessionError, codec, TimeBase, TrackInfo}
use zenextras.Webm.Ebml.{children}
use zenextras.Webm.Ebml.Ids
use zenextras.Webm.Demuxer.State.{RawTrack, Library}
use zenextras.Webm.Demuxer.Tracks.{each}
use zenextras.Webm.Demuxer.Build.{build_track}

abbrev pub doc_child : Option Bytes → ℕ → Bytes → Result SessionError (Option Bytes)
doc_child doc id p = ok (if id == Ids.doc_type then some p else doc)

-- `doc.strip_suffix(&[0]).unwrap_or(doc)`
unfoldable pub strip_zero : Bytes → Bytes
strip_zero [] = []
strip_zero (b ∷ []) = if b == 0 then [] else b ∷ []
strip_zero (b ∷ c ∷ rest) = b ∷ strip_zero (c ∷ rest)

abbrev pub is_matroska : Bytes → Result SessionError Bool
is_matroska doc =
    if bytes_eq doc (codes "webm")
    then ok false
    else if bytes_eq doc (codes "matroska")
    then ok true
    else err (codec unsupported_doc_type)

-- A missing DocType defaults to "matroska".
unfoldable pub doc_type : Bytes → Result SessionError Bool
doc_type body = each doc_child none (children body) >>= λ doc.
    is_matroska (strip_zero (unwrap_or doc (codes "matroska")))

unfoldable pub build_tracks :
    Library → ℕ → List RawTrack → TimeBase → Result SessionError (List TrackInfo)
build_tracks lib i [] tb = ok []
build_tracks lib i (t ∷ ts) tb = do
  track ← build_track lib i t tb
  others ← build_tracks lib (i + 1) ts tb
  ok (track ∷ others)

unfoldable pub numbers_of : List RawTrack → List ℕ
numbers_of [] = []
numbers_of (t ∷ ts) = t.number ∷ numbers_of ts
