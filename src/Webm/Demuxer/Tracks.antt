-- ===== src/Webm/Demuxer/Tracks.antt =====
-- zenwebm/src/demux.rs: the TrackEntry elements, and the tracks that are made of them.
use zenextras.Prelude.{ℕ, zero, suc, ◌+◌, not, ◌&&◌, ◌||◌}
use zenextras.Prelude.{Bool, true, false, some, List, [], ◌∷◌, ◌++◌, length, drop}
use zenextras.Prelude.{◌==◌, if◌then◌else◌, Result, ok, err, ◌>>=◌, ◌>>◌, refuse}
use zenextras.Prelude.Bytes.{Bytes}
use zenextras.Psd.Metadata.{char_at}
use zenextras.Webm.Error.{WebmError, unsupported_codec, track_timestamp_scale, content_encoding}
use zenextras.Webm.Error.{bad_track_number, no_tracks}
use zenextras.Webm.Types.{SessionError, codec, limit}
use zenextras.Webm.Ebml.{Child, children, uint, float}
use zenextras.Webm.Ebml.Ids
use zenextras.Webm.Demuxer.State.{RawColor, RawVideo, RawTrack, empty_track, empty_video}
use zenextras.Webm.Demuxer.State.{Library}

-- `r.map_err(SessionError::Codec)?`
abbrev pub of_codec {ℓ} : {A : Type ℓ} → Result WebmError A → Result SessionError A
of_codec (ok a) = ok a
of_codec (err e) = err (codec e)

abbrev pub map_ok : {A B : Type 0} → (A → B) → Result SessionError A → Result SessionError B
map_ok f (ok a) = ok (f a)
map_ok f (err e) = err e

-- `ebml::uint(p)?` put to use.
abbrev pub with_uint : {B : Type 0} → Bytes → (ℕ → B) → Result SessionError B
with_uint p f = map_ok f (of_codec (uint p))

-- `for child in children(body) { let (cid, p) = child?; .. }` with what the loop has gathered.
unfoldable pub each :
    {A : Type 0} → (A → ℕ → Bytes → Result SessionError A) → A → List Child → Result SessionError A
each round a [] = ok a
each round a (err e ∷ cs) = err (codec e)
each round a (ok (id, p) ∷ cs) = round a id p >>= λ b. each round b cs

-- `str::from_utf8` accepts the bytes.
unfoldable pub utf8_from : ℕ → Bytes → Bool
utf8_from fuel [] = true
utf8_from zero (b ∷ bs) = false
utf8_from (suc fuel) (b ∷ bs) =
    let (whole, n) = char_at b bs in whole && utf8_from fuel (drop n (b ∷ bs))

unfoldable pub is_utf8 : Bytes → Bool
is_utf8 b = utf8_from (length b) b

abbrev pub cons_nonzero : ℕ → Bytes → Bytes
cons_nonzero b [] = if b == 0 then [] else b ∷ []
cons_nonzero b (x ∷ xs) = b ∷ x ∷ xs

-- `s.trim_end_matches('\0')`
unfoldable pub trim_zeros : Bytes → Bytes
trim_zeros [] = []
trim_zeros (b ∷ bs) = cons_nonzero b (trim_zeros bs)

-- The codes of a Colour element, and whether there is any.
abbrev pub colour_child : RawColor × Bool → ℕ → Bytes → Result SessionError (RawColor × Bool)
colour_child (c, any) id p =
    if id == Ids.primaries
    then with_uint p (λ v. (record c { primaries = v }, true))
    else if id == Ids.transfer_characteristics
    then with_uint p (λ v. (record c { transfer = v }, true))
    else if id == Ids.matrix_coefficients
    then with_uint p (λ v. (record c { matrix = v }, true))
    else if id == Ids.range
    then with_uint p (λ v. (record c { range = v }, true))
    else ok (c, any)

-- Each code defaults to 2, which is unspecified, and the range to 0.
abbrev pub no_color : RawColor
no_color = record { primaries = 2; transfer = 2; matrix = 2; range = 0 }

abbrev pub with_color : RawVideo → RawColor × Bool → RawVideo
with_color v (c, true) = record v { color = some c }
with_color v (c, false) = v

unfoldable pub video_child : RawVideo → ℕ → Bytes → Result SessionError RawVideo
video_child v id p =
    if id == Ids.pixel_width
    then with_uint p (λ n. record v { width = n })
    else if id == Ids.pixel_height
    then with_uint p (λ n. record v { height = n })
    else if id == Ids.display_width
    then with_uint p (λ n. record v { display = (some n, v.display.1) })
    else if id == Ids.display_height
    then with_uint p (λ n. record v { display = (v.display.0, some n) })
    else if id == Ids.display_unit
    then with_uint p (λ n. record v { display_unit = n })
    else if id == Ids.colour
    then map_ok (with_color v) (each colour_child (no_color, false) (children p))
    else ok v

unfoldable pub read_video : Bytes → Result SessionError RawVideo
read_video body = each video_child empty_video (children body)

unfoldable pub audio_child : ℕ × ℕ → ℕ → Bytes → Result SessionError (ℕ × ℕ)
audio_child (rate, channels) id p =
    if id == Ids.sampling_frequency
    then map_ok (λ v. (v, channels)) (of_codec (float p))
    else if id == Ids.channels
    then with_uint p (λ v. (rate, v))
    else ok (rate, channels)

-- The bits of 8000.0 and of 1.0.
abbrev pub default_rate : ℕ
default_rate = 0x40BF400000000000

abbrev pub one_bits : ℕ
one_bits = 0x3FF0000000000000

unfoldable pub read_audio : Bytes → Result SessionError (ℕ × ℕ)
read_audio body = each audio_child (default_rate, 1) (children body)

-- A `TrackTimestampScale` of 1.0; a float equals it only by its bits.
abbrev pub unit_scale : ℕ → Result SessionError (Unit {0})
unit_scale n = refuse (not (n == one_bits)) (codec track_timestamp_scale)

unfoldable pub track_child : RawTrack → ℕ → Bytes → Result SessionError RawTrack
track_child t id p =
    if id == Ids.track_number
    then with_uint p (λ n. record t { number = n })
    else if id == Ids.track_type
    then with_uint p (λ n. record t { kind = n })
    else if id == Ids.codec_id
    then refuse (not (is_utf8 p)) (codec unsupported_codec)
      >> ok (record t { codec = trim_zeros p })
    else if id == Ids.codec_private
    then ok (record t { private = some p })
    else if id == Ids.codec_delay
    then with_uint p (λ n. record t { codec_delay_ns = n })
    else if id == Ids.seek_pre_roll
    then with_uint p (λ n. record t { seek_preroll_ns = n })
    else if id == Ids.track_timestamp_scale
    then map_ok (λ _. t) (of_codec (float p) >>= unit_scale)
    else if id == Ids.content_encodings
    then err (codec content_encoding)
    else if id == Ids.video
    then map_ok (λ v. record t { video = some v }) (read_video p)
    else if id == Ids.audio
    then map_ok (λ a. record t { audio = some a }) (read_audio p)
    else ok t

unfoldable pub read_track : Bytes → Result SessionError RawTrack
read_track body = each track_child empty_track (children body)

unfoldable pub is_taken : ℕ → List RawTrack → Bool
is_taken n [] = false
is_taken n (t ∷ ts) = t.number == n || is_taken n ts

unfoldable pub entry_child :
    Library → List RawTrack → ℕ → Bytes → Result SessionError (List RawTrack)
entry_child lib out id p =
    if not (id == Ids.track_entry)
    then ok out
    else if not (lib.check_tracks (length out + 1))
    then err limit
    else do
      t ← read_track p
      refuse (t.number == 0 || is_taken t.number out) (codec bad_track_number)
      ok (out ++ (t ∷ []))

abbrev pub some_tracks : List RawTrack → Result SessionError (List RawTrack)
some_tracks [] = err (codec no_tracks)
some_tracks (t ∷ ts) = ok (t ∷ ts)

unfoldable pub read_tracks : Library → Bytes → Result SessionError (List RawTrack)
read_tracks lib body = each (entry_child lib) [] (children body) >>= some_tracks
