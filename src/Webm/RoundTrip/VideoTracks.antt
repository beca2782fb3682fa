-- ===== src/Webm/RoundTrip/VideoTracks.antt =====
-- The Video element of a track: what `video_entry` writes, `read_video` reads, and `video_track` puts together.
use zenextras.Prelude.{
  ℕ, ◌<◌, ◌≤◌, ◌^◌, Bool, true, false, Option, none, some, not, ◌&&◌, ltb, ◌==◌, if◌then◌else◌,
}
use zenextras.Prelude.{
  List, [], ◌∷◌, ◌++◌, map, length, All, All-append, ok, ◌≡◌, refl, ap, ◌∙◌, arith,
}
use zenextras.Prelude.Bytes.{Bytes}
use zenextras.Webm.Types.{VideoInfo, Cicp, TrackInfo}
use zenextras.Webm.Ebml.{put, put_uint, uint, children}
use zenextras.Webm.Ebml.Ids
use zenextras.Webm.Ebml.Fields.{by_width}
use zenextras.Webm.Ebml.Elements.{IsElement, put_all, children-put_all}
use zenextras.Webm.Ebml.Integers.{uint_bytes, uint-uint_bytes}
use zenextras.Webm.Muxer.Tracks.{colour_entry, video_entry, put_display, put_colour}
use zenextras.Webm.Demuxer.State.{RawColor, RawVideo, empty_video}
use zenextras.Webm.Demuxer.Tracks.{each, colour_child, video_child, read_video, no_color}
use zenextras.Webm.Demuxer.Build.{video_track, color_of, display_of, are_u32}
use zenextras.Webm.RoundTrip.Sizes.{length-put_all-le}

-- The fields that a `Cicp` and a `VideoTrackInfo` have.
pub record IsColour (c : Cicp) : Type 0 where
  pub primaries : c.color_primaries < 2 ^ 8
  pub transfer : c.transfer_characteristics < 2 ^ 8
  pub matrix : c.matrix_coefficients < 2 ^ 8

abbrev pub IsDisplay : Option (ℕ × ℕ) → Type 0
IsDisplay none = Unit {0}
IsDisplay (some (w, h)) = (w < 2 ^ 32) × (h < 2 ^ 32)

abbrev pub IsColoured : Option Cicp → Type 0
IsColoured none = Unit {0}
IsColoured (some c) = IsColour c

pub record IsVideo (v : VideoInfo) : Type 0 where
  pub width : v.coded_width < 2 ^ 32
  pub height : v.coded_height < 2 ^ 32
  pub display : IsDisplay v.display
  pub color : IsColoured v.color

abbrev raw_color : Cicp → RawColor
raw_color c = record {
  primaries = c.color_primaries;
  transfer = c.transfer_characteristics;
  matrix = c.matrix_coefficients;
  range = if c.full_range then 2 else 1;
}

abbrev colour_elements : Cicp → List (ℕ × Bytes)
colour_elements c =
    (Ids.matrix_coefficients, uint_bytes c.matrix_coefficients)
    ∷ (Ids.range, uint_bytes (if c.full_range then 2 else 1))
    ∷ (Ids.transfer_characteristics, uint_bytes c.transfer_characteristics)
    ∷ (Ids.primaries, uint_bytes c.color_primaries)
    ∷ []

range_fits : (full : Bool) → (if full then 2 else 1) < 2 ^ 64
range_fits true = omega arith
range_fits false = omega arith

colour_IsElement : (c : Cicp) → IsColour c → All IsElement (colour_elements c)
colour_IsElement c h =
    let (_, s1) = uint-uint_bytes c.matrix_coefficients (omega (arith, h.matrix)) in
    let (_, s2) = uint-uint_bytes (if c.full_range then 2 else 1) (range_fits c.full_range) in
    let (_, s3) = uint-uint_bytes c.transfer_characteristics (omega (arith, h.transfer)) in
    let (_, s4) = uint-uint_bytes c.color_primaries (omega (arith, h.primaries)) in
    (
      record { valid = by_width 1 _ refl; fits = omega (arith, s1) },
      (
        record { valid = by_width 1 _ refl; fits = omega (arith, s2) },
        (
          record { valid = by_width 1 _ refl; fits = omega (arith, s3) },
          (record { valid = by_width 1 _ refl; fits = omega (arith, s4) }, tt),
        ),
      ),
    )

colour_read :
    (c : Cicp)
    → IsColour c
    → each colour_child (no_color, false) (children (colour_entry c)) ≡ ok (raw_color c, true)
unfolding colour_entry put_all put_uint
colour_read c h =
    let (e1, _) = uint-uint_bytes c.matrix_coefficients (omega (arith, h.matrix)) in
    let (e2, _) = uint-uint_bytes (if c.full_range then 2 else 1) (range_fits c.full_range) in
    let (e3, _) = uint-uint_bytes c.transfer_characteristics (omega (arith, h.transfer)) in
    let (e4, _) = uint-uint_bytes c.color_primaries (omega (arith, h.primaries)) in
    ap (each colour_child (no_color, false))
      (children-put_all (colour_elements c) (colour_IsElement c h))
    ∙ four e1 e2 e3 e4
  where
    four :
        uint (uint_bytes c.matrix_coefficients) ≡ ok c.matrix_coefficients
        → uint (uint_bytes (if c.full_range then 2 else 1)) ≡ ok (if c.full_range then 2 else 1)
        → uint (uint_bytes c.transfer_characteristics) ≡ ok c.transfer_characteristics
        → uint (uint_bytes c.color_primaries) ≡ ok c.color_primaries
        → each colour_child (no_color, false) (map ok (colour_elements c)) ≡ ok (raw_color c, true)
    four e1 e2 e3 e4 = unfold each in rw (e1, e2, e3, e4) refl

-- The elements of a Video element, part by part.
abbrev display_part : Option (ℕ × ℕ) → List (ℕ × Bytes)
display_part none = []
display_part (some (w, h)) =
    (Ids.display_width, uint_bytes w) ∷ (Ids.display_height, uint_bytes h) ∷ []

abbrev colour_part : Option Cicp → List (ℕ × Bytes)
colour_part none = []
colour_part (some c) = (Ids.colour, colour_entry c) ∷ []

abbrev video_elements : VideoInfo → List (ℕ × Bytes)
video_elements v =
    (Ids.pixel_width, uint_bytes v.coded_width)
    ∷ (Ids.pixel_height, uint_bytes v.coded_height)
    ∷ (display_part v.display ++ colour_part v.color)

-- What the reader makes of them.
abbrev raw_display : Option (ℕ × ℕ) → Option ℕ × Option ℕ
raw_display none = (none, none)
raw_display (some (w, h)) = (some w, some h)

abbrev raw_colour : Option Cicp → Option RawColor
raw_colour none = none
raw_colour (some c) = some (raw_color c)

abbrev pub raw_video : VideoInfo → RawVideo
raw_video v = record {
  width = v.coded_width;
  height = v.coded_height;
  display = raw_display v.display;
  display_unit = 0;
  color = raw_colour v.color;
}

video_entry-put_all : (v : VideoInfo) → video_entry v ≡ put_all [] (video_elements v)
unfolding video_entry put_all put_uint
video_entry-put_all v = shown v.display v.color
  where
    shown :
        (d : Option (ℕ × ℕ)) (c : Option Cicp)
        → put_colour
            (put_display
              (put
                (put [] Ids.pixel_width (uint_bytes v.coded_width))
                Ids.pixel_height
                (uint_bytes v.coded_height))
              d)
            c
          ≡ put_all [] (
              (Ids.pixel_width, uint_bytes v.coded_width)
              ∷ (Ids.pixel_height, uint_bytes v.coded_height)
              ∷ (display_part d ++ colour_part c))
    shown none none = refl
    shown none (some c) = refl
    shown (some (w, h)) none = refl
    shown (some (w, h)) (some c) = refl

length-colour_entry : (c : Cicp) → IsColour c → length (colour_entry c) ≤ 80
unfolding colour_entry put_uint put_all
length-colour_entry c h =
    let (_, s1) = uint-uint_bytes c.matrix_coefficients (omega (arith, h.matrix)) in
    let (_, s2) = uint-uint_bytes (if c.full_range then 2 else 1) (range_fits c.full_range) in
    let (_, s3) = uint-uint_bytes c.transfer_characteristics (omega (arith, h.transfer)) in
    let (_, s4) = uint-uint_bytes c.color_primaries (omega (arith, h.primaries)) in
    omega (arith, s1, s2, s3, s4, length-put_all-le (colour_elements c) [] (colour_IsElement c h))

display_valid : (d : Option (ℕ × ℕ)) → IsDisplay d → All IsElement (display_part d)
display_valid none h = tt
display_valid (some (w, h)) d =
    let (_, s1) = uint-uint_bytes w (omega (arith, d.0)) in
    let (_, s2) = uint-uint_bytes h (omega (arith, d.1)) in
    (
      record { valid = by_width 1 _ refl; fits = omega (arith, s1) },
      (record { valid = by_width 1 _ refl; fits = omega (arith, s2) }, tt),
    )

colour_valid : (c : Option Cicp) → IsColoured c → All IsElement (colour_part c)
colour_valid none h = tt
colour_valid (some c) h =
    (record { valid = by_width 1 _ refl; fits = omega (arith, length-colour_entry c h) }, tt)

video_valid : (v : VideoInfo) → IsVideo v → All IsElement (video_elements v)
video_valid v h =
    let (_, s1) = uint-uint_bytes v.coded_width (omega (arith, h.width)) in
    let (_, s2) = uint-uint_bytes v.coded_height (omega (arith, h.height)) in
    (
      record { valid = by_width 0 _ refl; fits = omega (arith, s1) },
      (
        record { valid = by_width 0 _ refl; fits = omega (arith, s2) },
        All-append IsElement (display_part v.display) (colour_part v.color)
            (display_valid v.display h.display) (colour_valid v.color h.color),
      ),
    )

abbrev sized : ℕ → ℕ → RawVideo
sized width height = record empty_video { width = width; height = height }

parts_read :
    (width height : ℕ) (d : Option (ℕ × ℕ)) (c : Option Cicp)
    → IsDisplay d
    → IsColoured c
    → each video_child (sized width height) (map ok (display_part d ++ colour_part c))
      ≡ ok (record (sized width height) { display = raw_display d; color = raw_colour c })
unfolding each video_child
parts_read width height none none hd hc = refl
parts_read width height none (some c) hd hc = rw (colour_read c hc) refl
parts_read width height (some (w, h)) none hd hc =
    let (e1, _) = uint-uint_bytes w (omega (arith, hd.0)) in
    let (e2, _) = uint-uint_bytes h (omega (arith, hd.1)) in rw (e1, e2) refl
parts_read width height (some (w, h)) (some c) hd hc =
    let (e1, _) = uint-uint_bytes w (omega (arith, hd.0)) in
    let (e2, _) = uint-uint_bytes h (omega (arith, hd.1)) in rw (e1, e2, colour_read c hc) refl

read_video-raw_video : (v : VideoInfo) → IsVideo v → read_video (video_entry v) ≡ ok (raw_video v)
unfolding read_video
read_video-raw_video v h =
    let (e1, _) = uint-uint_bytes v.coded_width (omega (arith, h.width)) in
    let (e2, _) = uint-uint_bytes v.coded_height (omega (arith, h.height)) in
    ap (λ (b : Bytes). each video_child empty_video (children b)) (video_entry-put_all v)
    ∙ ap (each video_child empty_video) (children-put_all (video_elements v) (video_valid v h))
    ∙ two e1 e2
    ∙ parts_read v.coded_width v.coded_height v.display v.color h.display h.color
  where
    two :
        uint (uint_bytes v.coded_width) ≡ ok v.coded_width
        → uint (uint_bytes v.coded_height) ≡ ok v.coded_height
        → each video_child empty_video (map ok (video_elements v))
          ≡ each video_child
              (sized v.coded_width v.coded_height)
              (map ok (display_part v.display ++ colour_part v.color))
    two e1 e2 = unfold each video_child in rw (e1, e2) refl

range_back : (full : Bool) → ((if full then 2 else 1) == 2) ≡ full
range_back true = refl
range_back false = refl

color_of-raw_colour : (c : Option Cicp) → IsColoured c → color_of (raw_colour c) ≡ ok c
color_of-raw_colour none h = refl
color_of-raw_colour (some c) h =
    let fits : (ltb c.color_primaries 256
          && ltb c.transfer_characteristics 256
          && ltb c.matrix_coefficients 256)
        ≡ true =
      ground (arith, h.primaries, h.transfer, h.matrix) in
    rw (fits, range_back c.full_range) refl

display_of-raw_display : (d : Option (ℕ × ℕ)) → IsDisplay d → display_of (raw_display d) 0 ≡ d
display_of-raw_display none h = refl
display_of-raw_display (some (w, h)) d =
    let fits : are_u32 w h ≡ true = ground (arith, d.0, d.1) in rw fits refl

-- What a track says of its video is written down and read back the same: the sizes, the display size, and the colour,
-- for numbers that the fields of a track have.
pub read_video-video_entry :
    (b : TrackInfo) (v : VideoInfo)
    → IsVideo v
    → (read_video (video_entry v) ≡ ok (raw_video v))
      × (video_track b (some (raw_video v)) ≡ ok (record b { video_info = some v }))
read_video-video_entry b v h = (read_video-raw_video v h, built_back)
  where
    fits : not (are_u32 v.coded_width v.coded_height) ≡ false
    fits = ground (arith, h.width, h.height)

    built_back : video_track b (some (raw_video v)) ≡ ok (record b { video_info = some v })
    built_back =
        rw (fits, color_of-raw_colour v.color h.color, display_of-raw_display v.display h.display)
          refl
