-- ===== src/Psd/Interleave/Size.antt =====
-- The size of the pixels that `interleave_planes` makes, and the rounding of ink.
use zenextras.Prelude.{ℕ, zero, suc, ◌+◌, ◌*◌, ◌≤◌, ◌<◌, ◌^◌, Bool, true, false, Option, none, some}
use zenextras.Prelude.{length, length-append, Bool-cases, inl, inr, ltb, ok_or, unwrap_or}
use zenextras.Prelude.{◌≡◌, refl, sym, ap, ◌∙◌, arith, ok, ok-injective, >>=-eq-ok}
use zenextras.Prelude.Bytes.{Bytes, slice}
use zenextras.Psd.Types.{
  PsdHeader, base_channels, used_channels, malformed, BitDepth, one, eight, sixteen, thirty_two,
}
use zenextras.Psd.Types.{
  ColorMode, bitmap, grayscale, indexed, rgb, cmyk, multichannel, duotone, lab,
}
use zenextras.Psd.Metadata.{PsdMetadata}
use zenextras.Psd.Output.{
  bytes_per_pixel, has_alpha, has_alpha_by, is_palette_index, descriptor_of, output_descriptor,
}
use zenextras.Psd.Interleave.{
  pixels, bitmap_rows, bit_row, ink_8, ink_16, cmyk_8, cmyk_16, palette_pixel,
}
use zenextras.Psd.Interleave.{palette_index, gray_pixel, rgb_pixel, cmyk_pixel, interleave}
use zenextras.Psd.Interleave.{unsupported, all_pixels, indexed_pixels}

length-pixels :
    (pixel : ℕ → Bytes) (k : ℕ)
    → ((i : ℕ) → length (pixel i) ≡ k)
    → (i n : ℕ) → length (pixels pixel i n) ≡ n * k
unfolding pixels
length-pixels pixel k each i zero = omega arith
length-pixels pixel k each i (suc n) =
    length-append (pixel i) (pixels pixel (i + 1) n)
    ∙ rw (each i, length-pixels pixel k each (i + 1) n) (ground arith)

length-bitmap_rows :
    (planes : Bytes) (row_bytes w y h : ℕ) → length (bitmap_rows planes row_bytes w y h) ≡ h * w
unfolding bitmap_rows bit_row
length-bitmap_rows planes row_bytes w y zero = omega arith
length-bitmap_rows planes row_bytes w y (suc h) =
    length-append (pixels (bit_row (slice (y * row_bytes) ((y + 1) * row_bytes) planes)) 0 w) _
    ∙ rw
        (
          length-pixels (bit_row (slice (y * row_bytes) ((y + 1) * row_bytes) planes)) 1 (λ i. refl)
              0 w,
          length-bitmap_rows planes row_bytes w (y + 1) h,
        )
        (ground arith)

-- A pixel function that is chosen has the size of the one chosen.
same_size :
    (p q : ℕ → Bytes) (k i : ℕ)
    → ◌≡◌ {A = Option (ℕ → Bytes)} (some p) (some q)
    → length (p i) ≡ k
    → length (q i) ≡ k
same_size p q k i e h = rw (← ap (λ (o : Option (ℕ → Bytes)). the_size p i o) e) h
  where
    the_size : (ℕ → Bytes) → ℕ → Option (ℕ → Bytes) → ℕ
    the_size p i none = length (p i)
    the_size p i (some q) = length (q i)

gray_pixel_size :
    (ch : ℕ → Bytes) (depth : BitDepth) (alpha : Bool) {pixel : ℕ → Bytes}
    → gray_pixel ch depth alpha ≡ some pixel
    → (i : ℕ) → length (pixel i) ≡ bytes_per_pixel (descriptor_of grayscale depth alpha)
unfolding gray_pixel descriptor_of
gray_pixel_size ch eight false e i = same_size _ _ 1 i e refl
gray_pixel_size ch eight true e i = same_size _ _ 2 i e refl
gray_pixel_size ch sixteen false e i = same_size _ _ 2 i e refl
gray_pixel_size ch sixteen true e i = same_size _ _ 4 i e refl
gray_pixel_size ch thirty_two false e i = same_size _ _ 4 i e refl
gray_pixel_size ch thirty_two true e i = same_size _ _ 16 i e refl
gray_pixel_size ch one alpha e i = cc

rgb_pixel_size :
    (ch : ℕ → Bytes) (depth : BitDepth) (alpha : Bool) {pixel : ℕ → Bytes}
    → rgb_pixel ch depth alpha ≡ some pixel
    → (i : ℕ) → length (pixel i) ≡ bytes_per_pixel (descriptor_of rgb depth alpha)
unfolding rgb_pixel descriptor_of
rgb_pixel_size ch eight false e i = same_size _ _ 3 i e refl
rgb_pixel_size ch eight true e i = same_size _ _ 4 i e refl
rgb_pixel_size ch sixteen false e i = same_size _ _ 6 i e refl
rgb_pixel_size ch sixteen true e i = same_size _ _ 8 i e refl
rgb_pixel_size ch thirty_two false e i = same_size _ _ 12 i e refl
rgb_pixel_size ch thirty_two true e i = same_size _ _ 16 i e refl
rgb_pixel_size ch one alpha e i = cc

cmyk_pixel_size :
    (ch : ℕ → Bytes) (depth : BitDepth) (alpha : Bool) {pixel : ℕ → Bytes}
    → cmyk_pixel ch depth alpha ≡ some pixel
    → (i : ℕ) → length (pixel i) ≡ bytes_per_pixel (descriptor_of cmyk depth alpha)
unfolding cmyk_pixel descriptor_of cmyk_8 cmyk_16
cmyk_pixel_size ch eight false e i = same_size _ _ 3 i e refl
cmyk_pixel_size ch eight true e i = same_size _ _ 4 i e refl
cmyk_pixel_size ch sixteen false e i = same_size _ _ 6 i e refl
cmyk_pixel_size ch sixteen true e i = same_size _ _ 8 i e refl
cmyk_pixel_size ch one alpha e i = cc
cmyk_pixel_size ch thirty_two alpha e i = cc

palette_pixel_size :
    (pal planes : Bytes) (transparent : Option ℕ) (i : ℕ)
    → length (palette_pixel pal (palette_index transparent) planes i)
      ≡ bytes_per_pixel (descriptor_of indexed eight (is_palette_index transparent))
unfolding palette_pixel descriptor_of
palette_pixel_size pal planes none i = refl
palette_pixel_size pal planes (some t) i = elim (Bool-cases (ltb t 256)) [
  | inl e ↦ rw e refl
  | inr e ↦ rw e refl
]

all_pixels_size :
    (mode : ColorMode) (o : Option (ℕ → Bytes)) (n k : ℕ) {out : Bytes}
    → ((pixel : ℕ → Bytes) → o ≡ some pixel → (i : ℕ) → length (pixel i) ≡ k)
    → all_pixels mode n o ≡ ok out
    → length out ≡ n * k
unfolding all_pixels unsupported
all_pixels_size mode none n k each h = cc
all_pixels_size mode (some pixel) n k each h =
    ap length (sym (ok-injective h)) ∙ length-pixels pixel k (each pixel refl) 0 n

indexed_size :
    (planes : Bytes) (metadata : PsdMetadata) (palette : Option Bytes) (n : ℕ) {out : Bytes}
    → indexed_pixels planes metadata palette n ≡ ok out
    → length out
      ≡ n
        * bytes_per_pixel
            (descriptor_of indexed eight (is_palette_index metadata.transparency_index))
unfolding indexed_pixels
indexed_size planes metadata palette n h =
    let (pal, _, k) = >>=-eq-ok (ok_or palette (malformed "missing indexed palette")) _ h in
    ap length (sym (ok-injective k))
    ∙ length-pixels _ _ (palette_pixel_size pal planes metadata.transparency_index) 0 n

-- The alpha that the output has, where it says something about the mode.
unfoldable Agrees : PsdMetadata → ColorMode → Bool → Type 0
Agrees metadata indexed alpha = alpha ≡ is_palette_index metadata.transparency_index
Agrees metadata _ alpha = alpha ≡ alpha

interleave_sized :
    (planes : Bytes) (metadata : PsdMetadata) (palette : Option Bytes)
    (row_bytes plane_bytes w h : ℕ) (mode : ColorMode) (depth : BitDepth) (alpha : Bool)
    {out : Bytes}
    → Agrees metadata mode alpha
    → interleave planes metadata palette row_bytes plane_bytes w h mode depth alpha ≡ ok out
    → length out ≡ w * h * bytes_per_pixel (descriptor_of mode depth alpha)
unfolding interleave unsupported descriptor_of Agrees
interleave_sized planes metadata palette row_bytes plane_bytes w h bitmap one alpha same e =
    ap length (sym (ok-injective e)) ∙ length-bitmap_rows planes row_bytes w 0 h ∙ ground arith
interleave_sized planes metadata palette row_bytes plane_bytes w h bitmap eight alpha same e = cc
interleave_sized planes metadata palette row_bytes plane_bytes w h bitmap sixteen alpha same e = cc
interleave_sized planes metadata palette row_bytes plane_bytes w h bitmap thirty_two alpha same e =
    cc
interleave_sized planes metadata palette row_bytes plane_bytes w h grayscale depth alpha same e =
    all_pixels_size grayscale _ (w * h) _ (λ p chosen. gray_pixel_size _ depth alpha chosen) e
interleave_sized planes metadata palette row_bytes plane_bytes w h duotone depth alpha same e =
    all_pixels_size duotone _ (w * h) _ (λ p chosen. gray_pixel_size _ depth alpha chosen) e
interleave_sized planes metadata palette row_bytes plane_bytes w h indexed eight alpha same e =
    indexed_size planes metadata palette (w * h) e
    ∙ ap (λ (a : Bool). w * h * bytes_per_pixel (descriptor_of indexed eight a)) (sym same)
interleave_sized planes metadata palette row_bytes plane_bytes w h indexed one alpha same e = cc
interleave_sized planes metadata palette row_bytes plane_bytes w h indexed sixteen alpha same e = cc
interleave_sized planes metadata palette row_bytes plane_bytes w h indexed thirty_two alpha same e =
    cc
interleave_sized planes metadata palette row_bytes plane_bytes w h rgb depth alpha same e =
    all_pixels_size rgb _ (w * h) _ (λ p chosen. rgb_pixel_size _ depth alpha chosen) e
interleave_sized planes metadata palette row_bytes plane_bytes w h cmyk depth alpha same e =
    all_pixels_size cmyk _ (w * h) _ (λ p chosen. cmyk_pixel_size _ depth alpha chosen) e
interleave_sized planes metadata palette row_bytes plane_bytes w h multichannel depth alpha same e =
    cc
interleave_sized planes metadata palette row_bytes plane_bytes w h lab depth alpha same e = cc

agreed :
    (metadata : PsdMetadata) (mode : ColorMode) (extra : Bool)
    → Agrees metadata mode (has_alpha_by mode (is_palette_index metadata.transparency_index) extra)
unfolding Agrees
agreed metadata bitmap extra = refl
agreed metadata grayscale extra = refl
agreed metadata indexed extra = refl
agreed metadata rgb extra = refl
agreed metadata cmyk extra = refl
agreed metadata multichannel extra = refl
agreed metadata duotone extra = refl
agreed metadata lab extra = refl

-- Whatever the mode and depth, pixels that are made have exactly the size that the descriptor of the output gives
-- them: width times height times the bytes of a pixel.
pub interleave_size :
    (planes : Bytes) (h : PsdHeader) (metadata : PsdMetadata) (palette : Option Bytes)
    (row_bytes plane_bytes : ℕ) {out : Bytes}
    → interleave planes metadata palette row_bytes plane_bytes h.width h.height h.color_mode h.depth
        (has_alpha h metadata)
      ≡ ok out
    → length out ≡ h.width * h.height * bytes_per_pixel (output_descriptor h metadata)
unfolding has_alpha
interleave_size planes h metadata palette row_bytes plane_bytes e =
    let extra : Bool = ltb (unwrap_or (base_channels h.color_mode) 0) (used_channels h) in
    interleave_sized planes metadata palette row_bytes plane_bytes h.width h.height h.color_mode
      h.depth (has_alpha h metadata) (agreed metadata h.color_mode extra) e

-- Ink is a byte, no lighter than the colour and the black that it is made of; white black leaves the colour as it is.
pub ink_8_bounds :
    (c k : ℕ) → c < 256 → k < 256 → (ink_8 c k ≤ c) × (ink_8 c k ≤ k) × (ink_8 c 255 ≡ c)
unfolding ink_8
ink_8_bounds c k hc hk =
    let by_c : c * k ≤ 255 * c = grind arith in
    let by_k : c * k ≤ 255 * k = grind arith in
    (omega (arith, by_c), omega (arith, by_k), omega arith)

-- The same for sixteen bits.
pub ink_16_bounds :
    (c k : ℕ) → c < 2 ^ 16 → k < 2 ^ 16 → (ink_16 c k ≤ c) × (ink_16 c k ≤ k) × (ink_16 c 65535 ≡ c)
unfolding ink_16
ink_16_bounds c k hc hk =
    let by_c : c * k ≤ 65535 * c = grind arith in
    let by_k : c * k ≤ 65535 * k = grind arith in
    (omega (arith, by_c), omega (arith, by_k), omega arith)
