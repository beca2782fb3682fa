-- ===== src/Psd/Layout/Bounds.antt =====
-- Where `parse_layout` finds the sections: one behind the other, and inside the document.
use zenextras.Prelude.{ℕ, ◌+◌, ◌≤◌, ok_or, Bool, length}
use zenextras.Prelude.{◌≡◌, refl, ap, subst, arith, ok}
use zenextras.Prelude.{>>=-eq-ok, ok_or-eq-ok, ok-injective}
use zenextras.Prelude.Bytes.{Bytes, slice}
use zenextras.Psd.Types.{unexpected_eof}
use zenextras.Psd.Types.{ColorMode, Compression, Version}
use zenextras.Psd.Header.{read_u16_be, read_u32_be, parse_file_header}
use zenextras.Psd.Metadata.{ParsedLayout, PsdInfo, PsdMetadata}
use zenextras.Psd.Resources.{parse_image_resources}
use zenextras.Psd.Layout.{
  range, check_color_mode, layer_len_bytes, read_layer_len, section_end, parse_layout,
}
use zenextras.Psd.Layout.{
  color_mode_section, resources_section, layer_section, image_compression, layout,
}
use zenextras.Psd.At.{read_be_within, section_end_sound}

-- Each section's length field and data follow the part before them, up to the pixels.
pub record IsContiguous (n : ℕ) (l : ParsedLayout) : Type 0 where
  pub color_len : l.color_mode_len_range ≡ range 26 30
  pub color_start : l.color_mode_data_range.start ≡ 30
  pub color_end : 30 ≤ l.color_mode_data_range.end
  pub resources_len :
      l.resources_len_range ≡ range l.color_mode_data_range.end (l.color_mode_data_range.end + 4)
  pub resources_start : l.resources_data_range.start ≡ l.resources_len_range.end
  pub resources_end : l.resources_data_range.start ≤ l.resources_data_range.end
  pub layer_len :
      l.layer_mask_len_range
      ≡ range l.resources_data_range.end
          (l.resources_data_range.end + layer_len_bytes l.info.header.version)
  pub layer_start : l.layer_mask_data_range.start ≡ l.layer_mask_len_range.end
  pub layer_end : l.layer_mask_data_range.start ≤ l.layer_mask_data_range.end
  pub compression_at :
      l.compression_range ≡ range l.layer_mask_data_range.end (l.layer_mask_data_range.end + 2)
  pub payload : l.image_data_payload_start ≡ l.compression_range.end
  pub payload_inside : l.image_data_payload_start ≤ n

color_mode_section_sound :
    (xs : Bytes) (mode : ColorMode) {end : ℕ} → color_mode_section xs mode ≡ ok end → 30 ≤ end
unfolding color_mode_section
color_mode_section_sound xs mode h =
    let (len, _, k0) = >>=-eq-ok (ok_or (read_u32_be xs 26) unexpected_eof) _ h in
    let (end, found, k1) = >>=-eq-ok (section_end xs 30 len _) _ k0 in
    let (_, _, k2) = >>=-eq-ok (check_color_mode mode len) _ k1 in
    let (sum, _) = section_end_sound xs 30 len _ found in
    let same : end ≡ _ = ok-injective k2 in omega (arith, same, sum)

resources_section_sound :
    (xs : Bytes) (start : ℕ) {r : ℕ × PsdMetadata}
    → resources_section xs start ≡ ok r
    → start + 4 ≤ r.0
unfolding resources_section
resources_section_sound xs start {r} h =
    let (len, _, k0) = >>=-eq-ok (ok_or (read_u32_be xs start) unexpected_eof) _ h in
    let (end, found, k1) = >>=-eq-ok (section_end xs (start + 4) len _) _ k0 in
    let (meta, _, k2) = >>=-eq-ok (parse_image_resources (slice (start + 4) end xs)) _ k1 in
    let (sum, _) = section_end_sound xs (start + 4) len _ found in
    let same : end ≡ r.0 = ap (λ (t : ℕ × PsdMetadata). t.0) (ok-injective k2) in
    omega (arith, same, sum)

layer_section_sound :
    (xs : Bytes) (version : Version) (start : ℕ) {end : ℕ}
    → layer_section xs version start ≡ ok end
    → start + layer_len_bytes version ≤ end
unfolding layer_section
layer_section_sound xs version start h =
    let (len, _, found) = >>=-eq-ok (read_layer_len version xs start) _ h in
    let (sum, _) = section_end_sound xs (start + layer_len_bytes version) len _ found in
    omega (arith, sum)

image_compression_sound :
    (xs : Bytes) (start : ℕ) {c : Compression}
    → image_compression xs start ≡ ok c
    → start + 2 ≤ length xs
unfolding image_compression
image_compression_sound xs start h =
    let (raw, got, _) = >>=-eq-ok (ok_or (read_u16_be xs start) unexpected_eof) _ h in
    read_be_within 2 xs start (ok_or-eq-ok (read_u16_be xs start) _ got)

layout-IsContiguous :
    (n : ℕ) (info : PsdInfo) (reserved_zero : Bool) (color res layer : ℕ)
    → 30 ≤ color
    → color + 4 ≤ res
    → res + layer_len_bytes info.header.version ≤ layer
    → layer + 2 ≤ n
    → IsContiguous n (layout info reserved_zero color res layer)
layout-IsContiguous n info reserved_zero color res layer c r l p = record {
  color_len = refl;
  color_start = refl;
  color_end = c;
  resources_len = refl;
  resources_start = refl;
  resources_end = r;
  layer_len = refl;
  layer_start = refl;
  layer_end = l;
  compression_at = refl;
  payload = refl;
  payload_inside = p;
}

-- A layout that is accepted has its sections one behind the other from byte 26 on, each inside the document,
-- and the pixel data starts right behind the compression method, at or before the document's end.
pub parse_layout-IsContiguous :
    (xs : Bytes) (l : ParsedLayout) → parse_layout xs ≡ ok l → IsContiguous (length xs) l
unfolding parse_layout
parse_layout-IsContiguous xs l accepted =
    let (h, _, k0) = >>=-eq-ok (parse_file_header xs) _ accepted in
    let (color, at_color, k1) = >>=-eq-ok (color_mode_section xs h.0.color_mode) _ k0 in
    let (r, at_res, k2) = >>=-eq-ok (resources_section xs color) _ k1 in
    let (layer, at_layer, k3) = >>=-eq-ok (layer_section xs h.0.version r.0) _ k2 in
    let (comp, at_comp, k4) = >>=-eq-ok (image_compression xs layer) _ k3 in
    subst (IsContiguous (length xs)) (ok-injective k4) (
      layout-IsContiguous (length xs) _ h.1 color r.0 layer
        (color_mode_section_sound xs h.0.color_mode at_color)
        (resources_section_sound xs color at_res) (layer_section_sound xs h.0.version r.0 at_layer)
        (image_compression_sound xs layer at_comp))
