-- ===== src/Psd/Header/Valid.antt =====
-- The checks of `parse_file_header` let through exactly the valid headers.
use zenextras.Prelude.{ℕ, ◌≤◌, true, false, ok, some, unwrap_or, ◌≡◌, arith}
use zenextras.Psd.Types.{PsdHeader, code, bits, mode_code, max_dimension, max_channels}
use zenextras.Psd.Types.{
  version_from_u16, depth_from_u16, mode_from_u16, supports_depth, base_channels,
}
use zenextras.Prelude.{
  ltb→le, subst, refl, ok-injective, ltb, ◌==◌, ◌||◌, >>=-eq-ok, refuse-eq-ok, ok_or-eq-ok, ok_or,
}
use zenextras.Psd.Types.{Version, BitDepth, ColorMode}
use zenextras.Psd.Header.{check_fields, check_depth}

-- What the specification of the format and the decoder ask of a header.
pub record IsValid (h : PsdHeader) : Type 0 where
  pub some_channels : 1 ≤ h.channels
  pub few_channels : h.channels ≤ max_channels
  pub wide : 1 ≤ h.width
  pub high : 1 ≤ h.height
  pub width_fits : h.width ≤ max_dimension h.version
  pub height_fits : h.height ≤ max_dimension h.version
  pub decodable : supports_depth h.color_mode h.depth ≡ true
  pub enough_channels : unwrap_or (base_channels h.color_mode) 1 ≤ h.channels

pub check_fields-valid :
    (h : PsdHeader)
    → IsValid h
    → check_fields
        (code h.version)
        h.channels
        h.height
        h.width
        (bits h.depth)
        (mode_code h.color_mode)
      ≡ ok h
unfolding check_fields version_from_u16 depth_from_u16 mode_from_u16
check_fields-valid h v = ground arith

pub record Checked (v c h w d m : ℕ) (r : PsdHeader) : Type 0 where
  pub valid : IsValid r
  pub version : code r.version ≡ v
  pub channels : r.channels ≡ c
  pub height : r.height ≡ h
  pub width : r.width ≡ w
  pub depth : bits r.depth ≡ d
  pub mode : mode_code r.color_mode ≡ m

version_sound : (v : ℕ) (x : Version) → version_from_u16 v ≡ some x → code x ≡ v
unfolding version_from_u16
version_sound v x e = ground arith

depth_sound : (v : ℕ) (x : BitDepth) → depth_from_u16 v ≡ some x → bits x ≡ v
unfolding depth_from_u16
depth_sound v x e = ground arith

mode_sound : (v : ℕ) (x : ColorMode) → mode_from_u16 v ≡ some x → mode_code x ≡ v
unfolding mode_from_u16
mode_sound v x e = ground arith

check_depth_sound :
    (mode : ColorMode) (depth : BitDepth) (d m : ℕ) {u : Unit {0}}
    → check_depth mode depth d m ≡ ok u
    → supports_depth mode depth ≡ true
check_depth_sound mode depth d m e = ground arith

range_sound :
    (version : Version) (c h w : ℕ)
    → (c == 0
        || ltb max_channels c
        || w == 0
        || h == 0
        || ltb (max_dimension version) w
        || ltb (max_dimension version) h)
      ≡ false
    → (1 ≤ c)
      × (c ≤ max_channels)
      × (1 ≤ w)
      × (1 ≤ h)
      × (w ≤ max_dimension version)
      × (h ≤ max_dimension version)
range_sound version c h w e = ground arith

pub check_fields_sound :
    (v c h w d m : ℕ) (r : PsdHeader) → check_fields v c h w d m ≡ ok r → Checked v c h w d m r
unfolding check_fields
check_fields_sound v c h w d m r e =
    let (version, version_read, e1) = >>=-eq-ok (ok_or (version_from_u16 v) _) _ e in
    let (in_range, e2) = refuse-eq-ok _ _ _ e1 in
    let (depth, depth_read, e3) = >>=-eq-ok (ok_or (depth_from_u16 d) _) _ e2 in
    let (mode, mode_read, e4) = >>=-eq-ok (ok_or (mode_from_u16 m) _) _ e3 in
    let (unit, supported, e5) = >>=-eq-ok (check_depth mode depth d m) _ e4 in
    let (enough, made) = refuse-eq-ok _ _ _ e5 in
    let decodable = check_depth_sound mode depth d m supported in
    let version_code = version_sound v version (ok_or-eq-ok _ _ version_read) in
    let depth_bits = depth_sound d depth (ok_or-eq-ok _ _ depth_read) in
    let mode_value = mode_sound m mode (ok_or-eq-ok _ _ mode_read) in
    let bounds = range_sound version c h w in_range in
    subst (Checked v c h w d m) (ok-injective made) (record {
      valid = record {
        some_channels = bounds.0;
        few_channels = bounds.1;
        wide = bounds.2;
        high = bounds.3;
        width_fits = bounds.4;
        height_fits = bounds.5;
        decodable = decodable;
        enough_channels = ltb→le c _ enough;
      };
      version = version_code;
      channels = refl;
      height = refl;
      width = refl;
      depth = depth_bits;
      mode = mode_value;
    })
