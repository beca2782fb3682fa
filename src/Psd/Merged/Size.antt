-- ===== src/Psd/Merged/Size.antt =====
-- What `decode_merged_image` takes of a document, and the size of the planes at every compression.
use zenextras.Prelude.{ℕ, zero, suc, ◌+◌, ◌*◌, ◌≤◌, Bool, true, [], ◌∷◌, length}
use zenextras.Prelude.{
  take, drop, All-drop, length-append, length-take, length-drop, ltb, ltb→le, Bool-cases, inl, inr,
}
use zenextras.Prelude.{◌≡◌, refl, sym, ap, ◌∙◌, arith, ok_or, Result, ok, >>=-eq-ok, refuse-eq-ok}
use zenextras.Prelude.{ok_or-eq-ok, ok-injective, subst, some, ◌==◌, &&-true, none, unwrap_or, ◌&&◌}
use zenextras.Prelude.{if-elim, Option, ltb→lt}
use native.Mathlib.Nat.{mul-le-mul_left}
use zenextras.Prelude.Bytes.{Bytes, IsByte, AllBytes}
use zenextras.Psd.Types.{PsdError, checked_mul, scanline_bytes, used_channels, PsdHeader}
use zenextras.Psd.Types.{
  BitDepth, one, eight, sixteen, thirty_two, Compression, raw, rle, zip, zip_prediction,
}
use zenextras.Psd.Prediction.{
  running, undo_bytes, running_words, undo_words, gather, undo_floats, per_row,
}
use zenextras.Psd.Prediction.{apply_zip_prediction}
use zenextras.Psd.Types.{base_channels, takes_alpha}
use zenextras.Psd.Header.Valid.{IsValid}
use zenextras.Psd.Metadata.{ParsedLayout}
use zenextras.Psd.Output.{PixelDescriptor}
use zenextras.Psd.Interleave.{interleave_planes}
use zenextras.Psd.Merged.{check_stop, palette_of, decode_merged_image}
use zenextras.Psd.Alloc.{AllocPref, alloc_zeroed}
use zenextras.Psd.Merged.{Inflater, Planes, decompress_zip_planes, undo_planes, is_one, decompress}
use zenextras.Psd.Merged.Lines.{IsTaken, checked_mul_sound, raw_planes-IsTaken, rle_planes-IsTaken}
use zenextras.Psd.Merged.Inflate.{IsInflater, zip_loop-Filled}

length-running : (xs : Bytes) (prev : ℕ) → length (running prev xs) ≡ length xs
unfolding running
length-running [] prev = refl
length-running (x ∷ xs) prev = ap suc (length-running xs _)

length-undo_bytes : (xs : Bytes) → length (undo_bytes xs) ≡ length xs
unfolding undo_bytes
length-undo_bytes [] = refl
length-undo_bytes (x ∷ xs) = ap suc (length-running xs x)

length-running_words : (xs : Bytes) (prev : ℕ) → length (running_words prev xs) ≡ length xs
unfolding running_words
length-running_words [] prev = refl
length-running_words (a ∷ []) prev = refl
length-running_words (a ∷ b ∷ xs) prev = ap (λ (n : ℕ). suc (suc n)) (length-running_words xs _)

length-undo_words : (width : ℕ) (xs : Bytes) → length (undo_words width xs) ≡ length xs
unfolding undo_words
length-undo_words width [] = refl
length-undo_words width (a ∷ []) = refl
length-undo_words width (a ∷ b ∷ xs) = elim (Bool-cases (ltb width 2)) [
  | inl e ↦ rw e refl
  | inr e ↦ rw e (ap (λ (n : ℕ). suc (suc n)) (length-running_words xs _))
]

length-gather : (xs : Bytes) (width x n : ℕ) → length (gather xs width x n) ≡ n * 4
unfolding gather
length-gather xs width x zero = refl
length-gather xs width x (suc n) = omega (arith, length-gather xs width (x + 1) n)

-- A plane of whole rows keeps its size, when its rows do.
length-per_row :
    (f : Bytes → Bytes) (row_bytes height : ℕ) (plane : Bytes)
    → ((row : Bytes) → length row ≡ row_bytes → length (f row) ≡ row_bytes)
    → length plane ≡ row_bytes * height
    → length (per_row f row_bytes height plane) ≡ row_bytes * height
unfolding per_row
length-per_row f row_bytes zero plane kept e = e
length-per_row f row_bytes (suc height) plane kept e =
    let split : row_bytes * suc height ≡ row_bytes + row_bytes * height = ground arith in
    let row = kept (take row_bytes plane) (length-take row_bytes plane ∙ omega arith) in
    let rest =
      length-per_row f row_bytes height (drop row_bytes plane) kept
        (length-drop row_bytes plane ∙ omega arith) in
    omega (
      arith,
      length-append (f (take row_bytes plane)) (per_row f row_bytes height (drop row_bytes plane)),
      row,
      rest,
      split,
    )

length-apply_zip_prediction :
    (depth : BitDepth) (width height row_bytes : ℕ) (plane : Bytes)
    → scanline_bytes depth width ≡ some row_bytes
    → length plane ≡ row_bytes * height
    → length (apply_zip_prediction plane width height row_bytes depth) ≡ row_bytes * height
unfolding apply_zip_prediction scanline_bytes undo_floats
length-apply_zip_prediction one width height row_bytes plane s e = e
length-apply_zip_prediction eight width height row_bytes plane s e =
    length-per_row undo_bytes row_bytes height plane (λ row h. length-undo_bytes row ∙ h) e
length-apply_zip_prediction sixteen width height row_bytes plane s e =
    length-per_row (undo_words width) row_bytes height plane
      (λ row h. length-undo_words width row ∙ h) e
length-apply_zip_prediction thirty_two width height row_bytes plane s e =
    length-per_row (undo_floats width) row_bytes height plane
      (λ row h. length-gather (undo_bytes row) width 0 width ∙ checked_mul_sound width 4 s) e

length-undo_planes :
    (depth : BitDepth) (width height row_bytes plane_bytes count : ℕ) (planes : Bytes)
    → scanline_bytes depth width ≡ some row_bytes
    → plane_bytes ≡ row_bytes * height
    → length planes ≡ plane_bytes * count
    → length (undo_planes width height row_bytes plane_bytes depth count planes)
      ≡ plane_bytes * count
unfolding undo_planes
length-undo_planes depth width height row_bytes plane_bytes zero planes s p e = e
length-undo_planes depth width height row_bytes plane_bytes (suc count) planes s p e =
    let split : plane_bytes * suc count ≡ plane_bytes + plane_bytes * count = ground arith in
    let first =
      length-apply_zip_prediction depth width height row_bytes (take plane_bytes planes) s
        (length-take plane_bytes planes ∙ omega arith) in
    let rest =
      length-undo_planes depth width height row_bytes plane_bytes count (drop plane_bytes planes) s
        p (length-drop plane_bytes planes ∙ omega arith) in
    omega (
      arith,
      length-append (apply_zip_prediction (take plane_bytes planes) width height row_bytes depth)
          (undo_planes width height row_bytes plane_bytes depth count (drop plane_bytes planes)),
      first,
      rest,
      split,
    )

module _ (z : Inflater) (reserve stop : ℕ → Bool) (pref : AllocPref) where
  zip_planes-IsTaken :
      (payload : Bytes) (plane_bytes size used channels n : ℕ)
      → IsInflater z
      → size ≡ plane_bytes * used
      → used ≤ channels
      → IsTaken payload size
          (decompress_zip_planes z reserve stop pref payload plane_bytes used channels n)
  unfolding decompress_zip_planes
  zip_planes-IsTaken payload plane_bytes size used channels n law e few p h =
      let (_, k0) = refuse-eq-ok (length payload == 0) _ _ h in
      let (used_total, used_of, k1) = >>=-eq-ok (ok_or (checked_mul plane_bytes used) _) _ k0 in
      let (all_total, all_of, k2) = >>=-eq-ok (ok_or (checked_mul plane_bytes channels) _) _ k1 in
      let (zeroed, _, k3) = >>=-eq-ok (alloc_zeroed reserve pref true used_total) _ k2 in
      let used_same = checked_mul_sound plane_bytes used (ok_or-eq-ok _ _ used_of) in
      let all_same = checked_mul_sound plane_bytes channels (ok_or-eq-ok _ _ all_of) in
      let less : plane_bytes * used ≤ plane_bytes * channels = mul-le-mul_left plane_bytes few in
      let (inside, filled) =
        zip_loop-Filled z stop payload plane_bytes used_total all_total law
          (omega (arith, less, used_same, all_same)) _ z.fresh n 0 0 []
          (record { inside = omega arith; bounded = omega arith; filled = omega arith }) p k3 in
      (inside, omega (arith, filled, used_same, e))

  -- A payload that is decompressed gives planes of exactly the size that the used channels of the header take, and
  -- what was taken lies in the payload: at every compression, for bytes and an inflater that behaves as documented.
  pub decompress_taken :
      (c : Compression) (h : PsdHeader) (payload : Bytes) (row_bytes plane_bytes size n : ℕ)
      → IsInflater z
      → AllBytes payload
      → used_channels h ≤ h.channels
      → scanline_bytes h.depth h.width ≡ some row_bytes
      → plane_bytes ≡ row_bytes * h.height
      → size ≡ plane_bytes * used_channels h
      → (p : Planes)
      → decompress z reserve stop pref c h payload row_bytes plane_bytes size n ≡ ok p
      → (p.consumed ≤ length payload) × (length p.planes ≡ size)
  unfolding decompress
  decompress_taken raw h payload row_bytes plane_bytes size n law all few s p e r k =
      raw_planes-IsTaken reserve stop pref payload plane_bytes size h.channels (used_channels h) n e
        few r k
  decompress_taken rle h payload row_bytes plane_bytes size n law all few s p e r k =
      rle_planes-IsTaken reserve stop pref payload h.version row_bytes size h.height
        (used_channels h) h.channels n all (e ∙ ap (λ (t : ℕ). t * used_channels h) p) r k
  decompress_taken zip h payload row_bytes plane_bytes size n law all few s p e r k =
      let (_, k1) = refuse-eq-ok (is_one h.depth) _ _ k in
      zip_planes-IsTaken payload plane_bytes size (used_channels h) h.channels n law e few r k1
  decompress_taken zip_prediction h payload row_bytes plane_bytes size n law all few s p e r k =
      let (_, k1) = refuse-eq-ok (is_one h.depth) _ _ k in
      let (q, got, k2) =
        >>=-eq-ok
          (decompress_zip_planes z reserve stop pref payload plane_bytes (used_channels h)
            h.channels n)
          _ k1 in
      let (inside, filled) =
        zip_planes-IsTaken payload plane_bytes size (used_channels h) h.channels n law e few q
          got in
      let kept =
        length-undo_planes h.depth h.width h.height row_bytes plane_bytes (used_channels h) q.planes
          s p (filled ∙ e) in
      subst (λ (t : Planes). (t.consumed ≤ length payload) × (length t.planes ≡ size))
        (ok-injective k2) (inside, kept ∙ sym e)

  used_channels_few : (h : PsdHeader) → IsValid h → used_channels h ≤ h.channels
  unfolding used_channels
  used_channels_few h v =
      let base = unwrap_or (base_channels h.color_mode) h.channels in
      let within : base ≤ h.channels = base_few h v (base_channels h.color_mode) refl in
      if-elim (λ (t : ℕ). t ≤ h.channels) (takes_alpha h.color_mode && ltb base h.channels)
        (λ e. omega (arith, ltb→lt base h.channels (&&-true (takes_alpha h.color_mode) _ e).1))
        (λ e. within)
    where
      base_few :
          (h : PsdHeader)
          → IsValid h
          → (o : Option ℕ) → base_channels h.color_mode ≡ o
          → unwrap_or o h.channels ≤ h.channels
      base_few h v none e = omega arith
      base_few h v (some b) e = rw (← ap (λ (t : Option ℕ). unwrap_or t 1) e) v.enough_channels

  -- An image that is decoded from a document of bytes and a layout with a valid header, by an inflater that behaves as
  -- documented, ends behind the start of its data and inside the document.
  pub decode_merged_image_end {ℓ} :
      {B : Type ℓ} (make : Bytes → ℕ → ℕ → PixelDescriptor → Result PsdError B) (xs : Bytes)
      (layout : ParsedLayout) (n : ℕ) {b : B} {end : ℕ}
      → IsInflater z
      → AllBytes xs
      → IsValid layout.info.header
      → decode_merged_image z reserve stop pref make xs layout n ≡ ok (b, end)
      → (layout.image_data_payload_start ≤ end) × (end ≤ length xs)
  unfolding decode_merged_image
  decode_merged_image_end {B = B} make xs layout n law all valid h0 =
      let h = layout.info.header in
      let start = layout.image_data_payload_start in
      let (row_bytes, row_of, k0) = >>=-eq-ok (ok_or (scanline_bytes h.depth h.width) _) _ h0 in
      let (plane_bytes, plane_of, k1) = >>=-eq-ok (ok_or (checked_mul row_bytes h.height) _) _ k0 in
      let (size, size_of, k2) =
        >>=-eq-ok (ok_or (checked_mul plane_bytes (used_channels h)) _) _ k1 in
      let (within, k3) = refuse-eq-ok (ltb (length xs) start) _ _ k2 in
      let (p, took, k4) =
        >>=-eq-ok
          (decompress z reserve stop pref layout.info.compression h (drop start xs) row_bytes
            plane_bytes size n)
          _ k3 in
      let (n', _, k5) = >>=-eq-ok (check_stop stop p.checks) _ k4 in
      let (buffer, _, k6) =
        >>=-eq-ok
          (interleave_planes make reserve p.planes h layout.info.metadata (palette_of xs layout)
            row_bytes plane_bytes pref)
          _ k5 in
      let (inside, _) =
        decompress_taken layout.info.compression h (drop start xs) row_bytes plane_bytes size n law
          (All-drop IsByte start xs all) (used_channels_few h valid) (ok_or-eq-ok _ _ row_of)
          (sym (checked_mul_sound row_bytes h.height (ok_or-eq-ok _ _ plane_of)))
          (sym (checked_mul_sound plane_bytes (used_channels h) (ok_or-eq-ok _ _ size_of))) p
          took in
      let same = ap (λ (t : B × ℕ). t.1) (ok-injective k6) in
      let started = ltb→le (length xs) start within in
      (omega (arith, same), omega (arith, same, inside, length-drop start xs, started))
