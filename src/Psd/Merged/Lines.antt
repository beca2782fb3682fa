-- ===== src/Psd/Merged/Lines.antt =====
-- The planes that raw and run-length coded data give: their size, and what they take of the payload.
use zenextras.Prelude.{ℕ, zero, suc, ◌+◌, ◌*◌, ◌%◌, ◌≤◌, Bool, true, length}
use zenextras.Prelude.{
  length-append, length-take, ltb, ltb→le, ◌==◌, ok_or, ◌≡◌, sym, ap, ◌∙◌, arith,
}
use zenextras.Prelude.{Result, ok, >>=-eq-ok, refuse-eq-ok, ok_or-eq-ok, ok-injective, subst}
use zenextras.Prelude.{some, if_some-eq-some, if◌then◌else◌}
use native.Mathlib.Nat.{mul-le-mul_left}
use zenextras.Prelude.Bytes.{Bytes, AllBytes, slice, AllBytes-slice}
use zenextras.Psd.Types.{PsdError, checked_mul, Version}
use zenextras.Psd.PackBits.{decode_packbits_row}
use zenextras.Psd.PackBits.Decode.{decode_packbits_row_sound}
use zenextras.Psd.Alloc.{AllocPref, alloc_zeroed}
use zenextras.Psd.Merged.{
  Planes, raw_planes, count_size, line_len, total_compressed, rle_lines, rle_planes,
}
use zenextras.Psd.Merged.{check_stop}

-- Planes of `size` bytes, made of a part of the payload.
abbrev pub IsTaken : Bytes → ℕ → Result PsdError Planes → Type 0
IsTaken payload size r =
    (p : Planes) → r ≡ ok p → (p.consumed ≤ length payload) × (length p.planes ≡ size)

pub checked_mul_sound : (a b : ℕ) {c : ℕ} → checked_mul a b ≡ some c → a * b ≡ c
checked_mul_sound a b h = (if_some-eq-some (ltb (a * b) _) (a * b) h).1

module _ (reserve stop : ℕ → Bool) (pref : AllocPref) (payload : Bytes) where
  pub raw_planes-IsTaken :
      (plane_bytes size channels used n : ℕ)
      → size ≡ plane_bytes * used
      → used ≤ channels
      → IsTaken payload size (raw_planes reserve pref payload plane_bytes size channels n)
  unfolding raw_planes
  raw_planes-IsTaken plane_bytes size channels used n e few p h =
      let (total, product, k0) = >>=-eq-ok (ok_or (checked_mul plane_bytes channels) _) _ h in
      let (enough, k1) = refuse-eq-ok (ltb (length payload) total) _ _ k0 in
      let (buf, _, k2) = >>=-eq-ok (alloc_zeroed reserve pref true size) _ k1 in
      let total_of = checked_mul_sound plane_bytes channels (ok_or-eq-ok _ _ product) in
      let less : plane_bytes * used ≤ plane_bytes * channels = mul-le-mul_left plane_bytes few in
      let within = ltb→le (length payload) total enough in
      let same = ok-injective k2 in
      subst (λ (q : Planes). (q.consumed ≤ length payload) × (length q.planes ≡ size)) same
        (within, length-take size payload ∙ omega (arith, e, less, total_of, within))

  length-rle_lines :
      (version : Version) (row_bytes line src_pos n count : ℕ) {r : Bytes × ℕ}
      → AllBytes payload
      → rle_lines stop version payload row_bytes line src_pos n count ≡ ok r
      → length r.0 ≡ count * row_bytes
  unfolding rle_lines
  length-rle_lines version row_bytes line src_pos n zero all h =
      ap (λ (t : Bytes × ℕ). length t.0) (sym (ok-injective h)) ∙ omega arith
  length-rle_lines version row_bytes line src_pos n (suc count) all h =
      let (n', _, k0) = >>=-eq-ok (if line % 64 == 0 then check_stop stop n else ok n) _ h in
      let size = line_len version payload line in
      let src = slice src_pos (src_pos + size) payload in
      let (row, decoded, k1) = >>=-eq-ok (decode_packbits_row src row_bytes) _ k0 in
      let (rest, got, k2) =
        >>=-eq-ok (rle_lines stop version payload row_bytes (line + 1) (src_pos + size) n' count) _
          k1 in
      let is_row =
        decode_packbits_row_sound src row_bytes row (AllBytes-slice _ _ payload all) decoded in
      let tail : length rest.0 ≡ count * row_bytes =
        length-rle_lines version row_bytes (line + 1) (src_pos + size) n' count all got in
      ap (λ (t : Bytes × ℕ). length t.0) (sym (ok-injective k2))
      ∙ length-append row rest.0
      ∙ rw (is_row.full, tail) (ground arith)

  pub rle_planes-IsTaken :
      (version : Version) (row_bytes size height used channels n : ℕ)
      → AllBytes payload
      → size ≡ row_bytes * height * used
      → IsTaken payload size
          (rle_planes reserve stop pref payload version row_bytes size height used channels n)
  unfolding rle_planes
  rle_planes-IsTaken version row_bytes size height used channels n all e p h =
      let (lines, _, k0) = >>=-eq-ok (ok_or (checked_mul channels height) _) _ h in
      let (table, _, k1) = >>=-eq-ok (ok_or (checked_mul lines (count_size version)) _) _ k0 in
      let (_, k2) = refuse-eq-ok (ltb (length payload) table) _ _ k1 in
      let (total, _, k3) = >>=-eq-ok (total_compressed version payload 0 lines table) _ k2 in
      let (enough, k4) = refuse-eq-ok (ltb (length payload) total) _ _ k3 in
      let (buf, _, k5) = >>=-eq-ok (alloc_zeroed reserve pref true size) _ k4 in
      let (rows, got, k6) =
        >>=-eq-ok (rle_lines stop version payload row_bytes 0 table n (used * height)) _ k5 in
      let within = ltb→le (length payload) total enough in
      let made : length rows.0 ≡ used * height * row_bytes =
        length-rle_lines version row_bytes 0 table n (used * height) all got in
      subst (λ (q : Planes). (q.consumed ≤ length payload) × (length q.planes ≡ size))
        (ok-injective k6) (within, made ∙ turned row_bytes height used ∙ sym e)
    where
      turned : (r h u : ℕ) → u * h * r ≡ r * h * u
      turned r h u = ground arith
