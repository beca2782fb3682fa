-- ===== src/Psd/Header/Read.antt =====
-- `parse_file_header` against the layout of the 26 bytes that the specification gives.
use zenextras.Prelude.{ℕ, ◌+◌, ◌*◌, ◌/◌, ◌%◌, ◌^◌, ◌≤◌, ◌<◌, Bool, true, some, ok}
use zenextras.Prelude.{
  [], ◌∷◌, ◌++◌, length, ◌>>=◌, >>=-eq-ok, ◌≡◌, refl, ap, sym, ◌∙◌, arith, subst, ltb,
}
use zenextras.Prelude.{Bool-cases, inl, inr, ltb→le, le→ltb, le→leb, ok-injective}
use zenextras.Prelude.Bytes.{Bytes, AllBytes, to_be_bytes, slice, be_bytes, slice-append-drop}
use zenextras.Prelude.Bytes.{to_be_bytes-be_bytes, length-slice, AllBytes-slice}
use zenextras.Prelude.{append_assoc, drop, ◌-◌}
use zenextras.Psd.Types.{PsdHeader, code, bits, mode_code, Version, psd, psb, max_dimension}
use zenextras.Psd.Header.{check_fields, parse_file_header, bytes_eq, read_be, signature}
use zenextras.Psd.Header.Valid.{IsValid, check_fields-valid, check_fields_sound, Checked}

-- The six reserved bytes.
abbrev pub reserved : ℕ → ℕ → ℕ → ℕ → ℕ → ℕ → Bytes
reserved r0 r1 r2 r3 r4 r5 = r0 ∷ r1 ∷ r2 ∷ r3 ∷ r4 ∷ r5 ∷ []

-- Six numbers in the places of a header's fields.
abbrev laid_out : Bytes → ℕ → ℕ → ℕ → ℕ → ℕ → ℕ → Bytes
laid_out gap v c h w d m =
    signature
    ++ (to_be_bytes 2 v
        ++ (gap
            ++ (to_be_bytes 2 c
                ++ (to_be_bytes 4 h ++ (to_be_bytes 4 w ++ (to_be_bytes 2 d ++ to_be_bytes 2 m))))))

-- The header as the specification of the format lays it out.
abbrev pub file_header : PsdHeader → Bytes → Bytes
file_header h gap =
    laid_out gap (code h.version) h.channels h.height h.width (bits h.depth)
      (mode_code h.color_mode)

abbrev pub zeros : Bytes → Bool
zeros gap = bytes_eq gap (reserved 0 0 0 0 0 0)

-- A read inside the slice has a value.
pub read_within :
    (n : ℕ) (xs : Bytes) (start : ℕ)
    → start + n ≤ length xs
    → read_be n xs start ≡ some (be_bytes (slice start (start + n) xs))
unfolding read_be
read_within n xs start h =
    rw (read_be, le→leb start (start + n) (omega arith), le→leb (start + n) (length xs) h)

-- Twenty-six bytes with the signature: only the checks on the fields are left.
parse_long :
    (xs : Bytes)
    → 26 ≤ length xs
    → bytes_eq (slice 0 4 xs) signature ≡ true
    → parse_file_header xs ≡ (
        check_fields
          (be_bytes (slice 4 6 xs))
          (be_bytes (slice 12 14 xs))
          (be_bytes (slice 14 18 xs))
          (be_bytes (slice 18 22 xs))
          (be_bytes (slice 22 24 xs))
          (be_bytes (slice 24 26 xs))
        >>= λ t. ok (t, zeros (slice 6 12 xs)))
unfolding parse_file_header
parse_long xs long sig =
    rw
      (
        le→ltb (length xs) 4 (omega arith),
        sig,
        le→ltb (length xs) 26 long,
        read_within 2 xs 4 (omega arith),
        read_within 2 xs 12 (omega arith),
        read_within 4 xs 14 (omega arith),
        read_within 4 xs 18 (omega arith),
        read_within 2 xs 22 (omega arith),
        read_within 2 xs 24 long,
      )
      refl

parse_laid_out :
    (r0 r1 r2 r3 r4 r5 v c h w d m : ℕ) (rest : Bytes)
    → v < 2 ^ 16
    → c < 2 ^ 16
    → h < 2 ^ 32
    → w < 2 ^ 32
    → d < 2 ^ 16
    → m < 2 ^ 16
    → parse_file_header (laid_out (reserved r0 r1 r2 r3 r4 r5) v c h w d m ++ rest)
      ≡ (check_fields v c h w d m >>= λ t. ok (t, zeros (reserved r0 r1 r2 r3 r4 r5)))
parse_laid_out r0 r1 r2 r3 r4 r5 v c h w d m rest hv hc hh hw hd hm =
    let two : (x : ℕ) → x < 2 ^ 16 → x % 256 + 256 * (x / 256 % 256 + 0) ≡ x = λ x k. omega arith in
    let four : (x : ℕ)
        → x < 2 ^ 32
        → x % 256
            + 256
              * (x / 256 % 256
                  + 256 * (x / 256 / 256 % 256 + 256 * (x / 256 / 256 / 256 % 256 + 0)))
          ≡ x =
      λ x k. omega arith in
    parse_long (laid_out (reserved r0 r1 r2 r3 r4 r5) v c h w d m ++ rest) (omega arith) refl
    ∙ rw (two v hv, two c hc, four h hh, four w hw, two d hd, two m hm) refl

max_dimension_lt : (v : Version) → max_dimension v < 2 ^ 32
max_dimension_lt psd = omega arith
max_dimension_lt psb = omega arith

codes_lt :
    (h : PsdHeader)
    → (code h.version < 2 ^ 16) × (bits h.depth < 2 ^ 16) × (mode_code h.color_mode < 2 ^ 16)
codes_lt h = ground arith

-- A valid header that is written down by the layout of the specification, with any reserved bytes and
-- whatever follows, is read back; the flag says whether the reserved bytes are all zero.
pub parse_file_header-file_header :
    (h : PsdHeader) (r0 r1 r2 r3 r4 r5 : ℕ) (rest : Bytes)
    → IsValid h
    → parse_file_header (file_header h (reserved r0 r1 r2 r3 r4 r5) ++ rest)
      ≡ ok (h, zeros (reserved r0 r1 r2 r3 r4 r5))
parse_file_header-file_header h r0 r1 r2 r3 r4 r5 rest v =
    let (version_lt, depth_lt, mode_lt) = codes_lt h in
    let limit = max_dimension_lt h.version in
    parse_laid_out r0 r1 r2 r3 r4 r5 (code h.version) h.channels h.height h.width (bits h.depth)
      (mode_code h.color_mode) rest version_lt (omega (arith, v.few_channels))
      (omega (arith, v.height_fits)) (omega (arith, v.width_fits)) depth_lt mode_lt
    ∙ rw (check_fields-valid h v) refl

-- What an accepted file is: the bytes of a valid header, and a rest.
pub record HeaderAt (xs : Bytes) (h : PsdHeader) (zero_flag : Bool) : Type 0 where
  pub valid : IsValid h
  pub gap : Bytes
  pub rest : Bytes
  pub bytes : xs ≡ file_header h gap ++ rest
  pub gap_len : length gap ≡ 6
  pub flag : zero_flag ≡ zeros gap

pub accepted_long :
    (xs : Bytes) {r : PsdHeader × Bool}
    → parse_file_header xs ≡ ok r
    → (26 ≤ length xs) × (bytes_eq (slice 0 4 xs) signature ≡ true)
unfolding parse_file_header
accepted_long xs e = elim (Bool-cases (ltb (length xs) 4)) [
  | inl short ↦ cc (rw short at e)
  | inr four ↦ elim (Bool-cases (bytes_eq (slice 0 4 xs) signature)) [
    | inr wrong ↦ cc (rw (four, wrong) at e)
    | inl sig ↦ elim (Bool-cases (ltb (length xs) 26)) [
      | inl cut ↦ cc (rw (four, sig, cut) at e)
      | inr long ↦ (ltb→le (length xs) 26 long, sig)
    ]
  ]
]

bytes_eq→eq : (xs ys : Bytes) → bytes_eq xs ys ≡ true → xs ≡ ys
bytes_eq→eq [] [] e = refl
bytes_eq→eq (x ∷ xs) (y ∷ ys) e = ground (arith, bytes_eq→eq xs ys)
bytes_eq→eq _ _ e = cc

laid_out-append :
    (gap : Bytes) (v c h w d m : ℕ) (rest : Bytes)
    → laid_out gap v c h w d m ++ rest
      ≡ signature
        ++ (to_be_bytes 2 v
            ++ (gap
                ++ (to_be_bytes 2 c
                    ++ (to_be_bytes 4 h
                        ++ (to_be_bytes 4 w ++ (to_be_bytes 2 d ++ (to_be_bytes 2 m ++ rest)))))))
laid_out-append gap v c h w d m rest = simp append_assoc

-- Every accepted file is its own fields, laid out.
cut_fields :
    (xs : Bytes)
    → xs
      ≡ slice 0 4 xs
        ++ (slice 4 6 xs
            ++ (slice 6 12 xs
                ++ (slice 12 14 xs
                    ++ (slice 14 18 xs
                        ++ (slice 18 22 xs
                            ++ (slice 22 24 xs ++ (slice 24 26 xs ++ drop 26 xs)))))))
cut_fields xs =
    rw
      (
        slice-append-drop 24 26 xs (omega arith),
        slice-append-drop 22 24 xs (omega arith),
        slice-append-drop 18 22 xs (omega arith),
        slice-append-drop 14 18 xs (omega arith),
        slice-append-drop 12 14 xs (omega arith),
        slice-append-drop 6 12 xs (omega arith),
        slice-append-drop 4 6 xs (omega arith),
        slice-append-drop 0 4 xs (omega arith),
      )
      refl

field_bytes :
    (lo hi n v : ℕ) (xs : Bytes)
    → AllBytes xs
    → lo ≤ hi
    → hi ≤ length xs
    → hi - lo ≡ n
    → v ≡ be_bytes (slice lo hi xs)
    → slice lo hi xs ≡ to_be_bytes n v
field_bytes lo hi n v xs all le inside e read = sym (
    ap (to_be_bytes n) read
    ∙ to_be_bytes-be_bytes (slice lo hi xs) n (length-slice lo hi xs le inside ∙ e)
        (AllBytes-slice lo hi xs all))

Checked-bytes :
    (xs : Bytes) (h : PsdHeader)
    → AllBytes xs
    → 26 ≤ length xs
    → slice 0 4 xs ≡ signature
    → Checked
        (be_bytes (slice 4 6 xs))
        (be_bytes (slice 12 14 xs))
        (be_bytes (slice 14 18 xs))
        (be_bytes (slice 18 22 xs))
        (be_bytes (slice 22 24 xs))
        (be_bytes (slice 24 26 xs))
        h
    → xs ≡ file_header h (slice 6 12 xs) ++ drop 26 xs
Checked-bytes xs h all long sig c =
    let within : (k : ℕ) → k ≤ 26 → k ≤ length xs = λ k le. omega arith in
    cut_fields xs
    ∙ rw
        (
          sig,
          field_bytes 4 6 2 _ xs all (omega arith) (within 6 (omega arith)) refl c.version,
          field_bytes 12 14 2 _ xs all (omega arith) (within 14 (omega arith)) refl c.channels,
          field_bytes 14 18 4 _ xs all (omega arith) (within 18 (omega arith)) refl c.height,
          field_bytes 18 22 4 _ xs all (omega arith) (within 22 (omega arith)) refl c.width,
          field_bytes 22 24 2 _ xs all (omega arith) (within 24 (omega arith)) refl c.depth,
          field_bytes 24 26 2 _ xs all (omega arith) (within 26 (omega arith)) refl c.mode,
        )
        (sym (
          laid_out-append (slice 6 12 xs) (code h.version) h.channels h.height h.width
            (bits h.depth) (mode_code h.color_mode) (drop 26 xs)))

-- An accepted file begins with the bytes of the header that is returned, and that header is valid.
pub parse_file_header_sound :
    (xs : Bytes) (h : PsdHeader) (flag : Bool)
    → AllBytes xs
    → parse_file_header xs ≡ ok (h, flag)
    → HeaderAt xs h flag
parse_file_header_sound xs h flag all e =
    let (long, sig) = accepted_long xs e in
    let (r, checked, made) = >>=-eq-ok _ _ (rw (parse_long xs long sig) at e) in
    let c = check_fields_sound _ _ _ _ _ _ r checked in
    let pair = ok-injective made in
    subst (λ t. HeaderAt xs t flag) (ap (λ (t : PsdHeader × Bool). t.0) pair)
      (record {
        valid = c.valid;
        gap = slice 6 12 xs;
        rest = drop 26 xs;
        bytes = Checked-bytes xs r all long (bytes_eq→eq (slice 0 4 xs) signature sig) c;
        gap_len = length-slice 6 12 xs (omega arith) (omega arith);
        flag = sym (ap (λ (t : PsdHeader × Bool). t.1) pair);
      })
