-- ===== src/Webm/Muxer/Delimiter.antt =====
-- What `without_temporal_delimiter` takes off: a temporal delimiter, if there is one in front.
use zenextras.Prelude.{ℕ, ◌/◌, ◌^◌, ◌≤◌, not, ◌||◌, Bool, true, false, Option, none, some}
use zenextras.Prelude.{
  [], ◌∷◌, ◌++◌, length, length-append, ◌==◌, ==→eq, if◌then◌else◌, bit_and, All,
}
use zenextras.Prelude.{if-elim, append_assoc}
use zenextras.Prelude.{◌≡◌, refl, ap, sym, ◌∙◌, ◌⊎◌, arith, inl, inr}
use zenextras.Prelude.Bytes.{Bytes}
use zenextras.Webm.Muxer.Blocks.{obu_size, empty_obu, after_extension, without_temporal_delimiter}
use zenextras.Webm.Muxer.ObuSizes.{IsMarked, IsLast, obu_size-IsZero, obu_size-zero}

-- A temporal delimiter: the header of an OBU of type 2 with a size field, perhaps an extension byte, and a size field of
-- nine bytes at most that says 0.
pub record IsDelimiter (d : Bytes) : Type 0 where
  pub header : ℕ
  pub extension : Bytes
  pub field : Bytes
  pub last : ℕ
  pub parts : d ≡ header ∷ (extension ++ (field ++ (last ∷ [])))
  pub allowed : (bit_and header 0x80 == 0) ≡ true
  pub of_type : (bit_and (header / 2 ^ 3) 0xf == 2) ≡ true
  pub sized : (bit_and header 0x2 == 0) ≡ false
  pub extended : length extension ≡ (if bit_and header 0x4 == 0 then 0 else 1)
  pub marked : All IsMarked field
  pub closed : IsLast last
  pub short : length field ≤ 8

after_extension-split :
    (x : Bool) (rest : Bytes) {out : ℕ} {behind : Bytes}
    → obu_size (after_extension x rest) 0 0 ≡ some (out, behind)
    → (extension : Bytes) × (rest ≡ extension ++ after_extension x rest)
      × (length extension ≡ (if not x then 0 else 1))
after_extension-split false rest e = ([], refl, refl)
after_extension-split true [] e = unfold obu_size in cc e
after_extension-split true (y ∷ rest) e = (y ∷ [], refl, refl)

after_extension-append :
    (x : Bool) (extension rest : Bytes)
    → length extension ≡ (if x then 0 else 1)
    → after_extension (not x) (extension ++ rest) ≡ rest
after_extension-append true [] rest e = refl
after_extension-append true (y ∷ extension) rest e = absurd (omega arith)
after_extension-append false [] rest e = absurd (omega arith)
after_extension-append false (y ∷ []) rest e = refl
after_extension-append false (y ∷ z ∷ extension) rest e = absurd (omega arith)

not-not : (b : Bool) → not (not b) ≡ b
not-not true = refl
not-not false = refl

three_tests : (a b c : Bool) → (not a || not b || c) ≡ false → (a ≡ true) × (b ≡ true) × (c ≡ false)
three_tests a b c e = ground arith

-- A delimiter is taken off whatever follows it.
without_temporal_delimiter-append :
    (d rest : Bytes) → IsDelimiter d → without_temporal_delimiter (d ++ rest) ≡ rest
unfolding without_temporal_delimiter
without_temporal_delimiter-append d rest h =
    ap (λ (t : Bytes). without_temporal_delimiter (t ++ rest)) h.parts
    ∙ rw
        (
          h.allowed,
          h.of_type,
          h.sized,
          append_assoc h.extension (h.field ++ (h.last ∷ [])) rest,
          append_assoc h.field (h.last ∷ []) rest,
          after_extension-append (bit_and h.header 0x4 == 0) h.extension
              (h.field ++ (h.last ∷ rest)) h.extended,
          obu_size-zero h.field 0 h.last rest h.marked h.closed (omega (arith, h.short)),
        )
        refl

-- What is left of `b`, and what was in front of it.
abbrev Stripped : Bytes → Bytes → Type 0
Stripped b left = (left ≡ b) ⊎ ((d : Bytes) × IsDelimiter d × (b ≡ d ++ left))

module _ (header : ℕ) (rest : Bytes) where
  delimiter :
      (behind : Bytes)
      → (not (bit_and header 0x80 == 0)
          || not (bit_and (header / 2 ^ 3) 0xf == 2)
          || bit_and header 0x2 == 0)
        ≡ false
      → obu_size (after_extension (not (bit_and header 0x4 == 0)) rest) 0 0 ≡ some (0, behind)
      → (d : Bytes) × IsDelimiter d × (header ∷ rest ≡ d ++ behind)
  delimiter behind tests e =
      let (allowed, of_type, sized) =
        three_tests (bit_and header 0x80 == 0) (bit_and (header / 2 ^ 3) 0xf == 2)
          (bit_and header 0x2 == 0) tests in
      let x = not (bit_and header 0x4 == 0) in
      let (extension, split, long) = after_extension-split x rest e in
      let (_, z) = obu_size-IsZero (after_extension x rest) 0 0 (omega arith) e in
      (
        header ∷ (extension ++ (z.field ++ (z.last ∷ []))),
        record {
          header = header;
          extension = extension;
          field = z.field;
          last = z.last;
          parts = refl;
          allowed = allowed;
          of_type = of_type;
          sized = sized;
          extended =
              long ∙ ap (λ (t : Bool). if t then 0 else 1) (not-not (bit_and header 0x4 == 0));
          marked = z.marked;
          closed = z.closed;
          short = omega (arith, z.short);
        },
        ap (◌∷◌ header) (
            split
            ∙ ap (◌++◌ extension) (z.split ∙ sym (append_assoc z.field (z.last ∷ []) behind))
            ∙ sym (append_assoc extension (z.field ++ (z.last ∷ [])) behind)),
      )

  Stripped-size :
      (o : Option (ℕ × Bytes))
      → ((behind : Bytes)
          → o ≡ some (0, behind)
          → (d : Bytes) × IsDelimiter d × (header ∷ rest ≡ d ++ behind))
      → Stripped (header ∷ rest) (empty_obu (header ∷ rest) o)
  Stripped-size none h = inl refl
  Stripped-size (some (out, behind)) h =
      if-elim (Stripped (header ∷ rest)) (out == 0)
        (λ z. inr (h behind (ap (λ (n : ℕ). some (n, behind)) (==→eq out 0 z)))) (λ _. inl refl)

without_temporal_delimiter-Stripped : (b : Bytes) → Stripped b (without_temporal_delimiter b)
unfolding without_temporal_delimiter
without_temporal_delimiter-Stripped [] = inl refl
without_temporal_delimiter-Stripped (header ∷ rest) =
    if-elim (Stripped (header ∷ rest))
      (not (bit_and header 0x80 == 0)
        || not (bit_and (header / 2 ^ 3) 0xf == 2)
        || bit_and header 0x2 == 0)
      (λ _. inl refl)
      (λ tests.
        Stripped-size header rest
          (obu_size (after_extension (not (bit_and header 0x4 == 0)) rest) 0 0)
          (λ behind e. delimiter header rest behind tests e))

-- `left` is what a leading delimiter leaves of `b`, or is `b` where there is none in front.
abbrev pub IsWithoutDelimiter : Bytes → Bytes → Type 0
IsWithoutDelimiter b left =
    ((d : Bytes) × IsDelimiter d × (b ≡ d ++ left))
    ⊎ ((left ≡ b) × ¬ ((d : Bytes) × ((rest : Bytes) × IsDelimiter d × (b ≡ d ++ rest))))

-- A payload with a temporal delimiter in front, an OBU of type 2 with a size field that says 0, loses exactly that
-- delimiter, whatever follows; a payload without one is left as it is.
pub without_temporal_delimiter-IsWithoutDelimiter :
    (b : Bytes) → IsWithoutDelimiter b (without_temporal_delimiter b)
without_temporal_delimiter-IsWithoutDelimiter b = elim (without_temporal_delimiter-Stripped b) [
  | inr stripped ↦ inl stripped
  | inl same ↦ inr (
    same,
    λ (d, (rest, h, split)).
        let taken : without_temporal_delimiter b ≡ rest =
          ap without_temporal_delimiter split ∙ without_temporal_delimiter-append d rest h in
        omega (
          arith,
          ap length (sym same ∙ taken),
          ap length split,
          length-append d rest,
          ap length h.parts,
        ),
  )
]

pub length-without_temporal_delimiter :
    (b : Bytes) → length (without_temporal_delimiter b) ≤ length b
length-without_temporal_delimiter b = elim (without_temporal_delimiter-Stripped b) [
  | inl same ↦ omega (arith, ap length same)
  | inr (d, _, split) ↦
      omega (arith, ap length split, length-append d (without_temporal_delimiter b))
]
