-- ===== src/Webm/Muxer/ObuSizes.antt =====
-- The size field of an OBU that says 0: what `obu_size` reads as such a field.
use native.Mathlib.Nat.{one-le-pow}
use zenextras.Prelude.{ℕ, suc, ◌+◌, ◌*◌, ◌^◌, ◌≤◌, true, false, Option, some}
use zenextras.Prelude.{[], ◌∷◌, ◌++◌, length, ltb, ◌==◌, bit_and, bit_or, All}
use zenextras.Prelude.{if-true, if-false, if_none-eq-some}
use zenextras.Prelude.{◌≡◌, refl, ap, sym, ◌∙◌, arith, Bool-cases, inl, inr}
use zenextras.Prelude.Bytes.{Bytes}
use zenextras.Prelude.Bits.{bit_or-zero, bit_or-zeros}
use zenextras.Webm.Muxer.Blocks.{obu_size}

-- The bytes of a size field that says 0 have no bit of a size; all but the last are marked as followed by another.
abbrev pub IsMarked : ℕ → Type 0
IsMarked byte = ((bit_and byte 0x80 == 0) ≡ false) × (bit_and byte 0x7f ≡ 0)

abbrev pub IsLast : ℕ → Type 0
IsLast byte = ((bit_and byte 0x80 == 0) ≡ true) × (bit_and byte 0x7f ≡ 0)

-- What a byte of the field joins to what was read before.
abbrev joined : ℕ → ℕ → ℕ → ℕ
joined size byte k = bit_or size (bit_and byte 0x7f * 2 ^ (7 * k))

joined-zero : (size byte k : ℕ) → joined size byte k ≡ 0 → (size ≡ 0) × (bit_and byte 0x7f ≡ 0)
joined-zero size byte k e =
    let (none_before, scaled) = bit_or-zero size (bit_and byte 0x7f * 2 ^ (7 * k)) e in
    (none_before, grind (arith, scaled, one-le-pow (7 * k) 2))

joined-zeros : (byte k : ℕ) → bit_and byte 0x7f ≡ 0 → joined 0 byte k ≡ 0
joined-zeros byte k e =
    let nothing : 0 * 2 ^ (7 * k) ≡ 0 = omega arith in
    ap (λ (v : ℕ). bit_or 0 (v * 2 ^ (7 * k))) e ∙ ap (bit_or 0) nothing ∙ bit_or-zeros

next_shift : (k : ℕ) → 7 * k + 7 ≡ 7 * suc k
next_shift k = omega arith

-- A size field that reads as 0, `k` bytes behind its start.
pub record IsZero (b rest : Bytes) (k : ℕ) : Type 0 where
  pub field : Bytes
  pub last : ℕ
  pub split : b ≡ field ++ (last ∷ rest)
  pub marked : All IsMarked field
  pub closed : IsLast last
  pub short : length field + k ≤ 8

pub obu_size-IsZero :
    (b : Bytes) (k size : ℕ) {rest : Bytes}
    → k ≤ 8
    → obu_size b (7 * k) size ≡ some (0, rest)
    → (size ≡ 0) × IsZero b rest k
unfolding obu_size
obu_size-IsZero [] k size small e = cc
obu_size-IsZero (byte ∷ b) k size {rest} small e = elim (Bool-cases (bit_and byte 0x80 == 0)) [
  | inl last ↦
      let (all_read, same) = ends (if-true (bit_and byte 0x80 == 0) _ _ last e) in
      let (before, own) = joined-zero size byte k all_read in
      (
        before,
        record {
          field = [];
          last = byte;
          split = ap (◌∷◌ byte) same;
          marked = tt;
          closed = (last, own);
          short = omega arith;
        },
      )
  | inr marked ↦
      let (near, more) =
        if_none-eq-some (ltb 56 (7 * k + 7)) (if-false (bit_and byte 0x80 == 0) _ _ marked e) in
      let (all_read, z) =
        obu_size-IsZero b (suc k) (joined size byte k) (ground (arith, near))
          (ap (λ (t : ℕ). obu_size b t (joined size byte k)) (sym (next_shift k)) ∙ more) in
      let (before, own) = joined-zero size byte k all_read in
      (
        before,
        record {
          field = byte ∷ z.field;
          last = z.last;
          split = ap (◌∷◌ byte) z.split;
          marked = ((marked, own), z.marked);
          closed = z.closed;
          short = omega (arith, z.short);
        },
      )
]
  where
    ends :
        {x : ℕ} {r r' : Bytes}
        → ◌≡◌ {A = Option (ℕ × Bytes)} (some (x, r)) (some (0, r'))
        → (x ≡ 0) × (r ≡ r')
    ends h = (cc, cc)

-- And the other way.
pub obu_size-zero :
    (field : Bytes) (k last : ℕ) (rest : Bytes)
    → All IsMarked field
    → IsLast last
    → length field + k ≤ 8
    → obu_size (field ++ (last ∷ rest)) (7 * k) 0 ≡ some (0, rest)
unfolding obu_size
obu_size-zero [] k last rest marked closed short = rw (closed.0, joined-zeros last k closed.1) refl
obu_size-zero (byte ∷ field) k last rest marked closed short =
    let near : ltb 56 (7 * k + 7) ≡ false = ground (arith, short) in
    rw (marked.0.0, near, joined-zeros byte k marked.0.1, next_shift k)
      (obu_size-zero field (suc k) last rest marked.1 closed (omega (arith, short)))
