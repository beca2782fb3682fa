-- ===== src/Webm/Ebml/Streaming.antt =====
-- Reading from a stream: an answer does not change when more bytes arrive, and how many are needed.
use zenextras.Prelude.{ℕ, suc, ◌+◌, ◌-◌, ◌≤◌, ◌<◌, Bool, true, false, none, some, ok, err}
use zenextras.Prelude.{[], ◌∷◌, ◌++◌, length, drop, length-append, take-append_left}
use zenextras.Prelude.{drop-append_left, length-drop, ◌≡◌, refl, ap, arith, Option, Result}
use zenextras.Prelude.{◌>>=◌, ◌⊎◌, inl, inr, zero}
use zenextras.Prelude.Bytes.{Bytes}
use zenextras.Webm.Ebml.{Header, leading_zeros, vint, header, of_fields, max_header_len}
use zenextras.Webm.Error.{WebmError}

leading_zeros-le : (w x : ℕ) → leading_zeros w x ≤ w
unfolding leading_zeros
leading_zeros-le zero x = omega arith
leading_zeros-le (suc w) x = ground (arith, leading_zeros-le w x)

-- A field takes at least one byte, at most what is allowed, and no more than there are.
pub vint_bounds :
    (b : Bytes) (max_len : ℕ) (keep : Bool) (v len : ℕ)
    → vint b max_len keep ≡ ok (some (v, len))
    → (1 ≤ len) × (len ≤ max_len) × (len ≤ length b)
unfolding vint
vint_bounds [] max_len keep v len e = cc
vint_bounds (first ∷ rest) max_len keep v len e = ground arith

-- A field that is read, or refused, is so whatever bytes follow.
pub vint-append_some :
    (b more : Bytes) (max_len : ℕ) (keep : Bool) (r : ℕ × ℕ)
    → vint b max_len keep ≡ ok (some r)
    → vint (b ++ more) max_len keep ≡ ok (some r)
unfolding vint
vint-append_some [] more max_len keep r e = cc
vint-append_some (first ∷ rest) more max_len keep r e =
    ground
      (arith, take-append_left (leading_zeros 8 first + 1 - 1) rest more, length-append rest more)

pub vint-append_err :
    (b more : Bytes) (max_len : ℕ) (keep : Bool) (x : WebmError)
    → vint b max_len keep ≡ err x
    → vint (b ++ more) max_len keep ≡ err x
unfolding vint
vint-append_err [] more max_len keep x e = cc
vint-append_err (first ∷ rest) more max_len keep x e = ground arith

-- Only a field that is cut short asks for more.
pub vint_short :
    (b : Bytes) (max_len : ℕ) (keep : Bool)
    → vint b max_len keep ≡ ok none
    → (length b ≡ 0) ⊎ (length b < max_len)
unfolding vint
vint_short [] max_len keep e = inl refl
vint_short (first ∷ rest) max_len keep e = inr (ground arith)

-- The two fields behind a header that was read.
record Fields (b : Bytes) (h : Header) : Type 0 where
  id : ℕ × ℕ
  size : ℕ × ℕ
  id_read : vint b 4 true ≡ ok (some id)
  size_read : vint (drop id.1 b) 8 false ≡ ok (some size)
  made : of_fields id size ≡ h

header-Fields : (b : Bytes) (h : Header) → header b ≡ ok (some h) → Fields b h
unfolding header
header-Fields b h e = id_field (vint b 4 true) refl e
  where
    size_field :
        (f : ℕ × ℕ) (s : Result WebmError (Option (ℕ × ℕ)))
        → vint b 4 true ≡ ok (some f)
        → vint (drop f.1 b) 8 false ≡ s
        → (s >>= λ t. elim t [ none ↦ ok none | some u ↦ ok (some (of_fields f u)) ]) ≡ ok (some h)
        → Fields b h
    size_field f (err x) p q e = cc
    size_field f (ok none) p q e = cc
    size_field f (ok (some s)) p q e = record {
      id = f;
      size = s;
      id_read = p;
      size_read = q;
      made = cc;
    }

    id_field :
        (r : Result WebmError (Option (ℕ × ℕ)))
        → vint b 4 true ≡ r
        → (r >>= λ t. elim t [
          | none ↦ ok none
          | some f ↦ vint (drop f.1 b) 8 false >>= λ u. elim u [
            | none ↦ ok none
            | some s ↦ ok (some (of_fields f s))
          ]
        ])
          ≡ ok (some h)
        → Fields b h
    id_field (err x) p e = cc
    id_field (ok none) p e = cc
    id_field (ok (some f)) p e = size_field f (vint (drop f.1 b) 8 false) p refl e

-- A header that was read is the same whatever bytes follow, takes from 2 to 12 bytes, and lies in the
-- bytes that were read.
pub header-append :
    (b more : Bytes) (h : Header)
    → header b ≡ ok (some h)
    → (header (b ++ more) ≡ ok (some h))
      × (2 ≤ h.len)
      × (h.len ≤ max_header_len)
      × (h.len ≤ length b)
unfolding header
header-append b more h e =
    let f = header-Fields b h e in
    let (id_lo, id_hi, id_in) = vint_bounds b 4 true f.id.0 f.id.1 f.id_read in
    let (lo, hi, inside) = vint_bounds (drop f.id.1 b) 8 false f.size.0 f.size.1 f.size_read in
    let sum : f.id.1 + f.size.1 ≡ h.len = ap (λ (t : Header). t.len) f.made in
    let again : header (b ++ more) ≡ ok (some h) =
      rw
        (
          header,
          vint-append_some b more 4 true f.id f.id_read,
          drop-append_left f.id.1 b more id_in,
          vint-append_some (drop f.id.1 b) more 8 false f.size f.size_read,
        )
        (ap (λ (t : Header). ok (some t)) f.made) in
    (again, omega arith, omega arith, omega (arith, length-drop f.id.1 b))

-- `header` asks for more only on fewer bytes than the longest header, so the request that the demuxer
-- makes for `max_header_len` bytes is always enough.
pub header_short : (b : Bytes) → header b ≡ ok none → length b < max_header_len
unfolding header
header_short b e = id_field (vint b 4 true) refl e
  where
    size_field :
        (f : ℕ × ℕ) (s : Result WebmError (Option (ℕ × ℕ)))
        → vint b 4 true ≡ ok (some f)
        → vint (drop f.1 b) 8 false ≡ s
        → (s >>= λ t. elim t [ none ↦ ok none | some u ↦ ok (some (of_fields f u)) ]) ≡ ok none
        → length b < max_header_len
    size_field f (err x) p q e = cc
    size_field f (ok (some s)) p q e = cc
    size_field f (ok none) p q e =
        let (lo, hi, inside) = vint_bounds b 4 true f.0 f.1 p in
        omega (arith, vint_short (drop f.1 b) 8 false q, length-drop f.1 b)

    id_field :
        (r : Result WebmError (Option (ℕ × ℕ)))
        → vint b 4 true ≡ r
        → (r >>= λ t. elim t [
          | none ↦ ok none
          | some f ↦ vint (drop f.1 b) 8 false >>= λ u. elim u [
            | none ↦ ok none
            | some s ↦ ok (some (of_fields f s))
          ]
        ])
          ≡ ok none
        → length b < max_header_len
    id_field (err x) p e = cc
    id_field (ok none) p e = omega (arith, vint_short b 4 true p)
    id_field (ok (some f)) p e = size_field f (vint (drop f.1 b) 8 false) p refl e
