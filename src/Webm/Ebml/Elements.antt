-- ===== src/Webm/Ebml/Elements.antt =====
-- Whole elements: `children` returns what `put` wrote, in order.
use zenextras.Prelude.{ℕ, zero, suc, ◌+◌, ◌^◌, ◌≤◌, ◌<◌, some, length, drop}
use zenextras.Prelude.{List, [], ◌∷◌, ◌++◌, map, append_assoc, append-nil, length-append, All}
use zenextras.Prelude.{drop-append, lt→ltb, le→leb, ok}
use zenextras.Prelude.{◌≡◌, refl, ap, sym, ◌∙◌, arith}
use zenextras.Prelude.Bytes.{Bytes, slice-append}
use zenextras.Webm.Ebml.{cut, next, children_from, children}
use zenextras.Webm.Ebml.{put_id, put_size, put}
use zenextras.Webm.Ebml.Fields.{IsId, IsSize, header_len, header_written, length-put_size}
use zenextras.Webm.Ebml.Fields.{put_size-SizeField, put_id_field}

-- An element that `put` can write: a valid ID and a payload whose size a field can hold.
pub record IsElement (e : ℕ × Bytes) : Type 0 where
  pub valid : IsId e.0
  pub fits : IsSize (length e.1)

put-append :
    (out : Bytes) (id : ℕ) (p : Bytes) → IsElement (id, p) → put out id p ≡ out ++ put [] id p
unfolding put
put-append out id p e =
    let f = put_size-SizeField (length p) e.fits in
    rw
      (
        f.written (put_id out id),
        f.written (put_id [] id),
        put_id_field out id e.valid,
        put_id_field [] id e.valid,
      )
      (simp append_assoc)

-- A payload that is all there is cut off behind its header.
cut_whole :
    (id : ℕ) (head p rest : Bytes)
    → length p + length head < 2 ^ 64
    → cut (head ++ (p ++ rest)) (record { id = id; size = some (length p); len = length head })
      ≡ (ok (id, p), rest)
unfolding cut
cut_whole id head p rest room =
    let end = length p + length head in
    let total : end ≤ length (head ++ (p ++ rest)) =
      omega (arith, length-append head (p ++ rest), length-append p rest) in
    let left : drop end (head ++ (p ++ rest)) ≡ rest =
      ap (drop end) (sym (append_assoc head p rest))
      ∙ drop-append (head ++ p) rest end (omega (arith, length-append head p)) in
    rw
      (
        lt→ltb end (2 ^ 64) room,
        le→leb end (length (head ++ (p ++ rest))) total,
        slice-append head p rest (length head) end refl (omega arith),
        left,
      )
      refl

put_split :
    (id : ℕ) (p rest : Bytes)
    → put [] id p ++ rest ≡ put_size (put_id [] id) (length p) ++ (p ++ rest)
unfolding put
put_split id p rest = append_assoc (put_size (put_id [] id) (length p)) p rest

next_split :
    (id : ℕ) (p rest : Bytes)
    → IsElement (id, p)
    → next (put_size (put_id [] id) (length p) ++ (p ++ rest)) ≡ (ok (id, p), rest)
unfolding next
next_split id p rest e =
    let head = put_size (put_id [] id) (length p) in
    let long : length head ≡ header_len e.valid (length p) e.fits =
      length-put_size [] id e.valid (length p) e.fits ∙ omega arith in
    let f = put_size-SizeField (length p) e.fits in
    let room : length p + length head < 2 ^ 64 =
      omega (arith, long, e.fits, e.valid.narrow, f.narrow) in
    rw (next, header_written id e.valid (length p) e.fits (p ++ rest), ← long)
      (cut_whole id head p rest room)

-- The element in front of `rest` is taken whole.
pub next-put :
    (id : ℕ) (p rest : Bytes) → IsElement (id, p) → next (put [] id p ++ rest) ≡ (ok (id, p), rest)
next-put id p rest e = ap next (put_split id p rest) ∙ next_split id p rest e

-- `put` for each element in turn.
unfoldable pub put_all : Bytes → List (ℕ × Bytes) → Bytes
put_all out [] = out
put_all out ((id, p) ∷ es) = put_all (put out id p) es

-- One list of elements behind another.
pub put_all-put_all :
    (es fs : List (ℕ × Bytes)) (out : Bytes) → put_all out (es ++ fs) ≡ put_all (put_all out es) fs
unfolding put_all
put_all-put_all [] fs out = refl
put_all-put_all ((id, p) ∷ es) fs out = put_all-put_all es fs (put out id p)

pub put_all-append :
    (es : List (ℕ × Bytes)) (out : Bytes) → All IsElement es → put_all out es ≡ out ++ put_all [] es
unfolding put_all
put_all-append [] out h = sym (append-nil out)
put_all-append ((id, p) ∷ es) out h =
    put_all-append es (put out id p) h.1
    ∙ rw (put-append out id p h.0, append_assoc out (put [] id p) (put_all [] es))
        (ap (◌++◌ out) (sym (put_all-append es (put [] id p) h.1)))

pub length-put : (id : ℕ) (p : Bytes) → IsElement (id, p) → length p < length (put [] id p)
unfolding put
length-put id p e = omega (
  arith,
  length-append (put_size (put_id [] id) (length p)) p,
  length-put_size [] id e.valid (length p) e.fits,
)

children_from_step :
    (fuel id : ℕ) (p rest : Bytes)
    → IsElement (id, p)
    → children_from (suc fuel) (put [] id p ++ rest) ≡ ok (id, p) ∷ children_from fuel rest
children_from_step fuel id p rest e = step (put [] id p ++ rest) refl
  where
    step :
        (b : Bytes)
        → put [] id p ++ rest ≡ b
        → children_from (suc fuel) b ≡ ok (id, p) ∷ children_from fuel rest
    step [] q =
        absurd (omega (arith, ap length q, length-append (put [] id p) rest, length-put id p e))
    step (x ∷ xs) q = unfold children_from in rw (← q, next-put id p rest e)

children_from-put_all :
    (es : List (ℕ × Bytes)) (fuel : ℕ)
    → All IsElement es
    → length (put_all [] es) ≤ fuel
    → children_from fuel (put_all [] es) ≡ map ok es
unfolding put_all
children_from-put_all [] zero h le = unfold children_from in refl
children_from-put_all [] (suc fuel) h le = unfold children_from in refl
children_from-put_all ((id, p) ∷ es) zero h le = absurd (
    omega (
      arith,
      ap length (put_all-append es (put [] id p) h.1),
      length-append (put [] id p) (put_all [] es),
      length-put id p h.0,
    ))
children_from-put_all ((id, p) ∷ es) (suc fuel) h le =
    let shorter : length (put_all [] es) ≤ fuel = omega (
      arith,
      ap length (put_all-append es (put [] id p) h.1),
      length-append (put [] id p) (put_all [] es),
      length-put id p h.0,
    ) in
    ap (children_from (suc fuel)) (put_all-append es (put [] id p) h.1)
    ∙ children_from_step fuel id p (put_all [] es) h.0
    ∙ ap (◌∷◌ (ok (id, p))) (children_from-put_all es fuel h.1 shorter)

-- Reading the children of a payload that was written element by element gives the elements back, in
-- order and with no error, if each ID is a valid one and each payload is shorter than 2 ^ 56 - 1.
pub children-put_all :
    (es : List (ℕ × Bytes)) → All IsElement es → children (put_all [] es) ≡ map ok es
unfolding children
children-put_all es h = children_from-put_all es _ h (omega arith)
