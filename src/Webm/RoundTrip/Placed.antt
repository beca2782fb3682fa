-- ===== src/Webm/RoundTrip/Placed.antt =====
-- Children with their offsets: where the payload of each element that `put` wrote stands.
use zenextras.Prelude.{ℕ, zero, suc, ◌+◌, ◌-◌, ◌≤◌, ok, List, [], ◌∷◌, ◌++◌, length, All}
use zenextras.Prelude.{length-append, ◌≡◌, refl, ap, ◌∙◌, arith}
use zenextras.Prelude.Bytes.{Bytes}
use zenextras.Webm.Ebml.{Child, put_id, put_size, put}
use zenextras.Webm.Ebml.Elements.{IsElement, put_all, put_all-append, next-put, length-put}
use zenextras.Webm.Demuxer.Heads.{placed_from, placed_children}

abbrev pub head_size : ℕ → Bytes → ℕ
head_size id p = length (put_size (put_id [] id) (length p))

-- The offsets of payloads, for elements that begin at `at`.
abbrev pub places : ℕ → List (ℕ × Bytes) → List (ℕ × Child)
places at [] = []
places at ((id, p) ∷ es) = (at + head_size id p, ok (id, p)) ∷ places (at + length (put [] id p)) es

length-put_eq : (id : ℕ) (p : Bytes) → length (put [] id p) ≡ head_size id p + length p
unfolding put
length-put_eq id p = length-append (put_size (put_id [] id) (length p)) p

-- One element in front of `rest`, in a payload of `len` bytes.
placed_step :
    (fuel len at id : ℕ) (p rest : Bytes)
    → IsElement (id, p)
    → at + (length (put [] id p) + length rest) ≡ len
    → placed_from (suc fuel) len (put [] id p ++ rest)
      ≡ (at + head_size id p, ok (id, p)) ∷ placed_from fuel len rest
placed_step fuel len at id p rest e fits = step (put [] id p ++ rest) refl
  where
    step :
        (b : Bytes)
        → put [] id p ++ rest ≡ b
        → placed_from (suc fuel) len b
          ≡ (at + head_size id p, ok (id, p)) ∷ placed_from fuel len rest
    step [] q =
        absurd (omega (arith, ap length q, length-append (put [] id p) rest, length-put id p e))
    step (x ∷ xs) q =
        let offset : len - length rest - length p ≡ at + head_size id p =
          omega (arith, length-put_eq id p) in
        unfold placed_from in rw (← q, next-put id p rest e, offset)

length-put_all :
    (id : ℕ) (p : Bytes) (es : List (ℕ × Bytes))
    → All IsElement es
    → length (put_all (put [] id p) es) ≡ length (put [] id p) + length (put_all [] es)
length-put_all id p es h =
    ap length (put_all-append es (put [] id p) h) ∙ length-append (put [] id p) (put_all [] es)

placed_from-put_all :
    (es : List (ℕ × Bytes)) (fuel len at : ℕ)
    → All IsElement es
    → length (put_all [] es) ≤ fuel
    → at + length (put_all [] es) ≡ len
    → placed_from fuel len (put_all [] es) ≡ places at es
unfolding put_all
placed_from-put_all [] zero len at h le fits = unfold placed_from in refl
placed_from-put_all [] (suc fuel) len at h le fits = unfold placed_from in refl
placed_from-put_all ((id, p) ∷ es) zero len at h le fits =
    absurd (omega (arith, length-put_all id p es h.1, length-put id p h.0))
placed_from-put_all ((id, p) ∷ es) (suc fuel) len at h le fits =
    let split = length-put_all id p es h.1 in
    ap (placed_from (suc fuel) len) (put_all-append es (put [] id p) h.1)
    ∙ placed_step fuel len at id p (put_all [] es) h.0 (omega (arith, split))
    ∙ ap (◌∷◌ (at + head_size id p, ok (id, p))) (
        placed_from-put_all es fuel len (at + length (put [] id p)) h.1
          (omega (arith, split, length-put id p h.0)) (omega (arith, split)))

-- The children of a payload that was written element by element stand where their headers end.
pub placed_children-put_all :
    (es : List (ℕ × Bytes)) → All IsElement es → placed_children (put_all [] es) ≡ places 0 es
unfolding placed_children
placed_children-put_all es h = placed_from-put_all es _ _ 0 h (omega arith) (omega arith)
