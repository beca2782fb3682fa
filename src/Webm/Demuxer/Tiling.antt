-- ===== src/Webm/Demuxer/Tiling.antt =====
-- The frames of a lace lie side by side and fill the block to its end.
use zenextras.Prelude.{
  ℕ, zero, suc, ◌+◌, ◌-◌, ◌/◌, ◌%◌, ◌^◌, ◌≤◌, Bool, true, false, Option, none, some,
}
use zenextras.Prelude.{
  get_or, List, [], ◌∷◌, ◌++◌, length, length-append, length-replicate, length-drop, drop,
}
use zenextras.Prelude.{
  ltb, leb, ◌==◌, if◌then◌else◌, Result, ok, err, ok_or, >>=-eq-ok, ok_or-eq-ok, if_some-eq-some,
}
use zenextras.Prelude.{
  subst, ◌≡◌, refl, ap, ◌∙◌, inl, inr, arith, Bool-cases, leb→le, if-true, if-false, ok-injective,
}
use zenextras.Prelude.Bytes.{Bytes}
use zenextras.Prelude.Int.{ℤ, pos, ◌+ℤ◌, ◌-ℤ◌}
use zenextras.Webm.Types.{SessionError, codec}
use zenextras.Webm.Error.{bad_block}
use zenextras.Webm.Ebml.{vint}
use zenextras.Webm.Demuxer.Tracks.{of_codec}
use zenextras.Webm.Demuxer.Lacing.{
  xiph_size, xiph_sizes, fixed_sizes, ebml_differences, ebml_sizes, lace_sizes, Sizes,
}
use zenextras.Webm.Demuxer.Lacing.{
  total_size, checked_sub, place, place_frames, laced, unlace, to_usize, bias,
}

-- Frames that begin at `at`, follow one another, and end at `end`.
abbrev pub Tiles : ℕ → ℕ → List (ℕ × ℕ) → Type 0
Tiles at end [] = at ≡ end
Tiles at end ((start, len) ∷ frames) = (start ≡ at) × Tiles (at + len) end frames

-- `n` sizes were read, and what is left is no longer than what there was.
record IsRead (n : ℕ) (rest : Bytes) (s : Sizes) : Type 0 where
  count : length s.0 ≡ n
  left : length s.1 ≤ length rest

xiph_size_left :
    (b : Bytes) (size : ℕ) {r : ℕ × Bytes} → xiph_size b size ≡ some r → length r.1 ≤ length b
unfolding xiph_size
xiph_size_left [] size e = cc
xiph_size_left (x ∷ b) size {r} e = elim (Bool-cases (x == 255)) [
  | inl more ↦ omega (arith, xiph_size_left b (size + x) (if-true (x == 255) _ _ more e))
  | inr last ↦ omega (arith, the_rest (if-false (x == 255) _ _ last e))
]
  where
    the_rest : ◌≡◌ {A = Option (ℕ × Bytes)} (some (size + x, b)) (some r) → length r.1 ≡ length b
    the_rest h = cc

-- One size in front of the others.
cons-IsRead :
    {n : ℕ} {rest before : Bytes} (size : ℕ) (others s : Sizes)
    → length before ≤ length rest
    → IsRead n before others
    → ◌≡◌ {A = Result SessionError Sizes} (ok (size ∷ others.0, others.1)) (ok s)
    → IsRead (suc n) rest s
cons-IsRead {n = n} {rest = rest} size others s shorter h e =
    subst (λ (t : Sizes). IsRead (suc n) rest t) (ok-injective e)
      (record { count = ap suc h.count; left = omega (arith, h.left) })

xiph_sizes-IsRead : (n : ℕ) (rest : Bytes) {s : Sizes} → xiph_sizes n rest ≡ ok s → IsRead n rest s
unfolding xiph_sizes
xiph_sizes-IsRead zero rest {s} e =
    subst (λ (t : Sizes). IsRead 0 rest t) (ok-injective e)
      (record { count = refl; left = omega arith })
xiph_sizes-IsRead (suc n) rest {s} e =
    let (first, e1, e2) = >>=-eq-ok (ok_or (xiph_size rest 0) (codec bad_block)) _ e in
    let (others, e3, e4) = >>=-eq-ok (xiph_sizes n first.1) _ e2 in
    cons-IsRead first.0 others s (xiph_size_left rest 0 (ok_or-eq-ok _ _ e1))
      (xiph_sizes-IsRead n first.1 e3) e4

fixed_sizes-IsRead :
    (n : ℕ) (rest : Bytes) {s : Sizes} → fixed_sizes n rest ≡ ok s → IsRead n rest s
unfolding fixed_sizes
fixed_sizes-IsRead n rest {s} e = elim (Bool-cases (length rest % (n + 1) == 0)) [
  | inl even ↦
      subst (λ (t : Sizes). IsRead n rest t)
        (ok-injective (if-true (length rest % (n + 1) == 0) _ _ even e))
        (record { count = length-replicate n (length rest / (n + 1)); left = omega arith })
  | inr odd ↦ absurd_err (if-false (length rest % (n + 1) == 0) _ _ odd e)
]
  where
    absurd_err :
        ◌≡◌ {A = Result SessionError Sizes} (err (codec bad_block)) (ok s) → IsRead n rest s
    absurd_err h = cc

ebml_differences-IsRead :
    (n : ℕ) (size : ℤ) (rest : Bytes) {s : Sizes}
    → ebml_differences n size rest ≡ ok s
    → IsRead n rest s
unfolding ebml_differences
ebml_differences-IsRead zero size rest {s} e =
    subst (λ (t : Sizes). IsRead 0 rest t) (ok-injective e)
      (record { count = refl; left = omega arith })
ebml_differences-IsRead (suc n) size rest {s} e =
    let (field, e1, e2) = >>=-eq-ok (of_codec (vint rest 8 false)) _ e in
    let (v, e3, e4) = >>=-eq-ok (ok_or field (codec bad_block)) _ e2 in
    let next = size +ℤ (pos v.0 -ℤ pos (bias v.1)) in
    let (len, e5, e6) = >>=-eq-ok (to_usize next) _ e4 in
    let (others, e7, e8) = >>=-eq-ok (ebml_differences n next (drop v.1 rest)) _ e6 in
    cons-IsRead len others s (omega (arith, length-drop v.1 rest))
      (ebml_differences-IsRead n next (drop v.1 rest) e7) e8

ebml_sizes-IsRead : (n : ℕ) (rest : Bytes) {s : Sizes} → ebml_sizes n rest ≡ ok s → IsRead n rest s
unfolding ebml_sizes
ebml_sizes-IsRead zero rest {s} e =
    subst (λ (t : Sizes). IsRead 0 rest t) (ok-injective e)
      (record { count = refl; left = omega arith })
ebml_sizes-IsRead (suc n) rest {s} e =
    let (field, e1, e2) = >>=-eq-ok (of_codec (vint rest 8 false)) _ e in
    let (v, e3, e4) = >>=-eq-ok (ok_or field (codec bad_block)) _ e2 in
    let (others, e5, e6) = >>=-eq-ok (ebml_differences n (pos v.0) (drop v.1 rest)) _ e4 in
    cons-IsRead v.0 others s (omega (arith, length-drop v.1 rest))
      (ebml_differences-IsRead n (pos v.0) (drop v.1 rest) e5) e6

lace_sizes-IsRead :
    (lacing n : ℕ) (rest : Bytes) {s : Sizes} → lace_sizes lacing n rest ≡ ok s → IsRead n rest s
unfolding lace_sizes
lace_sizes-IsRead lacing n rest e = elim (Bool-cases (lacing == 1)) [
  | inl x ↦ xiph_sizes-IsRead n rest (if-true (lacing == 1) _ _ x e)
  | inr other ↦
      let e' = if-false (lacing == 1) _ _ other e in
      elim (Bool-cases (lacing == 2)) [
        | inl f ↦ fixed_sizes-IsRead n rest (if-true (lacing == 2) _ _ f e')
        | inr g ↦ ebml_sizes-IsRead n rest (if-false (lacing == 2) _ _ g e')
      ]
]

abbrev sum : List ℕ → ℕ
sum [] = 0
sum (s ∷ sizes) = s + sum sizes

total_size-sum :
    (sizes : List ℕ) (used : ℕ) {out : ℕ}
    → total_size used sizes ≡ some out
    → out ≡ used + sum sizes
unfolding total_size
total_size-sum [] used {out} e = omega (arith, same e)
  where
    same : ◌≡◌ {A = Option ℕ} (some used) (some out) → used ≡ out
    same h = cc
total_size-sum (s ∷ sizes) used e =
    omega (arith, total_size-sum sizes (used + s) (if_some-then (ltb (used + s) (2 ^ 64)) e))
  where
    if_some-then :
        (b : Bool) {o : Option ℕ} {out : ℕ} → (if b then o else none) ≡ some out → o ≡ some out
    if_some-then true h = h
    if_some-then false h = cc

place-Tiles :
    (sizes : List ℕ) (last at end : ℕ)
    → at + (sum sizes + last) ≡ end
    → Tiles at end (place at (sizes ++ (last ∷ [])))
unfolding place
place-Tiles [] last at end e = (refl, omega arith)
place-Tiles (s ∷ sizes) last at end e = (refl, place-Tiles sizes last (at + s) end (omega arith))

length-place : (sizes : List ℕ) (at : ℕ) → length (place at sizes) ≡ length sizes
unfolding place
length-place [] at = refl
length-place (s ∷ sizes) at = ap suc (length-place sizes (at + s))

-- `count` frames that lie in a block of `size` bytes from some start to its end.
abbrev pub Fills : ℕ → ℕ → List (ℕ × ℕ) → Type 0
Fills size count frames =
    (start : ℕ) × (start ≤ size) × Tiles start size frames × (length frames ≡ count)

place_frames-Fills :
    (size n : ℕ) (rest : Bytes) (s : Sizes) {frames : List (ℕ × ℕ)}
    → length rest ≤ size
    → IsRead n rest s
    → place_frames size s ≡ ok frames
    → Fills size (n + 1) frames
unfolding place_frames
place_frames-Fills size n rest s {frames} le h e =
    let (used, e1, e2) = >>=-eq-ok (ok_or (total_size 0 s.0) (codec bad_block)) _ e in
    let (last, e3, e4) = >>=-eq-ok (ok_or (checked_sub (length s.1) used) (codec bad_block)) _ e2 in
    let total : used ≡ 0 + sum s.0 = total_size-sum s.0 0 (ok_or-eq-ok _ _ e1) in
    let (fits, rest_size) =
      if_some-eq-some (leb used (length s.1)) (length s.1 - used) (ok_or-eq-ok _ _ e3) in
    let start = size - length s.1 in
    subst (λ (t : List (ℕ × ℕ)). Fills size (n + 1) t) (ok-injective e4)
      (
        start,
        omega arith,
        place-Tiles s.0 last start size (omega (arith, leb→le used (length s.1) fits, h.left)),
        length-place (s.0 ++ (last ∷ [])) start
            ∙ omega (arith, length-append s.0 (last ∷ []), h.count),
      )

laced-Fills :
    (lacing : ℕ) (bytes : Bytes) {frames : List (ℕ × ℕ)}
    → laced lacing bytes ≡ ok frames
    → Fills (length bytes) (get_or bytes 0 0 + 1) frames
unfolding laced
laced-Fills lacing [] e = cc
laced-Fills lacing (count ∷ rest) e =
    let (s, e1, e2) = >>=-eq-ok (lace_sizes lacing count rest) _ e in
    place_frames-Fills (suc (length rest)) count rest s (omega arith)
      (lace_sizes-IsRead lacing count rest e1) e2

-- The frames of a block, whatever the lacing, begin somewhere in its bytes, follow one another without a gap, and end
-- where the block ends, so every frame lies in the block. There is one without a lace, and one more than the first byte
-- says with it.
pub unlace-Fills :
    (bytes : Bytes) (lacing : ℕ) (frames : List (ℕ × ℕ))
    → unlace bytes lacing ≡ ok frames
    → Fills (length bytes) (if lacing == 0 then 1 else get_or bytes 0 0 + 1) frames
unfolding unlace
unlace-Fills bytes lacing frames e = elim (Bool-cases (lacing == 0)) [
  | inl plain ↦ rw plain (
      subst (λ (t : List (ℕ × ℕ)). Fills (length bytes) 1 t)
        (ok-injective (if-true (lacing == 0) _ _ plain e))
        (0, omega arith, (refl, omega arith), refl))
  | inr lace ↦ rw lace (laced-Fills lacing bytes (if-false (lacing == 0) _ _ lace e))
]
