-- ===== src/Psd/Prediction/Undo.antt =====
-- The decoder undoes the predictor, at every depth.
use zenextras.Prelude.{ℕ, zero, suc, ◌+◌, ◌-◌, ◌*◌, ◌/◌, ◌%◌, ◌^◌, ◌<◌, List, [], ◌∷◌, ◌++◌}
use zenextras.Prelude.{length, drop, get_or, length-append, All-append}
use zenextras.Prelude.{get_or-append_left, get_or-append_right}
use zenextras.Prelude.{◌≡◌, refl, sym, ap, ◌∙◌, arith, Bool-cases, inl, inr, ltb→lt, ltb}
use zenextras.Prelude.Bytes.{Bytes, IsByte, AllBytes, be_bytes, to_be_bytes}
use zenextras.Psd.Prediction.{running, undo_bytes, running_words, undo_words, gather, undo_floats}
use zenextras.Psd.Prediction.Predict.{
  byte_steps, byte_deltas, word_steps, word_deltas, plane_0, plane_1,
}
use zenextras.Psd.Prediction.Predict.{plane_2, plane_3, planes}

empty_of_length : (xs : Bytes) → length xs ≡ 0 → xs ≡ []
empty_of_length [] e = refl
empty_of_length (x ∷ xs) e = absurd (omega arith)

running-byte_steps :
    (xs : Bytes) (prev : ℕ) → prev < 256 → AllBytes xs → running prev (byte_steps prev xs) ≡ xs
unfolding running
running-byte_steps [] prev h all = refl
running-byte_steps (x ∷ xs) prev h all =
    let back : ((x + 256 - prev) % 256 + prev) % 256 ≡ x = omega (arith, all.0) in
    rw back (ap (◌∷◌ x) (running-byte_steps xs x all.0 all.1))

pub undo_bytes-byte_deltas : (row : Bytes) → AllBytes row → undo_bytes (byte_deltas row) ≡ row
unfolding undo_bytes
undo_bytes-byte_deltas [] all = refl
undo_bytes-byte_deltas (x ∷ xs) all = ap (◌∷◌ x) (running-byte_steps xs x all.0 all.1)

running_words-word_steps :
    (xs : Bytes) (prev : ℕ)
    → prev < 2 ^ 16
    → AllBytes xs
    → running_words prev (word_steps prev xs) ≡ xs
unfolding running_words
running_words-word_steps [] prev h all = refl
running_words-word_steps (a ∷ []) prev h all = refl
running_words-word_steps (a ∷ b ∷ rest) prev h all =
    let w = be_bytes (a ∷ b ∷ []) in
    let step = (w + 2 ^ 16 - prev) % 2 ^ 16 in
    let back : (prev + be_bytes (to_be_bytes 2 step)) % 2 ^ 16 ≡ w =
      omega (arith, all.0, all.1.0) in
    let high : w / 256 % 256 ≡ a = omega (arith, all.0, all.1.0) in
    let low : w % 256 ≡ b = omega (arith, all.1.0) in
    rw (back, high, low)
      (ap (λ (t : Bytes). a ∷ b ∷ t)
        (running_words-word_steps rest w (omega (arith, all.0, all.1.0)) all.1.1))

pub undo_words-word_deltas :
    (width : ℕ) (row : Bytes)
    → length row ≡ width * 2
    → AllBytes row
    → undo_words width (word_deltas row) ≡ row
unfolding undo_words
undo_words-word_deltas width [] e all = refl
undo_words-word_deltas width (a ∷ []) e all = refl
undo_words-word_deltas width (a ∷ b ∷ rest) e all = elim (Bool-cases (ltb width 2)) [
  | inl narrow ↦
      let none_left : rest ≡ [] = empty_of_length rest (omega (arith, ltb→lt width 2 narrow)) in
      rw (narrow, none_left) refl
  | inr wide ↦ rw wide (
      ap (λ (t : Bytes). a ∷ b ∷ t)
        (running_words-word_steps rest _ (omega (arith, all.0, all.1.0)) all.1.1))
]

-- Four bytes a pixel.
abbrev Quad : Type 0
Quad = ℕ × ℕ × ℕ × ℕ

abbrev quad_bytes : List Quad → Bytes
quad_bytes [] = []
quad_bytes ((a, b, c, d) ∷ qs) = a ∷ b ∷ c ∷ d ∷ quad_bytes qs

abbrev column : (Quad → ℕ) → List Quad → Bytes
column f [] = []
column f (q ∷ qs) = f q ∷ column f qs

abbrev columns : List Quad → Bytes
columns qs =
    column (λ q. q.0) qs ++ (column (λ q. q.1) qs ++ (column (λ q. q.2) qs ++ column (λ q. q.3) qs))

length-column : (f : Quad → ℕ) (qs : List Quad) → length (column f qs) ≡ length qs
length-column f [] = refl
length-column f (q ∷ qs) = ap suc (length-column f qs)

-- A scanline of whole pixels, taken apart.
record Quads (row : Bytes) (n : ℕ) : Type 0 where
  quads : List Quad
  bytes : row ≡ quad_bytes quads
  first : plane_0 row ≡ column (λ q. q.0) quads
  second : plane_1 row ≡ column (λ q. q.1) quads
  third : plane_2 row ≡ column (λ q. q.2) quads
  fourth : plane_3 row ≡ column (λ q. q.3) quads
  count : length quads ≡ n

Quads-of : (n : ℕ) (row : Bytes) → length row ≡ 4 * n → Quads row n
Quads-of zero [] e = record {
  quads = [];
  bytes = refl;
  first = refl;
  second = refl;
  third = refl;
  fourth = refl;
  count = refl;
}
Quads-of (suc n) [] e = absurd (omega arith)
Quads-of n (a ∷ []) e = absurd (omega arith)
Quads-of n (a ∷ b ∷ []) e = absurd (omega arith)
Quads-of n (a ∷ b ∷ c ∷ []) e = absurd (omega arith)
Quads-of zero (a ∷ b ∷ c ∷ d ∷ rest) e = absurd (omega arith)
Quads-of (suc n) (a ∷ b ∷ c ∷ d ∷ rest) e =
    let q = Quads-of n rest (omega arith) in
    record {
      quads = (a, b, c, d) ∷ q.quads;
      bytes = ap (λ (t : Bytes). a ∷ b ∷ c ∷ d ∷ t) q.bytes;
      first = ap (◌∷◌ a) q.first;
      second = ap (◌∷◌ b) q.second;
      third = ap (◌∷◌ c) q.third;
      fourth = ap (◌∷◌ d) q.fourth;
      count = ap suc q.count;
    }

nth :
    (qs : List Quad) (x : ℕ)
    → x < length qs
    → (q : Quad) × (drop x qs ≡ q ∷ drop (x + 1) qs)
      × ((f : Quad → ℕ) → get_or (column f qs) x 0 ≡ f q)
nth [] x h = elim h [ ]
nth (q ∷ qs) zero h = (q, refl, λ f. refl)
nth (q ∷ qs) (suc x) h =
    let (p, tail, get) = nth qs x (omega arith) in
    let more : suc x + 1 ≡ suc (x + 1) = omega arith in (p, rw more tail, get)

drop_all : (qs : List Quad) (x : ℕ) → length qs ≡ x → drop x qs ≡ []
drop_all [] zero e = refl
drop_all [] (suc x) e = absurd (omega arith)
drop_all (q ∷ qs) zero e = absurd (omega arith)
drop_all (q ∷ qs) (suc x) e = drop_all qs x (omega arith)

-- A byte of each plane in the four laid end to end.
record AtPlanes (c0 c1 c2 c3 : Bytes) (n x : ℕ) : Type 0 where
  at_0 : get_or (c0 ++ (c1 ++ (c2 ++ c3))) x 0 ≡ get_or c0 x 0
  at_1 : get_or (c0 ++ (c1 ++ (c2 ++ c3))) (n + x) 0 ≡ get_or c1 x 0
  at_2 : get_or (c0 ++ (c1 ++ (c2 ++ c3))) (n * 2 + x) 0 ≡ get_or c2 x 0
  at_3 : get_or (c0 ++ (c1 ++ (c2 ++ c3))) (n * 3 + x) 0 ≡ get_or c3 x 0

at_planes :
    (c0 c1 c2 c3 : Bytes) (n x : ℕ)
    → x < n
    → length c0 ≡ n
    → length c1 ≡ n
    → length c2 ≡ n
    → AtPlanes c0 c1 c2 c3 n x
at_planes c0 c1 c2 c3 n x h e0 e1 e2 = record {
  at_0 = get_or-append_left c0 _ x 0 (omega arith);
  at_1 =
      get_or-append_right c0 _ x (n + x) 0 (omega arith)
      ∙ get_or-append_left c1 _ x 0 (omega arith);
  at_2 =
      get_or-append_right c0 _ (n + x) (n * 2 + x) 0 (omega arith)
      ∙ get_or-append_right c1 _ x (n + x) 0 (omega arith)
      ∙ get_or-append_left c2 _ x 0 (omega arith);
  at_3 =
      get_or-append_right c0 _ (n * 2 + x) (n * 3 + x) 0 (omega arith)
      ∙ get_or-append_right c1 _ (n + x) (n * 2 + x) 0 (omega arith)
      ∙ get_or-append_right c2 _ x (n + x) 0 (omega arith);
}

gather-columns :
    (k x n : ℕ) (qs : List Quad)
    → x + k ≡ n
    → length qs ≡ n
    → gather (columns qs) n x k ≡ quad_bytes (drop x qs)
unfolding gather
gather-columns zero x n qs e len = rw (drop_all qs x (omega arith))
gather-columns (suc k) x n qs e len =
    let (q, tail, get) = nth qs x (omega arith) in
    let found : AtPlanes (column (λ p. p.0) qs) (column (λ p. p.1) qs) (column (λ p. p.2) qs)
        (column (λ p. p.3) qs) n x =
      at_planes _ _ _ _ n x (omega arith) (length-column _ qs ∙ len) (length-column _ qs ∙ len)
        (length-column _ qs ∙ len) in
    rw (
      found.at_0,
      found.at_1,
      found.at_2,
      found.at_3,
      get (λ p. p.0),
      get (λ p. p.1),
      get (λ p. p.2),
      get (λ p. p.3),
      tail,
      gather-columns k (x + 1) n qs (omega arith) len,
    )

AllBytes-column :
    (f : Quad → ℕ) (qs : List Quad)
    → ((q : Quad) → AllBytes (quad_bytes (q ∷ [])) → f q < 256)
    → AllBytes (quad_bytes qs)
    → AllBytes (column f qs)
AllBytes-column f [] each all = tt
AllBytes-column f ((a, b, c, d) ∷ qs) each all = (
  each (a, b, c, d) (all.0, (all.1.0, (all.1.1.0, (all.1.1.1.0, tt)))),
  AllBytes-column f qs each all.1.1.1.1,
)

AllBytes-columns : (qs : List Quad) → AllBytes (quad_bytes qs) → AllBytes (columns qs)
AllBytes-columns qs all = All-append IsByte _ _ (AllBytes-column (λ q. q.0) qs (λ q h. h.0) all) (
    All-append IsByte _ _ (AllBytes-column (λ q. q.1) qs (λ q h. h.1.0) all) (
      All-append IsByte _ _ (AllBytes-column (λ q. q.2) qs (λ q h. h.1.1.0) all)
        (AllBytes-column (λ q. q.3) qs (λ q h. h.1.1.1.0) all)))

planes_of : (n : ℕ) (row : Bytes) (q : Quads row n) → planes row ≡ columns q.quads
planes_of n row q = rw (q.first, q.second, q.third, q.fourth)

pub undo_floats-planes :
    (n : ℕ) (row : Bytes)
    → length row ≡ 4 * n
    → AllBytes row
    → undo_floats n (byte_deltas (planes row)) ≡ row
unfolding undo_floats
undo_floats-planes n row e all =
    let q = Quads-of n row e in
    let whole : AllBytes (columns q.quads) = AllBytes-columns q.quads (rw (← q.bytes) all) in
    rw (planes_of n row q, undo_bytes-byte_deltas (columns q.quads) whole)
      (gather-columns n 0 n q.quads (omega arith) q.count ∙ sym q.bytes)

pub length-planes : (n : ℕ) (row : Bytes) → length row ≡ 4 * n → length (planes row) ≡ length row
length-planes n row e =
    let q = Quads-of n row e in
    ap length (planes_of n row q) ∙ length-columns q.quads ∙ omega (arith, q.count)
  where
    length-columns : (qs : List Quad) → length (columns qs) ≡ 4 * length qs
    length-columns qs = omega (
      arith,
      length-append (column (λ q. q.0) qs)
          (column (λ q. q.1) qs ++ (column (λ q. q.2) qs ++ column (λ q. q.3) qs)),
      length-append (column (λ q. q.1) qs) (column (λ q. q.2) qs ++ column (λ q. q.3) qs),
      length-append (column (λ q. q.2) qs) (column (λ q. q.3) qs),
      length-column (λ q. q.0) qs,
      length-column (λ q. q.1) qs,
      length-column (λ q. q.2) qs,
      length-column (λ q. q.3) qs,
    )
