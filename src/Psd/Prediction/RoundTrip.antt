-- ===== src/Psd/Prediction/RoundTrip.antt =====
-- A predicted plane, decoded: `apply_zip_prediction` after the writer's predictor is the plane again.
use zenextras.Prelude.{ℕ, suc, ◌*◌, ◌^◌, List, [], ◌∷◌, ◌++◌, All, length}
use zenextras.Prelude.{take-append, drop-append, some, ltb, Bool-cases, inl, inr}
use zenextras.Prelude.{◌≡◌, refl, ap, ◌∙◌, arith}
use zenextras.Prelude.Bytes.{Bytes, AllBytes, be_bytes}
use zenextras.Psd.Types.{BitDepth, one, eight, sixteen, thirty_two, scanline_bytes, checked_mul}
use zenextras.Psd.Prediction.{undo_bytes, undo_words, undo_floats, per_row, apply_zip_prediction}
use zenextras.Psd.Prediction.Predict.{byte_steps, byte_deltas, word_steps, word_deltas}
use zenextras.Psd.Prediction.Predict.{planes, predict, predict_rows, plane_of}
use zenextras.Psd.Prediction.Undo.{
  undo_bytes-byte_deltas, undo_words-word_deltas, undo_floats-planes,
}
use zenextras.Psd.Prediction.Undo.{length-planes}

length-byte_steps : (prev : ℕ) (xs : Bytes) → length (byte_steps prev xs) ≡ length xs
length-byte_steps prev [] = refl
length-byte_steps prev (x ∷ xs) = ap suc (length-byte_steps x xs)

length-byte_deltas : (xs : Bytes) → length (byte_deltas xs) ≡ length xs
length-byte_deltas [] = refl
length-byte_deltas (x ∷ xs) = ap suc (length-byte_steps x xs)

length-word_steps : (prev : ℕ) (xs : Bytes) → length (word_steps prev xs) ≡ length xs
length-word_steps prev [] = refl
length-word_steps prev (a ∷ []) = refl
length-word_steps prev (a ∷ b ∷ rest) =
    ap (λ (n : ℕ). suc (suc n)) (length-word_steps (be_bytes (a ∷ b ∷ [])) rest)

length-word_deltas : (xs : Bytes) → length (word_deltas xs) ≡ length xs
length-word_deltas [] = refl
length-word_deltas (a ∷ []) = refl
length-word_deltas (a ∷ b ∷ rest) =
    ap (λ (n : ℕ). suc (suc n)) (length-word_steps (be_bytes (a ∷ b ∷ [])) rest)

-- The bytes of one scanline of `row_bytes` bytes.
abbrev pub IsScanline : ℕ → Bytes → Type 0
IsScanline row_bytes row = (length row ≡ row_bytes) × AllBytes row

checked_mul-eq-some : (a b : ℕ) {c : ℕ} → checked_mul a b ≡ some c → c ≡ a * b
checked_mul-eq-some a b h = elim (Bool-cases (ltb (a * b) (2 ^ 64))) [ inl e ↦ cc | inr e ↦ cc ]

-- One scanline, at the depths the decoder predicts at.
record Undone (f p : Bytes → Bytes) (row_bytes : ℕ) : Type 0 where
  kept : (row : Bytes) → IsScanline row_bytes row → length (p row) ≡ row_bytes
  undone : (row : Bytes) → IsScanline row_bytes row → f (p row) ≡ row

unfoldable predicted : (Bytes → Bytes) → List Bytes → Bytes
predicted p [] = []
predicted p (row ∷ rows) = p row ++ predicted p rows

per_row-predicted :
    (f p : Bytes → Bytes) (row_bytes : ℕ)
    → Undone f p row_bytes
    → (rows : List Bytes) → All (IsScanline row_bytes) rows
    → per_row f row_bytes (length rows) (predicted p rows) ≡ plane_of rows
unfolding per_row predicted
per_row-predicted f p row_bytes law [] h = refl
per_row-predicted f p row_bytes law (row ∷ rows) h =
    let size : length (p row) ≡ row_bytes = law.kept row h.0 in
    rw (
      take-append (p row) (predicted p rows) row_bytes size,
      drop-append (p row) (predicted p rows) row_bytes size,
      law.undone row h.0,
      per_row-predicted f p row_bytes law rows h.1,
    )

predict_rows-predicted :
    (depth : BitDepth) (rows : List Bytes)
    → predict_rows depth rows ≡ predicted (predict depth) rows
unfolding predicted
predict_rows-predicted depth [] = refl
predict_rows-predicted depth (row ∷ rows) =
    ap (◌++◌ (predict depth row)) (predict_rows-predicted depth rows)

predicted-one : (rows : List Bytes) → predict_rows one rows ≡ plane_of rows
predicted-one [] = refl
predicted-one (row ∷ rows) = ap (◌++◌ row) (predicted-one rows)

Undone-eight : (n : ℕ) → Undone undo_bytes byte_deltas n
Undone-eight n = record {
  kept = λ row h. length-byte_deltas row ∙ h.0;
  undone = λ row h. undo_bytes-byte_deltas row h.1;
}

Undone-sixteen : (width n : ℕ) → n ≡ width * 2 → Undone (undo_words width) word_deltas n
Undone-sixteen width n e = record {
  kept = λ row h. length-word_deltas row ∙ h.0;
  undone = λ row h. undo_words-word_deltas width row (h.0 ∙ e) h.1;
}

Undone-thirty_two :
    (width n : ℕ) → n ≡ width * 4 → Undone (undo_floats width) (λ row. byte_deltas (planes row)) n
Undone-thirty_two width n e = record {
  kept =
      λ row h. length-byte_deltas (planes row) ∙ length-planes width row (omega (arith, h.0)) ∙ h.0;
  undone = λ row h. undo_floats-planes width row (omega (arith, h.0)) h.1;
}

-- A plane whose scanlines a writer predicted one by one decodes to its scanlines, at every depth, with
-- the scanline length that `scanline_bytes` gives the width.
pub apply_zip_prediction-predict_rows :
    (depth : BitDepth) (width row_bytes : ℕ) (rows : List Bytes)
    → scanline_bytes depth width ≡ some row_bytes
    → All (IsScanline row_bytes) rows
    → apply_zip_prediction (predict_rows depth rows) width (length rows) row_bytes depth
      ≡ plane_of rows
unfolding apply_zip_prediction scanline_bytes
apply_zip_prediction-predict_rows one width row_bytes rows s h = predicted-one rows
apply_zip_prediction-predict_rows eight width row_bytes rows s h =
    ap (per_row undo_bytes row_bytes (length rows)) (predict_rows-predicted eight rows)
    ∙ per_row-predicted _ _ row_bytes (Undone-eight row_bytes) rows h
apply_zip_prediction-predict_rows sixteen width row_bytes rows s h =
    ap (per_row (undo_words width) row_bytes (length rows)) (predict_rows-predicted sixteen rows)
    ∙ per_row-predicted _ _ row_bytes
        (Undone-sixteen width row_bytes (checked_mul-eq-some width 2 s)) rows h
apply_zip_prediction-predict_rows thirty_two width row_bytes rows s h =
    ap (per_row (undo_floats width) row_bytes (length rows))
      (predict_rows-predicted thirty_two rows)
    ∙ per_row-predicted _ _ row_bytes
        (Undone-thirty_two width row_bytes (checked_mul-eq-some width 4 s)) rows h
