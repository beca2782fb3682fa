-- ===== src/Psd/Prediction/Predict.antt =====
-- The predictor of the format, as a writer applies it: differences to the left, and for 32-bit samples
-- the four byte planes of the scanline one after the other.
use zenextras.Prelude.{ℕ, ◌+◌, ◌-◌, ◌%◌, ◌^◌, List, [], ◌∷◌, ◌++◌}
use zenextras.Prelude.Bytes.{Bytes, be_bytes, to_be_bytes}
use zenextras.Psd.Types.{BitDepth, one, eight, sixteen, thirty_two}

abbrev pub byte_steps : ℕ → Bytes → Bytes
byte_steps prev [] = []
byte_steps prev (x ∷ xs) = ((x + 2 ^ 8 - prev) % 2 ^ 8) ∷ byte_steps x xs

abbrev pub byte_deltas : Bytes → Bytes
byte_deltas [] = []
byte_deltas (x ∷ xs) = x ∷ byte_steps x xs

abbrev pub word_steps : ℕ → Bytes → Bytes
word_steps prev (a ∷ b ∷ rest) =
    to_be_bytes 2 ((be_bytes (a ∷ b ∷ []) + 2 ^ 16 - prev) % 2 ^ 16)
    ++ word_steps (be_bytes (a ∷ b ∷ [])) rest
word_steps prev xs = xs

abbrev pub word_deltas : Bytes → Bytes
word_deltas (a ∷ b ∷ rest) = a ∷ b ∷ word_steps (be_bytes (a ∷ b ∷ [])) rest
word_deltas xs = xs

-- Every fourth byte, from the first, second, third and fourth on.
abbrev pub plane_0 : Bytes → Bytes
plane_0 (a ∷ b ∷ c ∷ d ∷ rest) = a ∷ plane_0 rest
plane_0 _ = []

abbrev pub plane_1 : Bytes → Bytes
plane_1 (a ∷ b ∷ c ∷ d ∷ rest) = b ∷ plane_1 rest
plane_1 _ = []

abbrev pub plane_2 : Bytes → Bytes
plane_2 (a ∷ b ∷ c ∷ d ∷ rest) = c ∷ plane_2 rest
plane_2 _ = []

abbrev pub plane_3 : Bytes → Bytes
plane_3 (a ∷ b ∷ c ∷ d ∷ rest) = d ∷ plane_3 rest
plane_3 _ = []

abbrev pub planes : Bytes → Bytes
planes row = plane_0 row ++ (plane_1 row ++ (plane_2 row ++ plane_3 row))

abbrev pub predict : BitDepth → Bytes → Bytes
predict one row = row
predict eight row = byte_deltas row
predict sixteen row = word_deltas row
predict thirty_two row = byte_deltas (planes row)

-- A plane of scanlines, each predicted by itself.
abbrev pub predict_rows : BitDepth → List Bytes → Bytes
predict_rows depth [] = []
predict_rows depth (row ∷ rows) = predict depth row ++ predict_rows depth rows

abbrev pub plane_of : List Bytes → Bytes
plane_of [] = []
plane_of (row ∷ rows) = row ++ plane_of rows
