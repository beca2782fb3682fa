-- ===== src/Psd/Prediction.antt =====
-- zenpsd/src/parser.rs, `apply_zip_prediction`: horizontal differencing undone, scanline by scanline.
-- A plane is `height` scanlines of `row_bytes` bytes, and `row_bytes` is `scanline_bytes` of the depth.
pub mod Predict
pub mod Undo
pub mod RoundTrip
use zenextras.Prelude.{ℕ, zero, suc, ◌+◌, ◌*◌, ◌%◌, ◌^◌, [], ◌∷◌, ◌++◌, take, drop, get_or}
use zenextras.Prelude.{ltb, if◌then◌else◌}
use zenextras.Prelude.Bytes.{Bytes, be_bytes, to_be_bytes}
use zenextras.Psd.Types.{BitDepth, one, eight, sixteen, thirty_two}

-- `row[x] = row[x].wrapping_add(row[x - 1])`, behind a byte `prev`.
unfoldable pub running : ℕ → Bytes → Bytes
running prev [] = []
running prev (x ∷ xs) = let v = (x + prev) % 2 ^ 8 in v ∷ running v xs

unfoldable pub undo_bytes : Bytes → Bytes
undo_bytes [] = []
undo_bytes (x ∷ xs) = x ∷ running x xs

-- The pairs of bytes behind `prev`; an odd byte at the end is left alone.
unfoldable pub running_words : ℕ → Bytes → Bytes
running_words prev (a ∷ b ∷ rest) =
    let v = (prev + be_bytes (a ∷ b ∷ [])) % 2 ^ 16 in to_be_bytes 2 v ++ running_words v rest
running_words prev xs = xs

unfoldable pub undo_words : ℕ → Bytes → Bytes
undo_words width (a ∷ b ∷ rest) =
    if ltb width 2 then a ∷ b ∷ rest else a ∷ b ∷ running_words (be_bytes (a ∷ b ∷ [])) rest
undo_words width xs = xs

-- `n` pixels from `x` on, each gathered from the four byte planes of a scanline.
unfoldable pub gather : Bytes → ℕ → ℕ → ℕ → Bytes
gather scratch width x zero = []
gather scratch width x (suc n) =
    get_or scratch x 0
    ∷ get_or scratch (width + x) 0
    ∷ get_or scratch (width * 2 + x) 0
    ∷ get_or scratch (width * 3 + x) 0
    ∷ gather scratch width (x + 1) n

unfoldable pub undo_floats : ℕ → Bytes → Bytes
undo_floats width row = gather (undo_bytes row) width 0 width

-- `for y in 0..height { row = f(row) }`
unfoldable pub per_row : (Bytes → Bytes) → ℕ → ℕ → Bytes → Bytes
per_row f row_bytes zero plane = plane
per_row f row_bytes (suc height) plane =
    f (take row_bytes plane) ++ per_row f row_bytes height (drop row_bytes plane)

unfoldable pub apply_zip_prediction : Bytes → ℕ → ℕ → ℕ → BitDepth → Bytes
apply_zip_prediction plane width height row_bytes eight = per_row undo_bytes row_bytes height plane
apply_zip_prediction plane width height row_bytes sixteen =
    per_row (undo_words width) row_bytes height plane
apply_zip_prediction plane width height row_bytes thirty_two =
    per_row (undo_floats width) row_bytes height plane
apply_zip_prediction plane width height row_bytes one = plane
