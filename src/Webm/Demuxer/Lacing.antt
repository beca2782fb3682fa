-- ===== src/Webm/Demuxer/Lacing.antt =====
-- zenwebm/src/demux.rs, `unlace`: the frames of a block.
use zenextras.Prelude.{ℕ, zero, suc, ◌+◌, ◌-◌, ◌*◌, ◌/◌, ◌%◌, ◌^◌}
use zenextras.Prelude.{false, Option, none, some, List, [], ◌∷◌, ◌++◌, length, drop, replicate}
use zenextras.Prelude.{ltb, leb, ◌==◌, if◌then◌else◌, Result, ok, err, ◌>>=◌, ok_or}
use zenextras.Prelude.Bytes.{Bytes}
use zenextras.Prelude.Int.{ℤ, pos, negsuc, ◌+ℤ◌, ◌-ℤ◌}
use zenextras.Webm.Error.{bad_block}
use zenextras.Webm.Types.{SessionError, codec}
use zenextras.Webm.Ebml.{vint}
use zenextras.Webm.Demuxer.Tracks.{of_codec}

-- A size as a run of 255s and a last byte.
unfoldable pub xiph_size : Bytes → ℕ → Option (ℕ × Bytes)
xiph_size [] size = none
xiph_size (b ∷ rest) size =
    let more = xiph_size rest (size + b) in if b == 255 then more else some (size + b, rest)

-- The sizes of all frames but the last, and what follows them.
abbrev pub Sizes : Type 0
Sizes = List ℕ × Bytes

unfoldable pub xiph_sizes : ℕ → Bytes → Result SessionError Sizes
xiph_sizes zero rest = ok ([], rest)
xiph_sizes (suc n) rest = do
  first ← ok_or (xiph_size rest 0) (codec bad_block)
  others ← xiph_sizes n first.1
  ok (first.0 ∷ others.0, others.1)

-- `n` is one less than the number of frames.
unfoldable pub fixed_sizes : ℕ → Bytes → Result SessionError Sizes
fixed_sizes n rest =
    if length rest % (n + 1) == 0
    then ok (replicate n (length rest / (n + 1)), rest)
    else err (codec bad_block)

-- `usize::try_from(size)`
abbrev pub to_usize : ℤ → Result SessionError ℕ
to_usize (pos n) = ok n
to_usize (negsuc n) = err (codec bad_block)

abbrev pub bias : ℕ → ℕ
bias len = 2 ^ (7 * len - 1) - 1

-- Signed differences to the size before; a size stays below 2 ^ 63.
unfoldable pub ebml_differences : ℕ → ℤ → Bytes → Result SessionError Sizes
ebml_differences zero size rest = ok ([], rest)
ebml_differences (suc n) size rest = do
  field ← of_codec (vint rest 8 false)
  v ← ok_or field (codec bad_block)
  let next = size +ℤ (pos v.0 -ℤ pos (bias v.1))
  s ← to_usize next
  others ← ebml_differences n next (drop v.1 rest)
  ok (s ∷ others.0, others.1)

-- The first size is plain.
unfoldable pub ebml_sizes : ℕ → Bytes → Result SessionError Sizes
ebml_sizes zero rest = ok ([], rest)
ebml_sizes (suc n) rest = do
  field ← of_codec (vint rest 8 false)
  v ← ok_or field (codec bad_block)
  others ← ebml_differences n (pos v.0) (drop v.1 rest)
  ok (v.0 ∷ others.0, others.1)

unfoldable pub lace_sizes : ℕ → ℕ → Bytes → Result SessionError Sizes
lace_sizes lacing n rest =
    if lacing == 1
    then xiph_sizes n rest
    else if lacing == 2
    then fixed_sizes n rest
    else ebml_sizes n rest

-- `try_fold` with `checked_add` on `usize`.
unfoldable pub total_size : ℕ → List ℕ → Option ℕ
total_size used [] = some used
total_size used (s ∷ sizes) = if ltb (used + s) (2 ^ 64) then total_size (used + s) sizes else none

abbrev pub checked_sub : ℕ → ℕ → Option ℕ
checked_sub a b = if leb b a then some (a - b) else none

-- Each frame begins where the one before ends.
unfoldable pub place : ℕ → List ℕ → List (ℕ × ℕ)
place at [] = []
place at (s ∷ sizes) = (at, s) ∷ place (at + s) sizes

unfoldable pub place_frames : ℕ → Sizes → Result SessionError (List (ℕ × ℕ))
place_frames data_len (sizes, rest) = do
  used ← ok_or (total_size 0 sizes) (codec bad_block)
  last ← ok_or (checked_sub (length rest) used) (codec bad_block)
  ok (place (data_len - length rest) (sizes ++ (last ∷ [])))

unfoldable pub laced : ℕ → Bytes → Result SessionError (List (ℕ × ℕ))
laced lacing [] = err (codec bad_block)
laced lacing (count ∷ rest) = lace_sizes lacing count rest >>= place_frames (suc (length rest))

unfoldable pub unlace : Bytes → ℕ → Result SessionError (List (ℕ × ℕ))
unlace bytes lacing = if lacing == 0 then ok ((0, length bytes) ∷ []) else laced lacing bytes
