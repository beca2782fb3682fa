-- ===== src/Prelude/Bytes.antt =====
-- Byte slices as lists of numbers, and words in both byte orders.
use mathlib.Core.List.{reverse-cons, reverse-reverse, reverse-append}
use native.Mathlib.Nat.{pow-suc, pow-succ', mod-lt, div-add-mod, div-div-eq-div-mul}
use zenextras.Prelude.{
  ℕ, zero, suc, ◌+◌, ◌-◌, ◌*◌, ◌/◌, ◌%◌, ◌^◌, ◌≤◌, ◌<◌, ◌&&◌, Option, none, some,
}
use zenextras.Prelude.{List, [], ◌∷◌, ◌++◌, reverse, length, take, drop, All, leb, if◌then◌else◌}
use zenextras.Prelude.{length-reverse, length-take, length-drop, All-append}
use zenextras.Prelude.{take-append, drop-append, take-append-drop, drop-drop, All-take, All-drop}
use zenextras.Prelude.{◌≡◌, refl, sym, ap, ◌∙◌, arith}

abbrev pub Bytes : Type 0
Bytes = List ℕ

abbrev pub IsByte : ℕ → Type 0
IsByte b = b < 256

abbrev pub AllBytes : Bytes → Type 0
AllBytes = All IsByte

-- `&data[lo..hi]` for `lo <= hi <= data.len()`.
abbrev pub slice : ℕ → ℕ → Bytes → Bytes
slice lo hi xs = take (hi - lo) (drop lo xs)

-- `data.get(lo..hi)`.
abbrev pub get_range? : Bytes → ℕ → ℕ → Option Bytes
get_range? xs lo hi = if leb lo hi && leb hi (length xs) then some (slice lo hi xs) else none

-- `from_le_bytes`, `from_be_bytes`, `to_le_bytes` and `to_be_bytes`, at every width.
abbrev pub le_bytes : Bytes → ℕ
le_bytes [] = 0
le_bytes (x ∷ xs) = x + 256 * le_bytes xs

abbrev pub be_bytes : Bytes → ℕ
be_bytes xs = le_bytes (reverse xs)

abbrev pub to_le_bytes : ℕ → ℕ → Bytes
to_le_bytes zero v = []
to_le_bytes (suc n) v = (v % 256) ∷ to_le_bytes n (v / 256)

abbrev pub to_be_bytes : ℕ → ℕ → Bytes
to_be_bytes n v = reverse (to_le_bytes n v)

pub length-to_le_bytes : (n v : ℕ) → length (to_le_bytes n v) ≡ n
length-to_le_bytes zero v = refl
length-to_le_bytes (suc n) v = ap suc (length-to_le_bytes n (v / 256))

pub length-to_be_bytes : (n v : ℕ) → length (to_be_bytes n v) ≡ n
length-to_be_bytes n v = length-reverse (to_le_bytes n v) ∙ length-to_le_bytes n v

pub AllBytes-to_le_bytes : (n v : ℕ) → AllBytes (to_le_bytes n v)
AllBytes-to_le_bytes zero v = tt
AllBytes-to_le_bytes (suc n) v = (omega arith, AllBytes-to_le_bytes n (v / 256))

pub AllBytes-reverse : (xs : Bytes) → AllBytes xs → AllBytes (reverse xs)
AllBytes-reverse [] h = tt
AllBytes-reverse (x ∷ xs) h =
    rw (reverse-cons x xs)
      (All-append IsByte (reverse xs) (x ∷ []) (AllBytes-reverse xs h.1) (h.0, tt))

pub AllBytes-to_be_bytes : (n v : ℕ) → AllBytes (to_be_bytes n v)
AllBytes-to_be_bytes n v = AllBytes-reverse (to_le_bytes n v) (AllBytes-to_le_bytes n v)

pub le_bytes-to_le_bytes : (n v : ℕ) → v < 256 ^ n → le_bytes (to_le_bytes n v) ≡ v
le_bytes-to_le_bytes zero v h = omega arith
le_bytes-to_le_bytes (suc n) v h = ground (arith, pow-suc 256 n, le_bytes-to_le_bytes n (v / 256))

pub be_bytes-to_be_bytes : (n v : ℕ) → v < 256 ^ n → be_bytes (to_be_bytes n v) ≡ v
be_bytes-to_be_bytes n v h = rw (reverse-reverse (to_le_bytes n v)) (le_bytes-to_le_bytes n v h)

pub le_bytes-lt : (xs : Bytes) → AllBytes xs → le_bytes xs < 256 ^ length xs
le_bytes-lt [] h = omega arith
le_bytes-lt (x ∷ xs) h = ground (arith, pow-suc 256 (length xs), le_bytes-lt xs h.1)

pub be_bytes-lt : (xs : Bytes) → AllBytes xs → be_bytes xs < 256 ^ length xs
be_bytes-lt xs h = rw (← length-reverse xs) (le_bytes-lt (reverse xs) (AllBytes-reverse xs h))

pub to_le_bytes-le_bytes : (xs : Bytes) → AllBytes xs → to_le_bytes (length xs) (le_bytes xs) ≡ xs
to_le_bytes-le_bytes [] h = refl
to_le_bytes-le_bytes (x ∷ xs) h =
    let low : (x + 256 * le_bytes xs) % 256 ≡ x = omega arith in
    let high : (x + 256 * le_bytes xs) / 256 ≡ le_bytes xs = omega arith in
    rw (low, high, to_le_bytes-le_bytes xs h.1)

pub to_be_bytes-be_bytes :
    (xs : Bytes) (n : ℕ) → length xs ≡ n → AllBytes xs → to_be_bytes n (be_bytes xs) ≡ xs
to_be_bytes-be_bytes xs n e h =
    ap (λ (k : ℕ). to_be_bytes k (be_bytes xs)) (sym e ∙ sym (length-reverse xs))
    ∙ ap reverse (to_le_bytes-le_bytes (reverse xs) (AllBytes-reverse xs h))
    ∙ reverse-reverse xs

le_bytes-append :
    (xs ys : Bytes) → le_bytes (xs ++ ys) ≡ le_bytes xs + 256 ^ length xs * le_bytes ys
le_bytes-append [] ys = omega arith
le_bytes-append (x ∷ xs) ys =
    ground (arith, ap (λ (t : ℕ). t * le_bytes ys) (pow-suc 256 (length xs)), le_bytes-append xs ys)

-- The first byte is the high one.
pub be_bytes-cons : (x : ℕ) (xs : Bytes) → be_bytes (x ∷ xs) ≡ x * 256 ^ length xs + be_bytes xs
be_bytes-cons x xs =
    ap le_bytes (reverse-cons x xs)
    ∙ omega (
      arith,
      le_bytes-append (reverse xs) (x ∷ []),
      length-reverse xs,
      ap (λ (k : ℕ). 256 ^ k * x) (length-reverse xs),
    )

pub length-slice :
    (lo hi : ℕ) (xs : Bytes) → lo ≤ hi → hi ≤ length xs → length (slice lo hi xs) ≡ hi - lo
length-slice lo hi xs h k = omega (arith, length-take (hi - lo) (drop lo xs), length-drop lo xs)

-- The middle part of three is the slice between their lengths.
pub slice-append :
    (xs ys zs : Bytes) (lo hi : ℕ)
    → length xs ≡ lo
    → lo + length ys ≡ hi
    → slice lo hi (xs ++ (ys ++ zs)) ≡ ys
slice-append xs ys zs lo hi e f =
    ap (take (hi - lo)) (drop-append xs (ys ++ zs) lo e) ∙ take-append ys zs (hi - lo) (omega arith)

to_le_bytes-concat :
    (n v : ℕ) → to_le_bytes (suc n) v ≡ to_le_bytes n v ++ ((v / 256 ^ n % 256) ∷ [])
to_le_bytes-concat zero v =
    let whole : v / 1 ≡ v = omega arith in ap (λ (t : ℕ). (t % 256) ∷ []) (sym whole)
to_le_bytes-concat (suc n) v =
    let deeper : v / 256 / 256 ^ n ≡ v / 256 ^ suc n =
      div-div-eq-div-mul v 256 (256 ^ n) ∙ ap (λ (t : ℕ). v / t) (sym (pow-succ' 256 n)) in
    ap (◌∷◌ (v % 256)) (
      to_le_bytes-concat n (v / 256)
      ∙ ap (λ (t : ℕ). to_le_bytes n (v / 256) ++ ((t % 256) ∷ [])) deeper)

pub to_be_bytes-suc : (n v : ℕ) → to_be_bytes (suc n) v ≡ (v / 256 ^ n % 256) ∷ to_be_bytes n v
to_be_bytes-suc n v =
    ap reverse (to_le_bytes-concat n v)
    ∙ reverse-append (to_le_bytes n v) ((v / 256 ^ n % 256) ∷ [])

-- `v.to_be_bytes()[k..]` is the encoding in the bytes that are left.
pub drop-to_be_bytes : (w k n v : ℕ) → k + n ≡ w → drop k (to_be_bytes w v) ≡ to_be_bytes n v
drop-to_be_bytes w zero n v e = let same : w ≡ n = omega arith in rw same
drop-to_be_bytes zero (suc k) n v e = absurd (omega arith)
drop-to_be_bytes (suc w) (suc k) n v e =
    ap (drop (suc k)) (to_be_bytes-suc w v) ∙ drop-to_be_bytes w k n v (omega arith)

pub be_bytes-to_be_bytes_mod : (n v : ℕ) → be_bytes (to_be_bytes n v) ≡ v % 256 ^ n
be_bytes-to_be_bytes_mod n v = ap le_bytes (reverse-reverse (to_le_bytes n v)) ∙ le_bytes_mod n v
  where
    le_bytes_mod : (n v : ℕ) → le_bytes (to_le_bytes n v) ≡ v % 256 ^ n
    le_bytes_mod zero v = omega arith
    le_bytes_mod (suc n) v =
        rw (le_bytes_mod n (v / 256), pow-suc 256 n) (grind (arith, mod-lt, div-add-mod))

-- Cutting at `hi` what begins at `lo`.
pub slice-append-drop :
    (lo hi : ℕ) (xs : Bytes) → lo ≤ hi → slice lo hi xs ++ drop hi xs ≡ drop lo xs
slice-append-drop lo hi xs h =
    let later : drop hi xs ≡ drop (hi - lo) (drop lo xs) =
      ap (λ (t : ℕ). drop t xs) (the_sum lo hi h) ∙ sym (drop-drop lo (hi - lo) xs) in
    ap (◌++◌ (slice lo hi xs)) later ∙ take-append-drop (hi - lo) (drop lo xs)
  where
    the_sum : (lo hi : ℕ) → lo ≤ hi → hi ≡ lo + (hi - lo)
    the_sum lo hi h = omega arith

pub AllBytes-slice : (lo hi : ℕ) (xs : Bytes) → AllBytes xs → AllBytes (slice lo hi xs)
AllBytes-slice lo hi xs h = All-take IsByte (hi - lo) (drop lo xs) (All-drop IsByte lo xs h)
