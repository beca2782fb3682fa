-- ===== src/Psd/At.antt =====
-- What stands at a place of a document, and what the readers of zenpsd/src/parser.rs give there.
use zenextras.Prelude.{
  ℕ, ◌+◌, ◌-◌, ◌^◌, ◌≤◌, ◌<◌, Option, none, some, ◌++◌, length, drop, leb, le→leb,
}
use zenextras.Prelude.{length-append, take-append, drop-append, drop-drop}
use zenextras.Prelude.{
  ◌≡◌, refl, sym, ap, ◌∙◌, arith, inl, inr, leb→le, true, false, ltb, ltb→le, le→ltb, lt→ltb,
}
use zenextras.Prelude.{◌&&◌, &&-true, if_some-eq-some, Option-cases}
use zenextras.Prelude.{ok, ok_or, refuse-eq-ok, >>=-eq-ok, ok_or-eq-ok, ok-injective}
use zenextras.Prelude.Bytes.{Bytes, slice, get_range?, be_bytes, to_be_bytes, be_bytes-to_be_bytes}
use zenextras.Prelude.Bytes.{length-to_be_bytes}
use zenextras.Psd.Types.{PsdError, unexpected_eof, checked_add}
use zenextras.Psd.Header.{read_be}
use zenextras.Psd.Layout.{section_end}

-- `ys` is what is left of `xs` from `start` on.
pub record At (xs : Bytes) (start : ℕ) (ys : Bytes) : Type 0 where
  pub inside : start + length ys ≡ length xs
  pub rest : drop start xs ≡ ys

pub At-start : (xs : Bytes) → At xs 0 xs
At-start xs = record { inside = omega arith; rest = refl }

pub At-step :
    (xs ys zs : Bytes) (start end : ℕ)
    → At xs start (ys ++ zs)
    → start + length ys ≡ end
    → At xs end zs
At-step xs ys zs start end a e =
    let more : start + length ys ≡ end = e in
    record {
      inside = omega (arith, a.inside, length-append ys zs);
      rest = rw (← more) (
          sym (drop-drop start (length ys) xs)
          ∙ ap (drop (length ys)) a.rest
          ∙ drop-append ys zs (length ys) refl);
    }

pub slice-At :
    (xs ys zs : Bytes) (start end : ℕ)
    → At xs start (ys ++ zs)
    → start + length ys ≡ end
    → slice start end xs ≡ ys
slice-At xs ys zs start end a e =
    let n : end - start ≡ length ys = omega arith in
    rw (n, a.rest) (take-append ys zs (length ys) refl)

pub get_range-At :
    (xs ys zs : Bytes) (start n : ℕ)
    → At xs start (ys ++ zs)
    → length ys ≡ n
    → get_range? xs start (start + n) ≡ some ys
get_range-At xs ys zs start n a e =
    let ordered : leb start (start + n) ≡ true = le→leb start (start + n) (omega arith) in
    let within : leb (start + n) (length xs) ≡ true =
      le→leb (start + n) (length xs) (omega (arith, a.inside, length-append ys zs)) in
    rw (ordered, within, slice-At xs ys zs start (start + n) a (omega (arith, e)))

pub read_be-At :
    (n v : ℕ) (xs zs : Bytes) (start : ℕ)
    → At xs start (to_be_bytes n v ++ zs)
    → v < 256 ^ n
    → read_be n xs start ≡ some v
unfolding read_be
read_be-At n v xs zs start a h = rw (
  read_be,
  get_range-At xs (to_be_bytes n v) zs start n a (length-to_be_bytes n v),
  be_bytes-to_be_bytes n v h,
)

-- A read that succeeds lies inside.
pub read_be_within :
    (n : ℕ) (xs : Bytes) (start : ℕ) {v : ℕ} → read_be n xs start ≡ some v → start + n ≤ length xs
unfolding read_be
read_be_within n xs start h = elim (Option-cases (get_range? xs start (start + n))) [
  | inl none_there ↦ absurd (some_not_none (sym h ∙ ap read none_there))
  | inr (b, e) ↦
      let (tests, _) = if_some-eq-some (leb start (start + n) && leb (start + n) (length xs)) _ e in
      let (_, within) = &&-true (leb start (start + n)) (leb (start + n) (length xs)) tests in
      leb→le (start + n) (length xs) within
]
  where
    read : Option Bytes → Option ℕ
    read o = elim o [ none ↦ none | some b ↦ some (be_bytes b) ]

    some_not_none : {v : ℕ} → ¬ (◌≡◌ {A = Option ℕ} (some v) none)
    some_not_none e = cc

pub section_end-At :
    (xs ys zs : Bytes) (start end : ℕ) (e : PsdError)
    → length xs < 2 ^ 64
    → At xs start (ys ++ zs)
    → start + length ys ≡ end
    → section_end xs start (length ys) e ≡ ok end
unfolding section_end
section_end-At xs ys zs start end e h a same =
    let small : ltb (start + length ys) (2 ^ 64) ≡ true =
      lt→ltb _ _ (omega (arith, a.inside, length-append ys zs)) in
    let within : ltb (length xs) (start + length ys) ≡ false =
      le→ltb _ _ (omega (arith, a.inside, length-append ys zs)) in
    rw (small, within, same)

pub section_end_sound :
    (xs : Bytes) (start len : ℕ) (e : PsdError) {end : ℕ}
    → section_end xs start len e ≡ ok end
    → (end ≡ start + len) × (end ≤ length xs)
unfolding section_end
section_end_sound xs start len e h =
    let (end, added, k) = >>=-eq-ok (ok_or (checked_add start len) e) _ h in
    let (within, same) = refuse-eq-ok (ltb (length xs) end) unexpected_eof _ k in
    let (small, sum) =
      if_some-eq-some (ltb (start + len) (2 ^ 64)) _
        (ok_or-eq-ok (checked_add start len) e added) in
    let last : end ≡ _ = ok-injective same in
    (sym last ∙ sym sum, rw (← last) (ltb→le (length xs) end within))
