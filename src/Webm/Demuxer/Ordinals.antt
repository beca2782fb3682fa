-- ===== src/Webm/Demuxer/Ordinals.antt =====
-- The numbers of frames that the index of a seek records.
use zenextras.Prelude.{
  ℕ, zero, suc, ◌+◌, ◌<◌, Bool, true, false, Option, none, some, List, [], ◌∷◌, ◌++◌,
}
use zenextras.Prelude.{length, get_or, ◌==◌, if◌then◌else◌}
use zenextras.Prelude.{◌≡◌, refl, ap, sym, ◌∙◌, arith}
use zenextras.Webm.Demuxer.State.{SeekEntry}
use zenextras.Webm.Demuxer.Heads.{position}
use zenextras.Webm.Demuxer.Blocks.{bump}

-- The frames of a track in a part of the index.
abbrev pub frames_if : ℕ → SeekEntry → ℕ
frames_if t e = if e.track == t then e.frames else 0

unfoldable pub frames_in : ℕ → List SeekEntry → ℕ
frames_in t [] = 0
frames_in t (e ∷ es) = frames_if t e + frames_in t es

-- Every entry has the number of frames of its track in front of it, `seen` of them before the first.
abbrev pub Counted : (ℕ → ℕ) → List SeekEntry → Type 0
Counted seen [] = Unit {0}
Counted seen (e ∷ es) = (e.ordinal ≡ seen e.track) × Counted (λ t. seen t + frames_if t e) es

pub Counted-snoc :
    (es : List SeekEntry) (seen : ℕ → ℕ) (e : SeekEntry)
    → Counted seen es
    → e.ordinal ≡ seen e.track + frames_in e.track es
    → Counted seen (es ++ (e ∷ []))
unfolding frames_in
Counted-snoc [] seen e h ordinal = (omega (arith, ordinal), tt)
Counted-snoc (x ∷ es) seen e h ordinal =
    (h.0, Counted-snoc es (λ t. seen t + frames_if t x) e h.1 (omega (arith, ordinal)))

pub Counted-at :
    (before : List SeekEntry) (seen : ℕ → ℕ) (e : SeekEntry) (after : List SeekEntry)
    → Counted seen (before ++ (e ∷ after))
    → e.ordinal ≡ seen e.track + frames_in e.track before
unfolding frames_in
Counted-at [] seen e after h = omega (arith, h.0)
Counted-at (x ∷ before) seen e after h =
    let rest = Counted-at before (λ t. seen t + frames_if t x) e after h.1 in omega (arith, rest)

frames_in-snoc :
    (es : List SeekEntry) (e : SeekEntry) (t : ℕ)
    → frames_in t (es ++ (e ∷ [])) ≡ frames_in t es + frames_if t e
unfolding frames_in
frames_in-snoc [] e t = omega arith
frames_in-snoc (x ∷ es) e t = let rest = frames_in-snoc es e t in omega (arith, rest)

-- The count of a track that exists grows, and no other does.
get_or-bump :
    (os : List ℕ) (track by t : ℕ)
    → track < length os
    → get_or (bump os track by) t 0 ≡ get_or os t 0 + (if track == t then by else 0)
get_or-bump [] track by t h = absurd (omega arith)
get_or-bump (o ∷ os) zero by zero h = refl
get_or-bump (o ∷ os) zero by (suc t) h = grind arith
get_or-bump (o ∷ os) (suc track) by zero h = grind arith
get_or-bump (o ∷ os) (suc track) by (suc t) h =
    let rest = get_or-bump os track by t (omega arith) in grind (arith, rest)

length-bump : (os : List ℕ) (track by : ℕ) → length (bump os track by) ≡ length os
length-bump [] track by = refl
length-bump (o ∷ os) zero by = refl
length-bump (o ∷ os) (suc track) by = ap suc (length-bump os track by)

pub position-lt : (number : ℕ) (ns : List ℕ) {i : ℕ} → position number ns ≡ some i → i < length ns
unfolding position
position-lt number [] e = cc
position-lt number (n ∷ ns) {i} e =
    by_place (n == number) (position number ns) e (λ j q. position-lt number ns q)
  where
    by_place :
        (here : Bool) (later : Option ℕ)
        → (if here then some 0 else elim later [ none ↦ none | some i ↦ some (suc i) ]) ≡ some i
        → ((j : ℕ) → later ≡ some j → j < length ns)
        → i < suc (length ns)
    by_place true later h rest = ground (arith, h)
    by_place false none h rest = cc
    by_place false (some j) h rest = ground (arith, h, rest j refl)

-- What a scan has counted: every entry has its number, and the next frames of all tracks have theirs.
pub record IsCounted (ordinals numbers : List ℕ) (index : List SeekEntry) : Type 0 where
  pub entries : Counted (λ t. 0) index
  pub next : (t : ℕ) → get_or ordinals t 0 ≡ frames_in t index
  pub room : length ordinals ≡ length numbers

-- A block goes into the index.
pub bump-IsCounted :
    (ordinals numbers : List ℕ) (index : List SeekEntry) (e : SeekEntry)
    → IsCounted ordinals numbers index
    → e.track < length numbers
    → e.ordinal ≡ get_or ordinals e.track 0
    → IsCounted (bump ordinals e.track e.frames) numbers (index ++ (e ∷ []))
bump-IsCounted ordinals numbers index e h known ordinal = record {
  entries = Counted-snoc index (λ t. 0) e h.entries (omega (arith, ordinal, h.next e.track));
  next = λ t.
      get_or-bump ordinals e.track e.frames t (omega (arith, h.room))
      ∙ ap (λ (n : ℕ). n + frames_if t e) (h.next t)
      ∙ sym (frames_in-snoc index e t);
  room = length-bump ordinals e.track e.frames ∙ h.room;
}
