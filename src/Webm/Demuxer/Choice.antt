-- ===== src/Webm/Demuxer/Choice.antt =====
-- What a seek chooses: the best of the blocks that it may, or that there is none.
use zenextras.Prelude.{Bool, true, false, List, [], ◌∷◌}
use zenextras.Prelude.{if◌then◌else◌, Bool-cases}
use zenextras.Prelude.{◌≡◌, refl, sym, ◌⊎◌, inl, inr, arith, subst}
use zenextras.Prelude.Int.{ℤ}
use zenextras.Webm.Demuxer.State.{SeekEntry}
use zenextras.Webm.Demuxer.Picking.{value, earlier, nearer, least_from, greatest_from}

abbrev pub IsIn : SeekEntry → List SeekEntry → Type 0
IsIn e [] = ⊥
IsIn e (x ∷ xs) = (e ≡ x) ⊎ IsIn e xs

abbrev pub Less : Type 0
Less = SeekEntry → SeekEntry → Bool

-- What a strict order keeps: not being less is transitive, and nothing is less both ways.
pub record IsOrder (less : Less) : Type 0 where
  chain : (a b c : SeekEntry) → less a b ≡ false → less b c ≡ false → less a c ≡ false
  one_way : (a b : SeekEntry) → less a b ≡ true → less b a ≡ false

irreflexive : (less : Less) → IsOrder less → (a : SeekEntry) → less a a ≡ false
irreflexive less o a = elim (Bool-cases (less a a)) [ inl t ↦ o.one_way a a t | inr f ↦ f ]

-- The entry `r` is one of those given, and none of them is less.
abbrev pub IsLeast : Less → SeekEntry → List SeekEntry → Type 0
IsLeast less r es = IsIn r es × ((c : SeekEntry) → IsIn c es → less c r ≡ false)

abbrev pub IsGreatest : Less → SeekEntry → List SeekEntry → Type 0
IsGreatest less r es = IsIn r es × ((c : SeekEntry) → IsIn c es → less r c ≡ false)

-- The choice between two entries, `best` and `e`, in front of the others.
IsLeast-of_two :
    (less : Less) (best e r : SeekEntry) (es : List SeekEntry)
    → IsOrder less
    → IsLeast less r ((if less e best then e else best) ∷ es)
    → IsLeast less r (best ∷ e ∷ es)
IsLeast-of_two less best e r es o h = by_test (less e best) refl h
  where
    by_test :
        (b : Bool)
        → less e best ≡ b
        → IsLeast less r ((if b then e else best) ∷ es)
        → IsLeast less r (best ∷ e ∷ es)
    by_test true t (inside, none_less) = (
      elim inside [ inl x ↦ inr (inl x) | inr x ↦ inr (inr x) ],
      λ c i. elim i [
        | inl x ↦
            o.chain c e r (subst (λ (y : SeekEntry). less y e ≡ false) (sym x) (o.one_way e best t))
              (none_less e (inl refl))
        | inr (inl x) ↦ none_less c (inl x)
        | inr (inr x) ↦ none_less c (inr x)
      ],
    )
    by_test false f (inside, none_less) = (
      elim inside [ inl x ↦ inl x | inr x ↦ inr (inr x) ],
      λ c i. elim i [
        | inl x ↦ none_less c (inl x)
        | inr (inl x) ↦
            o.chain c best r (subst (λ (y : SeekEntry). less y best ≡ false) (sym x) f)
              (none_less best (inl refl))
        | inr (inr x) ↦ none_less c (inr x)
      ],
    )

IsGreatest-of_two :
    (less : Less) (best e r : SeekEntry) (es : List SeekEntry)
    → IsOrder less
    → IsGreatest less r ((if less e best then best else e) ∷ es)
    → IsGreatest less r (best ∷ e ∷ es)
IsGreatest-of_two less best e r es o h = by_test (less e best) refl h
  where
    by_test :
        (b : Bool)
        → less e best ≡ b
        → IsGreatest less r ((if b then best else e) ∷ es)
        → IsGreatest less r (best ∷ e ∷ es)
    by_test true t (inside, none_more) = (
      elim inside [ inl x ↦ inl x | inr x ↦ inr (inr x) ],
      λ c i. elim i [
        | inl x ↦ none_more c (inl x)
        | inr (inl x) ↦
            o.chain r best c (none_more best (inl refl))
              (subst (λ (y : SeekEntry). less best y ≡ false) (sym x) (o.one_way e best t))
        | inr (inr x) ↦ none_more c (inr x)
      ],
    )
    by_test false f (inside, none_more) = (
      elim inside [ inl x ↦ inr (inl x) | inr x ↦ inr (inr x) ],
      λ c i. elim i [
        | inl x ↦
            o.chain r e c (none_more e (inl refl))
              (subst (λ (y : SeekEntry). less e y ≡ false) (sym x) f)
        | inr (inl x) ↦ none_more c (inl x)
        | inr (inr x) ↦ none_more c (inr x)
      ],
    )

pub least_from-IsLeast :
    (es : List SeekEntry) (less : Less) (best : SeekEntry)
    → IsOrder less
    → IsLeast less (least_from less best es) (best ∷ es)
unfolding least_from
least_from-IsLeast [] less best o = (
  inl refl,
  λ c i. elim i [
    | inl x ↦ subst (λ (y : SeekEntry). less y best ≡ false) (sym x) (irreflexive less o best)
    | inr x ↦ absurd x
  ],
)
least_from-IsLeast (e ∷ es) less best o =
    IsLeast-of_two less best e _ es o
      (least_from-IsLeast es less (if less e best then e else best) o)

pub greatest_from-IsGreatest :
    (es : List SeekEntry) (less : Less) (best : SeekEntry)
    → IsOrder less
    → IsGreatest less (greatest_from less best es) (best ∷ es)
unfolding greatest_from
greatest_from-IsGreatest [] less best o = (
  inl refl,
  λ c i. elim i [
    | inl x ↦ subst (λ (y : SeekEntry). less best y ≡ false) (sym x) (irreflexive less o best)
    | inr x ↦ absurd x
  ],
)
greatest_from-IsGreatest (e ∷ es) less best o =
    IsGreatest-of_two less best e _ es o
      (greatest_from-IsGreatest es less (if less e best then best else e) o)

pub earlier-IsOrder : IsOrder earlier
earlier-IsOrder = record { chain = λ a b c p q. ground arith; one_way = λ a b t. ground arith }

pub nearer-IsOrder : (value : ℤ → ℤ) (want : ℤ) → IsOrder (nearer value want)
unfolding nearer
nearer-IsOrder value want = record {
  chain = λ a b c p q. ground arith;
  one_way = λ a b t. ground arith;
}
