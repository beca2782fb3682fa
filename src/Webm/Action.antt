-- ===== src/Webm/Action.antt =====
-- Actions on a state: an action gives the state that it leaves and its result. What was changed before a failure stays
-- changed.
use zenextras.Prelude.{Result, ok, err, ◌≡◌, refl, ap}
use zenextras.Webm.Types.{SessionError}

abbrev pub Action : Type 0 → Type 0 → Type 0
Action S A = S → S × Result SessionError A

module _ {S A B : Type 0} where
  abbrev pub continue : S × Result SessionError A → (A → Action S B) → S × Result SessionError B
  continue (m, ok a) next = next a m
  continue (m, err e) next = (m, err e)

  infixl 5 ◌>>=◌
  abbrev pub ◌>>=◌ : Action S A → (A → Action S B) → Action S B
  ◌>>=◌ first next m = continue (first m) next

infixl 5 ◌>>◌
abbrev pub ◌>>◌ : {S B : Type 0} → Action S (Unit {0}) → Action S B → Action S B
first >> next = first >>= λ _. next

module _ {S A : Type 0} where
  abbrev pub give : A → Action S A
  give a m = (m, ok a)

  abbrev pub fail : SessionError → Action S A
  fail e m = (m, err e)

  abbrev pub read : (S → A) → Action S A
  read field m = (m, ok (field m))

  -- `r?`
  abbrev pub lift : Result SessionError A → Action S A
  lift r m = (m, r)

abbrev pub change : {S : Type 0} → (S → S) → Action S (Unit {0})
change f m = (f m, ok tt)

-- What holds of a result and the state that is left, and what holds of the state after a failure.
module _ {S A : Type 0} where
  abbrev pub Ensures : (A → S → Type 0) → (S → Type 0) → S × Result SessionError A → Type 0
  Ensures done failed (m, ok a) = done a m
  Ensures done failed (m, err e) = failed m

module _ {S A B : Type 0} where
  pub continue-Ensures :
      (done : A → S → Type 0) (then_done : B → S → Type 0) (failed : S → Type 0)
      (r : S × Result SessionError A) (next : A → Action S B)
      → Ensures done failed r
      → ((a : A) (m : S) → done a m → Ensures then_done failed (next a m))
      → Ensures then_done failed (continue r next)
  continue-Ensures done then_done failed (m, ok a) next h rest = rest a m h
  continue-Ensures done then_done failed (m, err e) next h rest = h

module _ {S A B : Type 0} where
  -- A step that changes nothing, and fails or gives a value.
  pub lift-Ensures :
      (done : B → S → Type 0) (failed : S → Type 0) (r : Result SessionError A) (m : S)
      (next : A → Action S B)
      → failed m
      → ((a : A) → r ≡ ok a → Ensures done failed (next a m))
      → Ensures done failed (continue (m, r) next)
  lift-Ensures done failed (ok a) m next h rest = rest a refl
  lift-Ensures done failed (err e) m next h rest = h

module _ {S A B : Type 0} where
  -- What follows a failure is not run.
  pub continue-err :
      {m : S} {e : SessionError} (r : S × Result SessionError A) (next : A → Action S B)
      → r ≡ (m, err e)
      → continue r next ≡ (m, err e)
  continue-err r next h = ap (λ (t : S × Result SessionError A). continue t next) h
