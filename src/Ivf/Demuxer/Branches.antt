-- ===== src/Ivf/Demuxer/Branches.antt =====
-- What holds of an outcome, branch by branch.
use zenextras.Prelude.{Bool, true, false, Option, none, some, Result, ok, err, if◌then◌else◌}
use zenextras.Ivf.Types.{SessionError}
use zenextras.Ivf.Reading.{Outcome}

module _ (P : Outcome → Type 0) where
  pub either : (b : Bool) {x y : Outcome} → P x → P y → P (if b then x else y)
  either true k k' = k
  either false k k' = k'

  pub on_option :
      {A : Type 0} (o : Option A) {x : Outcome} {f : A → Outcome}
      → P x
      → ((a : A) → P (f a))
      → P (elim o [ none ↦ x | some a ↦ f a ])
  on_option none k k' = k
  on_option (some a) k k' = k' a

  pub on_result :
      {A : Type 0} (r : Result SessionError A) {f : SessionError → Outcome} {g : A → Outcome}
      → ((e : SessionError) → P (f e))
      → ((a : A) → P (g a))
      → P (elim r [ err e ↦ f e | ok a ↦ g a ])
  on_result (err e) k k' = k e
  on_result (ok a) k k' = k' a
