-- ===== src/Prelude/Results.antt =====
-- Rust's `Result` and `Option` chains: `?` is a bind.
use mathlib.Core.Path.{◌≡◌, refl}
use mathlib.Core.Logic.{◌⊎◌, inl, inr}
use mathlib.Core.Bool.{Bool, true, false, ◌&&◌}
use mathlib.Core.Option.{Option, none, some}
use zenextras.Prelude.Tests.{if◌then◌else◌}

pub data Result {ℓ} (E : Type 0) (A : Type ℓ) : Type ℓ where
  ok : A → Result E A
  err : E → Result E A

infixl 5 ◌>>=◌ ◌>>◌
abbrev pub ◌>>=◌ {ℓ κ} :
    {E : Type 0} {A : Type ℓ} {B : Type κ} → Result E A → (A → Result E B) → Result E B
ok a >>= f = f a
err e >>= f = err e

abbrev pub ◌>>◌ {ℓ} : {E : Type 0} {B : Type ℓ} → Result E (Unit {0}) → Result E B → Result E B
m >> k = m >>= λ _. k

-- `if bad { return Err(e) }`
abbrev pub refuse : {E : Type 0} → Bool → E → Result E (Unit {0})
refuse true e = err e
refuse false e = ok tt

-- `o.ok_or(e)?`
abbrev pub ok_or {ℓ} : {E : Type 0} {A : Type ℓ} → Option A → E → Result E A
ok_or none e = err e
ok_or (some a) e = ok a

-- `o.unwrap_or(d)`
abbrev pub unwrap_or {ℓ} : {A : Type ℓ} → Option A → A → A
unwrap_or none d = d
unwrap_or (some a) d = a

-- Inversion of a bind: both of its parts succeed.
pub >>=-eq-ok {ℓ κ} :
    {E : Type 0} {A : Type ℓ} {B : Type κ} (first : Result E A) (next : A → Result E B) {out : B}
    → (first >>= next) ≡ ok out
    → (x : A) × (first ≡ ok x) × (next x ≡ ok out)
>>=-eq-ok (err x) next done = cc
>>=-eq-ok (ok x) next done = (x, refl, done)

pub refuse-eq-ok {ℓ} :
    {E : Type 0} {B : Type ℓ} (c : Bool) (e : E) (k : Result E B) {b : B}
    → (refuse c e >> k) ≡ ok b
    → (c ≡ false) × (k ≡ ok b)
refuse-eq-ok true e k h = cc
refuse-eq-ok false e k h = (refl, h)

pub ok_or-eq-ok {ℓ} :
    {E : Type 0} {A : Type ℓ} (o : Option A) (e : E) {a : A} → ok_or o e ≡ ok a → o ≡ some a
ok_or-eq-ok none e h = cc
ok_or-eq-ok (some a) e h = cc

pub Result-cases {ℓ} :
    {E : Type 0} {A : Type ℓ} (r : Result E A) → ((a : A) × (r ≡ ok a)) ⊎ ((e : E) × (r ≡ err e))
Result-cases (ok a) = inl (a, refl)
Result-cases (err e) = inr (e, refl)

pub ok-injective {ℓ} :
    {E : Type 0} {A : Type ℓ} {a b : A} → ◌≡◌ {A = Result E A} (ok a) (ok b) → a ≡ b
ok-injective e = cc

-- Inversion of an early return.
pub if_err-eq-ok {ℓ} :
    {E : Type 0} {A : Type ℓ} (b : Bool) (x : E) (k : Result E A) {a : A}
    → (if b then err x else k) ≡ ok a
    → (b ≡ false) × (k ≡ ok a)
if_err-eq-ok true x k e = cc
if_err-eq-ok false x k e = (refl, e)

pub if_some-eq-some {ℓ} :
    {A : Type ℓ} (b : Bool) (x : A) {a : A}
    → (if b then some x else none) ≡ some a
    → (b ≡ true) × (x ≡ a)
if_some-eq-some true x e = (refl, cc)
if_some-eq-some false x e = cc

pub &&-true : (a b : Bool) → (a && b) ≡ true → (a ≡ true) × (b ≡ true)
&&-true true b e = (refl, e)
&&-true false b e = cc
