-- ===== src/Prelude/Bits.antt =====
-- Masks and disjoint `|` as arithmetic, at every width.
use Prim.Native.Nat.{digits, bit_and-bitwise, bit_or-bitwise}
use native.Mathlib.Nat.{pow-suc, one-le-pow}
use zenextras.Prelude.{ltb, if◌then◌else◌, ◌==◌, Bool-cases, inl, inr}
use zenextras.Prelude.{ℕ, zero, suc, ◌+◌, ◌-◌, ◌*◌, ◌/◌, ◌%◌, ◌^◌, ◌≤◌, ◌<◌, min, max}
use zenextras.Prelude.{bit_and, bit_or, ◌≡◌, refl, ap, arith, Bool, true, ◌&&◌}

-- A test of every number below a bound, and what it says of one of them.
unfoldable pub all_below : ℕ → (ℕ → Bool) → Bool
all_below zero test = true
all_below (suc bound) test = all_below bound test && test bound

pub all_below_sound :
    (bound : ℕ) (test : ℕ → Bool) (v : ℕ) → all_below bound test ≡ true → v < bound → test v ≡ true
unfolding all_below
all_below_sound (suc bound) test v passed inside = ground (arith, all_below_sound bound test v)
all_below_sound zero test v passed inside = absurd (omega arith)

-- The native operations are recursions on binary digits, with the first operand for fuel.
module _ (only_right : ℕ → ℕ) (digit : ℕ → ℕ → ℕ) where
  abbrev on_digits : ℕ → ℕ → ℕ → ℕ
  on_digits fuel a b = digits only_right digit fuel a b

  enough : (f g a b : ℕ) → a ≤ f → a ≤ g → on_digits f a b ≡ on_digits g a b
  enough f g zero b hf hg = both_zero f g
    where
      both_zero : (f g : ℕ) → on_digits f 0 b ≡ on_digits g 0 b
      both_zero zero zero = refl
      both_zero zero (suc g) = refl
      both_zero (suc f) zero = refl
      both_zero (suc f) (suc g) = refl
  enough zero g (suc a) b hf hg = absurd (omega arith)
  enough (suc f) zero (suc a) b hf hg = absurd (omega arith)
  enough (suc f) (suc g) (suc a) b hf hg =
      let half = enough f g (suc a / 2) (b / 2) (omega arith) (omega arith) in
      ap (λ (t : ℕ). t * 2 + digit (suc a % 2) (b % 2)) half

pub bit_or_step : (x y : ℕ) → bit_or x y ≡ max (x % 2) (y % 2) + 2 * bit_or (x / 2) (y / 2)
bit_or_step (suc x) y = omega (
  arith,
  enough (λ d. d) max x (suc x / 2) (suc x / 2) (y / 2) (omega arith) (omega arith),
  bit_or-bitwise (suc x / 2) (y / 2),
  bit_or-bitwise (suc x) y,
)
bit_or_step zero y = omega (arith, bit_or-bitwise 0 (y / 2), bit_or-bitwise 0 y)

-- The last digits, and the rest of both.
pub bit_and_step : (x y : ℕ) → bit_and x y ≡ min (x % 2) (y % 2) + 2 * bit_and (x / 2) (y / 2)
bit_and_step (suc x) y = omega (
  arith,
  enough (λ d. 0) min x (suc x / 2) (suc x / 2) (y / 2) (omega arith) (omega arith),
  bit_and-bitwise (suc x / 2) (y / 2),
  bit_and-bitwise (suc x) y,
)
bit_and_step zero y = omega (arith, bit_and-bitwise 0 (y / 2), bit_and-bitwise 0 y)

by_halves_or : (n a : ℕ) → a ≤ n → bit_or a 0 ≡ a
by_halves_or n zero h = refl
by_halves_or zero (suc a) h = absurd (omega arith)
by_halves_or (suc n) (suc a) h =
    omega (arith, bit_or_step (suc a) 0, by_halves_or n (suc a / 2) (omega arith))

by_halves_and : (n a : ℕ) → a ≤ n → bit_and a 0 ≡ 0
by_halves_and n zero h = refl
by_halves_and zero (suc a) h = absurd (omega arith)
by_halves_and (suc n) (suc a) h =
    omega (arith, bit_and_step (suc a) 0, by_halves_and n (suc a / 2) (omega arith))

double : (q k : ℕ) → q * 2 ^ suc k ≡ 2 * (q * 2 ^ k)
double q k = omega (arith, ap (λ (t : ℕ). q * t) (pow-suc 2 k))

-- `(q << k) | r` is a sum where `r` fits in the `k` bits that the shift cleared.
pub bit_or_disjoint : (k q r : ℕ) → r < 2 ^ k → bit_or (q * 2 ^ k) r ≡ q * 2 ^ k + r
bit_or_disjoint zero q r h = ground (arith, by_halves_or q q)
bit_or_disjoint (suc k) q r h =
    ground (arith, bit_or_step (q * 2 ^ suc k) r, double q k, bit_or_disjoint k q (r / 2))

-- `x & ((1 << k) - 1)` keeps the low `k` bits.
pub bit_and_low : (k q r : ℕ) → r < 2 ^ k → bit_and (q * 2 ^ k + r) (2 ^ k - 1) ≡ r
bit_and_low zero q r h = ground (arith, by_halves_and (q * 1 + r) (q * 1 + r))
bit_and_low (suc k) q r h = ground (
  arith,
  bit_and_step (q * 2 ^ suc k + r) (2 ^ suc k - 1),
  double q k,
  pow-suc 2 k,
  one-le-pow k 2,
  bit_and_low k q (r / 2),
)

pub bit_and-mod : (k a : ℕ) → bit_and a (2 ^ k - 1) ≡ a % 2 ^ k
bit_and-mod k a = ground (arith, one-le-pow k 2, bit_and_low k (a / 2 ^ k) (a % 2 ^ k))

-- The place of the highest bit of a positive number, below `2 ^ (fuel + 1)`.
abbrev pub log_2 : ℕ → ℕ → ℕ
log_2 zero v = 0
log_2 (suc fuel) v = let rest = log_2 fuel (v / 2) in if ltb v 2 then 0 else suc rest

-- Nothing but zeros joins to zero.
by_halves_zero : (n a b : ℕ) → a + b ≤ n → bit_or a b ≡ 0 → a + b ≡ 0
by_halves_zero zero a b h e = omega arith
by_halves_zero (suc n) a b h e = elim (Bool-cases (a + b == 0)) [
  | inl none_set ↦ ground (arith, none_set)
  | inr some_set ↦
      let step = bit_or_step a b in
      let fewer : a / 2 + b / 2 ≤ n = ground (arith, some_set) in
      let halves : bit_or (a / 2) (b / 2) ≡ 0 = omega (arith, step) in
      let rest = by_halves_zero n (a / 2) (b / 2) fewer halves in grind (arith, step, rest)
]

pub bit_or-zero : (a b : ℕ) → bit_or a b ≡ 0 → (a ≡ 0) × (b ≡ 0)
bit_or-zero a b e =
    let none_set = by_halves_zero (a + b) a b (omega arith) e in (omega arith, omega arith)

pub bit_or-zeros : bit_or 0 0 ≡ 0
bit_or-zeros = refl
