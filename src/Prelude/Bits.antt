-- ===== src/Prelude/Bits.antt =====
-- The binary operations at variables, from the recursion on digits that they stand for.
use Prim.Native.Nat.{ℕ, zero, suc, ◌+◌, ◌-◌, ◌*◌, ◌/◌, ◌%◌, ◌^◌, ◌≤◌, ◌<◌, min, max, differ, digits}
use Prim.Native.Nat.{bit_and, bit_or, bit_xor, bit_and-bitwise, bit_or-bitwise, bit_xor-bitwise}
use mathlib.Core.Path.{◌≡◌, refl, ap}
use native.Mathlib.Nat.{pow-suc}
use native.Mathlib.Omega.{arith}

-- Fuel beyond the first number changes nothing.
module _ (z : ℕ → ℕ) (f : ℕ → ℕ → ℕ) where
  digits_enough : (n m a b : ℕ) → a ≤ n → a ≤ m → digits z f n a b ≡ digits z f m a b
  digits_enough zero zero a b p q = refl
  digits_enough zero (suc m) zero b p q = refl
  digits_enough zero (suc m) (suc a) b p q = absurd (omega arith)
  digits_enough (suc n) zero zero b p q = refl
  digits_enough (suc n) zero (suc a) b p q = absurd (omega arith)
  digits_enough (suc n) (suc m) zero b p q = refl
  digits_enough (suc n) (suc m) (suc a) b p q =
      rw (digits_enough n m (suc a / 2) (b / 2) (omega arith) (omega arith))

  digits-suc :
      (a b : ℕ)
      → digits z f (suc a) (suc a) b
        ≡ digits z f (suc a / 2) (suc a / 2) (b / 2) * 2 + f (suc a % 2) (b % 2)
  digits-suc a b =
      omega (arith, digits_enough a (suc a / 2) (suc a / 2) (b / 2) (omega arith) (omega arith))

-- One binary digit of each operation.
pub bit_and_digit : (a b : ℕ) → bit_and a b ≡ bit_and (a / 2) (b / 2) * 2 + min (a % 2) (b % 2)
bit_and_digit zero b = simp bit_and-bitwise (omega arith)
bit_and_digit (suc a) b = simp bit_and-bitwise (digits-suc (λ y. 0) min a b)

pub bit_or_digit : (a b : ℕ) → bit_or a b ≡ bit_or (a / 2) (b / 2) * 2 + max (a % 2) (b % 2)
bit_or_digit zero b = simp bit_or-bitwise (omega arith)
bit_or_digit (suc a) b = simp bit_or-bitwise (digits-suc (λ y. y) max a b)

differ_zero : (y : ℕ) → differ 0 y ≡ y
differ_zero y = refl

pub bit_xor_digit : (a b : ℕ) → bit_xor a b ≡ bit_xor (a / 2) (b / 2) * 2 + differ (a % 2) (b % 2)
bit_xor_digit zero b = simp bit_xor-bitwise (omega arith)
bit_xor_digit (suc a) b = simp bit_xor-bitwise (digits-suc (λ y. y) differ a b)

differ-eq-zero : (x y : ℕ) → differ x y ≡ 0 → x ≡ y
differ-eq-zero zero zero h = refl
differ-eq-zero zero (suc y) h = absurd (omega arith)
differ-eq-zero (suc x) zero h = absurd (omega arith)
differ-eq-zero (suc x) (suc y) h = ap suc (differ-eq-zero x y h)

differ_self : (x : ℕ) → differ x x ≡ 0
differ_self zero = refl
differ_self (suc x) = differ_self x

-- The bound `n` only carries the induction: each step halves both numbers.
or_zero_below : (n a b : ℕ) → a ≤ n → b ≤ n → bit_or a b ≡ 0 → (a ≡ 0) × (b ≡ 0)
or_zero_below zero a b ha hb h = omega arith
or_zero_below (suc n) a b ha hb h = omega (
  arith,
  bit_or_digit a b,
  or_zero_below n (a / 2) (b / 2) (omega arith) (omega arith) (omega (arith, bit_or_digit a b)),
)

pub bit_or-eq-zero : (a b : ℕ) → bit_or a b ≡ 0 → (a ≡ 0) × (b ≡ 0)
bit_or-eq-zero a b h = or_zero_below (a + b) a b (omega arith) (omega arith) h

xor_zero_below : (n a b : ℕ) → a ≤ n → b ≤ n → bit_xor a b ≡ 0 → a ≡ b
xor_zero_below zero a b ha hb h = omega arith
xor_zero_below (suc n) a b ha hb h = omega (
  arith,
  xor_zero_below n (a / 2) (b / 2) (omega arith) (omega arith) (omega (arith, bit_xor_digit a b)),
  differ-eq-zero (a % 2) (b % 2) (omega (arith, bit_xor_digit a b)),
)

pub bit_xor-eq-zero : (a b : ℕ) → bit_xor a b ≡ 0 → a ≡ b
bit_xor-eq-zero a b h = xor_zero_below (a + b) a b (omega arith) (omega arith) h

xor_self_below : (n a : ℕ) → a ≤ n → bit_xor a a ≡ 0
xor_self_below zero zero h = refl
xor_self_below zero (suc a) h = absurd (omega arith)
xor_self_below (suc n) zero h = refl
xor_self_below (suc n) (suc a) h = omega (
  arith,
  bit_xor_digit (suc a) (suc a),
  xor_self_below n (suc a / 2) (omega arith),
  differ_self (suc a % 2),
)

pub bit_xor_self : (a : ℕ) → bit_xor a a ≡ 0
bit_xor_self a = xor_self_below a a (omega arith)

and_zero_below : (n a : ℕ) → a ≤ n → bit_and a 0 ≡ 0
and_zero_below n zero h = refl
and_zero_below zero (suc a) h = absurd (omega arith)
and_zero_below (suc n) (suc a) h =
    omega (arith, bit_and_digit (suc a) 0, and_zero_below n (suc a / 2) (omega arith))

pub bit_and-zero : (a : ℕ) → bit_and a 0 ≡ 0
bit_and-zero a = and_zero_below a a (omega arith)

or_zero_right : (n a : ℕ) → a ≤ n → bit_or a 0 ≡ a
or_zero_right n zero h = refl
or_zero_right zero (suc a) h = absurd (omega arith)
or_zero_right (suc n) (suc a) h =
    omega (arith, bit_or_digit (suc a) 0, or_zero_right n (suc a / 2) (omega arith))

double : (p k : ℕ) → p * 2 ^ suc k ≡ 2 * (p * 2 ^ k)
double p k = omega (arith, ap (λ (t : ℕ). p * t) (pow-suc 2 k))

-- A number split at bit `k`, masked by `p` shifted to bit `k`.
pub bit_and_high :
    (k q r p : ℕ) → r < 2 ^ k → bit_and (q * 2 ^ k + r) (p * 2 ^ k) ≡ bit_and q p * 2 ^ k
bit_and_high zero q r p h =
    let e : q * 2 ^ 0 + r ≡ q = omega arith in
    let e' : p * 2 ^ 0 ≡ p = omega arith in rw (e, e') (omega arith)
bit_and_high (suc k) q r p h = ground (
  arith,
  bit_and_digit (q * 2 ^ suc k + r) (p * 2 ^ suc k),
  double q k,
  double p k,
  double (bit_and q p) k,
  pow-suc 2 k,
  bit_and_high k q (r / 2) p,
)

-- A mask of the `k` low bits is the remainder by `2 ^ k`.
pub bit_and_low : (k q r : ℕ) → r < 2 ^ k → bit_and (q * 2 ^ k + r) (2 ^ k - 1) ≡ r
bit_and_low zero q r h = rw bit_and-zero (omega arith)
bit_and_low (suc k) q r h = ground (
  arith,
  bit_and_digit (q * 2 ^ suc k + r) (2 ^ suc k - 1),
  double q k,
  pow-suc 2 k,
  bit_and_low k q (r / 2),
)

-- Joining disjoint fields.
pub bit_or_join : (k q r : ℕ) → r < 2 ^ k → bit_or (q * 2 ^ k) r ≡ q * 2 ^ k + r
bit_or_join zero q r h = ground (arith, or_zero_right (q * 2 ^ 0) (q * 2 ^ 0))
bit_or_join (suc k) q r h =
    ground (arith, bit_or_digit (q * 2 ^ suc k) r, double q k, pow-suc 2 k, bit_or_join k q (r / 2))

-- A mask keeps no more than it has.
and_le_below : (n a b : ℕ) → a ≤ n → bit_and a b ≤ b
and_le_below n zero b h = simp bit_and-bitwise (omega arith)
and_le_below zero (suc a) b h = absurd (omega arith)
and_le_below (suc n) (suc a) b h =
    omega (arith, bit_and_digit (suc a) b, and_le_below n (suc a / 2) (b / 2) (omega arith))

pub bit_and-le : (a b : ℕ) → bit_and a b ≤ b
bit_and-le a b = and_le_below a a b (omega arith)
