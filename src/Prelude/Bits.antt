-- ===== src/Prelude/Bits.antt =====
-- `&` and `|` at variables: the law of the lowest digit, masks of low bits, shifted masks, and `|` of
-- disjoint fields.
use Prim.Native.Nat.{min, max, digits, bitwise, bit_and-bitwise, bit_or-bitwise}
use Prim.Native.Nat.{ℕ, zero, suc, ◌+◌, ◌-◌, ◌*◌, ◌/◌, ◌%◌, ◌^◌, ◌≤◌, ◌<◌, bit_and, bit_or}
use mathlib.Core.Path.{◌≡◌, refl, ap}
use native.Mathlib.Nat.{pow-suc, one-le-pow}
use native.Mathlib.Omega.{arith}

-- The fuel of the definition does not matter once it is `a` or more.
module _ (z : ℕ → ℕ) (f : ℕ → ℕ → ℕ) where
  any_fuel : (bound a b n m : ℕ) → a ≤ bound → a ≤ n → a ≤ m → digits z f n a b ≡ digits z f m a b
  any_fuel bound zero b zero zero h p q = refl
  any_fuel bound zero b zero (suc m) h p q = refl
  any_fuel bound zero b (suc n) zero h p q = refl
  any_fuel bound zero b (suc n) (suc m) h p q = refl
  any_fuel zero (suc a) b n m h p q = absurd (omega arith)
  any_fuel (suc bound) (suc a) b zero m h p q = absurd (omega arith)
  any_fuel (suc bound) (suc a) b (suc n) zero h p q = absurd (omega arith)
  any_fuel (suc bound) (suc a) b (suc n) (suc m) h p q =
      ap (λ (t : ℕ). t * 2 + f (suc a % 2) (b % 2))
        (any_fuel bound (suc a / 2) (b / 2) n m (omega arith) (omega arith) (omega arith))

  pub lowest_digit :
      (a b : ℕ)
      → bitwise z f (suc a) b ≡ bitwise z f (suc a / 2) (b / 2) * 2 + f (suc a % 2) (b % 2)
  lowest_digit a b =
      ap (λ (t : ℕ). t * 2 + f (suc a % 2) (b % 2))
        (any_fuel (suc a) (suc a / 2) (b / 2) a (suc a / 2) (omega arith) (omega arith)
          (omega arith))

pub zero-and : (b : ℕ) → bit_and 0 b ≡ 0
zero-and b = bit_and-bitwise 0 b

pub zero-or : (b : ℕ) → bit_or 0 b ≡ b
zero-or b = bit_or-bitwise 0 b

pub and_digit : (a b : ℕ) → bit_and a b ≡ 2 * bit_and (a / 2) (b / 2) + min (a % 2) (b % 2)
and_digit zero b = omega (arith, zero-and b, zero-and (b / 2))
and_digit (suc a) b = omega (
  arith,
  bit_and-bitwise (suc a) b,
  bit_and-bitwise (suc a / 2) (b / 2),
  lowest_digit (λ _. 0) min a b,
)

pub or_digit : (a b : ℕ) → bit_or a b ≡ 2 * bit_or (a / 2) (b / 2) + max (a % 2) (b % 2)
or_digit zero b = omega (arith, zero-or b, zero-or (b / 2))
or_digit (suc a) b = omega (
  arith,
  bit_or-bitwise (suc a) b,
  bit_or-bitwise (suc a / 2) (b / 2),
  lowest_digit (λ y. y) max a b,
)

or-zero_below : (bound a : ℕ) → a ≤ bound → bit_or a 0 ≡ a
or-zero_below bound zero h = refl
or-zero_below zero (suc a) h = absurd (omega arith)
or-zero_below (suc bound) (suc a) h =
    omega (arith, or_digit (suc a) 0, or-zero_below bound (suc a / 2) (omega arith))

pub or-zero : (a : ℕ) → bit_or a 0 ≡ a
or-zero a = or-zero_below a a (omega arith)

and-zero_below : (bound a : ℕ) → a ≤ bound → bit_and a 0 ≡ 0
and-zero_below bound zero h = refl
and-zero_below zero (suc a) h = absurd (omega arith)
and-zero_below (suc bound) (suc a) h =
    omega (arith, and_digit (suc a) 0, and-zero_below bound (suc a / 2) (omega arith))

pub and-zero : (a : ℕ) → bit_and a 0 ≡ 0
and-zero a = and-zero_below a a (omega arith)

double_pow : (q k : ℕ) → q * 2 ^ suc k ≡ 2 * (q * 2 ^ k)
double_pow q k = omega (arith, ap (λ (t : ℕ). q * t) (pow-suc 2 k))

-- A field above `k` bits and one within them do not meet.
pub or_disjoint : (k q r : ℕ) → r < 2 ^ k → bit_or (q * 2 ^ k) r ≡ q * 2 ^ k + r
or_disjoint zero q r h = ground (arith, or-zero q)
or_disjoint (suc k) q r h = ground (
  arith,
  or_digit (q * 2 ^ suc k) r,
  double_pow q k,
  or_disjoint k q (r / 2) (omega (arith, pow-suc 2 k)),
)

-- A mask of `k` ones, over a field above them and one within them.
and_ones : (k q r : ℕ) → r < 2 ^ k → bit_and (q * 2 ^ k + r) (2 ^ k - 1) ≡ r
and_ones zero q r h = ground (arith, and-zero (q * 1 + r))
and_ones (suc k) q r h = ground (
  arith,
  and_digit (q * 2 ^ suc k + r) (2 ^ suc k - 1),
  double_pow q k,
  pow-suc 2 k,
  and_ones k q (r / 2) (omega (arith, pow-suc 2 k)),
)

-- `a & (2 ^ k - 1)` is the remainder by `2 ^ k`.
pub and_mask : (k a : ℕ) → bit_and a (2 ^ k - 1) ≡ a % 2 ^ k
and_mask k a = ground (arith, one-le-pow k 2, and_ones k (a / 2 ^ k) (a % 2 ^ k))

-- A mask of zeros below acts on the bits above them.
and_above : (j q r m : ℕ) → r < 2 ^ j → bit_and (q * 2 ^ j + r) (m * 2 ^ j) ≡ bit_and q m * 2 ^ j
and_above zero q r m h =
    let field : q * 1 + r ≡ q = omega arith in
    let mask : m * 1 ≡ m = omega arith in rw (field, mask) (omega arith)
and_above (suc j) q r m h = ground (
  arith,
  and_digit (q * 2 ^ suc j + r) (m * 2 ^ suc j),
  double_pow q j,
  double_pow m j,
  double_pow (bit_and q m) j,
  and_above j q (r / 2) m (omega (arith, pow-suc 2 j)),
)

pub and_shifted : (j a m : ℕ) → bit_and a (m * 2 ^ j) ≡ bit_and (a / 2 ^ j) m * 2 ^ j
and_shifted j a m = ground (arith, one-le-pow j 2, and_above j (a / 2 ^ j) (a % 2 ^ j) m)
