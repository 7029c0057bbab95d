-- ===== src/Base/Bits.antt =====
-- Bounds on a bitwise or, as the code uses it to fill the bits below the highest one.
use Prim.Native.Nat.{ℕ, zero, suc, ◌+◌, ◌-◌, ◌*◌, ◌/◌, ◌%◌, ◌^◌, ◌≤◌, ◌<◌, max, bit_or, digits}
use Prim.Native.Nat.{bit_or-bitwise}
use mathlib.Core.Path.{◌≡◌, refl, sym}
use native.Mathlib.Omega.{arith}
use native.Mathlib.Nat.{pow-suc, pow-succ', div-div-eq-div-mul}

abbrev or_digits : ℕ → ℕ → ℕ → ℕ
or_digits n a b = digits (λ b. b) max n a b

or_digits_fuel : (n m a b : ℕ) → a ≤ n → a ≤ m → or_digits n a b ≡ or_digits m a b
or_digits_fuel zero zero a b p q = refl
or_digits_fuel zero (suc m) zero b p q = refl
or_digits_fuel zero (suc m) (suc a) b p q = absurd (omega arith)
or_digits_fuel (suc n) zero zero b p q = refl
or_digits_fuel (suc n) zero (suc a) b p q = absurd (omega arith)
or_digits_fuel (suc n) (suc m) zero b p q = refl
or_digits_fuel (suc n) (suc m) (suc a) b p q =
    omega (arith, or_digits_fuel n m (suc a / 2) (b / 2) (omega arith) (omega arith))

zero-bit_or : (b : ℕ) → bit_or 0 b ≡ b
zero-bit_or b = bit_or-bitwise 0 b

-- The law for the lowest digit.
pub bit_or_step : (a b : ℕ) → bit_or a b ≡ bit_or (a / 2) (b / 2) * 2 + max (a % 2) (b % 2)
bit_or_step zero b = omega (arith, zero-bit_or b, zero-bit_or (b / 2))
bit_or_step (suc a) b = omega (
  arith,
  bit_or-bitwise (suc a) b,
  bit_or-bitwise (suc a / 2) (b / 2),
  or_digits_fuel a (suc a / 2) (suc a / 2) (b / 2) (omega arith) (omega arith),
)

le-bit_or_fuel : (n a b : ℕ) → a ≤ n → a ≤ bit_or a b
le-bit_or_fuel n zero b h = omega arith
le-bit_or_fuel zero (suc a) b h = absurd (omega arith)
le-bit_or_fuel (suc n) (suc a) b h =
    omega (arith, bit_or_step (suc a) b, le-bit_or_fuel n (suc a / 2) (b / 2) (omega arith))

pub le-bit_or : (a b : ℕ) → a ≤ bit_or a b
le-bit_or a b = le-bit_or_fuel a a b (omega arith)

-- An or of two numbers of `k` bits has `k` bits.
pub bit_or-lt_pow : (k a b : ℕ) → a < 2 ^ k → b < 2 ^ k → bit_or a b < 2 ^ k
bit_or-lt_pow zero a b p q =
    let ea : a ≡ 0 = omega arith in
    let eb : b ≡ 0 = omega arith in rw (ea, eb) (omega (arith, zero-bit_or 0))
bit_or-lt_pow (suc k) a b p q =
    let e : 2 ^ suc k ≡ 2 ^ k * 2 = pow-suc 2 k in
    omega (
      arith,
      e,
      bit_or_step a b,
      bit_or-lt_pow k (a / 2) (b / 2) (omega (arith, e)) (omega (arith, e)),
    )

pub bit_or_zero : (k a : ℕ) → a < 2 ^ k → bit_or a 0 ≡ a
bit_or_zero zero a h = let e : a ≡ 0 = omega arith in rw e (zero-bit_or 0)
bit_or_zero (suc k) a h =
    omega (arith, pow-suc 2 k, bit_or_step a 0, bit_or_zero k (a / 2) (omega (arith, pow-suc 2 k)))

pub pow_pos : (k : ℕ) → 0 < 2 ^ k
pow_pos zero = omega arith
pow_pos (suc k) = omega (arith, pow-suc 2 k, pow_pos k)

pub pow-add : (a b : ℕ) → 2 ^ (a + b) ≡ 2 ^ a * 2 ^ b
pow-add a zero = let e : a + 0 ≡ a = omega arith in rw e (omega arith)
pow-add a (suc b) =
    let e : a + suc b ≡ suc (a + b) = omega arith in
    rw e (grind (arith, pow-suc 2 (a + b), pow-suc 2 b, pow-add a b))

-- Division by a power of two, one bit at a time.
pub div-pow_suc : (s a : ℕ) → a / 2 ^ suc s ≡ a / 2 / 2 ^ s
div-pow_suc s a = rw (pow-succ' 2 s) (sym (div-div-eq-div-mul a 2 (2 ^ s)))

half-bit_or : (a b : ℕ) → bit_or a b / 2 ≡ bit_or (a / 2) (b / 2)
half-bit_or a b = omega (arith, bit_or_step a b)

pub bit_or-div_pow : (s a b : ℕ) → bit_or a b / 2 ^ s ≡ bit_or (a / 2 ^ s) (b / 2 ^ s)
bit_or-div_pow zero a b =
    let ea : a / 1 ≡ a = omega arith in
    let eb : b / 1 ≡ b = omega arith in rw (ea, eb) (omega arith)
bit_or-div_pow (suc s) a b =
    rw (div-pow_suc s (bit_or a b), div-pow_suc s a, div-pow_suc s b, half-bit_or a b)
      (bit_or-div_pow s (a / 2) (b / 2))

-- A number whose highest `j` bits are ones, or'ed with `t` ones, has `j + t` ones.
pub bit_or_ones :
    (t j a b : ℕ) → a / 2 ^ t ≡ 2 ^ j - 1 → b ≡ 2 ^ t - 1 → bit_or a b ≡ 2 ^ (j + t) - 1
bit_or_ones zero j a b ea eb =
    let below : a < 2 ^ j = omega (arith, pow_pos j) in
    let none_left : b ≡ 0 = omega arith in
    let e : j + 0 ≡ j = omega arith in rw (none_left, e) (omega (arith, bit_or_zero j a below))
bit_or_ones (suc t) j a b ea eb =
    let e : j + suc t ≡ suc (j + t) = omega arith in
    rw e (
      omega (
        arith,
        bit_or_step a b,
        pow-suc 2 (j + t),
        pow-suc 2 t,
        pow_pos t,
        pow_pos (j + t),
        bit_or_ones t j (a / 2) (b / 2) (omega (arith, div-pow_suc t a))
            (omega (arith, pow-suc 2 t, pow_pos t)),
      ))
