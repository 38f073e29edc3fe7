-- ===== src/Prelude/Bits.antt =====
-- The bit operations at variables: one equation for the lowest digit, and `x ^ 3`, `x & (2^k - 1)`
-- as arithmetic.
use Prim.Native.Nat.{
  ℕ, zero, suc, ◌+◌, ◌-◌, ◌*◌, ◌/◌, ◌%◌, ◌^◌, ◌≤◌, ◌<◌, min, max, bit_and, bit_or, bit_xor, digits,
  bitwise, bit_and-bitwise, bit_or-bitwise, bit_xor-bitwise, differ,
}
use mathlib.Core.Path.{◌≡◌, refl, ap, sym, ◌∙◌}
use native.Mathlib.Decide.{ℕ_discrete}
use native.Mathlib.Nat.{le_refl, pow-suc, one-le-pow}
use native.Mathlib.Omega.{arith}

-- One operation on binary digits: `low` on the lowest, `rest` where the left operand has run out.
module _ (rest : ℕ → ℕ) (low : ℕ → ℕ → ℕ) where
  spare_round : (k x y : ℕ) → x ≤ k → digits rest low (suc k) x y ≡ digits rest low k x y
  spare_round zero zero y h = refl
  spare_round (suc k) zero y h = refl
  spare_round zero (suc x) y h = absurd (omega arith)
  spare_round (suc k) (suc x) y h =
      ap (λ (t : ℕ). t * 2 + low (suc x % 2) (y % 2))
        (spare_round k (suc x / 2) (y / 2) (omega arith))

  spare_rounds : (k l x y : ℕ) → x ≤ l → l ≤ k → digits rest low k x y ≡ digits rest low l x y
  spare_rounds zero l x y h b =
      let e : zero ≡ l = omega arith in ap (λ (t : ℕ). digits rest low t x y) e
  spare_rounds (suc k) l x y h b = elim (ℕ_discrete l (suc k)) [
    | yes e ↦ ap (λ (t : ℕ). digits rest low t x y) (sym e)
    | no ne ↦ spare_round k x y (omega arith) ∙ spare_rounds k l x y h (omega arith)
  ]

  -- The equation of the lowest digit, for an operation that means these digits.
  lowest_digit :
      (op : ℕ → ℕ → ℕ)
      → ((x y : ℕ) → op x y ≡ bitwise rest low x y)
      → ((y : ℕ) → rest y ≡ rest (y / 2) * 2 + low 0 (y % 2))
      → (x y : ℕ) → op x y ≡ op (x / 2) (y / 2) * 2 + low (x % 2) (y % 2)
  lowest_digit op means out zero y =
      means 0 y ∙ out y ∙ ap (λ (t : ℕ). t * 2 + low 0 (y % 2)) (sym (means 0 (y / 2)))
  lowest_digit op means out (suc x) y =
      means (suc x) y
      ∙ ap (λ (t : ℕ). t * 2 + low (suc x % 2) (y % 2))
          (spare_rounds x (suc x / 2) (suc x / 2) (y / 2) (le_refl _) (omega arith)
            ∙ sym (means (suc x / 2) (y / 2)))

pub bit_or_step : (x y : ℕ) → bit_or x y ≡ bit_or (x / 2) (y / 2) * 2 + max (x % 2) (y % 2)
bit_or_step = lowest_digit (λ y. y) max bit_or bit_or-bitwise (λ y. omega arith)

pub bit_and_step : (x y : ℕ) → bit_and x y ≡ bit_and (x / 2) (y / 2) * 2 + min (x % 2) (y % 2)
bit_and_step = lowest_digit (λ y. 0) min bit_and bit_and-bitwise (λ y. omega arith)

zero-differ : (d : ℕ) → d ≡ differ 0 d
zero-differ zero = refl
zero-differ (suc d) = refl

pub bit_xor_step : (x y : ℕ) → bit_xor x y ≡ bit_xor (x / 2) (y / 2) * 2 + differ (x % 2) (y % 2)
bit_xor_step =
    lowest_digit (λ y. y) differ bit_xor bit_xor-bitwise (λ y. omega (arith, zero-differ (y % 2)))

-- Two functions with the same lowest digit over their halves agree.
halving :
    (g h low : ℕ → ℕ)
    → g 0 ≡ h 0
    → ((x : ℕ) → g x ≡ g (x / 2) * 2 + low x)
    → ((x : ℕ) → h x ≡ h (x / 2) * 2 + low x)
    → (k x : ℕ) → x < k
    → g x ≡ h x
halving g h low base left right zero x b = absurd (omega arith)
halving g h low base left right (suc k) zero b = base
halving g h low base left right (suc k) (suc x) b = omega (
  arith,
  left (suc x),
  right (suc x),
  halving g h low base left right k (suc x / 2) (omega arith),
)

differ-zero : (d : ℕ) → differ d 0 ≡ d
differ-zero zero = refl
differ-zero (suc d) = refl

xor_nothing : (x : ℕ) → bit_xor x 0 ≡ x
xor_nothing x =
    halving (λ y. bit_xor y 0) (λ y. y) (λ y. y % 2) refl
      (λ y. omega (arith, bit_xor_step y 0, differ-zero (y % 2))) (λ y. omega arith) (suc x) x
      (omega arith)

and_nothing : (x : ℕ) → bit_and x 0 ≡ 0
and_nothing x =
    halving (λ y. bit_and y 0) (λ y. 0) (λ y. 0) refl (λ y. omega (arith, bit_and_step y 0))
      (λ y. refl) (suc x) x (omega arith)

or_nothing : (x : ℕ) → bit_or x 0 ≡ x
or_nothing x =
    halving (λ y. bit_or y 0) (λ y. y) (λ y. y % 2) refl (λ y. omega (arith, bit_or_step y 0))
      (λ y. omega arith) (suc x) x (omega arith)

differ-one : (d : ℕ) → d < 2 → differ d 1 ≡ 1 - d
differ-one zero h = refl
differ-one (suc zero) h = refl
differ-one (suc (suc d)) h = absurd (omega arith)

-- `x ^ 3` mirrors a byte's place in its word.
pub bit_xor_three : (x : ℕ) → bit_xor x 3 ≡ x / 4 * 4 + (3 - x % 4)
bit_xor_three x = omega (
  arith,
  bit_xor_step x 3,
  bit_xor_step (x / 2) 1,
  xor_nothing (x / 2 / 2),
  differ-one (x % 2) (omega arith),
  differ-one (x / 2 % 2) (omega arith),
)

-- The bit of weight 2 ^ k.
abbrev pub bit : ℕ → ℕ → ℕ
bit zero w = w % 2
bit (suc k) w = bit k (w / 2)

pub bit-bit_or : (k a b : ℕ) → bit k (bit_or a b) ≡ max (bit k a) (bit k b)
bit-bit_or zero a b = omega (arith, bit_or_step a b)
bit-bit_or (suc k) a b = rw halved (bit-bit_or k (a / 2) (b / 2))
  where
    halved : bit_or a b / 2 ≡ bit_or (a / 2) (b / 2)
    halved = omega (arith, bit_or_step a b)

pub bit-bit_and : (k a b : ℕ) → bit k (bit_and a b) ≡ min (bit k a) (bit k b)
bit-bit_and zero a b = omega (arith, bit_and_step a b)
bit-bit_and (suc k) a b = rw halved (bit-bit_and k (a / 2) (b / 2))
  where
    halved : bit_and a b / 2 ≡ bit_and (a / 2) (b / 2)
    halved = omega (arith, bit_and_step a b)

pub bit-lt : (k w : ℕ) → bit k w < 2
bit-lt zero w = omega arith
bit-lt (suc k) w = bit-lt k (w / 2)

pub bit-zero : (k : ℕ) → bit k 0 ≡ 0
bit-zero zero = refl
bit-zero (suc k) = bit-zero k

pub bit_or_lt : (n a b : ℕ) → a < 2 ^ n → b < 2 ^ n → bit_or a b < 2 ^ n
bit_or_lt zero zero zero h k = omega arith
bit_or_lt zero zero (suc b) h k = absurd (omega arith)
bit_or_lt zero (suc a) b h k = absurd (omega arith)
bit_or_lt (suc n) a b h k = omega (
  arith,
  pow-suc 2 n,
  bit_or_step a b,
  bit_or_lt n (a / 2) (b / 2) (omega (arith, pow-suc 2 n)) (omega (arith, pow-suc 2 n)),
)

pub bit_and-le : (n a b : ℕ) → a ≤ n → bit_and a b ≤ a
bit_and-le n zero b h = omega (arith, bit_and_step 0 b, zero-bit_and b)
  where
    zero-bit_and : (b : ℕ) → bit_and 0 b ≡ 0
    zero-bit_and b = bit_and-bitwise 0 b
bit_and-le zero (suc a) b h = absurd (omega arith)
bit_and-le (suc n) (suc a) b h =
    omega (arith, bit_and_step (suc a) b, bit_and-le n (suc a / 2) (b / 2) (omega arith))

mod-double : (a p : ℕ) → 0 < p → a % (2 * p) ≡ a / 2 % p * 2 + a % 2
mod-double a p h = grind arith

-- A mask of `k` low bits is the remainder by `2 ^ k`.
pub bit_and_mask : (k a : ℕ) → bit_and a (2 ^ k - 1) ≡ a % 2 ^ k
bit_and_mask zero a = omega (arith, and_nothing a)
bit_and_mask (suc k) a =
    rw (bit_and_step a (2 ^ suc k - 1), half_mask, low_bit, bit_and_mask k (a / 2))
      (omega (
        arith,
        mod-double a (2 ^ k) (one-le-pow k 2 (omega arith)),
        ap (λ (t : ℕ). a % t) (pow-suc 2 k),
        ap (λ (t : ℕ). a % t) comm,
      ))
  where
    half_mask : (2 ^ suc k - 1) / 2 ≡ 2 ^ k - 1
    half_mask = omega (arith, pow-suc 2 k, one-le-pow k 2 (omega arith))

    comm : 2 ^ k * 2 ≡ 2 * 2 ^ k
    comm = omega arith

    low_bit : (2 ^ suc k - 1) % 2 ≡ 1
    low_bit = omega (arith, pow-suc 2 k, one-le-pow k 2 (omega arith))

-- `(q << k) | r` is a sum when `r` fits `k` bits.
pub bit_or_fields : (k q r : ℕ) → r < 2 ^ k → bit_or (q * 2 ^ k) r ≡ q * 2 ^ k + r
bit_or_fields zero q zero h = omega (arith, or_nothing (q * 1))
bit_or_fields zero q (suc r) h = absurd (omega arith)
bit_or_fields (suc k) q r h = omega (
  arith,
  bit_or_step (q * 2 ^ suc k) r,
  ap (λ t. bit_or t (r / 2)) half,
  twice,
  bit_or_fields k q (r / 2) (omega (arith, pow-suc 2 k)),
)
  where
    twice : q * 2 ^ suc k ≡ 2 * (q * 2 ^ k)
    twice = omega (arith, ap (λ (t : ℕ). q * t) (pow-suc 2 k))

    half : q * 2 ^ suc k / 2 ≡ q * 2 ^ k
    half = omega (arith, twice)

div-double : (a p : ℕ) → 0 < p → a / (2 * p) ≡ a / 2 / p
div-double a p h = grind arith

-- A mask of upper bits.
pub bit_and_fields : (k a m : ℕ) → bit_and a (m * 2 ^ k) ≡ bit_and (a / 2 ^ k) m * 2 ^ k
bit_and_fields zero a m = rw (whole, unit) (omega arith)
  where
    whole : (a / 2 ^ 0) ≡ a
    whole = omega arith

    unit : m * 2 ^ 0 ≡ m
    unit = omega arith
bit_and_fields (suc k) a m =
    rw (bit_and_step a (m * 2 ^ suc k), halved, bit_and_fields k (a / 2) m, quotient, even)
      (omega (arith, ap (λ (t : ℕ). bit_and (a / 2 ^ suc k) m * t) (pow-suc 2 k)))
  where
    twice : m * 2 ^ suc k ≡ 2 * (m * 2 ^ k)
    twice = omega (arith, ap (λ (t : ℕ). m * t) (pow-suc 2 k))

    halved : m * 2 ^ suc k / 2 ≡ m * 2 ^ k
    halved = omega (arith, twice)

    even : m * 2 ^ suc k % 2 ≡ 0
    even = omega (arith, twice)

    quotient : a / 2 / 2 ^ k ≡ a / 2 ^ suc k
    quotient = omega (
      arith,
      div-double a (2 ^ k) (one-le-pow k 2 (omega arith)),
      ap (λ (t : ℕ). a / t) (pow-suc 2 k),
      ap (λ (t : ℕ). a / t) comm,
    )
      where
        comm : 2 ^ k * 2 ≡ 2 * 2 ^ k
        comm = omega arith
