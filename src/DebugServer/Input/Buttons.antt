-- ===== src/DebugServer/Input/Buttons.antt =====
-- The buttons are single bits, and pressing or releasing one changes that bit alone.
use native.Mathlib.Nat.{pow-suc, one-le-pow}
use pokemon_stadium_recomp.Prelude.{
  ℕ, zero, suc, ◌-◌, ◌/◌, ◌^◌, ◌<◌, ◌≡◌, ◌≢◌, refl, arith, Bool, true, false, ◌==◌, if◌then◌else◌,
  Bool-cases, inl, inr, List, [], ◌∷◌,
}
use pokemon_stadium_recomp.Prelude.Bits.{
  bit, bit-bit_or, bit-bit_and, bit-lt, bit-zero, bit_or_lt, bit_and-le,
}
use pokemon_stadium_recomp.Prelude.Text.{Bytes, codes, equal, equal_iff, snprintf}
use pokemon_stadium_recomp.DebugServer.Input.{button_bit, press}

bit-pow : (k j : ℕ) → bit k (2 ^ j) ≡ (if k == j then 1 else 0)
bit-pow zero zero = refl
bit-pow zero (suc j) = ground (arith, pow-suc 2 j)
bit-pow (suc k) zero = ground (arith, bit-zero k)
bit-pow (suc k) (suc j) = rw half (ground (arith, bit-pow k j))
  where
    half : 2 ^ suc j / 2 ≡ 2 ^ j
    half = omega (arith, pow-suc 2 j)

bit-complement : (n k w : ℕ) → k < n → w < 2 ^ n → bit k (2 ^ n - 1 - w) ≡ 1 - bit k w
bit-complement zero k w h b = absurd (omega arith)
bit-complement (suc n) zero w h b = omega (arith, pow-suc 2 n)
bit-complement (suc n) (suc k) w h b =
    rw half (bit-complement n k (w / 2) (omega arith) (omega (arith, pow-suc 2 n)))
  where
    half : (2 ^ suc n - 1 - w) / 2 ≡ 2 ^ n - 1 - w / 2
    half = omega (arith, pow-suc 2 n)

pow-lt : (j n : ℕ) → j < n → 2 ^ j < 2 ^ n
pow-lt zero zero h = absurd (omega arith)
pow-lt zero (suc n) h = omega (arith, pow-suc 2 n, one-le-pow n 2 (omega arith))
pow-lt (suc j) zero h = absurd (omega arith)
pow-lt (suc j) (suc n) h = omega (arith, pow-suc 2 j, pow-suc 2 n, pow-lt j n (omega arith))

-- `|=` and `&= ~` with one of the 16 bits of a uint16_t: that bit becomes `down`, each other one stays.
bit-press :
    (down : Bool) (j k cur : ℕ)
    → j < 16
    → k < 16
    → bit k (press down (2 ^ j) cur) ≡ (if k == j then (if down then 1 else 0) else bit k cur)
unfolding press
bit-press true j k cur hj hk =
    rw (bit-bit_or k cur (2 ^ j), bit-pow k j) (ground (arith, bit-lt k cur))
bit-press false j k cur hj hk =
    rw
      (
        bit-bit_and k cur (0xFFFF - 2 ^ j),
        bit-complement 16 k (2 ^ j) hk (pow-lt j 16 hj),
        bit-pow k j,
      )
      (ground (arith, bit-lt k cur))

press-lt : (down : Bool) (j cur : ℕ) → j < 16 → cur < 2 ^ 16 → press down (2 ^ j) cur < 2 ^ 16
unfolding press
press-lt true j cur h c = bit_or_lt 16 cur (2 ^ j) c (pow-lt j 16 h)
press-lt false j cur h c = omega (arith, bit_and-le cur cur (0xFFFF - 2 ^ j) (omega arith))

-- The names of the pad's buttons, with the bit of each in `contStat`.
pub record IsButton (n : Bytes) (j : ℕ) : Type 0 where
  pub short : snprintf 16 n ≡ n
  pub small : j < 16
  pub single : button_bit n ≡ 2 ^ j

-- The ladder of `button_bit` as a table of names and bit positions.
abbrev table : List (Bytes × ℕ)
table =
    (codes "A", 15)
    ∷ (codes "B", 14)
    ∷ (codes "Z", 13)
    ∷ (codes "Start", 12)
    ∷ (codes "DUp", 11)
    ∷ (codes "DDown", 10)
    ∷ (codes "DLeft", 9)
    ∷ (codes "DRight", 8)
    ∷ (codes "L", 5)
    ∷ (codes "R", 4)
    ∷ (codes "CUp", 3)
    ∷ (codes "CDown", 2)
    ∷ (codes "CLeft", 1)
    ∷ (codes "CRight", 0)
    ∷ []

abbrev ladder : List (Bytes × ℕ) → Bytes → ℕ
ladder [] n = 0
ladder ((l, j) ∷ t) n = if equal n l then 2 ^ j else ladder t n

abbrev Rows : List (Bytes × ℕ) → Type 0
Rows [] = Unit {0}
Rows ((l, j) ∷ t) = (snprintf 16 l ≡ l) × (j < 16) × (button_bit l ≡ 2 ^ j) × Rows t

table-Rows : Rows table
unfolding button_bit
table-Rows = (
  refl,
  omega arith,
  refl,
  (
    refl,
    omega arith,
    refl,
    (
      refl,
      omega arith,
      refl,
      (
        refl,
        omega arith,
        refl,
        (
          refl,
          omega arith,
          refl,
          (
            refl,
            omega arith,
            refl,
            (
              refl,
              omega arith,
              refl,
              (
                refl,
                omega arith,
                refl,
                (
                  refl,
                  omega arith,
                  refl,
                  (
                    refl,
                    omega arith,
                    refl,
                    (
                      refl,
                      omega arith,
                      refl,
                      (
                        refl,
                        omega arith,
                        refl,
                        (refl, omega arith, refl, (refl, omega arith, refl, tt)),
                      ),
                    ),
                  ),
                ),
              ),
            ),
          ),
        ),
      ),
    ),
  ),
)

ladder-IsButton :
    (t : List (Bytes × ℕ)) (n : Bytes) → Rows t → ladder t n ≢ 0 → (j : ℕ) × IsButton n j
ladder-IsButton [] n rows h = absurd (h refl)
ladder-IsButton ((l, j) ∷ t) n rows h = elim (Bool-cases (equal n l)) [
  | inl e ↦
      (j, rw ((equal_iff n l).0 e) (record { short = rows.0; small = rows.1; single = rows.2 }))
  | inr e ↦ ladder-IsButton t n rows.3 (λ z. h (rw e z))
]

-- Every name that `button_bit` knows stands for a single bit and fits `ev.name`.
button_bit-IsButton : (n : Bytes) → button_bit n ≢ 0 → (j : ℕ) × IsButton n j
unfolding button_bit
button_bit-IsButton n h = ladder-IsButton table n table-Rows h

pub button_bit-short : (n : Bytes) → (button_bit n == 0) ≡ false → snprintf 16 n ≡ n
button_bit-short n h = let (j, b) = button_bit-IsButton n (λ e. ground arith) in b.short
