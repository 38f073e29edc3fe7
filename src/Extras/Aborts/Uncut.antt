-- ===== src/Extras/Aborts/Uncut.antt =====
-- The details fit their buffers.
use native.Mathlib.Nat.{pow-succ'}
use pokemon_stadium_recomp.Prelude.{
  ℕ, zero, suc, ◌+◌, ◌-◌, ◌/◌, ◌%◌, ◌^◌, ◌≤◌, ◌<◌, ◌≡◌, refl, arith, [], ◌∷◌, ◌++◌, length,
  length-append, take-all, Bool-cases, inl, inr, ltb,
}
use pokemon_stadium_recomp.Prelude.Int.{ℤ, pos, negsuc}
use pokemon_stadium_recomp.Prelude.Text.{Bytes, codes, snprintf}
use pokemon_stadium_recomp.Libc.Print.{decimal, decimal_onto, decimal_int, hex8, hex_upper_digits}
use pokemon_stadium_recomp.Extras.Aborts.{
  branch_detail, call_detail, jalr_detail, cop0_read_detail, cop0_write_detail,
}

length-hex_upper_digits : (k n : ℕ) → length (hex_upper_digits k n) ≡ k
unfolding hex_upper_digits
length-hex_upper_digits zero n = refl
length-hex_upper_digits (suc k) n =
    omega
      (arith, length-hex_upper_digits k (n / 16), length-append {0} (hex_upper_digits k (n / 16)))

shorter : (k n : ℕ) → n < 10 ^ suc k → n / 10 < 10 ^ k
shorter k n h = omega (arith, pow-succ' 10 k)

-- A number below 10 ^ (k + 1) has at most k + 1 digits.
length-decimal_onto :
    (k fuel n : ℕ) (acc : Bytes)
    → n < 10 ^ suc k
    → length (decimal_onto fuel n acc) ≤ suc k + length acc
unfolding decimal_onto
length-decimal_onto k zero n acc h = omega arith
length-decimal_onto zero (suc fuel) n acc h = elim (Bool-cases (ltb n 10)) [
  | inl small ↦ rw (small, decimal_onto) (omega arith)
  | inr large ↦ absurd (ground (arith, shorter 0 n h))
]
length-decimal_onto (suc k) (suc fuel) n acc h = elim (Bool-cases (ltb n 10)) [
  | inl small ↦ rw (small, decimal_onto) (omega arith)
  | inr large ↦
      rw (large, decimal_onto)
        (omega (
          arith,
          length-decimal_onto k fuel (n / 10) ((b'0' + n % 10) ∷ acc) (shorter (suc k) n h),
        ))
]

-- The values of a C `int`.
abbrev IsInt : ℤ → Type 0
IsInt (pos n) = n < 2 ^ 31
IsInt (negsuc n) = n < 2 ^ 31

length-decimal_int : (i : ℤ) → IsInt i → length (decimal_int i) ≤ 11
unfolding decimal_int decimal
length-decimal_int (pos n) h = omega (arith, length-decimal_onto 9 (suc n) n [] (omega (arith, h)))
length-decimal_int (negsuc n) h =
    omega (arith, length-decimal_onto 9 (suc (suc n)) (suc n) [] (omega (arith, h)))

-- A text that fits is not cut.
snprintf-fits : (size : ℕ) (text : Bytes) → length text < size → snprintf size text ≡ text
snprintf-fits size text h = take-all (size - 1) text (omega (arith, h))

length-four :
    (a b c d : Bytes) → length (a ++ b ++ c ++ d) ≡ length a + length b + length c + length d
length-four a b c d =
    omega (arith, length-append (a ++ b ++ c) d, length-append (a ++ b) c, length-append a b)

-- None of the details is cut, whatever the addresses, for the registers that an `int` holds.
details-fit :
    (target : ℕ) (reg : ℤ)
    → IsInt reg
    → (snprintf 64 (branch_detail target) ≡ branch_detail target)
      × (snprintf 64 (call_detail target) ≡ call_detail target)
      × (snprintf 96 (jalr_detail target reg) ≡ jalr_detail target reg)
      × (snprintf 64 (cop0_read_detail reg) ≡ cop0_read_detail reg)
      × (snprintf 96 (cop0_write_detail reg target) ≡ cop0_write_detail reg target)
unfolding branch_detail call_detail jalr_detail cop0_read_detail cop0_write_detail hex8
details-fit target reg h = (
  snprintf-fits 64 _ (omega arith),
  snprintf-fits 64 _ (omega arith),
  snprintf-fits 96 _ (
      omega (
        arith,
        length-decimal_int reg h,
        length-four (decimal_int reg) (codes ", runtime target=0x") (hex_upper_digits 16 target)
            (codes ")"),
      )),
  snprintf-fits 64 _ (
      omega (
        arith,
        length-decimal_int reg h,
        length-append (decimal_int reg) (codes " (not modeled)"),
      )),
  snprintf-fits 96 _ (
      omega (
        arith,
        length-decimal_int reg h,
        length-four (decimal_int reg) (codes " = 0x") (hex_upper_digits 16 target)
            (codes " (not modeled)"),
      )),
)
