-- ===== src/Libc/RoundTrip.antt =====
-- Reading back what was printed.
use pokemon_stadium_recomp.Prelude.{
  ℕ, zero, suc, ◌+◌, ◌/◌, ◌%◌, ◌^◌, ◌<◌, ◌≡◌, refl, ap, ◌∙◌, arith, [], ◌∷◌, ◌++◌, true, false, ltb,
  Bool-cases, inl, inr,
}
use pokemon_stadium_recomp.Prelude.Int.{pos}
use pokemon_stadium_recomp.Prelude.Text.{Bytes}
use pokemon_stadium_recomp.Libc.Print.{decimal_onto, decimal}
use pokemon_stadium_recomp.Libc.Scan.{is_digit, scan_decimal, atoi}

-- The text goes on with something that is no digit.
abbrev pub Stops : Bytes → Type 0
Stops [] = Unit {0}
Stops (c ∷ _) = is_digit c ≡ false

scan_decimal-decimal_onto :
    (f n : ℕ) (s : Bytes) → n < f → scan_decimal 0 (decimal_onto f n s) ≡ scan_decimal n s
unfolding scan_decimal decimal_onto
scan_decimal-decimal_onto zero n s h = absurd (omega arith)
scan_decimal-decimal_onto (suc f) n s h =
    ground (arith, scan_decimal-decimal_onto f (n / 10) ((b'0' + n % 10) ∷ s))

decimal_onto-append : (f n : ℕ) (s t : Bytes) → decimal_onto f n s ++ t ≡ decimal_onto f n (s ++ t)
unfolding decimal_onto
decimal_onto-append zero n s t = refl
decimal_onto-append (suc f) n s t =
    ground (arith, decimal_onto-append f (n / 10) ((b'0' + n % 10) ∷ s) t)

decimal_onto-cons :
    (f n : ℕ) (s : Bytes)
    → n < f
    → (c : ℕ) × (t : Bytes) × (is_digit c ≡ true) × (decimal_onto f n s ≡ c ∷ t)
unfolding decimal_onto
decimal_onto-cons zero n s h = absurd (omega arith)
decimal_onto-cons (suc f) n s h = elim (Bool-cases (ltb n 10)) [
  | inl small ↦ (b'0' + n, s, ground arith, rw (small, decimal_onto))
  | inr large ↦
      rw (large, decimal_onto) (decimal_onto-cons f (n / 10) ((b'0' + n % 10) ∷ s) (ground arith))
]

scan_decimal-Stops : (n : ℕ) (s : Bytes) → Stops s → scan_decimal n s ≡ n
unfolding scan_decimal
scan_decimal-Stops n [] h = refl
scan_decimal-Stops n (c ∷ s) h = rw (h, scan_decimal)

atoi-digits :
    (s t : Bytes) (c : ℕ)
    → s ≡ c ∷ t
    → is_digit c ≡ true
    → scan_decimal 0 s < 2 ^ 31
    → atoi s ≡ pos (scan_decimal 0 s)
unfolding atoi
atoi-digits s t c e d h = rw e (ground (arith, rw e at h))

-- `atoi` reads a printed number back, whatever follows it.
atoi-decimal : (n : ℕ) (rest : Bytes) → n < 2 ^ 31 → Stops rest → atoi (decimal n ++ rest) ≡ pos n
unfolding decimal
atoi-decimal n rest h stop =
    let (c, t, d, e) = decimal_onto-cons (suc n) n rest (omega arith) in
    let value : scan_decimal 0 (decimal_onto (suc n) n rest) ≡ n =
      scan_decimal-decimal_onto (suc n) n rest (omega arith) ∙ scan_decimal-Stops n rest stop in
    rw (decimal_onto-append (suc n) n [] rest)
      (atoi-digits (decimal_onto (suc n) n rest) t c e d (rw value h) ∙ ap pos value)
