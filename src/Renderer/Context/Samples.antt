-- ===== src/Renderer/Context/Samples.antt =====
-- Which antialiasing is offered.
use pokemon_stadium_recomp.Prelude.{
  zero, suc, ℕ, ◌+◌, ◌^◌, ◌≤◌, ◌<◌, ◌≡◌, ◌≢◌, arith, inl, inr, false, bit_and, ◌==◌, Bool-cases,
}
use pokemon_stadium_recomp.Renderer.Config.{
  Antialiasing, no_msaa, msaa_2x, msaa_4x, msaa_8x, msaa_count, compute_max_supported_aa,
}

-- The mask has the bits of 2, 4, ... 2^k samples, for the k of that setting.
abbrev pub samples : Antialiasing → ℕ
samples no_msaa = 0
samples msaa_2x = 1
samples msaa_4x = 2
samples msaa_8x = 3
samples msaa_count = 4

is_set : (x : ℕ) → (x == 0) ≡ false → x ≢ 0
is_set x e z = ground arith

set_upto :
    (bits n k : ℕ)
    → n ≤ 3
    → (1 ≤ n → (bit_and bits 2 == 0) ≡ false)
    → (2 ≤ n → (bit_and bits 4 == 0) ≡ false)
    → (3 ≤ n → (bit_and bits 8 == 0) ≡ false)
    → 1 ≤ k
    → k ≤ n
    → bit_and bits (2 ^ k) ≢ 0
set_upto bits n zero top two four eight one below = absurd (omega arith)
set_upto bits n (suc zero) top two four eight one below = is_set _ (two (omega arith))
set_upto bits n (suc (suc zero)) top two four eight one below = is_set _ (four (omega arith))
set_upto bits n (suc (suc (suc zero))) top two four eight one below = is_set _ (eight (omega arith))
set_upto bits n (suc (suc (suc (suc k)))) top two four eight one below = absurd (omega arith)

-- Antialiasing is offered up to the most samples, at most 8, such that no smaller count is missing
-- from the mask: every bit up to it is set, and, below 8, the next is not.
pub compute_max_supported_aa-samples :
    (bits : ℕ)
    → (samples (compute_max_supported_aa bits) ≤ 3)
      × ((k : ℕ) → 1 ≤ k → k ≤ samples (compute_max_supported_aa bits) → bit_and bits (2 ^ k) ≢ 0)
      × (samples (compute_max_supported_aa bits) < 3
          → bit_and bits (2 ^ (samples (compute_max_supported_aa bits) + 1)) ≡ 0)
unfolding compute_max_supported_aa
compute_max_supported_aa-samples bits = elim (Bool-cases (bit_and bits 2 == 0)) [
  | inl e ↦ rw e (omega arith, (λ k one below. absurd (omega arith)), (λ below. ground arith))
  | inr two ↦ elim (Bool-cases (bit_and bits 4 == 0)) [
    | inl e ↦
        rw (two, e)
          (
            omega arith,
            (λ k one below.
                set_upto bits 1 k (omega arith) (λ _. two) (λ h. absurd (omega arith))
                  (λ h. absurd (omega arith)) one below),
            (λ below. ground arith),
          )
    | inr four ↦ elim (Bool-cases (bit_and bits 8 == 0)) [
      | inl e ↦
          rw (two, four, e)
            (
              omega arith,
              (λ k one below.
                  set_upto bits 2 k (omega arith) (λ _. two) (λ _. four) (λ h. absurd (omega arith))
                    one below),
              (λ below. ground arith),
            )
      | inr eight ↦
          rw (two, four, eight)
            (
              omega arith,
              (λ k one below.
                  set_upto bits 3 k (omega arith) (λ _. two) (λ _. four) (λ _. eight) one below),
              (λ below. absurd (omega arith)),
            )
    ]
  ]
]
