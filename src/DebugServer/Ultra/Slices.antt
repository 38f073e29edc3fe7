-- ===== src/DebugServer/Ultra/Slices.antt =====
-- Which calls the two trace commands report.
use pokemon_stadium_recomp.Prelude.{
  ℕ, zero, suc, ◌+◌, ◌-◌, ◌%◌, ◌^◌, ◌<◌, ◌≡◌, refl, arith, Bool, true, false, [], ◌∷◌, some, length,
  leb, min,
}
use native.Mathlib.Decide.{dec_lt}
use pokemon_stadium_recomp.Prelude.{get_elem?, ap, ◌∙◌, ◌≤◌}
use pokemon_stadium_recomp.DebugServer.Ultra.{UltraEvent, UltraTrace, boot_slice}

boot_slice_end :
    (t : UltraTrace) (n start i : ℕ)
    → start + i < 2 ^ 32
    → t.boot_count ≤ start + i
    → boot_slice t (suc n) start i ≡ []
unfolding boot_slice
boot_slice_end t n start i h e =
    let place : (start + i) % 2 ^ 32 ≡ start + i = omega arith in
    let test : leb t.boot_count (start + i) ≡ true = ground arith in rw (place, test) refl

boot_slice_next :
    (t : UltraTrace) (n start i : ℕ)
    → start + i < 2 ^ 32
    → start + i < t.boot_count
    → boot_slice t (suc n) start i
      ≡ (start + i, t.boot_get (start + i)) ∷ boot_slice t n start (i + 1)
unfolding boot_slice
boot_slice_next t n start i h e =
    let place : (start + i) % 2 ^ 32 ≡ start + i = omega arith in
    let test : leb t.boot_count (start + i) ≡ false = ground arith in rw (place, test) refl

length-boot_slice :
    (t : UltraTrace) (n start i : ℕ)
    → start + i + n ≤ 2 ^ 32
    → length (boot_slice t n start i) ≡ min n (t.boot_count - (start + i))
unfolding boot_slice
length-boot_slice t zero start i h = omega arith
length-boot_slice t (suc n) start i h = elim (dec_lt (start + i) t.boot_count) [
  | yes below ↦
      rw (boot_slice_next t n start i (omega arith) below)
        (omega (arith, length-boot_slice t n start (i + 1) (omega arith)))
  | no end ↦ rw (boot_slice_end t n start i (omega arith) (omega arith)) (omega arith)
]

later :
    (t : UltraTrace) (start i k : ℕ)
    → ◌≡◌ {A = ℕ × (Bool × UltraEvent)}
        (start + (i + 1) + k, t.boot_get (start + (i + 1) + k))
        (start + i + suc k, t.boot_get (start + i + suc k))
later t start i k =
    let e : start + (i + 1) + k ≡ start + i + suc k = omega arith in
    ap (λ (p : ℕ). (p, t.boot_get p)) e

here :
    (t : UltraTrace) (start i : ℕ)
    → ◌≡◌ {A = ℕ × (Bool × UltraEvent)}
        (start + i, t.boot_get (start + i))
        (start + i + zero, t.boot_get (start + i + zero))
here t start i =
    let e : start + i ≡ start + i + zero = omega arith in ap (λ (p : ℕ). (p, t.boot_get p)) e

get_elem?-boot_slice :
    (t : UltraTrace) (n start i k : ℕ)
    → start + i + n ≤ 2 ^ 32
    → k < n
    → start + i + k < t.boot_count
    → get_elem? (boot_slice t n start i) k ≡ some (start + i + k, t.boot_get (start + i + k))
get_elem?-boot_slice t zero start i k h below inside = absurd (omega arith)
get_elem?-boot_slice t (suc n) start i zero h below inside =
    rw (boot_slice_next t n start i (omega arith) (omega arith)) (ap some (here t start i))
get_elem?-boot_slice t (suc n) start i (suc k) h below inside =
    rw (boot_slice_next t n start i (omega arith) (omega arith)) (
      get_elem?-boot_slice t n start (i + 1) k (omega arith) (omega arith) (omega arith)
      ∙ ap some (later t start i k))

-- For a start below 2^31 and at most 1024 entries, the boot slice has as many entries as were asked
-- for or as the snapshot has from `start` on, whichever is less, and its k-th entry is the position
-- `start + k` with what the snapshot holds there.
boot_slice_lem :
    (t : UltraTrace) (n start : ℕ)
    → start < 2 ^ 31
    → n ≤ 1024
    → (length (boot_slice t n start 0) ≡ min n (t.boot_count - start))
      × ((k : ℕ)
          → k < n
          → start + k < t.boot_count
          → get_elem? (boot_slice t n start 0) k ≡ some (start + 0 + k, t.boot_get (start + 0 + k)))
boot_slice_lem t n start h small = (
  omega (arith, length-boot_slice t n start 0 (omega arith)),
  λ k below inside. get_elem?-boot_slice t n start 0 k (omega arith) below (omega arith),
)
