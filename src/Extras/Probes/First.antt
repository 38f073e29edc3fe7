-- ===== src/Extras/Probes/First.antt =====
-- The literals of the bucket that a run of the probes sees first.
use pokemon_stadium_recomp.Prelude.{
  ℕ, zero, suc, ◌-◌, ◌^◌, ◌/◌, take, ltb, leb, ◌&&◌, not, Bool, if◌then◌else◌, ◌≡◌, inl, inr, refl,
  arith, List, [], ◌∷◌, ◌++◌, true, false, ◌||◌, ◌==◌, length, length-append, Bool-cases,
}
use pokemon_stadium_recomp.Prelude.Bits.{bit_and_fields, bit_and_mask}
use pokemon_stadium_recomp.Extras.Probes.{seen, is_new, in_pattern_bucket}

-- Membership, and the literals of the bucket 0x8FF00000 that a run sees first, in order.
pub among : ℕ → List ℕ → Bool
among x [] = false
among x (k ∷ ks) = (x == k) || among x ks

unfoldable pub firsts : List ℕ → List ℕ → List ℕ
firsts [] known = []
firsts (x ∷ xs) known =
    let rest = firsts xs known in
    let more = x ∷ firsts xs (known ++ x ∷ []) in
    if leb 0x8FF00000 x && ltb x 0x90000000 && not (among x known) then more else rest

pub seen-eq-among : (x : ℕ) (ks : List ℕ) → seen x ks ≡ among x ks
unfolding seen among
seen-eq-among x [] = refl
seen-eq-among x (k ∷ ks) = ground (arith, seen-eq-among x ks)

-- The mask of the upper 12 bits keeps the bucket of 1 MiB.
pub in_pattern_bucket-eq-between :
    (x : ℕ) → in_pattern_bucket x ≡ leb 0x8FF00000 x && ltb x 0x90000000
in_pattern_bucket-eq-between x =
    ground (arith, bit_and_fields 20 x 0xFFF, bit_and_mask 12 (x / 2 ^ 20))

-- The test of `firsts` and that of the code.
pub first_sight :
    (cap x : ℕ) (keys : List ℕ)
    → in_pattern_bucket x ≡ true
    → is_new cap x keys ≡ true
    → (leb 0x8FF00000 x && ltb x 0x90000000 && not (among x keys)) ≡ true
first_sight cap x keys inside new =
    ground (arith, inside, new, in_pattern_bucket-eq-between x, seen-eq-among x keys)

pub firsts_new :
    (cap x : ℕ) (xs keys : List ℕ)
    → in_pattern_bucket x ≡ true
    → is_new cap x keys ≡ true
    → firsts (x ∷ xs) keys ≡ x ∷ firsts xs (keys ++ x ∷ [])
unfolding firsts
firsts_new cap x xs keys inside new = rw (first_sight cap x keys inside new) refl

pub one_less :
    (cap x : ℕ) (keys : List ℕ)
    → is_new cap x keys ≡ true
    → cap - length keys ≡ suc (cap - length (keys ++ x ∷ []))
one_less cap x keys new = ground (arith, new, length-append keys (x ∷ []))

-- A literal that the code does not take is not among the first that there is room for.
pub take-skipped :
    (cap x : ℕ) (xs keys : List ℕ)
    → (in_pattern_bucket x ≡ true → is_new cap x keys ≡ false)
    → take (cap - length keys) (firsts xs keys) ≡ take (cap - length keys) (firsts (x ∷ xs) keys)
unfolding firsts
take-skipped cap x xs keys h =
    elim (Bool-cases (leb 0x8FF00000 x && ltb x 0x90000000 && not (among x keys))) [
      | inr other ↦ rw other refl
      | inl first ↦ rw (no_room first) refl
    ]
  where
    no_room :
        (leb 0x8FF00000 x && ltb x 0x90000000 && not (among x keys)) ≡ true → cap - length keys ≡ 0
    no_room first = ground (
      arith,
      first,
      in_pattern_bucket-eq-between x,
      seen-eq-among x keys,
      h (ground (arith, first, in_pattern_bucket-eq-between x)),
    )

pub take-nil : (k : ℕ) → ◌≡◌ {A = List ℕ} (take k []) []
take-nil zero = refl
take-nil (suc k) = refl
