-- ===== src/Rdram/Store.antt =====
-- Loads after stores.
use pokemon_stadium_recomp.Prelude.{ℕ, ◌+◌, ◌≤◌, ◌<◌, ◌≡◌, ◌⊎◌, refl, arith, ◌==◌, if◌then◌else◌}
use pokemon_stadium_recomp.Rdram.{Rdram, IsBytes, load8, store8, load_be32, zero_word}
use pokemon_stadium_recomp.Rdram.Words.{bit_xor_three_inj}

-- A store shows at its own address and nowhere else.
load8-store8 : (m : Rdram) (p q v : ℕ) → load8 (store8 m p v) q ≡ (if q == p then v else load8 m q)
unfolding load8 store8
load8-store8 m p q v = ground (arith, bit_xor_three_inj q p)

store8-IsBytes : {m : Rdram} (p v : ℕ) → v < 256 → IsBytes m → IsBytes (store8 m p v)
unfolding store8
store8-IsBytes p v h b i = ground (arith, b i)

-- Clearing a word clears its four bytes and leaves all others.
pub load8-zero_word :
    (m : Rdram) (p q : ℕ)
    → load8 (zero_word m p) q ≡ (
        if q == p + 3
        then 0
        else if q == p + 2
        then 0
        else if q == p + 1
        then 0
        else if q == p
        then 0
        else load8 m q)
unfolding zero_word
load8-zero_word m p q = simp load8-store8

load8-zero_word_outside :
    (m : Rdram) (p q : ℕ) → (q < p) ⊎ (p + 4 ≤ q) → load8 (zero_word m p) q ≡ load8 m q
load8-zero_word_outside m p q h = ground (arith, load8-zero_word m p q)

load_be32-zero_word_self : (m : Rdram) (p : ℕ) → load_be32 (zero_word m p) p ≡ 0
unfolding load_be32
load_be32-zero_word_self m p =
    rw
      (
        byte p (omega arith) (omega arith),
        byte (p + 1) (omega arith) (omega arith),
        byte (p + 2) (omega arith) (omega arith),
        byte (p + 3) (omega arith) (omega arith),
      )
      refl
  where
    byte : (q : ℕ) → p ≤ q → q < p + 4 → load8 (zero_word m p) q ≡ 0
    byte q h k = ground (arith, load8-zero_word m p q)

-- A word that does not meet the cleared one keeps its value.
pub load_be32-zero_word_apart :
    (m : Rdram) (p q : ℕ) → (q + 4 ≤ p) ⊎ (p + 4 ≤ q) → load_be32 (zero_word m p) q ≡ load_be32 m q
unfolding load_be32
load_be32-zero_word_apart m p q h =
    rw
      (
        load8-zero_word_outside m p q (omega arith),
        load8-zero_word_outside m p (q + 1) (omega arith),
        load8-zero_word_outside m p (q + 2) (omega arith),
        load8-zero_word_outside m p (q + 3) (omega arith),
      )
      refl

zero_word-IsBytes : {m : Rdram} (p : ℕ) → IsBytes m → IsBytes (zero_word m p)
unfolding zero_word
zero_word-IsBytes {m} p b = store8-IsBytes (p + 3) 0 (omega arith) (
    store8-IsBytes (p + 2) 0 (omega arith)
      (store8-IsBytes (p + 1) 0 (omega arith) (store8-IsBytes p 0 (omega arith) b)))

pub load8-zero_word_inside : (m : Rdram) (p b : ℕ) → b < 4 → load8 (zero_word m p) (p + b) ≡ 0
load8-zero_word_inside m p b h = ground (arith, load8-zero_word m p (p + b))
