-- ===== src/Rdram/Words.antt =====
-- Words and addresses as arithmetic.
use pokemon_stadium_recomp.Prelude.{
  get_or, ap, ◌∙◌, ℕ, zero, suc, ◌+◌, ◌*◌, ◌/◌, ◌-◌, ◌%◌, ◌^◌, ◌<◌, ◌≡◌, refl, arith, bit_or,
  bit_xor, true, length,
}
use pokemon_stadium_recomp.Prelude.Bits.{bit_xor_three, bit_or_fields, bit_and_mask}
use pokemon_stadium_recomp.Rdram.{Rdram, IsBytes, load8, load_be32, in_rdram, physical, load_bytes}

load8-lt : {m : Rdram} (p : ℕ) → IsBytes m → load8 m p < 256
unfolding load8
load8-lt p v = v (bit_xor p 3)

-- The bytes are disjoint, so the `|` of the macros is a sum.
pub word-eq-sum :
    (b0 b1 b2 b3 : ℕ)
    → b1 < 256
    → b2 < 256
    → b3 < 256
    → bit_or (bit_or (bit_or (b0 * 2 ^ 24) (b1 * 2 ^ 16)) (b2 * 2 ^ 8)) b3
      ≡ b0 * 2 ^ 24 + b1 * 2 ^ 16 + b2 * 2 ^ 8 + b3
word-eq-sum b0 b1 b2 b3 l1 l2 l3 =
    let e1 : bit_or (b0 * 2 ^ 24) (b1 * 2 ^ 16) ≡ (b0 * 2 ^ 8 + b1) * 2 ^ 16 =
      omega (arith, bit_or_fields 24 b0 (b1 * 2 ^ 16) (omega arith)) in
    let e2 : bit_or ((b0 * 2 ^ 8 + b1) * 2 ^ 16) (b2 * 2 ^ 8)
        ≡ ((b0 * 2 ^ 8 + b1) * 2 ^ 8 + b2) * 2 ^ 8 =
      omega (arith, bit_or_fields 16 (b0 * 2 ^ 8 + b1) (b2 * 2 ^ 8) (omega arith)) in
    rw (e1, e2) (omega (arith, bit_or_fields 8 ((b0 * 2 ^ 8 + b1) * 2 ^ 8 + b2) b3 (omega arith)))

load_be32-eq-sum :
    {m : Rdram} (p : ℕ)
    → IsBytes m
    → load_be32 m p
      ≡ load8 m p * 2 ^ 24 + load8 m (p + 1) * 2 ^ 16 + load8 m (p + 2) * 2 ^ 8 + load8 m (p + 3)
unfolding load_be32
load_be32-eq-sum {m} p v =
    word-eq-sum (load8 m p) (load8 m (p + 1)) (load8 m (p + 2)) (load8 m (p + 3))
      (load8-lt (p + 1) v) (load8-lt (p + 2) v) (load8-lt (p + 3) v)

-- A word fits 32 bits.
load_be32-lt : {m : Rdram} (p : ℕ) → IsBytes m → load_be32 m p < 2 ^ 32
load_be32-lt {m} p v = omega (
  arith,
  load_be32-eq-sum p v,
  load8-lt p v,
  load8-lt (p + 1) v,
  load8-lt (p + 2) v,
  load8-lt (p + 3) v,
)

pub physical-eq-mod : (v : ℕ) → physical v ≡ v % 2 ^ 29
physical-eq-mod v = bit_and_mask 29 v

-- The byte that the game sees at an address: the host keeps the four bytes of a word in reverse.
pub game_byte : Rdram → ℕ → ℕ
game_byte m p = m (p / 4 * 4 + (3 - p % 4))

pub load8-eq-game_byte : (m : Rdram) (p : ℕ) → load8 m p ≡ game_byte m p
unfolding load8 game_byte
load8-eq-game_byte m p = ap m (bit_xor_three p)

-- The segment bits of an RDRAM address are the ones that the mask removes.
physical-in_rdram : (v : ℕ) → in_rdram v ≡ true → physical v + 0x80000000 ≡ v
physical-in_rdram v h = ground (arith, physical-eq-mod v)

pub length-load_bytes : (m : Rdram) (p n : ℕ) → length (load_bytes m p n) ≡ n
unfolding load_bytes
length-load_bytes m p zero = refl
length-load_bytes m p (suc n) = omega (arith, length-load_bytes m (p + 1) n)

pub get_or-load_bytes :
    (m : Rdram) (p n i : ℕ) → i < n → get_or (load_bytes m p n) i 0 ≡ load8 m (p + i)
unfolding load_bytes
get_or-load_bytes m p zero i h = absurd (omega arith)
get_or-load_bytes m p (suc n) zero h = ap (load8 m) (omega arith)
get_or-load_bytes m p (suc n) (suc i) h =
    get_or-load_bytes m (p + 1) n i (omega arith) ∙ ap (load8 m) (omega arith)

-- Two addresses have two host places.
pub bit_xor_three_inj : (p q : ℕ) → bit_xor p 3 ≡ bit_xor q 3 → p ≡ q
bit_xor_three_inj p q e = omega (arith, bit_xor_three p, bit_xor_three q)
