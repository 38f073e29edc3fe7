-- ===== src/DebugServer/Memory/Hits.antt =====
-- What the memory commands find.
use pokemon_stadium_recomp.Prelude.{
  ℕ, zero, suc, ◌+◌, ◌*◌, ◌%◌, ◌^◌, ◌≤◌, ◌<◌, ◌≡◌, refl, ap, sym, arith, inl, inr, true, false,
  List, [], ◌∷◌, Option, length, take, ◌==◌, if◌then◌else◌, Bool-cases,
}
use pokemon_stadium_recomp.Prelude.Int.{ℤ}
use pokemon_stadium_recomp.Rdram.{Rdram, load_be32}
use pokemon_stadium_recomp.Rdram.Words.{physical-eq-mod}
use pokemon_stadium_recomp.DebugServer.Queries.Recent.{asked, clamp_count-eq-asked}
use pokemon_stadium_recomp.DebugServer.Memory.{peek, scan_words, scan_hits}
use pokemon_stadium_recomp.DebugServer.Memory.Reads.{Peeked, peek-Peeked}

-- Every aligned word with the value, with no limit on their number.
pub matches : Rdram → ℕ → ℕ → ℕ → List ℕ
matches m want zero paddr = []
matches m want (suc words) paddr =
    let rest = matches m want words (paddr + 4) in
    if load_be32 m paddr == want then (0x80000000 + paddr) ∷ rest else rest

scan_words-eq-take :
    (m : Rdram) (want words paddr room : ℕ)
    → scan_words m want words paddr room ≡ take room (matches m want words paddr)
unfolding scan_words matches
scan_words-eq-take m want zero paddr zero = refl
scan_words-eq-take m want zero paddr (suc room) = refl
scan_words-eq-take m want (suc words) paddr zero = refl
scan_words-eq-take m want (suc words) paddr (suc room) = ground (
  arith,
  scan_words-eq-take m want words (paddr + 4) room,
  scan_words-eq-take m want words (paddr + 4) (suc room),
)

-- Membership as a decidable relation on places.
pub data Listed (a : ℕ) : List ℕ → Type 0 where
  here : {b : ℕ} {xs : List ℕ} → a ≡ b → Listed a (b ∷ xs)
  there : {b : ℕ} {xs : List ℕ} → Listed a xs → Listed a (b ∷ xs)

matches_hit :
    (m : Rdram) (want words paddr : ℕ)
    → (load_be32 m paddr == want) ≡ true
    → matches m want (suc words) paddr ≡ (0x80000000 + paddr) ∷ matches m want words (paddr + 4)
unfolding matches
matches_hit m want words paddr e = rw (e, matches) refl

matches_miss :
    (m : Rdram) (want words paddr : ℕ)
    → (load_be32 m paddr == want) ≡ false
    → matches m want (suc words) paddr ≡ matches m want words (paddr + 4)
unfolding matches
matches_miss m want words paddr e = rw (e, matches) refl

==_to_eq : (a b : ℕ) → (a == b) ≡ true → a ≡ b
==_to_eq a b h = ground arith

-- What a place of the list of hits says of the memory.
abbrev HitAt : Rdram → ℕ → ℕ → ℕ → ℕ → Type 0
HitAt m want words paddr a =
    (k : ℕ) × (k < words) × (a ≡ 0x80000000 + paddr + 4 * k) × (load_be32 m (paddr + 4 * k) ≡ want)

shift_eq : (p k : ℕ) → p + 4 + 4 * k ≡ p + 4 * suc k
shift_eq p k = omega arith

start_eq : (p : ℕ) → p + 4 * zero ≡ p
start_eq p = omega arith

later_hit :
    (m : Rdram) (want words paddr a : ℕ)
    → HitAt m want words (paddr + 4) a
    → HitAt m want (suc words) paddr a
later_hit m want words paddr a (k, h, e, v) =
    (suc k, omega arith, omega arith, rw (sym (shift_eq paddr k)) v)

here_or_later :
    (m : Rdram) (want words paddr a : ℕ)
    → load_be32 m paddr ≡ want
    → (Listed a (matches m want words (paddr + 4)) → HitAt m want words (paddr + 4) a)
    → Listed a ((0x80000000 + paddr) ∷ matches m want words (paddr + 4))
    → HitAt m want (suc words) paddr a
here_or_later m want words paddr a v ih (here e) =
    (zero, omega arith, omega arith, rw (start_eq paddr) v)
here_or_later m want words paddr a v ih (there l) = later_hit m want words paddr a (ih l)

matches_sound :
    (m : Rdram) (want words paddr a : ℕ)
    → Listed a (matches m want words paddr)
    → HitAt m want words paddr a
unfolding matches
matches_sound m want zero paddr a l = elim l [ ]
matches_sound m want (suc words) paddr a l = elim (Bool-cases (load_be32 m paddr == want)) [
  | inl e ↦
      here_or_later m want words paddr a (==_to_eq (load_be32 m paddr) want e)
        (matches_sound m want words (paddr + 4) a) (rw (matches_hit m want words paddr e) at l)
  | inr e ↦
      later_hit m want words paddr a
        (matches_sound m want words (paddr + 4) a (rw (matches_miss m want words paddr e) at l))
]

start_value :
    (m : Rdram) (paddr want : ℕ) → load_be32 m (paddr + 4 * zero) ≡ want → load_be32 m paddr ≡ want
start_value m paddr want e = rw (sym (start_eq paddr)) e

later_or_here :
    (m : Rdram) (want words paddr k : ℕ)
    → Listed (0x80000000 + (paddr + 4) + 4 * k) (matches m want words (paddr + 4))
    → Listed (0x80000000 + paddr + 4 * suc k) (matches m want (suc words) paddr)
later_or_here m want words paddr k l = elim (Bool-cases (load_be32 m paddr == want)) [
  | inl t ↦ rw (matches_hit m want words paddr t) (there moved)
  | inr f ↦ rw (matches_miss m want words paddr f) moved
]
  where
    place : 0x80000000 + paddr + 4 * suc k ≡ 0x80000000 + (paddr + 4) + 4 * k
    place = omega arith

    moved : Listed (0x80000000 + paddr + 4 * suc k) (matches m want words (paddr + 4))
    moved = rw place l

matches_complete :
    (m : Rdram) (want words paddr k : ℕ)
    → k < words
    → load_be32 m (paddr + 4 * k) ≡ want
    → Listed (0x80000000 + paddr + 4 * k) (matches m want words paddr)
unfolding matches
matches_complete m want zero paddr k h e = absurd (omega arith)
matches_complete m want (suc words) paddr zero h e =
    rw (matches_hit m want words paddr (ground (arith, start_value m paddr want e)))
      (here (omega arith))
matches_complete m want (suc words) paddr (suc k) h e =
    later_or_here m want words paddr k
      (matches_complete m want words (paddr + 4) k (omega arith) (rw (shift_eq paddr k) e))

Listed-take : (a n : ℕ) (xs : List ℕ) → Listed a (take n xs) → Listed a xs
Listed-take a zero xs l = elim l [ ]
Listed-take a (suc n) [] l = l
Listed-take a (suc n) (x ∷ xs) (here e) = here e
Listed-take a (suc n) (x ∷ xs) (there l) = there (Listed-take a n xs l)

take-all : (n : ℕ) (xs : List ℕ) → length (take n xs) < n → take n xs ≡ xs
take-all zero xs h = absurd (omega arith)
take-all (suc n) [] h = refl
take-all (suc n) (x ∷ xs) h = ap (λ r. x ∷ r) (take-all n xs (omega arith))

length-scan_words :
    (m : Rdram) (want words paddr room : ℕ) → length (scan_words m want words paddr room) ≤ words
unfolding scan_words
length-scan_words m want zero paddr room = omega arith
length-scan_words m want (suc words) paddr zero = omega arith
length-scan_words m want (suc words) paddr (suc room) = ground (
  arith,
  length-scan_words m want words (paddr + 4) room,
  length-scan_words m want words (paddr + 4) (suc room),
)

le_lt : (a b c : ℕ) → a ≤ b → b < c → a < c
le_lt a b c h k = omega arith

-- A limit above the number of words is not reached.
length-scan_hits :
    (m : Rdram) (want limit : ℕ) → 0x200000 < limit → length (scan_hits m want limit) < limit
unfolding scan_hits
length-scan_hits m want limit h =
    le_lt _ 0x200000 limit (length-scan_words m want 0x200000 0 limit) h

-- Every address that the scan reports is the KSEG0 address of an aligned word below 8 MiB that
-- holds the value.
scan_hits_sound :
    (m : Rdram) (want limit a : ℕ)
    → Listed a (scan_hits m want limit)
    → (k : ℕ) × (k < 0x200000) × (a ≡ 0x80000000 + 0 + 4 * k) × (load_be32 m (0 + 4 * k) ≡ want)
unfolding scan_hits
scan_hits_sound m want limit a l =
    matches_sound m want 0x200000 0 a
      (Listed-take a limit _ (rw (scan_words-eq-take m want 0x200000 0 limit) at l))

-- A scan that reports fewer addresses than its limit has reported every aligned word below 8 MiB
-- that holds the value.
scan_hits_complete :
    (m : Rdram) (want limit k : ℕ)
    → length (scan_hits m want limit) < limit
    → k < 0x200000
    → load_be32 m (0 + 4 * k) ≡ want
    → Listed (0x80000000 + 0 + 4 * k) (scan_hits m want limit)
unfolding scan_hits
scan_hits_complete m want limit k short h e =
    rw
      (
        scan_words-eq-take m want 0x200000 0 limit,
        take-all limit (matches m want 0x200000 0)
            (rw (scan_words-eq-take m want 0x200000 0 limit) at short),
      )
      (matches_complete m want 0x200000 0 k h e)

-- Every address that the scan reports is the KSEG0 address of an aligned word below 8 MiB that
-- holds the value; and a scan that reports fewer addresses than its limit has reported every such
-- word.
pub scan_hits_lem :
    (m : Rdram) (want limit : ℕ)
    → ((a : ℕ)
        → Listed a (scan_hits m want limit)
        → (k : ℕ) × (k < 0x200000)
          × (a ≡ 0x80000000 + 0 + 4 * k)
          × (load_be32 m (0 + 4 * k) ≡ want))
      × (length (scan_hits m want limit) < limit
          → (k : ℕ) → k < 0x200000
          → load_be32 m (0 + 4 * k) ≡ want
          → Listed (0x80000000 + 0 + 4 * k) (scan_hits m want limit))
scan_hits_lem m want limit =
    (scan_hits_sound m want limit, (λ short k h e. scan_hits_complete m want limit k short h e))

-- A peek of `n` bytes, the argument held to 1..256, at the low 29 bits of the address, is refused as
-- out of bounds exactly when it reaches beyond 8 MiB, whether or not the memory is there; otherwise
-- it answers the `n` bytes that the game sees from there on (byte `3 - p % 4` of the host's word for
-- the address `p`), or reports that there is no memory yet.
pub peek_lem :
    (rdram : Option Rdram) (addr : ℕ) (arg : ℤ)
    → Peeked rdram addr (addr % 2 ^ 29) (asked 256 arg) (peek rdram addr arg)
peek_lem rdram addr arg =
    rw (sym (physical-eq-mod addr), sym (clamp_count-eq-asked 256 arg (omega arith)))
      (peek-Peeked rdram addr arg)
