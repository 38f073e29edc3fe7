-- ===== src/Extras/Snapshots/Reversed.antt =====
-- The words that the walk of a submitted list reads, in the bytes that the game sees.
use pokemon_stadium_recomp.Prelude.{
  ℕ, zero, suc, ◌+◌, ◌*◌, ◌/◌, ◌%◌, ◌^◌, ◌<◌, ◌≡◌, refl, ap, ◌∙◌, arith, List, [], ◌∷◌, ◌&&◌,
  bit_or, leb, ◌==◌, bit_xor, ◌-◌,
}
use pokemon_stadium_recomp.Prelude.Bits.{bit_xor_three, bit_and_mask, bit_or_fields}
use pokemon_stadium_recomp.Rdram.{Rdram, IsBytes, load8}
use pokemon_stadium_recomp.Rdram.Words.{word-eq-sum}
use pokemon_stadium_recomp.Extras.Snapshots.{
  raw_word, raw_bytes, opcode, push_flag, offset_of, is_call, call_snapshot,
}

-- The four bytes that the game sees from `p` on, the last one on top.
unfoldable pub reversed_word : Rdram → ℕ → ℕ
reversed_word m p =
    load8 m (p + 3) * 2 ^ 24 + load8 m (p + 2) * 2 ^ 16 + load8 m (p + 1) * 2 ^ 8 + load8 m p

-- `n` bytes of the host's array behind the `i`-th from `start` on.
unfoldable pub host_bytes : Rdram → ℕ → ℕ → ℕ → List ℕ
host_bytes m start zero i = []
host_bytes m start (suc n) i = m (start + i) ∷ host_bytes m start n (i + 1)

pub raw_word-eq-sum :
    (m : Rdram) (off : ℕ)
    → IsBytes m
    → raw_word m off ≡ m off * 2 ^ 24 + m (off + 1) * 2 ^ 16 + m (off + 2) * 2 ^ 8 + m (off + 3)
unfolding raw_word
raw_word-eq-sum m off b =
    word-eq-sum (m off) (m (off + 1)) (m (off + 2)) (m (off + 3)) (b (off + 1)) (b (off + 2))
      (b (off + 3))

pub opcode-eq-byte : (m : Rdram) (off : ℕ) → IsBytes m → opcode (raw_word m off) ≡ m off
unfolding opcode
opcode-eq-byte m off b =
    rw (bit_and_mask 8 (raw_word m off / 2 ^ 24), raw_word-eq-sum m off b)
      (omega (arith, b off, b (off + 1), b (off + 2), b (off + 3)))

pub push_flag-eq-byte : (m : Rdram) (off : ℕ) → IsBytes m → push_flag (raw_word m off) ≡ m (off + 1)
unfolding push_flag
push_flag-eq-byte m off b =
    rw (bit_and_mask 8 (raw_word m off / 2 ^ 16), raw_word-eq-sum m off b)
      (omega (arith, b off, b (off + 1), b (off + 2), b (off + 3)))

pub host_place : (off k : ℕ) → off % 4 ≡ 0 → k < 4 → bit_xor (off + k) 3 ≡ off + (3 - k)
host_place off k aligned h = omega (arith, bit_xor_three (off + k))

-- The byte that the walk takes for the opcode is, at an aligned command, the last one of the command's
-- first word as the game sees it, and the push flag is the one before it.
pub opcode-eq-load8 :
    (m : Rdram) (off : ℕ)
    → IsBytes m
    → off % 4 ≡ 0
    → (opcode (raw_word m off) ≡ load8 m (off + 3))
      × (push_flag (raw_word m off) ≡ load8 m (off + 2))
unfolding load8
opcode-eq-load8 m off b aligned = (
  opcode-eq-byte m off b ∙ ap m (omega (arith, host_place off 3 aligned (omega arith))),
  push_flag-eq-byte m off b ∙ ap m (omega (arith, host_place off 2 aligned (omega arith))),
)

pub raw_word-eq-reversed :
    (m : Rdram) (off : ℕ) → IsBytes m → off % 4 ≡ 0 → raw_word m off ≡ reversed_word m off
unfolding reversed_word load8
raw_word-eq-reversed m off b aligned =
    raw_word-eq-sum m off b
    ∙ rw
        (
          host_place off 3 aligned (omega arith),
          host_place off 2 aligned (omega arith),
          host_place off 1 aligned (omega arith),
          bit_xor_three off,
        )
        (omega (
          arith,
          ap m (let e : off + (3 - 3) ≡ off = omega arith in e),
          ap m (let e : off + (3 - 2) ≡ off + 1 = omega arith in e),
          ap m (let e : off + (3 - 1) ≡ off + 2 = omega arith in e),
          ap m (let e : off / 4 * 4 + (3 - off % 4) ≡ off + 3 = omega (arith, aligned) in e),
        ))

pub raw_bytes-eq-host_bytes :
    (m : Rdram) (start n i : ℕ) → raw_bytes m (start + i) n ≡ host_bytes m start n i
unfolding raw_bytes host_bytes
raw_bytes-eq-host_bytes m start zero i = refl
raw_bytes-eq-host_bytes m start (suc n) i =
    ap (λ l. m (start + i) ∷ l)
      (ap (λ p. raw_bytes m p n) (let e : start + i + 1 ≡ start + (i + 1) = omega arith in e)
        ∙ raw_bytes-eq-host_bytes m start n (i + 1))

-- What the code takes of a pair of words.
pub call_snapshot-eq-expected :
    (m : Rdram) (submit_seq off w1 : ℕ)
    → off < 2 ^ 31
    → call_snapshot m submit_seq off w1 ≡ record {
      submit_seq = submit_seq;
      target_vaddr = w1;
      parent_vaddr = 0x80000000 + off;
      head = host_bytes m (w1 % 2 ^ 23) 16 0;
    }
unfolding call_snapshot
call_snapshot-eq-expected m submit_seq off w1 small =
    let start : offset_of w1 ≡ w1 % 2 ^ 23 + 0 = omega (arith, bit_and_mask 23 w1) in
    let heads : raw_bytes m (offset_of w1) 16 ≡ host_bytes m (w1 % 2 ^ 23) 16 0 =
      ap (λ p. raw_bytes m p 16) start ∙ raw_bytes-eq-host_bytes m (w1 % 2 ^ 23) 16 0 in
    let parent : bit_or 0x80000000 off ≡ 0x80000000 + off = bit_or_fields 31 1 off small in
    rw (heads, parent) refl

pub is_call-eq-bytes :
    (m : Rdram) (off w1 : ℕ)
    → IsBytes m
    → off % 4 ≡ 0
    → is_call (raw_word m off) w1
      ≡ (load8 m (off + 3) == 0xDE) && (load8 m (off + 2) == 1) && leb (w1 % 2 ^ 23 + 16) 0x800000
unfolding is_call
is_call-eq-bytes m off w1 b aligned =
    rw
      ((opcode-eq-load8 m off b aligned).0, (opcode-eq-load8 m off b aligned).1, bit_and_mask 23 w1)
      refl
