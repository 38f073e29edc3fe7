-- ===== src/Rdram.antt =====
-- The N64 memory image as the host holds it: `rdram[(paddr) ^ 3]` is the byte that the game sees
-- at the physical address `paddr`. extras.c, debug_server.cpp and post_mortem.cpp all read and
-- write it through the macros and expressions below.
pub mod Words
pub mod Store
use pokemon_stadium_recomp.Prelude.{
  ℕ, ◌+◌, ◌*◌, ◌^◌, ◌<◌, bit_and, bit_or, bit_xor, Bool, ◌&&◌, List, [], ◌∷◌, ltb, leb, ◌==◌,
  if◌then◌else◌, zero, suc,
}

-- The host array, by host index.
abbrev pub Rdram : Type 0
Rdram = ℕ → ℕ

abbrev pub IsBytes : Rdram → Type 0
IsBytes m = (i : ℕ) → m i < 256

-- `rdram[(paddr) ^ 3]`
unfoldable pub load8 : Rdram → ℕ → ℕ
load8 m paddr = m (bit_xor paddr 3)

-- `rdram[(paddr) ^ 3] = v`
unfoldable pub store8 : Rdram → ℕ → ℕ → Rdram
store8 m paddr v i = if i == bit_xor paddr 3 then v else m i

-- `MEM_LOAD_BE32`: four bytes, the first one on top.
unfoldable pub load_be32 : Rdram → ℕ → ℕ
unfolding load8
load_be32 m paddr =
    bit_or
      (bit_or (bit_or (load8 m paddr * 2 ^ 24) (load8 m (paddr + 1) * 2 ^ 16))
        (load8 m (paddr + 2) * 2 ^ 8))
      (load8 m (paddr + 3))

-- `v >= 0x80000000u && v < 0x80800000u`
abbrev pub in_rdram : ℕ → Bool
in_rdram v = leb 0x80000000 v && ltb v 0x80800000

-- `v & 0x1FFFFFFFu`
abbrev pub physical : ℕ → ℕ
physical v = bit_and v 0x1FFFFFFF

-- `for (b = 0; b < 4; b++) rdram[(paddr + b) ^ 3] = 0`
unfoldable pub zero_word : Rdram → ℕ → Rdram
unfolding store8
zero_word m paddr =
    store8 (store8 (store8 (store8 m paddr 0) (paddr + 1) 0) (paddr + 2) 0) (paddr + 3) 0

-- `n` bytes from `paddr` on, as the game sees them.
unfoldable pub load_bytes : Rdram → ℕ → ℕ → List ℕ
load_bytes m paddr zero = []
load_bytes m paddr (suc n) = load8 m paddr ∷ load_bytes m (paddr + 1) n
