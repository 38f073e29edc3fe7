-- ===== src/DebugServer/Memory/Reads.antt =====
-- What a peek answers, in the bytes that the game sees.
use pokemon_stadium_recomp.Prelude.{
  ℕ, ◌+◌, ◌∙◌, ◌≤◌, ◌<◌, ◌≡◌, refl, arith, ◌⊎◌, inl, inr, false, List, Option, none, some, length,
  Bool-cases, get_or, ltb,
}
use pokemon_stadium_recomp.Prelude.Int.{ℤ}
use pokemon_stadium_recomp.Rdram.{Rdram, physical, load_bytes}
use pokemon_stadium_recomp.Rdram.Words.{
  length-load_bytes, get_or-load_bytes, game_byte, load8-eq-game_byte,
}
use pokemon_stadium_recomp.DebugServer.Render.{clamp_count}
use pokemon_stadium_recomp.DebugServer.Memory.{Peek, oob, not_captured, bytes, peek}

-- What a peek of `n` bytes from the physical address `p` on answers: refused exactly when the bytes
-- reach beyond 8 MiB, and otherwise those bytes, or that there is no memory.
abbrev pub Peeked : Option Rdram → ℕ → ℕ → ℕ → Peek → Type 0
Peeked rdram addr p n answer =
    ((0x800000 < p + n) × (answer ≡ oob))
    ⊎ (((p + n ≤ 0x800000) × (rdram ≡ none) × (answer ≡ not_captured))
        ⊎ ((p + n ≤ 0x800000)
            × (m : Rdram) × (bs : List ℕ) × (rdram ≡ some m)
            × (length bs ≡ n)
            × ((i : ℕ) → i < n → get_or bs i 0 ≡ game_byte m (p + i))
            × (answer ≡ bytes addr n bs)))

pub peek-Peeked :
    (rdram : Option Rdram) (addr : ℕ) (arg : ℤ)
    → Peeked rdram addr (physical addr) (clamp_count 256 arg) (peek rdram addr arg)
unfolding peek
peek-Peeked rdram addr arg =
    elim (Bool-cases (ltb 0x800000 (physical addr + clamp_count 256 arg))) [
      | inl beyond ↦ inl (ground arith, rw beyond refl)
      | inr within ↦ inr (inside rdram (ground arith) within)
    ]
  where
    n : ℕ
    n = clamp_count 256 arg

    inside :
        (rdram : Option Rdram)
        → physical addr + n ≤ 0x800000
        → ltb 0x800000 (physical addr + n) ≡ false
        → ((physical addr + n ≤ 0x800000) × (rdram ≡ none) × (peek rdram addr arg ≡ not_captured))
          ⊎ ((physical addr + n ≤ 0x800000)
              × (m : Rdram) × (bs : List ℕ) × (rdram ≡ some m)
              × (length bs ≡ n)
              × ((i : ℕ) → i < n → get_or bs i 0 ≡ game_byte m (physical addr + i))
              × (peek rdram addr arg ≡ bytes addr n bs))
    inside none h within = inl (h, refl, rw within refl)
    inside (some m) h within = inr (
      h,
      m,
      load_bytes m (physical addr) n,
      refl,
      length-load_bytes m (physical addr) n,
      (λ i below.
          get_or-load_bytes m (physical addr) n i below ∙ load8-eq-game_byte m (physical addr + i)),
      rw within refl,
    )
