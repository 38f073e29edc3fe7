-- ===== src/Extras/Pool.antt =====
-- The hooks of extras.c on the game's main pool: the expansion write before it is set up, the log and
-- the silencing of voices before a pop of its state.
use pokemon_stadium_recomp.Prelude.{
  ℕ, ◌+◌, Bool, true, false, not, Option, none, some, leb, if◌then◌else◌,
}
use pokemon_stadium_recomp.Rdram.{Rdram, store8, load_be32, in_rdram, physical}

-- `gExpansionRAMStart = 1`, once: the flag is `s_logged`.
unfoldable pub force_expansion_ram : Rdram → Bool → Rdram × Bool
unfolding store8
force_expansion_ram m true = (m, true)
force_expansion_ram m false = (
  store8 (store8 (store8 (store8 m 0x00068B90 0) (0x00068B90 + 1) 0) (0x00068B90 + 2) 0)
      (0x00068B90 + 3) 1,
  true,
)

-- The line of `pkmnstadium_pool_pop_log`.
pub record PopLine : Type 0 where
  pub arg : ℕ
  pub caller : ℕ
  pub game_state : ℕ
  pub avail : ℕ
  pub head_l : ℕ
  pub head_r : ℕ
  pub state_p : ℕ
  pub free : ℕ
  pub l : ℕ
  pub r : ℕ

-- A field of the saved state; a state outside of RDRAM shows zeros.
unfoldable pub state_field : Rdram → ℕ → ℕ → ℕ
unfolding load_be32
state_field m state_p off = if in_rdram state_p then load_be32 m (physical state_p + off) else 0

unfoldable pub pool_pop_log : Rdram → ℕ → ℕ → PopLine
unfolding load_be32 state_field
pool_pop_log m arg caller_pc =
    let pool_paddr : ℕ = 0x000A6070 in
    let state_p = load_be32 m (pool_paddr + 0x30) in
    record {
      arg = arg;
      caller = caller_pc;
      game_state = load_be32 m 0x00075668;
      avail = load_be32 m (pool_paddr + 0x1C);
      head_l = load_be32 m (pool_paddr + 0x28);
      head_r = load_be32 m (pool_paddr + 0x2C);
      state_p = state_p;
      free = state_field m state_p 0x00;
      l = state_field m state_p 0x04;
      r = state_field m state_p 0x08;
    }

-- The range that the pop frees, if the hook finds one to silence.
unfoldable pub freed_range : ℕ → ℕ → ℕ → Option (ℕ × ℕ)
freed_range cur_l state_v saved_l =
    if not (in_rdram state_v)
    then none
    else if not (in_rdram cur_l)
    then none
    else if not (in_rdram saved_l)
    then none
    else if leb cur_l saved_l
    then none
    else some (saved_l, cur_l)

-- librecomp's `librecomp_audio_uaf_silence_voices_in_range` is the parameter: what it makes of the
-- memory for a range of addresses.
unfoldable pub pool_pop_silence_voices : (ℕ → ℕ → Rdram → Rdram) → Rdram → Rdram
unfolding load_be32 freed_range
pool_pop_silence_voices silence_voices_in_range m =
    let cur_l = load_be32 m (0x000A6070 + 0x28) in
    let state_v = load_be32 m (0x000A6070 + 0x30) in
    elim (freed_range cur_l state_v (load_be32 m (physical state_v + 0x04))) [
      | none ↦ m
      | some (saved_l, end_l) ↦ silence_voices_in_range saved_l end_l m
    ]
