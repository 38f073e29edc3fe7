-- ===== src/Extras/Voices.antt =====
-- `pkmnstadium_audio_stop_voices` of extras.c: it stops the game's voices and libnaudio's, by clearing
-- a word of each in the game's memory.
pub mod Erased
pub mod Stopped
pub mod Cleared
pub mod Sources
use pokemon_stadium_recomp.Prelude.{
  ℕ, zero, suc, ◌+◌, List, [], ◌∷◌, ◌++◌, Bool, true, false, not, ◌||◌, ltb, ◌==◌, if◌then◌else◌,
}
use pokemon_stadium_recomp.Rdram.{Rdram, load_be32, zero_word, in_rdram, physical}

-- The lines on stderr, with the values that each shows.
pub data Line : Type 0 where
  array_out_of_range : ℕ → Line
  count_out_of_range : ℕ → Line
  cleared : ℕ → ℕ → Line
  n_syn_not_in_rdram : ℕ → Line
  aux_bus_not_in_rdram : ℕ → Line
  sources_skipped : ℕ → ℕ → Line
  stopped : ℕ → ℕ → ℕ → Line

-- `s_logged` and `s_lib_logged`
pub record Logged : Type 0 where
  pub voices : Bool
  pub sources : Bool

pub record Outcome : Type 0 where
  pub rdram : Rdram
  pub lines : List Line
  pub logged : Logged

-- The first loop: the word at 0x38 of each of `n` voices of 0x150 bytes, from `paddr` on.
unfoldable pub clear_voices : Rdram → ℕ → ℕ → Rdram
unfolding zero_word
clear_voices m paddr zero = m
clear_voices m paddr (suc n) = clear_voices (zero_word m (paddr + 0x38)) (paddr + 0x150) n

-- One round of the second loop: the word at 0x84 of the N_PVoice that the pointer at `paddr` points
-- at, if that lies in RDRAM.
unfoldable pub stop_source : Rdram → ℕ → Rdram
unfolding zero_word
stop_source m paddr =
    if in_rdram (load_be32 m paddr) then zero_word m (physical (load_be32 m paddr) + 0x84) else m

-- The second loop over `n` pointers from `paddr` on. Each pointer is read from the memory as the loop
-- has left it so far.
unfoldable pub stop_sources : Rdram → ℕ → ℕ → Rdram
stop_sources m paddr zero = m
stop_sources m paddr (suc n) = stop_sources (stop_source m paddr) (paddr + 4) n

-- `stopped`, which counts along.
unfoldable pub stopped_sources : Rdram → ℕ → ℕ → ℕ
stopped_sources m paddr zero = 0
stopped_sources m paddr (suc n) =
    (if in_rdram (load_be32 m paddr) then 1 else 0)
    + stopped_sources (stop_source m paddr) (paddr + 4) n

abbrev refused : Rdram → Line → Logged → Outcome
refused m line f = record { rdram = m; lines = line ∷ []; logged = f }

-- The block on libnaudio's voices, at the pointers and the count that it has read.
unfoldable pub stop_through : Rdram → Logged → ℕ → ℕ → ℕ → ℕ → Outcome
unfolding stop_sources stopped_sources
stop_through m f n_syn aux_bus source_count sources =
    if not (in_rdram n_syn)
    then refused m (n_syn_not_in_rdram n_syn) f
    else if not (in_rdram aux_bus)
    then refused m (aux_bus_not_in_rdram aux_bus) f
    else if (source_count == 0) || ltb 64 source_count || not (in_rdram sources)
    then refused m (sources_skipped source_count sources) f
    else record {
      rdram = stop_sources m (physical sources) source_count;
      lines =
          if f.sources
          then []
          else stopped (stopped_sources m (physical sources) source_count) source_count sources
            ∷ [];
      logged = record f { sources = true };
    }

-- It reads them one through the other: `n_syn`, `n_syn->auxBus`, `auxBus->sourceCount`,
-- `auxBus->sources`.
unfoldable pub stop_libnaudio : Rdram → Logged → Outcome
unfolding load_be32 stop_through
stop_libnaudio m f =
    let n_syn = load_be32 m 0x00078584 in
    let aux_bus = load_be32 m (physical n_syn + 0x34) in
    stop_through m f n_syn aux_bus (load_be32 m (physical aux_bus + 0x14))
      (load_be32 m (physical aux_bus + 0x1C))

-- A line in front of those of the rest.
unfoldable pub say_first : List Line → Outcome → Outcome
say_first out o = record o { lines = out ++ o.lines }

-- The whole stop, at the count and the array that it has read.
unfoldable pub stop_at : Rdram → Logged → ℕ → ℕ → Outcome
unfolding clear_voices stop_libnaudio say_first
stop_at m f count arr =
    if (arr == 0) || not (in_rdram arr)
    then refused m (array_out_of_range arr) f
    else if (count == 0) || ltb 256 count
    then refused m (count_out_of_range count) f
    else say_first (if f.voices then [] else cleared count arr ∷ [])
        (stop_libnaudio (clear_voices m (physical arr) count) (record f { voices = true }))

unfoldable pub audio_stop_voices : Rdram → Logged → Outcome
unfolding load_be32 stop_at
audio_stop_voices m f = stop_at m f (load_be32 m 0x000FC7CC) (load_be32 m 0x000FC7D0)
