-- ===== src/Extras/Memmap.antt =====
-- The hooks of extras.c on `Memmap_GetFragmentVaddr`: the exit hook replaces the game's fragment_answer for
-- addresses of the synthetic pool and of the ambiguous bucket 0x8FF00000.
pub mod Answers
use pokemon_stadium_recomp.Prelude.{
  ℕ, ◌+◌, List, [], ◌∷◌, Option, none, some, Bool, ltb, leb, ◌==◌, if◌then◌else◌, ◌||◌, not,
  bit_and,
}
use pokemon_stadium_recomp.Extras.Args.{Saved, empty, save, restore_or_first}

-- librecomp's tables of loaded fragments. A resolver answers 0 for an address that is not its own.
pub record Resolvers : Type 0 where
  pub resolve_synthetic_fragment : ℕ → ℕ
  pub addr_in_loaded_variant : ℕ → ℕ → Bool
  pub resolve_via_data_context : ℕ → ℕ → ℕ

-- The saved inputs, and `s_n_logged` of the exit hook.
pub record Memmap : Type 0 where
  pub inputs : Saved ℕ
  pub n_logged : ℕ

-- in, game-result, data-ctx, resolved
pub record ContextLine : Type 0 where
  pub input : ℕ
  pub game_result : ℕ
  pub data_ctx : ℕ
  pub resolved : ℕ

-- The exit hook's return value, what it prints, and the state behind it.
pub record Answer : Type 0 where
  pub value : ℕ
  pub lines : List ContextLine
  pub after : Memmap

unfoldable pub memmap_get_enter : ℕ → Memmap → Option Memmap
unfolding save
memmap_get_enter input m = elim (save 16 0 input m.inputs) [
  | none ↦ none
  | some s ↦ some (record m { inputs = s })
]

-- `input & 0xFFF00000u`
abbrev pub bucket_of : ℕ → ℕ
bucket_of input = bit_and input 0xFFF00000

-- The last step: by the walker's data context, else the game's fragment_answer.
unfoldable pub resolve_in_context : Resolvers → ℕ → ℕ → ℕ → Memmap → Answer
resolve_in_context r input game_result data_ctx m =
    let resolved = r.resolve_via_data_context input data_ctx in
    record {
      value = if resolved == 0 then game_result else resolved;
      lines =
          if ltb m.n_logged 16
          then record {
            input = input;
            game_result = game_result;
            data_ctx = data_ctx;
            resolved = resolved;
          }
            ∷ []
          else [];
      after = record m { n_logged = m.n_logged + 1 };
    }

unfoldable pub fragment_answer : Resolvers → ℕ → ℕ → ℕ → Memmap → Answer
unfolding resolve_in_context
fragment_answer r input game_result data_ctx m =
    if not (r.resolve_synthetic_fragment input == 0)
    then record { value = r.resolve_synthetic_fragment input; lines = []; after = m }
    else if not (bucket_of input == 0x8FF00000)
    then record { value = game_result; lines = []; after = m }
    else if ltb input 0x81000000 || leb 0x90000000 input
    then record { value = game_result; lines = []; after = m }
    else if r.addr_in_loaded_variant (bucket_of input) game_result
    then record { value = game_result; lines = []; after = m }
    else resolve_in_context r input game_result data_ctx m

unfoldable pub memmap_get_exit : Resolvers → ℕ → ℕ → Memmap → Answer
unfolding restore_or_first fragment_answer
memmap_get_exit r game_result data_ctx m =
    fragment_answer r (restore_or_first 16 0 m.inputs).0 game_result data_ctx
      (record m { inputs = (restore_or_first 16 0 m.inputs).1 })

unfoldable pub initial : Memmap
unfolding empty
initial = record { inputs = empty 16 0; n_logged = 0 }
