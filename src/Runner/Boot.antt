-- ===== src/Runner/Boot.antt =====
-- `main`, from its first step to `recomp::start`. What the libraries answer on the
-- way is a parameter.
pub mod Order
use pokemon_stadium_recomp.Prelude.{
  ℕ, ◌+◌, ◌%◌, ◌^◌, Bool, true, false, List, [], ◌∷◌, ◌++◌, Option, none, some, ◌==◌, if◌then◌else◌,
}
use pokemon_stadium_recomp.Prelude.Text.{Bytes, codes}
use pokemon_stadium_recomp.DebugServer.State.{Dbg}
use pokemon_stadium_recomp.DebugServer.Queries.{FloatOps}
use pokemon_stadium_recomp.Runner.Audio.{Rates, update_audio_converter}
use pokemon_stadium_recomp.Runner.Turbo.{turbo_default, start_volume}
use pokemon_stadium_recomp.Runner.Rom.{System, Choice, choose_rom}

-- `spec_desired` of `reset_audio`; the format is `AUDIO_F32`.
pub record AudioSpec : Type 0 where
  pub freq : ℕ
  pub channels : ℕ
  pub samples : ℕ

unfoldable pub spec_desired : ℕ → AudioSpec
spec_desired output_freq = record { freq = output_freq; channels = 2; samples = 0x100 }

-- `reset_audio`: no device ends the process, and no converter throws.
pub data AudioReset : Type 0 where
  no_device : AudioReset
  no_converter : AudioReset
  ready : Rates → AudioReset

unfoldable pub reset_audio : (AudioSpec → Bool) → (ℕ → ℕ → Bool) → ℕ → Rates → AudioReset
unfolding update_audio_converter spec_desired
reset_audio opens builds output_freq r =
    if opens (spec_desired output_freq)
    then elim (update_audio_converter builds (record r { output_sample_rate = output_freq })) [
      | none ↦ no_converter
      | some r' ↦ ready r'
    ]
    else no_device

-- `recomp::GameEntry`, as far as `main` fills it with data.
pub record GameEntry : Type 0 where
  pub rom_hash : ℕ
  pub internal_name : Bytes
  pub game_id : Bytes
  pub mod_game_id : Bytes
  pub save_type : Bytes
  pub is_enabled : Bool
  pub has_compressed_code : Bool
  pub entrypoint_address : ℕ

-- `get_entrypoint_address` is generated.
unfoldable pub game : ℕ → GameEntry
game entrypoint = record {
  rom_hash = 0x6E46EACF8F27011D;
  internal_name = codes "POKEMON STADIUM";
  game_id = codes "pokestadium.us.1.0";
  mod_game_id = codes "pokestadium";
  save_type = codes "Eep4k";
  is_enabled = true;
  has_compressed_code = false;
  entrypoint_address = entrypoint;
}

-- `librecomp::audio_uaf::VoiceLayout`
pub record VoiceLayout : Type 0 where
  pub n_syn_var_vaddr : ℕ
  pub alloc_list_offset : ℕ
  pub lame_list_offset : ℕ
  pub voice_em_motion_offset : ℕ
  pub voice_dc_table_offset : ℕ
  pub voice_em_motion_stopped_value : ℕ
  pub max_voice_count : ℕ

unfoldable pub layout : VoiceLayout
layout = record {
  n_syn_var_vaddr = 0x80078584;
  alloc_list_offset = 0x0C;
  lame_list_offset = 0x14;
  voice_em_motion_offset = 0x84;
  voice_dc_table_offset = 0x20;
  voice_em_motion_stopped_value = 0;
  max_voice_count = 64;
}

-- The steps of `main`, in the source's words.
pub data Step : Type 0 where
  set_exception_filter : Step
  set_error_mode : Step
  at_exit_dump : Step
  set_audio_driver : Bytes → Step
  set_volume : Step
  set_turbo : Step
  init_sdl : Step
  open_audio : Step
  start_ares_worker : Step
  start_debug_server : ℕ → Step
  register_config_path : Step
  register_game : GameEntry → Step
  register_overlays : Step
  register_pre_task_hooks : Step
  register_voice_layout : VoiceLayout → Step
  select_rom : Bytes → Step
  schedule_start_game : Bytes → Step
  start_recomp : Step

-- How `main` ends: by its return value, by `exit`, or by an exception that nothing catches.
pub data Ending : Type 0 where
  returned : ℕ → Ending
  exited : ℕ → Ending
  threw : Ending

-- The answers on the way.
pub record BootHost : Type 0 where
  pub floats : FloatOps
  pub volume_env : Option Bytes
  pub turbo_env : Option Bytes
  pub device_opens : AudioSpec → Bool
  pub converter_builds : ℕ → ℕ → Bool
  pub entrypoint : ℕ
  pub system : System
  pub argument : Option Bytes
  pub picks : List Bytes

-- `s_turbo_persistent` beside the server's globals and the audio rates.
pub record Runner : Type 0 where
  pub dbg : Dbg
  pub persistent : Bool
  pub rates : Rates

-- The steps that were made, how it ended, and what it left.
pub record Boot : Type 0 where
  pub steps : List Step
  pub ending : Ending
  pub runner : Runner
  pub choice : Option Choice

-- From the choice of the ROM on.
unfoldable pub boot_game : Choice → GameEntry → List Step → Runner → Boot
boot_game c entry done r = elim c.rom [
  | none ↦ record {
    steps = done ++ select_rom entry.game_id ∷ [];
    ending = returned 1;
    runner = r;
    choice = some c;
  }
  | some path ↦ record {
    steps =
        done ++ (select_rom entry.game_id ∷ schedule_start_game entry.game_id ∷ start_recomp ∷ []);
    ending = returned 0;
    runner = r;
    choice = some c;
  }
]

abbrev pub first_steps : List Step
first_steps =
    set_exception_filter
    ∷ set_error_mode
    ∷ at_exit_dump
    ∷ set_audio_driver (codes "wasapi")
    ∷ set_volume
    ∷ set_turbo
    ∷ init_sdl
    ∷ open_audio
    ∷ []

abbrev pub middle_steps : GameEntry → List Step
middle_steps entry =
    start_ares_worker
    ∷ start_debug_server 4371
    ∷ register_config_path
    ∷ register_game entry
    ∷ register_overlays
    ∷ register_pre_task_hooks
    ∷ register_voice_layout layout
    ∷ []

-- The two variables.
unfoldable pub configured : BootHost → Runner → Runner
unfolding turbo_default start_volume
configured h r = record r {
  dbg = record (start_volume h.floats h.volume_env r.dbg) {
    fast_forward = turbo_default h.turbo_env;
  };
  persistent = turbo_default h.turbo_env;
}

-- Behind `reset_audio(48000)`.
unfoldable pub boot_audio : BootHost → Runner → AudioReset → Boot
unfolding choose_rom boot_game game layout
boot_audio h r no_device = record {
  steps = first_steps;
  ending = exited 1;
  runner = r;
  choice = none;
}
boot_audio h r no_converter = record {
  steps = first_steps;
  ending = threw;
  runner = r;
  choice = none;
}
boot_audio h r (ready rates) =
    boot_game (choose_rom h.system h.argument h.picks) (game h.entrypoint)
      (first_steps ++ middle_steps (game h.entrypoint)) (record r { rates = rates })

unfoldable pub boot : BootHost → Runner → Boot
unfolding configured reset_audio boot_audio
boot h r =
    boot_audio h (configured h r)
      (reset_audio h.device_opens h.converter_builds 48000 (configured h r).rates)
