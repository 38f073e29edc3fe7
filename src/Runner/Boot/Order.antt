-- ===== src/Runner/Boot/Order.antt =====
-- The order of the start-up, and how it ends.
use pokemon_stadium_recomp.Prelude.{
  ℕ, ◌≡◌, Bool, true, false, ◌&&◌, ◌||◌, List, [], ◌∷◌, none, some, ◌==◌, if◌then◌else◌,
}
use pokemon_stadium_recomp.Runner.Audio.{Rates}
use pokemon_stadium_recomp.Runner.Rom.{Choice}
use pokemon_stadium_recomp.Runner.Boot.{
  Step, set_exception_filter, set_error_mode, at_exit_dump, set_audio_driver, set_volume, set_turbo,
  init_sdl, open_audio, start_ares_worker, start_debug_server, register_config_path, register_game,
  register_overlays, register_pre_task_hooks, register_voice_layout, select_rom,
  schedule_start_game, start_recomp, Ending, returned, exited, threw, Runner, Boot, AudioReset,
  no_device, no_converter, ready,
}

-- The steps told apart, whatever their arguments.
unfoldable pub kind : Step → ℕ
kind set_exception_filter = 0
kind set_error_mode = 1
kind at_exit_dump = 2
kind (set_audio_driver driver) = 3
kind set_volume = 4
kind set_turbo = 5
kind init_sdl = 6
kind open_audio = 7
kind start_ares_worker = 8
kind (start_debug_server port) = 9
kind register_config_path = 10
kind (register_game entry) = 11
kind register_overlays = 12
kind register_pre_task_hooks = 13
kind (register_voice_layout voices) = 14
kind (select_rom id) = 15
kind (schedule_start_game id) = 16
kind start_recomp = 17

-- What must have been done before a step: the driver before SDL reads it, SDL before its device, the
-- worker before the server whose commands it runs, the game before a ROM is held against its hash,
-- the ROM before the game that loads it, and the tables, the hooks and the server before the game runs.
unfoldable pub needs : Step → List ℕ
needs set_exception_filter = []
needs set_error_mode = []
needs at_exit_dump = []
needs (set_audio_driver driver) = []
needs set_volume = []
needs set_turbo = []
needs init_sdl = 3 ∷ []
needs open_audio = 6 ∷ []
needs start_ares_worker = []
needs (start_debug_server port) = 8 ∷ []
needs register_config_path = []
needs (register_game entry) = []
needs register_overlays = []
needs register_pre_task_hooks = []
needs (register_voice_layout voices) = []
needs (select_rom id) = 11 ∷ []
needs (schedule_start_game id) = 15 ∷ []
needs start_recomp = 7 ∷ 9 ∷ 12 ∷ 13 ∷ 14 ∷ 15 ∷ 16 ∷ []

unfoldable pub among : ℕ → List Step → Bool
unfolding kind
among k [] = false
among k (s ∷ ss) = (kind s == k) || among k ss

unfoldable pub all_among : List ℕ → List Step → Bool
unfolding among
all_among [] done = true
all_among (k ∷ ks) done = among k done && all_among ks done

-- Each step comes behind those that it needs.
unfoldable pub in_order : List Step → List Step → Bool
unfolding all_among needs
in_order done [] = true
in_order done (s ∷ ss) = all_among (needs s) done && in_order (s ∷ done) ss

pub has_rom : Choice → Bool
has_rom c = elim c.rom [ none ↦ false | some path ↦ true ]

-- How it ends, told by the answers alone.
unfoldable pub expected_ending : Bool → Bool → Bool → Ending
expected_ending opens builds rom =
    if opens then if builds then if rom then returned 0 else returned 1 else threw else exited 1

record Ordered (opens builds rom : Bool) (b : Boot) : Type 0 where
  pub order : in_order [] b.steps ≡ true
  pub runs : among (kind start_recomp) b.steps ≡ (opens && (builds && rom))
  pub ends : b.ending ≡ expected_ending opens builds rom

-- What `reset_audio` answers.
expected_audio : Bool → Bool → Rates → AudioReset
expected_audio opens builds rates =
    if opens then if builds then ready rates else no_converter else no_device
