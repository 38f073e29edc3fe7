-- ===== src/Examples/Frontend.antt =====
-- The renderer's and the runner's theorems at concrete settings and inputs.
use pokemon_stadium_recomp.Prelude.{
  ℕ, ◌+◌, ◌*◌, ◌/◌, ◌^◌, ◌≤◌, ◌≡◌, arith, true, false, List, [], ◌∷◌, Option, none, some, max, leb,
  ◌&&◌, length, if◌then◌else◌,
}
use pokemon_stadium_recomp.Prelude.Int.{ℤ, pos}
use pokemon_stadium_recomp.Prelude.Bits.{bit}
use pokemon_stadium_recomp.DebugServer.State.{Pad}
use pokemon_stadium_recomp.Renderer.Config.{
  original_2x, clamp_16x9, expand, aspect_original, msaa_4x, no_msaa, rate_original, display, on,
  standard, windowed, GraphicsConfig, UserConfig, DoubleOps, Overrides, rt_original,
  double_buffering, linear, scaled_only, set_application_user_config,
}
use pokemon_stadium_recomp.Renderer.Context.{Scale, of_multiplier, get_resolution_scale}
use pokemon_stadium_recomp.Renderer.Context.Scaling.{
  forced_multiplier, Scaled, set_application_user_config-scale,
}
use pokemon_stadium_recomp.Runner.Input.{SdlPad, PadButtons, get_n64_input}
use pokemon_stadium_recomp.Runner.Input.Held.{a_button, asking, any, get_n64_input-held}
use pokemon_stadium_recomp.Prelude.Text.{codes}
use pokemon_stadium_recomp.Runner.Rom.{System, good, incorrect_rom, from_cli, choose_rom}
use pokemon_stadium_recomp.Runner.Rom.FirstValid.{first_candidate, expected, choose_rom-eq-expected}
use pokemon_stadium_recomp.Runner.Audio.Thinning.{
  queue_converted, bytes_to_queue, skip_factor, first_sample,
}
use pokemon_stadium_recomp.Runner.Audio.Thinning.Skipped.{queue_converted-frames}
use pokemon_stadium_recomp.Runner.Audio.{Volume, Rates}

-- Doubles by whole numbers.
abbrev doubles : DoubleOps ℕ
doubles = record {
  of_int = λ n. n;
  sixteen_ninths = 2;
  strtod = λ text. some (length text);
  in_range = λ m. leb 1 m && leb m 16;
}

abbrev settings : GraphicsConfig
settings = record {
  res_option = original_2x;
  ds_option = pos 2;
  hr_option = clamp_16x9;
  ar_option = expand;
  msaa_option = msaa_4x;
  rr_option = display;
  rr_manual_value = pos 60;
  hpfb_option = on;
  wm_option = windowed;
}

abbrev defaults : UserConfig ℕ
defaults = record {
  resolution = rt_original;
  resolution_multiplier = 1;
  downsample_multiplier = 1;
  ext_aspect_ratio = aspect_original;
  ext_aspect_target = 2;
  aspect_ratio = aspect_original;
  antialiasing = no_msaa;
  refresh_rate = rate_original;
  refresh_rate_target = pos 60;
  internal_color_format = standard;
  display_buffering = double_buffering;
  filtering = linear;
  upscale_2d = scaled_only;
  three_point_filtering = true;
}

abbrev unset : Overrides
unset = record { res_mult = none; filtering = none; upscale = none; three_point = none }

abbrev scale_of_settings : Scale ℕ
scale_of_settings =
    get_resolution_scale 720 (set_application_user_config doubles unset settings defaults)

set_application_user_config-scale_example :
    ((m : ℕ) → forced_multiplier doubles none ≡ some m → scale_of_settings ≡ of_multiplier m)
    × (forced_multiplier doubles none ≡ none
        → Scaled doubles original_2x (max 2 1) 720 scale_of_settings)
set_application_user_config-scale_example =
    set_application_user_config-scale doubles unset settings defaults 720 (omega arith)

abbrev armed : Pad
armed = record { active = true; buttons = 0x1000; stick_x = pos 0; stick_y = pos 0 }

abbrev a_held : PadButtons
a_held = record {
  a = true;
  b = false;
  left_shoulder = false;
  start = false;
  dpad_up = false;
  dpad_down = false;
  dpad_left = false;
  dpad_right = false;
  left_stick = false;
  right_shoulder = false;
}

abbrev pad : Option SdlPad
pad = some (record { buttons = a_held; lx = pos 12000; ly = pos 0; rx = pos 0; ry = pos 0 })

get_n64_input-held_example :
    bit 15 (get_n64_input 0 armed pad none).1.buttons
    ≡ max (if any (asking a_button pad none) then 1 else 0) (bit 15 0x1000)
get_n64_input-held_example = get_n64_input-held a_button armed pad none

-- Samples as they are, at full volume.
abbrev loud : Volume ℤ
loud = record { muted = false; scaled = λ n. n }

abbrev chunk : List ℤ
chunk = pos 1 ∷ pos 2 ∷ pos 3 ∷ pos 4 ∷ pos 5 ∷ pos 6 ∷ pos 7 ∷ pos 8 ∷ pos 9 ∷ pos 10 ∷ []

-- Files with names of five letters are good ROMs.
abbrev files : System
files = record {
  rom_cfg = none;
  beside = codes "b";
  above = codes "a";
  exists = λ path. leb 2 (length path);
  select_rom = λ path. if leb 5 (length path) then good else incorrect_rom;
}

-- A bad path on the command line, then a good pick.
choose_rom-eq-expected_example :
    choose_rom files (some (codes "old")) (codes "taken" ∷ [])
    ≡ expected files
        (from_cli (some (codes "old"))).1
        (first_candidate files (some (codes "old")) ∷ codes "taken" ∷ [])
choose_rom-eq-expected_example =
    choose_rom-eq-expected files (some (codes "old")) (codes "taken" ∷ [])

abbrev rates : Rates
rates = record { sample_rate = 32000; output_sample_rate = 48000; discarded_output_frames = 6 }

-- A tenth of a second is queued, so every second frame goes.
queue_converted-frames_example :
    ((queue_converted 25600 rates 400 (λ i. i)).0
      ≡ bytes_to_queue 400 rates / 2 ^ skip_factor 25600 rates)
    × ((queue_converted 25600 rates 400 (λ i. i)).1 (2 * 3 + 1)
        ≡ first_sample rates + (2 * 2 ^ skip_factor 25600 rates * 3 + 1))
    × (4 * (2 * 2 ^ skip_factor 25600 rates * 3 + 1) + 4 ≤ bytes_to_queue 400 rates)
unfolding queue_converted
queue_converted-frames_example =
    queue_converted-frames 25600 rates 400 (λ i. i) 3 1 (omega arith) (omega arith)
