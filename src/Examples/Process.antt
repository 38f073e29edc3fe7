-- ===== src/Examples/Process.antt =====
-- The theorems on the start-up, the set-up of the renderer, the threads and the crash log, at concrete
-- inputs.
use pokemon_stadium_recomp.Prelude.{
  ℕ, ◌-◌, ◌≡◌, arith, true, false, List, [], ◌∷◌, ◌++◌, some, none, length, drop, leb, ltb, ◌==◌,
  if◌then◌else◌,
}
use pokemon_stadium_recomp.Prelude.Int.{pos}
use pokemon_stadium_recomp.Prelude.Text.{codes}
use pokemon_stadium_recomp.DebugServer.State.{initial}
use pokemon_stadium_recomp.Extras.Trace.{initial as empty_trace}
use pokemon_stadium_recomp.Extras.Trace.Counts.{Hook, entry, exit, run, ring_log}
use pokemon_stadium_recomp.Runner.Rom.{good}
use pokemon_stadium_recomp.Runner.Boot.{BootHost, Runner}
use pokemon_stadium_recomp.Runner.Crash.{last_calls}
use pokemon_stadium_recomp.Runner.Crash.LastCalls.{in_slots, last_calls-eq-in_slots}
use pokemon_stadium_recomp.Threads.{Context, HostThread, Windows}
use pokemon_stadium_recomp.Threads.Json.{Caller, esc_file, dump_all_threads}
use pokemon_stadium_recomp.Threads.Json.Escape.{read_string, read_string-esc_file}
use pokemon_stadium_recomp.Threads.Balance.{dump_all_threads-Windows}
use pokemon_stadium_recomp.Renderer.Config.{
  original_2x, clamp_16x9, expand, aspect_original, msaa_4x, no_msaa, rate_original, display, on,
  standard, windowed, GraphicsConfig, rt_original, double_buffering, linear, scaled_only,
}
use pokemon_stadium_recomp.Renderer.Setup.{success, d3d12, Statics, Rt64, App, Rt64Context}

-- A host on which all goes well, with a ROM beside the program.
abbrev host : BootHost
host = record {
  floats = record { parse = λ s. 0; less = ltb; zero_float = 0; one_float = 1000; text3 = λ v. [] };
  volume_env = none;
  turbo_env = some (codes "off");
  device_opens = λ spec. ltb 0 spec.freq;
  converter_builds = λ from to. ltb 0 from;
  entrypoint = 0x80000400;
  system = record {
    rom_cfg = none;
    beside = codes "baserom.z64";
    above = codes "../baserom.z64";
    exists = λ path. leb 2 (length path);
    select_rom = λ path. good;
  };
  argument = none;
  picks = [];
}

abbrev runner : Runner
runner = record {
  dbg = initial;
  persistent = true;
  rates = record { sample_rate = 32000; output_sample_rate = 48000; discarded_output_frames = 0 };
}

abbrev hooks : List Hook
hooks = entry (codes "main") ∷ entry (codes "idle") ∷ exit (codes "idle") ∷ []

last_calls-eq-in_slots_example :
    last_calls (run hooks empty_trace).ring
    ≡ in_slots (length (ring_log hooks) - 32) (drop (length (ring_log hooks) - 32) (ring_log hooks))
last_calls-eq-in_slots_example = last_calls-eq-in_slots hooks (omega arith)

read_string-esc_file_example :
    read_string false (esc_file (codes "F:\\a\"b") ++ 0x22 ∷ codes ",")
    ≡ some (codes "F:\\a\"b", codes ",")
read_string-esc_file_example =
    read_string-esc_file (codes "F:\\a\"b") (codes ",")
      (omega arith, (omega arith, (omega arith, (omega arith, (omega arith, (omega arith, tt))))))

abbrev at_rest : Context
at_rest = record { rip = 0x1000; rsp = 0x2000; rbp = 0x2010; frames = [] }

-- The caller, a thread without a context, one that cannot be suspended, and one of another process.
abbrev threads : List HostThread
threads =
    record {
      tid = 1;
      owner = 7;
      opens = true;
      suspends = true;
      context = some at_rest;
      description = [];
    }
    ∷ record { tid = 2; owner = 7; opens = true; suspends = true; context = none; description = [] }
    ∷ record {
      tid = 3;
      owner = 7;
      opens = true;
      suspends = false;
      context = none;
      description = [];
    }
    ∷ record { tid = 4; owner = 8; opens = true; suspends = true; context = none; description = [] }
    ∷ []

abbrev caller : Caller
caller = record { pid = 7; self_tid = 1; context = at_rest }

-- Thread 3 is suspended once.
abbrev windows : Windows
windows = record { suspended = λ t. if t == 3 then 1 else 0; handles = 5 }

dump_all_threads-Windows_example : (dump_all_threads caller (some threads) windows).1 ≡ windows
dump_all_threads-Windows_example = dump_all_threads-Windows caller (some threads) windows

abbrev config : GraphicsConfig
config = record {
  res_option = original_2x;
  ds_option = pos 1;
  hr_option = clamp_16x9;
  ar_option = expand;
  msaa_option = msaa_4x;
  rr_option = display;
  rr_manual_value = pos 60;
  hpfb_option = on;
  wm_option = windowed;
}

abbrev app : App ℕ
app = record {
  user_config = record {
    resolution = rt_original;
    resolution_multiplier = 1;
    downsample_multiplier = 1;
    ext_aspect_ratio = aspect_original;
    ext_aspect_target = 2;
    aspect_ratio = aspect_original;
    antialiasing = no_msaa;
    refresh_rate = rate_original;
    refresh_rate_target = pos 60;
    internal_color_format = standard;
    display_buffering = double_buffering;
    filtering = linear;
    upscale_2d = scaled_only;
    three_point_filtering = true;
  };
  developer_mode = false;
  graphics_api = d3d12;
  force_branch = true;
  lod_scale = true;
  full_screen = false;
}

-- Colours with up to 8 samples, depths with up to 4.
abbrev device : Rt64
device = record {
  setup = success;
  chosen = d3d12;
  sample_locations = true;
  color_sample_counts = 15;
  depth_sample_counts = 7;
  uses_hdr = false;
}

abbrev no_device_yet : Statics
no_device_yet = record {
  device_max_msaa = no_msaa;
  sample_positions_supported = false;
  high_precision_fb_enabled = false;
}

abbrev found : Statics
found = record {
  device_max_msaa = msaa_4x;
  sample_positions_supported = true;
  high_precision_fb_enabled = false;
}

abbrev context : Rt64Context ℕ
context = record { setup_result = success; chosen_api = d3d12; app = some app }
