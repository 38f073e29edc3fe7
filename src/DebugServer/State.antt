-- ===== src/DebugServer/State.antt =====
-- The globals of debug_server.cpp, and the records of the rings it reports.
use pokemon_stadium_recomp.Prelude.{ℕ, Bool, false, [], replicate}
use pokemon_stadium_recomp.Prelude.Int.{ℤ, pos}
use pokemon_stadium_recomp.Prelude.Text.{Bytes}
use pokemon_stadium_recomp.Ring.{Ring}

-- `InputEvent`. `kind` and `name` are char[16].
pub record InputEvent : Type 0 where
  pub frame : ℕ
  pub timestamp_ms : ℕ
  pub kind : Bytes
  pub name : Bytes
  pub down : ℕ
  pub x : ℤ
  pub y : ℤ

abbrev pub input_history_cap : ℕ
input_history_cap = 4096

-- A zeroed slot of the static array.
abbrev pub no_event : InputEvent
no_event = record {
  frame = 0;
  timestamp_ms = 0;
  kind = [];
  name = [];
  down = 0;
  x = pos 0;
  y = pos 0;
}

-- What the runner polls of the TCP pad: `g_input_override_active`, `g_buttons_override`,
-- `g_stick_x_override` and `g_stick_y_override`.
pub record Pad : Type 0 where
  pub active : Bool
  pub buttons : ℕ
  pub stick_x : ℤ
  pub stick_y : ℤ

abbrev pub idle_pad : Pad
idle_pad = record { active = false; buttons = 0; stick_x = pos 0; stick_y = pos 0 }

-- The other globals. `audio_volume` is a `float`, kept as its bit pattern.
pub record Dbg : Type 0 where
  pub fast_forward : Bool
  pub instant_present_request : Bool
  pub vi_ticks : ℕ
  pub frame_count : ℕ
  pub pad : Pad
  pub audio_volume : ℕ
  pub send_dl_count : ℕ
  pub update_screen_count : ℕ
  pub send_dl_audio_count : ℕ
  pub send_dl_gfx_count : ℕ
  pub send_dl_other_count : ℕ
  pub history : Ring InputEvent
  pub session_start_ms : ℕ

unfoldable pub initial : Dbg
initial = record {
  fast_forward = false;
  instant_present_request = false;
  vi_ticks = 0;
  frame_count = 0;
  pad = idle_pad;
  audio_volume = 0;
  send_dl_count = 0;
  update_screen_count = 0;
  send_dl_audio_count = 0;
  send_dl_gfx_count = 0;
  send_dl_other_count = 0;
  history = record { slots = replicate input_history_cap no_event; seq = 0 };
  session_start_ms = 0;
}

-- The two readings of `now_ms()` that one recorded event makes.
pub record Clock : Type 0 where
  pub first : ℕ
  pub second : ℕ
