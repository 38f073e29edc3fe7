-- ===== src/Runner/Devices.antt =====
-- The SDL gamepad: `ensure_pad_open`, `poll_inputs`, `get_connected_device_info` and `set_rumble`;
-- and the window of `create_window`. What SDL answers is a parameter; a pad is the number of its joystick.
pub mod Opened
use pokemon_stadium_recomp.Prelude.{
  ℕ, ◌+◌, Bool, true, false, not, ◌&&◌, ◌||◌, List, [], ◌∷◌, Option, none, some, ◌==◌,
  if◌then◌else◌,
}
use pokemon_stadium_recomp.Prelude.Text.{Bytes, codes}

-- A joystick: whether it is a game controller, and whether it opens.
pub record Joystick : Type 0 where
  pub is_controller : Bool
  pub opens : Bool

-- The loop over the joysticks, from number `i` on.
unfoldable pub open_first : ℕ → List Joystick → Option ℕ
open_first i [] = none
open_first i (j ∷ js) = if j.is_controller && j.opens then some i else open_first (i + 1) js

-- `g_pad` behind the call; an open pad is kept.
unfoldable pub ensure_pad_open : List Joystick → Option ℕ → Option ℕ
unfolding open_first
ensure_pad_open joysticks (some pad) = some pad
ensure_pad_open joysticks none = open_first 0 joysticks

unfoldable pub poll_inputs : List Joystick → Option ℕ → Option ℕ
unfolding ensure_pad_open
poll_inputs joysticks pad = ensure_pad_open joysticks pad

-- `get_connected_device_info` as far as it changes the pad.
unfoldable pub query_device : ℕ → List Joystick → Option ℕ → Option ℕ
unfolding ensure_pad_open
query_device controller_num joysticks pad =
    if controller_num == 0 then ensure_pad_open joysticks pad else pad

-- The call of `SDL_GameControllerRumble`, if any: the pad, the strength of both motors, the time.
unfoldable pub set_rumble : ℕ → Bool → Option ℕ → Option (ℕ × ℕ × ℕ)
set_rumble controller_num on none = none
set_rumble controller_num on (some pad) =
    if not (controller_num == 0) then none else some (pad, if on then 0xFFFF else 0, 1000)

-- The arguments of `SDL_CreateWindow`; the window is centred.
pub record WindowSpec : Type 0 where
  pub title : Bytes
  pub width : ℕ
  pub height : ℕ
  pub resizable : Bool
  pub hidden : Bool

-- `create_window`: `g_window`, which is then shown, or `none` where the process ends with 1.
unfoldable pub create_window : (WindowSpec → Option ℕ) → Option ℕ
create_window make = make (record {
  title = codes "Pokemon Stadium (PokemonStadiumRecomp)";
  width = 960;
  height = 720;
  resizable = true;
  hidden = true;
})
