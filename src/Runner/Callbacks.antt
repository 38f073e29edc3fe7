-- ===== src/Runner/Callbacks.antt =====
-- The callbacks of main.cpp that keep no state of their own: the microcode of a task, the heartbeat of
-- the VI, the name of the game's threads, and the message box.
use pokemon_stadium_recomp.Prelude.{
  ℕ, ◌+◌, ◌%◌, ◌^◌, Bool, ◌++◌, Option, none, some, ◌==◌, if◌then◌else◌,
}
use pokemon_stadium_recomp.Prelude.Text.{Bytes, codes}
use pokemon_stadium_recomp.DebugServer.State.{Dbg}

-- `get_rsp_microcode`: `M_AUDTASK` and `M_NJPEGTASK` have one.
pub data Microcode : Type 0 where
  asp_main : Microcode
  njpgdsp_main : Microcode

unfoldable pub get_rsp_microcode : ℕ → Option Microcode
get_rsp_microcode task_type =
    if task_type == 2 then some asp_main else if task_type == 4 then some njpgdsp_main else none

-- `vi_heartbeat`
unfoldable pub vi_heartbeat : Dbg → Dbg
vi_heartbeat s = record s {
  vi_ticks = (s.vi_ticks + 1) % 2 ^ 64;
  frame_count = (s.frame_count + 1) % 2 ^ 64;
}

unfoldable pub get_game_thread_name : Bytes
get_game_thread_name = codes "PokemonStadium"

-- What `error_message_box` appends to the error log, if it opens.
unfoldable pub error_message_box : Bool → Bytes → Option Bytes
error_message_box opens msg =
    if opens then some (codes "[PSR ERROR] " ++ msg ++ codes "\n") else none
