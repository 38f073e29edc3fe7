-- ===== src/DebugServer/Input.antt =====
-- `button_bit`, `record_input_event`, and the commands `set_button`, `set_stick`, `clear_input`,
-- `claim_input`.
pub mod Buttons
pub mod Replay
use pokemon_stadium_recomp.Prelude.{
  ℕ, ◌+◌, ◌-◌, ◌%◌, ◌^◌, Bool, true, false, List, [], ◌∷◌, bit_and, bit_or, ◌==◌, if◌then◌else◌,
  take,
}
use pokemon_stadium_recomp.Prelude.Int.{ℤ, pos}
use pokemon_stadium_recomp.Prelude.Text.{Bytes, codes, equal, snprintf}
use pokemon_stadium_recomp.Ring
use pokemon_stadium_recomp.DebugServer.State.{InputEvent, input_history_cap, Pad, Dbg, Clock}
use pokemon_stadium_recomp.DebugServer.Json.{get_str, get_int, get_bool}

unfoldable pub button_bit : Bytes → ℕ
unfolding equal
button_bit n =
    if equal n (codes "A")
    then 0x8000
    else if equal n (codes "B")
    then 0x4000
    else if equal n (codes "Z")
    then 0x2000
    else if equal n (codes "Start")
    then 0x1000
    else if equal n (codes "DUp")
    then 0x0800
    else if equal n (codes "DDown")
    then 0x0400
    else if equal n (codes "DLeft")
    then 0x0200
    else if equal n (codes "DRight")
    then 0x0100
    else if equal n (codes "L")
    then 0x0020
    else if equal n (codes "R")
    then 0x0010
    else if equal n (codes "CUp")
    then 0x0008
    else if equal n (codes "CDown")
    then 0x0004
    else if equal n (codes "CLeft")
    then 0x0002
    else if equal n (codes "CRight")
    then 0x0001
    else 0

-- `s_session_start_ms`: the first event of a session starts its clock.
unfoldable pub session_start : Clock → Dbg → ℕ
session_start now s = if s.session_start_ms == 0 then now.first else s.session_start_ms

-- The slot that `record_input_event` fills; `ev.kind` and `ev.name` hold 15 bytes.
unfoldable pub input_event : Clock → Bytes → Bytes → ℕ → ℤ → ℤ → Dbg → InputEvent
unfolding session_start
input_event now kind name down x y s = record {
  frame = s.frame_count;
  timestamp_ms = (now.second + 2 ^ 64 - session_start now s) % 2 ^ 64;
  kind = snprintf 16 kind;
  name = snprintf 16 name;
  down = down;
  x = x;
  y = y;
}

unfoldable pub record_input_event : Clock → Bytes → Bytes → ℕ → ℤ → ℤ → Dbg → Dbg
unfolding Ring.push input_event
record_input_event now kind name down x y s = record s {
  history = Ring.push input_history_cap (input_event now kind name down x y s) s.history;
  session_start_ms = session_start now s;
}

abbrev pub ok_reply : Bytes
ok_reply = codes "{\"ok\":true}"

-- `cur &= ~bit` and `cur |= bit` on a uint16_t.
unfoldable pub press : Bool → ℕ → ℕ → ℕ
press true button cur = bit_or cur button
press false button cur = bit_and cur (0xFFFF - button)

unfoldable pub set_button : Clock → Bytes → Dbg → Bytes × Dbg
unfolding record_input_event
set_button now line s =
    let name = get_str line (codes "name") in
    let down = get_bool line (codes "down") true in
    let button = button_bit name in
    if button == 0 then (codes "{\"ok\":false,\"error\":\"unknown button name\"}", s) else (
      ok_reply,
      record_input_event now (codes "button") name (if down then 1 else 0) (pos 0) (pos 0)
          (record s {
            pad = record s.pad { active = true; buttons = press down button s.pad.buttons };
          }),
    )

unfoldable pub set_stick : Clock → Bytes → Dbg → Bytes × Dbg
unfolding record_input_event
set_stick now line s =
    let x = get_int line (codes "x") (pos 0) in
    let y = get_int line (codes "y") (pos 0) in
    (
      ok_reply,
      record_input_event now (codes "stick") [] 0 x y
          (record s { pad = record s.pad { active = true; stick_x = x; stick_y = y } }),
    )

unfoldable pub clear_input : Clock → Dbg → Bytes × Dbg
unfolding record_input_event
clear_input now s = (
  ok_reply,
  record_input_event now (codes "clear") [] 0 (pos 0) (pos 0)
      (record s { pad = record { active = false; buttons = 0; stick_x = pos 0; stick_y = pos 0 } }),
)

unfoldable pub claim_input : Clock → Dbg → Bytes × Dbg
unfolding record_input_event
claim_input now s = (
  ok_reply,
  record_input_event now (codes "claim") [] 0 (pos 0) (pos 0)
      (record s { pad = record s.pad { active = true } }),
)
