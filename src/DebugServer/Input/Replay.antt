-- ===== src/DebugServer/Input/Replay.antt =====
-- The recorded events drive a fresh pad into the state that the session's commands left it in.
use pokemon_stadium_recomp.Prelude.{
  ◌≡◌, inl, inr, refl, Bool, true, false, not, ◌==◌, if◌then◌else◌, Bool-cases,
}
use pokemon_stadium_recomp.Prelude.Int.{pos}
use pokemon_stadium_recomp.Prelude.Text.{Bytes, codes, equal}
use pokemon_stadium_recomp.Ring.{push}
use pokemon_stadium_recomp.DebugServer.State.{
  InputEvent, input_history_cap, Pad, idle_pad, Dbg, Clock,
}
use pokemon_stadium_recomp.DebugServer.Json.{get_str, get_bool}
use pokemon_stadium_recomp.DebugServer.Input.{
  button_bit, press, input_event, set_button, set_stick, clear_input, claim_input,
}
use pokemon_stadium_recomp.DebugServer.Input.Buttons.{button_bit-short}

-- What one recorded event means for the pad, by its `kind`.
pub replay_event : InputEvent → Pad → Pad
unfolding equal
replay_event e p =
    if equal e.kind (codes "claim")
    then record p { active = true }
    else if equal e.kind (codes "clear")
    then idle_pad
    else if equal e.kind (codes "button")
    then record p {
      active = true;
      buttons = press (not (e.down == 0)) (button_bit e.name) p.buttons;
    }
    else if equal e.kind (codes "stick")
    then record p { active = true; stick_x = e.x; stick_y = e.y }
    else p

-- A command either leaves pad and history alone, or appends one event that replays its effect.
pub data Tracks (s t : Dbg) : Type 0 where
  still : t.pad ≡ s.pad → t.history ≡ s.history → Tracks s t
  logged :
      (e : InputEvent)
      → t.pad ≡ replay_event e s.pad
      → t.history ≡ push input_history_cap e s.history
      → Tracks s t

pub claim_input-Tracks : (now : Clock) (s : Dbg) → Tracks s (claim_input now s).1
unfolding claim_input replay_event
claim_input-Tracks now s = logged _ refl refl

pub clear_input-Tracks : (now : Clock) (s : Dbg) → Tracks s (clear_input now s).1
unfolding clear_input replay_event
clear_input-Tracks now s = logged _ refl refl

pub set_stick-Tracks : (now : Clock) (line : Bytes) (s : Dbg) → Tracks s (set_stick now line s).1
unfolding set_stick replay_event
set_stick-Tracks now line s = logged _ refl refl

flag : (down : Bool) → not ((if down then 1 else 0) == 0) ≡ down
flag true = refl
flag false = refl

pub set_button-Tracks : (now : Clock) (line : Bytes) (s : Dbg) → Tracks s (set_button now line s).1
unfolding set_button replay_event
set_button-Tracks now line s = elim (Bool-cases (button_bit name == 0)) [
  | inl unknown ↦ still (rw unknown) (rw unknown)
  | inr known ↦
      logged (input_event now (codes "button") name (if down then 1 else 0) (pos 0) (pos 0) s)
        (rw (known, button_bit-short name known, flag) refl) (rw known)
]
  where
    name : Bytes
    name = get_str line (codes "name")

    down : Bool
    down = get_bool line (codes "down") true
