-- ===== src/DebugServer/History.antt =====
-- The input history as the `input_history` command and `psr_dump_input_history_json` report it.
pub mod Window
use pokemon_stadium_recomp.Prelude.{
  ℕ, ◌+◌, ◌-◌, List, [], ◌∷◌, ◌++◌, ltb, if◌then◌else◌, min, true, suc, zero,
}
use pokemon_stadium_recomp.Prelude.Text.{Bytes, codes}
use pokemon_stadium_recomp.Libc.Print.{decimal, decimal_int}
use pokemon_stadium_recomp.Ring.{Ring}
use pokemon_stadium_recomp.Ring.Window.{read_from}
use pokemon_stadium_recomp.DebugServer.State.{InputEvent, input_history_cap, no_event, Dbg}
use pokemon_stadium_recomp.DebugServer.Render.{items}

-- `total` events were recorded; the last `count` of them, from `start` on, are in the ring.
unfoldable pub history_window : Ring InputEvent → List InputEvent
unfolding read_from
history_window r = read_from input_history_cap no_event r count start
  where
    count : ℕ
    count = min r.seq input_history_cap

    start : ℕ
    start = if ltb input_history_cap r.seq then r.seq - input_history_cap else 0

unfoldable pub event_fields : InputEvent → Bytes
unfolding decimal decimal_int
event_fields ev =
    codes "{\"frame\":"
    ++ decimal ev.frame
    ++ codes ",\"t_ms\":"
    ++ decimal ev.timestamp_ms
    ++ codes ",\"kind\":\""
    ++ ev.kind
    ++ codes "\",\"name\":\""
    ++ ev.name
    ++ codes "\",\"down\":"
    ++ decimal ev.down
    ++ codes ",\"x\":"
    ++ decimal_int ev.x
    ++ codes ",\"y\":"
    ++ decimal_int ev.y
    ++ codes "}"

unfoldable pub input_history : Dbg → Bytes
unfolding items history_window event_fields
input_history s =
    codes "{\"ok\":true,\"total\":"
    ++ decimal s.history.seq
    ++ codes ",\"events\":["
    ++ items 256 event_fields true (history_window s.history)
    ++ codes "]}"

-- The lines of the file: a comma behind all but the last.
event_lines : List InputEvent → Bytes
unfolding event_fields
event_lines [] = []
event_lines (ev ∷ []) = codes "    " ++ event_fields ev ++ codes "\n"
event_lines (ev ∷ e ∷ evs) = codes "    " ++ event_fields ev ++ codes ",\n" ++ event_lines (e ∷ evs)

-- What `psr_dump_input_history_json` writes, where the file opens.
unfoldable pub dump_input_history_json : Dbg → Bytes
unfolding event_lines history_window
dump_input_history_json s =
    codes "{\n  \"total_events\": "
    ++ decimal s.history.seq
    ++ codes ",\n  \"capacity\": "
    ++ decimal input_history_cap
    ++ codes ",\n  \"events\": [\n"
    ++ event_lines (history_window s.history)
    ++ codes "  ]\n}\n"
