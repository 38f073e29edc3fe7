-- ===== src/DebugServer/History/Window.antt =====
-- The reported window is the end of everything recorded.
use pokemon_stadium_recomp.Prelude.{◌-◌, ◌≡◌, arith, List, length, drop, ap, ◌∙◌}
use pokemon_stadium_recomp.Ring.{Ring}
use pokemon_stadium_recomp.Ring.Window.{Holds, read_from-eq-drop}
use pokemon_stadium_recomp.DebugServer.State.{InputEvent, input_history_cap, no_event}
use pokemon_stadium_recomp.DebugServer.History.{history_window}

-- When the ring holds the newest of a log of events, the report is the newest 4096 events of the log, oldest first, and all of a shorter log.
pub history_window-eq-drop :
    (log : List InputEvent) (r : Ring InputEvent)
    → Holds input_history_cap no_event log r
    → history_window r ≡ drop (length log - input_history_cap) log
unfolding history_window
history_window-eq-drop log r v =
    read_from-eq-drop input_history_cap no_event _ _ v (ground (arith, v.counted)) (omega arith)
    ∙ ap (λ k. drop k log) (ground (arith, v.counted))
