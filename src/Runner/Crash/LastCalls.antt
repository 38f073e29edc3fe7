-- ===== src/Runner/Crash/LastCalls.antt =====
-- The crash log shows the last calls and returns.
use pokemon_stadium_recomp.Prelude.{
  ℕ, zero, suc, ◌+◌, ◌-◌, ◌%◌, ◌^◌, ◌<◌, ◌≡◌, refl, ap, ap₂, ◌∙◌, arith, List, [], ◌∷◌, Option,
  none, ltb, if◌then◌else◌, length, drop, get_or,
}
use pokemon_stadium_recomp.Prelude.Text.{Bytes}
use pokemon_stadium_recomp.Ring.{Ring, at}
use pokemon_stadium_recomp.Ring.Window.{Holds, read_from, read_from-eq-drop, init-Holds}
use pokemon_stadium_recomp.Extras.Trace.{trace_ring_cap, trace_at, initial}
use pokemon_stadium_recomp.Extras.Trace.Counts.{trace_at-eq-at, Hook, run, ring_log, run-Holds}
use pokemon_stadium_recomp.Runner.Crash.{slots_from, last_calls}

-- The items with the slots of their numbers, from `n` on.
pub in_slots : ℕ → List (Option Bytes) → List (ℕ × Option Bytes)
in_slots n [] = []
in_slots n (name ∷ names) = (n % trace_ring_cap, name) ∷ in_slots (n + 1) names

at-mod :
    (r : Ring (Option Bytes)) (i : ℕ) → trace_at r (i % trace_ring_cap) ≡ at trace_ring_cap none r i
unfolding at
at-mod r i = trace_at-eq-at r (i % trace_ring_cap) ∙ ap (λ k. get_or r.slots k none) twice
  where
    twice : i % 4096 % 4096 ≡ i % 4096
    twice = omega arith

slots_from-eq-in_slots :
    (r : Ring (Option Bytes)) (n off : ℕ)
    → slots_from r n off ≡ in_slots off (read_from trace_ring_cap none r n off)
unfolding slots_from in_slots read_from
slots_from-eq-in_slots r zero off = refl
slots_from-eq-in_slots r (suc n) off =
    ap₂ (λ name rest. (off % trace_ring_cap, name) ∷ rest) (at-mod r off)
      (slots_from-eq-in_slots r n (off + 1))

newest :
    (log : List (Option Bytes)) (r : Ring (Option Bytes)) (n : ℕ)
    → Holds trace_ring_cap none log r
    → n ≡ (if ltb r.seq 32 then r.seq else 32)
    → slots_from r n (r.seq - n) ≡ in_slots (length log - 32) (drop (length log - 32) log)
newest log r n v e =
    slots_from-eq-in_slots r n (r.seq - n)
    ∙ ap (in_slots (r.seq - n))
        (read_from-eq-drop trace_ring_cap none n (r.seq - n) v ends (ground (arith, e)))
    ∙ ap (λ k. in_slots k (drop k log)) start
  where
    ends : r.seq - n + n ≡ length log
    ends = ground (arith, e, v.counted)

    start : r.seq - n ≡ length log - 32
    start = ground (arith, e, v.counted)

-- Whatever functions were entered and left since the start, fewer than 2^64 times: the crash log lists
-- the last 32 of these, or all of fewer, oldest first, each with the slot of its number.
pub last_calls-eq-in_slots :
    (hs : List Hook)
    → length hs < 2 ^ 64
    → last_calls (run hs initial).ring
      ≡ in_slots (length (ring_log hs) - 32) (drop (length (ring_log hs) - 32) (ring_log hs))
unfolding last_calls initial
last_calls-eq-in_slots hs small =
    newest (ring_log hs) (run hs initial).ring _
      (run-Holds hs {log = []} initial (omega arith) (init-Holds trace_ring_cap none)) refl
