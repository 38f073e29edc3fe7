-- ===== src/DebugServer/Queries/Recent.antt =====
-- `trace_recent` shows the newest calls, and `set_volume` stays between mute and full.
use pokemon_stadium_recomp.Prelude.{
  ℕ, zero, suc, ◌+◌, ◌-◌, ◌≤◌, ◌≡◌, refl, ap₂, arith, false, List, ◌∷◌, Option, none, length, drop,
  min, max, ◌∙◌, ap,
}
use pokemon_stadium_recomp.Prelude.Int.{ℤ, pos, negsuc, pos_part}
use pokemon_stadium_recomp.Prelude.Text.{Bytes}
use pokemon_stadium_recomp.Ring.{Ring}
use pokemon_stadium_recomp.Ring.Window.{Holds, read_from, read_from-eq-drop}
use pokemon_stadium_recomp.Extras.Trace.{Trace, trace_ring_cap}
use pokemon_stadium_recomp.Extras.Trace.Counts.{trace_at-eq-at}
use pokemon_stadium_recomp.DebugServer.Render.{clamp_count, available}
use pokemon_stadium_recomp.DebugServer.Queries.{trace_names, trace_window, FloatOps, clamp_volume}

trace_names-eq-read_from :
    (r : Ring (Option Bytes)) (n off : ℕ)
    → trace_names r n off ≡ read_from trace_ring_cap none r n off
unfolding trace_names read_from
trace_names-eq-read_from r zero off = refl
trace_names-eq-read_from r (suc n) off =
    ap₂ ◌∷◌ (trace_at-eq-at r off) (trace_names-eq-read_from r n (off + 1))

-- The number of entries asked for, between 1 and `hi`.
pub asked : ℕ → ℤ → ℕ
asked hi n = min hi (max 1 (pos_part n))

pub clamp_count-eq-asked : (hi : ℕ) (n : ℤ) → 1 ≤ hi → clamp_count hi n ≡ asked hi n
unfolding clamp_count asked
clamp_count-eq-asked hi (pos n) h = ground arith
clamp_count-eq-asked hi (negsuc n) h = ground arith

available-eq-min : (n widx cap : ℕ) → available n widx cap ≡ min n (min widx cap)
unfolding available
available-eq-min n widx cap = ground arith

-- When the ring holds the newest of a call history: the command shows its end, oldest first: as many calls as were asked for,
-- at least 1, at most 512, and all of a shorter history.
pub trace_window-eq-drop :
    (log : List (Option Bytes)) (t : Trace) (n : ℤ)
    → Holds trace_ring_cap none log t.ring
    → trace_window t n ≡ drop (length log - asked 512 n) log
unfolding trace_window
trace_window-eq-drop log t n v =
    trace_names-eq-read_from t.ring shown (t.ring.seq - shown)
    ∙ read_from-eq-drop trace_ring_cap none shown (t.ring.seq - shown) v
        (omega (arith, bound, v.counted)) (omega (arith, bound, asked_le))
    ∙ ap (λ k. drop k log) start
  where
    shown : ℕ
    shown = available (clamp_count 512 n) t.ring.seq trace_ring_cap

    bound : shown ≡ min (asked 512 n) (min t.ring.seq trace_ring_cap)
    bound =
        available-eq-min (clamp_count 512 n) t.ring.seq trace_ring_cap
        ∙ ap (λ k. min k (min t.ring.seq trace_ring_cap)) (clamp_count-eq-asked 512 n (omega arith))

    asked_le : asked 512 n ≤ 512
    asked_le = unfold asked in omega arith

    start : t.ring.seq - shown ≡ length log - asked 512 n
    start = omega (arith, bound, v.counted, asked_le)

-- With an order on the floats in which 0.0 is not above 1.0, the clamped volume is in [0.0, 1.0],
-- and a volume in that range is kept.
clamp_volume-range :
    (fl : FloatOps) (v : ℕ)
    → fl.less fl.one_float fl.zero_float ≡ false
    → fl.less fl.zero_float fl.zero_float ≡ false
    → fl.less fl.one_float fl.one_float ≡ false
    → (fl.less (clamp_volume fl v) fl.zero_float ≡ false)
      × (fl.less fl.one_float (clamp_volume fl v) ≡ false)
      × (fl.less v fl.zero_float ≡ false → fl.less fl.one_float v ≡ false → clamp_volume fl v ≡ v)
unfolding clamp_volume
clamp_volume-range fl v a b c = ground arith
