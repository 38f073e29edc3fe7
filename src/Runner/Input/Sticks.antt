-- ===== src/Runner/Input/Sticks.antt =====
-- Where the stick stands.
use pokemon_stadium_recomp.Prelude.{◌-◌, ◌≡◌, arith, ◌≤◌}
use pokemon_stadium_recomp.Prelude.Int.{ℤ, pos, negsuc, ◌+ℤ◌, pos_part, neg_part}
use pokemon_stadium_recomp.Runner.Input.{saturate, apply_deadzone, deadzone}

-- A value of an int16_t.
abbrev pub IsInt16 : ℤ → Type 0
IsInt16 n = (pos_part n ≤ 32767) × (neg_part n ≤ 32768)

saturate-IsInt16 : (s : ℤ) → IsInt16 (saturate s)
unfolding saturate
saturate-IsInt16 (pos n) = (ground arith, ground arith)
saturate-IsInt16 (negsuc n) = (ground arith, ground arith)

-- The dead zone: a tilt of at most 8000 either way is none, a larger one keeps its direction and
-- loses 8000, and no tilt exceeds 24767 up or 24768 down.
pub apply_deadzone_lem :
    (raw : ℤ)
    → IsInt16 raw
    → (pos_part (apply_deadzone raw) ≡ pos_part raw - deadzone)
      × (neg_part (apply_deadzone raw) ≡ neg_part raw - deadzone)
      × (pos_part (apply_deadzone raw) ≤ 24767)
      × (neg_part (apply_deadzone raw) ≤ 24768)
unfolding apply_deadzone ◌+ℤ◌
apply_deadzone_lem (pos n) h = ground arith
apply_deadzone_lem (negsuc n) h = ground arith
