-- ===== src/Extras/Args.antt =====
-- The argument stacks of the entry and exit hooks of extras.c: an entry hook saves the arguments of
-- a call, and the exit hook of the same call finds them. Each is a static thread-local array with an
-- `int` depth; every pair of hooks has one of its own.
pub mod Nested
pub mod Session
use pokemon_stadium_recomp.Prelude.{
  ℕ, zero, suc, ◌+◌, List, Option, none, some, get_or, set, replicate, ltb, if◌then◌else◌, [],
}
use pokemon_stadium_recomp.Prelude.Int.{ℤ, pos, negsuc}

pub record Saved {ℓ} (A : Type ℓ) : Type ℓ where
  pub slots : List A
  pub sp : ℤ

-- `sp--`
abbrev pub decrement : ℤ → ℤ
decrement (pos zero) = negsuc zero
decrement (pos (suc n)) = pos n
decrement (negsuc n) = negsuc (suc n)

module _ {ℓ} {A : Type ℓ} (cap : ℕ) (d : A) where
  unfoldable pub empty : Saved A
  empty = record { slots = replicate cap d; sp = pos 0 }

  -- `none` is a write below the array, which C leaves undefined.
  unfoldable pub save_at : A → List A → ℤ → Option (Saved A)
  save_at x slots (pos n) =
      some (record { slots = if ltb n cap then set slots n x else slots; sp = pos (n + 1) })
  save_at x slots (negsuc n) = none

  -- `if (sp < cap) stack[sp] = x; sp++;`
  unfoldable pub save : A → Saved A → Option (Saved A)
  unfolding save_at
  save x s = save_at x s.slots s.sp

  unfoldable pub slot : List A → ℤ → Option A
  slot slots (pos n) = if ltb n cap then some (get_or slots n d) else none
  slot slots (negsuc n) = none

  -- `sp--; if (sp < 0 || sp >= cap) return; x = stack[sp];`
  unfoldable pub restore : Saved A → Option A × Saved A
  unfolding slot
  restore s = (slot s.slots (decrement s.sp), record s { sp = decrement s.sp })

  unfoldable pub or_first : List A → Option A → A
  or_first slots none = get_or slots 0 d
  or_first slots (some x) = x

  -- `sp--; idx = (sp >= 0 && sp < cap) ? sp : 0; x = stack[idx];`
  unfoldable pub restore_or_first : Saved A → A × Saved A
  unfolding slot or_first
  restore_or_first s =
      (or_first s.slots (slot s.slots (decrement s.sp)), record s { sp = decrement s.sp })

  -- An exit hook that returns at once when nothing was saved, and else reports.
  unfoldable pub report_saved {ℓv ℓm} :
      {V : Type ℓv} {M : Type ℓm} → (A → V → List M) → V → Option A → List M
  report_saved report v none = []
  report_saved report v (some x) = report x v
