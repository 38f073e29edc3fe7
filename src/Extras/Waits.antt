-- ===== src/Extras/Waits.antt =====
-- The two workarounds of extras.c for the game's busy-waits: `func_8000771C`, which replaces a loop
-- of the game, and the hook in the loop of the JPEG decoder.
pub mod Return
use pokemon_stadium_recomp.Prelude.{ℕ, zero, suc, Option, none, some, ◌==◌, not, if◌then◌else◌}
use pokemon_stadium_recomp.Prelude.Int.{ℤ, pos}

-- What ultramodern and the recompiled game do to the whole state `St`: `func_80001C90` with the
-- value that it leaves in `ctx->r2`, the priority of the running thread, and a yield of 1 ms.
pub record Scheduler (St : Type 0) : Type 0 where
  pub func_80001C90 : St → ℕ × St
  pub get_thread_pri : St → ℤ
  pub set_thread_pri : ℤ → St → St
  pub yield_self : St → St

module _ {St : Type 0} (os : Scheduler St) where
  -- A yield behind a predicate that answered 0.
  unfoldable pub turn : St → St
  turn s = os.yield_self (os.func_80001C90 s).1

  -- The loop, with fuel; `none` is a loop that still runs.
  unfoldable pub wait : ℕ → St → Option St
  unfolding turn
  wait zero s = none
  wait (suc fuel) s =
      let rest = wait fuel (turn s) in
      if not ((os.func_80001C90 s).0 == 0) then some (os.func_80001C90 s).1 else rest

  abbrev restored : ℤ → Option St → Option St
  restored saved_pri none = none
  restored saved_pri (some s) = some (os.set_thread_pri saved_pri s)

  unfoldable pub func_8000771C : ℕ → St → Option St
  unfolding wait
  func_8000771C fuel s =
      let saved_pri = os.get_thread_pri s in
      restored saved_pri (wait fuel (os.set_thread_pri (pos 1) s))

  -- `r2` is what the predicate has just left in `ctx->r2`.
  unfoldable pub petit_cup_yield : ℕ → St → St
  petit_cup_yield r2 s =
      if not (r2 == 0)
      then s
      else os.set_thread_pri (os.get_thread_pri s) (os.yield_self (os.set_thread_pri (pos 1) s))
