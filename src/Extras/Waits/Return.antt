-- ===== src/Extras/Waits/Return.antt =====
-- The replaced wait returns, with the priority that the thread had.
use pokemon_stadium_recomp.Prelude.{
  ℕ, zero, suc, ◌<◌, ◌≡◌, ◌≢◌, refl, arith, some, ◌==◌, true, false,
}
use pokemon_stadium_recomp.Prelude.Int.{ℤ, pos}
use pokemon_stadium_recomp.Extras.Waits.{Scheduler, turn, wait, func_8000771C}

module _ {St : Type 0} (os : Scheduler St) where
  -- The state behind `k` turns.
  unfoldable pub turns : ℕ → St → St
  turns zero s = s
  turns (suc k) s = turns k (turn os s)

  wait-turns :
      (k fuel : ℕ) (s : St)
      → ((j : ℕ) → j < k → (os.func_80001C90 (turns j s)).0 ≡ 0)
      → (os.func_80001C90 (turns k s)).0 ≢ 0
      → k < fuel
      → wait os fuel s ≡ some (os.func_80001C90 (turns k s)).1
  unfolding wait turns
  wait-turns k zero s before holds h = absurd (omega arith)
  wait-turns zero (suc fuel) s before holds h = rw (wait, test) refl
    where
      test : ((os.func_80001C90 s).0 == 0) ≡ false
      test = ground (arith, holds)
  wait-turns (suc k) (suc fuel) s before holds h =
      rw (wait, test)
        (wait-turns k fuel (turn os s) (λ j less. before (suc j) (omega arith)) holds (omega arith))
    where
      test : ((os.func_80001C90 s).0 == 0) ≡ true
      test = ground (arith, before 0 (omega arith))

  -- When the predicate first holds behind `k` yields at priority 1, the wait ends within `k + 1` rounds
  -- of the loop: it gives the state in which the predicate has just held, with the thread back at the
  -- priority at which it came. The scheduler's reads of a priority see what was set.
  pub func_8000771C-returns :
      (k fuel : ℕ) (s : St)
      → ((p : ℤ) (t : St) → os.get_thread_pri (os.set_thread_pri p t) ≡ p)
      → ((j : ℕ) → j < k → (os.func_80001C90 (turns j (os.set_thread_pri (pos 1) s))).0 ≡ 0)
      → (os.func_80001C90 (turns k (os.set_thread_pri (pos 1) s))).0 ≢ 0
      → k < fuel
      → (t : St) × (func_8000771C os fuel s ≡ some t)
        × (os.get_thread_pri t ≡ os.get_thread_pri s)
        × (t
            ≡ os.set_thread_pri
                (os.get_thread_pri s)
                (os.func_80001C90 (turns k (os.set_thread_pri (pos 1) s))).1)
  unfolding func_8000771C
  func_8000771C-returns k fuel s reads before holds h = (
    _,
    rw (func_8000771C, wait-turns k fuel (os.set_thread_pri (pos 1) s) before holds h) refl,
    reads _ _,
    refl,
  )
