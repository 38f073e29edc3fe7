-- ===== src/DebugServer/Oracle/Runs.antt =====
-- What the oracle commands do to the oracle, and which trace events they find.
use pokemon_stadium_recomp.Prelude.{
  ℕ, zero, suc, ◌+◌, ◌<◌, ◌≡◌, refl, arith, Bool, true, false, List, [], ◌∷◌, none, some, bit_and,
  ◌==◌, if◌then◌else◌, take,
}
use pokemon_stadium_recomp.Prelude.Int.{ℤ}
use pokemon_stadium_recomp.Prelude.{◌⊎◌, inl, inr, Bool-cases, Option-cases, ap}
use pokemon_stadium_recomp.DebugServer.Oracle.{Ares, RspEvent, Stepped, step_frames, same}
use mathlib.Core.List.{reverse}
use pokemon_stadium_recomp.DebugServer.Oracle.Trace.{scan_back, events_at_pc}

module _ {St : Type 0} (ares : Ares St) where
  -- The oracle after `k` frames.
  unfoldable pub after : ℕ → St → St
  after zero s = s
  after (suc k) s = after k (ares.step_frame s).1

  -- Whether the frame behind `k` others succeeds.
  unfoldable pub succeeds : ℕ → St → Bool
  unfolding after
  succeeds k s = same (ares.step_frame (after k s)).0 ares.bridge_ok

  -- All of the `n` frames succeeded, the oracle is `n` frames further, and the status is success; or
  -- the frame behind `k` others failed, is not counted, is the last one that ran, and its status,
  -- which is not success, is the one reported.
  abbrev pub Outcome : ℕ → ℕ → St → Stepped St → Type 0
  Outcome n done s r =
      ((r.done ≡ done + n)
        × (r.state ≡ after n s)
        × (same r.last ares.bridge_ok ≡ true)
        × ((i : ℕ) → i < n → succeeds i s ≡ true))
      ⊎ ((k : ℕ) × (k < n)
          × ((i : ℕ) → i < k → succeeds i s ≡ true)
          × (succeeds k s ≡ false)
          × (r.done ≡ done + k)
          × (same r.last ares.bridge_ok ≡ false)
          × (r.last ≡ (ares.step_frame (after k s)).0)
          × (r.state ≡ after (suc k) s))

  ok_below :
      (k : ℕ) (s : St)
      → same (ares.step_frame s).0 ares.bridge_ok ≡ true
      → ((i : ℕ) → i < k → succeeds i (ares.step_frame s).1 ≡ true)
      → (i : ℕ) → i < suc k
      → succeeds i s ≡ true
  unfolding succeeds after
  ok_below k s e h zero below = e
  ok_below k s e h (suc i) below = h i (omega arith)

  one_more :
      (n done : ℕ) (s : St) (r : Stepped St)
      → same (ares.step_frame s).0 ares.bridge_ok ≡ true
      → Outcome n (done + 1) (ares.step_frame s).1 r
      → Outcome (suc n) done s r
  unfolding succeeds after
  one_more n done s r e (inl (d, t, l, h)) = inl (omega arith, t, l, ok_below n s e h)
  one_more n done s r e (inr (k, below, h, f, d, l, w, t)) =
      inr (suc k, omega arith, ok_below k s e h, f, omega arith, l, w, t)

  same_self : (a : ℤ) → same a a ≡ true
  same_self a = ground arith

  step_frames-Outcome :
      (n done : ℕ) (last : ℤ) (s : St)
      → same last ares.bridge_ok ≡ true
      → Outcome n done s (step_frames ares n done last s)
  unfolding step_frames after succeeds
  step_frames-Outcome zero done last s ok = inl (omega arith, refl, ok, λ i h. absurd (omega arith))
  step_frames-Outcome (suc n) done last s ok =
      elim (Bool-cases (same (ares.step_frame s).0 ares.bridge_ok)) [
        | inl e ↦ rw e (
            one_more n done s
              (step_frames ares n (done + 1) (ares.step_frame s).0 (ares.step_frame s).1) e
              (step_frames-Outcome n (done + 1) (ares.step_frame s).0 (ares.step_frame s).1 e))
        | inr f ↦
            rw f (
              inr (zero, omega arith, (λ i h. absurd (omega arith)), f, omega arith, f, refl, refl))
      ]

  -- `ares_step_frame` runs the oracle frame by frame up to the first that fails: either all `n`
  -- frames succeed and are counted, or it stops behind the first failing frame, counts those before
  -- it, and reports that frame's status, which is not success; the status behind `n` good frames (or
  -- none) is success.
  pub step_frames_lem : (n : ℕ) (s : St) → Outcome n 0 s (step_frames ares n 0 ares.bridge_ok s)
  step_frames_lem n s = step_frames-Outcome n 0 ares.bridge_ok s (same_self ares.bridge_ok)

  -- The newest `room` events at the PC among the last `cap`, when none of them has rolled out.
  pub at_pc : St → ℕ → ℕ → ℕ → List RspEvent
  at_pc s want zero span = []
  at_pc s want (suc i) zero = []
  at_pc s want (suc i) (suc span) =
      let rest = at_pc s want i span in
      elim (ares.trace_get i s) [
        | none ↦ []
        | some ev ↦ if bit_and ev.pc 0xFFF == want then ev ∷ rest else rest
      ]

  take-scan_back :
      (s : St) (want i span room : ℕ)
      → scan_back ares s want i span room ≡ take room (at_pc s want i span)
  unfolding scan_back at_pc
  take-scan_back s want zero span zero = refl
  take-scan_back s want zero span (suc room) = refl
  take-scan_back s want (suc i) zero zero = refl
  take-scan_back s want (suc i) zero (suc room) = refl
  take-scan_back s want (suc i) (suc span) zero = refl
  take-scan_back s want (suc i) (suc span) (suc room) = elim (Option-cases (ares.trace_get i s)) [
    | inl e ↦ rw (e, scan_back, at_pc) refl
    | inr (ev, e) ↦
        rw (e, scan_back, at_pc)
          (ground
            (arith, take-scan_back s want i span room, take-scan_back s want i span (suc room)))
  ]

  -- The query by PC answers, oldest first, the newest `n` of all events at that PC (its low 12 bits)
  -- that a scan of the last 65536 trace entries finds, up to the first that the ring has dropped.
  pub events_at_pc-eq-reverse :
      (s : St) (pc n : ℕ)
      → events_at_pc ares s pc n
        ≡ reverse (take n (at_pc s (bit_and pc 0xFFF) (ares.trace_count s) 65536))
  unfolding events_at_pc
  events_at_pc-eq-reverse s pc n =
      ap reverse (take-scan_back s (bit_and pc 0xFFF) (ares.trace_count s) 65536 n)
