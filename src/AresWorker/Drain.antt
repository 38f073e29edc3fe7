-- ===== src/AresWorker/Drain.antt =====
-- What a shutdown does to the queue: the jobs before it are all run, a job behind it waits for ever.
use mathlib.Core.List.{append-nil, append_assoc}
use mathlib.Core.Option.{some-injective}
use pokemon_stadium_recomp.Prelude.{
  ◌≡◌, refl, sym, ap, ◌∙◌, Bool, true, false, List, [], ◌∷◌, ◌++◌, some,
}
use pokemon_stadium_recomp.AresWorker.{
  Thread, absent, idle, busy, finished, Worker, Event, start, shutdown, join, post, take_job,
  end_job, leave, initial, step, run, shutdown_worker, post_job, take_front, finish_job, leave_loop,
  join_thread, go_on,
}
use pokemon_stadium_recomp.AresWorker.Fifo.{posts, in_hand, run-accounted}

module _ {ℓ} {J : Type ℓ} where
  leave-empty :
      (q : List J) (r : Bool) (th : Thread J) (d : List J) (w : Worker J)
      → leave_loop (record { queue = q; running = r; thread = th; returned = d }) ≡ some w
      → (w.returned ≡ d) × (in_hand th ++ q ≡ [])
  unfolding leave_loop
  leave-empty q true idle d w h = absurd (cc)
  leave-empty [] false idle d w h =
      (ap (λ (u : Worker J). u.returned) (sym (some-injective _ _ h)), refl)
  leave-empty (j ∷ q) false idle d w h = absurd (cc)
  leave-empty q r absent d w h = absurd (cc)
  leave-empty q r (busy j) d w h = absurd (cc)
  leave-empty q r finished d w h = absurd (cc)

  -- When the worker leaves its loop, every job posted so far has been run to its end.
  pub leave_loop-drained :
      (es : List (Event J)) (u w : Worker J)
      → run es initial ≡ some u
      → leave_loop u ≡ some w
      → w.returned ≡ posts es
  leave_loop-drained es u w h l =
      let (same, nothing) = leave-empty u.queue u.running u.thread u.returned w l in
      same
      ∙ sym (append-nil u.returned)
      ∙ ap (λ (xs : List J). u.returned ++ xs) (sym nothing)
      ∙ run-accounted es u h

  -- Two passages for each waiting job.
  unfoldable pub passages : List J → List (Event J)
  passages [] = []
  passages (job ∷ jobs) = take_job ∷ end_job ∷ passages jobs

  -- A waiting worker, running or shut down, can always run its whole queue: two passages for each
  -- job return them all in order and leave it waiting with an empty queue.
  pub passages-drain :
      (q : List J) (r : Bool) (d : List J)
      → run (passages q) (record { queue = q; running = r; thread = idle; returned = d })
        ≡ some (record { queue = []; running = r; thread = idle; returned = d ++ q })
  unfolding run passages step go_on take_front finish_job
  passages-drain [] r d = rw (append-nil d) refl
  passages-drain (j ∷ q) r d =
      passages-drain q r (d ++ j ∷ []) ∙ rw (append_assoc d (j ∷ []) q) refl

  -- Events among which nobody calls `start`.
  unfoldable pub Unstarted : List (Event J) → Type 0
  Unstarted [] = Unit
  Unstarted (start ∷ es) = ⊥
  Unstarted (shutdown ∷ es) = Unstarted es
  Unstarted (join ∷ es) = Unstarted es
  Unstarted (post j ∷ es) = Unstarted es
  Unstarted (take_job ∷ es) = Unstarted es
  Unstarted (end_job ∷ es) = Unstarted es
  Unstarted (leave ∷ es) = Unstarted es

  -- With no thread, nothing returns until the next `start`: a job posted then is still waiting at
  -- the end of any events without one, behind the jobs that waited before.
  run-Unstarted :
      (es : List (Event J)) (q : List J) (r : Bool) (d : List J) (w : Worker J)
      → Unstarted es
      → run es (record { queue = q; running = r; thread = absent; returned = d }) ≡ some w
      → (w.returned ≡ d) × (w.thread ≡ absent) × (w.queue ≡ q ++ posts es)
  unfolding run step go_on Unstarted shutdown_worker post_job take_front finish_job leave_loop
      join_thread posts
  run-Unstarted [] q r d w u h =
      let e = some-injective _ _ h in
      (
        ap (λ (v : Worker J). v.returned) (sym e),
        ap (λ (v : Worker J). v.thread) (sym e),
        ap (λ (v : Worker J). v.queue) (sym e) ∙ sym (append-nil q),
      )
  run-Unstarted (start ∷ es) q r d w u h = elim u [ ]
  run-Unstarted (shutdown ∷ es) q r d w u h = run-Unstarted es q false d w u h
  run-Unstarted (join ∷ es) q r d w u h = absurd (cc)
  run-Unstarted (post j ∷ es) q r d w u h =
      let (returned_same, no_thread, waits) = run-Unstarted es (q ++ j ∷ []) r d w u h in
      (returned_same, no_thread, waits ∙ append_assoc q (j ∷ []) (posts es))
  run-Unstarted (take_job ∷ es) q r d w u h = absurd (cc)
  run-Unstarted (end_job ∷ es) q r d w u h = absurd (cc)
  run-Unstarted (leave ∷ es) q r d w u h = absurd (cc)
