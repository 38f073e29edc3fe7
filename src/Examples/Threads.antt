-- ===== src/Examples/Threads.antt =====
-- The worker's theorems at concrete sequences of events.
use pokemon_stadium_recomp.Prelude.{
  ℕ, ◌≡◌, refl, List, [], ◌∷◌, ◌++◌, ◌+◌, ◌*◌, ◌==◌, some, none, false, true, if◌then◌else◌, take,
  get_elem?,
}
use pokemon_stadium_recomp.AresWorker.{
  Worker, Event, idle, busy, finished, start, shutdown, post, take_job, end_job, initial, run, step,
  go_on, start_worker, shutdown_worker, post_job, take_front, finish_job, leave_loop,
}
use pokemon_stadium_recomp.AresWorker.Dispatch.{Call, Dispatcher, dispatch_all, fresh, continue}
use pokemon_stadium_recomp.AresWorker.Dispatch.Serial.{serial, dispatch_all-eq-serial}
use pokemon_stadium_recomp.AresWorker.Fifo.{posts, accounted, run-accounted}
use pokemon_stadium_recomp.AresWorker.Drain.{leave_loop-drained, passages, passages-drain}

-- Two jobs, the second posted while the first runs, and a shutdown before the second is taken.
abbrev events : List (Event ℕ)
events = start ∷ post 7 ∷ take_job ∷ post 9 ∷ shutdown ∷ end_job ∷ take_job ∷ end_job ∷ []

abbrev done_both : Worker ℕ
done_both = record { queue = []; running = false; thread = idle; returned = 7 ∷ 9 ∷ [] }

abbrev left : Worker ℕ
left = record { queue = []; running = false; thread = finished; returned = 7 ∷ 9 ∷ [] }

run-events : run events initial ≡ some done_both
unfolding run step go_on initial start_worker shutdown_worker post_job take_front finish_job
run-events = refl

run-accounted_example : accounted done_both ≡ posts events
run-accounted_example = run-accounted events done_both run-events

leave_left : leave_loop done_both ≡ some left
unfolding leave_loop
leave_left = refl

leave_loop-drained_example : left.returned ≡ posts events
leave_loop-drained_example = leave_loop-drained events done_both left run-events leave_left

passages-drain_example :
    run {J = ℕ}
      (passages (7 ∷ 9 ∷ []))
      (record { queue = 7 ∷ 9 ∷ []; running = false; thread = idle; returned = [] })
    ≡ some (record { queue = []; running = false; thread = idle; returned = [] ++ (7 ∷ 9 ∷ []) })
passages-drain_example = passages-drain (7 ∷ 9 ∷ []) false []

-- Two callers: one reads and raises the bridge's counter, one doubles it; the second is still waiting.
abbrev calls : List (Event (Call ℕ ℕ))
calls = start ∷ post (λ n. (n, n + 1)) ∷ post (λ n. (n, n * 2)) ∷ take_job ∷ end_job ∷ take_job ∷ []

abbrev served : Dispatcher ℕ ℕ
served = record {
  worker = record {
    queue = [];
    running = true;
    thread = busy (1, λ n. (n, n * 2));
    returned = (0, λ n. (n, n + 1)) ∷ [];
  };
  memory = record { ares = 6; promises = λ k. if k == 0 then some 5 else none };
  made = 2;
}

dispatch_all-calls : dispatch_all calls (fresh 5) ≡ some served
unfolding dispatch_all fresh initial continue start_worker take_front finish_job post_job
dispatch_all-calls = refl

dispatch_all-eq-serial_example :
    ((k : ℕ) → served.memory.promises k ≡ get_elem? (serial (take 1 (posts calls)) 5).0 k)
    × (served.memory.ares ≡ (serial (take 1 (posts calls)) 5).1)
dispatch_all-eq-serial_example = dispatch_all-eq-serial calls 5 served dispatch_all-calls
