-- ===== src/AresWorker.antt =====
-- ares_worker.cpp: the queue of jobs that one thread runs for all callers. The events are the places
-- where the threads meet: a call of `start`, `shutdown` or `post_job`, and the passages of
-- `worker_main` from one hold of the mutex to the next. `dispatch` of ares_worker.h is in Dispatch.
pub mod Fifo
pub mod Drain
pub mod Dispatch
use pokemon_stadium_recomp.Prelude.{ℕ, Bool, true, false, List, [], ◌∷◌, ◌++◌, Option, none, some}

-- `g_thread`: not joinable, at the wait, running a job outside the mutex, or at its end.
pub data Thread {ℓ} (J : Type ℓ) : Type ℓ where
  absent : Thread J
  idle : Thread J
  busy : J → Thread J
  finished : Thread J

-- `g_queue`, `g_running` and `g_thread`, with the jobs that have returned, oldest first.
pub record Worker {ℓ} (J : Type ℓ) : Type ℓ where
  pub queue : List J
  pub running : Bool
  pub thread : Thread J
  pub returned : List J

pub data Event {ℓ} (J : Type ℓ) : Type ℓ where
  start : Event J
  shutdown : Event J
  join : Event J
  post : J → Event J
  take_job : Event J
  end_job : Event J
  leave : Event J

unfoldable pub initial {ℓ} : {J : Type ℓ} → Worker J
initial = record { queue = []; running = false; thread = absent; returned = [] }

-- `if (g_running.exchange(true)) return; g_thread = std::thread(worker_main);` A `g_thread` that is
-- still joinable ends the process, which is no step of the worker.
unfoldable pub start_worker {ℓ} : {J : Type ℓ} → Worker J → Option (Worker J)
start_worker w = elim w.running [
  | true ↦ some w
  | false ↦ elim w.thread [
    | absent ↦ some (record w { running = true; thread = idle })
    | other ↦ none
  ]
]

-- The exchange of `shutdown`; its wait for the thread is the event `join`.
unfoldable pub shutdown_worker {ℓ} : {J : Type ℓ} → Worker J → Worker J
shutdown_worker w = record w { running = false }

unfoldable pub post_job {ℓ} : {J : Type ℓ} → J → Worker J → Worker J
post_job job w = record w { queue = w.queue ++ job ∷ [] }

-- One passage of `worker_main` from the wait on: it takes the front job, whether or not the worker
-- is still running.
unfoldable pub take_front {ℓ} : {J : Type ℓ} → Worker J → Option (Worker J)
take_front w = elim w.thread [
  | idle ↦ elim w.queue [
    | [] ↦ none
    | job ∷ jobs ↦ some (record w { queue = jobs; thread = busy job })
  ]
  | other ↦ none
]

unfoldable pub finish_job {ℓ} : {J : Type ℓ} → Worker J → Option (Worker J)
finish_job w = elim w.thread [
  | busy job ↦ some (record w { thread = idle; returned = w.returned ++ job ∷ [] })
  | other ↦ none
]

-- `if (!g_running.load() && g_queue.empty()) break;`
unfoldable pub leave_loop {ℓ} : {J : Type ℓ} → Worker J → Option (Worker J)
leave_loop w = elim w.thread [
  | idle ↦ elim w.running [
    | true ↦ none
    | false ↦ elim w.queue [ [] ↦ some (record w { thread = finished }) | _ ↦ none ]
  ]
  | other ↦ none
]

-- `g_thread.join()` returns once the thread has ended.
unfoldable pub join_thread {ℓ} : {J : Type ℓ} → Worker J → Option (Worker J)
join_thread w = elim w.thread [ finished ↦ some (record w { thread = absent }) | other ↦ none ]

-- One event; `none` where it cannot happen.
unfoldable pub step {ℓ} : {J : Type ℓ} → Event J → Worker J → Option (Worker J)
unfolding start_worker shutdown_worker post_job take_front finish_job leave_loop join_thread
step start w = start_worker w
step shutdown w = some (shutdown_worker w)
step join w = join_thread w
step (post job) w = some (post_job job w)
step take_job w = take_front w
step end_job w = finish_job w
step leave w = leave_loop w

-- The worker behind a sequence of events, oldest first.
unfoldable pub go_on {ℓ} :
    {J : Type ℓ} → Option (Worker J) → (Worker J → Option (Worker J)) → Option (Worker J)
go_on none rest = none
go_on (some w) rest = rest w

unfoldable pub run {ℓ} : {J : Type ℓ} → List (Event J) → Worker J → Option (Worker J)
unfolding step go_on
run [] w = some w
run (e ∷ es) w = go_on (step e w) (run es)
