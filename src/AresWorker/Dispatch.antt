-- ===== src/AresWorker/Dispatch.antt =====
-- `dispatch` of ares_worker.h: each caller posts its function with a promise and waits for the value
-- that the job puts there. The functions act on the state of the Ares bridge and return a value.
pub mod Serial
use pokemon_stadium_recomp.Prelude.{ℕ, ◌+◌, List, [], ◌∷◌, Option, none, some, ◌==◌, if◌then◌else◌}
use pokemon_stadium_recomp.AresWorker.{
  Thread, absent, idle, busy, finished, Worker, Event, start, shutdown, join, post, take_job,
  end_job, leave, initial, step,
}

-- The job that ends with the event, which has run outside the mutex.
unfoldable pub completed {ℓ} : {J : Type ℓ} → Event J → Thread J → List J
completed end_job absent = []
completed end_job idle = []
completed end_job (busy job) = job ∷ []
completed end_job finished = []
completed start thread = []
completed shutdown thread = []
completed join thread = []
completed (post job) thread = []
completed take_job thread = []
completed leave thread = []

module _ (St R : Type 0) where
  -- What a caller hands over, and the job that is posted for it: the function with the place of the
  -- caller's promise.
  abbrev pub Call : Type 0
  Call = St → R × St

  abbrev pub Job : Type 0
  Job = ℕ × Call

  -- What the jobs act on: the bridge, and the promises that are set.
  pub record Memory : Type 0 where
    pub ares : St
    pub promises : ℕ → Option R

  -- `made` is the number of promises so far.
  pub record Dispatcher : Type 0 where
    pub worker : Worker Job
    pub memory : Memory
    pub made : ℕ

module _ {St R : Type 0} where
  -- `promise.set_value(fn());`
  unfoldable pub run_job : Job St R → Memory St R → Memory St R
  run_job (place, fn) m =
      let (value, ares') = fn m.ares in
      record { ares = ares'; promises = λ k. if k == place then some value else m.promises k }

  unfoldable pub run_jobs : List (Job St R) → Memory St R → Memory St R
  unfolding run_job
  run_jobs [] m = m
  run_jobs (job ∷ jobs) m = run_jobs jobs (run_job job m)

  -- The event of the worker that a caller's or the thread's event is: a call posts its job with a
  -- promise of its own.
  unfoldable pub with_promise : ℕ → Event (Call St R) → Event (Job St R)
  with_promise made start = start
  with_promise made shutdown = shutdown
  with_promise made join = join
  with_promise made (post fn) = post (made, fn)
  with_promise made take_job = take_job
  with_promise made end_job = end_job
  with_promise made leave = leave

  unfoldable pub promised : Event (Call St R) → ℕ → ℕ
  promised start made = made
  promised shutdown made = made
  promised join made = made
  promised (post fn) made = made + 1
  promised take_job made = made
  promised end_job made = made
  promised leave made = made

  unfoldable pub settle :
      Event (Call St R) → Dispatcher St R → Option (Worker (Job St R)) → Option (Dispatcher St R)
  unfolding promised run_jobs completed with_promise
  settle e d none = none
  settle e d (some w) = some (record {
    worker = w;
    memory = run_jobs (completed (with_promise d.made e) d.worker.thread) d.memory;
    made = promised e d.made;
  })

  unfoldable pub dispatch_step : Event (Call St R) → Dispatcher St R → Option (Dispatcher St R)
  unfolding settle with_promise step
  dispatch_step e d = settle e d (step (with_promise d.made e) d.worker)

  unfoldable pub continue :
      Option (Dispatcher St R)
      → (Dispatcher St R → Option (Dispatcher St R))
      → Option (Dispatcher St R)
  continue none rest = none
  continue (some d) rest = rest d

  unfoldable pub dispatch_all :
      List (Event (Call St R)) → Dispatcher St R → Option (Dispatcher St R)
  unfolding dispatch_step continue
  dispatch_all [] d = some d
  dispatch_all (e ∷ es) d = continue (dispatch_step e d) (dispatch_all es)

  unfoldable pub fresh : St → Dispatcher St R
  unfolding initial
  fresh ares = record {
    worker = initial;
    memory = record { ares = ares; promises = λ k. none };
    made = 0;
  }
