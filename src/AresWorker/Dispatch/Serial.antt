-- ===== src/AresWorker/Dispatch/Serial.antt =====
-- The callers of `dispatch` get what they would get if their functions ran one after the other.
use mathlib.Core.List.{append-nil, append_assoc}
use mathlib.Core.Path.{subst}
use mathlib.Core.Option.{some-injective}
use pokemon_stadium_recomp.Prelude.{
  ℕ, zero, suc, ◌+◌, ◌<◌, ◌≡◌, refl, sym, ap, ◌∙◌, arith, Bool, true, false, List, [], ◌∷◌, ◌++◌,
  Option, none, some, ◌==◌, length, length-append, take, get_elem?, numbered, numbered-append,
  append-eq-numbered, ◌≤◌,
}
use pokemon_stadium_recomp.AresWorker.{
  Thread, absent, idle, busy, finished, Worker, Event, start, shutdown, join, post, take_job,
  end_job, leave, initial, step, start_worker, shutdown_worker, post_job, take_front, finish_job,
  leave_loop, join_thread,
}
use pokemon_stadium_recomp.AresWorker.Fifo.{posts, in_hand, accounted, step-accounted, posts-cons}
use pokemon_stadium_recomp.AresWorker.Dispatch.{
  Call, Job, Memory, Dispatcher, run_job, run_jobs, with_promise, promised, completed, settle,
  dispatch_step, continue, dispatch_all, fresh,
}

module _ {ℓ} {J : Type ℓ} where
  step-returned :
      (e : Event J) (q : List J) (r : Bool) (th : Thread J) (d : List J) (t : Worker J)
      → step e (record { queue = q; running = r; thread = th; returned = d }) ≡ some t
      → t.returned ≡ d ++ completed e th
  unfolding step completed start_worker shutdown_worker post_job take_front finish_job leave_loop
      join_thread
  step-returned start q true th d t h = ground (arith, append-nil d)
  step-returned start q false absent d t h = ground (arith, append-nil d)
  step-returned start q false th d t h = ground (arith, append-nil d)
  step-returned shutdown q r th d t h = ground (arith, append-nil d)
  step-returned join q r finished d t h = ground (arith, append-nil d)
  step-returned join q r th d t h = ground (arith, append-nil d)
  step-returned (post j) q r th d t h = ground (arith, append-nil d)
  step-returned take_job [] r idle d t h = ground (arith, append-nil d)
  step-returned take_job (j ∷ q) r idle d t h = ground (arith, append-nil d)
  step-returned take_job q r th d t h = ground (arith, append-nil d)
  step-returned end_job q r (busy j) d t h = ground (arith)
  step-returned end_job q r th d t h = ground (arith, append-nil d)
  step-returned leave [] false idle d t h = ground (arith, append-nil d)
  step-returned leave (j ∷ q) false idle d t h = ground (arith, append-nil d)
  step-returned leave q true idle d t h = ground (arith, append-nil d)
  step-returned leave q r th d t h = ground (arith, append-nil d)

from_zero : (k : ℕ) → k ≡ 0 + k
from_zero k = omega arith

module _ {St R : Type 0} where
  -- The functions, run one after the other on the bridge.
  pub serial : List (Call St R) → St → List R × St
  serial [] s = ([], s)
  serial (fn ∷ fns) s = ((fn s).0 ∷ (serial fns (fn s).1).0, (serial fns (fn s).1).1)

  run_jobs-append :
      (xs ys : List (Job St R)) (m : Memory St R)
      → run_jobs (xs ++ ys) m ≡ run_jobs ys (run_jobs xs m)
  unfolding run_jobs
  run_jobs-append [] ys m = refl
  run_jobs-append (x ∷ xs) ys m = run_jobs-append xs ys (run_job x m)

  run_job-ne :
      (place : ℕ) (fn : Call St R) (m : Memory St R) (k : ℕ)
      → (k == place) ≡ false
      → (run_job (place, fn) m).promises k ≡ m.promises k
  unfolding run_job
  run_job-ne place fn m k e = rw e refl

  run_jobs-below :
      (fns : List (Call St R)) (n : ℕ) (m : Memory St R) (k : ℕ)
      → k < n
      → (run_jobs (numbered n fns) m).promises k ≡ m.promises k
  unfolding run_jobs numbered
  run_jobs-below [] n m k h = refl
  run_jobs-below (fn ∷ fns) n m k h =
      run_jobs-below fns (n + 1) (run_job (n, fn) m) k (omega (arith, h))
      ∙ run_job-ne n fn m k (ground (arith, h))

  run_jobs-ares :
      (fns : List (Call St R)) (n : ℕ) (m : Memory St R)
      → (run_jobs (numbered n fns) m).ares ≡ (serial fns m.ares).1
  unfolding run_jobs run_job numbered serial
  run_jobs-ares [] n m = refl
  run_jobs-ares (fn ∷ fns) n m = run_jobs-ares fns (n + 1) (run_job (n, fn) m)

  run_jobs-promises :
      (fns : List (Call St R)) (n k : ℕ) (m : Memory St R)
      → ((i : ℕ) → n ≤ i → m.promises i ≡ none)
      → (run_jobs (numbered n fns) m).promises (n + k) ≡ get_elem? (serial fns m.ares).0 k
  unfolding run_jobs run_job numbered serial
  run_jobs-promises [] n k m unset = unset (n + k) (omega arith)
  run_jobs-promises (fn ∷ fns) n zero m unset =
      ap (run_jobs (numbered (n + 1) fns) (run_job (n, fn) m)).promises here
      ∙ run_jobs-below fns (n + 1) (run_job (n, fn) m) n (omega arith)
      ∙ set
    where
      here : n + 0 ≡ n
      here = omega arith

      set : (run_job (n, fn) m).promises n ≡ some (fn m.ares).0
      set = ground arith
  run_jobs-promises (fn ∷ fns) n (suc k) m unset =
      ap (run_jobs (numbered (n + 1) fns) (run_job (n, fn) m)).promises shift
      ∙ run_jobs-promises fns (n + 1) k (run_job (n, fn) m)
          (λ i h. run_job-ne n fn m i (ground (arith, h)) ∙ unset i (omega (arith, h)))
    where
      shift : n + suc k ≡ n + 1 + k
      shift = omega arith

  posts-with_promise :
      (e : Event (Call St R)) (made : ℕ)
      → posts (with_promise made e ∷ []) ≡ numbered made (posts (e ∷ []))
  unfolding posts with_promise numbered
  posts-with_promise start made = refl
  posts-with_promise shutdown made = refl
  posts-with_promise join made = refl
  posts-with_promise (post fn) made = refl
  posts-with_promise take_job made = refl
  posts-with_promise end_job made = refl
  posts-with_promise leave made = refl

  promised-length :
      (e : Event (Call St R)) (made : ℕ) → promised e made ≡ made + length (posts (e ∷ []))
  unfolding posts promised
  promised-length start made = omega arith
  promised-length shutdown made = omega arith
  promised-length join made = omega arith
  promised-length (post fn) made = omega arith
  promised-length take_job made = omega arith
  promised-length end_job made = omega arith
  promised-length leave made = omega arith

  -- The state behind the calls of `log`, from the bridge at `ares`.
  record Serves (ares : St) (log : List (Call St R)) (d : Dispatcher St R) : Type 0 where
    accounts : accounted d.worker ≡ numbered 0 log
    counted : d.made ≡ length log
    ran : d.memory ≡ run_jobs d.worker.returned (fresh ares).memory

  settle-Serves :
      (ares : St) (log : List (Call St R)) (e : Event (Call St R)) (d t : Dispatcher St R)
      (o : Option (Worker (Job St R)))
      → o ≡ step (with_promise d.made e) d.worker
      → settle e d o ≡ some t
      → Serves ares log d
      → Serves ares (log ++ posts (e ∷ [])) t
  unfolding settle
  settle-Serves ares log e d t none same h v = absurd (cc)
  settle-Serves ares log e d t (some w) same h v =
      subst (Serves ares (log ++ posts (e ∷ []))) (some-injective _ _ h) (record {
        accounts =
            step-accounted (with_promise d.made e) d.worker w (sym same)
            ∙ ap (λ xs. xs ++ posts (with_promise d.made e ∷ [])) v.accounts
            ∙ ap (λ xs. numbered 0 log ++ xs)
                (posts-with_promise e d.made ∙ ap (λ k. numbered k (posts (e ∷ []))) at_end)
            ∙ sym (numbered-append 0 log (posts (e ∷ [])));
        counted =
            omega (arith, promised-length e d.made, v.counted, length-append log (posts (e ∷ [])));
        ran =
            ap (run_jobs (completed (with_promise d.made e) d.worker.thread)) v.ran
            ∙ sym (
                run_jobs-append d.worker.returned
                  (completed (with_promise d.made e) d.worker.thread) (fresh ares).memory)
            ∙ ap (λ jobs. run_jobs jobs (fresh ares).memory)
                (sym (
                  step-returned (with_promise d.made e) d.worker.queue d.worker.running
                    d.worker.thread d.worker.returned w (sym same)));
      })
    where
      at_end : d.made ≡ 0 + length log
      at_end = omega (arith, v.counted)

  continue-Serves :
      (ares : St) (log : List (Call St R)) (e : Event (Call St R)) (es : List (Event (Call St R)))
      (d t : Dispatcher St R) (o : Option (Dispatcher St R))
      → o ≡ dispatch_step e d
      → continue o (dispatch_all es) ≡ some t
      → Serves ares log d
      → ((m : Dispatcher St R) (log' : List (Call St R))
          → dispatch_all es m ≡ some t
          → Serves ares log' m
          → Serves ares (log' ++ posts es) t)
      → Serves ares (log ++ posts (e ∷ es)) t
  unfolding continue dispatch_step
  continue-Serves ares log e es d t none same h v rest = absurd (cc)
  continue-Serves ares log e es d t (some m) same h v rest =
      subst (λ xs. Serves ares xs t)
        (append_assoc log (posts (e ∷ [])) (posts es)
          ∙ ap (λ xs. log ++ xs) (sym (posts-cons e es)))
        (rest m (log ++ posts (e ∷ [])) h
          (settle-Serves ares log e d m (step (with_promise d.made e) d.worker) refl (sym same) v))

  dispatch_all-Serves :
      (es : List (Event (Call St R))) (ares : St) (log : List (Call St R)) (d t : Dispatcher St R)
      → dispatch_all es d ≡ some t
      → Serves ares log d
      → Serves ares (log ++ posts es) t
  unfolding dispatch_all posts
  dispatch_all-Serves [] ares log d t h v =
      subst (Serves ares (log ++ [])) (some-injective _ _ h)
        (subst (λ xs. Serves ares xs d) (sym (append-nil log)) v)
  dispatch_all-Serves (e ∷ es) ares log d t h v =
      continue-Serves ares log e es d t (dispatch_step e d) refl h v
        (λ m log' h' v'. dispatch_all-Serves es ares log' m t h' v')

  fresh-Serves : (ares : St) → Serves ares [] (fresh ares)
  unfolding fresh initial run_jobs numbered
  fresh-Serves ares = record { accounts = refl; counted = refl; ran = refl }

  -- Whatever the calls and however they interleave with the worker thread: the k-th function posted
  -- has answered its caller exactly if it is among those that have returned, the answer is the one
  -- it gives when the functions run on the bridge one after the other in the order of the posts,
  -- and the bridge is left as they leave it.
  pub dispatch_all-eq-serial :
      (es : List (Event (Call St R))) (ares : St) (d : Dispatcher St R)
      → dispatch_all es (fresh ares) ≡ some d
      → ((k : ℕ)
          → d.memory.promises k
            ≡ get_elem? (serial (take (length d.worker.returned) (posts es)) ares).0 k)
        × (d.memory.ares ≡ (serial (take (length d.worker.returned) (posts es)) ares).1)
  unfolding fresh
  dispatch_all-eq-serial es ares d h =
      let v = dispatch_all-Serves es ares [] (fresh ares) d h (fresh-Serves ares) in
      let first =
        append-eq-numbered 0 d.worker.returned (in_hand d.worker.thread ++ d.worker.queue)
          (posts es) v.accounts in
      let m0 : Memory St R = (fresh ares).memory in
      let all : d.memory ≡ run_jobs (numbered 0 (take (length d.worker.returned) (posts es))) m0 =
        v.ran ∙ ap (λ jobs. run_jobs jobs m0) first in
      (
        λ k.
            ap (λ (m : Memory St R). m.promises k) all
            ∙ ap (run_jobs (numbered 0 (take (length d.worker.returned) (posts es))) m0).promises
                (from_zero k)
            ∙ run_jobs-promises _ 0 k m0 (λ i h. refl),
        ap (λ (m : Memory St R). m.ares) all ∙ run_jobs-ares _ 0 m0,
      )
