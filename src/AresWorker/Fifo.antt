-- ===== src/AresWorker/Fifo.antt =====
-- Every job runs once, in the order of the posts, and none is left behind by a shutdown.
use mathlib.Core.List.{append-nil, append_assoc}
use mathlib.Core.Option.{some-injective}
use pokemon_stadium_recomp.Prelude.{
  ◌≡◌, refl, sym, ap, ◌∙◌, Bool, true, false, List, [], ◌∷◌, ◌++◌, Option, none, some,
}
use pokemon_stadium_recomp.AresWorker.{
  Thread, absent, idle, busy, finished, Worker, Event, start, shutdown, join, post, take_job,
  end_job, leave, initial, step, run, start_worker, shutdown_worker, post_job, take_front,
  finish_job, leave_loop, join_thread, go_on,
}

-- The jobs that were posted, in order.
unfoldable pub posts {ℓ} : {J : Type ℓ} → List (Event J) → List J
posts [] = []
posts (post job ∷ es) = job ∷ posts es
posts (start ∷ es) = posts es
posts (shutdown ∷ es) = posts es
posts (join ∷ es) = posts es
posts (take_job ∷ es) = posts es
posts (end_job ∷ es) = posts es
posts (leave ∷ es) = posts es

abbrev pub in_hand {ℓ} : {J : Type ℓ} → Thread J → List J
in_hand absent = []
in_hand idle = []
in_hand (busy job) = job ∷ []
in_hand finished = []

-- What has returned, what is being run, and what waits.
abbrev pub accounted {ℓ} : {J : Type ℓ} → Worker J → List J
accounted w = w.returned ++ (in_hand w.thread ++ w.queue)

module _ {ℓ} {J : Type ℓ} where
  -- Every answer of a step accounts for the same jobs and the new ones.
  Adds : List J → Worker J → Option (Worker J) → Type ℓ
  Adds new w o = (t : Worker J) → o ≡ some t → accounted t ≡ accounted w ++ new

  same_jobs : (w t : Worker J) → accounted t ≡ accounted w → Adds [] w (some t)
  unfolding Adds
  same_jobs w t e u h =
      ap accounted (sym (some-injective _ _ h)) ∙ e ∙ sym (append-nil (accounted w))

  no_answer : (new : List J) (w : Worker J) → Adds new w none
  unfolding Adds
  no_answer new w t h = absurd (cc)

  start-Adds :
      (q : List J) (r : Bool) (th : Thread J) (d : List J)
      → Adds []
          (record { queue = q; running = r; thread = th; returned = d })
          (start_worker (record { queue = q; running = r; thread = th; returned = d }))
  unfolding start_worker
  start-Adds q true th d = same_jobs _ _ refl
  start-Adds q false absent d = same_jobs _ _ refl
  start-Adds q false idle d = no_answer _ _
  start-Adds q false (busy j) d = no_answer _ _
  start-Adds q false finished d = no_answer _ _

  take-Adds :
      (q : List J) (r : Bool) (th : Thread J) (d : List J)
      → Adds []
          (record { queue = q; running = r; thread = th; returned = d })
          (take_front (record { queue = q; running = r; thread = th; returned = d }))
  unfolding take_front
  take-Adds [] r idle d = no_answer _ _
  take-Adds (j ∷ q) r idle d = same_jobs _ _ refl
  take-Adds q r absent d = no_answer _ _
  take-Adds q r (busy j) d = no_answer _ _
  take-Adds q r finished d = no_answer _ _

  end-Adds :
      (q : List J) (r : Bool) (th : Thread J) (d : List J)
      → Adds []
          (record { queue = q; running = r; thread = th; returned = d })
          (finish_job (record { queue = q; running = r; thread = th; returned = d }))
  unfolding finish_job
  end-Adds q r idle d = no_answer _ _
  end-Adds q r absent d = no_answer _ _
  end-Adds q r (busy j) d = same_jobs _ _ (append_assoc d (j ∷ []) q)
  end-Adds q r finished d = no_answer _ _

  leave-Adds :
      (q : List J) (r : Bool) (th : Thread J) (d : List J)
      → Adds []
          (record { queue = q; running = r; thread = th; returned = d })
          (leave_loop (record { queue = q; running = r; thread = th; returned = d }))
  unfolding leave_loop
  leave-Adds q true idle d = no_answer _ _
  leave-Adds [] false idle d = same_jobs _ _ refl
  leave-Adds (j ∷ q) false idle d = no_answer _ _
  leave-Adds q r absent d = no_answer _ _
  leave-Adds q r (busy j) d = no_answer _ _
  leave-Adds q r finished d = no_answer _ _

  join-Adds :
      (q : List J) (r : Bool) (th : Thread J) (d : List J)
      → Adds []
          (record { queue = q; running = r; thread = th; returned = d })
          (join_thread (record { queue = q; running = r; thread = th; returned = d }))
  unfolding join_thread
  join-Adds q r absent d = no_answer _ _
  join-Adds q r idle d = no_answer _ _
  join-Adds q r (busy j) d = no_answer _ _
  join-Adds q r finished d = same_jobs _ _ refl

  post-Adds : (j : J) (w : Worker J) → Adds (j ∷ []) w (some (post_job j w))
  unfolding post_job Adds
  post-Adds j w t h =
      ap accounted (sym (some-injective _ _ h))
      ∙ ap (λ (xs : List J). w.returned ++ xs)
          (sym (append_assoc (in_hand w.thread) w.queue (j ∷ [])))
      ∙ sym (append_assoc w.returned (in_hand w.thread ++ w.queue) (j ∷ []))

  step-Adds : (e : Event J) (w : Worker J) → Adds (posts (e ∷ [])) w (step e w)
  unfolding step posts shutdown_worker
  step-Adds start w = start-Adds w.queue w.running w.thread w.returned
  step-Adds shutdown w = same_jobs _ _ refl
  step-Adds join w = join-Adds w.queue w.running w.thread w.returned
  step-Adds (post j) w = post-Adds j w
  step-Adds take_job w = take-Adds w.queue w.running w.thread w.returned
  step-Adds end_job w = end-Adds w.queue w.running w.thread w.returned
  step-Adds leave w = leave-Adds w.queue w.running w.thread w.returned

  pub step-accounted :
      (e : Event J) (w t : Worker J)
      → step e w ≡ some t
      → accounted t ≡ accounted w ++ posts (e ∷ [])
  unfolding Adds
  step-accounted e w t h = step-Adds e w t h

  pub posts-cons : (e : Event J) (es : List (Event J)) → posts (e ∷ es) ≡ posts (e ∷ []) ++ posts es
  unfolding posts
  posts-cons start es = refl
  posts-cons shutdown es = refl
  posts-cons join es = refl
  posts-cons (post j) es = refl
  posts-cons take_job es = refl
  posts-cons end_job es = refl
  posts-cons leave es = refl

  go_on-Adds :
      (es : List (Event J)) (new : List J) (w : Worker J) (o : Option (Worker J))
      → Adds new w o
      → ((m : Worker J) → Adds (posts es) m (run es m))
      → Adds (new ++ posts es) w (go_on o (run es))
  unfolding go_on Adds
  go_on-Adds es new w none a rest t h = absurd (cc)
  go_on-Adds es new w (some m) a rest t h =
      rest m t h ∙ ap (λ xs. xs ++ posts es) (a m refl) ∙ append_assoc (accounted w) new (posts es)

  run-Adds : (es : List (Event J)) (w : Worker J) → Adds (posts es) w (run es w)
  unfolding run posts
  run-Adds [] w = same_jobs w w refl
  run-Adds (e ∷ es) w =
      rw (posts-cons e es)
        (go_on-Adds es (posts (e ∷ [])) w (step e w) (step-Adds e w) (λ m. run-Adds es m))

  -- Whatever the calls and however the threads interleave, from a fresh worker: the jobs that have
  -- returned, then the one being run, then the queue, are exactly the jobs posted, in their order.
  pub run-accounted :
      (es : List (Event J)) (w : Worker J) → run es initial ≡ some w → accounted w ≡ posts es
  unfolding Adds initial
  run-accounted es w h = run-Adds es initial w h
