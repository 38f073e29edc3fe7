-- ===== src/Threads/Balance.antt =====
-- The walks leave no thread suspended and no handle open.
use pokemon_stadium_recomp.Prelude.{
  ℕ, ◌+◌, ◌-◌, ◌++◌, ◌≡◌, refl, ap, ◌∙◌, fun_ext, arith, Bool, true, false, not, List, [], ◌∷◌,
  Option, none, some, ◌==◌, if◌then◌else◌, Option-cases, inl, inr,
}
use pokemon_stadium_recomp.Prelude.Text.{Bytes}
use pokemon_stadium_recomp.Threads.{
  HostThread, Windows, open_handle, close_handle, suspend_thread, resume_thread,
}
use pokemon_stadium_recomp.Threads.Json.{
  Caller, visit_suspended, visit_thread, visit_all, dump_all_threads,
}
use pokemon_stadium_recomp.Threads.Log.{try_suspend, log_visit, log_all, dump_threads}

same_windows :
    (f g : ℕ → ℕ) (m n : ℕ)
    → ((t : ℕ) → f t ≡ g t)
    → m ≡ n
    → ◌≡◌ {A = Windows}
        (record { suspended = f; handles = m })
        (record { suspended = g; handles = n })
same_windows f g m n same e =
    ap (λ h. record { suspended = h; handles = m }) (fun_ext same)
    ∙ ap (λ k. record { suspended = g; handles = k }) e

-- A thread that was suspended and is resumed is as it was, and so is a handle.
resume-suspend :
    (tid : ℕ) (s : Windows)
    → close_handle (resume_thread tid (suspend_thread tid (open_handle s))) ≡ s
unfolding open_handle close_handle suspend_thread resume_thread
resume-suspend tid s = same_windows _ _ _ _ (λ t. back t (s.suspended t)) (omega arith)
  where
    back :
        (t n : ℕ)
        → (if t == tid
            then (if t == tid then n + 1 else n) - 1
            else (if t == tid then n + 1 else n))
          ≡ n
    back t n = ground arith

close-open : (s : Windows) → close_handle (open_handle s) ≡ s
unfolding open_handle close_handle
close-open s = same_windows _ _ _ _ (λ t. refl) (omega arith)

visit_suspended-Windows :
    (th : HostThread) (s : Windows)
    → (visit_suspended th s).1 ≡ close_handle (resume_thread th.tid s)
unfolding visit_suspended
visit_suspended-Windows th s = elim (Option-cases th.context) [
  | inl e ↦ rw (e, visit_suspended) refl
  | inr (ctx, e) ↦ rw (e, visit_suspended) refl
]

either-Windows :
    (b : Bool) (x y : Option Bytes × Windows) (s : Windows)
    → x.1 ≡ s
    → y.1 ≡ s
    → (if b then x else y).1 ≡ s
either-Windows true x y s p q = p
either-Windows false x y s p q = q

visit_thread-Windows : (c : Caller) (th : HostThread) (s : Windows) → (visit_thread c th s).1 ≡ s
unfolding visit_thread
visit_thread-Windows c th s = either-Windows (not (th.owner == c.pid)) _ _ s refl (
    either-Windows (th.tid == c.self_tid) _ _ s refl (
      either-Windows (not th.opens) _ _ s refl (
        either-Windows (not th.suspends) _ _ s (close-open s) (
          visit_suspended-Windows th (suspend_thread th.tid (open_handle s))
          ∙ resume-suspend th.tid s))))

visit_all-Windows : (c : Caller) (ths : List HostThread) (s : Windows) → (visit_all c ths s).1 ≡ s
unfolding visit_all
visit_all-Windows c [] s = refl
visit_all-Windows c (th ∷ ths) s =
    visit_all-Windows c ths (visit_thread c th s).1 ∙ visit_thread-Windows c th s

-- Whatever threads there are and whichever of the calls fail, the walk for the report leaves every
-- thread as often suspended as before, and as many handles open.
pub dump_all_threads-Windows :
    (c : Caller) (ths : Option (List HostThread)) (s : Windows) → (dump_all_threads c ths s).1 ≡ s
unfolding dump_all_threads
dump_all_threads-Windows c none s = refl
dump_all_threads-Windows c (some ths) s =
    ap close_handle (visit_all-Windows c ths (open_handle s)) ∙ close-open s

-- Each thread of the snapshot that belongs to the process and opens can be suspended.
abbrev Suspendable : List HostThread → Type 0
Suspendable [] = Unit {0}
Suspendable (th ∷ ths) = (th.suspends ≡ true) × Suspendable ths

log_visit-Windows :
    (pid self_tid : ℕ) (th : HostThread) (s : Windows)
    → th.suspends ≡ true
    → (log_visit pid self_tid th s).1 ≡ s
unfolding log_visit
log_visit-Windows pid self_tid th s can = either-Windows (not (th.owner == pid)) _ _ s refl (
    either-Windows (th.tid == self_tid) _ _ s refl (
      either-Windows (not th.opens) _ _ s refl (
        ap (λ w. close_handle (resume_thread th.tid w)) (tried (open_handle s))
        ∙ resume-suspend th.tid s)))
  where
    tried : (w : Windows) → try_suspend th w ≡ suspend_thread th.tid w
    tried w = unfold try_suspend in rw can refl

counted-Windows :
    (text : Option Bytes) (texts : Bytes) (n : ℕ) (w : Windows)
    → (elim text as (λ x. Bytes × ℕ × Windows) [
      | none ↦ (texts, n, w)
      | some t ↦ (t ++ texts, n + 1, w)
    ]).2
      ≡ w
counted-Windows none texts n w = refl
counted-Windows (some t) texts n w = refl

log_all-Windows :
    (pid self_tid : ℕ) (ths : List HostThread) (s : Windows)
    → Suspendable ths
    → (log_all pid self_tid ths s).2 ≡ s
unfolding log_all
log_all-Windows pid self_tid [] s can = refl
log_all-Windows pid self_tid (th ∷ ths) s can =
    counted-Windows (log_visit pid self_tid th s).0 _ _ _
    ∙ log_all-Windows pid self_tid ths (log_visit pid self_tid th s).1 can.1
    ∙ log_visit-Windows pid self_tid th s can.0

-- So does the walk for the log, where every thread can be suspended.
dump_threads-Windows :
    (pid self_tid : ℕ) (ths : List HostThread) (s : Windows)
    → Suspendable ths
    → (dump_threads pid self_tid (some ths) s).2 ≡ s
unfolding dump_threads
dump_threads-Windows pid self_tid ths s can =
    ap close_handle (log_all-Windows pid self_tid ths (open_handle s) can) ∙ close-open s

-- A thread that cannot be suspended is resumed all the same: one that is suspended already by someone
-- else goes on.
log_visit-resumes :
    (pid self_tid : ℕ) (th : HostThread) (s : Windows)
    → (th.owner ≡ pid) × ((th.tid == self_tid) ≡ false) × (th.opens ≡ true)
    → th.suspends ≡ false
    → (log_visit pid self_tid th s).1.suspended th.tid ≡ s.suspended th.tid - 1
unfolding log_visit try_suspend resume_thread open_handle close_handle
log_visit-resumes pid self_tid th s (own, other, opened) cannot = ground arith
