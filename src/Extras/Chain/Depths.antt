-- ===== src/Extras/Chain/Depths.antt =====
-- The depths of the recursion as the ring shows them.
use pokemon_stadium_recomp.Prelude.{
  ℕ, suc, ◌+◌, ◌^◌, ◌<◌, ◌≡◌, refl, ◌∙◌, arith, List, [], ◌∷◌, ◌++◌, length, length-append,
}
use mathlib.Core.Path.{subst}
use mathlib.Core.List.{append-nil, append_assoc}
use pokemon_stadium_recomp.Ring.Window.{Holds, push-Holds, init-Holds}
use pokemon_stadium_recomp.Extras.Chain.{
  ChainEv, Chain, chain_ring_cap, no_chain_event, initial, entry_event, exit_event, mbp_entry,
  mbp_exit,
}

-- Calls of n_alMainBusPull one behind the other: each with the registers at its entry, the calls
-- that it makes, and the registers at its exit.
pub data Calls : Type 0 where
  done : Calls
  call : ℕ → ℕ → ℕ → Calls → ℕ → ℕ → Calls → Calls

-- The probes of the calls, in the order of time.
unfoldable pub run_probes : Calls → Chain → Chain
unfolding mbp_entry mbp_exit
run_probes done s = s
run_probes (call a0 a1 v0 inner v0' s0 rest) s =
    run_probes rest (mbp_exit v0' s0 (run_probes inner (mbp_entry a0 a1 v0 s))).1

-- The events at depth `n`: a call's exit has the depth of its entry.
unfoldable pub events : ℕ → Calls → List ChainEv
events n done = []
events n (call a0 a1 v0 inner v0' s0 rest) =
    entry_event (n + 1) a0 a1 v0 ∷ events (n + 1) inner ++ exit_event (n + 1) v0' s0 ∷ events n rest

around :
    {A : Type 0} (log inner rest : List A) (e x : A)
    → (((log ++ e ∷ []) ++ inner) ++ x ∷ []) ++ rest ≡ log ++ (e ∷ (inner ++ (x ∷ rest)))
around log inner rest e x = simp append_assoc

run_probes-depth : (cs : Calls) (s : Chain) → (run_probes cs s).depth ≡ s.depth
unfolding run_probes
run_probes-depth done s = refl
run_probes-depth (call a0 a1 v0 inner v0' s0 rest) s = omega (
  arith,
  run_probes-depth rest (mbp_exit v0' s0 (run_probes inner (mbp_entry a0 a1 v0 s))).1,
  run_probes-depth inner (mbp_entry a0 a1 v0 s),
)

-- The number of events.
unfoldable pub size : Calls → ℕ
size done = 0
size (call a0 a1 v0 inner v0' s0 rest) = suc (size inner + suc (size rest))

length-events : (n : ℕ) (cs : Calls) → length (events n cs) ≡ size cs
unfolding events size
length-events n done = refl
length-events n (call a0 a1 v0 inner v0' s0 rest) = omega (
  arith,
  length-append (events (n + 1) inner) (exit_event (n + 1) v0' s0 ∷ events n rest),
  length-events (n + 1) inner,
  length-events n rest,
)

abbrev Logs : List ChainEv → Chain → Type 0
Logs log s = Holds chain_ring_cap no_chain_event log s.ring

entry-Logs :
    {log : List ChainEv} (s : Chain) (n a0 a1 v0 : ℕ)
    → length log + 1 < 2 ^ 64
    → s.depth ≡ n
    → Logs log s
    → Logs (log ++ entry_event (n + 1) a0 a1 v0 ∷ []) (mbp_entry a0 a1 v0 s)
unfolding mbp_entry
entry-Logs s n a0 a1 v0 small e v =
    rw (← e) (push-Holds chain_ring_cap no_chain_event _ (omega arith) small v)

exit-Logs :
    {log : List ChainEv} (s : Chain) (n v0 s0 : ℕ)
    → length log + 1 < 2 ^ 64
    → s.depth ≡ n
    → Logs log s
    → Logs (log ++ exit_event n v0 s0 ∷ []) (mbp_exit v0 s0 s).1
unfolding mbp_exit
exit-Logs s n v0 s0 small e v =
    rw (← e) (push-Holds chain_ring_cap no_chain_event _ (omega arith) small v)

length-inner :
    {A : Type 0} (log inner : List A) (e : A) (k : ℕ)
    → length inner ≡ k
    → length ((log ++ e ∷ []) ++ inner) ≡ length log + 1 + k
length-inner log inner e k h =
    omega (arith, length-append (log ++ e ∷ []) inner, length-append log (e ∷ []))

run_probes-Logs :
    (cs : Calls) {log : List ChainEv} (s : Chain) (n : ℕ)
    → length log + size cs < 2 ^ 64
    → s.depth ≡ n
    → Logs log s
    → Logs (log ++ events n cs) (run_probes cs s)
unfolding run_probes events size
run_probes-Logs done {log} s n small e v = rw (append-nil log) v
run_probes-Logs (call a0 a1 v0 inner v0' s0 rest) {log} s n small e v =
    let opened : Chain = mbp_entry a0 a1 v0 s in
    let entry : ChainEv = entry_event (n + 1) a0 a1 v0 in
    let exit : ChainEv = exit_event (n + 1) v0' s0 in
    let deeper : opened.depth ≡ n + 1 = omega (arith, e) in
    let total =
      length-inner log (events (n + 1) inner) entry (size inner) (length-events (n + 1) inner) in
    let deep =
      run_probes-Logs inner opened (n + 1) (omega (arith, length-append log (entry ∷ []))) deeper
        (entry-Logs s n a0 a1 v0 (omega arith) e v) in
    let left =
      exit-Logs (run_probes inner opened) (n + 1) v0' s0 (omega (arith, total))
        (run_probes-depth inner opened ∙ deeper) deep in
    subst (λ xs. Logs xs (run_probes rest (mbp_exit v0' s0 (run_probes inner opened)).1))
      (around log (events (n + 1) inner) (events n rest) entry exit)
      (run_probes-Logs rest _ n
        (omega
          (arith, total, length-append ((log ++ entry ∷ []) ++ events (n + 1) inner) (exit ∷ [])))
        (omega (arith, run_probes-depth inner opened, deeper)) left)

-- From the start of the process, and for fewer than 2^64 events, the ring holds the newest 256 events
-- of the calls, in order, where the entry and the exit of a call carry the same depth, 1 for an
-- outermost call and one more for each call around it.
pub run_probes-Holds :
    (cs : Calls)
    → size cs < 2 ^ 64
    → Holds chain_ring_cap no_chain_event (events 0 cs) (run_probes cs initial).ring
unfolding initial
run_probes-Holds cs small =
    run_probes-Logs cs {log = []} initial 0 (omega arith) refl
      (init-Holds chain_ring_cap no_chain_event)
