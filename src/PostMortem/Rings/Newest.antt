-- ===== src/PostMortem/Rings/Newest.antt =====
-- The walk of a ring shows its newest events, numbered, in order.
use pokemon_stadium_recomp.Prelude.{
  numbered, ℕ, zero, suc, ◌+◌, ◌-◌, ◌%◌, ◌^◌, ◌<◌, ◌≤◌, ◌≡◌, refl, ap, ◌∙◌, arith, List, ◌∷◌, ltb,
  length, drop, Bool-cases, inl, inr, get_or, ltb→lt,
}
use pokemon_stadium_recomp.Ring.{Ring, at}
use pokemon_stadium_recomp.Ring.Window.{Holds, read_from, read_from-eq-drop}
use pokemon_stadium_recomp.Extras.Chain.{initial, chain_ring_cap, no_chain_event, mbp_chain_get}
use pokemon_stadium_recomp.Extras.Chain.Depths.{Calls, size, events, run_probes, run_probes-Holds}
use pokemon_stadium_recomp.PostMortem.Rings.{events_at, window}

module _ {ℓ} {A : Type ℓ} (cap : ℕ) (d : A) where
  mod-mod : (i : ℕ) → 0 < cap → i % cap % cap ≡ i % cap
  mod-mod i room = grind arith

  at-mod : (r : Ring A) (i : ℕ) → 0 < cap → at cap d r (i % cap) ≡ at cap d r i
  unfolding at
  at-mod r i room = ap (λ k. get_or r.slots k d) (mod-mod i room)

  events_at-eq-numbered :
      (get : ℕ → A) (r : Ring A) (n start : ℕ)
      → 0 < cap
      → ((i : ℕ) → get i ≡ at cap d r i)
      → events_at cap get n start ≡ numbered start (read_from cap d r n start)
  unfolding events_at numbered read_from
  events_at-eq-numbered get r zero start room same = refl
  events_at-eq-numbered get r (suc n) start room same =
      rw (same (start % cap), at-mod r start room)
        (ap (λ es. (start, at cap d r start) ∷ es)
          (events_at-eq-numbered get r n (start + 1) room same))

  shown :
      (get : ℕ → A) (r : Ring A) (log : List A) (n start : ℕ)
      → 0 < cap
      → ((i : ℕ) → get i ≡ at cap d r i)
      → Holds cap d log r
      → start + n ≡ length log
      → n ≤ cap
      → start ≡ length log - cap
      → events_at cap get n start ≡ numbered (length log - cap) (drop (length log - cap) log)
  shown get r log n start room same v e small first =
      events_at-eq-numbered get r n start room same
      ∙ ap (numbered start) (read_from-eq-drop cap d n start v e small)
      ∙ ap (λ k. numbered k (drop k log)) first

  -- Of a ring that holds a history, the walk shows the newest `cap` events with their numbers, in
  -- order, and all of a shorter history.
  window-eq-numbered :
      (get : ℕ → A) (r : Ring A) (log : List A)
      → 0 < cap
      → ((i : ℕ) → get i ≡ at cap d r i)
      → Holds cap d log r
      → window cap get r.seq ≡ numbered (length log - cap) (drop (length log - cap) log)
  unfolding window
  window-eq-numbered get r log room same v = elim (Bool-cases (ltb r.seq cap)) [
    | inl short ↦
        let few : r.seq < cap = ltb→lt r.seq cap short in
        rw short (
          shown get r log r.seq 0 room same v (omega (arith, v.counted)) (omega (arith, few))
            (omega (arith, few, v.counted)))
    | inr long ↦
        let many : cap ≤ r.seq = ground (arith, long) in
        rw long (
          shown get r log cap (r.seq - cap) room same v (omega (arith, v.counted, many))
            (omega arith) (omega (arith, v.counted)))
  ]

-- Behind the calls of n_alMainBusPull from the start of the process, with fewer than 2^64 entries and
-- exits, the report shows the newest 256 of these with their numbers, in order, where the entry and
-- the exit of a call carry the same depth: 1 for an outermost call, and one more for each call around
-- it.
pub chain_window-eq-numbered :
    (cs : Calls)
    → size cs < 2 ^ 64
    → window chain_ring_cap
        (mbp_chain_get (run_probes cs initial).ring)
        (run_probes cs initial).ring.seq
      ≡ numbered
          (length (events 0 cs) - chain_ring_cap)
          (drop (length (events 0 cs) - chain_ring_cap) (events 0 cs))
unfolding mbp_chain_get
chain_window-eq-numbered cs small =
    window-eq-numbered chain_ring_cap no_chain_event _ (run_probes cs initial).ring (events 0 cs)
      (omega arith) (λ i. refl) (run_probes-Holds cs small)
