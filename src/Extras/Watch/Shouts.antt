-- ===== src/Extras/Watch/Shouts.antt =====
-- What a watched ring shouts, and what the dispatch ring keeps of nested dispatches.
use pokemon_stadium_recomp.Prelude.{
  ℕ, ◌+◌, ◌-◌, ◌%◌, ◌^◌, ◌<◌, ◌≡◌, refl, ap, arith, List, [], ◌∷◌, ◌++◌, length, Bool, true, false,
  not, ◌&&◌, ◌==◌, if◌then◌else◌, Bool-cases, inl, inr, length-set, set, get_or-set_self,
}
use pokemon_stadium_recomp.Ring.{Ring, push, at}
use pokemon_stadium_recomp.Rdram.{in_rdram}
use pokemon_stadium_recomp.Extras.Watch.{
  Watched, watch, DispatchEv, no_dispatch, afx_ring_cap, mbp_dispatch, mbp_dispatch_ret, patch_last,
  mbp_disp_get,
}

and_false : (b : Bool) → (b && false) ≡ false
and_false true = refl
and_false false = refl

module _ {ℓ} {E : Type ℓ} (cap : ℕ) where
  -- Events with the pointer that each is watched for; the lines in order.
  unfoldable pub watch_all : List (E × ℕ) → Watched E → List (E × ℕ)
  unfolding watch
  watch_all [] w = []
  watch_all ((e, p) ∷ es) w = (watch cap e p w).0 ++ watch_all es (watch cap e p w).1

  -- The first event with a pointer outside of RDRAM, the events being numbered from `n` on.
  unfoldable pub first_bad : ℕ → List (E × ℕ) → List (E × ℕ)
  first_bad n [] = []
  first_bad n ((e, p) ∷ es) = if in_rdram p then first_bad (n + 1) es else (e, n) ∷ []

  watch_all-logged : (es : List (E × ℕ)) (w : Watched E) → w.logged_bad ≡ true → watch_all es w ≡ []
  unfolding watch_all
  watch_all-logged [] w h = refl
  watch_all-logged ((e, p) ∷ es) w h =
      rw (h, and_false (not (in_rdram p))) (watch_all-logged es _ refl)

  watch_all-from :
      (es : List (E × ℕ)) (w : Watched E) (n : ℕ)
      → n + length es < 2 ^ 64
      → w.ring.seq ≡ n
      → w.logged_bad ≡ false
      → watch_all es w ≡ first_bad n es
  unfolding watch_all first_bad
  watch_all-from [] w n small e h = refl
  watch_all-from ((x, p) ∷ es) w n small e h = elim (Bool-cases (in_rdram p)) [
    | inl good ↦
        rw (h, good)
          (watch_all-from es (record { ring = push cap x w.ring; logged_bad = false }) (n + 1)
            (omega arith) (omega (arith, e)) refl)
    | inr bad ↦ rw (h, bad, e) (ap (λ xs. (x, n) ∷ xs) (watch_all-logged es _ refl))
  ]

  -- A watched ring that has not shouted yet shouts once, about the first event whose pointer is
  -- outside of RDRAM and with that event's number, and not at all when there is none; for fewer than
  -- 2^64 events.
  watch_all-eq-first_bad :
      (es : List (E × ℕ)) (w : Watched E)
      → w.ring.seq + length es < 2 ^ 64
      → w.logged_bad ≡ false
      → watch_all es w ≡ first_bad w.ring.seq es
  watch_all-eq-first_bad es w small h = watch_all-from es w w.ring.seq small refl h

at-patch_last :
    (e : DispatchEv) (v0 : ℕ) (r : Ring DispatchEv)
    → length r.slots ≡ afx_ring_cap
    → r.seq + 1 < 2 ^ 64
    → at afx_ring_cap no_dispatch (patch_last v0 (push afx_ring_cap e r)) r.seq
      ≡ record e { v0 = v0 }
unfolding patch_last at push
at-patch_last e v0 r full small =
    rw
      (
        back,
        get_or-set_self r.slots (r.seq % 32) e no_dispatch (omega (arith, full)),
        get_or-set_self (set r.slots (r.seq % 32) e) (r.seq % 32) (record e { v0 = v0 }) no_dispatch
            (omega (arith, full, length-set r.slots (r.seq % 32) e)),
      )
      refl
  where
    back : (r.seq + 1) % 2 ^ 64 - 1 ≡ r.seq
    back = omega arith

-- A dispatch and its return, with no dispatch in between, leave one entry that has both, at the
-- dispatch's number, in a ring of 32 slots and for fewer than 2^64 dispatches.
mbp_dispatch-mbp_dispatch_ret :
    (t8 t9 v0 : ℕ) (w : Watched DispatchEv)
    → length w.ring.slots ≡ afx_ring_cap
    → w.ring.seq + 1 < 2 ^ 64
    → mbp_disp_get (mbp_dispatch_ret v0 (mbp_dispatch t8 t9 w).1).1.ring w.ring.seq
      ≡ record { t8 = t8; t9 = t9; v0 = v0 }
unfolding mbp_disp_get mbp_dispatch_ret mbp_dispatch
mbp_dispatch-mbp_dispatch_ret t8 t9 v0 w full small =
    rw (mbp_dispatch_ret, going)
      (at-patch_last (record { t8 = t8; t9 = t9; v0 = 0xDEADBEEF }) v0 w.ring full small)
  where
    going : ((w.ring.seq + 1) % 2 ^ 64 == 0) ≡ false
    going = ground arith
