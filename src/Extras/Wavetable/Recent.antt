-- ===== src/Extras/Wavetable/Recent.antt =====
-- The history that the overflow probe prints for one filter.
use pokemon_stadium_recomp.Prelude.{
  ℕ, zero, suc, ◌+◌, ◌-◌, ◌^◌, ◌≤◌, ◌<◌, ◌≡◌, refl, sym, ap, ◌∙◌, arith, min, List, [], ◌∷◌, ◌++◌,
  true, ◌==◌, if◌then◌else◌, length, get_or, take, length-append, Bool-cases, inl, inr, ltb, ltb→lt,
  take-all, take-min, get_or-append_left, get_or-append_end,
}
use mathlib.Core.Path.{subst}
use mathlib.Core.List.{append-nil, append_assoc, reverse, reverse-append, reverse-cons}
use pokemon_stadium_recomp.Ring.{Ring, push}
use pokemon_stadium_recomp.Ring.Window.{Holds, push-Holds, init-Holds}
use pokemon_stadium_recomp.Rdram.{Rdram}
use pokemon_stadium_recomp.Extras.Wavetable.{
  WavetableEv, no_wavetable, wavetable_ring_cap, initial, wavetable_event, set_wavetable_probe,
  walk_back, wt_dump_for_filter,
}

-- One call of `n_alSynFilter...(filter, paramID, param)` with the memory at that time.
pub record Call : Type 0 where
  pub rdram : Rdram
  pub filter : ℕ
  pub param_id : ℕ
  pub param : ℕ

unfoldable pub probe_all : List Call → Ring WavetableEv → Ring WavetableEv
unfolding set_wavetable_probe
probe_all [] r = r
probe_all (c ∷ cs) r = probe_all cs (set_wavetable_probe c.rdram c.filter c.param_id c.param r)

-- The SET_WAVETABLE calls, numbered from `n` on.
unfoldable pub history : ℕ → List Call → List WavetableEv
history n [] = []
history n (c ∷ cs) =
    if c.param_id == 5
    then wavetable_event c.rdram c.filter c.param n ∷ history (n + 1) cs
    else history n cs

unfoldable pub matching : ℕ → List WavetableEv → List WavetableEv
matching filter [] = []
matching filter (e ∷ es) = if e.filter == filter then e ∷ matching filter es else matching filter es

Numbered : List WavetableEv → Type 0
Numbered log = (i : ℕ) → i < length log → (get_or log i no_wavetable).seq ≡ i

reverse-snoc : {A : Type 0} (xs : List A) (x : A) → reverse (xs ++ x ∷ []) ≡ x ∷ reverse xs
reverse-snoc xs x = reverse-append xs (x ∷ [])

take-snoc :
    {A : Type 0} (s : ℕ) (xs : List A) (d : A)
    → s < length xs
    → take (suc s) xs ≡ take s xs ++ get_or xs s d ∷ []
take-snoc s [] d h = absurd (omega arith)
take-snoc zero (x ∷ xs) d h = refl
take-snoc (suc s) (x ∷ xs) d h = ap (λ ys. x ∷ ys) (take-snoc s xs d (omega arith))

walk_back-eq-take :
    {log : List WavetableEv} {r : Ring WavetableEv} (filter fuel s room : ℕ)
    → Holds wavetable_ring_cap no_wavetable log r
    → Numbered log
    → fuel ≤ s
    → s ≤ length log
    → length log + fuel ≤ s + 64
    → walk_back filter r fuel s room
      ≡ take room (matching filter (take fuel (reverse (take s log))))
unfolding walk_back matching Numbered
walk_back-eq-take filter zero s zero v n a b c = refl
walk_back-eq-take filter zero s (suc room) v n a b c = refl
walk_back-eq-take filter (suc fuel) s zero v n a b c = refl
walk_back-eq-take filter (suc fuel) zero (suc room) v n a b c = absurd (omega arith)
walk_back-eq-take {log} {r} filter (suc fuel) (suc s) (suc room) v n a b c =
    rw (walk_back, back, v.kept s (omega arith) (omega arith), numbered, newest)
      (elim (Bool-cases ((get_or log s no_wavetable).filter == filter)) [
        | inl same ↦
            rw (same, matching)
              (ap (λ es. get_or log s no_wavetable ∷ es)
                (walk_back-eq-take filter fuel s room v n (omega arith) (omega arith)
                  (omega arith)))
        | inr other ↦
            rw (other, matching)
              (walk_back-eq-take filter fuel s (suc room) v n (omega arith) (omega arith)
                (omega arith))
      ])
  where
    back : suc s - 1 ≡ s
    back = omega arith

    numbered : ((get_or log s no_wavetable).seq == s) ≡ true
    numbered = ground (arith, n s (omega arith))

    newest : reverse (take (suc s) log) ≡ get_or log s no_wavetable ∷ reverse (take s log)
    newest =
        ap reverse (take-snoc s log no_wavetable (omega arith))
        ∙ reverse-snoc (take s log) (get_or log s no_wavetable)

length-reverse : {A : Type 0} (xs : List A) → length (reverse xs) ≡ length xs
length-reverse [] = refl
length-reverse (x ∷ xs) =
    rw (reverse-cons x xs) (omega (arith, length-append (reverse xs) (x ∷ []), length-reverse xs))

abbrev Kept : List WavetableEv → Ring WavetableEv → Type 0
Kept log r = Holds wavetable_ring_cap no_wavetable log r × Numbered log

Numbered-snoc :
    (log : List WavetableEv) (e : WavetableEv)
    → e.seq ≡ length log
    → Numbered log
    → Numbered (log ++ e ∷ [])
unfolding Numbered
Numbered-snoc log e h n i below = elim (Bool-cases (ltb i (length log))) [
  | inl old ↦
      rw (get_or-append_left log (e ∷ []) i no_wavetable (ltb→lt _ _ old)) (n i (ltb→lt _ _ old))
  | inr new ↦
      let last : i ≡ length log = ground (arith, length-append log (e ∷ [])) in
      rw (get_or-append_end log e i no_wavetable last) (h ∙ sym last)
]

initial-Kept : Kept [] initial
unfolding initial Numbered
initial-Kept = (init-Holds wavetable_ring_cap no_wavetable, λ i below. absurd (omega arith))

pushed-Kept :
    (c : Call) (log : List WavetableEv) (r : Ring WavetableEv) (n : ℕ)
    → n + 1 < 2 ^ 64
    → length log ≡ n
    → Kept log r
    → Kept
        (log ++ wavetable_event c.rdram c.filter c.param n ∷ [])
        (push wavetable_ring_cap (wavetable_event c.rdram c.filter c.param r.seq) r)
unfolding wavetable_event
pushed-Kept c log r n small e (v, numbered) =
    subst
      (λ k.
        Kept (log ++ wavetable_event c.rdram c.filter c.param k ∷ [])
          (push wavetable_ring_cap (wavetable_event c.rdram c.filter c.param r.seq) r))
      (v.counted ∙ e)
      (
        push-Holds wavetable_ring_cap no_wavetable _ (omega arith) (omega (arith, e)) v,
        Numbered-snoc log (wavetable_event c.rdram c.filter c.param r.seq) v.counted numbered,
      )

probe_all-Kept :
    (cs : List Call) (log : List WavetableEv) (r : Ring WavetableEv) (n : ℕ)
    → n + length cs < 2 ^ 64
    → length log ≡ n
    → Kept log r
    → Kept (log ++ history n cs) (probe_all cs r)
unfolding probe_all history
probe_all-Kept [] log r n small e k = rw (append-nil log) k
probe_all-Kept (c ∷ cs) log r n small e k = elim (Bool-cases (c.param_id == 5)) [
  | inr other ↦ rw other (probe_all-Kept cs log r n (omega arith) e k)
  | inl wavetable ↦
      let event : WavetableEv = wavetable_event c.rdram c.filter c.param n in
      rw (wavetable, ← append_assoc log (event ∷ []) (history (n + 1) cs))
        (probe_all-Kept cs (log ++ event ∷ []) _ (n + 1) (omega arith)
          (omega (arith, length-append log (event ∷ []), e))
          (pushed-Kept c log r n (omega arith) e k))
]

-- From the start of the process, and for fewer than 2^64 calls, the history printed for a filter is,
-- newest first, its newest 4 SET_WAVETABLE calls among the newest 64 of all filters.
pub wt_dump_for_filter-eq-take :
    (cs : List Call) (filter : ℕ)
    → length cs < 2 ^ 64
    → wt_dump_for_filter filter (probe_all cs initial)
      ≡ take 4 (matching filter (take 64 (reverse (history 0 cs))))
unfolding wt_dump_for_filter
wt_dump_for_filter-eq-take cs filter small =
    let log : List WavetableEv = history 0 cs in
    let r : Ring WavetableEv = probe_all cs initial in
    let (v, numbered) = probe_all-Kept cs [] initial 0 (omega arith) refl initial-Kept in
    walk_back-eq-take filter (min 64 r.seq) r.seq 4 v numbered (omega arith)
      (omega (arith, v.counted)) (omega (arith, v.counted))
    ∙ ap (λ es. take 4 (matching filter es))
        (rw (v.counted, take-all (length log) log (omega arith), ← length-reverse log)
          (take-min 64 (reverse log)))
