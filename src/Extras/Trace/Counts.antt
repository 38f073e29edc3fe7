-- ===== src/Extras/Trace/Counts.antt =====
-- What the trace keeps: the newest 4096 calls in order, and every call of a singled-out function.
use pokemon_stadium_recomp.Prelude.{
  ℕ, zero, suc, ◌+◌, ◌^◌, ◌≤◌, ◌<◌, ◌≡◌, refl, ◌∙◌, arith, Bool, true, false, List, [], ◌∷◌, ◌++◌,
  Option, none, some, get_or, if◌then◌else◌, length, length-append, Bool-cases, inl, inr, map, not,
  ◌&&◌,
}
use mathlib.Core.List.{append-nil, append_assoc}
use pokemon_stadium_recomp.Prelude.Bits.{bit_and_mask}
use pokemon_stadium_recomp.Prelude.Text.{Bytes, equal, equal_iff}
use pokemon_stadium_recomp.Ring.{Ring, push, at}
use pokemon_stadium_recomp.Ring.Window.{Holds, push-Holds}
use pokemon_stadium_recomp.Extras.Trace.{
  Trace, interesting_fns, trace_ring_cap, write, count_fn, trace_entry, trace_return, trace_at,
  interesting_fn_count,
}

-- Masking the index is the remainder, so the trace ring is a `Ring`.
write-eq-push : (f : Option Bytes) (r : Ring (Option Bytes)) → write f r ≡ push trace_ring_cap f r
unfolding write push
write-eq-push f r = rw (bit_and_mask 12 r.seq) refl

pub trace_at-eq-at : (r : Ring (Option Bytes)) (i : ℕ) → trace_at r i ≡ at trace_ring_cap none r i
unfolding trace_at at
trace_at-eq-at r i = rw (bit_and_mask 12 i) refl

-- A hook call, by kind.
pub data Hook : Type 0 where
  entry : Bytes → Hook
  exit : Bytes → Hook

abbrev pub name_of : Hook → Bytes
name_of (entry f) = f
name_of (exit f) = f

pub run : List Hook → Trace → Trace
unfolding trace_entry trace_return
run [] t = t
run (entry f ∷ hs) t = run hs (trace_entry f t)
run (exit f ∷ hs) t = run hs (trace_return f t)

-- How often `name` was entered.
pub entries : Bytes → List Hook → ℕ
entries name [] = 0
entries name (entry f ∷ hs) = (if equal f name then 1 else 0) + entries name hs
entries name (exit f ∷ hs) = entries name hs

abbrev pub ring_log : List Hook → List (Option Bytes)
ring_log = map (λ h. some (name_of h))

write-Holds :
    {log : List (Option Bytes)} {r : Ring (Option Bytes)} (f : Option Bytes)
    → length log + 1 < 2 ^ 64
    → Holds trace_ring_cap none log r
    → Holds trace_ring_cap none (log ++ f ∷ []) (write f r)
write-Holds {r = r} f small v =
    rw (write-eq-push f r) (push-Holds trace_ring_cap none f (omega arith) small v)

-- When the ring holds the newest 4096 names of a history, it does so behind any hooks, with the
-- functions entered and left added to the history in order, for fewer than 2^64 names in all.
pub run-Holds :
    (hs : List Hook) {log : List (Option Bytes)} (t : Trace)
    → length log + length hs < 2 ^ 64
    → Holds trace_ring_cap none log t.ring
    → Holds trace_ring_cap none (log ++ ring_log hs) (run hs t).ring
unfolding run
run-Holds [] {log} t small v = rw (append-nil log) v
run-Holds (entry f ∷ hs) {log} t small v = rw (← append_assoc log (some f ∷ []) (ring_log hs)) (
    run-Holds hs _ (omega (arith, length-append log (some f ∷ [])))
      (write-Holds (some f) (omega arith) v))
run-Holds (exit f ∷ hs) {log} t small v = rw (← append_assoc log (some f ∷ []) (ring_log hs)) (
    run-Holds hs _ (omega (arith, length-append log (some f ∷ [])))
      (write-Holds (some f) (omega arith) v))

fresh_all : Bytes → List Bytes → Bool
fresh_all f [] = true
fresh_all f (n ∷ ns) = not (equal f n) && fresh_all f ns

distinct : List Bytes → Bool
unfolding fresh_all
distinct [] = true
distinct (n ∷ ns) = fresh_all n ns && distinct ns

-- The table of extras.c has 48 different names.
interesting_fns-distinct : distinct interesting_fns ≡ true
unfolding distinct equal
interesting_fns-distinct = refl

abbrev name_at : List Bytes → ℕ → Bytes
name_at names i = get_or names i []

fresh-get_or :
    (n : Bytes) (ns : List Bytes) (i : ℕ)
    → fresh_all n ns ≡ true
    → i < length ns
    → equal n (name_at ns i) ≡ false
unfolding fresh_all
fresh-get_or n [] i h lt = absurd (omega arith)
fresh-get_or n (m ∷ ns) zero h lt = ground arith
fresh-get_or n (m ∷ ns) (suc i) h lt = fresh-get_or n ns i (ground arith) (omega arith)

-- One pass of the counting loop: the counter of that name alone goes up.
count_fn-get_or :
    (f : Bytes) (ns : List Bytes) (cs : List ℕ) (i : ℕ)
    → distinct ns ≡ true
    → length cs ≡ length ns
    → i < length ns
    → get_or cs i 0 + 1 < 2 ^ 64
    → get_or (count_fn f ns cs) i 0 ≡ get_or cs i 0 + (if equal f (name_at ns i) then 1 else 0)
unfolding count_fn distinct
count_fn-get_or f [] cs i d e lt small = absurd (omega arith)
count_fn-get_or f (n ∷ ns) [] i d e lt small = absurd (omega arith)
count_fn-get_or f (n ∷ ns) (c ∷ cs) zero d e lt small = ground arith
count_fn-get_or f (n ∷ ns) (c ∷ cs) (suc i) d e lt small = elim (Bool-cases (equal f n)) [
  | inl same ↦
      ground (arith, (equal_iff f n).0 same, fresh-get_or n ns i (ground arith) (omega arith))
  | inr other ↦
      ground (arith, count_fn-get_or f ns cs i (ground arith) (omega arith) (omega arith) small)
]

length-count_fn :
    (f : Bytes) (ns : List Bytes) (cs : List ℕ) → length (count_fn f ns cs) ≡ length cs
unfolding count_fn
length-count_fn f [] [] = refl
length-count_fn f [] (c ∷ cs) = refl
length-count_fn f (n ∷ ns) [] = refl
length-count_fn f (n ∷ ns) (c ∷ cs) = ground (arith, length-count_fn f ns cs)

if-le-one : (b : Bool) → (if b then 1 else 0) ≤ 1
if-le-one true = omega arith
if-le-one false = omega arith

-- Behind any hooks, each of the 48 counters has gone up by exactly the entries of its function, and
-- no return counts, as long as it stays below 2^64.
pub run-count :
    (hs : List Hook) (t : Trace) (i : ℕ)
    → i < 48
    → length t.counts ≡ 48
    → interesting_fn_count t i + length hs < 2 ^ 64
    → interesting_fn_count (run hs t) i
      ≡ interesting_fn_count t i + entries (name_at interesting_fns i) hs
unfolding run entries interesting_fn_count
run-count [] t i lt full small = omega arith
run-count (entry f ∷ hs) t i lt full small =
    let once : get_or (count_fn f interesting_fns t.counts) i 0
        ≡ get_or t.counts i 0 + (if equal f (name_at interesting_fns i) then 1 else 0) =
      count_fn-get_or f interesting_fns t.counts i interesting_fns-distinct full lt (omega arith) in
    let seen : (if equal f (name_at interesting_fns i) then 1 else 0) ≤ 1 = if-le-one _ in
    omega (
      arith,
      once,
      run-count hs (trace_entry f t) i lt (length-count_fn f interesting_fns t.counts ∙ full)
          (omega (arith, once, seen)),
    )
run-count (exit f ∷ hs) t i lt full small = run-count hs (trace_return f t) i lt full (omega arith)
