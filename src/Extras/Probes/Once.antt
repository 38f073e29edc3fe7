-- ===== src/Extras/Probes/Once.antt =====
-- Each literal of the bucket is probed once, in the order of first sight.
use pokemon_stadium_recomp.Prelude.{
  ℕ, zero, suc, ◌-◌, ◌<◌, take, ◌≤◌, ◌≡◌, ◌⊎◌, inl, inr, refl, sym, ap, ◌∙◌, arith, List, [], ◌∷◌,
  ◌++◌, map, true, false, ◌||◌, ◌==◌, length, length-append, get_or, Bool-cases,
}
use mathlib.Core.List.{append-nil, append_assoc}
use pokemon_stadium_recomp.Extras.Probes.{
  seen, is_new, remember, in_pattern_bucket, Census, census_of, probe,
}
use pokemon_stadium_recomp.Extras.Probes.First.{
  firsts, firsts_new, one_less, take-skipped, take-nil,
}

seen-append : (x : ℕ) (ks ls : List ℕ) → seen x (ks ++ ls) ≡ seen x ks || seen x ls
unfolding seen
seen-append x [] ls = refl
seen-append x (k ∷ ks) ls = elim (Bool-cases (k == x)) [
  | inl same ↦ rw same refl
  | inr other ↦ rw other (seen-append x ks ls)
]

abbrev pub IsDistinct : List ℕ → Type 0
IsDistinct [] = Unit
IsDistinct (k ∷ ks) = (seen k ks ≡ false) × IsDistinct ks

seen-none :
    (x k : ℕ) (ks : List ℕ) → seen x (k ∷ ks) ≡ false → ((x == k) ≡ false) × (seen x ks ≡ false)
unfolding seen
seen-none x k ks h = ground (arith, h)

IsDistinct-snoc :
    (ks : List ℕ) (x : ℕ) → IsDistinct ks → seen x ks ≡ false → IsDistinct (ks ++ x ∷ [])
unfolding seen
IsDistinct-snoc [] x d h = (refl, tt)
IsDistinct-snoc (k ∷ ks) x d h =
    let (apart, rest) = seen-none x k ks h in
    (rw (seen-append k ks (x ∷ []), d.0, apart) refl, IsDistinct-snoc ks x d.1 rest)

-- A run of one of the hooks that probe, with `s_probed` on from `keys`.
unfoldable pub probe_all : ℕ → List ℕ → List ℕ → List Census × List ℕ
unfolding probe
probe_all cap [] keys = ([], keys)
probe_all cap (x ∷ xs) keys = (
  (probe cap x keys).0 ++ (probe_all cap xs (probe cap x keys).1).0,
  (probe_all cap xs (probe cap x keys).1).1,
)

-- What a run from `keys` on has done: the censuses are those of the keys added, no key is there
-- twice, the array does not overflow, a literal of the bucket is left out only when it is full, and the
-- keys added are the first new literals of the bucket, in order, as many as the array has room for.
pub record IsOnce (cap : ℕ) (xs keys : List ℕ) (out : List Census × List ℕ) : Type 0 where
  pub added : List ℕ
  pub extended : out.1 ≡ keys ++ added
  pub in_order : added ≡ take (cap - length keys) (firsts xs keys)
  pub censuses : out.0 ≡ map census_of added
  pub distinct : IsDistinct out.1
  pub bounded : length out.1 ≤ cap
  pub complete :
      (i : ℕ)
      → i < length xs
      → in_pattern_bucket (get_or xs i 0) ≡ true
      → (seen (get_or xs i 0) out.1 ≡ true) ⊎ (length out.1 ≡ cap)

seen-extended : (x : ℕ) (ks ls : List ℕ) → seen x ks ≡ true → seen x (ks ++ ls) ≡ true
seen-extended x ks ls h = rw (seen-append x ks ls, h) refl

seen-snoc : (x : ℕ) (ks : List ℕ) → seen x (ks ++ x ∷ []) ≡ true
unfolding seen
seen-snoc x ks = rw (seen-append x ks (x ∷ [])) (ground arith)

-- A literal of the bucket is among the keys, or the array is full.
abbrev Settled : ℕ → List ℕ → ℕ → Type 0
Settled cap keys x = (seen x keys ≡ true) ⊎ (length keys ≡ cap)

Settled-cons :
    (cap : ℕ) (keys : List ℕ) (x : ℕ) (xs : List ℕ)
    → (in_pattern_bucket x ≡ true → Settled cap keys x)
    → ((i : ℕ)
        → i < length xs
        → in_pattern_bucket (get_or xs i 0) ≡ true
        → Settled cap keys (get_or xs i 0))
    → (i : ℕ) → i < length (x ∷ xs)
    → in_pattern_bucket (get_or (x ∷ xs) i 0) ≡ true
    → Settled cap keys (get_or (x ∷ xs) i 0)
Settled-cons cap keys x xs first rest zero h b = first b
Settled-cons cap keys x xs first rest (suc i) h b = rest i (omega arith) b

-- One literal that is taken.
taken :
    (cap x : ℕ) (xs keys : List ℕ) (out : List Census × List ℕ)
    → in_pattern_bucket x ≡ true
    → is_new cap x keys ≡ true
    → IsOnce cap xs (keys ++ x ∷ []) out
    → IsOnce cap (x ∷ xs) keys (census_of x ∷ out.0, out.1)
taken cap x xs keys out inside new v = record {
  added = x ∷ v.added;
  in_order =
      rw (firsts_new cap x xs keys inside new, one_less cap x keys new)
        (ap (λ l. x ∷ l) v.in_order);
  extended = v.extended ∙ append_assoc keys (x ∷ []) v.added;
  censuses = ap (λ cs. census_of x ∷ cs) v.censuses;
  distinct = v.distinct;
  bounded = v.bounded;
  complete =
      Settled-cons cap out.1 x xs
        (λ b. inl (rw v.extended (seen-extended x (keys ++ x ∷ []) v.added (seen-snoc x keys))))
        v.complete;
}

-- In the bucket, but not new.
not_new :
    (cap x : ℕ) (keys added : List ℕ)
    → is_new cap x keys ≡ false
    → length (keys ++ added) ≤ cap
    → Settled cap (keys ++ added) x
not_new cap x keys added h bounded = elim (Bool-cases (seen x keys)) [
  | inl there ↦ inl (seen-extended x keys added there)
  | inr absent ↦ inr (ground (arith, h, absent, length-append keys added))
]

-- One that is not: it lies outside of the bucket, is there already, or the array is full.
left_out :
    (cap x : ℕ) (xs keys : List ℕ) (out : List Census × List ℕ)
    → (in_pattern_bucket x ≡ true → is_new cap x keys ≡ false)
    → IsOnce cap xs keys out
    → IsOnce cap (x ∷ xs) keys out
left_out cap x xs keys out h v = record {
  added = v.added;
  in_order = v.in_order ∙ take-skipped cap x xs keys h;
  extended = v.extended;
  censuses = v.censuses;
  distinct = v.distinct;
  bounded = v.bounded;
  complete =
      Settled-cons cap out.1 x xs
        (λ b.
          rw v.extended
            (not_new cap x keys v.added (h b) (omega (arith, v.bounded, ap length v.extended))))
        v.complete;
}

-- From an array of distinct keys that fits, a run of literals takes exactly the first sights of the
-- literals from 0x8FF00000 to 0x8FFFFFFF that are not yet there, in order and each once, as many as
-- the array has room for, and makes one census for each that it takes.
pub probe_all-IsOnce :
    (cap : ℕ) (xs keys : List ℕ)
    → IsDistinct keys
    → length keys ≤ cap
    → IsOnce cap xs keys (probe_all cap xs keys)
unfolding probe_all probe remember firsts
probe_all-IsOnce cap [] keys d b = record {
  added = [];
  in_order = sym (take-nil (cap - length keys));
  extended = sym (append-nil keys);
  censuses = refl;
  distinct = d;
  bounded = b;
  complete = λ i h. absurd (omega arith);
}
probe_all-IsOnce cap (x ∷ xs) keys d b = elim (Bool-cases (in_pattern_bucket x)) [
  | inr outside ↦
      rw outside (left_out cap x xs keys _ (λ e. absurd (cc)) (probe_all-IsOnce cap xs keys d b))
  | inl inside ↦ elim (Bool-cases (is_new cap x keys)) [
    | inl new ↦
        rw (inside, new)
          (taken cap x xs keys _ inside new (
            probe_all-IsOnce cap xs (keys ++ x ∷ [])
              (IsDistinct-snoc keys x d (ground (arith, new)))
              (ground (arith, new, length-append keys (x ∷ [])))))
    | inr old ↦
        rw (inside, old) (left_out cap x xs keys _ (λ e. old) (probe_all-IsOnce cap xs keys d b))
  ]
]
