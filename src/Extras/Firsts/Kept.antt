-- ===== src/Extras/Firsts/Kept.antt =====
-- The logs keep the first calls, in order.
use pokemon_stadium_recomp.Prelude.{
  ℕ, zero, suc, ◌+◌, ◌<◌, ◌≤◌, ◌≡◌, refl, sym, ap, ◌∙◌, arith, min, List, [], ◌∷◌, ◌++◌, false, ltb,
  leb, length, take, drop, lt→ltb, take-min, get_or, length-append, length-set, length-replicate,
  get_or-set_self, get_or-set_ne, get_or-append_left, get_or-append_end, Bool-cases, inl, inr,
}
use mathlib.Core.List.{append-nil, append_assoc}
use native.Mathlib.Decide.{ℕ_discrete}
use pokemon_stadium_recomp.Extras.Firsts.{
  First, none_yet, add, ResolverEntry, no_entry, resolver_log_cap, log_resolver, entries_from,
  logged_entries, resolver_log_get, resolver_log_total,
}

module _ {ℓ} {A : Type ℓ} (cap : ℕ) (d : A) where
  -- `log` is every call so far.
  pub record Keeps (log : List A) (s : First A) : Type ℓ where
    pub full : length s.entries ≡ cap
    pub counted : s.n ≡ length log
    pub kept : (i : ℕ) → i < length log → i < cap → get_or s.entries i d ≡ get_or log i d

  none_yet-Keeps : Keeps [] (none_yet cap d)
  unfolding none_yet
  none_yet-Keeps = record {
    full = length-replicate cap d;
    counted = refl;
    kept = λ i below. absurd (omega arith);
  }

  add-Keeps :
      {log : List A} {s : First A} (x : A) → Keeps log s → Keeps (log ++ x ∷ []) (add cap x s)
  unfolding add
  add-Keeps {log} {s} x v = record {
    full = ground (arith, length-set s.entries s.n x, v.full);
    counted = omega (arith, length-append log (x ∷ []), v.counted);
    kept = λ i below low. elim (ℕ_discrete i (length log)) [
      | yes e ↦ last i e low ∙ sym (get_or-append_end log x i d e)
      | no ne ↦
          early i (omega (arith, length-append log (x ∷ []))) low
          ∙ sym (get_or-append_left log (x ∷ []) i d (omega (arith, length-append log (x ∷ []))))
    ];
  }
    where
      last : (i : ℕ) → i ≡ length log → i < cap → get_or (add cap x s).entries i d ≡ x
      last i e low =
          rw (v.counted, ← e, lt→ltb i cap low)
            (get_or-set_self s.entries i x d (omega (arith, v.full)))

      early : (i : ℕ) → i < length log → i < cap → get_or (add cap x s).entries i d ≡ get_or log i d
      early i below low = elim (Bool-cases (ltb s.n cap)) [
        | inl room ↦ rw room (
            get_or-set_ne s.entries s.n i x d (λ e. omega (arith, v.counted, e, below))
            ∙ v.kept i below low)
        | inr over ↦ rw over (v.kept i below low)
      ]

-- The calls of the resolver, in order.
unfoldable pub log_all : List ResolverEntry → First ResolverEntry → First ResolverEntry
unfolding log_resolver
log_all [] s = s
log_all (e ∷ es) s = log_all es (log_resolver e.arr e.base e.count s)

log_all-Keeps :
    (es : List ResolverEntry) (log : List ResolverEntry) (s : First ResolverEntry)
    → Keeps resolver_log_cap no_entry log s
    → Keeps resolver_log_cap no_entry (log ++ es) (log_all es s)
unfolding log_all
log_all-Keeps [] log s v = rw (append-nil log) v
log_all-Keeps (e ∷ es) log s v =
    rw (← append_assoc log (e ∷ []) es)
      (log_all-Keeps es (log ++ e ∷ []) _ (add-Keeps resolver_log_cap no_entry e v))

take-cons :
    {A : Type 0} (xs : List A) (i n : ℕ) (d : A)
    → i < length xs
    → take (suc n) (drop i xs) ≡ get_or xs i d ∷ take n (drop (i + 1) xs)
take-cons [] i n d h = absurd (omega arith)
take-cons (x ∷ xs) zero n d h = refl
take-cons (x ∷ xs) (suc i) n d h =
    take-cons xs i n d (omega arith) ∙ ap (λ k. get_or xs i d ∷ take n (drop k (x ∷ xs))) shift
  where
    shift : suc (i + 1) ≡ suc i + 1
    shift = omega arith

entries_from-eq-take :
    (log : List ResolverEntry) (s : First ResolverEntry) (n i : ℕ)
    → Keeps resolver_log_cap no_entry log s
    → i + n ≤ length log
    → i + n ≤ resolver_log_cap
    → entries_from s i n ≡ take n (drop i log)
unfolding entries_from resolver_log_get
entries_from-eq-take log s zero i v h k = refl
entries_from-eq-take log s (suc n) i v h k =
    rw (low, v.kept i (omega arith) (omega arith), take-cons log i n no_entry (omega arith))
      (ap (λ es. get_or log i no_entry ∷ es)
        (entries_from-eq-take log s n (i + 1) v (omega arith) (omega arith)))
  where
    low : leb resolver_log_cap i ≡ false
    low = ground arith

total-eq-min : (s : First ResolverEntry) (k : ℕ) → s.n ≡ k → resolver_log_total s ≡ min 64 k
unfolding resolver_log_total
total-eq-min s k e = ground (arith, e)

-- After any calls from the start of the process, the log reports the first 64 of them, in order.
logged_entries-eq-take :
    (es : List ResolverEntry)
    → logged_entries (log_all es (none_yet resolver_log_cap no_entry)) ≡ take 64 es
unfolding logged_entries
logged_entries-eq-take es =
    let s : First ResolverEntry = log_all es (none_yet resolver_log_cap no_entry) in
    let v = log_all-Keeps es [] _ (none_yet-Keeps resolver_log_cap no_entry) in
    let n : resolver_log_total s ≡ min 64 (length es) = total-eq-min s (length es) v.counted in
    ap (entries_from s 0) n
    ∙ entries_from-eq-take es s (min 64 (length es)) 0 v (omega arith) (omega arith)
    ∙ take-min 64 es
