-- ===== src/Ring/Window.antt =====
-- A ring holds the last `cap` events of the history of everything that was pushed.
use mathlib.Core.List.{append-nil, append_assoc}
use native.Mathlib.Decide.{ℕ_discrete}
use pokemon_stadium_recomp.Prelude.{
  ℕ, zero, suc, ◌+◌, ◌%◌, ◌^◌, ◌≤◌, ◌<◌, ◌≡◌, ◌≢◌, refl, sym, ap, ◌∙◌, arith, List, [], ◌∷◌, ◌++◌,
  length, get_or, set, replicate, drop, length-append, length-set, length-replicate,
  get_or-set_self, get_or-set_ne, get_or-append_left, get_or-append_end,
}
use pokemon_stadium_recomp.Ring.{Ring, push, at}

-- The slots of two sequence numbers less than `cap` apart differ.
mod_apart : (cap i n : ℕ) → i < n → n < i + cap → n % cap ≢ i % cap
mod_apart cap i n h k e = grind arith

drop-all {ℓ} : {A : Type ℓ} (xs : List A) (i : ℕ) → length xs ≤ i → drop i xs ≡ []
drop-all [] zero h = refl
drop-all [] (suc i) h = refl
drop-all (x ∷ xs) zero h = absurd (omega arith)
drop-all (x ∷ xs) (suc i) h = drop-all xs i (omega arith)

module _ {ℓ} {A : Type ℓ} (cap : ℕ) (d : A) where
  -- `log` is the history: `at i` is its `i`-th event, for each of the last `cap`.
  pub record Holds (log : List A) (r : Ring A) : Type ℓ where
    pub full : length r.slots ≡ cap
    pub counted : r.seq ≡ length log
    pub kept : (i : ℕ) → i < length log → length log ≤ i + cap → at cap d r i ≡ get_or log i d

  pub push-Holds :
      {log : List A} {r : Ring A} (x : A)
      → 0 < cap
      → length log + 1 < 2 ^ 64
      → Holds log r
      → Holds (log ++ x ∷ []) (push cap x r)
  unfolding push at
  push-Holds {log} {r} x pos small v = record {
    full = omega (arith, length-set r.slots (r.seq % cap) x, v.full);
    counted = omega (arith, length-append log (x ∷ []), v.counted);
    kept = λ i below recent. elim (ℕ_discrete i (length log)) [
      | yes e ↦ get_or-set_slot e ∙ sym (get_or-append_end log x i d e)
      | no ne ↦
          rest i (omega (arith, length-append log (x ∷ [])))
            (omega (arith, length-append log (x ∷ [])))
    ];
  }
    where
      slot : (r.seq % cap) ≡ length log % cap
      slot = ap (λ k. k % cap) v.counted

      get_or-set_slot :
          {i : ℕ} → i ≡ length log → get_or (set r.slots (r.seq % cap) x) (i % cap) d ≡ x
      get_or-set_slot {i} e =
          rw (e, slot) (get_or-set_self r.slots (length log % cap) x d (omega (arith, v.full)))

      rest :
          (i : ℕ)
          → i < length log
          → length log < i + cap
          → get_or (set r.slots (r.seq % cap) x) (i % cap) d ≡ get_or (log ++ x ∷ []) i d
      rest i below near =
          rw
            (
              slot,
              get_or-set_ne r.slots (length log % cap) (i % cap) x d
                  (mod_apart cap i (length log) below near),
              get_or-append_left log (x ∷ []) i d below,
            )
            (v.kept i below (omega arith))

  -- A static array is zeroed before the first push.
  pub init-Holds : Holds [] (record { slots = replicate cap d; seq = 0 })
  init-Holds = record {
    full = length-replicate cap d;
    counted = refl;
    kept = λ i below. absurd (omega arith);
  }

  unfoldable pub push_all : List A → Ring A → Ring A
  push_all [] r = r
  push_all (x ∷ xs) r = push_all xs (push cap x r)

  pub push_all-Holds :
      (xs : List A) {log : List A} {r : Ring A}
      → 0 < cap
      → length log + length xs < 2 ^ 64
      → Holds log r
      → Holds (log ++ xs) (push_all xs r)
  unfolding push_all
  push_all-Holds [] {log} pos small v = rw (append-nil log) v
  push_all-Holds (x ∷ xs) {log} {r} pos small v = rw (← append_assoc log (x ∷ []) xs) (
      push_all-Holds xs pos (omega (arith, length-append log (x ∷ [])))
        (push-Holds x pos (omega arith) v))

  -- `n` reads from sequence number `off` on, in order.
  unfoldable pub read_from : Ring A → ℕ → ℕ → List A
  read_from r zero off = []
  read_from r (suc n) off = at cap d r off ∷ read_from r n (off + 1)

  drop-cons : (xs : List A) (i : ℕ) → i < length xs → drop i xs ≡ get_or xs i d ∷ drop (i + 1) xs
  drop-cons [] i h = absurd (omega arith)
  drop-cons (x ∷ xs) zero h = refl
  drop-cons (x ∷ xs) (suc i) h = rw (drop-cons xs i (omega arith)) (rw shift refl)
    where
      next : suc i + 1 ≡ suc (i + 1)
      next = omega arith

      shift : drop (suc i + 1) (x ∷ xs) ≡ drop (i + 1) xs
      shift = ap (λ k. drop k (x ∷ xs)) next

  -- Reading up to the newest event gives the end of the history.
  pub read_from-eq-drop :
      {log : List A} {r : Ring A} (n off : ℕ)
      → Holds log r
      → off + n ≡ length log
      → n ≤ cap
      → read_from r n off ≡ drop off log
  unfolding read_from
  read_from-eq-drop {log} zero off v e small = sym (drop-all log off (omega arith))
  read_from-eq-drop {log} (suc n) off v e small =
      rw (drop-cons log off (omega arith), v.kept off (omega arith) (omega arith))
        (ap (λ xs. get_or log off d ∷ xs)
          (read_from-eq-drop n (off + 1) v (omega arith) (omega arith)))
