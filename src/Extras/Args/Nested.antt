-- ===== src/Extras/Args/Nested.antt =====
-- What the exit hooks find: an unbounded stack of calls is the reference.
use pokemon_stadium_recomp.Prelude.{
  ℕ, zero, suc, ◌+◌, ◌<◌, ◌≤◌, ◌≡◌, refl, arith, List, [], ◌∷◌, Option, none, some, get_or, set,
  length, ltb, if◌then◌else◌, length-set, length-replicate, get_or-set_self, get_or-set_ne,
  Bool-cases, inl, inr, ap, ltb→lt,
}
use pokemon_stadium_recomp.Prelude.Int.{pos}
use pokemon_stadium_recomp.Extras.Args.{
  Saved, empty, save_at, save, slot, restore, or_first, restore_or_first,
}

module _ {ℓ} {A : Type ℓ} (cap : ℕ) (d : A) where
  -- `calls` are the open calls, the innermost first: the `i`-th from the outside has slot `i`.
  pub record Tracks (calls : List A) (s : Saved A) : Type ℓ where
    pub full : length s.slots ≡ cap
    pub depth : s.sp ≡ pos (length calls)
    pub kept :
        (n i : ℕ) → n + i + 1 ≡ length calls → i < cap → get_or s.slots i d ≡ get_or calls n d

  pub empty-Tracks : Tracks [] (empty cap d)
  unfolding empty
  empty-Tracks = record {
    full = length-replicate cap d;
    depth = refl;
    kept = λ n i e. absurd (omega arith);
  }

  pub saved : A → List A → Saved A → Saved A
  saved x calls s = record {
    slots = if ltb (length calls) cap then set s.slots (length calls) x else s.slots;
    sp = pos (length calls + 1);
  }

  pub save-eq-saved :
      {calls : List A} {s : Saved A} (x : A)
      → Tracks calls s
      → save cap d x s ≡ some (saved x calls s)
  unfolding save save_at saved
  save-eq-saved x v = rw v.depth refl

  kept-set :
      {calls : List A} {s : Saved A} (x : A)
      → length calls < cap
      → Tracks calls s
      → (n i : ℕ) → n + i ≡ length calls
      → i < cap
      → get_or (set s.slots (length calls) x) i d ≡ get_or (x ∷ calls) n d
  kept-set {calls} {s} x low v zero i e h =
      let same : i ≡ length calls = omega arith in
      rw same (get_or-set_self s.slots (length calls) x d (omega (arith, v.full)))
  kept-set {calls} {s} x low v (suc n) i e h =
      rw (get_or-set_ne s.slots (length calls) i x d (λ k. omega arith))
        (v.kept n i (omega arith) h)

  kept-high :
      {calls : List A} {s : Saved A} (x : A)
      → cap ≤ length calls
      → Tracks calls s
      → (n i : ℕ) → n + i ≡ length calls
      → i < cap
      → get_or s.slots i d ≡ get_or (x ∷ calls) n d
  kept-high x high v zero i e h = absurd (omega arith)
  kept-high x high v (suc n) i e h = v.kept n i (omega arith) h

  pub saved-Tracks :
      {calls : List A} {s : Saved A} (x : A) → Tracks calls s → Tracks (x ∷ calls) (saved x calls s)
  unfolding saved
  saved-Tracks {calls} {s} x v = elim (Bool-cases (ltb (length calls) cap)) [
    | inl low ↦ rw low record {
      full = omega (arith, length-set s.slots (length calls) x, v.full);
      depth = ap pos (omega arith);
      kept = λ n i e. kept-set x (ltb→lt _ _ low) v n i (omega arith);
    }
    | inr high ↦ rw high record {
      full = v.full;
      depth = ap pos (omega arith);
      kept = λ n i e. kept-high x (ground (arith, high)) v n i (omega arith);
    }
  ]

  -- The argument that an exit finds at this depth of open calls around its own.
  unfoldable pub found : A → List A → Option A
  found a calls = if ltb (length calls) cap then some a else none

  pub popped : List A → Saved A → Saved A
  popped calls s = record s { sp = pos (length calls) }

  pub popped-Tracks :
      {calls : List A} {s : Saved A} (a : A) → Tracks (a ∷ calls) s → Tracks calls (popped calls s)
  unfolding popped
  popped-Tracks a v = record {
    full = v.full;
    depth = refl;
    kept = λ n i e h. v.kept (suc n) i (omega arith) h;
  }

  slot-eq-found :
      {calls : List A} {s : Saved A} (a : A)
      → Tracks (a ∷ calls) s
      → slot cap d s.slots (pos (length calls)) ≡ found a calls
  unfolding slot found
  slot-eq-found {calls} {s} a v = elim (Bool-cases (ltb (length calls) cap)) [
    | inl low ↦ rw low (ap some (v.kept 0 (length calls) (omega arith) (ltb→lt _ _ low)))
    | inr high ↦ rw high refl
  ]

  pub restore-eq-found :
      {calls : List A} {s : Saved A} (a : A)
      → Tracks (a ∷ calls) s
      → restore cap d s ≡ (found a calls, popped calls s)
  unfolding restore popped
  restore-eq-found {calls} {s} a v = rw (v.depth, slot-eq-found a v) refl

  -- The outermost of the open calls.
  unfoldable pub outermost : A → List A → A
  outermost a [] = a
  outermost a (b ∷ calls) = outermost b calls

  get_or-outermost :
      (a : A) (calls : List A) → get_or (a ∷ calls) (length calls) d ≡ outermost a calls
  unfolding outermost
  get_or-outermost a [] = refl
  get_or-outermost a (b ∷ calls) = get_or-outermost b calls

  -- Beyond the capacity it is the outermost call's argument that is found.
  unfoldable pub found_or_outermost : A → List A → A
  found_or_outermost a calls = if ltb (length calls) cap then a else outermost a calls

  pub restore_or_first-eq-found :
      {calls : List A} {s : Saved A} (a : A)
      → 0 < cap
      → Tracks (a ∷ calls) s
      → restore_or_first cap d s ≡ (found_or_outermost a calls, popped calls s)
  unfolding restore_or_first popped or_first found found_or_outermost
  restore_or_first-eq-found {calls} {s} a room v = elim (Bool-cases (ltb (length calls) cap)) [
    | inl low ↦ rw (v.depth, slot-eq-found a v, low) refl
    | inr high ↦
        rw (v.depth, slot-eq-found a v, high, v.kept (length calls) 0 (omega arith) room)
          (rw (get_or-outermost a calls) refl)
  ]
