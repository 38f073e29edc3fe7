-- ===== src/Prelude/Text/Find.antt =====
-- Searching for a single byte.
use Prim.Native.Nat.{ℕ, suc, ◌<◌}
use mathlib.Core.Path.{◌≡◌}
use mathlib.Core.Logic.{◌⊎◌, inl, inr}
use mathlib.Core.Bool.{true, false}
use mathlib.Core.List.{[], ◌∷◌, ◌++◌}
use mathlib.Core.Option.{none, some}
use native.Mathlib.Omega.{arith}
use pokemon_stadium_recomp.Prelude.Tests.{◌==◌, Bool-cases, Option-cases}
use pokemon_stadium_recomp.Prelude.Lists.{length}
use pokemon_stadium_recomp.Prelude.Text.{Bytes, find, starts_with}

pub find-none_cons :
    (x c : ℕ) (cs : Bytes)
    → find (x ∷ []) (c ∷ cs) ≡ none
    → ((c == x) ≡ false) × (find (x ∷ []) cs ≡ none)
unfolding find starts_with
find-none_cons x c cs h = ground arith

pub find-some_cons :
    (x c : ℕ) (cs : Bytes) (i : ℕ)
    → find (x ∷ []) (c ∷ cs) ≡ some i
    → (((c == x) ≡ true) × (i ≡ 0))
      ⊎ (((c == x) ≡ false) × ((j : ℕ) × (find (x ∷ []) cs ≡ some j) × (i ≡ suc j)))
unfolding find starts_with
find-some_cons x c cs i h = elim (Bool-cases (c == x)) [
  | inl e ↦ inl (e, ground arith)
  | inr e ↦ elim (Option-cases (find (x ∷ []) cs)) [
    | inl n ↦ ground arith
    | inr (j, s) ↦ inr (e, (j, s, ground arith))
  ]
]

pub find-lt : (x : ℕ) (cs : Bytes) (i : ℕ) → find (x ∷ []) cs ≡ some i → i < length cs
find-lt x [] i h = unfold find in cc
find-lt x (c ∷ cs) i h = elim (find-some_cons x c cs i h) [
  | inl (_, z) ↦ omega arith
  | inr (_, (j, s, e)) ↦ omega (arith, find-lt x cs j s)
]

-- The first `x` behind a text without one.
find-append :
    (x : ℕ) (cs rest : Bytes)
    → find (x ∷ []) cs ≡ none
    → find (x ∷ []) (cs ++ x ∷ rest) ≡ some (length cs)
unfolding find starts_with
find-append x [] rest h = ground arith
find-append x (c ∷ cs) rest h = ground (arith, find-none_cons x c cs h, find-append x cs rest)
