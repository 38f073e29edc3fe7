-- ===== src/Prelude/Text.antt =====
-- Text as lists of bytes: equality, search, slices, and `snprintf`'s bound.
pub mod Find
use Prim.Native.Char.{code}
use Prim.Native.String.{String}
use Prim.Native.Nat.{ℕ, zero, suc, ◌+◌, ◌-◌}
use mathlib.Core.Path.{◌≡◌, refl, ap, ap₂}
use mathlib.Core.Logic.{◌↔◌}
use mathlib.Core.Bool.{Bool, true, false, ◌&&◌}
use mathlib.Core.List.{List, [], ◌∷◌, ◌++◌}
use mathlib.Core.Option.{Option, none, some}
use native.Mathlib.Omega.{arith}
use pokemon_stadium_recomp.Prelude.Tests.{◌==◌, if◌then◌else◌, Bool-cases, ==_iff}
use pokemon_stadium_recomp.Prelude.Lists.{take, drop, length}

abbrev pub Bytes : Type 0
Bytes = List ℕ

-- The code points of a literal: its bytes, where it is ASCII.
abbrev pub codes : String → Bytes
codes String.[] = []
codes (String.◌∷◌ c s) = code c ∷ codes s

-- `a == b` on strings.
unfoldable pub equal : Bytes → Bytes → Bool
equal [] [] = true
equal [] (b ∷ bs) = false
equal (a ∷ as_) [] = false
equal (a ∷ as_) (b ∷ bs) = a == b && equal as_ bs

unfoldable pub starts_with : Bytes → Bytes → Bool
starts_with [] s = true
starts_with (x ∷ xs) [] = false
starts_with (x ∷ xs) (y ∷ ys) = x == y && starts_with xs ys

-- `s.find(needle)`; `none` is `npos`.
unfoldable pub find : Bytes → Bytes → Option ℕ
unfolding starts_with
find needle [] = elim needle [ [] ↦ some 0 | _ ↦ none ]
find needle (y ∷ ys) = elim (starts_with needle (y ∷ ys)) [
  | true ↦ some 0
  | false ↦ elim (find needle ys) [ none ↦ none | some i ↦ some (suc i) ]
]

-- `s.find(needle, pos)`
unfoldable pub find_from : Bytes → Bytes → ℕ → Option ℕ
unfolding find
find_from needle s pos = elim (find needle (drop pos s)) [ none ↦ none | some i ↦ some (pos + i) ]

-- `s.substr(i, n)`
abbrev pub substr : Bytes → ℕ → ℕ → Bytes
substr s i n = take n (drop i s)

-- `snprintf` into `size` bytes keeps `size - 1` and the terminator.
abbrev pub snprintf : ℕ → Bytes → Bytes
snprintf size s = take (size - 1) s

pub equal_iff : (a b : Bytes) → (equal a b ≡ true) ↔ (a ≡ b)
unfolding equal
equal_iff [] [] = (λ _. refl, λ _. refl)
equal_iff [] (y ∷ ys) = (λ h. cc, λ h. cc)
equal_iff (x ∷ xs) [] = (λ h. cc, λ h. cc)
equal_iff (x ∷ xs) (y ∷ ys) =
    (λ h. ground (arith, equal_iff xs ys), λ h. ground (arith, equal_iff xs ys))
