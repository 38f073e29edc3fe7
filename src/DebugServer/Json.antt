-- ===== src/DebugServer/Json.antt =====
-- `get_str`, `get_int`, `get_uint` and `get_bool`: the crude field extraction.
use pokemon_stadium_recomp.Prelude.{
  ℕ, zero, suc, ◌+◌, ◌-◌, Bool, true, false, ◌||◌, [], ◌∷◌, ◌++◌, Option, none, some, drop, ◌==◌,
  if◌then◌else◌,
}
use pokemon_stadium_recomp.Prelude.Int.{ℤ, pos, negsuc}
use pokemon_stadium_recomp.Prelude.Text.{Bytes, codes, starts_with, find, find_from, substr}
use pokemon_stadium_recomp.Libc.Scan.{atoi, strtoul}

-- `"\"" + key + "\""`
abbrev quoted : Bytes → Bytes
quoted key = b'"' ∷ (key ++ b'"' ∷ [])

infixl 5 ◌>>=◌
abbrev pub ◌>>=◌ {ℓ κ} : {A : Type ℓ} {B : Type κ} → Option A → (A → Option B) → Option B
none >>= f = none
some a >>= f = f a

-- The text behind the colon that follows the key.
unfoldable pub value_of : Bytes → Bytes → Option ℕ
unfolding find_from find starts_with
value_of body key = do k ← find (quoted key) body; find_from (b':' ∷ []) body k

unfoldable pub get_str : Bytes → Bytes → Bytes
unfolding value_of
get_str body key = elim fields [ none ↦ [] | some s ↦ s ]
  where
    fields : Option Bytes
    fields = do
      colon ← value_of body key
      qa ← find_from (b'"' ∷ []) body colon
      qb ← find_from (b'"' ∷ []) body (qa + 1)
      some (substr body (qa + 1) (qb - qa - 1))

unfoldable pub get_int : Bytes → Bytes → ℤ → ℤ
unfolding value_of atoi
get_int body key dflt = elim (value_of body key) [
  | none ↦ dflt
  | some colon ↦ atoi (drop (colon + 1) body)
]

-- `while (*p == ' ' || *p == '\t') p++;`
unfoldable pub skip_blanks : Bytes → Bytes
skip_blanks [] = []
skip_blanks (c ∷ s) = if c == b' ' || c == b'\t' then skip_blanks s else c ∷ s

unfoldable pub get_uint : Bytes → Bytes → ℕ → ℕ
unfolding value_of strtoul skip_blanks
get_uint body key dflt = elim (value_of body key) [
  | none ↦ dflt
  | some colon ↦ strtoul (skip_blanks (drop (colon + 1) body))
]

abbrev nonzero : ℤ → Bool
nonzero (pos zero) = false
nonzero (pos (suc n)) = true
nonzero (negsuc n) = true

abbrev bool_value : Bytes → Bool
bool_value p =
    if starts_with (codes "true") p
    then true
    else if starts_with (codes "false") p
    then false
    else nonzero (atoi p)

unfoldable pub get_bool : Bytes → Bytes → Bool → Bool
unfolding value_of atoi skip_blanks starts_with
get_bool body key dflt = elim (value_of body key) [
  | none ↦ dflt
  | some colon ↦ bool_value (skip_blanks (drop (colon + 1) body))
]
