-- ===== src/DebugServer/Render.antt =====
-- The response loops: one `snprintf` for each item, with a comma before all but the first.
use pokemon_stadium_recomp.Prelude.{ℕ, Bool, false, List, [], ◌∷◌, ◌++◌, ltb, if◌then◌else◌}
use pokemon_stadium_recomp.Prelude.Int.{ℤ, pos, pos_part, ltb_ℤ}
use pokemon_stadium_recomp.Prelude.Text.{Bytes, codes, snprintf}

-- `(i ? "," : "")` and the item, in a buffer of `size` bytes.
unfoldable pub items {ℓ} : {A : Type ℓ} → ℕ → (A → Bytes) → Bool → List A → Bytes
items size render first [] = []
items size render first (x ∷ xs) =
    snprintf size ((if first then [] else codes ",") ++ render x) ++ items size render false xs

abbrev pub bool_text : Bool → Bytes
bool_text b = if b then codes "true" else codes "false"

-- `if (n < 1) n = 1; if (n > hi) n = hi;`
unfoldable pub clamp_count : ℕ → ℤ → ℕ
clamp_count hi n = if ltb_ℤ n (pos 1) then 1 else if ltb_ℤ (pos hi) n then hi else pos_part n

-- `if (n > widx) n = widx; if (n > cap) n = cap;`
unfoldable pub available : ℕ → ℕ → ℕ → ℕ
available n widx cap = let m = if ltb widx n then widx else n in if ltb cap m then cap else m
