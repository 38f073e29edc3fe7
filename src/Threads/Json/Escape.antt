-- ===== src/Threads/Json/Escape.antt =====
-- A reader of JSON gets the file's path back.
use pokemon_stadium_recomp.Prelude.{
  ◌≡◌, refl, ap, ◌∙◌, arith, Bool, true, false, [], ◌∷◌, ◌++◌, Option, none, some, ◌==◌, ltb, ◌≤◌,
  if◌then◌else◌, Bool-cases, inl, inr, ℕ,
}
use pokemon_stadium_recomp.Prelude.Text.{Bytes}
use pokemon_stadium_recomp.Threads.Json.{esc_file}

unfoldable pub prepend : ℕ → Option (Bytes × Bytes) → Option (Bytes × Bytes)
prepend c none = none
prepend c (some (text, rest)) = some (c ∷ text, rest)

-- What an escape stands for, but for `\u`, which this reader does not take.
unfoldable pub unescape : ℕ → Option ℕ
unescape c =
    if c == b'"'
    then some b'"'
    else if c == 0x5C
    then some 0x5C
    else if c == b'/'
    then some b'/'
    else if c == b'b'
    then some 8
    else if c == b'f'
    then some 12
    else if c == b'n'
    then some 10
    else if c == b'r'
    then some 13
    else if c == b't'
    then some 9
    else none

-- A string up to its closing quote, and what follows; `escaped` behind a backslash. As JSON has it,
-- bytes below 0x20 and unknown escapes are refused.
unfoldable pub read_string : Bool → Bytes → Option (Bytes × Bytes)
unfolding prepend unescape
read_string escaped [] = none
read_string true (c ∷ cs) =
    let rest = read_string false cs in elim (unescape c) [ none ↦ none | some d ↦ prepend d rest ]
read_string false (c ∷ cs) =
    let plain = prepend c (read_string false cs) in
    let behind = read_string true cs in
    if ltb c 0x20
    then none
    else if c == 0x22
    then some ([], cs)
    else if c == 0x5C
    then behind
    else plain

-- No control characters, which the paths of Windows never have.
abbrev pub IsPrintable : Bytes → Type 0
IsPrintable [] = Unit
IsPrintable (c ∷ cs) = (0x20 ≤ c) × IsPrintable cs

-- For a path with no byte below 0x20: behind the escaped path and a quote, the reader of JSON strings
-- has the path and stops at that quote.
pub read_string-esc_file :
    (path rest : Bytes)
    → IsPrintable path
    → read_string false (esc_file path ++ 0x22 ∷ rest) ≡ some (path, rest)
unfolding read_string esc_file prepend unescape
read_string-esc_file [] rest v = refl
read_string-esc_file (c ∷ cs) rest v = elim (Bool-cases (c == 0x5C)) [
  | inl e ↦ rw e (
      ap (prepend 0x5C) (read_string-esc_file cs rest v.1)
      ∙ ap (λ b. some (b ∷ cs, rest)) (backslash e))
  | inr e ↦ elim (Bool-cases (c == 0x22)) [
    | inl q ↦
        rw (e, q)
          (ap (prepend 0x22) (read_string-esc_file cs rest v.1)
            ∙ ap (λ b. some (b ∷ cs, rest)) (quote q))
    | inr p ↦
        let f : ltb c 0x20 ≡ false = ground (arith, v.0) in
        rw (e, p, f, p, e) (ap (prepend c) (read_string-esc_file cs rest v.1))
  ]
]
  where
    backslash : (c == 0x5C) ≡ true → 0x5C ≡ c
    backslash e = ground (arith, e)

    quote : (c == 0x22) ≡ true → 0x22 ≡ c
    quote e = ground (arith, e)
