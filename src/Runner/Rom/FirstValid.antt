-- ===== src/Runner/Rom/FirstValid.antt =====
-- The ROM that the start-up loop ends with, told without the loop.
use pokemon_stadium_recomp.Prelude.{
  ◌≡◌, refl, ap, ◌∙◌, Bool, true, false, ◌&&◌, not, List, [], ◌∷◌, Option, none, some,
  if◌then◌else◌, Bool-cases, inl, inr,
}
use pokemon_stadium_recomp.Prelude.Text.{Bytes}
use pokemon_stadium_recomp.Runner.Rom.{
  System, err_name, is_good, cancelled, from_cli, or_saved, or_legacy, is_empty, read_rom_cfg,
  is_candidate, attempt, round, choose, choose_rom, Choice,
}

-- The first path that exists and validates.
unfoldable pub first_valid : System → List Bytes → Option Bytes
unfolding is_good
first_valid s [] = none
first_valid s (p ∷ ps) =
    if is_candidate s p && is_good (s.select_rom p) then some p else first_valid s ps

-- The paths before it that exist, each with what is wrong with it.
unfoldable pub complaints : System → List Bytes → List (Bytes × Bytes)
unfolding is_good
complaints s [] = []
complaints s (p ∷ ps) =
    if is_candidate s p
    then if is_good (s.select_rom p) then [] else (p, err_name (s.select_rom p)) ∷ complaints s ps
    else complaints s ps

unfoldable pub first_of : List (Bool × Bytes) → Bytes
first_of [] = []
first_of ((usable, p) ∷ ps) = if usable then p else first_of ps

-- The candidate before the first question: the argument, the saved path if it exists, baserom.z64
-- beside the runner and above it.
unfoldable pub first_candidate : System → Option Bytes → Bytes
unfolding first_of
first_candidate s arg = first_of (
    (not (is_empty (from_cli arg).0), (from_cli arg).0)
    ∷ (is_candidate s (read_rom_cfg s), read_rom_cfg s)
    ∷ (s.exists s.beside, s.beside)
    ∷ (s.exists s.above, s.above)
    ∷ [])

unfoldable pub expected : System → Bool → List Bytes → Choice
unfolding first_valid complaints
expected s cli ps = record {
  rom = first_valid s ps;
  saved = if cli then none else first_valid s ps;
  told = complaints s ps;
}

nothing : (s : System) (cli : Bool) → cancelled ≡ expected s cli []
unfolding expected first_valid complaints
nothing s true = refl
nothing s false = refl

round-eq-expected :
    (s : System) (cli : Bool) (p : Bytes) (ps : List Bytes)
    → round s cli p (expected s cli ps) ≡ expected s cli (p ∷ ps)
unfolding round attempt expected first_valid complaints
round-eq-expected s cli p ps = elim (Bool-cases (is_candidate s p)) [
  | inl here ↦ elim (Bool-cases (is_good (s.select_rom p))) [
    | inl g ↦ rw (here, g) refl
    | inr b ↦ rw (here, b) refl
  ]
  | inr gone ↦ rw gone refl
]

choose-eq-expected :
    (s : System) (cli : Bool) (p : Bytes) (ps : List Bytes)
    → choose s cli p ps ≡ expected s cli (p ∷ ps)
unfolding choose
choose-eq-expected s cli p [] = ap (round s cli p) (nothing s cli) ∙ round-eq-expected s cli p []
choose-eq-expected s cli p (q ∷ qs) =
    ap (round s cli p) (choose-eq-expected s cli q qs) ∙ round-eq-expected s cli p (q ∷ qs)

legacy-eq-first_of :
    (s : System)
    → or_legacy s [] ≡ first_of ((s.exists s.beside, s.beside) ∷ (s.exists s.above, s.above) ∷ [])
unfolding or_legacy is_empty first_of
legacy-eq-first_of s = elim (Bool-cases (s.exists s.beside)) [
  | inl there ↦ rw (there, there) refl
  | inr gone ↦ rw gone refl
]

kept-eq-first_of :
    (s : System) (p cfg : Bytes)
    → or_legacy s (if is_empty p then (if is_candidate s cfg then cfg else p) else p)
      ≡ first_of (
          (not (is_empty p), p)
          ∷ (is_candidate s cfg, cfg)
          ∷ (s.exists s.beside, s.beside)
          ∷ (s.exists s.above, s.above)
          ∷ [])
unfolding first_of is_empty is_candidate or_legacy
kept-eq-first_of s (c ∷ cs) cfg = refl
kept-eq-first_of s [] [] = legacy-eq-first_of s
kept-eq-first_of s [] (d ∷ ds) = elim (Bool-cases (s.exists (d ∷ ds))) [
  | inl there ↦ rw there refl
  | inr gone ↦ rw gone (legacy-eq-first_of s)
]

-- The loop ends, with the first ROM that exists and validates among the first candidate and the picks,
-- or with none where there is none of these. The user is told of each earlier path that exists, with
-- its error. The ROM goes to rom.cfg unless the command line named a path, even if that path failed
-- and the ROM is one that was picked.
pub choose_rom-eq-expected :
    (s : System) (arg : Option Bytes) (picks : List Bytes)
    → choose_rom s arg picks ≡ expected s (from_cli arg).1 (first_candidate s arg ∷ picks)
unfolding choose_rom first_candidate or_saved is_candidate
choose_rom-eq-expected s arg picks =
    choose-eq-expected s (from_cli arg).1 _ picks
    ∙ ap (λ p. expected s (from_cli arg).1 (p ∷ picks))
        (kept-eq-first_of s (from_cli arg).0 (read_rom_cfg s))
