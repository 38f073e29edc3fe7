-- ===== src/Runner/Rom.antt =====
-- The choice of the ROM at the start of `main`: the candidates in their order, then the loop that
-- validates a candidate and asks for another. Paths are texts, and the empty text is the empty path.
-- What the file system, librecomp's `select_rom` and the user of the file picker answer is a
-- parameter; the picks end where the user cancels, and are empty where there is no picker.
pub mod FirstValid
use pokemon_stadium_recomp.Prelude.{
  ℕ, Bool, true, false, ◌&&◌, not, List, [], ◌∷◌, Option, none, some, ◌==◌, if◌then◌else◌,
}
use pokemon_stadium_recomp.Prelude.Text.{Bytes, codes}

-- `recomp::RomValidationError`, as far as the switch tells its values apart.
pub data RomValidationError : Type 0 where
  good : RomValidationError
  failed_to_open : RomValidationError
  not_a_rom : RomValidationError
  incorrect_rom : RomValidationError
  not_yet : RomValidationError
  incorrect_version : RomValidationError
  other : ℕ → RomValidationError

unfoldable pub err_name : RomValidationError → Bytes
err_name good = codes "validation error"
err_name failed_to_open = codes "could not open file"
err_name not_a_rom = codes "not a recognizable N64 ROM"
err_name incorrect_rom = codes "wrong game"
err_name not_yet = codes "not yet supported"
err_name incorrect_version = codes "wrong region/revision (need US v1.0)"
err_name (other n) = codes "validation error"

-- The answers: the first line of rom.cfg, if there is one, the two places of baserom.z64, which files
-- exist, and what librecomp says of a ROM.
pub record System : Type 0 where
  pub rom_cfg : Option Bytes
  pub beside : Bytes
  pub above : Bytes
  pub exists : Bytes → Bool
  pub select_rom : Bytes → RomValidationError

unfoldable pub is_empty : Bytes → Bool
is_empty [] = true
is_empty (c ∷ cs) = false

-- `argv[1][0] != '-'`
unfoldable pub is_flag : Bytes → Bool
is_flag [] = false
is_flag (c ∷ cs) = c == 0x2D

-- The path of the command line, and `cli_override`.
unfoldable pub from_cli : Option Bytes → Bytes × Bool
unfolding is_flag
from_cli none = ([], false)
from_cli (some arg) = if is_flag arg then ([], false) else (arg, true)

unfoldable pub read_rom_cfg : System → Bytes
read_rom_cfg s = elim s.rom_cfg [ none ↦ [] | some line ↦ line ]

-- The saved path, if there is no path yet.
unfoldable pub or_saved : System → Bytes → Bytes
unfolding is_empty read_rom_cfg
or_saved s path =
    if is_empty path
    then if not (is_empty (read_rom_cfg s)) && s.exists (read_rom_cfg s)
      then read_rom_cfg s
      else path
    else path

-- baserom.z64, if there is no path yet.
unfoldable pub or_legacy : System → Bytes → Bytes
unfolding is_empty
or_legacy s path =
    let legacy = if s.exists s.beside then s.beside else s.above in
    if is_empty path then if s.exists legacy then legacy else path else path

-- How the choice ends: the ROM, or none and the runner exits; the path written to rom.cfg; the paths
-- that the user was told about, each with the reason.
pub record Choice : Type 0 where
  pub rom : Option Bytes
  pub saved : Option Bytes
  pub told : List (Bytes × Bytes)

abbrev pub cancelled : Choice
cancelled = record { rom = none; saved = none; told = [] }

-- `err == recomp::RomValidationError::Good`
unfoldable pub is_good : RomValidationError → Bool
is_good good = true
is_good failed_to_open = false
is_good not_a_rom = false
is_good incorrect_rom = false
is_good not_yet = false
is_good incorrect_version = false
is_good (other n) = false

-- A candidate that is not empty and exists is validated; behind a failure, `rest` follows.
unfoldable pub attempt : Bool → Bytes → RomValidationError → Choice → Choice
unfolding is_good err_name
attempt cli_override path err rest =
    if is_good err
    then record { rom = some path; saved = if cli_override then none else some path; told = [] }
    else record rest { told = (path, err_name err) ∷ rest.told }

unfoldable pub is_candidate : System → Bytes → Bool
unfolding is_empty
is_candidate s path = not (is_empty path) && s.exists path

-- One round of the loop, where `rest` is what follows the picker.
unfoldable pub round : System → Bool → Bytes → Choice → Choice
unfolding is_candidate attempt
round s cli_override path rest =
    if is_candidate s path then attempt cli_override path (s.select_rom path) rest else rest

unfoldable pub choose : System → Bool → Bytes → List Bytes → Choice
unfolding round
choose s cli_override path [] = round s cli_override path cancelled
choose s cli_override path (picked ∷ picks) =
    round s cli_override path (choose s cli_override picked picks)

-- The whole block of `main`: the argument, then the picks.
unfoldable pub choose_rom : System → Option Bytes → List Bytes → Choice
unfolding from_cli or_saved or_legacy choose
choose_rom s arg picks = choose s (from_cli arg).1 (or_legacy s (or_saved s (from_cli arg).0)) picks
