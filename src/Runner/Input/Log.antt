-- ===== src/Runner/Input/Log.antt =====
-- The diagnostic of `get_n64_input`: a line whenever the mask that the game gets has changed. `%+.2f` of
-- a coordinate is a parameter.
use pokemon_stadium_recomp.Prelude.{
  ℕ, ◌≡◌, refl, ap, ◌∙◌, arith, Bool, List, [], ◌∷◌, ◌++◌, Option, none, some, bit_and, ◌==◌,
  if◌then◌else◌,
}
use pokemon_stadium_recomp.Prelude.Text.{Bytes, codes}
use pokemon_stadium_recomp.Libc.Print.{hex_upper_digits}
use pokemon_stadium_recomp.DebugServer.State.{Pad}
use pokemon_stadium_recomp.Runner.Input.{SdlPad, Keys, Coordinate, N64Input, get_n64_input}

abbrev pub button_names : List (ℕ × Bytes)
button_names =
    (0x8000, codes " A")
    ∷ (0x4000, codes " B")
    ∷ (0x2000, codes " Z")
    ∷ (0x1000, codes " START")
    ∷ (0x0800, codes " D-Up")
    ∷ (0x0400, codes " D-Down")
    ∷ (0x0200, codes " D-Left")
    ∷ (0x0100, codes " D-Right")
    ∷ (0x0020, codes " L")
    ∷ (0x0010, codes " R")
    ∷ (0x0008, codes " C-Up")
    ∷ (0x0004, codes " C-Down")
    ∷ (0x0002, codes " C-Left")
    ∷ (0x0001, codes " C-Right")
    ∷ []

unfoldable pub names_of : ℕ → List (ℕ × Bytes) → Bytes
names_of buttons [] = []
names_of buttons ((mask, name) ∷ rest) =
    (if bit_and buttons mask == 0 then [] else name) ++ names_of buttons rest

unfoldable pub change_line : (Coordinate → Bytes) → N64Input → ℕ → Bytes
unfolding names_of hex_upper_digits
change_line coordinate i last =
    codes "[input] btn change: 0x"
    ++ hex_upper_digits 4 i.buttons
    ++ codes " (was 0x"
    ++ hex_upper_digits 4 last
    ++ codes ") stick=("
    ++ coordinate i.x
    ++ codes ","
    ++ coordinate i.y
    ++ codes ")"
    ++ names_of i.buttons button_names
    ++ codes "\n"

-- The line, if any, and `s_last_buttons` behind it.
unfoldable pub log_change : (Coordinate → Bytes) → N64Input → ℕ → Option Bytes × ℕ
unfolding change_line
log_change coordinate i last =
    if i.buttons == last then (none, last) else (some (change_line coordinate i last), i.buttons)

-- One poll with its line; the other ports return before it.
unfoldable pub poll :
    (Coordinate → Bytes)
    → ℕ
    → Pad
    → Option SdlPad
    → Option Keys
    → ℕ
    → (Bool × N64Input) × (Option Bytes × ℕ)
unfolding get_n64_input log_change
poll coordinate controller_num override pad keys last =
    let answer = get_n64_input controller_num override pad keys in
    let logged = log_change coordinate answer.1 last in
    if controller_num == 0 then (answer, logged) else (answer, (none, last))

-- A run of polls of port 0: the lines, and the mask that is remembered.
pub poll_all : (Coordinate → Bytes) → List (Pad × Option SdlPad × Option Keys) → ℕ → List Bytes × ℕ
poll_all coordinate [] last = ([], last)
poll_all coordinate ((override, pad, keys) ∷ rest) last =
    let (line, last') = (poll coordinate 0 override pad keys last).1 in
    let (lines, end) = poll_all coordinate rest last' in
    (elim line [ none ↦ lines | some l ↦ l ∷ lines ], end)

-- The mask of the last poll.
last_mask : List (Pad × Option SdlPad × Option Keys) → ℕ → ℕ
last_mask [] last = last
last_mask ((override, pad, keys) ∷ rest) last =
    last_mask rest (get_n64_input 0 override pad keys).1.buttons

log_change-last :
    (coordinate : Coordinate → Bytes) (i : N64Input) (last : ℕ)
    → (log_change coordinate i last).1 ≡ i.buttons
unfolding log_change
log_change-last coordinate i last = ground arith

-- The mask that is remembered is the one that the game got last, whether or not it was logged.
poll_all-last_mask :
    (coordinate : Coordinate → Bytes) (polls : List (Pad × Option SdlPad × Option Keys)) (last : ℕ)
    → (poll_all coordinate polls last).1 ≡ last_mask polls last
unfolding poll_all last_mask poll
poll_all-last_mask coordinate [] last = refl
poll_all-last_mask coordinate ((override, pad, keys) ∷ rest) last =
    poll_all-last_mask coordinate rest _
    ∙ ap (last_mask rest) (log_change-last coordinate (get_n64_input 0 override pad keys).1 last)
