-- ===== src/Runner/Input.antt =====
-- `get_n64_input` and `get_connected_device_info`. The open SDL pad and the keyboard are parameters:
-- what each button, key and axis reads at the time of the poll.
pub mod Sticks
pub mod Log
pub mod Held
use pokemon_stadium_recomp.Prelude.{
  ℕ, zero, suc, ◌+◌, ◌-◌, Bool, true, false, ◌||◌, List, [], ◌∷◌, ◌++◌, Option, none, some, bit_or,
  ◌==◌, if◌then◌else◌,
}
use pokemon_stadium_recomp.Prelude.Int.{ℤ, pos, negsuc, ◌+ℤ◌, neg, ltb_ℤ, pos_part, neg_part, sub_ℕ}
use pokemon_stadium_recomp.DebugServer.State.{Pad}

-- `SDL_GameControllerGetButton` of the ten buttons that are mapped.
pub record PadButtons : Type 0 where
  pub a : Bool
  pub b : Bool
  pub left_shoulder : Bool
  pub start : Bool
  pub dpad_up : Bool
  pub dpad_down : Bool
  pub dpad_left : Bool
  pub dpad_right : Bool
  pub left_stick : Bool
  pub right_shoulder : Bool

-- Buttons and axes of the open pad; the axes are of 16 bits, signed.
pub record SdlPad : Type 0 where
  pub buttons : PadButtons
  pub lx : ℤ
  pub ly : ℤ
  pub rx : ℤ
  pub ry : ℤ

-- The keys of `SDL_GetKeyboardState` that are read.
pub record Keys : Type 0 where
  pub x : Bool
  pub z : Bool
  pub lshift : Bool
  pub space : Bool
  pub enter : Bool
  pub kp_enter : Bool
  pub up : Bool
  pub down : Bool
  pub left : Bool
  pub right : Bool
  pub q : Bool
  pub e : Bool
  pub i : Bool
  pub k : Bool
  pub j : Bool
  pub l : Bool
  pub w : Bool
  pub a : Bool
  pub s : Bool
  pub d : Bool

-- `if (test) b |= mask;`, one after the other.
unfoldable pub or_all : List (Bool × ℕ) → ℕ → ℕ
or_all [] b = b
or_all ((test, mask) ∷ rows) b = or_all rows (if test then bit_or b mask else b)

unfoldable pub pad_rows : PadButtons → List (Bool × ℕ)
pad_rows p =
    (p.a, 0x8000)
    ∷ (p.b, 0x4000)
    ∷ (p.left_shoulder, 0x2000)
    ∷ (p.start, 0x1000)
    ∷ (p.dpad_up, 0x0800)
    ∷ (p.dpad_down, 0x0400)
    ∷ (p.dpad_left, 0x0200)
    ∷ (p.dpad_right, 0x0100)
    ∷ (p.left_stick, 0x0020)
    ∷ (p.right_shoulder, 0x0010)
    ∷ []

unfoldable pub key_rows : Keys → List (Bool × ℕ)
key_rows ks =
    (ks.x, 0x8000)
    ∷ (ks.z, 0x4000)
    ∷ (ks.lshift || ks.space, 0x2000)
    ∷ (ks.enter || ks.kp_enter, 0x1000)
    ∷ (ks.up, 0x0800)
    ∷ (ks.down, 0x0400)
    ∷ (ks.left, 0x0200)
    ∷ (ks.right, 0x0100)
    ∷ (ks.q, 0x0020)
    ∷ (ks.e, 0x0010)
    ∷ (ks.i, 0x0008)
    ∷ (ks.k, 0x0004)
    ∷ (ks.j, 0x0002)
    ∷ (ks.l, 0x0001)
    ∷ []

-- `deadzone`, and `LSTICK_DEADZONE`.
abbrev pub deadzone : ℕ
deadzone = 8000

-- C-buttons from the right stick.
unfoldable pub c_rows : ℤ → ℤ → List (Bool × ℕ)
c_rows rx ry =
    (ltb_ℤ ry (neg deadzone), 0x0008)
    ∷ (ltb_ℤ (pos deadzone) ry, 0x0004)
    ∷ (ltb_ℤ rx (neg deadzone), 0x0002)
    ∷ (ltb_ℤ (pos deadzone) rx, 0x0001)
    ∷ []

-- The key pair of one axis: `if (lo) k -= 32767; if (hi) k += 32767;`
unfoldable pub key_tilt : Bool → Bool → ℤ
key_tilt lo hi = sub_ℕ (if hi then 32767 else 0) (if lo then 32767 else 0)

-- The sum of pad and keys, held to 16 bits.
unfoldable pub saturate : ℤ → ℤ
saturate s = if ltb_ℤ (pos 32767) s then pos 32767 else if ltb_ℤ s (neg 32768) then neg 32768 else s

-- A coordinate of the N64 stick: 80 times a number of 24767ths, or the override's integer.
pub data Coordinate : Type 0 where
  tilt : ℤ → Coordinate
  exact : ℤ → Coordinate

-- The numerator over `32767 - LSTICK_DEADZONE`.
unfoldable pub apply_deadzone : ℤ → ℤ
apply_deadzone raw =
    if ltb_ℤ (pos deadzone) raw
    then raw +ℤ neg deadzone
    else if ltb_ℤ raw (neg deadzone)
    then raw +ℤ pos deadzone
    else pos 0

unfoldable pub negate : ℤ → ℤ
negate n = sub_ℕ (neg_part n) (pos_part n)

-- `if (override != 0.0f) out = override;`
unfoldable pub coordinate : ℤ → ℤ → Coordinate
coordinate (pos zero) own = tilt own
coordinate (pos (suc n)) own = exact (pos (suc n))
coordinate (negsuc n) own = exact (negsuc n)

unfoldable pub left_axes : Option SdlPad → Option Keys → ℤ × ℤ
unfolding key_tilt saturate
left_axes pad keys =
    let lx : ℤ = elim pad [ none ↦ pos 0 | some p ↦ p.lx ] in
    let ly : ℤ = elim pad [ none ↦ pos 0 | some p ↦ p.ly ] in
    elim keys [
      | none ↦ (lx, ly)
      | some ks ↦ (saturate (lx +ℤ key_tilt ks.a ks.d), saturate (ly +ℤ key_tilt ks.w ks.s))
    ]

pub record N64Input : Type 0 where
  pub buttons : ℕ
  pub x : Coordinate
  pub y : Coordinate

-- The rows of the poll, in the order in which they are or-ed in.
unfoldable pub rows : Option SdlPad → Option Keys → List (Bool × ℕ)
unfolding pad_rows key_rows c_rows
rows pad keys =
    elim pad [ none ↦ [] | some p ↦ pad_rows p.buttons ]
    ++ (elim keys [ none ↦ [] | some ks ↦ key_rows ks ]
        ++ elim pad [ none ↦ c_rows (pos 0) (pos 0) | some p ↦ c_rows p.rx p.ry ])

-- The override's part: its buttons and stick, or nothing while it is not armed.
unfoldable pub override_of : Pad → Pad
override_of p =
    if p.active then p else record { active = false; buttons = 0; stick_x = pos 0; stick_y = pos 0 }

unfoldable pub get_n64_input : ℕ → Pad → Option SdlPad → Option Keys → Bool × N64Input
unfolding or_all rows left_axes apply_deadzone negate coordinate override_of
get_n64_input controller_num override pad keys =
    if controller_num == 0
    then (
      true,
      record {
        buttons = bit_or (or_all (rows pad keys) 0) (override_of override).buttons;
        x = coordinate (override_of override).stick_x (apply_deadzone (left_axes pad keys).0);
        y =
            coordinate (override_of override).stick_y
              (negate (apply_deadzone (left_axes pad keys).1));
      },
    )
    else (false, record { buttons = 0; x = tilt (pos 0); y = tilt (pos 0) })

-- `get_connected_device_info`: a controller with no pak in port 0, nothing elsewhere.
unfoldable pub controller_connected : ℕ → Bool
controller_connected controller_num = controller_num == 0
