-- ===== src/Runner/Input/Held.antt =====
-- Which buttons the game sees.
use pokemon_stadium_recomp.Prelude.{
  ℕ, ◌≡◌, ◌∙◌, ap, ap₂, refl, arith, Bool, true, false, ◌||◌, List, [], ◌∷◌, ◌++◌, Option, none,
  some, bit_or, max, if◌then◌else◌, ◌==◌, Bool-cases, inl, inr,
}
use pokemon_stadium_recomp.Prelude.Int.{ℤ, pos, neg, ltb_ℤ}
use pokemon_stadium_recomp.Prelude.Bits.{bit, bit-bit_or, bit-zero, bit-lt}
use pokemon_stadium_recomp.DebugServer.State.{Pad}
use pokemon_stadium_recomp.Runner.Input.{
  SdlPad, PadButtons, Keys, or_all, rows, pad_rows, key_rows, c_rows, override_of, get_n64_input,
}

-- Bit `k` of some row whose test holds.
pub asked : ℕ → List (Bool × ℕ) → ℕ
asked k [] = 0
asked k ((test, mask) ∷ rest) = max (if test then bit k mask else 0) (asked k rest)

bit-or_all : (k : ℕ) (l : List (Bool × ℕ)) (b : ℕ) → bit k (or_all l b) ≡ max (bit k b) (asked k l)
unfolding or_all asked
bit-or_all k [] b = omega arith
bit-or_all k ((true, mask) ∷ rest) b =
    omega (arith, bit-or_all k rest (bit_or b mask), bit-bit_or k b mask)
bit-or_all k ((false, mask) ∷ rest) b = omega (arith, bit-or_all k rest b)

-- The bits of a row of tests: as the rows have them, and the override's.
bit-get_n64_input :
    (k : ℕ) (override : Pad) (pad : Option SdlPad) (keys : Option Keys)
    → bit k (get_n64_input 0 override pad keys).1.buttons
      ≡ max (asked k (rows pad keys)) (bit k (override_of override).buttons)
unfolding get_n64_input
bit-get_n64_input k override pad keys = omega (
  arith,
  bit-bit_or k (or_all (rows pad keys) 0) (override_of override).buttons,
  bit-or_all k (rows pad keys) 0,
  bit-zero k,
)

-- The sixteen bits of the N64 controller's buttons, of which two are never set.
pub data Button : Type 0 where
  a_button b_button z_trigger start_button : Button
  d_up d_down d_left d_right : Button
  bit_seven bit_six : Button
  l_trigger r_trigger : Button
  c_up c_down c_left c_right : Button

abbrev pub number : Button → ℕ
number a_button = 15
number b_button = 14
number z_trigger = 13
number start_button = 12
number d_up = 11
number d_down = 10
number d_left = 9
number d_right = 8
number bit_seven = 7
number bit_six = 6
number l_trigger = 5
number r_trigger = 4
number c_up = 3
number c_down = 2
number c_left = 1
number c_right = 0

abbrev from_pad : (PadButtons → Bool) → Option SdlPad → List Bool
from_pad f none = []
from_pad f (some p) = f p.buttons ∷ []

abbrev from_keys : (Keys → Bool) → Option Keys → List Bool
from_keys f none = []
from_keys f (some ks) = f ks ∷ []

-- The axes of the right stick, 0 with no pad.
abbrev right_x : Option SdlPad → ℤ
right_x none = pos 0
right_x (some p) = p.rx

abbrev right_y : Option SdlPad → ℤ
right_y none = pos 0
right_y (some p) = p.ry

-- What can hold a button: a button of the pad, a key, and for the C-buttons a direction of the right
-- stick beyond 8000.
pub asking : Button → Option SdlPad → Option Keys → List Bool
asking a_button pad keys = from_pad (λ p. p.a) pad ++ from_keys (λ ks. ks.x) keys
asking b_button pad keys = from_pad (λ p. p.b) pad ++ from_keys (λ ks. ks.z) keys
asking z_trigger pad keys =
    from_pad (λ p. p.left_shoulder) pad ++ from_keys (λ ks. ks.lshift || ks.space) keys
asking start_button pad keys =
    from_pad (λ p. p.start) pad ++ from_keys (λ ks. ks.enter || ks.kp_enter) keys
asking d_up pad keys = from_pad (λ p. p.dpad_up) pad ++ from_keys (λ ks. ks.up) keys
asking d_down pad keys = from_pad (λ p. p.dpad_down) pad ++ from_keys (λ ks. ks.down) keys
asking d_left pad keys = from_pad (λ p. p.dpad_left) pad ++ from_keys (λ ks. ks.left) keys
asking d_right pad keys = from_pad (λ p. p.dpad_right) pad ++ from_keys (λ ks. ks.right) keys
asking bit_seven pad keys = []
asking bit_six pad keys = []
asking l_trigger pad keys = from_pad (λ p. p.left_stick) pad ++ from_keys (λ ks. ks.q) keys
asking r_trigger pad keys = from_pad (λ p. p.right_shoulder) pad ++ from_keys (λ ks. ks.e) keys
asking c_up pad keys = from_keys (λ ks. ks.i) keys ++ ltb_ℤ (right_y pad) (neg 8000) ∷ []
asking c_down pad keys = from_keys (λ ks. ks.k) keys ++ ltb_ℤ (pos 8000) (right_y pad) ∷ []
asking c_left pad keys = from_keys (λ ks. ks.j) keys ++ ltb_ℤ (right_x pad) (neg 8000) ∷ []
asking c_right pad keys = from_keys (λ ks. ks.l) keys ++ ltb_ℤ (pos 8000) (right_x pad) ∷ []

pub any : List Bool → Bool
any [] = false
any (test ∷ rest) = test || any rest

-- The tests of the rows whose mask has bit `k`.
tests : ℕ → List (Bool × ℕ) → List Bool
tests k [] = []
tests k ((test, mask) ∷ rest) = if bit k mask == 1 then test ∷ tests k rest else tests k rest

asked-eq-any : (k : ℕ) (l : List (Bool × ℕ)) → asked k l ≡ (if any (tests k l) then 1 else 0)
unfolding asked any tests
asked-eq-any k [] = refl
asked-eq-any k ((true, mask) ∷ rest) = ground (arith, asked-eq-any k rest, bit-lt k mask)
asked-eq-any k ((false, mask) ∷ rest) = ground (arith, asked-eq-any k rest)

tests-rows :
    (b : Button) (pad : Option SdlPad) (keys : Option Keys)
    → tests (number b) (rows pad keys) ≡ asking b pad keys
unfolding tests rows asking pad_rows key_rows c_rows
tests-rows b none none = elim b as (λ c. tests (number c) (rows none none) ≡ asking c none none) [
  | a_button ↦ refl
  | _ ↦ refl
]
tests-rows b none (some ks) =
    elim b as (λ c. tests (number c) (rows none (some ks)) ≡ asking c none (some ks)) [
      | a_button ↦ refl
      | _ ↦ refl
    ]
tests-rows b (some p) none =
    elim b as (λ c. tests (number c) (rows (some p) none) ≡ asking c (some p) none) [
      | a_button ↦ refl
      | _ ↦ refl
    ]
tests-rows b (some p) (some ks) =
    elim b as (λ c. tests (number c) (rows (some p) (some ks)) ≡ asking c (some p) (some ks)) [
      | a_button ↦ refl
      | _ ↦ refl
    ]

armed_bit :
    (k : ℕ) (p : Pad) → bit k (override_of p).buttons ≡ (if p.active then bit k p.buttons else 0)
unfolding override_of
armed_bit k p = elim (Bool-cases p.active) [ inl on ↦ rw on refl | inr off ↦ rw off (bit-zero k) ]

-- Each of the fourteen buttons of port 0 is held in the game exactly when its button of the pad, its
-- key, for a C-button its direction of the right stick beyond 8000, or the override, while it is
-- armed, holds it; the two other bits come from the armed override alone.
pub get_n64_input-held :
    (b : Button) (override : Pad) (pad : Option SdlPad) (keys : Option Keys)
    → bit (number b) (get_n64_input 0 override pad keys).1.buttons
      ≡ max
          (if any (asking b pad keys) then 1 else 0)
          (if override.active then bit (number b) override.buttons else 0)
get_n64_input-held b override pad keys =
    bit-get_n64_input (number b) override pad keys
    ∙ ap₂ max
        (asked-eq-any (number b) (rows pad keys)
          ∙ ap (λ l. if any l then 1 else 0) (tests-rows b pad keys))
        (armed_bit (number b) override)
