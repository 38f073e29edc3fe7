-- ===== src/Libc/Scan.antt =====
-- `atoi` and `strtoul(p, nullptr, 0)`.
use pokemon_stadium_recomp.Prelude.{
  ℕ, ◌+◌, ◌-◌, ◌*◌, ◌%◌, ◌^◌, [], ◌∷◌, Bool, true, false, ◌&&◌, ◌||◌, ltb, leb, ◌==◌, if◌then◌else◌,
  min, Option, none, some,
}
use pokemon_stadium_recomp.Prelude.Int.{ℤ, pos, neg}
use pokemon_stadium_recomp.Prelude.Text.{Bytes}

-- `isspace`
abbrev is_space : ℕ → Bool
is_space c = c == 0x20 || leb 9 c && leb c 13

abbrev pub is_digit : ℕ → Bool
is_digit c = leb b'0' c && leb c b'9'

unfoldable pub skip_spaces : Bytes → Bytes
skip_spaces [] = []
skip_spaces (c ∷ s) = if is_space c then skip_spaces s else c ∷ s

-- The value of the digits at the front.
unfoldable pub scan_decimal : ℕ → Bytes → ℕ
scan_decimal acc [] = acc
scan_decimal acc (c ∷ s) = elim (is_digit c) [
  | true ↦ scan_decimal (acc * 10 + (c - b'0')) s
  | false ↦ acc
]

abbrev clip_pos : ℕ → ℤ
clip_pos n = pos (min n (2 ^ 31 - 1))

abbrev clip_neg : ℕ → ℤ
clip_neg n = neg (min n (2 ^ 31))

abbrev signed : Bytes → ℤ
signed [] = pos 0
signed (c ∷ s) =
    if c == b'-'
    then clip_neg (scan_decimal 0 s)
    else if c == b'+'
    then clip_pos (scan_decimal 0 s)
    else clip_pos (scan_decimal 0 (c ∷ s))

unfoldable pub atoi : Bytes → ℤ
unfolding skip_spaces scan_decimal
atoi s = signed (skip_spaces s)

-- The value of a digit in any base up to 16.
abbrev digit_value : ℕ → Option ℕ
digit_value c =
    if is_digit c
    then some (c - b'0')
    else if leb b'a' c && leb c b'f'
    then some (c - b'a' + 10)
    else if leb b'A' c && leb c b'F'
    then some (c - b'A' + 10)
    else none

unfoldable pub scan_base : ℕ → ℕ → Bytes → ℕ
scan_base base acc [] = acc
scan_base base acc (c ∷ s) = elim (digit_value c) [
  | none ↦ acc
  | some d ↦ elim (ltb d base) [ true ↦ scan_base base (acc * base + d) s | false ↦ acc ]
]

is_hex_start : Bytes → Bool
is_hex_start (c ∷ _) = elim (digit_value c) [ none ↦ false | some _ ↦ true ]
is_hex_start _ = false

-- Base 0: "0x" and a digit start a hexadecimal number, "0" an octal one.
prefixed : Bytes → ℕ
unfolding scan_base is_hex_start
prefixed (c ∷ d ∷ s) =
    if c == b'0' && (d == b'x' || d == b'X') && is_hex_start s
    then scan_base 16 0 s
    else if c == b'0'
    then scan_base 8 0 (d ∷ s)
    else scan_base 10 0 (c ∷ d ∷ s)
prefixed s = scan_base 10 0 s

-- A minus sign negates modulo 2 ^ 32.
signed_u32 : Bytes → ℕ
unfolding prefixed
signed_u32 [] = 0
signed_u32 (c ∷ s) =
    if c == b'-'
    then (2 ^ 32 - min (prefixed s) (2 ^ 32 - 1)) % 2 ^ 32
    else if c == b'+'
    then min (prefixed s) (2 ^ 32 - 1)
    else min (prefixed (c ∷ s)) (2 ^ 32 - 1)

unfoldable pub strtoul : Bytes → ℕ
unfolding skip_spaces signed_u32
strtoul s = signed_u32 (skip_spaces s)
