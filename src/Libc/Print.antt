-- ===== src/Libc/Print.antt =====
-- `%u`, `%d`, `%02x`, `%08X` and `std::to_string`.
use pokemon_stadium_recomp.Prelude.{
  ℕ, zero, suc, ◌+◌, ◌-◌, ◌/◌, ◌%◌, ◌==◌, [], ◌∷◌, ◌++◌, true, false, ltb, if◌then◌else◌,
}
use pokemon_stadium_recomp.Prelude.Int.{ℤ, pos, negsuc}
use pokemon_stadium_recomp.Prelude.Text.{Bytes}

-- The decimal digits of `n` before `acc`. A number has at most as many digits as its value plus one.
unfoldable pub decimal_onto : ℕ → ℕ → Bytes → Bytes
decimal_onto zero n acc = acc
decimal_onto (suc fuel) n acc = elim (ltb n 10) [
  | true ↦ (b'0' + n) ∷ acc
  | false ↦ decimal_onto fuel (n / 10) ((b'0' + n % 10) ∷ acc)
]

unfoldable pub decimal : ℕ → Bytes
unfolding decimal_onto
decimal n = decimal_onto (suc n) n []

unfoldable pub decimal_int : ℤ → Bytes
unfolding decimal
decimal_int (pos n) = decimal n
decimal_int (negsuc n) = b'-' ∷ decimal (suc n)

unfoldable pub hex_lower : ℕ → ℕ
hex_lower d = if ltb d 10 then b'0' + d else b'a' + (d - 10)

unfoldable pub hex_upper : ℕ → ℕ
hex_upper d = if ltb d 10 then b'0' + d else b'A' + (d - 10)

-- `%02x` of a byte.
unfoldable pub hex2 : ℕ → Bytes
unfolding hex_lower
hex2 b = hex_lower (b / 16) ∷ hex_lower (b % 16) ∷ []

-- `%02X` of a byte.
unfoldable pub hex2_upper : ℕ → Bytes
unfolding hex_upper
hex2_upper b = hex_upper (b / 16) ∷ hex_upper (b % 16) ∷ []

-- `%0kX` of a number below 16 ^ k.
unfoldable pub hex_upper_digits : ℕ → ℕ → Bytes
unfolding hex_upper
hex_upper_digits zero n = []
hex_upper_digits (suc k) n = hex_upper_digits k (n / 16) ++ hex_upper (n % 16) ∷ []

unfoldable pub hex8 : ℕ → Bytes
unfolding hex_upper_digits
hex8 = hex_upper_digits 8

-- The digits of `%X` and `%llX`: those of a fixed width, without the leading zeros.
unfoldable pub drop_zeros : Bytes → Bytes
drop_zeros [] = []
drop_zeros (d ∷ []) = d ∷ []
drop_zeros (d ∷ e ∷ ds) = let rest = drop_zeros (e ∷ ds) in if d == b'0' then rest else d ∷ e ∷ ds
