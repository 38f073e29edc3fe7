-- ===== src/AspmainHook/Opcodes.antt =====
-- The diagnostic of the hook: the opcodes of the first chunk's commands, printed into a buffer of 256
-- bytes.
use pokemon_stadium_recomp.Prelude.{
  ℕ, zero, suc, ◌+◌, ◌-◌, ◌*◌, ◌/◌, ◌%◌, ◌^◌, [], ◌++◌, ltb, if◌then◌else◌, length,
}
use pokemon_stadium_recomp.Prelude.Text.{Bytes, codes, snprintf}
use pokemon_stadium_recomp.Libc.Print.{hex2_upper}
use pokemon_stadium_recomp.Rdram.{Rdram, load8}
use pokemon_stadium_recomp.Rdram.Words.{game_byte}

-- `(data_size > 320) ? 40 : (data_size / 8)`
unfoldable pub n_cmds : ℕ → ℕ
n_cmds data_size = if ltb 320 data_size then 40 else data_size / 8

-- The first byte of command `i`.
unfoldable pub opcode_at : Rdram → ℕ → ℕ → ℕ
unfolding load8
opcode_at m data_ptr i = load8 m ((data_ptr + i * 8) % 2 ^ 24)

-- `n` more commands from `i` on, behind the text that is there: `(p - ops) < 240` is asked before
-- each, and `snprintf` has the rest of the buffer.
unfoldable pub print_ops : Rdram → ℕ → ℕ → ℕ → Bytes → Bytes
unfolding opcode_at hex2_upper
print_ops m data_ptr zero i ops = ops
print_ops m data_ptr (suc n) i ops =
    let more =
      print_ops m data_ptr n (i + 1)
        (ops ++ snprintf (256 - length ops) (hex2_upper (opcode_at m data_ptr i) ++ codes " ")) in
    if ltb (length ops) 240 then more else ops

unfoldable pub chunk_ops : Rdram → ℕ → ℕ → Bytes
unfolding print_ops n_cmds
chunk_ops m data_ptr data_size = print_ops m data_ptr (n_cmds data_size) 0 []

-- The opcodes of `n` commands from `i` on, each the first byte that the game sees of 8 bytes.
pub ops_text : Rdram → ℕ → ℕ → ℕ → Bytes
ops_text m data_ptr zero i = []
ops_text m data_ptr (suc n) i =
    hex2_upper (game_byte m ((data_ptr + 8 * i) % 2 ^ 24))
    ++ codes " "
    ++ ops_text m data_ptr n (i + 1)
