-- ===== src/Extras/Loaders.antt =====
-- The hooks of extras.c on the sound-bank loader and the asset loaders, which fall back on the first
-- slot of their argument stacks, and print a limited number of lines. The `static int` counters are
-- natural numbers.
use pokemon_stadium_recomp.Prelude.{
  ℕ, zero, suc, ◌+◌, ◌*◌, ◌/◌, ◌%◌, ◌^◌, List, [], ◌∷◌, Option, none, some, leb, if◌then◌else◌, not,
  bit_and, bit_or,
}
use pokemon_stadium_recomp.Prelude.Int.{ℤ}
use pokemon_stadium_recomp.Rdram.{Rdram, load_be32, in_rdram, physical}
use pokemon_stadium_recomp.Extras.Args.{Saved, save, restore_or_first}

pub data Message : Type 0 where
  sb_enter : ℕ → ℕ → Message
  sb_out_of_range : ℕ → Message
  sb_exit : ℕ → ℕ → ℕ → List (ℕ × ℕ) → Message
  load2_entered : ℕ → ℕ → ℕ → ℕ → ℤ → Message
  load2_left : ℕ → ℕ → ℕ → ℕ → ℕ → Message
  aload_entered : ℕ → ℕ → ℤ → Message
  aload_left : ℕ → ℕ → ℕ → Message

-- `if (sp < 8)`
abbrev pub shallow : ℕ
shallow = 8

-- The saved arguments, and the `s_n` of the entry and of the exit hook.
pub record Hooked (A : Type 0) : Type 0 where
  pub saved : Saved A
  pub entries : ℕ
  pub exits : ℕ

-- `s_n++; if (s_n <= limit) fprintf(...)`, at the new value.
abbrev pub up_to : ℕ → ℕ → Message → List Message
up_to limit n message = if leb n limit then message ∷ [] else []

module _ {A : Type 0} (d : A) (limit : ℕ) where
  -- The entry hook; the line shows the depth behind the `sp++`.
  unfoldable pub enter_logged : (ℤ → Message) → A → Hooked A → Option (List Message × Hooked A)
  unfolding save
  enter_logged message x h = elim (save shallow d x h.saved) [
    | none ↦ none
    | some s ↦ some (
      up_to limit (h.entries + 1) (message s.sp),
      record h { saved = s; entries = h.entries + 1 },
    )
  ]

  unfoldable pub exit_logged : (A → Message) → Hooked A → List Message × Hooked A
  unfolding restore_or_first
  exit_logged message h = (
    up_to limit (h.exits + 1) (message (restore_or_first shallow d h.saved).0),
    record h { saved = (restore_or_first shallow d h.saved).1; exits = h.exits + 1 },
  )

-- `(arg2 << 8) | arg3`, and the two bytes that the exit line takes from it.
unfoldable pub pack : ℕ → ℕ → ℕ
pack arg2 arg3 = bit_or ((arg2 * 2 ^ 8) % 2 ^ 32) arg3

unfoldable pub packed_arg2 : ℕ → ℕ
packed_arg2 x = bit_and (x / 2 ^ 8) 0xFF

unfoldable pub packed_arg3 : ℕ → ℕ
packed_arg3 x = bit_and x 0xFF

-- rom_start, rom_end, arg2_arg3
abbrev pub Load2 : Type 0
Load2 = ℕ × ℕ × ℕ

unfoldable pub load2_enter : ℕ → ℕ → ℕ → ℕ → Hooked Load2 → Option (List Message × Hooked Load2)
unfolding enter_logged pack
load2_enter rom_start rom_end arg2 arg3 h =
    enter_logged (0, 0, 0) 64 (load2_entered rom_start rom_end arg2 arg3)
      (rom_start, rom_end, pack arg2 arg3) h

unfoldable pub load2_line : ℕ → Load2 → Message
unfolding packed_arg2 packed_arg3
load2_line ret (rom_start, rom_end, x) =
    load2_left rom_start rom_end (packed_arg2 x) (packed_arg3 x) ret

unfoldable pub load2_exit : ℕ → Hooked Load2 → List Message × Hooked Load2
unfolding exit_logged load2_line
load2_exit ret h = exit_logged (0, 0, 0) 64 (load2_line ret) h

unfoldable pub aload_enter : ℕ → ℕ → Hooked (ℕ × ℕ) → Option (List Message × Hooked (ℕ × ℕ))
unfolding enter_logged
aload_enter archive file_number h =
    enter_logged (0, 0) 96 (aload_entered archive file_number) (archive, file_number) h

unfoldable pub aload_line : ℕ → ℕ × ℕ → Message
aload_line ret (archive, file_number) = aload_left archive file_number ret

unfoldable pub aload_exit : ℕ → Hooked (ℕ × ℕ) → List Message × Hooked (ℕ × ℕ)
unfolding exit_logged aload_line
aload_exit ret h = exit_logged (0, 0) 96 (aload_line ret) h

unfoldable pub sb_loader_args_log : ℕ → ℕ → Hooked ℕ → Option (List Message × Hooked ℕ)
unfolding enter_logged
sb_loader_args_log soundbank wave_tables_offset h =
    enter_logged 0 16 (λ sp. sb_enter soundbank wave_tables_offset) soundbank h

-- The wave pointers from `wl_paddr` on, each with the base that it points at, or 0.
unfoldable pub wave_bases : Rdram → ℕ → ℕ → List (ℕ × ℕ)
unfolding load_be32
wave_bases rdram wl_paddr zero = []
wave_bases rdram wl_paddr (suc n) =
    let wave_ptr = load_be32 rdram wl_paddr in
    (wave_ptr, if in_rdram wave_ptr then load_be32 rdram (physical wave_ptr) else 0)
    ∷ wave_bases rdram (wl_paddr + 4) n

unfoldable pub sb_line : Rdram → ℕ → Message
unfolding load_be32 wave_bases
sb_line rdram soundbank =
    if not (in_rdram soundbank)
    then sb_out_of_range soundbank
    else let count = load_be32 rdram (physical soundbank + 0x20) in
      let wave_list = load_be32 rdram (physical soundbank + 0x2C) in
      sb_exit soundbank count wave_list (
        if in_rdram wave_list
        then wave_bases rdram (physical wave_list) (if leb count 4 then count else 4)
        else [])

unfoldable pub sb_loader_exit_log_tls : Rdram → Hooked ℕ → List Message × Hooked ℕ
unfolding exit_logged sb_line
sb_loader_exit_log_tls rdram h = exit_logged 0 16 (sb_line rdram) h
