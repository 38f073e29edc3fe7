-- ===== src/PostMortem/Hardware.antt =====
-- The `hardware` section of the post-mortem report, `dump_hardware_state_json`: the game's state, its
-- segment and fragment tables, and the start of its scheduler.

use pokemon_stadium_recomp.Prelude.{
  ℕ, zero, suc, ◌+◌, ◌*◌, true, ◌&&◌, List, [], ◌∷◌, ◌++◌, Option, none, some, ltb, ◌==◌,
  if◌then◌else◌,
}
use pokemon_stadium_recomp.Prelude.Text.{Bytes, codes}
use pokemon_stadium_recomp.Libc.Print.{decimal}
use pokemon_stadium_recomp.Rdram.{Rdram, load8, in_rdram, physical}
use pokemon_stadium_recomp.PostMortem.{read_be_u32}
use pokemon_stadium_recomp.PostMortem.Rings.{joined, keyed}

-- id, vaddr, size
abbrev pub Entry : Type 0
Entry = ℕ × ℕ × ℕ

unfoldable pub entry_fields : Entry → Bytes
unfolding decimal
entry_fields (id, vaddr, size) =
    codes "{\"id\":"
    ++ decimal id
    ++ keyed (codes "vaddr") vaddr
    ++ keyed (codes "size") size
    ++ codes "}"

-- `n` entries of 8 bytes, from the `i`-th of the table at `table` on.
unfoldable pub table_entries : Option Rdram → ℕ → ℕ → ℕ → List Entry
unfolding read_be_u32
table_entries rdram table zero i = []
table_entries rdram table (suc n) i =
    (i, read_be_u32 rdram (table + i * 8 + 0), read_be_u32 rdram (table + i * 8 + 4))
    ∷ table_entries rdram table n (i + 1)

-- `if (vaddr == 0 && size == 0) continue;`
unfoldable pub loaded : List Entry → List Entry
loaded [] = []
loaded ((id, vaddr, size) ∷ es) =
    if (vaddr == 0) && (size == 0) then loaded es else (id, vaddr, size) ∷ loaded es

-- The first bytes behind the scheduler's pointer; beyond the memory they show 0.
unfoldable pub bytes_behind : Rdram → ℕ → ℕ → List ℕ
unfolding load8
bytes_behind m paddr zero = []
bytes_behind m paddr (suc n) =
    (if ltb paddr (8 * 1024 * 1024) then load8 m paddr else 0) ∷ bytes_behind m (paddr + 1) n

unfoldable pub scheduler_text : Rdram → ℕ → Bytes
unfolding bytes_behind joined decimal
scheduler_text m ptr =
    if in_rdram ptr
    then codes "    \"D_800A7464_first24\": ["
      ++ joined decimal true (bytes_behind m (physical ptr) 24)
      ++ codes "],\n"
    else []

unfoldable pub dump_hardware_state : Option Rdram → Bytes
unfolding read_be_u32 table_entries loaded entry_fields scheduler_text joined decimal
dump_hardware_state none = codes "  \"hardware\": {\"error\": \"no_rdram\"},\n"
dump_hardware_state (some m) =
    codes "  \"hardware\": {\n    \"gCurrentGameState\": "
    ++ decimal (read_be_u32 (some m) 0x80075668)
    ++ codes ",\n    \"gSegments\": ["
    ++ joined entry_fields true (table_entries (some m) 0x800A5870 16 0)
    ++ codes "],\n    \"gFragments_loaded\": ["
    ++ joined entry_fields true (loaded (table_entries (some m) 0x800A58F0 240 0))
    ++ codes "],\n    \"D_800A7464_ptr\": "
    ++ decimal (read_be_u32 (some m) 0x800A7464)
    ++ codes ",\n"
    ++ scheduler_text m (read_be_u32 (some m) 0x800A7464)
    ++ codes "    \"_end\": true\n  },\n"
