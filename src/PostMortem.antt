-- ===== src/PostMortem.antt =====
-- post_mortem.cpp: the bounded word read, and the dump of the last display list, which the server's
-- `dump_current_dl` and the post-mortem dump call. The report's sections are in Rings, Report and
-- Hardware, the whole dump in Whole, and the dump on demand in Current.
pub mod DisplayList
pub mod Rings
pub mod Report
pub mod Hardware
pub mod Whole
pub mod Current
use mathlib.Core.List.{reverse}
use pokemon_stadium_recomp.Prelude.{
  ℕ, ◌+◌, ◌-◌, ◌*◌, ◌%◌, ◌^◌, Bool, true, false, ◌||◌, List, [], ◌∷◌, Option, none, some, ltb, leb,
  ◌==◌, if◌then◌else◌,
}
use pokemon_stadium_recomp.Prelude.Int.{ℤ, pos, negsuc}
use pokemon_stadium_recomp.Rdram.{Rdram, load_be32, load_bytes, physical}
use pokemon_stadium_recomp.DebugServer.Events.{EventLog, SpTaskEvent, sp_task_event_size}

-- `read_be_u32`: 0 without memory and outside KSEG0's 8 MiB.
unfoldable pub read_be_u32 : Option Rdram → ℕ → ℕ
unfolding load_be32
read_be_u32 none vaddr = 0
read_be_u32 (some m) vaddr =
    if ltb vaddr 0x80000000 || leb 0x80800000 vaddr
    then 0
    else if ltb 0x800000 ((physical vaddr + 4) % 2 ^ 32)
    then 0
    else load_be32 m (physical vaddr)

-- The backward loop over the events, on the list read from its end.
unfoldable pub first_gfx : List SpTaskEvent → Option SpTaskEvent
first_gfx [] = none
first_gfx (e ∷ es) = if e.task_type == 1 then some e else first_gfx es

unfoldable pub last_gfx : List SpTaskEvent → Option SpTaskEvent
unfolding first_gfx
last_gfx es = first_gfx (reverse es)

-- The status and the bytes of the file, if one is written.
pub record Dump : Type 0 where
  pub rc : ℤ
  pub file : Option (List ℕ)

abbrev pub failed : ℕ → Dump
failed n = record { rc = negsuc n; file = none }

-- The guards behind the search, in order. `opens` is whether the file opens.
unfoldable pub dump_task : Option Rdram → Bool → SpTaskEvent → Dump
unfolding load_bytes
dump_task none opens e = failed 2
dump_task (some m) opens e =
    let off = e.data_ptr - 0x80000000 in
    if (e.data_size == 0) || ltb 0x100000 e.data_size
    then failed 3
    else if ltb e.data_ptr 0x80000000
    then failed 4
    else if leb 0x800000 off || ltb 0x800000 ((off + e.data_size) % 2 ^ 32)
    then failed 5
    else if opens
    then record { rc = pos 0; file = some (load_bytes m off e.data_size) }
    else failed 6

dump_found : Option Rdram → Bool → Option SpTaskEvent → Dump
unfolding dump_task
dump_found rdram opens none = failed 1
dump_found rdram opens (some e) = dump_task rdram opens e

unfoldable pub dump_last_gfx_dl : EventLog SpTaskEvent → Option Rdram → Bool → Dump
unfolding last_gfx dump_found
dump_last_gfx_dl log rdram opens =
    if log.event_size == sp_task_event_size
    then dump_found rdram opens (last_gfx (log.recent_copy 4096).0)
    else failed 0
