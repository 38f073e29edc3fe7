-- ===== src/PostMortem/Current.antt =====
-- `psr_dump_current_dl`, the dump that the server's `dump_current_dl` asks for: it also reports where
-- the last display list is, whether or not it can be dumped. The log is read twice; no task is
-- logged in between.
use pokemon_stadium_recomp.Prelude.{
  ℕ, ◌-◌, ◌≡◌, refl, Bool, true, false, List, Option, none, some, ◌==◌, if◌then◌else◌, Bool-cases,
  inl, inr,
}
use pokemon_stadium_recomp.Prelude.Int.{pos}
use pokemon_stadium_recomp.Rdram.{Rdram, load_bytes}
use pokemon_stadium_recomp.DebugServer.Events.{EventLog, SpTaskEvent, sp_task_event_size}
use pokemon_stadium_recomp.DebugServer.Reports.{DumpResult}
use pokemon_stadium_recomp.PostMortem.{
  Dump, failed, last_gfx, dump_task, dump_found, dump_last_gfx_dl,
}

-- The last graphics task, if the log's records are ours.
unfoldable pub current_task : EventLog SpTaskEvent → Option SpTaskEvent
unfolding last_gfx
current_task log =
    if log.event_size == sp_task_event_size then last_gfx (log.recent_copy 4096).0 else none

unfoldable pub address_of : Option SpTaskEvent → ℕ
address_of none = 0
address_of (some e) = e.data_ptr

unfoldable pub size_of : Option SpTaskEvent → ℕ
size_of none = 0
size_of (some e) = e.data_size

-- The file and what is reported.
unfoldable pub psr_dump_current_dl :
    EventLog SpTaskEvent → Option Rdram → Bool → Option (List ℕ) × DumpResult
unfolding current_task address_of size_of dump_last_gfx_dl
psr_dump_current_dl log rdram opens =
    let d = dump_last_gfx_dl log rdram opens in
    (
      d.file,
      record { rc = d.rc; addr = address_of (current_task log); size = size_of (current_task log) },
    )

either-written :
    (b : Bool) (n : ℕ) (rest : Dump) (bytes : List ℕ)
    → (rest.rc ≡ pos 0 → rest.file ≡ some bytes)
    → (if b then failed n else rest).rc ≡ pos 0
    → (if b then failed n else rest).file ≡ some bytes
either-written true n rest bytes h e = absurd (cc)
either-written false n rest bytes h e = h e

opened-written :
    (opens : Bool) (bytes : List ℕ)
    → (if opens then record { rc = pos 0; file = some bytes } else failed 6).rc ≡ pos 0
    → (if opens then record { rc = pos 0; file = some bytes } else failed 6).file ≡ some bytes
opened-written true bytes e = refl
opened-written false bytes e = absurd (cc)

dump_task-written :
    (m : Rdram) (opens : Bool) (e : SpTaskEvent)
    → (dump_task (some m) opens e).rc ≡ pos 0
    → (dump_task (some m) opens e).file ≡ some (load_bytes m (e.data_ptr - 0x80000000) e.data_size)
unfolding dump_task
dump_task-written m opens e =
    let bytes = load_bytes m (e.data_ptr - 0x80000000) e.data_size in
    either-written _ 3 _ bytes
      (either-written _ 4 _ bytes (either-written _ 5 _ bytes (opened-written opens bytes)))

found-written :
    (m : Rdram) (opens : Bool) (o : Option SpTaskEvent)
    → (dump_found (some m) opens o).rc ≡ pos 0
    → (dump_found (some m) opens o).file
      ≡ some (load_bytes m (address_of o - 0x80000000) (size_of o))
unfolding dump_found address_of size_of
found-written m opens none h = absurd (cc)
found-written m opens (some e) h = dump_task-written m opens e h

-- A dump that reports success has written the bytes at the address and of the size that it reports.
psr_dump_current_dl-written :
    (log : EventLog SpTaskEvent) (m : Rdram) (opens : Bool)
    → (psr_dump_current_dl log (some m) opens).1.rc ≡ pos 0
    → (psr_dump_current_dl log (some m) opens).0
      ≡ some (
          load_bytes m
            ((psr_dump_current_dl log (some m) opens).1.addr - 0x80000000)
            (psr_dump_current_dl log (some m) opens).1.size)
unfolding psr_dump_current_dl dump_last_gfx_dl current_task
psr_dump_current_dl-written log m opens = elim (Bool-cases (log.event_size == sp_task_event_size)) [
  | inl e ↦ rw e (found-written m opens (last_gfx (log.recent_copy 4096).0))
  | inr e ↦ rw e (λ h. absurd (cc))
]
