-- ===== src/PostMortem/Whole.antt =====
-- The whole post-mortem dump, `psr_post_mortem_dump`: the report, with the fault and the sections in
-- their order, and the three files beside it. The caller's context is the fault's, where there is one.
use pokemon_stadium_recomp.Prelude.{
  ℕ, ◌+◌, ◌-◌, ◌%◌, ◌^◌, Bool, ◌&&◌, List, [], ◌++◌, Option, none, some, ltb, leb, ◌==◌,
  if◌then◌else◌, get_or,
}
use pokemon_stadium_recomp.Prelude.Int.{ℤ, pos, sub_ℕ}
use pokemon_stadium_recomp.Prelude.Text.{Bytes, codes}
use pokemon_stadium_recomp.Libc.Print.{decimal, decimal_int}
use pokemon_stadium_recomp.Rdram.{Rdram}
use pokemon_stadium_recomp.Extras.Trace.{Trace}
use pokemon_stadium_recomp.DebugServer.State.{Dbg}
use pokemon_stadium_recomp.DebugServer.Queries.{Counters}
use pokemon_stadium_recomp.DebugServer.Events.{EventLog, MesgEvent, SpTaskEvent}
use pokemon_stadium_recomp.DebugServer.Ultra.{UltraTrace}
use pokemon_stadium_recomp.PostMortem.Rings.{AudioRings, dump_audio_rings}
use pokemon_stadium_recomp.PostMortem.Report.{
  InterpCfEvent, InterpProbe, dump_status, dump_trace, dump_libultra, dump_mesg, dump_sp_task,
  dump_interp_probe, dump_interp_cf, dump_full_rdram,
}
use pokemon_stadium_recomp.DebugServer.History.{dump_input_history_json}
use pokemon_stadium_recomp.Threads.{HostThread, Windows}
use pokemon_stadium_recomp.Threads.Json.{Caller, dump_all_threads}
use pokemon_stadium_recomp.PostMortem.{dump_last_gfx_dl}
use pokemon_stadium_recomp.PostMortem.Hardware.{dump_hardware_state}

-- `EXCEPTION_RECORD`, as far as the report reads it.
pub record Fault : Type 0 where
  pub code : ℕ
  pub address : ℕ
  pub number_parameters : ℕ
  pub information : List ℕ

-- `EXCEPTION_ACCESS_VIOLATION`
abbrev pub access_violation : ℕ
access_violation = 0xC0000005

unfoldable pub access_name : ℕ → Bytes
access_name kind =
    if kind == 0 then codes "read" else if kind == 1 then codes "write" else codes "execute"

-- `intptr_t` of a 64-bit number.
unfoldable pub intptr : ℕ → ℤ
intptr n = if ltb n (2 ^ 63) then pos n else sub_ℕ n (2 ^ 64)

-- The offset from the memory's host address, and the address that the game would use; 0 without
-- memory.
unfoldable pub fault_offset : Option ℕ → ℕ → ℤ
unfolding intptr
fault_offset none host = pos 0
fault_offset (some base) host = intptr ((host + 2 ^ 64 - base) % 2 ^ 64)

unfoldable pub fault_vaddr : Option ℕ → ℕ → ℕ
fault_vaddr none host = 0
fault_vaddr (some base) host = (0x80000000 + (host + 2 ^ 64 - base) % 2 ^ 32) % 2 ^ 32

-- The lines on an access violation at `host`.
unfoldable pub violation_text : Option ℕ → ℕ → ℕ → Bytes
unfolding access_name fault_offset fault_vaddr decimal decimal_int
violation_text rdram_base kind host =
    codes "    \"access\": \""
    ++ access_name kind
    ++ codes "\",\n    \"fault_host\": "
    ++ decimal host
    ++ codes ",\n    \"rdram_off\": "
    ++ decimal_int (fault_offset rdram_base host)
    ++ codes ",\n    \"decoded_vaddr\": "
    ++ decimal (fault_vaddr rdram_base host)
    ++ codes ",\n"

unfoldable pub access_text : Option ℕ → Fault → Bytes
unfolding violation_text
access_text rdram_base e =
    if (e.code == access_violation) && leb 2 e.number_parameters
    then violation_text rdram_base (get_or e.information 0 0) (get_or e.information 1 0)
    else []

unfoldable pub dump_seh : Option ℕ → Option Fault → Bytes
unfolding access_text decimal
dump_seh rdram_base none = codes "  \"seh\": null,\n"
dump_seh rdram_base (some e) =
    codes "  \"seh\": {\n    \"code\": "
    ++ decimal e.code
    ++ codes ",\n    \"address\": "
    ++ decimal e.address
    ++ codes ",\n"
    ++ access_text rdram_base e
    ++ codes "    \"_end\": true\n  },\n"

-- What the report is made from: the state of the program and the answers of the libraries.
pub record Facts : Type 0 where
  pub rdram : Option Rdram
  pub rdram_base : Option ℕ
  pub counters : Counters
  pub dbg : Dbg
  pub trace : Trace
  pub ultra : UltraTrace
  pub mesg : EventLog MesgEvent
  pub sp_task : EventLog SpTaskEvent
  pub interp : InterpProbe
  pub interp_cf : EventLog InterpCfEvent
  pub rings : AudioRings
  pub caller : Caller
  pub snapshot : Option (List HostThread)
  pub windows : Windows
  pub timestamp : Bytes

-- Which of the four files open.
pub record Opens : Type 0 where
  pub report : Bool
  pub display_list : Bool
  pub image : Bool
  pub history : Bool

-- What is written to each.
pub record Files : Type 0 where
  pub report : Option Bytes
  pub display_list : Option (List ℕ)
  pub image : Option (List ℕ)
  pub history : Option Bytes

unfoldable pub reason_text : Option Bytes → Bytes
reason_text none = codes "unknown"
reason_text (some reason) = reason

unfoldable pub report_text : Facts → Option Bytes → Option Fault → Bytes
unfolding reason_text
report_text s reason fault =
    codes "{\n  \"reason\": \""
    ++ reason_text reason
    ++ codes "\",\n  \"timestamp\": \""
    ++ s.timestamp
    ++ codes "\",\n"
    ++ dump_seh s.rdram_base fault
    ++ dump_status s.counters s.dbg
    ++ dump_hardware_state s.rdram
    ++ dump_trace s.trace 256
    ++ dump_libultra s.ultra 128
    ++ dump_mesg s.mesg 256
    ++ dump_sp_task s.sp_task 4096
    ++ dump_interp_probe s.interp
    ++ dump_interp_cf s.interp_cf
    ++ dump_audio_rings s.rings
    ++ (dump_all_threads s.caller s.snapshot s.windows).0
    ++ codes "  \"_end\": true\n}\n"

-- Nothing at all is written unless the report's file opens. The walk of the threads leaves the
-- second part.
unfoldable pub post_mortem_dump : Facts → Option Bytes → Option Fault → Opens → Files × Windows
unfolding report_text
post_mortem_dump s reason fault opens =
    if opens.report
    then (
      record {
        report = some (report_text s reason fault);
        display_list = (dump_last_gfx_dl s.sp_task s.rdram opens.display_list).file;
        image = dump_full_rdram s.rdram opens.image;
        history = if opens.history then some (dump_input_history_json s.dbg) else none;
      },
      (dump_all_threads s.caller s.snapshot s.windows).1,
    )
    else (record { report = none; display_list = none; image = none; history = none }, s.windows)
