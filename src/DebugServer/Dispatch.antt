-- ===== src/DebugServer/Dispatch.antt =====
-- `handle_command`: which command a line names, and the ladder of all of them.
pub mod Replayed
pub mod Session
use pokemon_stadium_recomp.Prelude.{
  ℕ, zero, suc, ◌+◌, ◌-◌, ◌*◌, ◌%◌, ◌^◌, ◌<◌, ◌≡◌, refl, arith, Bool, true, false, List, [], ◌∷◌,
  ◌++◌, Option, none, some, length, get_or, bit_and, ltb, leb, ◌==◌, if◌then◌else◌, not, ◌||◌, ◌&&◌,
  min, take,
}
use pokemon_stadium_recomp.Prelude.Int.{ℤ, pos, pos_part}
use pokemon_stadium_recomp.Prelude.Text.{Bytes, codes, snprintf}
use pokemon_stadium_recomp.Libc.Print.{decimal, decimal_int}
use pokemon_stadium_recomp.DebugServer.Json.{get_str, get_int, get_uint, get_bool}
use pokemon_stadium_recomp.DebugServer.Render.{items, bool_text, clamp_count, available}
use mathlib.Core.List.{reverse}
use pokemon_stadium_recomp.Prelude.Text.{equal}
use pokemon_stadium_recomp.Rdram.{Rdram}
use pokemon_stadium_recomp.Extras.Trace.{Trace}
use pokemon_stadium_recomp.DebugServer.State.{Dbg, Clock}
use pokemon_stadium_recomp.DebugServer.Input.{
  ok_reply, set_button, set_stick, clear_input, claim_input,
}
use pokemon_stadium_recomp.DebugServer.History.{input_history}
use pokemon_stadium_recomp.Extras.Firsts.{ResolverEntry}
use pokemon_stadium_recomp.DebugServer.Queries.{
  Counters, status, interesting_fns_reply, resolver_log, FloatOps, set_volume, fast_forward,
  enable_instant_present, trace_recent,
}
use pokemon_stadium_recomp.DebugServer.Memory.{rdram_peek, rdram_scan_u32}
use pokemon_stadium_recomp.DebugServer.Events.{
  EventLog, MesgEvent, SpTaskEvent, mesg_recent, sp_task_recent,
}
use pokemon_stadium_recomp.DebugServer.Ultra.{UltraTrace, libultra_recent, libultra_boot}
use pokemon_stadium_recomp.DebugServer.Oracle.{
  Ares, ares_status, ares_init_oracle, ares_reset_oracle, ares_step_frame,
  ares_rsp_trace_set_enabled,
}
use pokemon_stadium_recomp.DebugServer.Oracle.Trace.{
  ares_rsp_trace_recent, ares_rsp_trace_boot, ares_rsp_trace_at_pc,
}
use pokemon_stadium_recomp.DebugServer.Reports.{
  PcTrail, DumpResult, get_last_pc_trail, rt64_segments, dump_current_dl, tail_errlog,
}
use pokemon_stadium_recomp.PostMortem.Current.{psr_dump_current_dl}
use pokemon_stadium_recomp.Threads.{HostThread, Windows}
use pokemon_stadium_recomp.Threads.Log.{dump_threads}

-- What the rest of the process, the libraries and the system answer while one command runs.
pub record Host (St : Type 0) : Type 0 where
  pub now : Clock
  pub counters : Counters
  pub functions : Trace
  pub resolved : List ResolverEntry
  pub floats : FloatOps
  pub mesg : EventLog MesgEvent
  pub sp_task : EventLog SpTaskEvent
  pub ultra : UltraTrace
  pub rdram : Option Rdram
  pub ares : Ares St
  pub pc_trail : Option PcTrail
  pub segments : List ℕ × ℕ
  pub dump_opens : Bytes → Bool
  pub errlog : Option Bytes
  pub log_opens : Bool
  pub pid : ℕ
  pub self_tid : ℕ
  pub threads : Option (List HostThread)
  pub windows : Windows

-- The state that commands change: the globals, and the oracle behind its worker.
pub record World (St : Type 0) : Type 0 where
  pub dbg : Dbg
  pub oracle : St

-- `while (!bare.empty() && ...) bare.pop_back();`, on the line read from its end.
drop_ends : Bytes → Bytes
drop_ends [] = []
drop_ends (c ∷ s) = if c == b'\n' || c == b'\r' || c == b' ' then drop_ends s else c ∷ s

unfoldable pub command_name : Bytes → Bytes
unfolding drop_ends
command_name line = elim (get_str line (codes "cmd")) [
  | [] ↦ reverse (drop_ends (reverse line))
  | c ∷ cmd ↦ c ∷ cmd
]

-- A command that only reads.
abbrev pub reply : {St : Type 0} → World St → Bytes → Option (Bytes × World St)
reply w resp = some (resp, w)

-- A command on the globals, and one on the oracle.
abbrev pub on_dbg : {St : Type 0} → World St → Bytes × Dbg → Option (Bytes × World St)
on_dbg w r = some (r.0, record w { dbg = r.1 })

abbrev pub on_oracle : {St : Type 0} → World St → Bytes × St → Option (Bytes × World St)
on_oracle w r = some (r.0, record w { oracle = r.1 })

unfoldable pub dump_threads_reply : Option ℕ → Bytes
unfolding decimal
dump_threads_reply none = codes "{\"ok\":false,\"error\":\"could not open log\"}"
dump_threads_reply (some n) =
    snprintf 64 (codes "{\"ok\":true,\"threads\":" ++ decimal n ++ codes "}")

-- `psr_dump_current_dl(path)` on the log and the memory at that time.
unfoldable pub dumped : {St : Type 0} → Host St → Bytes → DumpResult
unfolding psr_dump_current_dl
dumped h path = (psr_dump_current_dl h.sp_task h.rdram (h.dump_opens path)).1

-- The number of threads that `dump_threads` has written, if the log opens.
unfoldable pub threads_written : {St : Type 0} → Host St → Option ℕ
unfolding dump_threads
threads_written h =
    if h.log_opens then some (dump_threads h.pid h.self_tid h.threads h.windows).1 else none

-- The second half of the ladder: the oracle, the late reports, `quit` and what is not a command.
unfoldable pub late_command :
    {St : Type 0} → Host St → Bytes → Bytes → World St → Option (Bytes × World St)
unfolding equal
late_command h cmd line w =
    if equal cmd (codes "ares_status")
    then reply w (ares_status h.ares w.oracle)
    else if equal cmd (codes "ares_init_oracle")
    then on_oracle w (ares_init_oracle h.ares line w.oracle)
    else if equal cmd (codes "ares_reset_oracle")
    then on_oracle w (ares_reset_oracle h.ares w.oracle)
    else if equal cmd (codes "ares_step_frame")
    then on_oracle w (ares_step_frame h.ares line w.oracle)
    else if equal cmd (codes "ares_rsp_trace_recent")
    then reply w (ares_rsp_trace_recent h.ares line w.oracle)
    else if equal cmd (codes "ares_rsp_trace_boot")
    then reply w (ares_rsp_trace_boot h.ares line w.oracle)
    else if equal cmd (codes "ares_rsp_trace_at_pc")
    then reply w (ares_rsp_trace_at_pc h.ares line w.oracle)
    else if equal cmd (codes "ares_rsp_trace_set_enabled")
    then on_oracle w (ares_rsp_trace_set_enabled h.ares line w.oracle)
    else if equal cmd (codes "get_last_pc_trail")
    then reply w (get_last_pc_trail h.pc_trail)
    else if equal cmd (codes "rt64_segments")
    then reply w (rt64_segments h.segments)
    else if equal cmd (codes "dump_current_dl")
    then reply w (dump_current_dl (dumped h) line)
    else if equal cmd (codes "tail_errlog")
    then reply w (tail_errlog h.errlog)
    else if equal cmd (codes "dump_threads")
    then reply w (dump_threads_reply (threads_written h))
    else if equal cmd (codes "quit")
    then none
    else reply w (codes "{\"ok\":false,\"error\":\"unknown command\"}")

unfoldable pub run_command :
    {St : Type 0} → Host St → Bytes → Bytes → World St → Option (Bytes × World St)
unfolding equal late_command
run_command h cmd line w =
    if equal cmd (codes "ping")
    then reply w (codes "{\"ok\":true,\"pong\":true}")
    else if equal cmd (codes "status")
    then reply w (status h.counters w.dbg)
    else if equal cmd (codes "set_button")
    then on_dbg w (set_button h.now line w.dbg)
    else if equal cmd (codes "set_stick")
    then on_dbg w (set_stick h.now line w.dbg)
    else if equal cmd (codes "clear_input")
    then on_dbg w (clear_input h.now w.dbg)
    else if equal cmd (codes "input_history")
    then reply w (input_history w.dbg)
    else if equal cmd (codes "interesting_fns")
    then reply w (interesting_fns_reply h.functions)
    else if equal cmd (codes "resolver_log")
    then reply w (resolver_log h.resolved)
    else if equal cmd (codes "set_volume")
    then on_dbg w (set_volume h.floats line w.dbg)
    else if equal cmd (codes "claim_input")
    then on_dbg w (claim_input h.now w.dbg)
    else if equal cmd (codes "fast_forward")
    then on_dbg w (fast_forward line w.dbg)
    else if equal cmd (codes "enable_instant_present")
    then on_dbg w (enable_instant_present w.dbg)
    else if equal cmd (codes "trace_recent")
    then reply w (trace_recent line h.functions)
    else if equal cmd (codes "post_mortem_dump")
    then reply w (codes "{\"ok\":true,\"path\":\"build/last_run_report.json\"}")
    else if equal cmd (codes "mesg_recent")
    then reply w (mesg_recent h.mesg line)
    else if equal cmd (codes "sp_task_recent")
    then reply w (sp_task_recent h.sp_task line)
    else if equal cmd (codes "libultra_recent")
    then reply w (libultra_recent h.ultra line)
    else if equal cmd (codes "libultra_boot")
    then reply w (libultra_boot h.ultra line)
    else if equal cmd (codes "rdram_peek")
    then reply w (rdram_peek h.rdram line)
    else if equal cmd (codes "rdram_scan_u32")
    then reply w (rdram_scan_u32 h.rdram line)
    else late_command h cmd line w

-- The response and the new state; `none` when the command ends the process.
unfoldable pub handle_command :
    {St : Type 0} → Host St → Bytes → World St → Option (Bytes × World St)
unfolding run_command
handle_command h line w = run_command h (command_name line) line w
