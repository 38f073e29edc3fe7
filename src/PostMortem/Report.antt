-- ===== src/PostMortem/Report.antt =====
-- The sections of the post-mortem report in post_mortem.cpp that copy counters and event logs, and the
-- image of the memory that is written beside it. The file is a text; `fprintf` does not cut.
pub mod Image
use pokemon_stadium_recomp.Prelude.{
  ℕ, zero, suc, ◌+◌, ◌-◌, ◌*◌, ◌/◌, ◌%◌, ◌^◌, Bool, true, false, List, [], ◌∷◌, ◌++◌, Option, none,
  some, ◌==◌, if◌then◌else◌, bit_and,
}
use pokemon_stadium_recomp.Prelude.Text.{Bytes, codes}
use pokemon_stadium_recomp.Libc.Print.{decimal}
use pokemon_stadium_recomp.Rdram.{Rdram, load_bytes}
use pokemon_stadium_recomp.Extras.Trace.{Trace, trace_ring_cap}
use pokemon_stadium_recomp.DebugServer.State.{Dbg}
use pokemon_stadium_recomp.DebugServer.Render.{available}
use pokemon_stadium_recomp.DebugServer.Queries.{Counters, trace_names}
use pokemon_stadium_recomp.DebugServer.Events.{
  EventLog, MesgEvent, mesg_event_size, mesg_fields, SpTaskEvent, sp_task_event_size,
  sp_task_fields,
}
use pokemon_stadium_recomp.DebugServer.Ultra.{UltraTrace, recent_slice, ultra_fields}
use pokemon_stadium_recomp.PostMortem.Rings.{joined, keyed}

-- `    "name": value`
abbrev line : Bytes → ℕ → Bytes
line name value = codes "    \"" ++ name ++ codes "\": " ++ decimal value

abbrev line_more : Bytes → ℕ → Bytes
line_more name value = line name value ++ codes ",\n"

unfoldable pub dump_status : Counters → Dbg → Bytes
unfolding decimal
dump_status rt s =
    codes "  \"status\": {\n"
    ++ line_more (codes "frame") s.frame_count
    ++ line_more (codes "vi") s.vi_ticks
    ++ line_more (codes "send_dl") s.send_dl_count
    ++ line_more (codes "send_dl_gfx") s.send_dl_gfx_count
    ++ line_more (codes "send_dl_audio") s.send_dl_audio_count
    ++ line_more (codes "send_dl_other") s.send_dl_other_count
    ++ line_more (codes "update_screen") s.update_screen_count
    ++ line_more (codes "submit_gfx") rt.submit_gfx
    ++ line_more (codes "submit_audio") rt.submit_audio
    ++ line_more (codes "submit_other") rt.submit_other
    ++ line_more (codes "sp_complete") rt.sp_complete
    ++ line_more (codes "dp_complete") rt.dp_complete
    ++ line (codes "external_requeues") rt.external_requeues
    ++ codes "\n  },\n"

-- `name ? name : "?"`, quoted
unfoldable pub quoted_name : Option Bytes → Bytes
quoted_name none = codes "\"?\""
quoted_name (some name) = codes "\"" ++ name ++ codes "\""

unfoldable pub dump_trace : Trace → ℕ → Bytes
unfolding available trace_names quoted_name joined decimal
dump_trace t n_max =
    let n = available n_max t.ring.seq trace_ring_cap in
    codes "  \"trace_recent\": {\"write_idx\": "
    ++ decimal t.ring.seq
    ++ codes ", \"entries\": ["
    ++ joined quoted_name true (trace_names t.ring n (t.ring.seq - n))
    ++ codes "]},\n"

unfoldable pub dump_libultra : UltraTrace → ℕ → Bytes
unfolding available recent_slice ultra_fields joined decimal
dump_libultra t n_max =
    let n = available n_max t.write_idx t.capacity in
    codes "  \"libultra_recent\": {\"write_idx\": "
    ++ decimal t.write_idx
    ++ codes ", \"events\": ["
    ++ joined ultra_fields true (recent_slice t n (t.write_idx - n))
    ++ codes "]},\n"

-- A log of another library: an error if its records have another size than ours.
unfoldable pub dump_log {ℓ} : {A : Type ℓ} → Bytes → ℕ → ℕ → (A → Bytes) → EventLog A → Bytes
unfolding joined decimal
dump_log key size n_max render log =
    if log.event_size == size
    then codes "  \""
      ++ key
      ++ codes "\": {\"write_idx\": "
      ++ decimal (log.recent_copy n_max).1
      ++ codes ", \"events\": ["
      ++ joined render true (log.recent_copy n_max).0
      ++ codes "]},\n"
    else codes "  \"" ++ key ++ codes "\": {\"error\": \"size_mismatch\"},\n"

unfoldable pub dump_mesg : EventLog MesgEvent → ℕ → Bytes
unfolding dump_log mesg_fields
dump_mesg log n_max = dump_log (codes "mesg_recent") mesg_event_size n_max mesg_fields log

unfoldable pub dump_sp_task : EventLog SpTaskEvent → ℕ → Bytes
unfolding dump_log sp_task_fields
dump_sp_task log n_max =
    dump_log (codes "sp_task_recent") sp_task_event_size n_max sp_task_fields log

-- `InterpCfEvent`, less its padding.
pub record InterpCfEvent : Type 0 where
  pub step : ℕ
  pub pc : ℕ
  pub w0 : ℕ
  pub w1 : ℕ
  pub target_or_pop : ℕ
  pub stack_depth_after : ℕ

-- Three 64-bit and four 32-bit fields.
abbrev pub interp_cf_event_size : ℕ
interp_cf_event_size = 40

unfoldable pub cf_name : ℕ → Bytes
cf_name w0 =
    let op = bit_and (w0 / 2 ^ 24) 0xFF in
    if op == 0xDE then codes "G_DL" else if op == 0xDF then codes "G_ENDDL" else codes "?"

unfoldable pub cf_fields : InterpCfEvent → Bytes
unfolding cf_name decimal
cf_fields e =
    codes "{\"step\":"
    ++ decimal e.step
    ++ keyed (codes "pc") e.pc
    ++ keyed (codes "w0") e.w0
    ++ keyed (codes "w1") e.w1
    ++ keyed (codes "target_or_pop") e.target_or_pop
    ++ codes ",\"op\":\""
    ++ cf_name e.w0
    ++ codes "\""
    ++ keyed (codes "depth") e.stack_depth_after
    ++ codes "}"

unfoldable pub dump_interp_cf : EventLog InterpCfEvent → Bytes
unfolding cf_fields joined decimal
dump_interp_cf log =
    if log.event_size == interp_cf_event_size
    then codes "  \"interp_cf\": {\"seq\": "
      ++ decimal (log.recent_copy 16384).1
      ++ codes ", \"events\": ["
      ++ joined cf_fields true (log.recent_copy 16384).0
      ++ codes "]},\n"
    else codes "  \"interp_cf\": {\"error\": \"size_mismatch\"},\n"

-- What RT64's interpreter answers, with the host's address of the memory.
pub record InterpProbe : Type 0 where
  pub step : ℕ
  pub task_index : ℕ
  pub current_pc : ℕ
  pub dl_start : ℕ
  pub rdram_host_base : ℕ
  pub recent_copy : ℕ → List ℕ × ℕ

unfoldable pub dump_interp_probe : InterpProbe → Bytes
unfolding joined decimal
dump_interp_probe p =
    codes "  \"interp_probe\": {\n"
    ++ line_more (codes "seq") (p.recent_copy 1024).1
    ++ line_more (codes "step") p.step
    ++ line_more (codes "task_index") p.task_index
    ++ line_more (codes "current_pc") p.current_pc
    ++ line_more (codes "dl_start") p.dl_start
    ++ line_more (codes "rdram_host_base") p.rdram_host_base
    ++ codes "    \"recent_pcs\": ["
    ++ joined decimal true (p.recent_copy 1024).0
    ++ codes "]\n  },\n"

-- The image in chunks of `size` bytes: `n` of them from `base` on.
unfoldable pub rdram_chunks : Rdram → ℕ → ℕ → ℕ → List ℕ
rdram_chunks m size zero base = []
rdram_chunks m size (suc n) base = load_bytes m base size ++ rdram_chunks m size n (base + size)

-- 8 MiB are 128 chunks. Nothing is written without memory or when the file does not open.
unfoldable pub dump_full_rdram : Option Rdram → Bool → Option (List ℕ)
unfolding rdram_chunks
dump_full_rdram none opens = none
dump_full_rdram (some m) opens = if opens then some (rdram_chunks m 0x10000 0x80 0) else none
