-- ===== src/DebugServer/Oracle/Trace.antt =====
-- The three queries of the oracle's RSP trace: `ares_rsp_trace_recent`, `ares_rsp_trace_boot` and
-- `ares_rsp_trace_at_pc`, with the rendering that they share.
use pokemon_stadium_recomp.Prelude.{
  ℕ, zero, suc, ◌+◌, ◌-◌, ◌%◌, ◌^◌, Bool, true, false, List, [], ◌∷◌, ◌++◌, Option, none, some,
  bit_and, leb, ◌==◌, if◌then◌else◌, min, take,
}
use pokemon_stadium_recomp.Prelude.Int.{pos, pos_part}
use pokemon_stadium_recomp.Prelude.Text.{Bytes, codes, snprintf}
use pokemon_stadium_recomp.Libc.Print.{decimal}
use pokemon_stadium_recomp.DebugServer.Json.{get_int, get_uint}
use pokemon_stadium_recomp.DebugServer.Render.{items, clamp_count}
use mathlib.Core.List.{reverse}
use pokemon_stadium_recomp.DebugServer.Oracle.{Ares, RspEvent}

-- `if (get(idx, &ev)) events.push_back(ev)`
keep : Option RspEvent → List RspEvent → List RspEvent
keep none evs = evs
keep (some ev) evs = ev ∷ evs

-- `n` entries of the ring from `idx` on, those that are still there.
unfoldable pub recent_events : {St : Type 0} → Ares St → St → ℕ → ℕ → List RspEvent
unfolding keep
recent_events ares s zero idx = []
recent_events ares s (suc n) idx = keep (ares.trace_get idx s) (recent_events ares s n (idx + 1))

-- The slice of the boot snapshot, with its break at the snapshot's end.
unfoldable pub boot_events : {St : Type 0} → Ares St → St → ℕ → ℕ → ℕ → List RspEvent
unfolding keep
boot_events ares s zero start i = []
boot_events ares s (suc n) start i =
    let place = (start + i) % 2 ^ 32 in
    let rest = keep (ares.boot_get place s) (boot_events ares s n start (i + 1)) in
    if leb (ares.boot_count s) place then [] else rest

-- The backward scan: `i` is the loop's index, `cap` the scans left, `room` the events still wanted.
-- The list is newest first.
unfoldable pub scan_back : {St : Type 0} → Ares St → St → ℕ → ℕ → ℕ → ℕ → List RspEvent
scan_back ares s want zero cap room = []
scan_back ares s want (suc i) zero room = []
scan_back ares s want (suc i) (suc cap) zero = []
scan_back ares s want (suc i) (suc cap) (suc room) =
    let hit = scan_back ares s want i cap room in
    let miss = scan_back ares s want i cap (suc room) in
    elim (ares.trace_get i s) [
      | none ↦ []
      | some ev ↦ if bit_and ev.pc 0xFFF == want then ev ∷ hit else miss
    ]

unfoldable pub events_at_pc : {St : Type 0} → Ares St → St → ℕ → ℕ → List RspEvent
unfolding scan_back
events_at_pc ares s pc n =
    reverse (scan_back ares s (bit_and pc 0xFFF) (ares.trace_count s) 65536 n)

-- The registers, without their closing bracket.
gprs : Bool → List ℕ → Bytes
unfolding items decimal
gprs first regs = items 16 decimal first regs

unfoldable pub rsp_event_text : Bool → RspEvent → Bytes
unfolding gprs decimal
rsp_event_text first ev =
    snprintf 1024 (
      (if first then [] else codes ",")
      ++ codes "{\"seq\":"
      ++ decimal ev.seq
      ++ codes ",\"pc\":"
      ++ decimal ev.pc
      ++ codes ",\"dma_mem_addr\":"
      ++ decimal ev.dma_mem_addr
      ++ codes ",\"dma_dram_addr\":"
      ++ decimal ev.dma_dram_addr
      ++ codes ",\"dma_rd_len\":"
      ++ decimal ev.dma_rd_len
      ++ codes ",\"dma_wr_len\":"
      ++ decimal ev.dma_wr_len
      ++ codes ",\"status\":"
      ++ decimal ev.status
      ++ codes ",\"gpr\":[")
    ++ gprs true (take 32 ev.gpr)
    ++ codes "]}"

unfoldable pub rsp_events_text : Bool → List RspEvent → Bytes
unfolding rsp_event_text
rsp_events_text first [] = []
rsp_events_text first (ev ∷ evs) = rsp_event_text first ev ++ rsp_events_text false evs

trace_reply : {St : Type 0} → Ares St → St → List RspEvent → Bytes
unfolding rsp_events_text decimal
trace_reply ares s evs =
    codes "{\"ok\":true,\"trace_count\":"
    ++ decimal (ares.trace_count s)
    ++ codes ",\"events\":["
    ++ rsp_events_text true evs
    ++ codes "]}"

abbrev entries_asked : Bytes → ℕ
entries_asked line = clamp_count 1024 (get_int line (codes "n") (pos 32))

unfoldable pub ares_rsp_trace_recent : {St : Type 0} → Ares St → Bytes → St → Bytes
unfolding recent_events trace_reply clamp_count
ares_rsp_trace_recent ares line s =
    let total = ares.trace_count s in
    let n = min (entries_asked line) total in
    trace_reply ares s (recent_events ares s n (total - n))

unfoldable pub ares_rsp_trace_boot : {St : Type 0} → Ares St → Bytes → St → Bytes
unfolding boot_events trace_reply clamp_count
ares_rsp_trace_boot ares line s =
    let start = pos_part (get_int line (codes "start") (pos 0)) in
    trace_reply ares s (boot_events ares s (entries_asked line) start 0)

unfoldable pub ares_rsp_trace_at_pc : {St : Type 0} → Ares St → Bytes → St → Bytes
unfolding events_at_pc trace_reply clamp_count
ares_rsp_trace_at_pc ares line s =
    trace_reply ares s (events_at_pc ares s (get_uint line (codes "pc") 0) (entries_asked line))
