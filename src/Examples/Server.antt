-- ===== src/Examples/Server.antt =====
-- The debug server's theorems at concrete inputs.
use pokemon_stadium_recomp.Prelude.{
  ℕ, ◌+◌, ◌-◌, ◌*◌, ◌%◌, ◌^◌, ◌≤◌, ◌<◌, ◌≡◌, refl, arith, true, List, [], ◌∷◌, ◌++◌, none, some,
  length, take, drop, bit_and, ltb, if◌then◌else◌, ◌==◌,
}
use mathlib.Core.List.{reverse}
use pokemon_stadium_recomp.Prelude.Int.{pos, negsuc}
use pokemon_stadium_recomp.Prelude.Text.{Bytes, codes, equal, find, find_from, starts_with}
use pokemon_stadium_recomp.Ring.{push}
use pokemon_stadium_recomp.Ring.Window.{Holds, init-Holds}
use pokemon_stadium_recomp.Rdram.{Rdram, load8, load_be32}
use pokemon_stadium_recomp.Extras.Trace.{
  initial as empty_trace, trace_ring_cap, interesting_fn_count,
}
use pokemon_stadium_recomp.Extras.Trace.Counts.{
  Hook, entry, exit, run, entries, run-Holds, run-count,
}
use pokemon_stadium_recomp.DebugServer.State.{input_history_cap, idle_pad, initial}
use pokemon_stadium_recomp.DebugServer.Json.{get_str, value_of}
use pokemon_stadium_recomp.DebugServer.Input.{
  ok_reply, button_bit, record_input_event, set_button, set_stick,
}
use pokemon_stadium_recomp.DebugServer.History.{history_window}
use pokemon_stadium_recomp.DebugServer.Queries.{FloatOps, trace_window}
use pokemon_stadium_recomp.DebugServer.Queries.Recent.{trace_window-eq-drop, asked}
use pokemon_stadium_recomp.DebugServer.Memory.{peek, scan_hits}
use pokemon_stadium_recomp.DebugServer.Memory.Hits.{Listed, scan_hits_lem, peek_lem}
use pokemon_stadium_recomp.DebugServer.Memory.Reads.{Peeked}
use pokemon_stadium_recomp.DebugServer.Ultra.{UltraEvent, UltraTrace}
use pokemon_stadium_recomp.DebugServer.Oracle.{Ares, step_frames}
use pokemon_stadium_recomp.DebugServer.Oracle.Runs.{
  Outcome, step_frames_lem, at_pc, events_at_pc-eq-reverse,
}
use pokemon_stadium_recomp.DebugServer.Oracle.Trace.{events_at_pc}
use pokemon_stadium_recomp.DebugServer.Dispatch.{
  Host, World, handle_command, run_command, command_name, late_command,
}
use pokemon_stadium_recomp.DebugServer.Dispatch.Replayed.{Kept, handle_command-Kept}
use pokemon_stadium_recomp.DebugServer.Dispatch.Session.{replay}
use pokemon_stadium_recomp.DebugServer.Lines.{newline, drain, receive}
use pokemon_stadium_recomp.DebugServer.Server.{
  Passage, stopped, accepted, refused, serving, serve_client, hang_up, answer_client, accept_loop,
}
use pokemon_stadium_recomp.DebugServer.Server.Recorded.{answer_line, accept_loop-replay}
use pokemon_stadium_recomp.DebugServer.Server.Clients.{
  conversations, converse, accept_loop-eq-converse,
}

-- An oracle that counts its frames, and whose third frame fails.
abbrev oracle : Ares ℕ
oracle = record {
  bridge_ok = pos 0;
  already_initialized = pos 1;
  is_real = pos 1;
  version = none;
  init = λ rom n. (pos 0, n);
  reset = λ n. (pos 0, 0);
  step_frame = λ n. (if n == 2 then negsuc 0 else pos 0, n + 1);
  trace_count = λ n. 3;
  trace_get = λ i n. some (record {
    seq = i;
    pc = 0x1000 + 4 * i;
    dma_mem_addr = 0;
    dma_dram_addr = 0;
    dma_rd_len = 0;
    dma_wr_len = 0;
    status = 0;
    gpr = [];
  });
  boot_count = λ n. 0;
  boot_get = λ i n. none;
  is_enabled = λ n. pos 1;
  set_enabled = λ on n. n;
}

abbrev floats : FloatOps
floats = record { parse = λ s. 0; less = ltb; zero_float = 0; one_float = 1000; text3 = λ v. [] }

abbrev no_call : UltraEvent
no_call = record { name = []; pc = 0; a0 = 0; a1 = 0; a2 = 0; a3 = 0; ms = 0 }

abbrev calls : UltraTrace
calls = record {
  write_idx = 5;
  capacity = 4096;
  get = λ i. (true, no_call);
  boot_count = 5;
  boot_capacity = 4096;
  boot_get = λ i. (true, no_call);
}

abbrev host : Host ℕ
host = record {
  now = record { first = 100; second = 105 };
  counters = record {
    external_requeues = 0;
    submit_gfx = 0;
    submit_audio = 0;
    submit_other = 0;
    sp_complete = 0;
    dp_complete = 0;
  };
  functions = record { ring = record { slots = []; seq = 0 }; counts = [] };
  resolved = [];
  floats = floats;
  mesg = record { event_size = 32; recent_copy = λ n. ([], 0) };
  sp_task = record { event_size = 72; recent_copy = λ n. ([], 0) };
  ultra = calls;
  rdram = none;
  ares = oracle;
  pc_trail = none;
  segments = ([], 0);
  dump_opens = λ path. true;
  errlog = none;
  log_opens = true;
  pid = 1;
  self_tid = 2;
  threads = none;
  windows = record { suspended = λ t. 0; handles = 0 };
}

abbrev press_a : Bytes
press_a = codes "{\"cmd\":\"set_button\",\"name\":\"A\"}"

abbrev push_stick : Bytes
push_stick = codes "{\"cmd\":\"set_stick\",\"x\":80,\"y\":-7}"

abbrev fresh : World ℕ
fresh = record { dbg = initial; oracle = 0 }

handle_command-Kept_example : Kept fresh (handle_command host press_a fresh)
handle_command-Kept_example = handle_command-Kept host press_a fresh

-- Behind the two commands.
abbrev after_two : World ℕ
after_two = record fresh {
  dbg = (set_stick host.now push_stick (set_button host.now press_a initial).1).1;
}

recorded : after_two.dbg.history.seq ≤ input_history_cap
unfolding set_stick set_button record_input_event push initial button_bit get_str equal value_of
    find_from find starts_with
recorded = omega arith

-- The first command in two pieces, the second by the next client, which leaves a third unfinished.
abbrev two_visits : List Passage
two_visits =
    accepted ((true, take 9 press_a) ∷ (true, drop 9 press_a ++ b'\n' ∷ []) ∷ [])
    ∷ accepted ((true, push_stick ++ (b'\n' ∷ press_a)) ∷ [])
    ∷ stopped
    ∷ []

visited :
    accept_loop (answer_line (λ n. host)) two_visits (serving [] (fresh, 0))
    ≡ serving ((ok_reply ++ newline) ∷ (ok_reply ++ newline) ∷ []) (after_two, 2)
unfolding accept_loop answer_client serve_client hang_up receive drain answer_line handle_command
    command_name run_command late_command equal get_str value_of find_from find starts_with
    set_button set_stick button_bit
visited = refl

accept_loop-replay_example :
    replay (history_window after_two.dbg.history) idle_pad ≡ after_two.dbg.pad
accept_loop-replay_example =
    accept_loop-replay (λ n. host) two_visits 0 ((ok_reply ++ newline) ∷ (ok_reply ++ newline) ∷ [])
      after_two 2 visited (omega arith) recorded

-- A client that asks in two pieces and leaves a line unfinished, then one that asks once.
abbrev visits : List Passage
visits =
    accepted ((true, take 9 press_a) ∷ (true, drop 9 press_a ++ (b'\n' ∷ press_a)) ∷ [])
    ∷ refused true
    ∷ accepted ((true, press_a ++ b'\n' ∷ []) ∷ [])
    ∷ []

accept_loop-eq-converse_example :
    accept_loop (handle_command host) visits (serving [] fresh)
    ≡ converse (handle_command host) (conversations visits) (serving [] fresh)
accept_loop-eq-converse_example =
    accept_loop-eq-converse (handle_command host) visits (serving [] fresh)

step_frames_lem_example : Outcome oracle 5 0 0 (step_frames oracle 5 0 (pos 0) 0)
step_frames_lem_example = step_frames_lem oracle 5 0

events_at_pc-eq-reverse_example :
    events_at_pc oracle 0 0x1004 2
    ≡ reverse (take 2 (at_pc oracle 0 (bit_and 0x1004 0xFFF) 3 65536))
events_at_pc-eq-reverse_example = events_at_pc-eq-reverse oracle 0 0x1004 2

-- A memory of zeroed bytes but for one word, 0x01020304 at 0x10.
abbrev memory : Rdram
memory p =
    if p == 0x13
    then 1
    else if p == 0x12
    then 2
    else if p == 0x11
    then 3
    else if p == 0x10
    then 4
    else 0

-- The scan from there on, which is the end of what the search commands run.
word_found : load_be32 memory 0x10 ≡ 0x01020304
unfolding load_be32 load8
word_found = refl

peek_lem_example :
    Peeked
      (some memory)
      0x80000010
      (0x80000010 % 2 ^ 29)
      (asked 256 (pos 4))
      (peek (some memory) 0x80000010 (pos 4))
peek_lem_example = peek_lem (some memory) 0x80000010 (pos 4)

-- Every word is zero, and the limit lies just above their number.
abbrev zeroes : Rdram
zeroes p = 0

scan_hits_lem_example :
    ((a : ℕ)
      → Listed a (scan_hits zeroes 0 0x200001)
      → (k : ℕ) × (k < 0x200000)
        × (a ≡ 0x80000000 + 0 + 4 * k)
        × (load_be32 zeroes (0 + 4 * k) ≡ 0))
    × (length (scan_hits zeroes 0 0x200001) < 0x200001
        → (k : ℕ) → k < 0x200000
        → load_be32 zeroes (0 + 4 * k) ≡ 0
        → Listed (0x80000000 + 0 + 4 * k) (scan_hits zeroes 0 0x200001))
scan_hits_lem_example = scan_hits_lem zeroes 0 0x200001

abbrev hooks : List Hook
hooks =
    entry (codes "main_pool_pop_state")
    ∷ exit (codes "main_pool_pop_state")
    ∷ entry (codes "other")
    ∷ []

no_history : Holds trace_ring_cap none [] empty_trace.ring
unfolding empty_trace
no_history = init-Holds trace_ring_cap none

hooks-Holds :
    Holds trace_ring_cap none
      ([]
        ++ (some (codes "main_pool_pop_state")
            ∷ some (codes "main_pool_pop_state")
            ∷ some (codes "other")
            ∷ []))
      (run hooks empty_trace).ring
hooks-Holds = run-Holds hooks empty_trace (omega arith) no_history

run-count_example :
    interesting_fn_count (run hooks empty_trace) 47
    ≡ interesting_fn_count empty_trace 47 + entries (codes "main_pool_pop_state") hooks
run-count_example =
    run-count hooks empty_trace 47 (omega arith) (unfold empty_trace in refl)
      (unfold empty_trace interesting_fn_count in omega arith)

trace_window-eq-drop_example :
    trace_window (run hooks empty_trace) (pos 2)
    ≡ drop (3 - asked 512 (pos 2)) (
        some (codes "main_pool_pop_state")
        ∷ some (codes "main_pool_pop_state")
        ∷ some (codes "other")
        ∷ [])
trace_window-eq-drop_example = trace_window-eq-drop _ (run hooks empty_trace) (pos 2) hooks-Holds
