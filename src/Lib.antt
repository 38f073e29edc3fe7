-- ===== src/Lib.antt =====
-- The native host of the Pokemon Stadium recompilation: what its own code does around the recompiled
-- game. The game, RT64, librecomp, ultramodern, SDL and the Ares bridge are other projects; what the
-- host asks of them is a parameter of the definitions that use it.
--
-- The parts, and the files that model them:
--   DebugServer   src/main/debug_server.cpp: the TCP server. State holds its globals, Json the field
--                 extraction, Input and History the pad override and its event ring, Queries,
--                 Memory, Events, Ultra, Reports and Oracle (with Oracle/Trace) the other commands,
--                 Dispatch the ladder of `handle_command`, Lines the framing of `server_loop`,
--                 Server its loop over the clients, `start` and `shutdown`.
--                 Dispatch/Session follows a list of commands, Server/Recorded the server's whole life.
--   Extras        extras.c, the hooks that the recompiled game calls. Trace is the function trace, which
--                 the server reports; Args, Calls and Loaders the saved arguments of nested calls;
--                 Memmap the replaced answer of `Memmap_GetFragmentVaddr`; Watch, Chain, Wavetable,
--                 Snapshots and Firsts the event rings and logs; Voices and Pool the hooks that write
--                 to the game's memory; Waits the replaced busy-wait; Probes and Throttles the
--                 diagnostics that print now and then; Backtraces the host backtraces beside some of
--                 them; Aborts what ends the process.
--   AresWorker    src/main/ares_worker.cpp: the job queue behind which the server's Ares commands run; in
--                 Dispatch the calls of include/ares_worker.h, each with its promise.
--   Renderer      src/main/rt64_render_context.cpp: settings, task counters, resolution scale, and in
--                 Setup the constructor. `send_dl` and `update_screen` write the counters that the
--                 server's `status` reports.
--   Runner        src/main/main.cpp: the start-up in Boot, which calls the parts in their order; the
--                 choice of the ROM, the polled input, which or-s in the server's pad, the gamepad
--                 and the window, the audio, the fast-forward, and the crash filter.
--   AspmainHook   src/main/rsp_aspmain_hook.cpp: the set-up before an audio task of the RSP, and
--                 in Opcodes what it prints.
--   PostMortem    src/main/post_mortem.cpp: the report and its sections, and the files beside it.
--   Threads       the walks of the process's threads: Json for the report of post_mortem.cpp, Log for
--                 the command of debug_server.cpp. The crash filter shows its frames in the same way.
--   Ring          the ring buffer of the input history and of the trace, and the window that it holds.
--   Rdram         the N64's memory image in the recompiler's byte order.
--   Libc          `atoi`, `strtoul` and the printf conversions that the host uses.
--   Prelude       tests, lists, integers, bits and texts over the native numbers.
--   Examples      the theorems at concrete inputs.
--
-- Conventions. Texts are lists of byte codes. A C `int` is an ℤ over the native numbers, an unsigned
-- integer a native number with its wrap-around written out. Floats are kept as bit patterns or as a
-- type with the operations used. `snprintf` cuts at its buffer's size. What the libraries and the
-- system answer while one command runs is one record, `Host`. The worker's threads are a sequence
-- of events, so that a theorem about all sequences is one about all interleavings. What Windows,
-- Winsock, SDL and RT64 answer is a parameter, and so is a flag each time that it is read.
--
-- Bounds. `drain` has fuel one above the length of its buffer, and each round takes at least one byte
-- off it. `wait` has the fuel that its caller gives, and returns when the predicate holds before it is
-- used up. Counters of 64 bits wrap; the theorems about a ring ask for fewer than 2^64 events.
-- The `static int` counters and depths of the hooks are unbounded here.
--
-- Not modelled: the registration of the generated overlay table; the register blocks that the render
-- context hands to RT64; most of the text of the hooks' lines on stderr; the generated RSP microcode;
-- and the tools.
pub mod Prelude
pub mod Ring
pub mod Rdram
pub mod Libc
pub mod DebugServer
pub mod AresWorker
pub mod Renderer
pub mod Runner
pub mod AspmainHook
pub mod Threads
pub mod PostMortem
pub mod Extras
pub mod Examples
