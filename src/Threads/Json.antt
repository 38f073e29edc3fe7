-- ===== src/Threads/Json.antt =====
-- The `threads` section of the post-mortem report.
pub mod Escape
use pokemon_stadium_recomp.Prelude.{
  ℕ, zero, suc, ◌+◌, Bool, true, false, not, List, [], ◌∷◌, ◌++◌, Option, none, some, ◌==◌,
  if◌then◌else◌,
}
use pokemon_stadium_recomp.Prelude.Text.{Bytes, codes}
use pokemon_stadium_recomp.Libc.Print.{decimal}
use pokemon_stadium_recomp.Threads.{
  Frame, Context, HostThread, Windows, open_handle, close_handle, suspend_thread, resume_thread,
}
use pokemon_stadium_recomp.Threads.Stack.{shown, symbol_text, file_text, line_number}

-- The file's path with its backslashes and quotes escaped.
unfoldable pub esc_file : Bytes → Bytes
esc_file [] = []
esc_file (c ∷ cs) =
    (if c == 0x5C then 0x5C ∷ 0x5C ∷ [] else if c == 0x22 then 0x5C ∷ 0x22 ∷ [] else c ∷ [])
    ++ esc_file cs

unfoldable pub frame_text : ℕ → Frame → Bytes
unfolding symbol_text file_text line_number esc_file decimal
frame_text i f =
    codes "{\"i\":"
    ++ decimal i
    ++ codes ",\"pc\":"
    ++ decimal f.pc
    ++ codes ",\"name\":\""
    ++ symbol_text f
    ++ codes "\",\"file\":\""
    ++ esc_file (file_text f)
    ++ codes "\",\"line\":"
    ++ decimal (line_number f)
    ++ codes "}"

-- A comma before all but the first.
unfoldable pub frames_text : Bool → ℕ → List Frame → Bytes
unfolding frame_text
frames_text first i [] = []
frames_text first i (f ∷ frames) =
    (if first then [] else codes ",") ++ frame_text i f ++ frames_text false (i + 1) frames

unfoldable pub dump_thread_stack : ℕ → Context → Bytes
unfolding frames_text shown
dump_thread_stack max_frames ctx = frames_text true 0 (shown max_frames ctx.frames)

unfoldable pub thread_text : HostThread → Context → Bytes
unfolding dump_thread_stack decimal
thread_text th ctx =
    codes "    {\"tid\":"
    ++ decimal th.tid
    ++ codes ",\"name\":\""
    ++ th.description
    ++ codes "\",\"rip\":"
    ++ decimal ctx.rip
    ++ codes ",\"rsp\":"
    ++ decimal ctx.rsp
    ++ codes ",\"rbp\":"
    ++ decimal ctx.rbp
    ++ codes ",\"frames\":["
    ++ dump_thread_stack 24 ctx
    ++ codes "]}"

-- The process, the calling thread, and the context it is walked from: the fault's, or its own.
pub record Caller : Type 0 where
  pub pid : ℕ
  pub self_tid : ℕ
  pub context : Context

-- A thread that is suspended: it is shown if its context is there, and goes on in any case.
unfoldable pub visit_suspended : HostThread → Windows → Option Bytes × Windows
unfolding thread_text resume_thread close_handle
visit_suspended th s = elim th.context [
  | none ↦ (none, close_handle (resume_thread th.tid s))
  | some ctx ↦ (some (thread_text th ctx), close_handle (resume_thread th.tid s))
]

-- One thread of the snapshot: its text, unless it is passed over, and what it leaves behind.
unfoldable pub visit_thread : Caller → HostThread → Windows → Option Bytes × Windows
unfolding visit_suspended open_handle suspend_thread
visit_thread c th s =
    if not (th.owner == c.pid)
    then (none, s)
    else if th.tid == c.self_tid
    then (some (thread_text th c.context), s)
    else if not th.opens
    then (none, s)
    else if not th.suspends
    then (none, close_handle (open_handle s))
    else visit_suspended th (suspend_thread th.tid (open_handle s))

-- The texts of the walk, in the order of the snapshot.
unfoldable pub visit_all : Caller → List HostThread → Windows → List Bytes × Windows
unfolding visit_thread
visit_all c [] s = ([], s)
visit_all c (th ∷ ths) s =
    let (text, s1) = visit_thread c th s in
    let (texts, s2) = visit_all c ths s1 in (elim text [ none ↦ texts | some t ↦ t ∷ texts ], s2)

unfoldable pub threads_text : Bool → List Bytes → Bytes
threads_text first [] = []
threads_text first (t ∷ ts) = (if first then [] else codes ",\n") ++ t ++ threads_text false ts

-- `none` is a snapshot that fails.
unfoldable pub dump_all_threads : Caller → Option (List HostThread) → Windows → Bytes × Windows
unfolding visit_all threads_text open_handle close_handle
dump_all_threads c none s =
    (codes "  \"threads\": [],\n  \"threads_error\": \"snapshot_failed\",\n", s)
dump_all_threads c (some ths) s =
    let (texts, s') = visit_all c ths (open_handle s) in
    (codes "  \"threads\": [\n" ++ threads_text true texts ++ codes "\n  ],\n", close_handle s')
