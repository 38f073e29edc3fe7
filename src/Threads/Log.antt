-- ===== src/Threads/Log.antt =====
-- The server's `dump_threads` command: the stacks of the other threads, appended to the error log.
use pokemon_stadium_recomp.Prelude.{
  ℕ, ◌+◌, ◌/◌, ◌%◌, not, List, [], ◌∷◌, ◌++◌, Option, none, some, ◌==◌, if◌then◌else◌,
}
use pokemon_stadium_recomp.Prelude.Text.{Bytes, codes}
use pokemon_stadium_recomp.Libc.Print.{decimal, hex_upper_digits}
use pokemon_stadium_recomp.Threads.{
  Frame, Context, HostThread, Windows, open_handle, close_handle, suspend_thread, resume_thread,
}
use pokemon_stadium_recomp.Threads.Stack.{shown, symbol_text, file_text, line_number}

-- `%02d` of a number below 100.
unfoldable pub two_digits : ℕ → Bytes
two_digits n = (b'0' + n / 10) ∷ (b'0' + n % 10) ∷ []

-- `  #%02d 0x%016llX %s (%s:%lu)`
unfoldable pub frame_line : ℕ → Frame → Bytes
unfolding two_digits hex_upper_digits symbol_text file_text line_number decimal
frame_line i f =
    codes "  #"
    ++ two_digits i
    ++ codes " 0x"
    ++ hex_upper_digits 16 f.pc
    ++ codes " "
    ++ symbol_text f
    ++ codes " ("
    ++ file_text f
    ++ codes ":"
    ++ decimal (line_number f)
    ++ codes ")\n"

unfoldable pub frame_lines : ℕ → List Frame → Bytes
unfolding frame_line
frame_lines i [] = []
frame_lines i (f ∷ frames) = frame_line i f ++ frame_lines (i + 1) frames

unfoldable pub log_thread : HostThread → Context → Bytes
unfolding frame_lines shown decimal
log_thread th ctx =
    codes "\n[thread " ++ decimal th.tid ++ codes "]\n" ++ frame_lines 0 (shown 24 ctx.frames)

-- `SuspendThread`, whose result is not looked at.
unfoldable pub try_suspend : HostThread → Windows → Windows
unfolding suspend_thread
try_suspend th s = if th.suspends then suspend_thread th.tid s else s

unfoldable pub log_visit : ℕ → ℕ → HostThread → Windows → Option Bytes × Windows
unfolding log_thread try_suspend resume_thread open_handle close_handle
log_visit pid self_tid th s =
    if not (th.owner == pid)
    then (none, s)
    else if th.tid == self_tid
    then (none, s)
    else if not th.opens
    then (none, s)
    else (
      elim th.context [ none ↦ none | some ctx ↦ some (log_thread th ctx) ],
      close_handle (resume_thread th.tid (try_suspend th (open_handle s))),
    )

-- The text, the number of threads shown, and what is left behind.
unfoldable pub log_all : ℕ → ℕ → List HostThread → Windows → Bytes × ℕ × Windows
unfolding log_visit
log_all pid self_tid [] s = ([], 0, s)
log_all pid self_tid (th ∷ ths) s =
    let (text, s1) = log_visit pid self_tid th s in
    let (texts, n, s2) = log_all pid self_tid ths s1 in
    elim text [ none ↦ (texts, n, s2) | some t ↦ (t ++ texts, n + 1, s2) ]

-- The command, where the log opens: what it appends, and the number that it answers.
unfoldable pub dump_threads : ℕ → ℕ → Option (List HostThread) → Windows → Bytes × ℕ × Windows
unfolding log_all open_handle close_handle decimal
dump_threads pid self_tid none s =
    (codes "\n=== dump_threads ===\n\n=== dump_threads end (0 threads) ===\n", 0, s)
dump_threads pid self_tid (some ths) s =
    let (text, n, s') = log_all pid self_tid ths (open_handle s) in
    (
      codes "\n=== dump_threads ===\n"
          ++ text
          ++ codes "\n=== dump_threads end ("
          ++ decimal n
          ++ codes " threads) ===\n",
      n,
      close_handle s',
    )
