-- ===== src/Threads.antt =====
-- The walks of the process's own threads: `dump_thread_stack_json` and `dump_all_threads_json` of
-- post_mortem.cpp in Json, and `dump_threads` of debug_server.cpp in Log. Windows answers by
-- parameters; what is counted here is what the walks leave behind: the suspend count of each thread
-- and the handles that are open.
pub mod Stack
pub mod Json
pub mod Log
pub mod Balance
use pokemon_stadium_recomp.Prelude.{ℕ, ◌+◌, ◌-◌, Bool, List, Option, ◌==◌, if◌then◌else◌}
use pokemon_stadium_recomp.Prelude.Text.{Bytes}

-- One frame that `StackWalk64` finds: its address, and the function and the line that the symbols
-- give it.
pub record Frame : Type 0 where
  pub pc : ℕ
  pub symbol : Option Bytes
  pub place : Option (Bytes × ℕ)

-- `CONTEXT`: the registers that are shown, and the frames that a walk from it finds.
pub record Context : Type 0 where
  pub rip : ℕ
  pub rsp : ℕ
  pub rbp : ℕ
  pub frames : List Frame

-- A thread of the snapshot: its number and its process, whether it opens and is suspended, what
-- `GetThreadContext` answers, and its description.
pub record HostThread : Type 0 where
  pub tid : ℕ
  pub owner : ℕ
  pub opens : Bool
  pub suspends : Bool
  pub context : Option Context
  pub description : Bytes

-- The suspend count of each thread, and the number of open handles.
pub record Windows : Type 0 where
  pub suspended : ℕ → ℕ
  pub handles : ℕ

unfoldable pub open_handle : Windows → Windows
open_handle s = record s { handles = s.handles + 1 }

unfoldable pub close_handle : Windows → Windows
close_handle s = record s { handles = s.handles - 1 }

unfoldable pub suspend_thread : ℕ → Windows → Windows
suspend_thread tid s = record s {
  suspended = λ t. if t == tid then s.suspended t + 1 else s.suspended t;
}

-- A thread that is not suspended stays so.
unfoldable pub resume_thread : ℕ → Windows → Windows
resume_thread tid s = record s {
  suspended = λ t. if t == tid then s.suspended t - 1 else s.suspended t;
}
