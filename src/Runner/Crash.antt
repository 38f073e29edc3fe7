-- ===== src/Runner/Crash.antt =====
-- `psr_crash_filter`: the post-mortem dump, then the crash's own text behind the error log. `%p` is
-- the C library's.
pub mod LastCalls
use pokemon_stadium_recomp.Prelude.{
  ℕ, zero, suc, ◌+◌, ◌-◌, ◌%◌, ◌^◌, Bool, true, false, ◌&&◌, List, [], ◌∷◌, ◌++◌, Option, none,
  some, ltb, leb, ◌==◌, if◌then◌else◌, length, replicate, get_or,
}
use pokemon_stadium_recomp.Prelude.Text.{Bytes, codes}
use pokemon_stadium_recomp.Libc.Print.{drop_zeros, decimal, decimal_int, hex8, hex_upper_digits}
use pokemon_stadium_recomp.Ring.{Ring}
use pokemon_stadium_recomp.Extras.Trace.{Trace, trace_ring_cap, trace_at}
use pokemon_stadium_recomp.Threads.{Frame}
use pokemon_stadium_recomp.Threads.Stack.{shown}
use pokemon_stadium_recomp.Threads.Log.{frame_lines}
use pokemon_stadium_recomp.Threads.{Windows}
use pokemon_stadium_recomp.PostMortem.Whole.{
  Fault, Facts, Files, Opens, access_violation, access_name, fault_offset, fault_vaddr,
  post_mortem_dump,
}

-- `%4llu`
unfoldable pub padded : ℕ → Bytes
unfolding decimal
padded n = replicate (4 - length (decimal n)) b' ' ++ decimal n

-- The lines on the memory, where it is there.
unfoldable pub rdram_lines : (ℕ → Bytes) → Option ℕ → ℕ → Bytes
unfolding drop_zeros hex_upper_digits fault_offset fault_vaddr decimal_int hex8
rdram_lines pointer none host = []
rdram_lines pointer (some base) host =
    codes "  rdram_base: "
    ++ pointer base
    ++ codes "\n  rdram_off:  0x"
    ++ drop_zeros (hex_upper_digits 16 ((host + 2 ^ 64 - base) % 2 ^ 64))
    ++ codes " ("
    ++ decimal_int (fault_offset (some base) host)
    ++ codes " dec)\n  decoded vaddr: 0x"
    ++ hex8 (fault_vaddr (some base) host)
    ++ codes "\n"

unfoldable pub access_lines : (ℕ → Bytes) → Option ℕ → Fault → Bytes
unfolding access_name rdram_lines
access_lines pointer rdram_base e =
    if (e.code == access_violation) && leb 2 e.number_parameters
    then codes "  access:  "
      ++ access_name (get_or e.information 0 0)
      ++ codes " @ 0x"
      ++ pointer (get_or e.information 1 0)
      ++ codes "\n"
      ++ rdram_lines pointer rdram_base (get_or e.information 1 0)
    else []

-- The slots of the last calls and returns, and what they hold.
unfoldable pub slots_from : Ring (Option Bytes) → ℕ → ℕ → List (ℕ × Option Bytes)
unfolding trace_at
slots_from r zero off = []
slots_from r (suc n) off =
    (off % trace_ring_cap, trace_at r (off % trace_ring_cap)) ∷ slots_from r n (off + 1)

unfoldable pub last_calls : Ring (Option Bytes) → List (ℕ × Option Bytes)
unfolding slots_from
last_calls r = let n = if ltb r.seq 32 then r.seq else 32 in slots_from r n (r.seq - n)

unfoldable pub call_lines : List (ℕ × Option Bytes) → Bytes
unfolding padded
call_lines [] = []
call_lines ((slot, name) ∷ rest) =
    codes "    "
    ++ padded slot
    ++ codes ": "
    ++ elim name [ none ↦ codes "(null)" | some text ↦ text ]
    ++ codes "\n"
    ++ call_lines rest

-- What is appended to the error log; `frames` is the walk from the fault's context.
unfoldable pub crash_text :
    (ℕ → Bytes) → Option ℕ → Fault → List Frame → Ring (Option Bytes) → Bytes
unfolding access_lines call_lines last_calls frame_lines shown hex8 decimal
crash_text pointer rdram_base e frames trace =
    codes "\n=== UNHANDLED EXCEPTION ===\n  code:    0x"
    ++ hex8 e.code
    ++ codes "\n  address: "
    ++ pointer e.address
    ++ codes "\n"
    ++ frame_lines 0 (shown 20 frames)
    ++ access_lines pointer rdram_base e
    ++ codes "  trace ring (write_idx="
    ++ decimal trace.seq
    ++ codes ", capacity="
    ++ decimal trace_ring_cap
    ++ codes "):\n"
    ++ call_lines (last_calls trace)

-- The files of the dump, what is appended to the error log if it opens, and what the walk of the
-- threads leaves.
unfoldable pub crash_filter :
    (ℕ → Bytes) → Facts → Fault → List Frame → Opens → Bool → Files × Option Bytes × Windows
unfolding post_mortem_dump crash_text
crash_filter pointer s e frames opens log_opens =
    let (files, windows) = post_mortem_dump s (some (codes "seh")) (some e) opens in
    (
      files,
      if log_opens then some (crash_text pointer s.rdram_base e frames s.trace.ring) else none,
      windows,
    )
