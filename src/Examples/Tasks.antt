-- ===== src/Examples/Tasks.antt =====
-- The theorems about tasks and keys at concrete inputs.
use pokemon_stadium_recomp.Prelude.{
  ℕ, ◌+◌, ◌-◌, ◌<◌, ◌≡◌, ◌≢◌, refl, arith, true, false, List, none, some, length, get_or,
}
use pokemon_stadium_recomp.Prelude.Int.{pos}
use pokemon_stadium_recomp.Rdram.{Rdram, load8}
use pokemon_stadium_recomp.DebugServer.Events.{SpTaskEvent}
use pokemon_stadium_recomp.PostMortem.{dump_task}
use pokemon_stadium_recomp.PostMortem.DisplayList.{IsDumpable, dump_task-IsDumpable, dump_task-zero}
use pokemon_stadium_recomp.Runner.Turbo.{turbo_default}
use pokemon_stadium_recomp.Prelude.Text.{codes}

abbrev gfx : SpTaskEvent
gfx = record {
  seq = 0;
  ms = 0;
  frame = 0;
  send_dl = 0;
  mips_ra = 0;
  task_ptr = 0;
  task_type = 1;
  task_flags = 0;
  ucode = 0;
  data_ptr = 0x80000010;
  data_size = 8;
  output_buff = 0;
  output_buff_size = 0;
}

abbrev zeroes : Rdram
zeroes p = 0

gfx-IsDumpable : IsDumpable gfx
gfx-IsDumpable = record {
  some_bytes = omega arith;
  at_most = omega arith;
  kseg0 = omega arith;
  inside = omega arith;
}

dump_task-IsDumpable_example :
    (bs : List ℕ) × (dump_task (some zeroes) true gfx ≡ record { rc = pos 0; file = some bs })
    × (length bs ≡ 8)
    × ((i : ℕ) → i < 8 → get_or bs i 0 ≡ load8 zeroes (0x80000010 - 0x80000000 + i))
dump_task-IsDumpable_example = dump_task-IsDumpable zeroes gfx gfx-IsDumpable

gfx_dumped : (dump_task (some zeroes) true gfx).rc ≡ pos 0
unfolding dump_task
gfx_dumped = refl

dump_task-zero_example : (some zeroes ≢ none) × (true ≡ true) × IsDumpable gfx
dump_task-zero_example = dump_task-zero (some zeroes) true gfx (omega arith) gfx_dumped

turbo_off : turbo_default (some (codes "off")) ≡ false
unfolding turbo_default
turbo_off = refl

turbo_on : turbo_default (some (codes "on")) ≡ true
unfolding turbo_default
turbo_on = refl
