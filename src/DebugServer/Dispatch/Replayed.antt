-- ===== src/DebugServer/Dispatch/Replayed.antt =====
-- Whatever the commands of a session, the recorded input history accounts for the pad.
use pokemon_stadium_recomp.Prelude.{refl, Bool, true, false, Option, none, some, if◌then◌else◌}
use pokemon_stadium_recomp.Prelude.Text.{Bytes, codes}
use pokemon_stadium_recomp.Prelude.Text.{equal}
use pokemon_stadium_recomp.DebugServer.Queries.{set_volume, fast_forward, enable_instant_present}
use pokemon_stadium_recomp.DebugServer.Input.Replay.{
  Tracks, still, set_button-Tracks, set_stick-Tracks, clear_input-Tracks, claim_input-Tracks,
}
use pokemon_stadium_recomp.DebugServer.Dispatch.{
  Host, World, handle_command, run_command, late_command, command_name,
}

-- The process ended, or the command tracked its effect on the pad.
pub data Kept {St : Type 0} (w : World St) : Option (Bytes × World St) → Type 0 where
  ended : Kept w none
  answered : {resp : Bytes} {t : World St} → Tracks w.dbg t.dbg → Kept w (some (resp, t))

if_Kept :
    {St : Type 0} {w : World St} {r t : Option (Bytes × World St)} (b : Bool)
    → Kept w r
    → Kept w t
    → Kept w (if b then r else t)
if_Kept true k l = k
if_Kept false k l = l

late_command-Kept :
    {St : Type 0} (h : Host St) (cmd line : Bytes) (w : World St)
    → Kept w (late_command h cmd line w)
unfolding late_command
late_command-Kept h cmd line w =
    if_Kept (equal cmd (codes "ares_status")) (answered (still refl refl)) (
      if_Kept (equal cmd (codes "ares_init_oracle")) (answered (still refl refl)) (
        if_Kept (equal cmd (codes "ares_reset_oracle")) (answered (still refl refl)) (
          if_Kept (equal cmd (codes "ares_step_frame")) (answered (still refl refl)) (
            if_Kept (equal cmd (codes "ares_rsp_trace_recent")) (answered (still refl refl)) (
              if_Kept (equal cmd (codes "ares_rsp_trace_boot")) (answered (still refl refl)) (
                if_Kept (equal cmd (codes "ares_rsp_trace_at_pc")) (answered (still refl refl)) (
                  if_Kept (equal cmd (codes "ares_rsp_trace_set_enabled"))
                    (answered (still refl refl))
                    (if_Kept (equal cmd (codes "get_last_pc_trail")) (answered (still refl refl)) (
                      if_Kept (equal cmd (codes "rt64_segments")) (answered (still refl refl)) (
                        if_Kept (equal cmd (codes "dump_current_dl")) (answered (still refl refl)) (
                          if_Kept (equal cmd (codes "tail_errlog")) (answered (still refl refl)) (
                            if_Kept (equal cmd (codes "dump_threads")) (answered (still refl refl))
                              (if_Kept (equal cmd (codes "quit")) ended
                                ((answered (still refl refl))))))))))))))))

run_command-Kept :
    {St : Type 0} (h : Host St) (cmd line : Bytes) (w : World St)
    → Kept w (run_command h cmd line w)
unfolding run_command set_volume fast_forward enable_instant_present
run_command-Kept h cmd line w = if_Kept (equal cmd (codes "ping")) (answered (still refl refl)) (
    if_Kept (equal cmd (codes "status")) (answered (still refl refl)) (
      if_Kept (equal cmd (codes "set_button")) (answered (set_button-Tracks h.now line w.dbg)) (
        if_Kept (equal cmd (codes "set_stick")) (answered (set_stick-Tracks h.now line w.dbg)) (
          if_Kept (equal cmd (codes "clear_input")) (answered (clear_input-Tracks h.now w.dbg)) (
            if_Kept (equal cmd (codes "input_history")) (answered (still refl refl)) (
              if_Kept (equal cmd (codes "interesting_fns")) (answered (still refl refl)) (
                if_Kept (equal cmd (codes "resolver_log")) (answered (still refl refl)) (
                  if_Kept (equal cmd (codes "set_volume")) (answered (still refl refl)) (
                    if_Kept (equal cmd (codes "claim_input"))
                      (answered (claim_input-Tracks h.now w.dbg))
                      (if_Kept (equal cmd (codes "fast_forward")) (answered (still refl refl)) (
                        if_Kept (equal cmd (codes "enable_instant_present"))
                          (answered (still refl refl))
                          (if_Kept (equal cmd (codes "trace_recent")) (answered (still refl refl)) (
                            if_Kept (equal cmd (codes "post_mortem_dump"))
                              (answered (still refl refl))
                              (if_Kept (equal cmd (codes "mesg_recent"))
                                (answered (still refl refl))
                                (if_Kept (equal cmd (codes "sp_task_recent"))
                                  (answered (still refl refl))
                                  (if_Kept (equal cmd (codes "libultra_recent"))
                                    (answered (still refl refl))
                                    (if_Kept (equal cmd (codes "libultra_boot"))
                                      (answered (still refl refl))
                                      (if_Kept (equal cmd (codes "rdram_peek"))
                                        (answered (still refl refl))
                                        (if_Kept (equal cmd (codes "rdram_scan_u32"))
                                          (answered (still refl refl))
                                          ((late_command-Kept h cmd line w)))))))))))))))))))))

-- Whatever the line and whatever the host answers, a command that does not end the process either
-- leaves the pad and the input history as they were, or adds to the history one event whose replay
-- does to the pad what the command did.
pub handle_command-Kept :
    {St : Type 0} (h : Host St) (line : Bytes) (w : World St) → Kept w (handle_command h line w)
unfolding handle_command
handle_command-Kept h line w = run_command-Kept h (command_name line) line w
