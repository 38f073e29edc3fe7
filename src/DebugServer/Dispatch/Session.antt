-- ===== src/DebugServer/Dispatch/Session.antt =====
-- A whole session of commands, and what its dumped input history is good for.
use mathlib.Core.List.{append-nil, append_assoc}
use mathlib.Core.Option.{some-injective}
use pokemon_stadium_recomp.Prelude.{
  ℕ, suc, ◌+◌, ◌-◌, ◌^◌, ◌≤◌, ◌<◌, ◌≡◌, sym, ap, ◌∙◌, arith, List, [], ◌∷◌, ◌++◌, Option, none,
  some, length, drop, length-append,
}
use pokemon_stadium_recomp.Prelude.Text.{Bytes}
use pokemon_stadium_recomp.Ring.Window.{Holds, push-Holds, init-Holds}
use pokemon_stadium_recomp.DebugServer.State.{
  InputEvent, input_history_cap, no_event, Pad, idle_pad, Dbg, initial,
}
use pokemon_stadium_recomp.DebugServer.History.{history_window}
use pokemon_stadium_recomp.DebugServer.History.Window.{history_window-eq-drop}
use pokemon_stadium_recomp.DebugServer.Input.Replay.{Tracks, still, logged, replay_event}
use pokemon_stadium_recomp.DebugServer.Dispatch.{Host, World, handle_command}
use pokemon_stadium_recomp.DebugServer.Dispatch.Replayed.{
  Kept, ended, answered, handle_command-Kept,
}

-- A script of recorded events, played on a pad.
unfoldable pub replay : List InputEvent → Pad → Pad
replay [] p = p
replay (e ∷ es) p = replay es (replay_event e p)

-- A command's answer, and the rest of the session behind it.
unfoldable pub go_on :
    {St : Type 0} → Option (Bytes × World St) → (World St → Option (World St)) → Option (World St)
go_on none rest = none
go_on (some (resp, t)) rest = rest t

-- The commands of a session, each with what the host answers; `none` when one ends the process.
serve : {St : Type 0} → List (Host St × Bytes) → World St → Option (World St)
unfolding handle_command go_on
serve [] w = some w
serve ((h, line) ∷ cmds) w = go_on (handle_command h line w) (serve cmds)

-- The history behind a session is the one before it and a script that makes the same pad.
record Scripted (log : List InputEvent) (n : ℕ) (s t : Dbg) : Type 0 where
  pub script : List InputEvent
  pub short : length script ≤ n
  pub kept : Holds input_history_cap no_event (log ++ script) t.history
  pub same_pad : t.pad ≡ replay script s.pad

Tracks-first :
    {log : List InputEvent} {n : ℕ} {s m t : Dbg}
    → Tracks s m
    → ((log' : List InputEvent)
        → length log' ≤ length log + 1
        → Holds input_history_cap no_event log' m.history
        → Scripted log' n m t)
    → length log + 1 < 2 ^ 64
    → Holds input_history_cap no_event log s.history
    → Scripted log (suc n) s t
unfolding replay
Tracks-first {log} (still p h) rest small v =
    let r = rest log (omega arith) (rw h v) in
    record {
      script = r.script;
      short = omega (arith, r.short);
      kept = r.kept;
      same_pad = r.same_pad ∙ ap (replay r.script) p;
    }
Tracks-first {log} (logged e p h) rest small v =
    let r =
      rest (log ++ e ∷ []) (omega (arith, length-append log (e ∷ [])))
        (rw h (push-Holds input_history_cap no_event e (omega arith) small v)) in
    record {
      script = e ∷ r.script;
      short = omega (arith, r.short);
      kept = rw (← append_assoc log (e ∷ []) r.script) r.kept;
      same_pad = r.same_pad ∙ ap (replay r.script) p;
    }

go_on-Scripted :
    {St : Type 0} (cmds : List (Host St × Bytes)) {w t : World St} {o : Option (Bytes × World St)}
    (log : List InputEvent)
    → Kept w o
    → ((m : World St) (log' : List InputEvent)
        → serve cmds m ≡ some t
        → length log' + length cmds < 2 ^ 64
        → Holds input_history_cap no_event log' m.dbg.history
        → Scripted log' (length cmds) m.dbg t.dbg)
    → go_on o (serve cmds) ≡ some t
    → length log + suc (length cmds) < 2 ^ 64
    → Holds input_history_cap no_event log w.dbg.history
    → Scripted log (suc (length cmds)) w.dbg t.dbg
unfolding go_on
go_on-Scripted cmds log ended rest e small v = absurd (cc)
go_on-Scripted cmds log (answered {t = m} track) rest e small v =
    Tracks-first track (λ log' le holds. rest m log' e (omega arith) holds) (omega arith) v

serve-Scripted :
    {St : Type 0} (cmds : List (Host St × Bytes)) (w t : World St) (log : List InputEvent)
    → serve cmds w ≡ some t
    → length log + length cmds < 2 ^ 64
    → Holds input_history_cap no_event log w.dbg.history
    → Scripted log (length cmds) w.dbg t.dbg
unfolding serve go_on replay
serve-Scripted [] w t log e small v =
    let same : w ≡ t = some-injective _ _ e in
    record {
      script = [];
      short = omega arith;
      kept = rw (append-nil log, sym same) v;
      same_pad = ap (λ (u : World _). u.dbg.pad) (sym same);
    }
serve-Scripted ((h, line) ∷ cmds) w t log e small v =
    go_on-Scripted cmds log (handle_command-Kept h line w)
      (λ m log' e' small' v'. serve-Scripted cmds m t log' e' small' v') e (omega arith) v

-- From the start of the process, and for any commands whatever, none of which ends it: while the
-- history has not outgrown its 4096 slots, the window that is dumped, replayed on an idle pad, gives
-- exactly the pad that the runner polls.
history_window-replay :
    {St : Type 0} (cmds : List (Host St × Bytes)) (oracle : St) (t : World St)
    → serve cmds (record { dbg = initial; oracle = oracle }) ≡ some t
    → length cmds < 2 ^ 64
    → t.dbg.history.seq ≤ input_history_cap
    → replay (history_window t.dbg.history) idle_pad ≡ t.dbg.pad
unfolding initial replay
history_window-replay cmds oracle t e small fits =
    let r =
      serve-Scripted cmds (record { dbg = initial; oracle = oracle }) t [] e (omega arith)
        (init-Holds input_history_cap no_event) in
    let all : length r.script - input_history_cap ≡ 0 = omega (arith, r.kept.counted) in
    let whole : history_window t.dbg.history ≡ r.script =
      history_window-eq-drop r.script t.dbg.history r.kept ∙ ap (λ k. drop k r.script) all in
    ap (λ es. replay es idle_pad) whole ∙ sym r.same_pad
