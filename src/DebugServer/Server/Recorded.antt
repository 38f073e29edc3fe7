-- ===== src/DebugServer/Server/Recorded.antt =====
-- The input history behind all clients of the server.
use mathlib.Core.Option.{some-injective}
use mathlib.Core.Path.{subst}
use pokemon_stadium_recomp.Prelude.{
  ℕ, ◌+◌, ◌-◌, ◌^◌, ◌≤◌, ◌<◌, ◌≡◌, refl, sym, ap, ◌∙◌, arith, List, [], ◌∷◌, ◌++◌, Option, none,
  some, length, drop, length-append,
}
use pokemon_stadium_recomp.Prelude.Text.{Bytes}
use pokemon_stadium_recomp.Ring.Window.{Holds, push-Holds, init-Holds}
use pokemon_stadium_recomp.DebugServer.State.{
  InputEvent, input_history_cap, no_event, Pad, idle_pad, initial,
}
use pokemon_stadium_recomp.DebugServer.History.{history_window}
use pokemon_stadium_recomp.DebugServer.History.Window.{history_window-eq-drop}
use pokemon_stadium_recomp.DebugServer.Input.Replay.{Tracks, still, logged, replay_event}
use pokemon_stadium_recomp.DebugServer.Dispatch.{Host, World, handle_command}
use pokemon_stadium_recomp.DebugServer.Dispatch.Replayed.{Kept, answered, handle_command-Kept}
use pokemon_stadium_recomp.DebugServer.Dispatch.Session.{replay}
use pokemon_stadium_recomp.DebugServer.Server.{Passage, serving, accept_loop}
use pokemon_stadium_recomp.DebugServer.Server.Kept.{InService, accept_loop-InService}

replay-append : (xs ys : List InputEvent) (p : Pad) → replay (xs ++ ys) p ≡ replay ys (replay xs p)
unfolding replay
replay-append [] ys p = refl
replay-append (x ∷ xs) ys p = replay-append xs ys (replay_event x p)

-- The program, and the number of commands so far.
abbrev pub Numbered : Type 0 → Type 0
Numbered St = World St × ℕ

module _ {St : Type 0} where
  unfoldable number : ℕ → Option (Bytes × World St) → Option (Bytes × Numbered St)
  number n none = none
  number n (some (resp, w)) = some (resp, (w, n))

  -- A command finds the host as it is at that time.
  unfoldable pub answer_line : (ℕ → Host St) → Bytes → Numbered St → Option (Bytes × Numbered St)
  unfolding handle_command number
  answer_line hosts line (w, n) = number (n + 1) (handle_command (hosts n) line w)

  -- A script of at most `n` events that the history holds and that makes the pad.
  record Script (w : World St) (n : ℕ) : Type 0 where
    log : List InputEvent
    short : length log ≤ n
    kept : Holds input_history_cap no_event log w.dbg.history
    same_pad : replay log idle_pad ≡ w.dbg.pad

  abbrev Story : Numbered St → Type 0
  Story (w, n) = n < 2 ^ 64 → Script w n

  Tracks-Script :
      (w t : World St) (n : ℕ) → Tracks w.dbg t.dbg → Script w n → n + 1 < 2 ^ 64 → Script t (n + 1)
  unfolding replay
  Tracks-Script w t n (still p h) r small = record {
    log = r.log;
    short = omega (arith, r.short);
    kept = rw h r.kept;
    same_pad = r.same_pad ∙ sym p;
  }
  Tracks-Script w t n (logged e p h) r small = record {
    log = r.log ++ e ∷ [];
    short = omega (arith, r.short, length-append r.log (e ∷ []));
    kept =
        rw h
          (push-Holds input_history_cap no_event e (omega arith) (omega (arith, r.short)) r.kept);
    same_pad = replay-append r.log (e ∷ []) idle_pad ∙ ap (replay_event e) r.same_pad ∙ sym p;
  }

  number-Story :
      (n : ℕ) (w : World St) (o : Option (Bytes × World St)) (resp : Bytes) (t : Numbered St)
      → Kept w o
      → number (n + 1) o ≡ some (resp, t)
      → Story (w, n)
      → Story t
  unfolding number
  number-Story n w none resp t k e story = absurd (cc)
  number-Story n w (some (r, m)) resp t (answered track) e story =
      subst (λ (p : Bytes × Numbered St). Story p.1) (some-injective _ _ e)
        (λ small. Tracks-Script w m n track (story (omega arith)) small)

  answer_line-Story :
      (hosts : ℕ → Host St) (line : Bytes) (s : Numbered St) (resp : Bytes) (t : Numbered St)
      → answer_line hosts line s ≡ some (resp, t)
      → Story s
      → Story t
  unfolding answer_line
  answer_line-Story hosts line (w, n) resp t e story =
      number-Story n w (handle_command (hosts n) line w) resp t
        (handle_command-Kept (hosts n) line w) e story

  start-Story : (oracle : St) → Story (record { dbg = initial; oracle = oracle }, 0)
  unfolding initial replay
  start-Story oracle small = record {
    log = [];
    short = omega arith;
    kept = init-Holds input_history_cap no_event;
    same_pad = refl;
  }

  whole :
      (t : World St) (n : ℕ)
      → Script t n
      → t.dbg.history.seq ≤ input_history_cap
      → replay (history_window t.dbg.history) idle_pad ≡ t.dbg.pad
  whole t n r fits =
      let all : length r.log - input_history_cap ≡ 0 = omega (arith, r.kept.counted, fits) in
      ap (λ es. replay es idle_pad)
        (history_window-eq-drop r.log t.dbg.history r.kept ∙ ap (λ k. drop k r.log) all)
      ∙ r.same_pad

  -- From the start of the process, over all connections, however their bytes are cut, whatever their
  -- lines and whatever the host answers: as long as no command has ended the process, fewer than
  -- 2^64 commands have run, and the history has not outgrown its 4096 slots, the window that is
  -- dumped, replayed on an idle pad, gives exactly the pad that the runner polls.
  pub accept_loop-replay :
      (hosts : ℕ → Host St) (passages : List Passage) (oracle : St) (sent : List Bytes)
      (t : World St) (n : ℕ)
      → accept_loop
          (answer_line hosts)
          passages
          (serving [] (record { dbg = initial; oracle = oracle }, 0))
        ≡ serving sent (t, n)
      → n < 2 ^ 64
      → t.dbg.history.seq ≤ input_history_cap
      → replay (history_window t.dbg.history) idle_pad ≡ t.dbg.pad
  accept_loop-replay hosts passages oracle sent t n e small fits =
      let story =
        accept_loop-InService (answer_line hosts) Story (answer_line-Story hosts) passages
          (serving [] (record { dbg = initial; oracle = oracle }, 0)) (start-Story oracle) in
      whole t n
        (subst (InService (answer_line hosts) Story (answer_line-Story hosts)) e story small) fits
