-- ===== src/DebugServer/Server/Kept.antt =====
-- What every command keeps, the server keeps over all its clients.
use pokemon_stadium_recomp.Prelude.{
  ℕ, zero, suc, ◌+◌, ◌≡◌, true, false, List, [], ◌∷◌, ◌++◌, Option, some, length, take, drop,
  Option-cases, inl, inr,
}
use pokemon_stadium_recomp.Prelude.Text.{Bytes, find}
use pokemon_stadium_recomp.DebugServer.Lines.{Session, live, exited, newline, drain, receive}
use pokemon_stadium_recomp.DebugServer.Server.{
  Traffic, Passage, stopped, refused, accepted, Service, serving, ended, serve_client, hang_up,
  answer_client, accept_loop,
}

module _ {ℓ} {W : Type ℓ} (handle : Bytes → W → Option (Bytes × W)) (P : W → Type ℓ)
    (keep : (line : Bytes) (w : W) (resp : Bytes) (t : W)
      → handle line w ≡ some (resp, t)
      → P w
      → P t) where
  abbrev InSession : Session W → Type ℓ
  InSession (live sent buf w) = P w
  InSession (exited sent) = Unit {ℓ}

  abbrev pub InService : Service W → Type ℓ
  InService (serving sent w) = P w
  InService (ended sent) = Unit {ℓ}

  drain-InSession :
      (fuel : ℕ) (sent buf : Bytes) (w : W) → P w → InSession (drain handle fuel sent buf w)
  unfolding drain
  drain-InSession zero sent buf w p = p
  drain-InSession (suc fuel) sent buf w p = elim (Option-cases (find newline buf)) [
    | inl n ↦ rw (n, drain) p
    | inr (i, s) ↦ elim (Option-cases (handle (take i buf) w)) [
      | inl e ↦ rw (s, e, drain) tt
      | inr ((resp, t), e) ↦
          rw (s, e, drain)
            (drain-InSession fuel (sent ++ (resp ++ newline)) (drop (i + 1) buf) t
              (keep (take i buf) w resp t e p))
    ]
  ]

  receive-InSession :
      (chunk : Bytes) (s : Session W) → InSession s → InSession (receive handle chunk s)
  unfolding receive
  receive-InSession chunk (live sent buf w) p =
      drain-InSession (suc (length (buf ++ chunk))) sent (buf ++ chunk) w p
  receive-InSession chunk (exited sent) p = tt

  serve_client-InSession :
      (traffic : Traffic) (s : Session W) → InSession s → InSession (serve_client handle traffic s)
  unfolding serve_client
  serve_client-InSession [] s p = p
  serve_client-InSession ((true, chunk) ∷ rest) s p =
      serve_client-InSession rest (receive handle chunk s) (receive-InSession chunk s p)
  serve_client-InSession ((false, chunk) ∷ rest) s p = p

  hang_up-InService :
      (sent : List Bytes) (s : Session W) → InSession s → InService (hang_up handle sent s)
  unfolding hang_up
  hang_up-InService sent (live out buf w) p = p
  hang_up-InService sent (exited out) p = tt

  answer_client-InService :
      (traffic : Traffic) (s : Service W) → InService s → InService (answer_client handle traffic s)
  unfolding answer_client
  answer_client-InService traffic (serving sent w) p =
      hang_up-InService sent (serve_client handle traffic (live [] [] w))
        (serve_client-InSession traffic (live [] [] w) p)
  answer_client-InService traffic (ended sent) p = tt

  pub accept_loop-InService :
      (passages : List Passage) (s : Service W)
      → InService s
      → InService (accept_loop handle passages s)
  unfolding accept_loop
  accept_loop-InService [] s p = p
  accept_loop-InService (stopped ∷ rest) s p = p
  accept_loop-InService (refused true ∷ rest) s p = accept_loop-InService rest s p
  accept_loop-InService (refused false ∷ rest) s p = p
  accept_loop-InService (accepted traffic ∷ rest) s p =
      accept_loop-InService rest (answer_client handle traffic s)
        (answer_client-InService traffic s p)
