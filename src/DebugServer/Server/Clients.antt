-- ===== src/DebugServer/Server/Clients.antt =====
-- What the clients of the server get, one connection after the other.
use pokemon_stadium_recomp.Prelude.{◌≡◌, refl, sym, ap, ◌∙◌, true, false, List, [], ◌∷◌, Option}
use pokemon_stadium_recomp.Prelude.Text.{Bytes}
use pokemon_stadium_recomp.DebugServer.Lines.{Session, live, receive, receive_all}
use pokemon_stadium_recomp.DebugServer.Lines.Framing.{stream, joined, receive_all-eq-stream}
use pokemon_stadium_recomp.DebugServer.Server.{
  Traffic, Passage, stopped, refused, accepted, Service, serving, ended, serve_client, hang_up,
  answer_client, accept_loop,
}

-- The chunks up to the one before which the server was told to stop.
unfoldable pub heard : Traffic → List Bytes
heard [] = []
heard ((true, chunk) ∷ rest) = chunk ∷ heard rest
heard ((false, chunk) ∷ rest) = []

-- The bytes that each client gets through, up to the end of the loop.
unfoldable pub conversations : List Passage → List Bytes
unfolding heard
conversations [] = []
conversations (stopped ∷ rest) = []
conversations (refused true ∷ rest) = conversations rest
conversations (refused false ∷ rest) = []
conversations (accepted traffic ∷ rest) = joined (heard traffic) ∷ conversations rest

module _ {ℓ} {W : Type ℓ} (handle : Bytes → W → Option (Bytes × W)) where
  -- The reference: each client's bytes, read one at a time.
  pub converse : List Bytes → Service W → Service W
  unfolding hang_up
  converse [] s = s
  converse (bytes ∷ rest) (serving sent w) =
      converse rest (hang_up handle sent (stream handle bytes (live [] [] w)))
  converse (bytes ∷ rest) (ended sent) = ended sent

  converse-ended :
      (bytes : List Bytes) (sent : List Bytes) → converse bytes (ended sent) ≡ ended sent
  unfolding converse
  converse-ended [] sent = refl
  converse-ended (b ∷ bytes) sent = refl

  serve_client-eq-receive_all :
      (traffic : Traffic) (s : Session W)
      → serve_client handle traffic s ≡ receive_all handle (heard traffic) s
  unfolding serve_client receive_all heard
  serve_client-eq-receive_all [] s = refl
  serve_client-eq-receive_all ((true, chunk) ∷ rest) s =
      serve_client-eq-receive_all rest (receive handle chunk s)
  serve_client-eq-receive_all ((false, chunk) ∷ rest) s = refl

  accept_loop-ended :
      (passages : List Passage) (sent : List Bytes)
      → accept_loop handle passages (ended sent) ≡ ended sent
  unfolding accept_loop answer_client
  accept_loop-ended [] sent = refl
  accept_loop-ended (stopped ∷ rest) sent = refl
  accept_loop-ended (refused true ∷ rest) sent = accept_loop-ended rest sent
  accept_loop-ended (refused false ∷ rest) sent = refl
  accept_loop-ended (accepted traffic ∷ rest) sent = accept_loop-ended rest sent

  -- However each client's bytes are cut into chunks, and whenever the server is told to stop: every
  -- client is sent the answers to its own complete lines, in order, from the state in which the
  -- client before it has left the program; an unfinished line is lost with its client, and the
  -- process ends at the command that ends it.
  pub accept_loop-eq-converse :
      (passages : List Passage) (s : Service W)
      → accept_loop handle passages s ≡ converse (conversations passages) s
  unfolding accept_loop answer_client conversations converse
  accept_loop-eq-converse [] (serving sent w) = refl
  accept_loop-eq-converse (stopped ∷ rest) (serving sent w) = refl
  accept_loop-eq-converse (refused true ∷ rest) (serving sent w) =
      accept_loop-eq-converse rest (serving sent w)
  accept_loop-eq-converse (refused false ∷ rest) (serving sent w) = refl
  accept_loop-eq-converse (accepted traffic ∷ rest) (serving sent w) =
      ap (λ s. accept_loop handle rest (hang_up handle sent s))
        (serve_client-eq-receive_all traffic (live [] [] w)
          ∙ receive_all-eq-stream handle (heard traffic) w)
      ∙ accept_loop-eq-converse rest
          (hang_up handle sent (stream handle (joined (heard traffic)) (live [] [] w)))
  accept_loop-eq-converse passages (ended sent) =
      accept_loop-ended passages sent ∙ sym (converse-ended (conversations passages) sent)
