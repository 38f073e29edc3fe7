-- ===== src/DebugServer/Server/Lifecycle.antt =====
-- Starting and stopping the server.
use pokemon_stadium_recomp.Prelude.{◌+◌, ◌≡◌, arith, true}
use pokemon_stadium_recomp.DebugServer.Server.{Server, Winsock, start, shutdown, set_up, tear_down}

-- A second start makes no second thread.
start-start : (s : Server) → start (start s) ≡ start s
unfolding start
start-start s = ground arith

-- A running server whose set-up fails cannot be started again.
start-set_up :
    (net : Winsock) (s : Server) → s.running ≡ true → start (set_up net s).1 ≡ (set_up net s).1
unfolding start set_up
start-set_up net s h = ground arith

-- A server that is shut down in its loop closes its listening socket twice.
closes-shutdown : (s : Server) → s.listening ≡ true → (tear_down (shutdown s)).closes ≡ s.closes + 2
unfolding shutdown tear_down
closes-shutdown s h = ground arith
