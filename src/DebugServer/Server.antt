-- ===== src/DebugServer/Server.antt =====
-- The life of the server: `start` and `shutdown`, the set-up of the listening socket in
-- `server_loop`, and its loop over the clients, one after the other. What Winsock answers is a
-- parameter, and so is `s_running` each time the loop reads it, since `shutdown` may come at any time.
pub mod Clients
pub mod Kept
pub mod Recorded
pub mod Lifecycle
use pokemon_stadium_recomp.Prelude.{
  ℕ, zero, suc, ◌+◌, Bool, true, false, not, List, [], ◌∷◌, ◌++◌, Option, none, some, if◌then◌else◌,
}
use pokemon_stadium_recomp.Prelude.Text.{Bytes}
use pokemon_stadium_recomp.DebugServer.Lines.{Session, live, exited, receive}

-- `s_running`, whether `s_listen_sock` is a socket, the server threads that were made, and how often
-- the listening socket was closed.
pub record Server : Type 0 where
  pub running : Bool
  pub listening : Bool
  pub threads : ℕ
  pub closes : ℕ

unfoldable pub start : Server → Server
start s = if s.running then s else record s { running = true; threads = s.threads + 1 }

-- A socket that is there is closed, which ends the `accept` that waits on it. `s_listen_sock` keeps
-- its value.
unfoldable pub shutdown : Server → Server
shutdown s = record s { running = false; closes = if s.listening then s.closes + 1 else s.closes }

-- What `WSAStartup`, `socket`, `bind` and `listen` answer: whether each succeeds.
pub record Winsock : Type 0 where
  pub starts : Bool
  pub makes : Bool
  pub binds : Bool
  pub listens : Bool

-- The set-up: whether the thread gets to its loop, and the server behind it. A socket whose `bind` or
-- `listen` fails stays open.
unfoldable pub set_up : Winsock → Server → Bool × Server
set_up net s =
    if not net.starts
    then (false, s)
    else if not net.makes
    then (false, record s { listening = false })
    else if not net.binds
    then (false, record s { listening = true })
    else if not net.listens
    then (false, record s { listening = true })
    else (true, record s { listening = true })

-- Behind the loop.
unfoldable pub tear_down : Server → Server
tear_down s = record s { closes = s.closes + 1 }

-- What the passages of the inner loop find: `s_running`, and the bytes that `recv` answers. The list
-- ends where the client is gone.
abbrev pub Traffic : Type 0
Traffic = List (Bool × Bytes)

-- What the passages of the outer loop find: `s_running` before the `accept`, then no client, with
-- `s_running` behind it, or a client with its traffic.
pub data Passage : Type 0 where
  stopped : Passage
  refused : Bool → Passage
  accepted : Traffic → Passage

-- The state of the whole loop: what each client so far was sent, and the state of the program; or
-- the same where a command has ended the process.
pub data Service {ℓ} (W : Type ℓ) : Type ℓ where
  serving : List Bytes → W → Service W
  ended : List Bytes → Service W

module _ {ℓ} {W : Type ℓ} (handle : Bytes → W → Option (Bytes × W)) where
  -- One client: `recv` until it is gone or the server stops.
  unfoldable pub serve_client : Traffic → Session W → Session W
  unfolding receive
  serve_client [] s = s
  serve_client ((running, chunk) ∷ rest) s =
      let more = serve_client rest (receive handle chunk s) in if running then more else s

  -- The next client begins with an empty buffer.
  unfoldable pub hang_up : List Bytes → Session W → Service W
  hang_up sent (live out buf w) = serving (sent ++ out ∷ []) w
  hang_up sent (exited out) = ended (sent ++ out ∷ [])

  unfoldable pub answer_client : Traffic → Service W → Service W
  unfolding serve_client hang_up
  answer_client traffic (serving sent w) = hang_up sent (serve_client traffic (live [] [] w))
  answer_client traffic (ended sent) = ended sent

  unfoldable pub accept_loop : List Passage → Service W → Service W
  unfolding answer_client
  accept_loop [] s = s
  accept_loop (stopped ∷ rest) s = s
  accept_loop (refused running ∷ rest) s =
      let more = accept_loop rest s in if running then more else s
  accept_loop (accepted traffic ∷ rest) s = accept_loop rest (answer_client traffic s)
