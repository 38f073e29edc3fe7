-- ===== src/DebugServer/Lines.antt =====
-- The socket loop of `server_loop`: bytes arrive in chunks, each complete line is a command, and its
-- response goes out with a newline. The commands are a parameter: `handle` answers a line, or ends
-- the process (`none`).
pub mod Framing
use pokemon_stadium_recomp.Prelude.{
  ℕ, zero, suc, ◌+◌, List, [], ◌∷◌, ◌++◌, Option, none, some, take, drop, length,
}
use pokemon_stadium_recomp.Prelude.Text.{Bytes, find}

-- One client connection: what was sent, the bytes of an unfinished line, and the server's state;
-- `exited` once a command has ended the process.
pub data Session {ℓ} (W : Type ℓ) : Type ℓ where
  live : Bytes → Bytes → W → Session W
  exited : Bytes → Session W

abbrev pub newline : Bytes
newline = b'\n' ∷ []

module _ {ℓ} {W : Type ℓ} (handle : Bytes → W → Option (Bytes × W)) where
  -- `while ((nl = buf.find('\n')) != npos)`: each round takes a line off the buffer.
  unfoldable pub drain : ℕ → Bytes → Bytes → W → Session W
  unfolding find
  drain zero sent buf w = live sent buf w
  drain (suc fuel) sent buf w = elim (find newline buf) [
    | none ↦ live sent buf w
    | some nl ↦ elim (handle (take nl buf) w) [
      | none ↦ exited sent
      | some (resp, w') ↦ drain fuel (sent ++ (resp ++ newline)) (drop (nl + 1) buf) w'
    ]
  ]

  -- `buf.append(chunk)` and the loop over its lines. A buffer has at most one line for each byte.
  unfoldable pub receive : Bytes → Session W → Session W
  unfolding drain
  receive chunk (live sent buf w) = drain (suc (length (buf ++ chunk))) sent (buf ++ chunk) w
  receive chunk (exited sent) = exited sent

  unfoldable pub receive_all : List Bytes → Session W → Session W
  unfolding receive
  receive_all [] s = s
  receive_all (chunk ∷ chunks) s = receive_all chunks (receive chunk s)
