-- ===== src/DebugServer/Lines/Framing.antt =====
-- How the stream is cut into chunks does not matter.
use mathlib.Core.List.{append_assoc, append-nil}
use pokemon_stadium_recomp.Prelude.{
  ℕ, zero, suc, ◌+◌, ◌<◌, ◌≡◌, refl, sym, ap, ◌∙◌, arith, false, List, [], ◌∷◌, ◌++◌, Option, none,
  some, take, drop, length, ◌==◌, if◌then◌else◌, Bool-cases, Option-cases, inl, inr, length-drop,
}
use pokemon_stadium_recomp.Prelude.Text.{Bytes, find, starts_with}
use pokemon_stadium_recomp.Prelude.Text.Find.{find-none_cons, find-some_cons, find-lt}
use pokemon_stadium_recomp.DebugServer.Lines.{
  Session, live, exited, newline, drain, receive, receive_all,
}

-- The chunks put together.
abbrev pub joined : List Bytes → Bytes
joined [] = []
joined (c ∷ cs) = c ++ joined cs

module _ {ℓ} {W : Type ℓ} (handle : Bytes → W → Option (Bytes × W)) where
  -- The reference: a byte at a time, with no buffer but the unfinished line.
  pub stream : Bytes → Session W → Session W
  stream [] s = s
  stream (c ∷ cs) (exited sent) = exited sent
  stream (c ∷ cs) (live sent buf w) =
      let answered = stream cs (elim (handle buf w) [
        | none ↦ exited sent
        | some (resp, w') ↦ live (sent ++ (resp ++ newline)) [] w'
      ]) in
      let kept = stream cs (live sent (buf ++ c ∷ []) w) in if c == b'\n' then answered else kept

  stream-exited : (cs : Bytes) (sent : Bytes) → stream cs (exited sent) ≡ exited sent
  unfolding stream
  stream-exited [] sent = refl
  stream-exited (c ∷ cs) sent = refl

  stream-append : (xs ys : Bytes) (s : Session W) → stream (xs ++ ys) s ≡ stream ys (stream xs s)
  unfolding stream
  stream-append [] ys s = refl
  stream-append (x ∷ xs) ys (exited sent) = sym (stream-exited ys sent)
  stream-append (x ∷ xs) ys (live sent buf w) = elim (Bool-cases (x == b'\n')) [
    | inl e ↦ rw e (stream-append xs ys _)
    | inr e ↦ rw e (stream-append xs ys _)
  ]

  abbrev answer : Bytes → Bytes → W → Session W
  answer sent line w = elim (handle line w) [
    | none ↦ exited sent
    | some (resp, w') ↦ live (sent ++ (resp ++ newline)) [] w'
  ]

  -- Up to the first newline the stream only fills the buffer.
  stream-find-none :
      (cs sent buf : Bytes) (w : W)
      → find newline cs ≡ none
      → stream cs (live sent buf w) ≡ live sent (buf ++ cs) w
  unfolding stream
  stream-find-none [] sent buf w h = rw (append-nil buf) refl
  stream-find-none (c ∷ cs) sent buf w h =
      let (e, later) = find-none_cons b'\n' c cs h in
      rw e (
        stream-find-none cs sent (buf ++ c ∷ []) w later
        ∙ ap (λ b. live sent b w) (append_assoc buf (c ∷ []) cs))

  stream-find-some :
      (cs sent buf : Bytes) (w : W) (i : ℕ)
      → find newline cs ≡ some i
      → stream cs (live sent buf w) ≡ stream (drop (i + 1) cs) (answer sent (buf ++ take i cs) w)
  unfolding stream
  stream-find-some [] sent buf w i h = absurd (omega (arith, find-lt b'\n' [] i h))
  stream-find-some (c ∷ cs) sent buf w i h = elim (find-some_cons b'\n' c cs i h) [
    | inl (e, z) ↦ rw (z, e, append-nil buf) refl
    | inr (e, (j, later, next)) ↦
        let shift : suc j + 1 ≡ suc (j + 1) = omega arith in
        rw (next, shift, e, ← append_assoc buf (c ∷ []) (take j cs))
          (stream-find-some cs sent (buf ++ c ∷ []) w j later)
  ]

  -- One round of `drain` on the line that ends at `i`, given the rounds that follow.
  drain-answer :
      (fuel i : ℕ) (sent buf : Bytes) (w : W)
      → ((sent' : Bytes) (w' : W)
          → drain handle fuel sent' (drop (i + 1) buf) w'
            ≡ stream (drop (i + 1) buf) (live sent' [] w'))
      → elim (handle (take i buf) w) [
        | none ↦ exited sent
        | some (resp, w') ↦ drain handle fuel (sent ++ (resp ++ newline)) (drop (i + 1) buf) w'
      ]
        ≡ stream (drop (i + 1) buf) (answer sent (take i buf) w)
  drain-answer fuel i sent buf w ih = elim (Option-cases (handle (take i buf) w)) [
    | inl n ↦ rw (n, answer) (sym (stream-exited (drop (i + 1) buf) sent))
    | inr ((resp, w'), e) ↦ rw (e, answer) (ih (sent ++ (resp ++ newline)) w')
  ]

  drain-eq-stream :
      (fuel : ℕ) (sent buf : Bytes) (w : W)
      → length buf < fuel
      → drain handle fuel sent buf w ≡ stream buf (live sent [] w)
  unfolding drain
  drain-eq-stream zero sent buf w h = absurd (omega arith)
  drain-eq-stream (suc fuel) sent buf w h = elim (Option-cases (find newline buf)) [
    | inl n ↦ rw (n, drain) (sym (stream-find-none buf sent [] w n))
    | inr (i, s) ↦
        rw (s, drain)
          (drain-answer fuel i sent buf w (λ sent' w'.
              drain-eq-stream fuel sent' (drop (i + 1) buf) w'
                (omega (arith, length-drop (i + 1) buf, find-lt b'\n' buf i s)))
            ∙ sym (stream-find-some buf sent [] w i s))
  ]

  -- The buffer between two `recv` calls holds no newline.
  abbrev Settled : Session W → Type 0
  Settled (live _ buf _) = find newline buf ≡ none
  Settled (exited _) = Unit {0}

  receive-eq-stream :
      (chunk : Bytes) (s : Session W) → Settled s → receive handle chunk s ≡ stream chunk s
  unfolding receive
  receive-eq-stream chunk (exited sent) h = sym (stream-exited chunk sent)
  receive-eq-stream chunk (live sent buf w) h =
      drain-eq-stream (suc (length (buf ++ chunk))) sent (buf ++ chunk) w (omega arith)
      ∙ stream-append buf chunk (live sent [] w)
      ∙ ap (stream chunk) (stream-find-none buf sent [] w h)

  find-concat :
      (c : ℕ) (buf : Bytes)
      → find newline buf ≡ none
      → (c == b'\n') ≡ false
      → find newline (buf ++ c ∷ []) ≡ none
  unfolding find starts_with
  find-concat c [] h e = ground arith
  find-concat c (b ∷ buf) h e = ground (arith, find-none_cons b'\n' b buf h, find-concat c buf)

  answer-Settled : (sent line : Bytes) (w : W) → Settled (answer sent line w)
  answer-Settled sent line w = elim (Option-cases (handle line w)) [
    | inl n ↦ rw (n, Settled, answer) tt
    | inr ((resp, w'), e) ↦ rw (e, Settled, answer) (unfold find in refl)
  ]

  stream-Settled : (cs : Bytes) (s : Session W) → Settled s → Settled (stream cs s)
  unfolding stream
  stream-Settled [] s h = h
  stream-Settled (c ∷ cs) (exited sent) h = tt
  stream-Settled (c ∷ cs) (live sent buf w) h = elim (Bool-cases (c == b'\n')) [
    | inl e ↦ rw e (stream-Settled cs (answer sent buf w) (answer-Settled sent buf w))
    | inr e ↦ rw e (stream-Settled cs (live sent (buf ++ c ∷ []) w) (find-concat c buf h e))
  ]

  receive_all-Settled :
      (chunks : List Bytes) (s : Session W)
      → Settled s
      → receive_all handle chunks s ≡ stream (joined chunks) s
  unfolding receive_all stream
  receive_all-Settled [] s h = refl
  receive_all-Settled (c ∷ cs) s h =
      ap (receive_all handle cs) (receive-eq-stream c s h)
      ∙ receive_all-Settled cs (stream c s) (stream-Settled c s h)
      ∙ sym (stream-append c (joined cs) s)

  -- However the client's bytes are cut into `recv` chunks, the responses, the unfinished line and
  -- the server's state are those of the byte-at-a-time reference: each complete line is handled once,
  -- in order, and the process ends at the command that ends it.
  pub receive_all-eq-stream :
      (chunks : List Bytes) (w : W)
      → receive_all handle chunks (live [] [] w) ≡ stream (joined chunks) (live [] [] w)
  receive_all-eq-stream chunks w = receive_all-Settled chunks (live [] [] w) (unfold find in refl)
