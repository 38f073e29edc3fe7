-- ===== src/Runner/Audio/Thinning/Skipped.antt =====
-- Skipping in place keeps every `ratio`-th frame: no round reads what an earlier one wrote.
use mathlib.Core.Path.{subst}
use native.Mathlib.Nat.{one-le-pow}
use pokemon_stadium_recomp.Prelude.{
  ℕ, zero, suc, ◌+◌, ◌*◌, ◌/◌, ◌^◌, ◌<◌, ◌≤◌, ◌≡◌, refl, sym, ap, ◌∙◌, arith, true, false, ◌==◌,
  Bool-cases, inl, inr,
}
use pokemon_stadium_recomp.Runner.Audio.{Rates}
use pokemon_stadium_recomp.Runner.Audio.Thinning.{
  put, move_frame, skip_from, thin, skip_factor, bytes_to_queue, first_sample, queue_converted,
}

times_twice : (ratio i : ℕ) → 2 * ratio * i ≡ 2 * (ratio * i)
times_twice ratio i = grind arith

mul_grows : (ratio j : ℕ) → 1 ≤ ratio → j ≤ ratio * j
mul_grows zero j h = absurd (omega (arith, h))
mul_grows (suc r) j h = omega arith

is_later : (i j : ℕ) → i ≤ j → (i == j) ≡ false → i < j
is_later i j low e = ground (arith, low, e)

is_now : (i j : ℕ) → (i == j) ≡ true → j ≡ i
is_now i j e = ground (arith, e)

-- A frame behind place `i` is read from behind the places that round `i` writes.
is_behind : (ratio i j c : ℕ) → 1 ≤ ratio → i < j → 2 * i + 1 < 2 * ratio * j + c
is_behind ratio i j c some later =
    let grown = mul_grows ratio j some in rw (times_twice ratio j) (omega (arith, grown, later))

pow_pos : (f : ℕ) → 1 ≤ 2 ^ f
pow_pos f = one-le-pow f 2 (omega arith)

mul_mono : (p a b : ℕ) → a ≤ b → p * a ≤ p * b
mul_mono p a b h = grind arith

spread : (p j : ℕ) → p * (8 * j + 8) ≡ 8 * (p * j) + 8 * p
spread p j = grind arith

-- A frame that is queued was read from the converter's bytes.
inside : (b p j c : ℕ) → 1 ≤ p → c < 2 → j < b / p / 8 → 4 * (2 * p * j + c) + 4 ≤ b
inside b p j c some small h =
    let room : 8 * j + 8 ≤ b / p = omega (arith, h) in
    let times : p * (8 * j + 8) ≤ p * (b / p) = mul_mono p _ _ room in
    let part : p * (b / p) ≤ b = grind arith in
    rw (times_twice p j) (omega (arith, times, part, some, small, spread p j))

module _ {ℓ} {S : Type ℓ} where
  move_frame-below : (ratio i k : ℕ) (s : ℕ → S) → k < 2 * i → move_frame ratio i s k ≡ s k
  unfolding move_frame put
  move_frame-below ratio i k s h = ground (arith, h)

  move_frame-above : (ratio i k : ℕ) (s : ℕ → S) → 2 * i + 1 < k → move_frame ratio i s k ≡ s k
  unfolding move_frame put
  move_frame-above ratio i k s h = ground (arith, h)

  skip_from-below : (ratio n i k : ℕ) (s : ℕ → S) → k < 2 * i → skip_from ratio n i s k ≡ s k
  unfolding skip_from
  skip_from-below ratio zero i k s h = refl
  skip_from-below ratio (suc n) i k s h =
      skip_from-below ratio n (i + 1) k (move_frame ratio i s) (omega (arith, h))
      ∙ move_frame-below ratio i k s h

  move_frame-here :
      (ratio i c : ℕ) (s : ℕ → S) → c < 2 → move_frame ratio i s (2 * i + c) ≡ s (2 * ratio * i + c)
  unfolding move_frame put
  move_frame-here ratio i zero s h = rw (times_twice ratio i) (ground arith)
  move_frame-here ratio i (suc zero) s h = rw (times_twice ratio i) (ground arith)
  move_frame-here ratio i (suc (suc c)) s h = absurd (omega (arith, h))

  skip_from-within :
      (ratio n i j c : ℕ) (s : ℕ → S)
      → 1 ≤ ratio
      → c < 2
      → i ≤ j
      → j < i + n
      → skip_from ratio n i s (2 * j + c) ≡ s (2 * ratio * j + c)
  unfolding skip_from
  skip_from-within ratio zero i j c s some small low high = absurd (omega (arith, low, high))
  skip_from-within ratio (suc n) i j c s some small low high = elim (Bool-cases (i == j)) [
    | inl e ↦
        let same = is_now i j e in
        skip_from-below ratio n (i + 1) (2 * j + c) (move_frame ratio i s)
          (omega (arith, same, small))
        ∙ ap (λ k. move_frame ratio i s (2 * k + c)) same
        ∙ move_frame-here ratio i c s small
        ∙ ap (λ k. s (2 * ratio * k + c)) (sym same)
    | inr e ↦
        let later = is_later i j low e in
        skip_from-within ratio n (i + 1) j c (move_frame ratio i s) some small
          (omega (arith, later)) (omega (arith, high))
        ∙ move_frame-above ratio i (2 * ratio * j + c) s (is_behind ratio i j c some later)
  ]

  thin-later :
      (f bytes : ℕ) (s : ℕ → S)
      → (f == 0) ≡ false
      → thin f bytes s ≡ (bytes / 2 ^ f, skip_from (2 ^ f) (bytes / 2 ^ f / 8) 0 s)
  unfolding thin
  thin-later f bytes s e = rw e refl

  later_frames :
      (f bytes : ℕ) (s : ℕ → S) (j c : ℕ)
      → c < 2
      → (f == 0) ≡ false
      → j < (thin f bytes s).0 / 8
      → ((thin f bytes s).0 ≡ bytes / 2 ^ f)
        × ((thin f bytes s).1 (2 * j + c) ≡ s (2 * 2 ^ f * j + c))
        × (4 * (2 * 2 ^ f * j + c) + 4 ≤ bytes)
  later_frames f bytes s j c small e =
      subst
        (λ q.
          j < q.0 / 8
          → (q.0 ≡ bytes / 2 ^ f)
            × (q.1 (2 * j + c) ≡ s (2 * 2 ^ f * j + c))
            × (4 * (2 * 2 ^ f * j + c) + 4 ≤ bytes))
        (sym (thin-later f bytes s e))
        (λ h. (
          refl,
          skip_from-within (2 ^ f) _ 0 j c s (pow_pos f) small (omega arith) (omega (arith, h)),
          inside bytes (2 ^ f) j c (pow_pos f) small h,
        ))

  thin-frames :
      (f bytes : ℕ) (s : ℕ → S) (j c : ℕ)
      → c < 2
      → j < (thin f bytes s).0 / 8
      → ((thin f bytes s).0 ≡ bytes / 2 ^ f)
        × ((thin f bytes s).1 (2 * j + c) ≡ s (2 * 2 ^ f * j + c))
        × (4 * (2 * 2 ^ f * j + c) + 4 ≤ bytes)
  unfolding thin
  thin-frames zero bytes s j c small h = (omega arith, ap s (omega arith), omega (arith, h, small))
  thin-frames (suc f) bytes s j c small h = later_frames (suc f) bytes s j c small (ground arith) h

-- Of the converter's output, behind the discarded start, the queue gets every 2^f-th frame, in order,
-- and the 2^f-th part of the bytes, where f is the number of tenths of a second that are queued
-- already. Each sample comes from the bytes that the converter wrote, less the discarded ones.
pub queue_converted-frames {ℓ} :
    {S : Type ℓ} (queued : ℕ) (r : Rates) (len_cvt : ℕ) (converted : ℕ → S) (j c : ℕ)
    → c < 2
    → j < (queue_converted queued r len_cvt converted).0 / 8
    → ((queue_converted queued r len_cvt converted).0
        ≡ bytes_to_queue len_cvt r / 2 ^ skip_factor queued r)
      × ((queue_converted queued r len_cvt converted).1 (2 * j + c)
          ≡ converted (first_sample r + (2 * 2 ^ skip_factor queued r * j + c)))
      × (4 * (2 * 2 ^ skip_factor queued r * j + c) + 4 ≤ bytes_to_queue len_cvt r)
unfolding queue_converted
queue_converted-frames queued r len_cvt converted j c small h =
    thin-frames (skip_factor queued r) (bytes_to_queue len_cvt r)
      (λ i. converted (first_sample r + i)) j c small h
