-- ===== src/Runner/Audio/Thinning.antt =====
-- The end of `queue_samples`, behind the converter: what of its output goes to SDL's queue. When much
-- is queued already, samples are skipped in place. The output buffer is a function from a sample's
-- number to the sample.
pub mod Skipped
use pokemon_stadium_recomp.Prelude.{
  ℕ, zero, suc, ◌+◌, ◌-◌, ◌*◌, ◌/◌, ◌%◌, ◌^◌, Bool, true, false, ◌==◌, if◌then◌else◌,
}
use pokemon_stadium_recomp.Runner.Audio.{Rates}

-- `queued` is `SDL_GetQueuedAudioSize`.
unfoldable pub queued_microseconds : ℕ → Rates → ℕ
queued_microseconds queued r = queued / 8 * 1000000 / r.sample_rate

unfoldable pub skip_factor : ℕ → Rates → ℕ
unfolding queued_microseconds
skip_factor queued r = (queued_microseconds queued r / 100000) % 2 ^ 32

-- The discarded frames are taken off the converter's bytes, half of them at the front.
unfoldable pub bytes_to_queue : ℕ → Rates → ℕ
bytes_to_queue len_cvt r = (len_cvt + 2 ^ 32 - (8 * r.discarded_output_frames) % 2 ^ 32) % 2 ^ 32

unfoldable pub first_sample : Rates → ℕ
first_sample r = (2 * r.discarded_output_frames) % 2 ^ 32 / 2

module _ {ℓ} {S : Type ℓ} where
  unfoldable pub put : ℕ → S → (ℕ → S) → ℕ → S
  put k x samples i = if i == k then x else samples i

  -- One round of the loop: frame `ratio * i` goes to place `i`, its two samples one after the other.
  unfoldable pub move_frame : ℕ → ℕ → (ℕ → S) → ℕ → S
  unfolding put
  move_frame ratio i samples =
      let left = put (2 * i + 0) (samples (2 * ratio * i + 0)) samples in
      put (2 * i + 1) (left (2 * ratio * i + 1)) left

  -- `n` rounds from round `i` on.
  unfoldable pub skip_from : ℕ → ℕ → ℕ → (ℕ → S) → ℕ → S
  unfolding move_frame
  skip_from ratio zero i samples = samples
  skip_from ratio (suc n) i samples = skip_from ratio n (i + 1) (move_frame ratio i samples)

  -- The bytes that are queued, and the samples, for the factor `f` and `bytes` bytes.
  unfoldable pub thin : ℕ → ℕ → (ℕ → S) → ℕ × (ℕ → S)
  unfolding skip_from
  thin f bytes samples =
      if f == 0
      then (bytes, samples)
      else (bytes / 2 ^ f, skip_from (2 ^ f) (bytes / 2 ^ f / 8) 0 samples)

  -- The bytes and the samples that `SDL_QueueAudio` gets, for a factor below 31: there neither
  -- `1u << skip_factor` nor its double leaves 32 bits. `converted` is the converter's output of
  -- `len_cvt` bytes.
  unfoldable pub queue_converted : ℕ → Rates → ℕ → (ℕ → S) → ℕ × (ℕ → S)
  unfolding thin skip_factor bytes_to_queue first_sample
  queue_converted queued r len_cvt converted =
      thin (skip_factor queued r) (bytes_to_queue len_cvt r) (λ i. converted (first_sample r + i))
