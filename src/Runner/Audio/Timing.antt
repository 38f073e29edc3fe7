-- ===== src/Runner/Audio/Timing.antt =====
-- What the game is told about the audio that is still to be played.
use native.Mathlib.Nat.{mul-div_cancel}
use pokemon_stadium_recomp.Prelude.{
  ℕ, ◌-◌, ◌*◌, ◌/◌, ◌%◌, ◌^◌, ◌<◌, ◌≡◌, refl, arith, true, false, ltb, if◌then◌else◌,
}
use pokemon_stadium_recomp.Runner.Audio.{get_frames_remaining}

mod_small : (n : ℕ) → n < 2 ^ 64 → n % 2 ^ 64 ≡ n
mod_small n h = omega arith

left_over :
    (queued v : ℕ)
    → (if ltb (8 * v) (queued * 2 / 2) then queued * 2 / 2 - 8 * v else 0) / 8 ≡ queued / 8 - v
left_over queued v = ground arith

-- At equal rates, above 0, and short of overflow: in fast-forward the buffer reads as empty, and
-- otherwise as the whole frames queued, of 8 bytes, less one frame of video, a 60th of a second.
pub get_frames_remaining_lem :
    (queued rate discarded : ℕ)
    → 0 < rate
    → queued * 2 * rate < 2 ^ 64
    → (get_frames_remaining true queued (record {
      sample_rate = rate;
      output_sample_rate = rate;
      discarded_output_frames = discarded;
    })
        ≡ 0)
      × (get_frames_remaining false queued (record {
        sample_rate = rate;
        output_sample_rate = rate;
        discarded_output_frames = discarded;
      })
          ≡ queued / 8 - rate / 60)
unfolding get_frames_remaining
get_frames_remaining_lem queued rate discarded pos small =
    let whole : (queued * 2 * rate) % 2 ^ 64 ≡ queued * 2 * rate =
      mod_small (queued * 2 * rate) small in
    let back : queued * 2 * rate / rate ≡ queued * 2 = mul-div_cancel (queued * 2) pos in
    (refl, rw (whole, back) (left_over queued (rate / 60)))
