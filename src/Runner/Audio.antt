-- ===== src/Runner/Audio.antt =====
-- The audio callbacks: the buffer that `queue_samples` hands to the SDL converter,
-- `get_frames_remaining`, and `update_audio_converter`. Samples are of a type `S`; the product of a
-- 16-bit sample with the volume is a parameter.
pub mod Overlap
pub mod Timing
pub mod Thinning
use pokemon_stadium_recomp.Prelude.{
  ℕ, zero, suc, ◌+◌, ◌-◌, ◌*◌, ◌/◌, ◌%◌, ◌^◌, Bool, true, false, List, [], ◌∷◌, ◌++◌, Option, none,
  some, length, take, drop, replicate, ltb, leb, if◌then◌else◌,
}
use pokemon_stadium_recomp.Prelude.Int.{ℤ}

-- `duplicated_input_frames * input_channels`
abbrev pub overlap : ℕ
overlap = 8

-- The volume at the time of the call: whether it is 0, and the sample scaled by it.
pub record Volume {ℓ} (S : Type ℓ) : Type ℓ where
  pub muted : Bool
  pub scaled : ℤ → S

-- The conversion loop: two channels a round, swapped. A last round with one sample left, which would
-- read behind the chunk, is left out.
unfoldable pub swap_channels {ℓ} : {S : Type ℓ} → Volume S → List ℤ → List S
swap_channels v [] = []
swap_channels v (right ∷ []) = []
swap_channels v (right ∷ left ∷ rest) = v.scaled left ∷ v.scaled right ∷ swap_channels v rest

-- `swap_buffer` as far as the converter reads it: the frames carried over, then the chunk.
unfoldable pub converter_input {ℓ} : {S : Type ℓ} → Volume S → List ℤ → List S → List S
unfolding swap_channels
converter_input v chunk carried = carried ++ swap_channels v chunk

-- One call up to `SDL_ConvertAudio`: what the converter gets, if it is called, and the frames that are
-- carried over to the next call.
unfoldable pub queue_chunk {ℓ} :
    {S : Type ℓ} → Volume S → List ℤ → List S → Option (List S) × List S
unfolding converter_input
queue_chunk v chunk carried =
    let buffer = converter_input v chunk carried in
    if v.muted
    then (none, carried)
    else if leb (length chunk) overlap
    then (none, carried)
    else (some buffer, take overlap (drop (length chunk) buffer))

-- The globals `sample_rate`, `output_sample_rate` and `discarded_output_frames`.
pub record Rates : Type 0 where
  pub sample_rate : ℕ
  pub output_sample_rate : ℕ
  pub discarded_output_frames : ℕ

-- `update_audio_converter`; `none` where SDL refuses the conversion and it throws.
unfoldable pub update_audio_converter : (ℕ → ℕ → Bool) → Rates → Option Rates
update_audio_converter builds r =
    if builds r.sample_rate r.output_sample_rate
    then some (record r {
      discarded_output_frames = ((4 * r.output_sample_rate) / r.sample_rate) % 2 ^ 32;
    })
    else none

unfoldable pub set_frequency : (ℕ → ℕ → Bool) → ℕ → Rates → Option Rates
unfolding update_audio_converter
set_frequency builds freq r = update_audio_converter builds (record r { sample_rate = freq })

-- `get_frames_remaining`, with `queued` the bytes that SDL reports. The float product of the offset is
-- exact at the rates that occur, so it is taken in whole numbers.
unfoldable pub get_frames_remaining : Bool → ℕ → Rates → ℕ
get_frames_remaining fast_forward queued r =
    let bytes = (((queued * 2 * r.sample_rate) % 2 ^ 64) / r.output_sample_rate) / 2 in
    let offset = 8 * (r.sample_rate / 60) in
    if fast_forward then 0 else ((if ltb offset bytes then bytes - offset else 0) / 8)
