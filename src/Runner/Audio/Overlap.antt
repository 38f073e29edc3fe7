-- ===== src/Runner/Audio/Overlap.antt =====
-- The converter sees one stream: each of its inputs begins with the end of the stream before it.
use pokemon_stadium_recomp.Prelude.{
  ◌-◌, ◌%◌, ◌<◌, ◌≡◌, false, List, [], ◌∷◌, ◌++◌, Option, some, length, drop,
}
use pokemon_stadium_recomp.Prelude.Int.{ℤ}
use pokemon_stadium_recomp.Runner.Audio.{overlap, Volume, swap_channels, queue_chunk}

module _ {ℓ} {S : Type ℓ} where
  -- The last `overlap` samples of a stream.
  pub ending : List S → List S
  ending xs = drop (length xs - overlap) xs

  -- A chunk that is queued: whole frames, more than are carried over, and not muted.
  pub record IsAudible (chunk : Volume S × List ℤ) : Type ℓ where
    pub loud : chunk.0.muted ≡ false
    pub even : length chunk.1 % 2 ≡ 0
    pub long : overlap < length chunk.1

  -- The stream that the game produces, channels swapped, behind `pre`.
  pub heard : Volume S × List ℤ → List S
  heard (v, chunk) = swap_channels v chunk

  -- The converter's inputs over a sequence of calls, and the last carried frames.
  unfoldable pub queue_all : List (Volume S × List ℤ) → List S → List (Option (List S))
  unfolding queue_chunk
  queue_all [] carried = []
  queue_all (c ∷ cs) carried =
      let (input, next) = queue_chunk c.0 c.1 carried in input ∷ queue_all cs next

  -- The same inputs, cut from the one stream behind `pre`.
  pub stream_inputs : List (Volume S × List ℤ) → List S → List (Option (List S))
  stream_inputs [] pre = []
  stream_inputs (c ∷ cs) pre = some (ending pre ++ heard c) ∷ stream_inputs cs (pre ++ heard c)

  pub data AllAudible : List (Volume S × List ℤ) → Type ℓ where
    none_left : AllAudible []
    one_more :
        {c : Volume S × List ℤ} {cs : List (Volume S × List ℤ)}
        → IsAudible c
        → AllAudible cs
        → AllAudible (c ∷ cs)
