-- ===== src/Threads/Stack.antt =====
-- What the walks show of a frame.
use pokemon_stadium_recomp.Prelude.{ℕ, zero, suc, List, [], ◌∷◌, none, some, ◌==◌, if◌then◌else◌}
use pokemon_stadium_recomp.Prelude.Text.{Bytes, codes}
use pokemon_stadium_recomp.Threads.{Frame}

-- The frames up to the first without an address, at most `n`.
unfoldable pub shown : ℕ → List Frame → List Frame
shown zero frames = []
shown (suc n) [] = []
shown (suc n) (f ∷ frames) = if f.pc == 0 then [] else f ∷ shown n frames

unfoldable pub symbol_text : Frame → Bytes
symbol_text f = elim f.symbol [ none ↦ codes "?" | some name ↦ name ]

unfoldable pub file_text : Frame → Bytes
file_text f = elim f.place [ none ↦ codes "?" | some (file, line) ↦ file ]

unfoldable pub line_number : Frame → ℕ
line_number f = elim f.place [ none ↦ 0 | some (file, line) ↦ line ]
