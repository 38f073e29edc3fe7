-- ===== src/Runner/Turbo/Keys.antt =====
-- What the keys of one poll leave of the fast-forward.
use pokemon_stadium_recomp.Prelude.{ℕ, Bool, false, List, [], ◌∷◌}
use pokemon_stadium_recomp.Runner.Turbo.{SdlEvent, key_down, key_up, other}

-- Events that neither end the process nor involve TAB.
pub data Quiet : List SdlEvent → Type 0 where
  none_left : Quiet []
  press : {n : ℕ} {es : List SdlEvent} → Quiet es → Quiet (key_down false n ∷ es)
  release : {es : List SdlEvent} → Quiet es → Quiet (key_up false ∷ es)
  pass : {es : List SdlEvent} → Quiet es → Quiet (other ∷ es)

-- Events without `quit`.
pub data Going : List SdlEvent → Type 0 where
  at_end : Going []
  after_down : {tab : Bool} {n : ℕ} {es : List SdlEvent} → Going es → Going (key_down tab n ∷ es)
  after_up : {tab : Bool} {es : List SdlEvent} → Going es → Going (key_up tab ∷ es)
  after_other : {es : List SdlEvent} → Going es → Going (other ∷ es)
