-- ===== src/Renderer/Setup/Supported.antt =====
-- What the context offers behind its set-up.
use pokemon_stadium_recomp.Prelude.{Option}
