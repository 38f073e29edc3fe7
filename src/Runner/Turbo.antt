-- ===== src/Runner/Turbo.antt =====
-- Fast-forward and volume: the `PSR_TURBO` and `PSR_VOLUME` variables at start-up, and the TAB key of
-- `update_gfx`. SDL's events are reduced to what is read of them.
pub mod Keys
use pokemon_stadium_recomp.Prelude.{
  ℕ, Bool, true, false, not, ◌&&◌, ◌||◌, List, [], ◌∷◌, Option, none, some, get_or, ◌==◌,
}
use pokemon_stadium_recomp.Prelude.Text.{Bytes}
use pokemon_stadium_recomp.DebugServer.State.{Dbg}
use pokemon_stadium_recomp.DebugServer.Queries.{FloatOps, clamp_volume}

-- The first characters that turn it off by themselves.
abbrev is_no : ℕ → Bool
is_no c = c == b'0' || c == b'f' || c == b'F' || c == b'n' || c == b'N'

-- `none` is an unset variable. A text is read as a C string, with its terminator behind it.
unfoldable pub turbo_default : Option Bytes → Bool
turbo_default none = true
turbo_default (some text) =
    let c = get_or text 0 0 in
    let second = get_or text 1 0 in
    not (is_no c) && not ((c == b'o' || c == b'O') && (second == b'f' || second == b'F'))

-- `PSR_VOLUME`; an unset variable leaves the volume.
unfoldable pub start_volume : FloatOps → Option Bytes → Dbg → Dbg
unfolding clamp_volume
start_volume fl none s = s
start_volume fl (some text) s = record s { audio_volume = clamp_volume fl (fl.parse text) }

-- An event: of a key, with whether it is TAB, and for a press SDL's repeat count.
pub data SdlEvent : Type 0 where
  quit : SdlEvent
  key_down : Bool → ℕ → SdlEvent
  key_up : Bool → SdlEvent
  other : SdlEvent

-- `update_gfx` over the events that are polled; `none` once one of them ends the process.
unfoldable pub update_gfx : Bool → List SdlEvent → Bool → Option Bool
update_gfx persistent [] fast_forward = some fast_forward
update_gfx persistent (quit ∷ es) fast_forward = none
update_gfx persistent (key_down tab repeat ∷ es) fast_forward =
    update_gfx persistent es ((tab && (repeat == 0)) || fast_forward)
update_gfx persistent (key_up true ∷ es) fast_forward = update_gfx persistent es persistent
update_gfx persistent (key_up false ∷ es) fast_forward = update_gfx persistent es fast_forward
update_gfx persistent (other ∷ es) fast_forward = update_gfx persistent es fast_forward
