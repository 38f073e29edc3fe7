-- ===== src/Extras/Wavetable.antt =====
-- The ring of SET_WAVETABLE calls in extras.c, and the history of one filter that the overflow probe
-- prints from it. The probe itself prints for the first eight filters that overflow.
pub mod Recent
use pokemon_stadium_recomp.Prelude.{
  ℕ, zero, suc, ◌+◌, ◌-◌, ◌%◌, ◌^◌, min, List, [], ◌∷◌, Option, none, some, if◌then◌else◌, not,
  ◌==◌, replicate, leb,
}
use pokemon_stadium_recomp.Ring.{Ring, push, at}
use pokemon_stadium_recomp.Rdram.{Rdram, load_be32, in_rdram, physical}

-- `struct wavetable_ev`
pub record WavetableEv : Type 0 where
  pub seq : ℕ
  pub filter : ℕ
  pub param : ℕ
  pub first8_hi : ℕ
  pub first8_lo : ℕ
  pub second8_hi : ℕ
  pub second8_lo : ℕ

abbrev pub wavetable_ring_cap : ℕ
wavetable_ring_cap = 64

abbrev pub no_wavetable : WavetableEv
no_wavetable = record {
  seq = 0;
  filter = 0;
  param = 0;
  first8_hi = 0;
  first8_lo = 0;
  second8_hi = 0;
  second8_lo = 0;
}

unfoldable pub initial : Ring WavetableEv
initial = record { slots = replicate wavetable_ring_cap no_wavetable; seq = 0 }

-- A word of the wavetable; a parameter outside of RDRAM shows zeros.
unfoldable pub word_at : Rdram → ℕ → ℕ → ℕ
unfolding load_be32
word_at rdram param off = if in_rdram param then load_be32 rdram (physical param + off) else 0

unfoldable pub wavetable_event : Rdram → ℕ → ℕ → ℕ → WavetableEv
unfolding word_at
wavetable_event rdram filter param s = record {
  seq = s;
  filter = filter;
  param = param;
  first8_hi = word_at rdram param 0;
  first8_lo = word_at rdram param 4;
  second8_hi = word_at rdram param 8;
  second8_lo = word_at rdram param 12;
}

unfoldable pub set_wavetable_probe : Rdram → ℕ → ℕ → ℕ → Ring WavetableEv → Ring WavetableEv
unfolding push wavetable_event
set_wavetable_probe rdram filter param_id param r =
    if not (param_id == 5)
    then r
    else push wavetable_ring_cap (wavetable_event rdram filter param r.seq) r

-- The walk backwards from number `s - 1` on, over `fuel` events: `room` matches may still be shown.
unfoldable pub walk_back : ℕ → Ring WavetableEv → ℕ → ℕ → ℕ → List WavetableEv
unfolding at
walk_back filter r zero s room = []
walk_back filter r (suc fuel) s zero = []
walk_back filter r (suc fuel) s (suc room) =
    let e = at wavetable_ring_cap no_wavetable r (s - 1) in
    let skipped = walk_back filter r fuel (s - 1) (suc room) in
    let shown = walk_back filter r fuel (s - 1) room in
    if not (e.filter == filter)
    then skipped
    else if not (e.seq == s - 1)
    then skipped
    else e ∷ shown

-- The lines of `pkmnstadium_wt_dump_for_filter`; with none it prints that there are none.
unfoldable pub wt_dump_for_filter : ℕ → Ring WavetableEv → List WavetableEv
unfolding walk_back
wt_dump_for_filter filter r = walk_back filter r (min wavetable_ring_cap r.seq) r.seq 4
