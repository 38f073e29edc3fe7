-- ===== src/Extras/Trace.antt =====
-- The TRACE_ENTRY and TRACE_RETURN ring of extras.c, and the counters of the 48 functions that it
-- singles out. A `const char *` is the text it points at: the hook compares addresses, and relies on
-- the linker to keep one copy of each literal.
pub mod Counts
use pokemon_stadium_recomp.Prelude.{
  ℕ, ◌+◌, ◌-◌, ◌%◌, ◌^◌, List, [], ◌∷◌, Option, none, some, bit_and, get_or, set, get_elem?,
  replicate, if◌then◌else◌,
}
use pokemon_stadium_recomp.Prelude.Text.{Bytes, codes, equal}
use pokemon_stadium_recomp.Ring.{Ring}

abbrev pub trace_ring_cap : ℕ
trace_ring_cap = 4096

abbrev pub interesting_fns : List Bytes
interesting_fns =
    codes "func_80005084"
    ∷ codes "func_80005148"
    ∷ codes "func_80004B0C"
    ∷ codes "func_80004C68"
    ∷ codes "func_80004E94"
    ∷ codes "func_80004F08"
    ∷ codes "func_80004F70"
    ∷ codes "func_80004E60"
    ∷ codes "func_800049D4"
    ∷ codes "func_80005194"
    ∷ codes "func_8000183C"
    ∷ codes "Game_Thread"
    ∷ codes "fragment17_entry"
    ∷ codes "fragment36_entry"
    ∷ codes "func_800290E4"
    ∷ codes "func_80029310"
    ∷ codes "func_800293CC"
    ∷ codes "Cont_ReadInputs"
    ∷ codes "func_821009B4"
    ∷ codes "func_82100054"
    ∷ codes "func_82100AB8"
    ∷ codes "func_82100C98"
    ∷ codes "fragment37_entry"
    ∷ codes "func_80029828"
    ∷ codes "func_8003AD58"
    ∷ codes "func_8003C204"
    ∷ codes "func_8003979C"
    ∷ codes "func_80037340"
    ∷ codes "func_80038B68"
    ∷ codes "n_alAudioFrame"
    ∷ codes "func_80039D58"
    ∷ codes "func_80039F28"
    ∷ codes "func_8003A10C"
    ∷ codes "func_8003BD2C"
    ∷ codes "func_8003B214"
    ∷ codes "func_8003B2B4"
    ∷ codes "n_alInit"
    ∷ codes "n_alSynNew"
    ∷ codes "func_800069F0"
    ∷ codes "func_80006FE8"
    ∷ codes "func_80007778"
    ∷ codes "func_821005EC"
    ∷ codes "func_82100B1C"
    ∷ codes "func_800076C0"
    ∷ codes "func_8000D2B4"
    ∷ codes "func_8004FF20"
    ∷ codes "func_80005EAC"
    ∷ codes "main_pool_pop_state"
    ∷ []

-- `trace_ring`, whose slots start as null pointers, and `k_interesting_counts`.
pub record Trace : Type 0 where
  pub ring : Ring (Option Bytes)
  pub counts : List ℕ

unfoldable pub initial : Trace
initial = record {
  ring = record { slots = replicate trace_ring_cap none; seq = 0 };
  counts = replicate 48 0;
}

-- `trace_ring[idx & (TRACE_RING_CAP - 1)] = func`, at the old value of the counter.
unfoldable pub write : Option Bytes → Ring (Option Bytes) → Ring (Option Bytes)
write func r = record {
  slots = set r.slots (bit_and r.seq (trace_ring_cap - 1)) func;
  seq = (r.seq + 1) % 2 ^ 64;
}

-- The loop over the names: the first that is `func` is counted, and the loop ends.
unfoldable pub count_fn : Bytes → List Bytes → List ℕ → List ℕ
count_fn func (name ∷ names) (c ∷ cs) =
    if equal func name then ((c + 1) % 2 ^ 64) ∷ cs else c ∷ count_fn func names cs
count_fn func _ cs = cs

unfoldable pub trace_entry : Bytes → Trace → Trace
unfolding write count_fn
trace_entry func t = record {
  ring = write (some func) t.ring;
  counts = count_fn func interesting_fns t.counts;
}

unfoldable pub trace_return : Bytes → Trace → Trace
unfolding write
trace_return func t = record t { ring = write (some func) t.ring }

-- `pkmnstadium_trace_at`
unfoldable pub trace_at : Ring (Option Bytes) → ℕ → Option Bytes
trace_at r idx = get_or r.slots (bit_and idx (trace_ring_cap - 1)) none

-- `pkmnstadium_interesting_fn_count`; an index out of range counts 0.
unfoldable pub interesting_fn_count : Trace → ℕ → ℕ
interesting_fn_count t idx = get_or t.counts idx 0

unfoldable pub interesting_fn_name : ℕ → Option Bytes
interesting_fn_name idx = get_elem? interesting_fns idx
