-- ===== src/Extras/Chain.antt =====
-- The entry and exit probes of n_alMainBusPull in extras.c: the depth of its recursion, stamped into
-- one ring of entries and exits.
pub mod Depths
use pokemon_stadium_recomp.Prelude.{
  ℕ, ◌+◌, ◌-◌, ◌%◌, ◌^◌, List, [], ◌∷◌, Bool, false, ◌&&◌, ◌||◌, not, if◌then◌else◌, replicate,
}
use pokemon_stadium_recomp.Ring.{Ring, push, at}
use pokemon_stadium_recomp.Rdram.{in_rdram}

-- `struct mbp_chain_ev`
pub record ChainEv : Type 0 where
  pub depth_in : ℕ
  pub a0_in : ℕ
  pub a1_in : ℕ
  pub v0_in : ℕ
  pub depth_out : ℕ
  pub v0_out : ℕ
  pub s0_out : ℕ
  pub kind : ℕ

abbrev pub chain_ring_cap : ℕ
chain_ring_cap = 256

-- `s_mbp_depth` is 0 or more: the exit run_probes raises it to 0.
pub record Chain : Type 0 where
  pub ring : Ring ChainEv
  pub depth : ℕ
  pub logged_bad : Bool

abbrev pub no_chain_event : ChainEv
no_chain_event = record {
  depth_in = 0;
  a0_in = 0;
  a1_in = 0;
  v0_in = 0;
  depth_out = 0;
  v0_out = 0;
  s0_out = 0;
  kind = 0;
}

unfoldable pub initial : Chain
initial = record {
  ring = record { slots = replicate chain_ring_cap no_chain_event; seq = 0 };
  depth = 0;
  logged_bad = false;
}

unfoldable pub entry_event : ℕ → ℕ → ℕ → ℕ → ChainEv
entry_event depth a0 a1 v0 = record {
  depth_in = depth % 2 ^ 32;
  a0_in = a0;
  a1_in = a1;
  v0_in = v0;
  depth_out = 0;
  v0_out = 0;
  s0_out = 0;
  kind = 0;
}

unfoldable pub mbp_entry : ℕ → ℕ → ℕ → Chain → Chain
unfolding push entry_event
mbp_entry a0 a1 v0 s = record s {
  ring = push chain_ring_cap (entry_event (s.depth + 1) a0 a1 v0) s.ring;
  depth = s.depth + 1;
}

unfoldable pub exit_event : ℕ → ℕ → ℕ → ChainEv
exit_event depth v0 s0 = record {
  depth_in = 0;
  a0_in = 0;
  a1_in = 0;
  v0_in = 0;
  depth_out = depth % 2 ^ 32;
  v0_out = v0;
  s0_out = s0;
  kind = 1;
}

-- The line shows the return value, $s0, the depth and the sequence number.
unfoldable pub mbp_exit : ℕ → ℕ → Chain → List (ℕ × ℕ × ℕ × ℕ) × Chain
unfolding push exit_event
mbp_exit v0 s0 s = (
  if not (in_rdram v0) && not s.logged_bad then (v0, s0, s.depth, s.ring.seq) ∷ [] else [],
  record {
    ring = push chain_ring_cap (exit_event s.depth v0 s0) s.ring;
    depth = s.depth - 1;
    logged_bad = s.logged_bad || not (in_rdram v0);
  },
)

unfoldable pub mbp_chain_get : Ring ChainEv → ℕ → ChainEv
unfolding at
mbp_chain_get r i = at chain_ring_cap no_chain_event r i
