-- ===== src/Ring.antt =====
-- The overwriting event rings of extras.c and debug_server.cpp: a static array of `cap` slots and
-- a monotonic 64-bit sequence number, whose slot is `seq % cap`.
pub mod Window
use pokemon_stadium_recomp.Prelude.{ℕ, ◌+◌, ◌%◌, ◌^◌, List, get_or, set}

pub record Ring {ℓ} (A : Type ℓ) : Type ℓ where
  pub slots : List A
  pub seq : ℕ

module _ {ℓ} {A : Type ℓ} (cap : ℕ) where
  -- `uint64_t s = seq++; ring[s % cap] = event`
  unfoldable pub push : A → Ring A → Ring A
  push x r = record { slots = set r.slots (r.seq % cap) x; seq = (r.seq + 1) % 2 ^ 64 }

  -- `ring[i % cap]`; `d` only fills in for an array shorter than `cap`.
  unfoldable pub at : A → Ring A → ℕ → A
  at d r i = get_or r.slots (i % cap) d
