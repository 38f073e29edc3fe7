-- ===== src/Extras/Snapshots.antt =====
-- The snapshots of called display lists in extras.c: `pkmnstadium_gdl_submit_snapshot`, which walks a
-- submitted list, and `pkmnstadium_gdl_walk_snapshot`, which RT64 calls as it interprets one. The
-- 32-bit offsets of the walk_commands stay below 0x810000, so they do not wrap.
pub mod Reversed
pub mod Submitted
use pokemon_stadium_recomp.Prelude.{
  ℕ, zero, suc, ◌+◌, ◌*◌, ◌/◌, ◌%◌, ◌^◌, List, [], ◌∷◌, Option, none, some, Bool, ◌&&◌, ltb, leb,
  ◌==◌, if◌then◌else◌, bit_and, bit_or, replicate,
}
use pokemon_stadium_recomp.Ring.{Ring, push, at}
use pokemon_stadium_recomp.Rdram.{Rdram}

-- `struct gdl_snap_ev`
pub record SnapEv : Type 0 where
  pub submit_seq : ℕ
  pub target_vaddr : ℕ
  pub parent_vaddr : ℕ
  pub head : List ℕ

abbrev pub snap_ring_cap : ℕ
snap_ring_cap = 1024

abbrev pub max_cmds : ℕ
max_cmds = 8192

abbrev pub no_snap : SnapEv
no_snap = record { submit_seq = 0; target_vaddr = 0; parent_vaddr = 0; head = replicate 16 0 }

-- `rdram[off] << 24 | rdram[off+1] << 16 | rdram[off+2] << 8 | rdram[off+3]`
unfoldable pub raw_word : Rdram → ℕ → ℕ
raw_word rdram off =
    bit_or
      (bit_or (bit_or (rdram off * 2 ^ 24) (rdram (off + 1) * 2 ^ 16)) (rdram (off + 2) * 2 ^ 8))
      (rdram (off + 3))

unfoldable pub raw_bytes : Rdram → ℕ → ℕ → List ℕ
raw_bytes rdram off zero = []
raw_bytes rdram off (suc n) = rdram off ∷ raw_bytes rdram (off + 1) n

-- `(w0 >> 24) & 0xFF` and `(w0 >> 16) & 0xFF`
unfoldable pub opcode : ℕ → ℕ
opcode w0 = bit_and (w0 / 2 ^ 24) 0xFF

unfoldable pub push_flag : ℕ → ℕ
push_flag w0 = bit_and (w0 / 2 ^ 16) 0xFF

-- `w1 & 0x7FFFFF`
abbrev pub offset_of : ℕ → ℕ
offset_of vaddr = bit_and vaddr 0x7FFFFF

-- A G_DL command with push 1 whose target has 16 bytes in the memory.
unfoldable pub is_call : ℕ → ℕ → Bool
unfolding opcode push_flag
is_call w0 w1 = (opcode w0 == 0xDE) && (push_flag w0 == 1) && leb (offset_of w1 + 16) 0x800000

unfoldable pub call_snapshot : Rdram → ℕ → ℕ → ℕ → SnapEv
unfolding raw_bytes
call_snapshot rdram submit_seq off w1 = record {
  submit_seq = submit_seq;
  target_vaddr = w1;
  parent_vaddr = bit_or 0x80000000 off;
  head = raw_bytes rdram (offset_of w1) 16;
}

-- The loop from offset `off` on, with the commands that are left of MAX_CMDS.
unfoldable pub walk_commands : Rdram → ℕ → ℕ → ℕ → Ring SnapEv → Ring SnapEv
unfolding raw_word opcode is_call call_snapshot push
walk_commands rdram submit_seq zero off r = r
walk_commands rdram submit_seq (suc left) off r =
    let w0 = raw_word rdram off in
    let w1 = raw_word rdram (off + 4) in
    let skipped = walk_commands rdram submit_seq left (off + 8) r in
    let taken =
      walk_commands rdram submit_seq left (off + 8)
        (push snap_ring_cap (call_snapshot rdram submit_seq off w1) r) in
    if ltb 0x800000 (off + 8)
    then r
    else if opcode w0 == 0xDF
    then r
    else if is_call w0 w1
    then taken
    else skipped

-- A null pointer to the memory is `none`.
unfoldable pub gdl_submit_snapshot : Option Rdram → ℕ → ℕ → Ring SnapEv → Ring SnapEv
unfolding walk_commands
gdl_submit_snapshot none dl_vaddr submit_seq r = r
gdl_submit_snapshot (some rdram) dl_vaddr submit_seq r =
    walk_commands rdram submit_seq max_cmds (offset_of dl_vaddr) r

-- `head_ptr` is where the 16 bytes are, or null.
unfoldable pub gdl_walk_snapshot : ℕ → ℕ → Option (ℕ → ℕ) → ℕ → Ring SnapEv → Ring SnapEv
unfolding push raw_bytes
gdl_walk_snapshot target_vaddr parent_vaddr none submit_seq r = r
gdl_walk_snapshot target_vaddr parent_vaddr (some head_ptr) submit_seq r =
    push snap_ring_cap
      (record {
        submit_seq = submit_seq;
        target_vaddr = target_vaddr;
        parent_vaddr = parent_vaddr;
        head = raw_bytes head_ptr 0 16;
      })
      r

-- `pkmnstadium_gdl_submit_get` and `pkmnstadium_gdl_walk_get`
unfoldable pub gdl_get : Ring SnapEv → ℕ → SnapEv
unfolding at
gdl_get r i = at snap_ring_cap no_snap r i
