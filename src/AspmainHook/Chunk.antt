-- ===== src/AspmainHook/Chunk.antt =====
-- The first chunk that the hook loads.
use pokemon_stadium_recomp.Prelude.{
  ℕ, ◌+◌, ◌-◌, ◌%◌, ◌^◌, ◌≤◌, ◌≡◌, ◌≢◌, refl, ap, arith, true, false, none, some, ◌==◌, min,
  Bool-cases, inl, inr,
}
use pokemon_stadium_recomp.AspmainHook.{RspContext, Dma, commands_offset, first_chunk, preload}

-- An audio task with no address or no size gets no DMA, and its registers stay. For any other the
-- hook loads the first bytes of its command list, as many as the list has but at most 0x140, to
-- DMEM 0x2B0 and not beyond 0x3F0; r28 and r27 hold the whole list, not advanced past the chunk; r3
-- holds the chunk's length less one, and the DRAM address of the next DMA stands behind the chunk.
pub preload_lem :
    (data_ptr data_size : ℕ) (ctx : RspContext)
    → (data_size ≡ 0 → preload data_ptr data_size ctx ≡ (none, ctx))
      × (data_ptr ≡ 0 → preload data_ptr data_size ctx ≡ (none, ctx))
      × (data_size ≢ 0
          → data_ptr ≢ 0
          → (d : Dma) × ((preload data_ptr data_size ctx).0 ≡ some d)
            × (d.rd_len + 1 ≡ min data_size 0x140)
            × (d.mem ≡ 0x2B0)
            × (d.mem + d.rd_len + 1 ≤ 0x3F0)
            × (d.dram ≡ data_ptr)
            × ((preload data_ptr data_size ctx).1.r28 ≡ data_ptr)
            × ((preload data_ptr data_size ctx).1.r27 ≡ data_size)
            × ((preload data_ptr data_size ctx).1.r3 ≡ d.rd_len)
            × ((preload data_ptr data_size ctx).1.dma_dram_address
                ≡ (data_ptr + (d.rd_len + 1)) % 2 ^ 32))
unfolding preload first_chunk
preload_lem data_ptr data_size ctx = (
  (λ e. let t : (data_size == 0) ≡ true = ground arith in rw t refl),
  (λ e. both data_ptr data_size ctx e),
  (λ some_size some_ptr.
      let s : (data_size == 0) ≡ false = ground arith in
      let p : (data_ptr == 0) ≡ false = ground arith in
      rw (s, p)
        (
          record { mem = commands_offset; dram = data_ptr; rd_len = first_chunk data_size - 1 },
          refl,
          ground arith,
          refl,
          ground arith,
          refl,
          refl,
          refl,
          refl,
          whole data_ptr (first_chunk data_size) (ground arith),
        )),
)
  where
    whole : (p c : ℕ) → 1 ≤ c → (p + c) % 2 ^ 32 ≡ (p + (c - 1 + 1)) % 2 ^ 32
    whole p c h = let e : p + c ≡ p + (c - 1 + 1) = omega arith in ap (λ (t : ℕ). t % 2 ^ 32) e

    both : (p n : ℕ) (c : RspContext) → p ≡ 0 → preload p n c ≡ (none, c)
    both p n c e = elim (Bool-cases (n == 0)) [
      | inl t ↦ rw t refl
      | inr f ↦ let t : (p == 0) ≡ true = ground arith in rw (f, t) refl
    ]
