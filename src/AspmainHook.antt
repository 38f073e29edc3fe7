-- ===== src/AspmainHook.antt =====
-- rsp_aspmain_hook.cpp: what the hook sets up before an audio task of the RSP. What it prints of the
-- command list is in Opcodes.
pub mod Chunk
pub mod Opcodes
use pokemon_stadium_recomp.Prelude.{
  ℕ, ◌+◌, ◌-◌, ◌*◌, ◌%◌, ◌^◌, Bool, true, false, ◌||◌, Option, none, some, ltb, ◌==◌, if◌then◌else◌,
}
use pokemon_stadium_recomp.Rdram.{Rdram, load8}

-- `kAudioChunkSize` and `kAudioCommandsDmemOffset`.
abbrev pub audio_chunk_size : ℕ
audio_chunk_size = 0x140

abbrev pub commands_offset : ℕ
commands_offset = 0x2B0

-- The registers of the RSP context that the hook writes.
pub record RspContext : Type 0 where
  pub r3 : ℕ
  pub r27 : ℕ
  pub r28 : ℕ
  pub r29 : ℕ
  pub r30 : ℕ
  pub r31 : ℕ
  pub dma_mem_address : ℕ
  pub dma_dram_address : ℕ

-- The call of `dma_rdram_to_dmem_external`; its length is one less than the number of bytes.
pub record Dma : Type 0 where
  pub mem : ℕ
  pub dram : ℕ
  pub rd_len : ℕ

-- `load_w`: byte `i` of DMEM's big-endian word goes to host byte `i ^ 3` of the result.
unfoldable pub load_w : Rdram → ℕ → ℕ
unfolding load8
load_w dmem off =
    load8 dmem off * 2 ^ 24
    + load8 dmem (off + 1) * 2 ^ 16
    + load8 dmem (off + 2) * 2 ^ 8
    + load8 dmem (off + 3)

unfoldable pub first_chunk : ℕ → ℕ
first_chunk data_size = if ltb audio_chunk_size data_size then audio_chunk_size else data_size

-- The hook on a task of that address and size; `none` is an empty task, which gets no DMA.
unfoldable pub preload : ℕ → ℕ → RspContext → Option Dma × RspContext
unfolding first_chunk
preload data_ptr data_size ctx =
    let chunk = first_chunk data_size in
    if data_size == 0 || data_ptr == 0 then (none, ctx) else (
      some (record { mem = commands_offset; dram = data_ptr; rd_len = chunk - 1 }),
      record {
        r3 = chunk - 1;
        r27 = data_size;
        r28 = data_ptr;
        r29 = commands_offset;
        r30 = chunk;
        r31 = 0x1144;
        dma_mem_address = commands_offset;
        dma_dram_address = (data_ptr + chunk) % 2 ^ 32;
      },
    )

unfoldable pub aspmain_pre_task : Rdram → RspContext → Option Dma × RspContext
unfolding load_w preload
aspmain_pre_task dmem ctx = preload (load_w dmem (0xFC0 + 0x30)) (load_w dmem (0xFC0 + 0x34)) ctx
