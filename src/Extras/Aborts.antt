-- ===== src/Extras/Aborts.antt =====
-- What the recompiled game calls where it cannot go on: the `recomp_unhandled_*` functions, and the
-- libultra functions that have no implementation. Each appends to the error log and ends the process.
pub mod Uncut
use pokemon_stadium_recomp.Prelude.{ℕ, ◌++◌, List, [], ◌∷◌, Option, none, some, Bool, if◌then◌else◌}
use pokemon_stadium_recomp.Prelude.Int.{ℤ}
use pokemon_stadium_recomp.Prelude.Text.{Bytes, codes, snprintf}
use pokemon_stadium_recomp.Libc.Print.{decimal_int, hex8, hex_upper_digits}

-- What is written before the process aborts: behind the error log, if it opens, and to stderr.
pub record Abort : Type 0 where
  pub log : Option Bytes
  pub stderr : Bytes

abbrev heading : Bytes → ℕ → Bytes → Bytes
heading kind pc detail =
    codes "\n=== N64Recomp UNHANDLED "
    ++ kind
    ++ codes " ===\n  PC:     0x"
    ++ hex8 pc
    ++ codes "\n  Detail: "
    ++ detail
    ++ codes "\n"

unfoldable pub unhandled_abort : Bool → Bytes → ℕ → Bytes → Abort
unfolding hex8
unhandled_abort opens kind pc detail = record {
  log = if opens then some (heading kind pc detail) else none;
  stderr = heading kind pc detail ++ codes "Engine could not translate this code path. Aborting.\n";
}

-- The details, before `snprintf` cuts them.
unfoldable pub branch_detail : ℕ → Bytes
unfolding hex8
branch_detail target = codes "branch target 0x" ++ hex8 target ++ codes " (no symbol)"

unfoldable pub call_detail : ℕ → Bytes
unfolding hex8
call_detail target = codes "jal target 0x" ++ hex8 target ++ codes " (no symbol)"

unfoldable pub jalr_detail : ℕ → ℤ → Bytes
unfolding hex_upper_digits decimal_int
jalr_detail target rd =
    codes "jalr with non-RA link (rd=r"
    ++ decimal_int rd
    ++ codes ", runtime target=0x"
    ++ hex_upper_digits 16 target
    ++ codes ")"

unfoldable pub cop0_read_detail : ℤ → Bytes
unfolding decimal_int
cop0_read_detail reg = codes "mfc0 from cop0 register " ++ decimal_int reg ++ codes " (not modeled)"

unfoldable pub cop0_write_detail : ℤ → ℕ → Bytes
unfolding hex_upper_digits decimal_int
cop0_write_detail reg value =
    codes "mtc0 to cop0 register "
    ++ decimal_int reg
    ++ codes " = 0x"
    ++ hex_upper_digits 16 value
    ++ codes " (not modeled)"

unfoldable pub unhandled_branch : Bool → ℕ → ℕ → Abort
unfolding unhandled_abort branch_detail
unhandled_branch opens instr_vram target =
    unhandled_abort opens (codes "BRANCH") instr_vram (snprintf 64 (branch_detail target))

unfoldable pub unhandled_call : Bool → ℕ → ℕ → Abort
unfolding unhandled_abort call_detail
unhandled_call opens instr_vram target =
    unhandled_abort opens (codes "CALL") instr_vram (snprintf 64 (call_detail target))

unfoldable pub unhandled_jalr : Bool → ℕ → ℕ → ℤ → Abort
unfolding unhandled_abort jalr_detail
unhandled_jalr opens instr_vram target rd =
    unhandled_abort opens (codes "JALR") instr_vram (snprintf 96 (jalr_detail target rd))

unfoldable pub unhandled_cop0_read : Bool → ℕ → ℤ → Abort
unfolding unhandled_abort cop0_read_detail
unhandled_cop0_read opens instr_vram reg =
    unhandled_abort opens (codes "COP0_READ") instr_vram (snprintf 64 (cop0_read_detail reg))

unfoldable pub unhandled_cop0_write : Bool → ℕ → ℤ → ℕ → Abort
unfolding unhandled_abort cop0_write_detail
unhandled_cop0_write opens instr_vram reg value =
    unhandled_abort opens (codes "COP0_WRITE") instr_vram
      (snprintf 96 (cop0_write_detail reg value))

unfoldable pub unhandled_instruction : Bool → ℕ → Bytes → Abort
unfolding unhandled_abort
unhandled_instruction opens instr_vram opcode_name =
    unhandled_abort opens (codes "INSTRUCTION") instr_vram opcode_name

-- The functions that `UNIMPL_LIBULTRA` defines.
abbrev pub unimplemented_names : List Bytes
unimplemented_names =
    codes "__osContRamWrite"
    ∷ codes "__osContRamRead"
    ∷ codes "osLeoDiskInit"
    ∷ codes "__osSetSR"
    ∷ codes "__osSetCause"
    ∷ codes "__osSetCount"
    ∷ codes "__osPfsGetStatus"
    ∷ codes "__osSetCompare"
    ∷ codes "osDpGetCounters"
    ∷ codes "rmonPrintf"
    ∷ []

unfoldable pub unimplemented_libultra : Bool → Bytes → Abort
unimplemented_libultra opens name = record {
  log =
      if opens
      then some (codes "\n=== UNIMPLEMENTED LIBULTRA: " ++ name ++ codes " ===\n")
      else none;
  stderr =
      codes "\n=== N64Recomp UNIMPLEMENTED LIBULTRA: "
      ++ name
      ++ codes " ===\n  librecomp does not provide a _recomp implementation.\n"
      ++ codes "  Add a real model in extras.c or librecomp.\n";
}
