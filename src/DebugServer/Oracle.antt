-- ===== src/DebugServer/Oracle.antt =====
-- The `ares_*` commands. The bridge to the Ares emulator is another library: a parameter, with its
-- state of type `St` passed along. Each command runs as one job on the Ares worker.
pub mod Runs
pub mod Trace
use pokemon_stadium_recomp.Prelude.{
  ℕ, zero, suc, ◌+◌, ◌-◌, ◌*◌, ◌%◌, ◌^◌, ◌<◌, ◌≡◌, refl, arith, Bool, true, false, List, [], ◌∷◌,
  ◌++◌, Option, none, some, length, get_or, bit_and, ltb, leb, ◌==◌, if◌then◌else◌, not, ◌||◌, ◌&&◌,
  min, take,
}
use pokemon_stadium_recomp.Prelude.Int.{ℤ, pos, pos_part}
use pokemon_stadium_recomp.Prelude.Text.{Bytes, codes, snprintf}
use pokemon_stadium_recomp.Libc.Print.{decimal, decimal_int}
use pokemon_stadium_recomp.DebugServer.Json.{get_str, get_int, get_uint, get_bool}
use pokemon_stadium_recomp.DebugServer.Render.{items, bool_text, clamp_count, available}
use pokemon_stadium_recomp.Prelude.Int.{neg_part}

-- `ares_bridge.h`. `trace_get` and `boot_get` answer `none` where the call returns 0.
pub record RspEvent : Type 0 where
  pub seq : ℕ
  pub pc : ℕ
  pub dma_mem_addr : ℕ
  pub dma_dram_addr : ℕ
  pub dma_rd_len : ℕ
  pub dma_wr_len : ℕ
  pub status : ℕ
  pub gpr : List ℕ

pub record Ares (St : Type 0) : Type 0 where
  pub bridge_ok : ℤ
  pub already_initialized : ℤ
  pub is_real : ℤ
  pub version : Option Bytes
  pub init : Bytes → St → ℤ × St
  pub reset : St → ℤ × St
  pub step_frame : St → ℤ × St
  pub trace_count : St → ℕ
  pub trace_get : ℕ → St → Option RspEvent
  pub boot_count : St → ℕ
  pub boot_get : ℕ → St → Option RspEvent
  pub is_enabled : St → ℤ
  pub set_enabled : Bool → St → St

abbrev pub same : ℤ → ℤ → Bool
same a b = (pos_part a == pos_part b) && (neg_part a == neg_part b)

unfoldable pub ares_status : {St : Type 0} → Ares St → St → Bytes
unfolding decimal decimal_int
ares_status ares s = snprintf 256 (
    codes "{\"ok\":true,\"is_real\":"
    ++ decimal_int ares.is_real
    ++ codes ",\"version\":\""
    ++ elim ares.version [ none ↦ codes "?" | some v ↦ v ]
    ++ codes "\",\"trace_count\":"
    ++ decimal (ares.trace_count s)
    ++ codes ",\"trace_enabled\":"
    ++ decimal_int (ares.is_enabled s)
    ++ codes ",\"trace_boot_count\":"
    ++ decimal (ares.boot_count s)
    ++ codes "}")

-- The job of `ares_init_oracle` behind its check of the path.
init_job : {St : Type 0} → Ares St → Bytes → St → Bytes × St
unfolding decimal_int
init_job ares rom s =
    let (status, s1) = ares.init rom s in
    let (r, s2) = ares.reset s1 in
    if not (same status ares.bridge_ok) && not (same status ares.already_initialized)
    then (
      snprintf 160 (
          codes "{\"ok\":false,\"error\":\"ares_init failed\",\"status\":"
          ++ decimal_int status
          ++ codes "}"),
      s1,
    )
    else (
      snprintf 160 (
          codes "{\"ok\":"
          ++ bool_text (same r ares.bridge_ok)
          ++ codes ",\"init_status\":"
          ++ decimal_int status
          ++ codes ",\"reset_status\":"
          ++ decimal_int r
          ++ codes "}"),
      s2,
    )

unfoldable pub ares_init_oracle : {St : Type 0} → Ares St → Bytes → St → Bytes × St
unfolding init_job
ares_init_oracle ares line s = elim (get_str line (codes "rom_path")) [
  | [] ↦ (codes "{\"ok\":false,\"error\":\"missing rom_path\"}", s)
  | c ∷ rom ↦ init_job ares (c ∷ rom) s
]

unfoldable pub ares_reset_oracle : {St : Type 0} → Ares St → St → Bytes × St
unfolding decimal_int
ares_reset_oracle ares s =
    let (r, t) = ares.reset s in
    (
      snprintf 96 (
          codes "{\"ok\":"
          ++ bool_text (same r ares.bridge_ok)
          ++ codes ",\"status\":"
          ++ decimal_int r
          ++ codes "}"),
      t,
    )

-- `for (i = 0; i < n; i++)` with its break: the frames done, the last status and the state.
pub record Stepped (St : Type 0) : Type 0 where
  pub done : ℕ
  pub last : ℤ
  pub state : St

unfoldable pub step_frames : {St : Type 0} → Ares St → ℕ → ℕ → ℤ → St → Stepped St
step_frames ares zero done last s = record { done = done; last = last; state = s }
step_frames ares (suc n) done last s =
    let (status, t) = ares.step_frame s in
    let more = step_frames ares n (done + 1) status t in
    if same status ares.bridge_ok then more else record { done = done; last = status; state = t }

unfoldable pub ares_step_frame : {St : Type 0} → Ares St → Bytes → St → Bytes × St
unfolding step_frames clamp_count decimal decimal_int
ares_step_frame ares line s =
    let n = clamp_count 600 (get_int line (codes "n") (pos 1)) in
    let r = step_frames ares n 0 ares.bridge_ok s in
    (
      snprintf 160 (
          codes "{\"ok\":"
          ++ bool_text (same r.last ares.bridge_ok)
          ++ codes ",\"frames\":"
          ++ decimal r.done
          ++ codes ",\"status\":"
          ++ decimal_int r.last
          ++ codes ",\"trace_count\":"
          ++ decimal (ares.trace_count r.state)
          ++ codes "}"),
      r.state,
    )

unfoldable pub ares_rsp_trace_set_enabled : {St : Type 0} → Ares St → Bytes → St → Bytes × St
unfolding decimal_int
ares_rsp_trace_set_enabled ares line s =
    let t = ares.set_enabled (get_bool line (codes "on") true) s in
    (codes "{\"ok\":true,\"enabled\":" ++ decimal_int (ares.is_enabled t) ++ codes "}", t)
