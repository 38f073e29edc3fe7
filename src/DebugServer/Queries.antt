-- ===== src/DebugServer/Queries.antt =====
-- The read-only commands over the program's own state: `status`, `interesting_fns`, `resolver_log`,
-- `trace_recent`, `set_volume` and `fast_forward`.
pub mod Recent
use pokemon_stadium_recomp.Prelude.{
  ℕ, zero, suc, ◌+◌, ◌-◌, ◌%◌, ◌^◌, Bool, true, false, List, [], ◌∷◌, ◌++◌, Option, none, some, ltb,
  if◌then◌else◌, drop,
}
use pokemon_stadium_recomp.Prelude.Int.{ℤ, pos}
use pokemon_stadium_recomp.Prelude.Text.{Bytes, codes, snprintf, find, find_from}
use pokemon_stadium_recomp.Libc.Print.{decimal, decimal_int, hex8}
use pokemon_stadium_recomp.Ring.{Ring}
use pokemon_stadium_recomp.DebugServer.State.{Dbg}
use pokemon_stadium_recomp.DebugServer.Json.{get_int, get_bool}
use pokemon_stadium_recomp.DebugServer.Input.{ok_reply}
use pokemon_stadium_recomp.DebugServer.Render.{items, bool_text, clamp_count, available}
use pokemon_stadium_recomp.Extras.Firsts.{ResolverEntry}
use pokemon_stadium_recomp.Extras.Trace.{
  Trace, trace_at, trace_ring_cap, interesting_fns, interesting_fn_count,
}

-- The counters that ultramodern keeps.
pub record Counters : Type 0 where
  pub external_requeues : ℕ
  pub submit_gfx : ℕ
  pub submit_audio : ℕ
  pub submit_other : ℕ
  pub sp_complete : ℕ
  pub dp_complete : ℕ

-- `"name":value` behind a comma.
abbrev field : Bytes → ℕ → Bytes
field name value = codes ",\"" ++ name ++ codes "\":" ++ decimal value

unfoldable pub status : Counters → Dbg → Bytes
unfolding decimal decimal_int
status rt s = snprintf 1024 (
    codes "{\"ok\":true,\"frame\":"
    ++ decimal s.frame_count
    ++ field (codes "vi") s.vi_ticks
    ++ codes ",\"fast_forward\":"
    ++ bool_text s.fast_forward
    ++ codes ",\"input_override\":"
    ++ bool_text s.pad.active
    ++ field (codes "buttons") s.pad.buttons
    ++ codes ",\"sx\":"
    ++ decimal_int s.pad.stick_x
    ++ codes ",\"sy\":"
    ++ decimal_int s.pad.stick_y
    ++ field (codes "send_dl") s.send_dl_count
    ++ field (codes "send_dl_gfx") s.send_dl_gfx_count
    ++ field (codes "send_dl_audio") s.send_dl_audio_count
    ++ field (codes "send_dl_other") s.send_dl_other_count
    ++ field (codes "update_screen") s.update_screen_count
    ++ field (codes "external_requeues") rt.external_requeues
    ++ field (codes "submit_gfx") rt.submit_gfx
    ++ field (codes "submit_audio") rt.submit_audio
    ++ field (codes "submit_other") rt.submit_other
    ++ field (codes "sp_complete") rt.sp_complete
    ++ field (codes "dp_complete") rt.dp_complete
    ++ codes "}")

-- The names with their counters, in table order.
unfoldable pub counted_fns : Trace → ℕ → List Bytes → List (Bytes × ℕ)
unfolding interesting_fn_count
counted_fns t i [] = []
counted_fns t i (name ∷ names) = (name, interesting_fn_count t i) ∷ counted_fns t (i + 1) names

fn_fields : Bytes × ℕ → Bytes
fn_fields (name, count) =
    codes "{\"name\":\"" ++ name ++ codes "\",\"count\":" ++ decimal count ++ codes "}"

unfoldable pub interesting_fns_reply : Trace → Bytes
unfolding items counted_fns fn_fields decimal
interesting_fns_reply t =
    codes "{\"ok\":true,\"fns\":["
    ++ items 128 fn_fields true (counted_fns t 0 interesting_fns)
    ++ codes "]}"

resolver_fields : ResolverEntry → Bytes
resolver_fields e =
    codes "{\"arr\":\"0x"
    ++ hex8 e.arr
    ++ codes "\",\"base\":\"0x"
    ++ hex8 e.base
    ++ codes "\",\"count\":"
    ++ decimal e.count
    ++ codes "}"

unfoldable pub resolver_log : List ResolverEntry → Bytes
unfolding items resolver_fields decimal hex8
resolver_log entries =
    codes "{\"ok\":true,\"entries\":[" ++ items 96 resolver_fields true entries ++ codes "]}"

unfoldable pub fast_forward : Bytes → Dbg → Bytes × Dbg
fast_forward line s = (ok_reply, record s { fast_forward = get_bool line (codes "on") true })

unfoldable pub enable_instant_present : Dbg → Bytes × Dbg
enable_instant_present s = (ok_reply, record s { instant_present_request = true })

-- The names at `n` sequence numbers from `off` on, as `pkmnstadium_trace_at` gives them.
unfoldable pub trace_names : Ring (Option Bytes) → ℕ → ℕ → List (Option Bytes)
unfolding trace_at
trace_names r zero off = []
trace_names r (suc n) off = trace_at r off ∷ trace_names r n (off + 1)

unfoldable pub trace_window : Trace → ℤ → List (Option Bytes)
unfolding trace_names
trace_window t arg =
    let n = available (clamp_count 512 arg) t.ring.seq trace_ring_cap in
    trace_names t.ring n (t.ring.seq - n)

name_text : Option Bytes → Bytes
name_text o = codes "\"" ++ elim o [ none ↦ codes "?" | some name ↦ name ] ++ codes "\""

-- These names are appended as they are, with no buffer between.
names_text : Bool → List (Option Bytes) → Bytes
unfolding name_text
names_text first [] = []
names_text first (o ∷ os) = (if first then [] else codes ",") ++ name_text o ++ names_text false os

unfoldable pub trace_recent : Bytes → Trace → Bytes
unfolding trace_window names_text
trace_recent line t =
    codes "{\"ok\":true,\"write_idx\":"
    ++ decimal t.ring.seq
    ++ codes ",\"entries\":["
    ++ names_text true (trace_window t (get_int line (codes "n") (pos 64)))
    ++ codes "]}"

-- The float operations that `set_volume` and PSR_VOLUME use, on bit patterns.
pub record FloatOps : Type 0 where
  pub parse : Bytes → ℕ
  pub less : ℕ → ℕ → Bool
  pub zero_float : ℕ
  pub one_float : ℕ
  pub text3 : ℕ → Bytes

-- `if (v < 0.0f) v = 0.0f; if (v > 1.0f) v = 1.0f;`
unfoldable pub clamp_volume : FloatOps → ℕ → ℕ
clamp_volume fl v =
    let w = if fl.less v fl.zero_float then fl.zero_float else v in
    if fl.less fl.one_float w then fl.one_float else w

unfoldable pub volume_argument : FloatOps → Bytes → ℕ
unfolding find find_from
volume_argument fl line = elim (find (codes "\"value\"") line) [
  | none ↦ fl.zero_float
  | some k ↦ elim (find_from (codes ":") line k) [
    | none ↦ fl.zero_float
    | some colon ↦ fl.parse (drop (colon + 1) line)
  ]
]

unfoldable pub set_volume : FloatOps → Bytes → Dbg → Bytes × Dbg
unfolding clamp_volume volume_argument
set_volume fl line s =
    let v = clamp_volume fl (volume_argument fl line) in
    (
      snprintf 64 (codes "{\"ok\":true,\"value\":" ++ fl.text3 v ++ codes "}"),
      record s { audio_volume = v },
    )
