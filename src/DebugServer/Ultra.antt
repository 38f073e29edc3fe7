-- ===== src/DebugServer/Ultra.antt =====
-- `libultra_recent` and `libultra_boot`: the trace of libultra calls that librecomp keeps, a
-- parameter of both commands.
pub mod Slices
use pokemon_stadium_recomp.Prelude.{
  ℕ, zero, suc, ◌+◌, ◌-◌, ◌*◌, ◌%◌, ◌^◌, ◌<◌, ◌≡◌, refl, arith, Bool, true, false, List, [], ◌∷◌,
  ◌++◌, Option, none, some, length, get_or, bit_and, ltb, leb, ◌==◌, if◌then◌else◌, not, ◌||◌, ◌&&◌,
  min, take,
}
use pokemon_stadium_recomp.Prelude.Int.{ℤ, pos, pos_part}
use pokemon_stadium_recomp.Prelude.Text.{Bytes, codes, snprintf}
use pokemon_stadium_recomp.Libc.Print.{decimal, decimal_int}
use pokemon_stadium_recomp.DebugServer.Json.{get_str, get_int, get_uint, get_bool}
use pokemon_stadium_recomp.DebugServer.Render.{items, bool_text, clamp_count, available}

-- `recomp_ultra_trace_event`
pub record UltraEvent : Type 0 where
  pub name : Bytes
  pub pc : ℕ
  pub a0 : ℕ
  pub a1 : ℕ
  pub a2 : ℕ
  pub a3 : ℕ
  pub ms : ℕ

-- The ring, and the boot snapshot. `get` answers whether the position is valid, with the event as
-- the call leaves it.
pub record UltraTrace : Type 0 where
  pub write_idx : ℕ
  pub capacity : ℕ
  pub get : ℕ → Bool × UltraEvent
  pub boot_count : ℕ
  pub boot_capacity : ℕ
  pub boot_get : ℕ → Bool × UltraEvent

unfoldable pub ultra_fields : ℕ × (Bool × UltraEvent) → Bytes
unfolding decimal
ultra_fields (i, (valid, ev)) =
    codes "{\"i\":"
    ++ decimal i
    ++ codes ",\"valid\":"
    ++ bool_text valid
    ++ codes ",\"name\":\""
    ++ ev.name
    ++ codes "\",\"pc\":"
    ++ decimal ev.pc
    ++ codes ",\"a0\":"
    ++ decimal ev.a0
    ++ codes ",\"a1\":"
    ++ decimal ev.a1
    ++ codes ",\"a2\":"
    ++ decimal ev.a2
    ++ codes ",\"a3\":"
    ++ decimal ev.a3
    ++ codes ",\"ms\":"
    ++ decimal ev.ms
    ++ codes "}"

-- `n` events of the ring, from `off` on.
unfoldable pub recent_slice : UltraTrace → ℕ → ℕ → List (ℕ × (Bool × UltraEvent))
recent_slice t zero off = []
recent_slice t (suc n) off = (off, t.get off) ∷ recent_slice t n (off + 1)

unfoldable pub libultra_recent : UltraTrace → Bytes → Bytes
unfolding items recent_slice available clamp_count ultra_fields
libultra_recent t line =
    let asked = clamp_count 1024 (get_int line (codes "n") (pos 64)) in
    let n = available asked t.write_idx t.capacity in
    codes "{\"ok\":true,\"write_idx\":"
    ++ decimal t.write_idx
    ++ codes ",\"events\":["
    ++ items 320 ultra_fields true (recent_slice t n (t.write_idx - n))
    ++ codes "]}"

-- The loop `for (i = 0; i < n; i++)` with its break at the end of the snapshot, at `start + i`.
unfoldable pub boot_slice : UltraTrace → ℕ → ℕ → ℕ → List (ℕ × (Bool × UltraEvent))
boot_slice t zero start i = []
boot_slice t (suc n) start i =
    let place = (start + i) % 2 ^ 32 in
    let rest = (place, t.boot_get place) ∷ boot_slice t n start (i + 1) in
    if leb t.boot_count place then [] else rest

unfoldable pub libultra_boot : UltraTrace → Bytes → Bytes
unfolding items boot_slice clamp_count ultra_fields
libultra_boot t line =
    let start = pos_part (get_int line (codes "start") (pos 0)) in
    let n = clamp_count 1024 (get_int line (codes "n") (pos 256)) in
    codes "{\"ok\":true,\"count\":"
    ++ decimal t.boot_count
    ++ codes ",\"capacity\":"
    ++ decimal t.boot_capacity
    ++ codes ",\"start\":"
    ++ decimal start
    ++ codes ",\"events\":["
    ++ items 320 ultra_fields true (boot_slice t n start 0)
    ++ codes "]}"
