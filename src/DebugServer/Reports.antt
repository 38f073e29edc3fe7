-- ===== src/DebugServer/Reports.antt =====
-- `get_last_pc_trail`, `rt64_segments`, `dump_current_dl` and `tail_errlog`. What librecomp, RT64 and
-- the file system answer is a parameter of each command.
use pokemon_stadium_recomp.Prelude.{
  ℕ, zero, suc, ◌+◌, ◌%◌, ◌^◌, Bool, true, false, List, [], ◌∷◌, ◌++◌, Option, none, some, get_or,
  bit_and, ltb, ◌==◌, if◌then◌else◌, ◌||◌, take,
}
use pokemon_stadium_recomp.Prelude.Int.{ℤ, pos}
use pokemon_stadium_recomp.Prelude.Text.{Bytes, codes, snprintf}
use pokemon_stadium_recomp.Libc.Print.{decimal, decimal_int}
use pokemon_stadium_recomp.DebugServer.Json.{get_str}
use pokemon_stadium_recomp.DebugServer.Render.{items, bool_text}

-- `PcTrailSnapshot`, of a snapshot that is there and valid.
pub record PcTrail : Type 0 where
  pub idx : ℕ
  pub watchdog_count : ℕ
  pub entries : List ℕ

-- `n` entries from `i` on, the ring read from its oldest entry.
unfoldable pub trail_from : PcTrail → ℕ → ℕ → List ℕ
trail_from t zero i = []
trail_from t (suc n) i =
    get_or t.entries (bit_and ((t.idx + i) % 2 ^ 32) 31) 0 ∷ trail_from t n (i + 1)

unfoldable pub get_last_pc_trail : Option PcTrail → Bytes
unfolding trail_from items decimal
get_last_pc_trail none = codes "{\"ok\":true,\"valid\":false}"
get_last_pc_trail (some t) =
    codes "{\"ok\":true,\"valid\":true,\"idx\":"
    ++ decimal t.idx
    ++ codes ",\"watchdog_count\":"
    ++ decimal t.watchdog_count
    ++ codes ",\"pc_trail\":["
    ++ items 16 decimal true (trail_from t 32 0)
    ++ codes "]}"

-- `if (i) out += ","; out += b;`
joined : Bool → List ℕ → Bytes
unfolding decimal
joined first [] = []
joined first (n ∷ ns) =
    (if first then [] else codes ",") ++ snprintf 24 (decimal n) ++ joined false ns

-- The 16 segment bases and the sequence number of RT64's snapshot.
unfoldable pub rt64_segments : List ℕ × ℕ → Bytes
unfolding joined decimal
rt64_segments (segs, seq) =
    codes "{\"ok\":true,\"seq\":"
    ++ decimal seq
    ++ codes ",\"segments\":["
    ++ joined true (take 16 segs)
    ++ codes "]}"

-- What `psr_dump_current_dl` returns and stores.
pub record DumpResult : Type 0 where
  pub rc : ℤ
  pub addr : ℕ
  pub size : ℕ

abbrev default_dl_path : Bytes
default_dl_path = codes "F:/Projects/PokemonStadiumRecomp/build/last_run_dl.bin"

unfoldable pub dl_path : Bytes → Bytes
dl_path line = elim (get_str line (codes "path")) [ [] ↦ default_dl_path | c ∷ p ↦ c ∷ p ]

abbrev is_zero : ℤ → Bool
is_zero (pos zero) = true
is_zero other = false

unfoldable pub dump_current_dl : (Bytes → DumpResult) → Bytes → Bytes
unfolding dl_path decimal decimal_int
dump_current_dl dump line =
    let path = dl_path line in
    let r = dump path in
    snprintf 512 (
      codes "{\"ok\":"
      ++ bool_text (is_zero r.rc)
      ++ codes ",\"rc\":"
      ++ decimal_int r.rc
      ++ codes ",\"path\":\""
      ++ path
      ++ codes "\",\"addr\":"
      ++ decimal r.addr
      ++ codes ",\"size\":"
      ++ decimal r.size
      ++ codes "}")

-- One character of the log, escaped; other control characters are left out.
unfoldable pub escape : Bytes → Bytes
escape [] = []
escape (c ∷ s) =
    let rest = escape s in
    if c == b'"' || c == b'\\'
    then b'\\' ∷ c ∷ rest
    else if c == b'\n'
    then b'\\' ∷ b'n' ∷ rest
    else if c == b'\r'
    then b'\\' ∷ b'r' ∷ rest
    else if ltb c 0x20
    then rest
    else c ∷ rest

-- The file is read up to 4095 bytes; `none` when it does not open.
unfoldable pub tail_errlog : Option Bytes → Bytes
unfolding escape
tail_errlog none = codes "{\"ok\":true,\"errlog\":\"\"}"
tail_errlog (some file) =
    codes "{\"ok\":true,\"errlog\":\"" ++ escape (take 4095 file) ++ codes "\"}"
