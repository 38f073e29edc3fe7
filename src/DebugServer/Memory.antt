-- ===== src/DebugServer/Memory.antt =====
-- `rdram_peek` and `rdram_scan_u32`. The captured memory image is a parameter of the commands:
-- `recomp_runtime_get_rdram()`, null before the game has started.
pub mod Reads
pub mod Hits
use pokemon_stadium_recomp.Prelude.{
  ℕ, zero, suc, ◌+◌, ◌-◌, ◌*◌, ◌^◌, Bool, true, false, List, [], ◌∷◌, ◌++◌, Option, none, some,
  length, ltb, leb, ◌==◌, if◌then◌else◌,
}
use pokemon_stadium_recomp.Prelude.Int.{ℤ, pos}
use pokemon_stadium_recomp.Prelude.Text.{Bytes, codes}
use pokemon_stadium_recomp.Libc.Print.{decimal, hex2}
use pokemon_stadium_recomp.Rdram.{Rdram, load_be32, physical, load_bytes}
use pokemon_stadium_recomp.DebugServer.Json.{get_int, get_uint}
use pokemon_stadium_recomp.DebugServer.Render.{clamp_count}

-- `kRdramSize`, 8 MiB.
abbrev pub rdram_size : ℕ
rdram_size = 0x800000

unfoldable pub hex_text : List ℕ → Bytes
unfolding hex2
hex_text [] = []
hex_text (b ∷ bs) = hex2 b ++ hex_text bs

abbrev error_reply : Bytes → Bytes
error_reply what = codes "{\"ok\":false,\"error\":\"" ++ what ++ codes "\"}"

-- What the command answers: refused as out of bounds, no memory yet, or the bytes read.
pub data Peek : Type 0 where
  oob : Peek
  not_captured : Peek
  bytes : ℕ → ℕ → List ℕ → Peek

unfoldable pub peek : Option Rdram → ℕ → ℤ → Peek
unfolding load_bytes clamp_count
peek rdram addr arg =
    let n = clamp_count 256 arg in
    let paddr = physical addr in
    if ltb rdram_size (paddr + n)
    then oob
    else elim rdram [ none ↦ not_captured | some m ↦ bytes addr n (load_bytes m paddr n) ]

peek_reply : Peek → Bytes
peek_reply oob = error_reply (codes "oob")
peek_reply not_captured = error_reply (codes "rdram not yet captured")
peek_reply (bytes addr n bs) =
    codes "{\"ok\":true,\"addr\":"
    ++ decimal addr
    ++ codes ",\"n\":"
    ++ decimal n
    ++ codes ",\"hex\":\""
    ++ hex_text bs
    ++ codes "\"}"

unfoldable pub rdram_peek : Option Rdram → Bytes → Bytes
unfolding peek peek_reply hex_text decimal
rdram_peek rdram line =
    peek_reply (peek rdram (get_uint line (codes "addr") 0) (get_int line (codes "n") (pos 4)))

-- The scan over `words` aligned words from `paddr` on, with room for `room` more hits.
unfoldable pub scan_words : Rdram → ℕ → ℕ → ℕ → ℕ → List ℕ
unfolding load_be32
scan_words m want zero paddr room = []
scan_words m want (suc words) paddr zero = []
scan_words m want (suc words) paddr (suc room) =
    let hit = (0x80000000 + paddr) ∷ scan_words m want words (paddr + 4) room in
    let miss = scan_words m want words (paddr + 4) (suc room) in
    if load_be32 m paddr == want then hit else miss

unfoldable pub scan_hits : Rdram → ℕ → ℕ → List ℕ
unfolding scan_words
scan_hits m want limit = scan_words m want 0x200000 0 limit

hits_text : Bool → List ℕ → Bytes
hits_text first [] = []
hits_text first (h ∷ hs) = (if first then [] else codes ",") ++ decimal h ++ hits_text false hs

-- `truncated` is set when the list is full.
scan_reply : ℕ → ℕ → List ℕ → Bytes
unfolding hits_text
scan_reply want limit hits =
    codes "{\"ok\":true,\"value\":"
    ++ decimal want
    ++ codes ",\"hits\":["
    ++ hits_text true hits
    ++ codes "],\"truncated\":"
    ++ (if leb limit (length hits) then codes "true" else codes "false")
    ++ codes "}"

unfoldable pub rdram_scan_u32 : Option Rdram → Bytes → Bytes
unfolding scan_hits scan_reply
rdram_scan_u32 rdram line =
    let want = get_uint line (codes "value") 0 in
    let limit = clamp_count 1024 (get_int line (codes "limit") (pos 64)) in
    elim rdram [
      | none ↦ error_reply (codes "rdram not yet captured")
      | some m ↦ scan_reply want limit (scan_hits m want limit)
    ]
