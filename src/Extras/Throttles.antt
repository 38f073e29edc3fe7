-- ===== src/Extras/Throttles.antt =====
-- The diagnostics of extras.c that print some of their calls: the first few, those that look suspect,
-- every so many. Each has a counter, a natural number here, and answers the line with the values
-- that it shows, if it prints one; a line's values are a list in the order of the format.
use pokemon_stadium_recomp.Prelude.{
  ℕ, ◌+◌, ◌-◌, ◌*◌, ◌%◌, ◌^◌, List, [], ◌∷◌, Option, none, some, Bool, ◌&&◌, ◌||◌, not, ltb, leb,
  ◌==◌, if◌then◌else◌, bit_and,
}
use pokemon_stadium_recomp.Rdram.{Rdram, load_be32, load_bytes, in_rdram, physical}

abbrev pub Line : Type 0
Line = List ℕ

-- A line if the test holds.
abbrev pub line_if : Bool → Line → Option Line
line_if b line = if b then some line else none

abbrev pub flag : Bool → ℕ
flag b = if b then 1 else 0

-- A suspect target is printed with 0x40 bytes of the two structs.
pub record AudioLine : Type 0 where
  pub suspect : Bool
  pub values : Line
  pub s0_dump : List ℕ
  pub s1_dump : List ℕ

unfoldable pub audio_target : ℕ → ℕ → ℕ
audio_target unk_2c v1_index = (unk_2c + v1_index * 4) % 2 ^ 32

unfoldable pub audio_suspect : ℕ → ℕ → Bool
unfolding audio_target
audio_suspect unk_2c v1_index = not (in_rdram (audio_target unk_2c v1_index)) || (unk_2c == 0)

-- `paddr + 0x40 < 2^30` holds of every physical address.
unfoldable pub struct_dump : Rdram → ℕ → ℕ → List ℕ
unfolding load_bytes
struct_dump m vaddr off =
    if ltb (physical vaddr + 0x40) (2 ^ 30) then load_bytes m (physical vaddr + off) 0x40 else []

unfoldable pub audio_diag : Rdram → ℕ → ℕ → ℕ → ℕ → ℕ → ℕ → Option AudioLine × ℕ
unfolding audio_target audio_suspect struct_dump
audio_diag m s0 s1 unk_2c unk_28 v1_index n_logged =
    let suspect = audio_suspect unk_2c v1_index in
    if not suspect && ltb 5 n_logged then (none, n_logged) else (
      some (record {
        suspect = suspect;
        values = s0 ∷ unk_28 ∷ unk_2c ∷ v1_index ∷ audio_target unk_2c v1_index ∷ [];
        s0_dump = if suspect then struct_dump m s0 0 else [];
        s1_dump = if suspect then struct_dump m s1 0x80 else [];
      }),
      n_logged + 1,
    )

-- `(addr > 0x02000000u) || ((flag & 0x80000000u) == 0 && addr >= 0x80000000u)`
unfoldable pub amdma_suspect : ℕ → ℕ → Bool
amdma_suspect addr path_flag =
    ltb 0x02000000 addr || ((bit_and path_flag 0x80000000 == 0) && leb 0x80000000 addr)

unfoldable pub amdma_log : Rdram → ℕ → ℕ → ℕ → Option Line × ℕ
unfolding load_be32 amdma_suspect
amdma_log m addr len s_n =
    let n = s_n + 1 in
    let path_flag = load_be32 m 0x000FC820 in
    let suspect = amdma_suspect addr path_flag in
    (
      line_if ((leb n 16 || suspect) && leb n 256) (
          n
          ∷ addr
          ∷ len
          ∷ path_flag
          ∷ flag (not (bit_and path_flag 0x80000000 == 0))
          ∷ flag suspect
          ∷ []),
      n,
    )

unfoldable pub cri_enter : ℕ → Option Line × ℕ
cri_enter cri_count =
    let n = (cri_count + 1) % 2 ^ 32 in (line_if (leb n 5 || (n % 100 == 0)) (n ∷ []), n)

-- `s_cri_count` is read, `s_cri_last_logged` is the state.
unfoldable pub cri_exit : ℕ → ℕ → ℕ → ℕ → Option Line × ℕ
cri_exit current button_pressed cri_count last_logged =
    if not (button_pressed == 0) || leb 200 ((cri_count + 2 ^ 32 - last_logged) % 2 ^ 32)
    then (some (cri_count ∷ bit_and current 0xFFFF ∷ bit_and button_pressed 0xFFFF ∷ []), cri_count)
    else (none, last_logged)

-- `s_n` and `s_n_id0`
unfoldable pub segmap_set_enter : ℕ → ℕ → ℕ → ℕ → ℕ × ℕ → Option Line × ℕ × ℕ
segmap_set_enter id vaddr size game_state (s_n, s_n_id0) =
    let n = s_n + 1 in
    let n_id0 = if id == 0 then s_n_id0 + 1 else s_n_id0 in
    (
      line_if (not ((id == 0) && ltb 8 n_id0))
          (n ∷ id ∷ vaddr ∷ size ∷ game_state ∷ flag (id == 6) ∷ []),
      n,
      n_id0,
    )

unfoldable pub asset_load_enter : ℕ → ℕ → ℕ → ℕ → ℕ → ℕ → Option Line × ℕ
asset_load_enter id rom_start rom_end arg3 game_state s_n =
    let n = s_n + 1 in
    (
      line_if (not (ltb 256 n && not (id == 6)))
          (n ∷ id ∷ rom_start ∷ rom_end ∷ arg3 ∷ game_state ∷ flag (id == 6) ∷ []),
      n,
    )

unfoldable pub segmap_clear_enter : ℕ → ℕ → ℕ → Line × ℕ
segmap_clear_enter id game_state s_n = ((s_n + 1) ∷ id ∷ game_state ∷ flag (id == 6) ∷ [], s_n + 1)

unfoldable pub persload_enter : ℕ → ℕ → ℕ → Option Line × ℕ
persload_enter archive file_ent s_n =
    (line_if (leb (s_n + 1) 32) (archive ∷ file_ent ∷ []), s_n + 1)

unfoldable pub persload_exit : ℕ → ℕ → Option Line × ℕ
persload_exit ret s_n = (line_if (leb (s_n + 1) 32) (ret ∷ []), s_n + 1)

-- The bytes from 8 before the command pointer to 15 behind it, where they lie in RDRAM.
unfoldable pub stream_context : Rdram → ℕ → List ℕ
unfolding load_bytes
stream_context m addr =
    if in_rdram addr && leb 8 (physical addr) && ltb (physical addr + 16) (2 ^ 30)
    then load_bytes m (physical addr - 8) 24
    else []

unfoldable pub geo_dispatch_log : Rdram → ℕ → ℕ → ℕ → ℕ → Option (Line × List ℕ) × ℕ
unfolding stream_context
geo_dispatch_log m cmd_byte fn_ptr cmd_stream_addr s_logged =
    if leb 0x80000000 fn_ptr
    then (none, s_logged)
    else if ltb 5 (s_logged + 1)
    then (none, s_logged + 1)
    else (
      some
          (bit_and cmd_byte 0xFF ∷ fn_ptr ∷ cmd_stream_addr ∷ [], stream_context m cmd_stream_addr),
      s_logged + 1,
    )

unfoldable pub geo_render_call_log : ℕ → ℕ → ℕ → ℕ → Option Line × ℕ
geo_render_call_log node seg geo s_n =
    let n = s_n + 1 in
    let low_addr = not (seg == 0) && ltb seg 0x80000000 && (bit_and seg 0xFF000000 == 0) in
    (line_if (leb n 16 || low_addr) (n ∷ node ∷ seg ∷ geo ∷ flag low_addr ∷ []), n)

unfoldable pub frag36_check : ℕ → ℕ → ℕ → Option Line × ℕ
frag36_check btn_pressed input_enable iter =
    let n = iter + 1 in
    (
      line_if (not (btn_pressed == 0) || leb n 5 || (n % 50 == 0))
          (n ∷ bit_and btn_pressed 0xFFFF ∷ bit_and btn_pressed 0x9000 ∷ input_enable ∷ []),
      n,
    )

-- The root of the minigame's graph, with its first 0x20 bytes and its child, if it lies in RDRAM.
unfoldable pub mini_ekans_init_cam_enter : Rdram → ℕ × Option (List ℕ × ℕ)
unfolding load_be32 load_bytes
mini_ekans_init_cam_enter m =
    let d50_val = load_be32 m (physical 0x87906050) in
    (
      d50_val,
      if (d50_val == 0) || not (in_rdram d50_val)
          then none
          else some (load_bytes m (physical d50_val) 0x20, load_be32 m (physical d50_val + 0xC)),
    )
