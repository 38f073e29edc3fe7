-- ===== src/Extras/Probes.antt =====
-- The diagnostics of extras.c that act once for each key: the overflow dump of n_alAdpcmPull for a
-- filter, and the variant census for a literal of the bucket 0x8FF00000. The host backtraces that
-- Windows builds print beside the census are in Backtraces.
pub mod First
pub mod Once
use pokemon_stadium_recomp.Prelude.{
  ℕ, zero, suc, ◌+◌, ◌-◌, ◌*◌, ◌/◌, ◌%◌, ◌^◌, List, [], ◌∷◌, ◌++◌, map, Option, none, some, Bool,
  true, false, ◌&&◌, ◌||◌, not, ltb, leb, ◌==◌, if◌then◌else◌, length, bit_and, bit_or,
}
use pokemon_stadium_recomp.Ring.{Ring}
use pokemon_stadium_recomp.Rdram.{Rdram, load8, load_be32, in_rdram, physical}
use pokemon_stadium_recomp.Extras.Wavetable.{WavetableEv, wt_dump_for_filter}

-- The loop over the keys seen so far, the oldest first.
unfoldable pub seen : ℕ → List ℕ → Bool
seen key [] = false
seen key (k ∷ ks) = if k == key then true else seen key ks

-- `!already && n < cap`
abbrev pub is_new : ℕ → ℕ → List ℕ → Bool
is_new cap key keys = not (seen key keys) && ltb (length keys) cap

-- `keys[n++] = key` for a new key.
unfoldable pub remember : ℕ → ℕ → List ℕ → List ℕ
unfolding seen
remember cap key keys = if is_new cap key keys then keys ++ key ∷ [] else keys

-- What a dump shows of the memory: `*outp`, the words of the N_PVoice and of its wavetable, and
-- the two values that the last lines compute from these; a part that is not shown is empty or 0.
pub record Overflow : Type 0 where
  pub filter : ℕ
  pub n_over : ℕ
  pub start_zero : ℕ
  pub outp : ℕ
  pub history : List WavetableEv
  pub outp_value : Option ℕ
  pub voice : List ℕ
  pub table : List ℕ
  pub sample_end : ℕ
  pub overshoot : ℕ

-- The two bytes of an `s16`, before the sign extension.
unfoldable pub half_at : Rdram → ℕ → Option ℕ
unfolding load8
half_at m vaddr =
    if in_rdram vaddr
    then some (bit_or (load8 m (physical vaddr) * 2 ^ 8) (load8 m (physical vaddr + 1)))
    else none

-- The words at the offsets, of a struct in RDRAM.
unfoldable pub words_at : Rdram → ℕ → List ℕ → List ℕ
unfolding load_be32
words_at m vaddr offsets =
    if in_rdram vaddr then map (λ off. load_be32 m (physical vaddr + off)) offsets else []

-- `dc_table`, where the voice lies in RDRAM.
unfoldable pub table_of : Rdram → ℕ → ℕ
unfolding load_be32
table_of m filter = if in_rdram filter then load_be32 m (physical filter + 0x20) else 0

-- `base + len` of the table, where it lies in RDRAM.
unfoldable pub end_of_sample : Rdram → ℕ → ℕ
unfolding load_be32
end_of_sample m table =
    if in_rdram table
    then (load_be32 m (physical table) + load_be32 m (physical table + 0x04)) % 2 ^ 32
    else 0

-- `dc_memin - sample_end`
unfoldable pub overshoot_of : Rdram → ℕ → ℕ → ℕ
unfolding load_be32
overshoot_of m filter sample_end =
    (load_be32 m (physical filter + 0x3C) + 2 ^ 32 - sample_end) % 2 ^ 32

unfoldable pub overflow_dump : Rdram → Ring WavetableEv → ℕ → ℕ → ℕ → ℕ → Overflow
unfolding wt_dump_for_filter half_at words_at table_of end_of_sample overshoot_of
overflow_dump m r filter n_over start_zero outp = record {
  filter = filter;
  n_over = n_over;
  start_zero = start_zero;
  outp = outp;
  history = wt_dump_for_filter filter r;
  outp_value = half_at m outp;
  voice =
      words_at m filter (0x0C ∷ 0x14 ∷ 0x18 ∷ 0x1C ∷ 0x20 ∷ 0x24 ∷ 0x30 ∷ 0x34 ∷ 0x38 ∷ 0x3C ∷ []);
  table = words_at m (table_of m filter) (0x00 ∷ 0x04 ∷ 0x08 ∷ 0x0C ∷ 0x10 ∷ []);
  sample_end = end_of_sample m (table_of m filter);
  overshoot =
      if in_rdram (table_of m filter)
      then overshoot_of m filter (end_of_sample m (table_of m filter))
      else 0;
}

abbrev pub dump_cap : ℕ
dump_cap = 8

-- The state is `s_dumped_filters`.
unfoldable pub adpcm_overflow_dump :
    Rdram → Ring WavetableEv → ℕ → ℕ → ℕ → ℕ → List ℕ → List Overflow × List ℕ
unfolding seen remember overflow_dump
adpcm_overflow_dump m r filter n_over start_zero outp dumped =
    if leb n_over 0x400
    then ([], dumped)
    else if not (is_new dump_cap filter dumped)
    then ([], dumped)
    else (overflow_dump m r filter n_over start_zero outp ∷ [], remember dump_cap filter dumped)

-- `(x & 0xFFF00000u) == 0x8FF00000u && x >= 0x81000000u && x < 0x90000000u`
abbrev pub in_pattern_bucket : ℕ → Bool
in_pattern_bucket x = (bit_and x 0xFFF00000 == 0x8FF00000) && leb 0x81000000 x && ltb x 0x90000000

-- A call of librecomp's `recomp_diag_dump_variant_candidates_for_offset`.
pub record Census : Type 0 where
  pub pattern_id : ℕ
  pub offset : ℕ

-- `((x & 0x0FF00000u) >> 0x14) - 0x10` and `x & 0x000FFFFFu`
unfoldable pub census_of : ℕ → Census
census_of x = record {
  pattern_id = (bit_and x 0x0FF00000 / 2 ^ 0x14 + 2 ^ 32 - 0x10) % 2 ^ 32;
  offset = bit_and x 0x000FFFFF;
}

-- The census for one literal; the state is `s_probed`.
unfoldable pub probe : ℕ → ℕ → List ℕ → List Census × List ℕ
unfolding seen remember census_of
probe cap x probed =
    if in_pattern_bucket x && is_new cap x probed
    then (census_of x ∷ [], remember cap x probed)
    else ([], probed)

-- `s_n` and `s_probed`
pub record Counted : Type 0 where
  pub n : ℕ
  pub probed : List ℕ

-- Whether the line is printed, the censuses, and the state behind the call.
unfoldable pub geo_entry_log : ℕ → Counted → Bool × List Census × Counted
unfolding probe
geo_entry_log segptr s =
    let n = s.n + 1 in
    if not (leb n 32 || (segptr == 0)) then (false, [], record s { n = n }) else (
      true,
      (probe 32 segptr s.probed).0,
      record { n = n; probed = (probe 32 segptr s.probed).1 },
    )

-- The census comes first, for any pair; the line is for a suspect output.
unfoldable pub addr_translate_log : ℕ → ℕ → Counted → Bool × List Census × Counted
unfolding probe
addr_translate_log input out s =
    let suspect = not (out == 0) && ltb out 0x80000000 in
    let censuses = (probe 64 input s.probed).0 in
    let probed = (probe 64 input s.probed).1 in
    let n = s.n + 1 in
    if not suspect
    then (false, censuses, record { n = s.n; probed = probed })
    else (leb n 8 || (bit_and n 31 == 0), censuses, record { n = n; probed = probed })
