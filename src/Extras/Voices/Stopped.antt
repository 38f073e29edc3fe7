-- ===== src/Extras/Voices/Stopped.antt =====
-- The stop of all voices, as the memory that it leaves.
use pokemon_stadium_recomp.Prelude.{
  ℕ, ◌+◌, ◌≡◌, refl, sym, arith, true, false, not, ◌||◌, ◌&&◌, leb, ltb, ◌==◌, if◌then◌else◌,
  Bool-cases, inl, inr,
}
use pokemon_stadium_recomp.Rdram.{Rdram, load_be32, in_rdram, physical}
use pokemon_stadium_recomp.Extras.Voices.{
  Logged, clear_voices, stop_through, stop_libnaudio, stop_at, say_first, audio_stop_voices,
}
use pokemon_stadium_recomp.Extras.Voices.Sources.{Apart}
use pokemon_stadium_recomp.Extras.Voices.Erased.{
  erase, erase-nil, voice_words, clear_voices-eq-erase, source_words, stop_sources-eq-erase,
}

-- The table of libnaudio's sources that the stop goes through, and its length: none when a pointer on
-- the way lies outside of RDRAM, or the count is not in 1..64.
unfoldable pub table_at : ℕ → ℕ → ℕ → ℕ → ℕ × ℕ
table_at n_syn aux_bus count sources =
    if in_rdram n_syn && in_rdram aux_bus && leb 1 count && leb count 64 && in_rdram sources
    then (physical sources, count)
    else (0, 0)

-- `n_syn->auxBus->sources`, with `sourceCount` entries.
unfoldable pub table : Rdram → ℕ × ℕ
unfolding table_at
table m =
    let n_syn = load_be32 m 0x78584 in
    let aux_bus = load_be32 m (physical n_syn + 0x34) in
    table_at n_syn aux_bus (load_be32 m (physical aux_bus + 0x14))
      (load_be32 m (physical aux_bus + 0x1C))

stop_through-eq-erase :
    (m : Rdram) (f : Logged) (n_syn aux_bus count sources : ℕ)
    → Apart m (table_at n_syn aux_bus count sources).0 (table_at n_syn aux_bus count sources).1
    → (stop_through m f n_syn aux_bus count sources).rdram
      ≡ erase
          (source_words m
            (table_at n_syn aux_bus count sources).0
            (table_at n_syn aux_bus count sources).1)
          m
unfolding stop_through table_at source_words
stop_through-eq-erase m f n_syn aux_bus count sources a = elim (Bool-cases (in_rdram n_syn)) [
  | inr out ↦ rw out (sym (erase-nil m))
  | inl syn ↦ elim (Bool-cases (in_rdram aux_bus)) [
    | inr out ↦ rw (syn, out) (sym (erase-nil m))
    | inl bus ↦ elim (Bool-cases ((count == 0) || ltb 64 count || not (in_rdram sources))) [
      | inl out ↦
          let none_there : (leb 1 count && leb count 64 && in_rdram sources) ≡ false =
            ground (arith, out) in
          rw (syn, bus, out, none_there) (sym (erase-nil m))
      | inr there ↦
          let all_there : (leb 1 count && leb count 64 && in_rdram sources) ≡ true =
            ground (arith, there) in
          rw (syn, bus, there, all_there)
            (stop_sources-eq-erase count m (physical sources) (rw (syn, bus, all_there) at a))
    ]
  ]
]

-- The memory behind the first loop: the words of the game's voices cleared.
unfoldable pub voices_cleared : Rdram → Rdram
unfolding erase voice_words
voices_cleared m = erase (voice_words (physical (load_be32 m 0xFC7D0)) (load_be32 m 0xFC7CC)) m

-- Behind both loops, when the array of voices is in RDRAM and has 1 to 256 of them.
unfoldable pub stopped_memory : Rdram → Rdram
unfolding voices_cleared erase source_words table
stopped_memory m =
    let m1 = voices_cleared m in
    if in_rdram (load_be32 m 0xFC7D0)
      && leb 1 (load_be32 m 0xFC7CC)
      && leb (load_be32 m 0xFC7CC) 256
    then erase (source_words m1 (table m1).0 (table m1).1) m1
    else m

stop_libnaudio-eq-erase :
    (m : Rdram) (f : Logged)
    → Apart m (table m).0 (table m).1
    → (stop_libnaudio m f).rdram ≡ erase (source_words m (table m).0 (table m).1) m
unfolding stop_libnaudio table
stop_libnaudio-eq-erase m f a =
    stop_through-eq-erase m f (load_be32 m 0x78584)
      (load_be32 m (physical (load_be32 m 0x78584) + 0x34))
      (load_be32 m (physical (load_be32 m (physical (load_be32 m 0x78584) + 0x34)) + 0x14))
      (load_be32 m (physical (load_be32 m (physical (load_be32 m 0x78584) + 0x34)) + 0x1C)) a

stop_at-eq-erase :
    (m m1 : Rdram) (f : Logged) (count arr : ℕ)
    → clear_voices m (physical arr) count ≡ m1
    → Apart m1 (table m1).0 (table m1).1
    → (stop_at m f count arr).rdram ≡ (
        if in_rdram arr && leb 1 count && leb count 256
        then erase (source_words m1 (table m1).0 (table m1).1) m1
        else m)
unfolding stop_at say_first
stop_at-eq-erase m m1 f count arr e a = elim (Bool-cases ((arr == 0) || not (in_rdram arr))) [
  | inl out ↦ let gone : in_rdram arr ≡ false = ground (arith, out) in rw (stop_at, out, gone) refl
  | inr there ↦
      let here : in_rdram arr ≡ true = ground (arith, there) in
      elim (Bool-cases ((count == 0) || ltb 256 count)) [
        | inl out ↦
            let none_there : (leb 1 count && leb count 256) ≡ false = ground (arith, out) in
            rw (stop_at, there, out, here, none_there) refl
        | inr fits ↦
            let all_there : (leb 1 count && leb count 256) ≡ true = ground (arith, fits) in
            rw (stop_at, there, fits, here, all_there, e)
              (stop_libnaudio-eq-erase m1 (record f { voices = true }) a)
      ]
]

-- Behind the stop, the memory is exactly the one before it with the words of the game's voices and of
-- libnaudio's sources cleared: the word at 0x38 of each voice, when the array lies in RDRAM and has 1
-- to 256 of them, and then the word at 0x84 of each thing in RDRAM that the table of sources points
-- at, when the table is reached through pointers into RDRAM and has 1 to 64 entries; nothing otherwise.
-- The sources are those that the table names behind the first loop, none of whose words meets the
-- table.
pub audio_stop_voices-eq-stopped_memory :
    (m : Rdram) (f : Logged)
    → Apart (voices_cleared m) (table (voices_cleared m)).0 (table (voices_cleared m)).1
    → (audio_stop_voices m f).rdram ≡ stopped_memory m
unfolding audio_stop_voices stopped_memory voices_cleared
audio_stop_voices-eq-stopped_memory m f a =
    stop_at-eq-erase m (voices_cleared m) f (load_be32 m 0xFC7CC) (load_be32 m 0xFC7D0)
      (clear_voices-eq-erase (load_be32 m 0xFC7CC) m (physical (load_be32 m 0xFC7D0))) a
