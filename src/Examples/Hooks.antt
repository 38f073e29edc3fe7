-- ===== src/Examples/Hooks.antt =====
-- The theorems about the hooks of extras.c at concrete inputs.
use pokemon_stadium_recomp.Prelude.{
  numbered, false, ℕ, zero, suc, ◌+◌, ◌-◌, ◌*◌, ◌%◌, ◌^◌, ◌<◌, ◌≤◌, ◌≡◌, ◌≢◌, refl, arith, List, [],
  ◌∷◌, ◌++◌, some, ◌&&◌, take, drop, length, ltb, leb, ◌==◌, if◌then◌else◌, inl, ◌⊎◌, replicate,
}
use mathlib.Core.Path.{subst, sym}
use mathlib.Core.List.{reverse}
use pokemon_stadium_recomp.Prelude.Int.{ℤ, pos}
use pokemon_stadium_recomp.Ring.Window.{Holds, init-Holds}
use pokemon_stadium_recomp.Rdram.{Rdram, IsBytes, load8, store8, load_be32}
use pokemon_stadium_recomp.Extras.Args.{empty}
use pokemon_stadium_recomp.Extras.Args.Session.{
  Event, entered, left, session, follow, session-eq-follow,
}
use pokemon_stadium_recomp.Extras.Calls.{report_lookup}
use pokemon_stadium_recomp.Extras.Memmap.{Resolvers}
use pokemon_stadium_recomp.Extras.Memmap.Answers.{
  resolved_value, fragment_answer-eq-resolved_value, memmap_session-eq-follow,
}
use pokemon_stadium_recomp.Extras.Memmap.Answers
use pokemon_stadium_recomp.Extras.Memmap
use pokemon_stadium_recomp.Extras.Chain
use pokemon_stadium_recomp.Extras.Chain.{chain_ring_cap, mbp_chain_get}
use pokemon_stadium_recomp.Extras.Chain.Depths.{Calls, call, done, size, events, run_probes}
use pokemon_stadium_recomp.PostMortem.Rings.{window}
use pokemon_stadium_recomp.PostMortem.Rings.Newest.{chain_window-eq-numbered}
use pokemon_stadium_recomp.Extras.Wavetable
use pokemon_stadium_recomp.Extras.Wavetable.{wt_dump_for_filter}
use pokemon_stadium_recomp.Extras.Wavetable.Recent.{
  Call, probe_all, history, matching, wt_dump_for_filter-eq-take,
}
use pokemon_stadium_recomp.Extras.Voices.{audio_stop_voices}
use pokemon_stadium_recomp.Extras.Voices.Erased.{meets}
use pokemon_stadium_recomp.Extras.Voices.Stopped.{
  table, voices_cleared, stopped_memory, audio_stop_voices-eq-stopped_memory,
}
use pokemon_stadium_recomp.Extras.Voices.Sources.{Apart, motion}
use pokemon_stadium_recomp.Extras.Waits.{Scheduler, turn, func_8000771C}
use pokemon_stadium_recomp.Extras.Waits.Return.{turns, func_8000771C-returns}
use pokemon_stadium_recomp.Extras.Snapshots.{snap_ring_cap, no_snap, gdl_submit_snapshot}
use pokemon_stadium_recomp.Extras.Snapshots.Reversed.{reversed_word}
use pokemon_stadium_recomp.Extras.Snapshots.Submitted.{expected_snaps, gdl_submit_snapshot-Holds}
use pokemon_stadium_recomp.Extras.Probes.Once
use pokemon_stadium_recomp.Extras.Probes.Once.{IsOnce, probe_all-IsOnce}

abbrev lookups : List (Event ℕ ℕ)
lookups = entered 5 ∷ entered 7 ∷ left 0 ∷ left 3 ∷ []

session-eq-follow_example :
    session 16 0 report_lookup lookups (empty 16 0) ≡ follow 16 0 report_lookup lookups []
unfolding follow
session-eq-follow_example = session-eq-follow 16 0 report_lookup lookups (λ e. absurd (cc))

-- One synthetic fragment, and one variant that knows an address.
abbrev resolvers : Resolvers
resolvers = record {
  resolve_synthetic_fragment = λ a. if a == 0xA0000010 then 0x80200010 else 0;
  addr_in_loaded_variant = λ bucket a. leb 0x80300000 a && ltb a 0x80310000;
  resolve_via_data_context = λ a ctx. if ctx == 0x80400000 then 0x80400020 else 0;
}

abbrev resolutions : List Answers.Event
resolutions =
    Answers.asked 0x8FF00020
    ∷ Answers.asked 0xA0000010
    ∷ Answers.answered 0 0
    ∷ Answers.answered 0x80500020 0x80400000
    ∷ []

memmap_session-eq-follow_example :
    Answers.session resolvers resolutions Memmap.initial ≡ Answers.follow resolvers resolutions []
unfolding Answers.follow
memmap_session-eq-follow_example =
    memmap_session-eq-follow resolvers resolutions (omega arith, (omega arith, tt))
      (λ e. absurd (cc))

-- An outer call that makes one inner call.
abbrev pulls : Calls
pulls = call 1 2 3 (call 4 5 6 done 7 8 done) 9 10 done

chain_window-eq-numbered_example :
    window chain_ring_cap
      (mbp_chain_get (run_probes pulls Chain.initial).ring)
      (run_probes pulls Chain.initial).ring.seq
    ≡ numbered
        (length (events 0 pulls) - chain_ring_cap)
        (drop (length (events 0 pulls) - chain_ring_cap) (events 0 pulls))
unfolding size
chain_window-eq-numbered_example = chain_window-eq-numbered pulls (omega arith)

abbrev zeros : Rdram
zeros = λ i. 0

abbrev wavetables : List Call
wavetables =
    record { rdram = zeros; filter = 7; param_id = 5; param = 0x80000000 }
    ∷ record { rdram = zeros; filter = 8; param_id = 5; param = 0x80000010 }
    ∷ record { rdram = zeros; filter = 7; param_id = 4; param = 0x80000020 }
    ∷ []

wt_dump_for_filter-eq-take_example :
    wt_dump_for_filter 7 (probe_all wavetables Wavetable.initial)
    ≡ take 4 (matching 7 (take 64 (reverse (history 0 wavetables))))
wt_dump_for_filter-eq-take_example = wt_dump_for_filter-eq-take wavetables 7 (omega arith)

-- A predicate that holds from the second tick on.
abbrev ticking : Scheduler (ℕ × ℤ)
ticking = record {
  func_80001C90 = λ s. (if ltb s.0 2 then 0 else 1, s);
  get_thread_pri = λ s. s.1;
  set_thread_pri = λ p s. (s.0, p);
  yield_self = λ s. (s.0 + 1, s.1);
}

not_yet :
    (j : ℕ)
    → j < 2
    → (ticking.func_80001C90 (turns ticking j (ticking.set_thread_pri (pos 1) (0, pos 10)))).0 ≡ 0
unfolding turns turn
not_yet zero h = refl
not_yet (suc zero) h = refl
not_yet (suc (suc j)) h = absurd (omega arith)

at_last :
    (ticking.func_80001C90 (turns ticking 2 (ticking.set_thread_pri (pos 1) (0, pos 10)))).0 ≢ 0
unfolding turns turn
at_last e = let one : ◌≡◌ {A = ℕ} 1 0 = e in absurd (omega (arith, one))

func_8000771C-returns_example :
    (t : ℕ × ℤ) × (func_8000771C ticking 3 (0, pos 10) ≡ some t)
    × (ticking.get_thread_pri t ≡ ticking.get_thread_pri (0, pos 10))
    × (t
        ≡ ticking.set_thread_pri
            (ticking.get_thread_pri (0, pos 10))
            (ticking.func_80001C90
              (turns ticking 2 (ticking.set_thread_pri (pos 1) (0, pos 10)))).1)
func_8000771C-returns_example =
    func_8000771C-returns ticking 2 3 (0, pos 10) (λ p t. refl) not_yet at_last (omega arith)

-- A list at 0x100 whose bytes, reversed, call 0x80000200 once and then end.
abbrev calling : Rdram
calling p =
    if p == 0x100
    then 0xDE
    else if p == 0x101
    then 1
    else if p == 0x104
    then 0x80
    else if p == 0x106
    then 2
    else if p == 0x108
    then 0xDF
    else 0

calling-IsBytes : IsBytes calling
calling-IsBytes p = ground arith

called : length (expected_snaps calling 1 8192 0x100) ≡ 1
unfolding expected_snaps load8 reversed_word
called = refl

gdl_submit_snapshot-Holds_example :
    Holds snap_ring_cap no_snap ([] ++ expected_snaps calling 1 8192 (0x80000100 % 2 ^ 23)) (
      gdl_submit_snapshot
        (some calling)
        0x80000100
        1
        (record { slots = replicate snap_ring_cap no_snap; seq = 0 }))
gdl_submit_snapshot-Holds_example =
    gdl_submit_snapshot-Holds calling 0x80000100 1 [] _ calling-IsBytes (omega arith) (omega arith)
      (init-Holds snap_ring_cap no_snap)

abbrev literals : List ℕ
literals = 0x8FF00020 ∷ 0x80000000 ∷ 0x8FF00020 ∷ 0x8FF00030 ∷ []

probe_all-IsOnce_example : IsOnce 32 literals [] (Once.probe_all 32 literals [])
probe_all-IsOnce_example = probe_all-IsOnce 32 literals [] tt (omega arith)

-- A table of one pointer at 0x200, to a voice at 0x80100000.
abbrev one_source : Rdram
one_source = store8 (store8 zeros 0x200 0x80) 0x201 0x10

-- Words of the game's memory, of which only the top half is not 0.
abbrev high : Rdram → ℕ → ℕ → ℕ → Rdram
high m p b0 b1 = store8 (store8 m p b0) (p + 1) b1

-- One voice at 0x80100000; a synthesizer at 0x80110000 with the bus at 0x80120000, which has one
-- source, in the table at 0x80130000 and itself at 0x80140000; both voices sound.
abbrev sounding : Rdram
sounding =
    high
      (high
        (high
          (high
            (high
              (high (high (store8 (store8 zeros 0xFC7CF 1) 0x120017 1) 0xFC7D0 0x80 0x10) 0x78584
                0x80 0x11)
              0x110034 0x80 0x12)
            0x12001C 0x80 0x13)
          0x130000 0x80 0x14)
        0x100038 1 2)
      0x140084 3 4

table_there : table (voices_cleared sounding) ≡ (0x130000, 1)
unfolding voices_cleared table load_be32 store8 meets
table_there = refl

table-Apart : Apart (voices_cleared sounding) 0x130000 1
unfolding voices_cleared load_be32 store8 meets
table-Apart = record { apart = only }
  where
    only :
        (i j : ℕ)
        → i < 1
        → j < 1
        → (0x130000 + i * 4 + 4 ≤ motion (voices_cleared sounding) 0x130000 j)
          ⊎ (motion (voices_cleared sounding) 0x130000 j + 4 ≤ 0x130000 + i * 4)
    only zero zero h k = inl (omega arith)
    only (suc i) j h k = absurd (omega arith)
    only zero (suc j) h k = absurd (omega arith)

-- The game's voice sounds before the stop and not behind it.
voice_stopped : (load8 sounding 0x100039 ≡ 2) × (load8 (stopped_memory sounding) 0x100039 ≡ 0)
unfolding stopped_memory load8 store8 load_be32 meets
voice_stopped = (refl, refl)

-- So does libnaudio's source.
source_stopped : (load8 sounding 0x140085 ≡ 4) × (load8 (stopped_memory sounding) 0x140085 ≡ 0)
unfolding stopped_memory load8 store8 load_be32 meets
source_stopped = (refl, refl)

audio_stop_voices-eq-stopped_memory_example :
    (audio_stop_voices sounding (record { voices = false; sources = false })).rdram
    ≡ stopped_memory sounding
audio_stop_voices-eq-stopped_memory_example =
    audio_stop_voices-eq-stopped_memory sounding (record { voices = false; sources = false })
      (subst (λ (t : ℕ × ℕ). Apart (voices_cleared sounding) t.0 t.1) (sym table_there) table-Apart)
