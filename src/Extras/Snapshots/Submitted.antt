-- ===== src/Extras/Snapshots/Submitted.antt =====
-- Which calls a submitted list leaves in the ring, and which bytes the walk reads as commands.
use pokemon_stadium_recomp.Prelude.{
  ℕ, zero, suc, ◌+◌, ◌%◌, ◌^◌, ◌<◌, ◌≤◌, ◌≡◌, refl, arith, List, [], ◌∷◌, ◌++◌, length, ◌||◌, ◌&&◌,
  leb, ltb, ◌==◌, if◌then◌else◌, Bool-cases, inl, inr, some,
}
use pokemon_stadium_recomp.Prelude.Bits.{bit_and_mask}
use pokemon_stadium_recomp.Ring.{Ring}
use pokemon_stadium_recomp.Ring.Window.{Holds, push_all, push_all-Holds}
use pokemon_stadium_recomp.Rdram.{Rdram, IsBytes, load8}
use pokemon_stadium_recomp.Extras.Snapshots.{
  SnapEv, snap_ring_cap, no_snap, raw_word, opcode, offset_of, is_call, call_snapshot,
  walk_commands, gdl_submit_snapshot,
}
use pokemon_stadium_recomp.Extras.Snapshots.Reversed.{
  reversed_word, host_bytes, opcode-eq-load8, raw_word-eq-reversed, call_snapshot-eq-expected,
  is_call-eq-bytes,
}

-- The list of snapshots that the walk has to take from `off` on, in the bytes of the game: of each
-- pair of words the last byte of the first is taken for the opcode and the one before it for the push
-- flag, and the second, its bytes reversed, for the target.
unfoldable pub expected_snaps : Rdram → ℕ → ℕ → ℕ → List SnapEv
expected_snaps m submit_seq zero off = []
expected_snaps m submit_seq (suc left) off =
    let target = reversed_word m (off + 4) in
    let rest = expected_snaps m submit_seq left (off + 8) in
    let snap : SnapEv = record {
      submit_seq = submit_seq;
      target_vaddr = target;
      parent_vaddr = 0x80000000 + off;
      head = host_bytes m (target % 2 ^ 23) 16 0;
    } in
    if ltb 0x800000 (off + 8) || (load8 m (off + 3) == 0xDF)
    then []
    else if (load8 m (off + 3) == 0xDE)
        && (load8 m (off + 2) == 1)
        && leb (target % 2 ^ 23 + 16) 0x800000
    then snap ∷ rest
    else rest

-- The commands as the code reads them: its pairs of words up to the end of the memory, to G_ENDDL, or to the
-- `left`-th.
unfoldable pub commands : Rdram → ℕ → ℕ → List (ℕ × ℕ × ℕ)
commands m zero off = []
commands m (suc left) off =
    let rest = commands m left (off + 8) in
    if ltb 0x800000 (off + 8) || (opcode (raw_word m off) == 0xDF)
    then []
    else (off, raw_word m off, raw_word m (off + 4)) ∷ rest

unfoldable pub calls : Rdram → ℕ → List (ℕ × ℕ × ℕ) → List SnapEv
calls m submit_seq [] = []
calls m submit_seq ((off, w0, w1) ∷ cs) =
    if is_call w0 w1
    then call_snapshot m submit_seq off w1 ∷ calls m submit_seq cs
    else calls m submit_seq cs

walk_commands-eq-push_all :
    (m : Rdram) (submit_seq left off : ℕ) (r : Ring SnapEv)
    → walk_commands m submit_seq left off r
      ≡ push_all snap_ring_cap no_snap (calls m submit_seq (commands m left off)) r
unfolding walk_commands calls commands push_all
walk_commands-eq-push_all m submit_seq zero off r = refl
walk_commands-eq-push_all m submit_seq (suc left) off r =
    elim (Bool-cases (ltb 0x800000 (off + 8))) [
      | inl beyond ↦ rw (walk_commands, commands, beyond) refl
      | inr inside ↦ elim (Bool-cases (opcode (raw_word m off) == 0xDF)) [
        | inl end ↦ rw (walk_commands, commands, inside, end) refl
        | inr going ↦ elim (Bool-cases (is_call (raw_word m off) (raw_word m (off + 4)))) [
          | inl call ↦
              rw (walk_commands, commands, inside, going, calls, call)
                (walk_commands-eq-push_all m submit_seq left (off + 8) _)
          | inr other ↦
              rw (walk_commands, commands, inside, going, calls, other)
                (walk_commands-eq-push_all m submit_seq left (off + 8) r)
        ]
      ]
    ]

calls-commands :
    (m : Rdram) (submit_seq left off : ℕ)
    → IsBytes m
    → off % 4 ≡ 0
    → calls m submit_seq (commands m left off) ≡ expected_snaps m submit_seq left off
unfolding expected_snaps calls commands
calls-commands m submit_seq zero off b aligned = refl
calls-commands m submit_seq (suc left) off b aligned = elim (Bool-cases (ltb 0x800000 (off + 8))) [
  | inl beyond ↦ rw (commands, expected_snaps, beyond) refl
  | inr inside ↦ elim (Bool-cases (load8 m (off + 3) == 0xDF)) [
    | inl end ↦ rw (commands, expected_snaps, inside, code, end) refl
    | inr going ↦
        rw
          (
            commands,
            expected_snaps,
            inside,
            code,
            going,
            calls,
            target,
            is_call-eq-bytes m off (reversed_word m (off + 4)) b aligned,
            call_snapshot-eq-expected m submit_seq off (reversed_word m (off + 4))
                (ground (arith, inside)),
            calls-commands m submit_seq left (off + 8) b (omega (arith, aligned)),
          )
          refl
  ]
]
  where
    code : opcode (raw_word m off) ≡ load8 m (off + 3)
    code = (opcode-eq-load8 m off b aligned).0

    target : raw_word m (off + 4) ≡ reversed_word m (off + 4)
    target = raw_word-eq-reversed m (off + 4) b (omega (arith, aligned))

length-expected_snaps :
    (m : Rdram) (submit_seq left off : ℕ) → length (expected_snaps m submit_seq left off) ≤ left
unfolding expected_snaps
length-expected_snaps m submit_seq zero off = omega arith
length-expected_snaps m submit_seq (suc left) off =
    ground (arith, length-expected_snaps m submit_seq left (off + 8))

walk_commands-Holds :
    (m : Rdram) (submit_seq left off start : ℕ) (log : List SnapEv) (r : Ring SnapEv)
    → IsBytes m
    → off ≡ start
    → start % 4 ≡ 0
    → length log + left < 2 ^ 64
    → Holds snap_ring_cap no_snap log r
    → Holds snap_ring_cap no_snap
        (log ++ expected_snaps m submit_seq left start)
        (walk_commands m submit_seq left off r)
walk_commands-Holds m submit_seq left off start log r b same aligned small v =
    rw
      (
        same,
        walk_commands-eq-push_all m submit_seq left start r,
        calls-commands m submit_seq left start b aligned,
      )
      (push_all-Holds snap_ring_cap no_snap (expected_snaps m submit_seq left start) (omega arith)
        (omega (arith, length-expected_snaps m submit_seq left start)) v)

-- For a list at an address that is a multiple of 4, in a memory of bytes: when the ring holds the newest
-- 1024 snapshots of a history, then behind the walk of the list it holds them for the history with the
-- expected snapshots behind it, in order. These are those of at most 8192 pairs of words, each within
-- 8 MiB, up to the first whose opcode is 0xDF, with one for each opcode 0xDE with push flag 1 whose
-- target has 16 bytes in the memory; opcode, flag and target are read from the game's bytes in
-- reverse order, so they are not those of the list's own commands. For fewer than 2^64 snapshots.
pub gdl_submit_snapshot-Holds :
    (m : Rdram) (dl_vaddr submit_seq : ℕ) (log : List SnapEv) (r : Ring SnapEv)
    → IsBytes m
    → dl_vaddr % 4 ≡ 0
    → length log + 8192 < 2 ^ 64
    → Holds snap_ring_cap no_snap log r
    → Holds snap_ring_cap no_snap
        (log ++ expected_snaps m submit_seq 8192 (dl_vaddr % 2 ^ 23))
        (gdl_submit_snapshot (some m) dl_vaddr submit_seq r)
unfolding gdl_submit_snapshot
gdl_submit_snapshot-Holds m dl_vaddr submit_seq log r b aligned small v =
    walk_commands-Holds m submit_seq 8192 (offset_of dl_vaddr) (dl_vaddr % 2 ^ 23) log r b
      (bit_and_mask 23 dl_vaddr) (omega (arith, aligned)) small v
