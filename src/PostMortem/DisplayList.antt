-- ===== src/PostMortem/DisplayList.antt =====
-- When the display list's dump is written, and with what.
use pokemon_stadium_recomp.Prelude.{
  ℕ, ◌+◌, ◌-◌, ◌%◌, ◌^◌, ◌≤◌, ◌<◌, ◌≡◌, ◌≢◌, refl, arith, Bool, true, false, ◌||◌, List, Option,
  none, some, ltb, leb, ◌==◌, if◌then◌else◌, length, get_or,
}
use pokemon_stadium_recomp.Prelude.Int.{pos}
use pokemon_stadium_recomp.Rdram.{Rdram, load_bytes, load8}
use pokemon_stadium_recomp.Rdram.Words.{length-load_bytes, get_or-load_bytes}
use pokemon_stadium_recomp.DebugServer.Events.{SpTaskEvent}
use pokemon_stadium_recomp.PostMortem.{Dump, failed, dump_task}

-- The list of the task lies in the memory, is not empty and has at most 1 MiB.
pub record IsDumpable (e : SpTaskEvent) : Type 0 where
  pub some_bytes : 0 < e.data_size
  pub at_most : e.data_size ≤ 0x100000
  pub kseg0 : 0x80000000 ≤ e.data_ptr
  pub inside : e.data_ptr - 0x80000000 + e.data_size ≤ 0x800000

-- With the memory there and the file open, a task's list that is not empty, of at most 1 MiB and
-- wholly inside KSEG0's 8 MiB is dumped: status 0, and the file holds exactly its bytes.
pub dump_task-IsDumpable :
    (m : Rdram) (e : SpTaskEvent)
    → IsDumpable e
    → (bs : List ℕ) × (dump_task (some m) true e ≡ record { rc = pos 0; file = some bs })
      × (length bs ≡ e.data_size)
      × ((i : ℕ) → i < e.data_size → get_or bs i 0 ≡ load8 m (e.data_ptr - 0x80000000 + i))
unfolding dump_task
dump_task-IsDumpable m e d =
    let a : ((e.data_size == 0) || ltb 0x100000 e.data_size) ≡ false =
      ground (arith, d.some_bytes, d.at_most) in
    let b : ltb e.data_ptr 0x80000000 ≡ false = ground (arith, d.kseg0) in
    let c : (leb 0x800000 (e.data_ptr - 0x80000000)
          || ltb 0x800000 ((e.data_ptr - 0x80000000 + e.data_size) % 2 ^ 32))
        ≡ false =
      ground (arith, d.inside, d.some_bytes) in
    (
      load_bytes m (e.data_ptr - 0x80000000) e.data_size,
      rw (a, b, c) refl,
      length-load_bytes m (e.data_ptr - 0x80000000) e.data_size,
      get_or-load_bytes m (e.data_ptr - 0x80000000) e.data_size,
    )

passed :
    (b : Bool) (n : ℕ) (y : Dump)
    → (if b then failed n else y).rc ≡ pos 0
    → (b ≡ false) × (y.rc ≡ pos 0)
passed true n y h = absurd (cc)
passed false n y h = (refl, h)

opened :
    (opens : Bool) (x : Dump) (n : ℕ) → (if opens then x else failed n).rc ≡ pos 0 → opens ≡ true
opened true x n h = refl
opened false x n h = absurd (cc)

guards-IsDumpable :
    (e : SpTaskEvent)
    → e.data_ptr < 2 ^ 32
    → ((e.data_size == 0) || ltb 0x100000 e.data_size) ≡ false
    → ltb e.data_ptr 0x80000000 ≡ false
    → (leb 0x800000 (e.data_ptr - 0x80000000)
        || ltb 0x800000 ((e.data_ptr - 0x80000000 + e.data_size) % 2 ^ 32))
      ≡ false
    → IsDumpable e
guards-IsDumpable e small a b c = record {
  some_bytes = ground arith;
  at_most = ground arith;
  kseg0 = ground arith;
  inside = ground arith;
}

-- Any dump that reports success was of such a list, with the memory there and the file open; for an
-- address of 32 bits.
pub dump_task-zero :
    (rdram : Option Rdram) (opens : Bool) (e : SpTaskEvent)
    → e.data_ptr < 2 ^ 32
    → (dump_task rdram opens e).rc ≡ pos 0
    → (rdram ≢ none) × (opens ≡ true) × IsDumpable e
unfolding dump_task
dump_task-zero none opens e small h = absurd (cc)
dump_task-zero (some m) opens e small h =
    let (a, h1) = passed _ 3 _ h in
    let (b, h2) = passed _ 4 _ h1 in
    let (c, h3) = passed _ 5 _ h2 in
    ((λ n. absurd (cc)), opened opens _ 6 h3, guards-IsDumpable e small a b c)
