-- ===== src/Extras/Firsts.antt =====
-- The logs of extras.c that keep the first calls of a hook: the lazy resolver's arguments, which the
-- debug server reports, and the sound banks as they are loaded. The index is an atomic `int` that
-- only grows; it is a natural number, so the model is that of fewer than 2^31 calls.
pub mod Kept
use pokemon_stadium_recomp.Prelude.{
  ℕ, zero, suc, ◌+◌, ◌^◌, min, List, [], ◌∷◌, ◌++◌, Option, none, some, ltb, leb, if◌then◌else◌,
  get_or, set, replicate,
}
use pokemon_stadium_recomp.Prelude.Int.{ℤ, pos, negsuc}
use pokemon_stadium_recomp.Prelude.Text.{Bytes, codes}
use pokemon_stadium_recomp.Libc.Print.{hex2_upper, hex8}
use pokemon_stadium_recomp.Rdram.{Rdram, load_bytes, physical}

-- The number of calls so far, and the array.
pub record First {ℓ} (A : Type ℓ) : Type ℓ where
  pub n : ℕ
  pub entries : List A

module _ {ℓ} {A : Type ℓ} (cap : ℕ) where
  unfoldable pub none_yet : A → First A
  none_yet d = record { n = 0; entries = replicate cap d }

  -- `idx = n++; if (idx < cap) entries[idx] = x;`
  unfoldable pub add : A → First A → First A
  add x s = record { n = s.n + 1; entries = if ltb s.n cap then set s.entries s.n x else s.entries }

  -- `n < cap ? n : cap`
  unfoldable pub total : First A → ℕ
  total s = if ltb s.n cap then s.n else cap

-- One captured call of the lazy resolver.
pub record ResolverEntry : Type 0 where
  pub arr : ℕ
  pub base : ℕ
  pub count : ℕ

abbrev pub resolver_log_cap : ℕ
resolver_log_cap = 64

abbrev pub no_entry : ResolverEntry
no_entry = record { arr = 0; base = 0; count = 0 }

unfoldable pub log_resolver : ℕ → ℕ → ℕ → First ResolverEntry → First ResolverEntry
unfolding add
log_resolver arr base count s =
    add resolver_log_cap (record { arr = arr; base = base; count = count }) s

unfoldable pub resolver_log_total : First ResolverEntry → ℕ
unfolding total
resolver_log_total s = total resolver_log_cap s

-- An index out of range answers zeros.
unfoldable pub resolver_log_get : First ResolverEntry → ℤ → ResolverEntry
resolver_log_get s (negsuc n) = no_entry
resolver_log_get s (pos idx) =
    if leb resolver_log_cap idx then no_entry else get_or s.entries idx no_entry

-- The entries from `i` on, as the debug server's loop gets them.
unfoldable pub entries_from : First ResolverEntry → ℕ → ℕ → List ResolverEntry
unfolding resolver_log_get
entries_from s i zero = []
entries_from s i (suc n) = resolver_log_get s (pos i) ∷ entries_from s (i + 1) n

unfoldable pub logged_entries : First ResolverEntry → List ResolverEntry
unfolding entries_from resolver_log_total
logged_entries s = entries_from s 0 (resolver_log_total s)

-- `sb_snapshot`
pub record SbSnapshot : Type 0 where
  pub addr : ℕ
  pub bytes : List ℕ

abbrev pub sb_snapshot_cap : ℕ
sb_snapshot_cap = 16

abbrev pub no_snapshot : SbSnapshot
no_snapshot = record { addr = 0; bytes = replicate 0x40 0 }

-- The bytes of the bank, or those of the slot when the bank would reach beyond 1 GiB.
unfoldable pub bank_bytes : Rdram → ℕ → List ℕ → List ℕ
unfolding load_bytes
bank_bytes rdram sb_vaddr old =
    if leb (2 ^ 30) (physical sb_vaddr + 0x40)
    then old
    else load_bytes rdram (physical sb_vaddr) 0x40

unfoldable pub sb_loader_enter : Rdram → ℕ → First SbSnapshot → First SbSnapshot
unfolding add bank_bytes
sb_loader_enter rdram sb_vaddr s =
    add sb_snapshot_cap
      (record {
        addr = sb_vaddr;
        bytes = bank_bytes rdram sb_vaddr (get_or s.entries s.n no_snapshot).bytes;
      })
      s

-- `%02X` of four bytes from `i` on.
unfoldable pub word_text : List ℕ → ℕ → Bytes
unfolding hex2_upper
word_text bytes i =
    hex2_upper (get_or bytes i 0)
    ++ hex2_upper (get_or bytes (i + 1) 0)
    ++ hex2_upper (get_or bytes (i + 2) 0)
    ++ hex2_upper (get_or bytes (i + 3) 0)

-- The line that the hook prints of a bank that it has copied.
unfoldable pub sb_summary : SbSnapshot → Bytes
unfolding word_text hex8
sb_summary b =
    codes "[sb-load] arg0=0x"
    ++ hex8 b.addr
    ++ codes " first8: "
    ++ word_text b.bytes 0
    ++ codes " "
    ++ word_text b.bytes 4
    ++ codes " off24: "
    ++ word_text b.bytes 0x24
    ++ codes " off28: "
    ++ word_text b.bytes 0x28
    ++ codes " off2C: "
    ++ word_text b.bytes 0x2C
    ++ codes "\n"
