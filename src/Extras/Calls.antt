-- ===== src/Extras/Calls.antt =====
-- The entry and exit hooks of extras.c that save arguments and print to stderr: the lookup, the
-- copy protection, the PERS-SZP loader and the pool allocator. A message is a constructor with the values that the line shows.
use pokemon_stadium_recomp.Prelude.{
  ℕ, ◌+◌, ◌-◌, ◌*◌, ◌%◌, ◌^◌, List, [], ◌∷◌, map, Option, none, some, ltb, leb, ◌==◌, if◌then◌else◌,
  ◌&&◌, Bool,
}
use pokemon_stadium_recomp.Prelude.Text.{Bytes}
use pokemon_stadium_recomp.Rdram.{Rdram, load_be32, load_bytes, physical}
use pokemon_stadium_recomp.Extras.Args.{Saved, save, restore, report_saved}

pub data Message : Type 0 where
  lookup_miss : ℕ → Message
  copyprot_tripped : ℕ → ℕ → Message
  pers_loaded : ℕ → ℕ → ℕ → Bytes → Message
  pool_alloc_fail : ℕ → List ℕ → Message
  pool_ok : ℕ → ℕ → ℕ → ℕ → Message

-- `if (sp < 16)`
abbrev pub deep : ℕ
deep = 16

unfoldable pub lookup_enter : ℕ → Saved ℕ → Option (Saved ℕ)
unfolding save
lookup_enter a0 s = save deep 0 a0 s

unfoldable pub report_lookup : ℕ → ℕ → List Message
report_lookup a0 v0 = if v0 == 0 then lookup_miss a0 ∷ [] else []

unfoldable pub lookup_exit : ℕ → Saved ℕ → List Message × Saved ℕ
unfolding restore report_saved report_lookup
lookup_exit v0 s = (report_saved deep 0 report_lookup v0 (restore deep 0 s).0, (restore deep 0 s).1)

unfoldable pub copyprot_enter : ℕ → Saved ℕ → Option (Saved ℕ)
unfolding save
copyprot_enter state s = save deep 0 state s

unfoldable pub report_copyprot : ℕ → ℕ → List Message
report_copyprot in_state v0 = if v0 == in_state then [] else copyprot_tripped in_state v0 ∷ []

unfoldable pub copyprot_exit : ℕ → Saved ℕ → List Message × Saved ℕ
unfolding restore report_saved report_copyprot
copyprot_exit v0 s =
    (report_saved deep 0 report_copyprot v0 (restore deep 0 s).0, (restore deep 0 s).1)

unfoldable pub pers_enter : ℕ → ℕ → Saved (ℕ × ℕ) → Option (Saved (ℕ × ℕ))
unfolding save
pers_enter a0 a1 s = save deep (0, 0) (a0, a1) s

-- `(b >= 0x20 && b < 0x7F) ? b : '.'`
unfoldable pub printable : ℕ → ℕ
printable b = if leb 0x20 b && ltb b 0x7F then b else 46

unfoldable pub magic_of : Rdram → ℕ → Bytes
unfolding load_bytes printable
magic_of rdram v0 =
    if (v0 == 0)
    then []
    else if leb (physical v0 + 8) (1024 * 1024 * 1024)
    then map printable (load_bytes rdram (physical v0) 8)
    else []

unfoldable pub report_pers : ℕ × ℕ → Rdram × ℕ → List Message
unfolding magic_of
report_pers (a0, a1) (rdram, v0) = pers_loaded a0 a1 v0 (magic_of rdram v0) ∷ []

unfoldable pub pers_exit : Rdram → ℕ → Saved (ℕ × ℕ) → List Message × Saved (ℕ × ℕ)
unfolding restore report_saved report_pers
pers_exit rdram v0 s = (
  report_saved deep (0, 0) report_pers (rdram, v0) (restore deep (0, 0) s).0,
  (restore deep (0, 0) s).1,
)

-- The hooks of `main_pool_alloc`: the saved sizes, `s_total_allocd` and `s_last_logged`.
pub record Pool : Type 0 where
  pub sizes : Saved ℕ
  pub total_allocd : ℕ
  pub last_logged : ℕ

unfoldable pub pool_alloc_enter : ℕ → Pool → Option Pool
unfolding save
pool_alloc_enter size p = elim (save deep 0 size p.sizes) [
  | none ↦ none
  | some s ↦ some (record p { sizes = s })
]

-- `s_total_allocd += size`, which the exit hook does before it reports.
unfoldable pub count_alloc : Option ℕ → Pool → Pool
count_alloc none p = p
count_alloc (some size) p = record p { total_allocd = (p.total_allocd + size) % 2 ^ 64 }

-- `s_total_allocd - s_last_logged >= 0x8000`, in 64 bits
unfoldable pub due : Pool → Bool
due p = leb 0x8000 ((p.total_allocd + 2 ^ 64 - p.last_logged) % 2 ^ 64)

unfoldable pub report_alloc : Rdram → ℕ → Option ℕ → Pool → List Message × Pool
unfolding load_be32 due
report_alloc rdram v0 none p = ([], p)
report_alloc rdram v0 (some size) p =
    if v0 == 0
    then (
      pool_alloc_fail size (
            map (load_be32 rdram)
              (0x000A608C ∷ 0x000A6090 ∷ 0x000A6094 ∷ 0x000A6098 ∷ 0x000A609C ∷ []))
          ∷ [],
      p,
    )
    else if due p
    then (
      pool_ok size v0 (load_be32 rdram 0x000A608C) p.total_allocd ∷ [],
      record p { last_logged = p.total_allocd },
    )
    else ([], p)

unfoldable pub pool_alloc_exit : Rdram → ℕ → Pool → List Message × Pool
unfolding restore count_alloc report_alloc
pool_alloc_exit rdram v0 p =
    report_alloc rdram v0 (restore deep 0 p.sizes).0
      (count_alloc (restore deep 0 p.sizes).0 (record p { sizes = (restore deep 0 p.sizes).1 }))
