-- ===== src/Extras/Voices/Cleared.antt =====
-- The second loop of the stop writes nothing but zeros.
use pokemon_stadium_recomp.Prelude.{ℕ, zero, suc, ◌+◌, ◌≡◌, ◌⊎◌, inl, inr, refl, arith, Bool-cases}
use pokemon_stadium_recomp.Rdram.{Rdram, load8, load_be32, zero_word, in_rdram, physical}
use pokemon_stadium_recomp.Rdram.Store.{load8-zero_word}
use pokemon_stadium_recomp.Extras.Voices.{stop_source, stop_sources}

-- Every byte of the second memory is that of the first, or 0.
pub record OnlyClears (m m' : Rdram) : Type 0 where
  pub byte : (q : ℕ) → (load8 m' q ≡ load8 m q) ⊎ (load8 m' q ≡ 0)

OnlyClears-refl : (m : Rdram) → OnlyClears m m
OnlyClears-refl m = record { byte = λ q. inl refl }

OnlyClears-trans : {m1 m2 m3 : Rdram} → OnlyClears m1 m2 → OnlyClears m2 m3 → OnlyClears m1 m3
OnlyClears-trans a b = record { byte = λ q. ground (arith, a.byte q, b.byte q) }

pub OnlyClears-zero : {m1 m2 : Rdram} (q : ℕ) → OnlyClears m1 m2 → load8 m1 q ≡ 0 → load8 m2 q ≡ 0
OnlyClears-zero q a e = ground (arith, a.byte q)

zero_word-OnlyClears : (m : Rdram) (p : ℕ) → OnlyClears m (zero_word m p)
zero_word-OnlyClears m p = record { byte = λ q. ground (arith, load8-zero_word m p q) }

stop_source-OnlyClears : (m : Rdram) (p : ℕ) → OnlyClears m (stop_source m p)
unfolding stop_source
stop_source-OnlyClears m p = elim (Bool-cases (in_rdram (load_be32 m p))) [
  | inl there ↦ rw there (zero_word-OnlyClears m (physical (load_be32 m p) + 0x84))
  | inr gone ↦ rw gone (OnlyClears-refl m)
]

pub stop_sources-OnlyClears : (n : ℕ) (m : Rdram) (p : ℕ) → OnlyClears m (stop_sources m p n)
unfolding stop_sources
stop_sources-OnlyClears zero m p = OnlyClears-refl m
stop_sources-OnlyClears (suc n) m p =
    OnlyClears-trans (stop_source-OnlyClears m p)
      (stop_sources-OnlyClears n (stop_source m p) (p + 4))
