-- ===== src/Extras/Voices/Sources.antt =====
-- The words of libnaudio's voices behind the second loop.
use pokemon_stadium_recomp.Prelude.{
  ℕ, suc, ◌+◌, ◌*◌, ◌<◌, ◌≤◌, ◌≡◌, ◌⊎◌, inl, inr, refl, ap, ◌∙◌, arith, Bool-cases,
}
use pokemon_stadium_recomp.Rdram.{Rdram, load_be32, in_rdram, physical}
use pokemon_stadium_recomp.Rdram.Store.{load_be32-zero_word_apart}
use pokemon_stadium_recomp.Extras.Voices.{stop_source}

-- Where the word of the `j`-th voice of the table at `p` lies.
abbrev pub motion : Rdram → ℕ → ℕ → ℕ
motion m p j = physical (load_be32 m (p + j * 4)) + 0x84

-- No cleared word meets the table.
pub record Apart (m : Rdram) (p n : ℕ) : Type 0 where
  pub apart :
      (i j : ℕ) → i < n → j < n → (p + i * 4 + 4 ≤ motion m p j) ⊎ (motion m p j + 4 ≤ p + i * 4)

word_first :
    (m m' : Rdram) (p : ℕ) (j : ℕ)
    → load_be32 m' (p + suc j * 4) ≡ load_be32 m (p + suc j * 4)
    → load_be32 m' (p + 4 + j * 4) ≡ load_be32 m (p + suc j * 4)
word_first m m' p j e = ap (load_be32 m') (omega arith) ∙ e

-- The memory behind one step still has the rest of the table.
pub Apart-rest :
    (m m' : Rdram) (p n : ℕ)
    → ((j : ℕ) → j < n → load_be32 m' (p + suc j * 4) ≡ load_be32 m (p + suc j * 4))
    → Apart m p (suc n)
    → Apart m' (p + 4) n
Apart-rest m m' p n same a = record {
  apart = λ i j h k.
      rw (word_first m m' p j (same j k))
        (ground (arith, a.apart (suc i) (suc j) (omega arith) (omega arith)));
}

motion_first : (m : Rdram) (p : ℕ) → motion m p 0 ≡ physical (load_be32 m p) + 0x84
motion_first m p = ap (λ q. physical (load_be32 m q) + 0x84) (omega arith)

pub load_be32-stop_source :
    (m : Rdram) (p n j : ℕ)
    → Apart m p (suc n)
    → j < n
    → load_be32 (stop_source m p) (p + suc j * 4) ≡ load_be32 m (p + suc j * 4)
unfolding stop_source
load_be32-stop_source m p n j a h = elim (Bool-cases (in_rdram (load_be32 m p))) [
  | inl there ↦ rw there (
      load_be32-zero_word_apart m (physical (load_be32 m p) + 0x84) (p + suc j * 4)
        (rw (← motion_first m p) (a.apart (suc j) 0 (omega arith) (omega arith))))
  | inr gone ↦ rw gone refl
]
