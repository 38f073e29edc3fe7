-- ===== src/Extras/Voices/Erased.antt =====
-- Memories with words cleared, and the two loops of the stop as such.
use mathlib.Core.Path.{fun_ext}
use pokemon_stadium_recomp.Prelude.{
  ℕ, zero, suc, ◌+◌, ◌-◌, ◌*◌, ◌/◌, ◌%◌, ◌<◌, ◌≡◌, refl, sym, ap, ◌∙◌, arith, Bool, true, false,
  ◌||◌, ◌&&◌, leb, ltb, if◌then◌else◌, Bool-cases, inl, inr, List, [], ◌∷◌, bit_xor,
}
use pokemon_stadium_recomp.Prelude.Bits.{bit_xor_three}
use pokemon_stadium_recomp.Rdram.{Rdram, load8, load_be32, zero_word, in_rdram, physical}
use pokemon_stadium_recomp.Rdram.Store.{load8-zero_word}
use pokemon_stadium_recomp.Extras.Voices.{clear_voices, stop_source, stop_sources}
use pokemon_stadium_recomp.Extras.Voices.Sources.{Apart, Apart-rest, load_be32-stop_source}

-- Whether the address lies in one of the words of 4 bytes at the given addresses.
unfoldable pub meets : List ℕ → ℕ → Bool
meets [] q = false
meets (w ∷ ws) q = (leb w q && ltb q (w + 4)) || meets ws q

-- The memory with those words cleared: the host's byte `i` is the game's at `i / 4 * 4 + (3 - i % 4)`.
unfoldable pub erase : List ℕ → Rdram → Rdram
erase ws m i = if meets ws (i / 4 * 4 + (3 - i % 4)) then 0 else m i

load8-erase :
    (ws : List ℕ) (m : Rdram) (q : ℕ) → load8 (erase ws m) q ≡ (if meets ws q then 0 else load8 m q)
unfolding load8 erase
load8-erase ws m q = ap (λ p. if meets ws p then 0 else m (bit_xor q 3)) back
  where
    back : bit_xor q 3 / 4 * 4 + (3 - bit_xor q 3 % 4) ≡ q
    back = omega (arith, bit_xor_three q)

-- Two memories in which the game sees the same bytes are the same.
same_memory : (m m' : Rdram) → ((q : ℕ) → load8 m q ≡ load8 m' q) → m ≡ m'
unfolding load8
same_memory m m' same = fun_ext (λ i. ap m (sym (twice i)) ∙ same (bit_xor i 3) ∙ ap m' (twice i))
  where
    twice : (i : ℕ) → bit_xor (bit_xor i 3) 3 ≡ i
    twice i = omega (arith, bit_xor_three i, bit_xor_three (bit_xor i 3))

load8-zero_word-meets :
    (m : Rdram) (w q : ℕ)
    → load8 (zero_word m w) q ≡ (if leb w q && ltb q (w + 4) then 0 else load8 m q)
load8-zero_word-meets m w q = ground (arith, load8-zero_word m w q)

pub erase-nil : (m : Rdram) → erase [] m ≡ m
unfolding erase meets
erase-nil m = refl

erase-zero_word : (w : ℕ) (ws : List ℕ) (m : Rdram) → erase ws (zero_word m w) ≡ erase (w ∷ ws) m
unfolding meets
erase-zero_word w ws m = same_memory _ _ (λ q.
    load8-erase ws (zero_word m w) q
    ∙ ap (λ v. if meets ws q then 0 else v) (load8-zero_word-meets m w q)
    ∙ orders (meets ws q) (leb w q && ltb q (w + 4)) (load8 m q)
    ∙ sym (load8-erase (w ∷ ws) m q))
  where
    orders :
        (a b : Bool) (v : ℕ) → (if a then 0 else if b then 0 else v) ≡ (if b || a then 0 else v)
    orders true true v = refl
    orders true false v = refl
    orders false true v = refl
    orders false false v = refl

-- The words at 0x38 of `n` voices of 0x150 bytes.
unfoldable pub voice_words : ℕ → ℕ → List ℕ
voice_words p zero = []
voice_words p (suc n) = (p + 0x38) ∷ voice_words (p + 0x150) n

pub clear_voices-eq-erase :
    (n : ℕ) (m : Rdram) (p : ℕ) → clear_voices m p n ≡ erase (voice_words p n) m
unfolding clear_voices voice_words
clear_voices-eq-erase zero m p = sym (erase-nil m)
clear_voices-eq-erase (suc n) m p =
    clear_voices-eq-erase n (zero_word m (p + 0x38)) (p + 0x150)
    ∙ erase-zero_word (p + 0x38) (voice_words (p + 0x150) n) m

-- The words at 0x84 of what `n` pointers of one memory point at, where that lies in RDRAM.
unfoldable pub source_words : Rdram → ℕ → ℕ → List ℕ
source_words m p zero = []
source_words m p (suc n) =
    let rest = source_words m (p + 4) n in
    if in_rdram (load_be32 m p) then (physical (load_be32 m p) + 0x84) ∷ rest else rest

source_words-same :
    (n : ℕ) (m m' : Rdram) (p : ℕ)
    → ((j : ℕ) → j < n → load_be32 m' (p + j * 4) ≡ load_be32 m (p + j * 4))
    → source_words m' p n ≡ source_words m p n
unfolding source_words
source_words-same zero m m' p same = refl
source_words-same (suc n) m m' p same = rw (first, source_words-same n m m' (p + 4) moved) refl
  where
    at_first : p + 0 * 4 ≡ p
    at_first = omega arith

    first : load_be32 m' p ≡ load_be32 m p
    first = ap (load_be32 m') (sym at_first) ∙ same 0 (omega arith) ∙ ap (load_be32 m) at_first

    next : (j : ℕ) → p + suc j * 4 ≡ p + 4 + j * 4
    next j = omega arith

    moved : (j : ℕ) → j < n → load_be32 m' (p + 4 + j * 4) ≡ load_be32 m (p + 4 + j * 4)
    moved j h =
        ap (load_be32 m') (sym (next j)) ∙ same (suc j) (omega arith) ∙ ap (load_be32 m) (next j)

one_source-eq-erase :
    (m : Rdram) (p : ℕ) (ws : List ℕ)
    → erase ws (stop_source m p)
      ≡ erase (if in_rdram (load_be32 m p) then (physical (load_be32 m p) + 0x84) ∷ ws else ws) m
unfolding stop_source
one_source-eq-erase m p ws = elim (Bool-cases (in_rdram (load_be32 m p))) [
  | inl there ↦ rw there (erase-zero_word (physical (load_be32 m p) + 0x84) ws m)
  | inr gone ↦ rw gone refl
]

pub stop_sources-eq-erase :
    (n : ℕ) (m : Rdram) (p : ℕ) → Apart m p n → stop_sources m p n ≡ erase (source_words m p n) m
unfolding stop_sources source_words
stop_sources-eq-erase zero m p a = sym (erase-nil m)
stop_sources-eq-erase (suc n) m p a =
    stop_sources-eq-erase n (stop_source m p) (p + 4)
      (Apart-rest m (stop_source m p) p n (λ j h. load_be32-stop_source m p n j a h) a)
    ∙ ap (λ ws. erase ws (stop_source m p))
        (source_words-same n m (stop_source m p) (p + 4) (λ j h.
          ap (load_be32 (stop_source m p)) (sym (next j))
          ∙ load_be32-stop_source m p n j a h
          ∙ ap (load_be32 m) (next j)))
    ∙ one_source-eq-erase m p (source_words m (p + 4) n)
  where
    next : (j : ℕ) → p + suc j * 4 ≡ p + 4 + j * 4
    next j = omega arith
