-- ===== src/PostMortem/Report/Image.antt =====
-- The image of the memory that is written beside the report.
use pokemon_stadium_recomp.Prelude.{
  ℕ, zero, suc, ◌+◌, ◌*◌, ◌≡◌, ap, ◌∙◌, arith, true, ◌∷◌, ◌++◌, some,
}
use pokemon_stadium_recomp.Rdram.{Rdram, load8, load_bytes}
use pokemon_stadium_recomp.PostMortem.Report.{rdram_chunks, dump_full_rdram}

load_bytes-append :
    (m : Rdram) (a p b : ℕ) → load_bytes m p a ++ load_bytes m (p + a) b ≡ load_bytes m p (a + b)
unfolding load_bytes
load_bytes-append m zero p b = ap (λ q. load_bytes m q b) here ∙ ap (load_bytes m p) none_more
  where
    here : p + 0 ≡ p
    here = omega arith

    none_more : b ≡ 0 + b
    none_more = omega arith
load_bytes-append m (suc a) p b =
    ap (λ xs. load8 m p ∷ xs)
      (ap (λ q. load_bytes m (p + 1) a ++ load_bytes m q b) shift ∙ load_bytes-append m a (p + 1) b)
    ∙ ap (load_bytes m p) more
  where
    shift : p + suc a ≡ p + 1 + a
    shift = omega arith

    more : suc (a + b) ≡ suc a + b
    more = omega arith

rdram_chunks-eq-load_bytes :
    (m : Rdram) (size n base : ℕ) → rdram_chunks m size n base ≡ load_bytes m base (n * size)
unfolding rdram_chunks load_bytes
rdram_chunks-eq-load_bytes m size zero base = ap (load_bytes m base) none_left
  where
    none_left : 0 ≡ 0 * size
    none_left = omega arith
rdram_chunks-eq-load_bytes m size (suc n) base =
    ap (λ xs. load_bytes m base size ++ xs) (rdram_chunks-eq-load_bytes m size n (base + size))
    ∙ load_bytes-append m size base (n * size)
    ∙ ap (load_bytes m base) one_more
  where
    one_more : size + n * size ≡ suc n * size
    one_more = omega arith

-- With the memory there and the file open, the image is the 8 MiB of the memory, byte by byte as the
-- game sees them.
dump_full_rdram-eq-load_bytes :
    (m : Rdram) → dump_full_rdram (some m) true ≡ some (load_bytes m 0 0x800000)
unfolding dump_full_rdram
dump_full_rdram-eq-load_bytes m = ap some (rdram_chunks-eq-load_bytes m 0x10000 0x80 0)
