-- ===== src/Extras/Backtraces/Origins.antt =====
-- Which entries of process_geo_layout are traced.
use mathlib.Core.Path.{subst}
use pokemon_stadium_recomp.Prelude.{
  ℕ, ◌+◌, ◌≡◌, refl, ap, Bool, true, false, ◌&&◌, ◌||◌, List, [], ◌∷◌, Option, none, some, ◌==◌,
  leb, if◌then◌else◌, Bool-cases, inl, inr,
}
use pokemon_stadium_recomp.Prelude.Text.{Bytes}
use pokemon_stadium_recomp.Threads.{Frame}
use pokemon_stadium_recomp.Extras.Probes.{
  Census, Counted, is_new, remember, census_of, in_pattern_bucket, probe, geo_entry_log,
}
use pokemon_stadium_recomp.Extras.Backtraces.{geo_entry_origin, geo_entry}

is_traced : Option Bytes → Bool
is_traced none = false
is_traced (some text) = true

has_census : List Census → Bool
has_census [] = false
has_census (c ∷ cs) = true

-- What one entry does, where both arrays hold the same.
record Agreed (segptr : ℕ) (out : Bool × List Census × Option Bytes × Counted × List ℕ)
    : Type 0 where
  arrays : out.3.probed ≡ out.4
  trace : is_traced out.2 ≡ (out.0 && ((segptr == 0) || has_census out.1))

-- `probe`, told by whether the literal is new.
abbrev probed_if : Bool → ℕ → List ℕ → List Census × List ℕ
probed_if new segptr keys =
    if new then (census_of segptr ∷ [], remember 32 segptr keys) else ([], keys)

-- A printed entry, told by whether its pointer is null and whether it is new.
printed-Agreed :
    (segptr n : ℕ) (keys : List ℕ) (text : Bytes) (null new : Bool)
    → null ≡ (segptr == 0)
    → Agreed segptr (
      true,
      (probed_if new segptr keys).0,
      (if null || new then some text else none),
      record { n = n; probed = (probed_if new segptr keys).1 },
      (if new then remember 32 segptr keys else keys),
    )
unfolding is_traced has_census
printed-Agreed segptr n keys text true true e = record {
  arrays = refl;
  trace = ap (λ b. b || true) e;
}
printed-Agreed segptr n keys text true false e = record {
  arrays = refl;
  trace = ap (λ b. b || false) e;
}
printed-Agreed segptr n keys text false true e = record {
  arrays = refl;
  trace = ap (λ b. b || true) e;
}
printed-Agreed segptr n keys text false false e = record {
  arrays = refl;
  trace = ap (λ b. b || false) e;
}

geo_entry-Agreed :
    (segptr pool n : ℕ) (frames : List Frame) (keys : List ℕ)
    → Agreed segptr (geo_entry segptr pool frames (record { n = n; probed = keys }, keys))
unfolding geo_entry geo_entry_log geo_entry_origin probe is_traced
geo_entry-Agreed segptr pool n frames keys = elim (Bool-cases (leb (n + 1) 32 || (segptr == 0))) [
  | inl e ↦
      rw (e, geo_entry)
        (printed-Agreed segptr (n + 1) keys _ (segptr == 0)
          (in_pattern_bucket segptr && is_new 32 segptr keys) refl)
  | inr e ↦ rw (e, geo_entry) (record { arrays = refl; trace = refl })
]

-- The calls of the hook, each with its pointer, its pool and its frames.
geo_entries : List (ℕ × ℕ × List Frame) → Counted × List ℕ → Counted × List ℕ
geo_entries [] s = s
geo_entries ((segptr, pool, frames) ∷ rest) s =
    geo_entries rest ((geo_entry segptr pool frames s).3, (geo_entry segptr pool frames s).4)

-- From the start of the process on, the array of the traced literals is that of the probed ones.
geo_entries-same :
    (calls : List (ℕ × ℕ × List Frame)) (s : Counted) (keys : List ℕ)
    → s.probed ≡ keys
    → (geo_entries calls (s, keys)).0.probed ≡ (geo_entries calls (s, keys)).1
unfolding geo_entries
geo_entries-same [] s keys e = e
geo_entries-same ((segptr, pool, frames) ∷ rest) s keys e = geo_entries-same rest _ _ (
    subst
      (λ ks.
        (geo_entry segptr pool frames (s, ks)).3.probed ≡ (geo_entry segptr pool frames (s, ks)).4)
      e (geo_entry-Agreed segptr pool s.n frames s.probed).arrays)

-- Behind any calls, an entry is traced exactly if it is printed and its pointer is null or gets a
-- census: each literal of the bucket is traced once, beside its census.
geo_entry-traced :
    (calls : List (ℕ × ℕ × List Frame)) (segptr pool : ℕ) (frames : List Frame)
    → let s = geo_entries calls (record { n = 0; probed = [] }, []) in
      is_traced (geo_entry segptr pool frames s).2 ≡ (
        (geo_entry segptr pool frames s).0
        && ((segptr == 0) || has_census (geo_entry segptr pool frames s).1))
geo_entry-traced calls segptr pool frames =
    let s = geo_entries calls (record { n = 0; probed = [] }, []) in
    subst
      (λ ks. is_traced (geo_entry segptr pool frames (s.0, ks)).2 ≡ (
        (geo_entry segptr pool frames (s.0, ks)).0
        && ((segptr == 0) || has_census (geo_entry segptr pool frames (s.0, ks)).1)))
      (geo_entries-same calls (record { n = 0; probed = [] }) [] refl)
      (geo_entry-Agreed segptr pool s.0.n frames s.0.probed).trace
