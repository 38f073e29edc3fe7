-- ===== src/Extras/Memmap/Answers.antt =====
-- What `Memmap_GetFragmentVaddr` answers behind its hooks, also when calls of it are nested.
use pokemon_stadium_recomp.Prelude.{
  ℕ, ◌≡◌, ◌≢◌, refl, arith, List, [], ◌∷◌, Option, none, some, ltb, leb, ◌==◌, if◌then◌else◌, ◌||◌,
  ◌&&◌, not, ◌%◌, ◌/◌, ◌*◌, ◌^◌, ◌<◌, ap, false, Bool-cases, inl, inr, ==_iff, ◌∙◌,
}
use pokemon_stadium_recomp.Prelude.Bits.{bit_and_mask, bit_and_fields}
use pokemon_stadium_recomp.Extras.Args.Nested.{
  Tracks, empty-Tracks, saved, save-eq-saved, saved-Tracks, outermost, found_or_outermost,
  popped-Tracks, restore_or_first-eq-found,
}
use pokemon_stadium_recomp.Extras.Memmap.{
  Resolvers, Memmap, initial, memmap_get_enter, memmap_get_exit, fragment_answer,
  resolve_in_context, bucket_of,
}

-- The value alone, as the comment in the source describes the strategy.
unfoldable pub resolved_value : Resolvers → ℕ → ℕ → ℕ → ℕ
resolved_value r input game_result data_ctx =
    if not (r.resolve_synthetic_fragment input == 0)
    then r.resolve_synthetic_fragment input
    else if (bucket_of input == 0x8FF00000) && not (r.addr_in_loaded_variant 0x8FF00000 game_result)
    then (if r.resolve_via_data_context input data_ctx == 0
        then game_result
        else r.resolve_via_data_context input data_ctx)
    else game_result

bucket_of-eq-upper : (input : ℕ) → bucket_of input ≡ input / 2 ^ 20 % 2 ^ 12 * 2 ^ 20
bucket_of-eq-upper input = rw (bit_and_fields 20 input 0xFFF, bit_and_mask 12 (input / 2 ^ 20)) refl

-- The range test of the source holds in the whole bucket.
bucket_of-range :
    (input : ℕ)
    → input < 2 ^ 32
    → bucket_of input ≡ 0x8FF00000
    → (ltb input 0x81000000 || leb 0x90000000 input) ≡ false
bucket_of-range input word e = ground (arith, bucket_of-eq-upper input)

-- For a 32-bit input the answer is the synthetic fragment's address if the input is in the
-- synthetic pool; else, for an input of the bucket 0x8FF00000 that the game resolved to no loaded
-- variant, the address by the walker's data context if there is one; and else the game's own.
pub fragment_answer-eq-resolved_value :
    (r : Resolvers) (input game_result data_ctx : ℕ) (m : Memmap)
    → input < 2 ^ 32
    → (fragment_answer r input game_result data_ctx m).value
      ≡ resolved_value r input game_result data_ctx
unfolding fragment_answer resolved_value resolve_in_context
fragment_answer-eq-resolved_value r input game_result data_ctx m word =
    elim (Bool-cases (r.resolve_synthetic_fragment input == 0)) [
      | inr synthetic ↦ rw synthetic refl
      | inl none_there ↦ elim (Bool-cases (bucket_of input == 0x8FF00000)) [
        | inr outside ↦ rw (none_there, outside) refl
        | inl inside ↦
            let e : bucket_of input ≡ 0x8FF00000 = (==_iff (bucket_of input) 0x8FF00000).0 inside in
            elim (Bool-cases (r.addr_in_loaded_variant 0x8FF00000 game_result)) [
              | inl loaded ↦ rw (none_there, inside, bucket_of-range input word e, e, loaded) refl
              | inr missing ↦ rw (none_there, inside, bucket_of-range input word e, e, missing) refl
            ]
      ]
    ]

pub data Event : Type 0 where
  asked : ℕ → Event
  answered : ℕ → ℕ → Event

abbrev pub onto : ℕ → Option (List ℕ) → Option (List ℕ)
onto x none = none
onto x (some xs) = some (x ∷ xs)

module _ (r : Resolvers) where
  -- The values that the exit hooks return, in order.
  unfoldable pub session : List Event → Memmap → Option (List ℕ)
  session [] m = some []
  session (asked input ∷ es) m = elim (memmap_get_enter input m) [
    | none ↦ none
    | some m' ↦ session es m'
  ]
  session (answered game_result data_ctx ∷ es) m =
      onto (memmap_get_exit r game_result data_ctx m).value
        (session es (memmap_get_exit r game_result data_ctx m).after)

  -- The reference keeps every open call.
  unfoldable pub follow : List Event → List ℕ → Option (List ℕ)
  follow [] calls = some []
  follow (asked input ∷ es) calls = follow es (input ∷ calls)
  follow (answered game_result data_ctx ∷ es) [] = none
  follow (answered game_result data_ctx ∷ es) (x ∷ calls) =
      onto (resolved_value r (found_or_outermost 16 0 x calls) game_result data_ctx)
        (follow es calls)

-- Every input is a 32-bit word.
abbrev pub AllWords : List Event → Type 0
AllWords [] = Unit
AllWords (asked input ∷ es) = (input < 2 ^ 32) × AllWords es
AllWords (answered game_result data_ctx ∷ es) = AllWords es

abbrev Words : List ℕ → Type 0
Words [] = Unit
Words (x ∷ xs) = (x < 2 ^ 32) × Words xs

outermost-lt : (x : ℕ) (calls : List ℕ) → Words (x ∷ calls) → outermost 16 0 x calls < 2 ^ 32
unfolding outermost
outermost-lt x [] w = w.0
outermost-lt x (b ∷ calls) w = outermost-lt b calls w.1

found-lt : (x : ℕ) (calls : List ℕ) → Words (x ∷ calls) → found_or_outermost 16 0 x calls < 2 ^ 32
unfolding found_or_outermost
found-lt x calls w = ground (arith, w.0, outermost-lt x calls w)

fragment_answer-inputs :
    (r : Resolvers) (input game_result data_ctx : ℕ) (m : Memmap)
    → (fragment_answer r input game_result data_ctx m).after.inputs ≡ m.inputs
unfolding fragment_answer resolve_in_context
fragment_answer-inputs r input game_result data_ctx m = ground arith

memmap_get_enter-eq-saved :
    {calls : List ℕ} (m : Memmap) (input : ℕ)
    → Tracks 16 0 calls m.inputs
    → memmap_get_enter input m ≡ some (record m { inputs = saved 16 0 input calls m.inputs })
unfolding memmap_get_enter
memmap_get_enter-eq-saved m input v = rw (memmap_get_enter, save-eq-saved 16 0 input v) refl

module _ (r : Resolvers) where
  exit-value :
      {calls : List ℕ} (m : Memmap) (x game_result data_ctx : ℕ)
      → Tracks 16 0 (x ∷ calls) m.inputs
      → Words (x ∷ calls)
      → (memmap_get_exit r game_result data_ctx m).value
        ≡ resolved_value r (found_or_outermost 16 0 x calls) game_result data_ctx
  unfolding memmap_get_exit
  exit-value {calls} m x game_result data_ctx v w =
      ap (λ p. (fragment_answer r p.0 game_result data_ctx (record m { inputs = p.1 })).value)
        (restore_or_first-eq-found 16 0 x (omega arith) v)
      ∙ fragment_answer-eq-resolved_value r _ game_result data_ctx _ (found-lt x calls w)

  exit-Tracks :
      {calls : List ℕ} (m : Memmap) (x game_result data_ctx : ℕ)
      → Tracks 16 0 (x ∷ calls) m.inputs
      → Tracks 16 0 calls (memmap_get_exit r game_result data_ctx m).after.inputs
  unfolding memmap_get_exit
  exit-Tracks m x game_result data_ctx v =
      rw
        (
          fragment_answer-inputs r _ game_result data_ctx _,
          ap (λ p. p.1) (restore_or_first-eq-found 16 0 x (omega arith) v),
        )
        (popped-Tracks 16 0 x v)

  session-eq-follow_from :
      (es : List Event) {calls : List ℕ} (m : Memmap)
      → Tracks 16 0 calls m.inputs
      → Words calls
      → AllWords es
      → follow r es calls ≢ none
      → session r es m ≡ follow r es calls
  unfolding session follow
  session-eq-follow_from [] m v c w matched = refl
  session-eq-follow_from (asked input ∷ es) m v c w matched =
      rw (session, memmap_get_enter-eq-saved m input v)
        (session-eq-follow_from es _ (saved-Tracks 16 0 input v) (w.0, c) w.1 matched)
  session-eq-follow_from (answered g x ∷ es) {calls = []} m v c w matched = absurd (matched refl)
  session-eq-follow_from (answered g x ∷ es) {calls = a ∷ calls} m v c w matched =
      rw (session, exit-value m a g x v c)
        (ap (onto _)
          (session-eq-follow_from es _ (exit-Tracks m a g x v) c.1 w (λ e. matched (rw e refl))))

  -- For 32-bit inputs, and when every exit belongs to a call, the exit hooks return for each call
  -- what the resolution order gives for that call's own input, when fewer than 16 calls are open
  -- around it, and else for the input of the outermost open call.
  pub memmap_session-eq-follow :
      (es : List Event)
      → AllWords es
      → follow r es [] ≢ none
      → session r es initial ≡ follow r es []
  unfolding initial
  memmap_session-eq-follow es w = session-eq-follow_from es _ (empty-Tracks 16 0) tt w
