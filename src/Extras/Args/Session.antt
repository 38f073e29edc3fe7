-- ===== src/Extras/Args/Session.antt =====
-- A session of entry and exit hooks with one argument stack, against the calls that it follows.
use pokemon_stadium_recomp.Prelude.{ℕ, ◌≡◌, ◌≢◌, refl, List, [], ◌∷◌, ◌++◌, Option, none, some, ap}
use pokemon_stadium_recomp.Extras.Args.{Saved, empty, save, restore, report_saved}
use pokemon_stadium_recomp.Extras.Args.Nested.{
  Tracks, empty-Tracks, save-eq-saved, saved-Tracks, found, popped-Tracks, restore-eq-found,
}

pub data Event {ℓ ℓv} (A : Type ℓ) (V : Type ℓv) : Type (ℓ ⊔ ℓv) where
  entered : A → Event A V
  left : V → Event A V

-- Output in front of what may follow.
abbrev pub onto {ℓ} : {M : Type ℓ} → List M → Option (List M) → Option (List M)
onto out none = none
onto out (some rest) = some (out ++ rest)

module _ {ℓ ℓv ℓm} {A : Type ℓ} {V : Type ℓv} {M : Type ℓm} (cap : ℕ) (d : A)
    (report : A → V → List M) where
  -- The hooks in the order in which the game calls them.
  unfoldable pub session : List (Event A V) → Saved A → Option (List M)
  unfolding report_saved
  session [] s = some []
  session (entered x ∷ es) s = elim (save cap d x s) [ none ↦ none | some s' ↦ session es s' ]
  session (left v ∷ es) s =
      onto (report_saved cap d report v (restore cap d s).0) (session es (restore cap d s).1)

  -- The reference keeps every open call; `none` is an exit that no call is open for.
  unfoldable pub follow : List (Event A V) → List A → Option (List M)
  unfolding found report_saved
  follow [] calls = some []
  follow (entered x ∷ es) calls = follow es (x ∷ calls)
  follow (left v ∷ es) [] = none
  follow (left v ∷ es) (x ∷ calls) =
      onto (report_saved cap d report v (found cap d x calls)) (follow es calls)

  pub session-eq-follow_from :
      (es : List (Event A V)) {calls : List A} {s : Saved A}
      → Tracks cap d calls s
      → follow es calls ≢ none
      → session es s ≡ follow es calls
  unfolding session follow
  session-eq-follow_from [] v matched = refl
  session-eq-follow_from (entered x ∷ es) v matched =
      rw (session, save-eq-saved cap d x v)
        (session-eq-follow_from es (saved-Tracks cap d x v) matched)
  session-eq-follow_from (left r ∷ es) {calls = []} v matched = absurd (matched refl)
  session-eq-follow_from (left r ∷ es) {calls = x ∷ calls} v matched =
      rw (session, restore-eq-found cap d x v)
        (ap (onto _)
          (session-eq-follow_from es (popped-Tracks cap d x v) (λ e. matched (rw e refl))))

  -- When every exit belongs to a call, the hooks do what they would do with an unbounded stack: an
  -- exit reports on the arguments of its own call when fewer than `cap` calls are open around that
  -- call, and else not at all.
  pub session-eq-follow :
      (es : List (Event A V)) → follow es [] ≢ none → session es (empty cap d) ≡ follow es []
  session-eq-follow es = session-eq-follow_from es (empty-Tracks cap d)
