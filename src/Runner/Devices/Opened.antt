-- ===== src/Runner/Devices/Opened.antt =====
-- Which pad is open behind a sequence of polls and queries.
use pokemon_stadium_recomp.Prelude.{
  ℕ, ◌≡◌, refl, List, [], ◌∷◌, Option, none, some, Option-cases, inl, inr,
}
use pokemon_stadium_recomp.Runner.Devices.{Joystick, open_first, poll_inputs}

pub poll_all : List (List Joystick) → Option ℕ → Option ℕ
poll_all [] pad = pad
poll_all (js ∷ rest) pad = poll_all rest (poll_inputs js pad)

-- The first pad that any poll finds.
first_found : List (List Joystick) → Option ℕ
first_found [] = none
first_found (js ∷ rest) = elim (open_first 0 js) [ none ↦ first_found rest | some pad ↦ some pad ]

kept : (polls : List (List Joystick)) (pad : ℕ) → poll_all polls (some pad) ≡ some pad
unfolding poll_all poll_inputs
kept [] pad = refl
kept (js ∷ rest) pad = kept rest pad

-- The pad is the first that a poll finds, and later ones never replace it.
poll_all-eq-first_found : (polls : List (List Joystick)) → poll_all polls none ≡ first_found polls
unfolding poll_all poll_inputs first_found
poll_all-eq-first_found [] = refl
poll_all-eq-first_found (js ∷ rest) = elim (Option-cases (open_first 0 js)) [
  | inl e ↦ rw (e, first_found) (poll_all-eq-first_found rest)
  | inr (pad, e) ↦ rw (e, first_found) (kept rest pad)
]
