-- ===== src/Quiet/Released.antt =====
-- That the waits end, and what holds when they end well.
use ai_lab.Common.{
  ℕ, zero, suc, ◌+◌, ◌≤◌, ◌<◌, ◌≡◌, refl, sym, ◌⊎◌, inl, inr, true, Option, some, List, [], ◌∷◌,
  if_cases, ltb, leb, arith,
}
use ai_lab.Clients.Text.{Text}
use ai_lab.Quiet.{
  Look, Quiet, quiet, did_not_exit, still_holds, still_up, some_left, release_loop,
  wait_for_release, gone_or, exit_loop, enough, wait_until_quiet,
}

module _ (quiet_mb deadline : ℕ) (looks : ℕ → Look) where
  -- The card was read as quiet in this round or a later one.
  abbrev pub ReadQuiet : ℕ → Type 0
  ReadQuiet n = (m : ℕ) × (n ≤ m) × ((looks m).used_mb ≤ quiet_mb)

  abbrev pub Freed : ℕ → Quiet → Type 0
  Freed n quiet = ReadQuiet n
  Freed n (did_not_exit names) = Unit
  Freed n (still_holds used) = Unit

  -- All that was stopped was seen gone in a round, and then something else was left on the card
  -- or the card was read as quiet.
  abbrev pub Released : List Text → ℕ → Quiet → Type 0
  Released stopped n quiet =
      (m : ℕ) × (n ≤ m)
      × (still_up stopped (looks m).running ≡ [])
      × ((some_left (looks m).running ≡ true) ⊎ ReadQuiet m)
  Released stopped n (did_not_exit names) = Unit
  Released stopped n (still_holds used) = Unit

  abbrev Comes : (Quiet → Type 0) → Option Quiet → Type 0
  Comes P r = (q : Quiet) × (r ≡ some q) × P q

  release_loop-Freed :
      (fuel n : ℕ)
      → ((k : ℕ) → k ≤ (looks k).clock)
      → 0 < fuel
      → deadline + 1 < fuel + n
      → Comes (Freed n) (release_loop quiet_mb deadline looks fuel n)
  unfolding release_loop
  release_loop-Freed zero n ticks pos h = absurd (omega arith)
  release_loop-Freed (suc fuel) n ticks pos h =
      if_cases (Comes (Freed n)) (leb (looks n).used_mb quiet_mb)
        (λ low. (quiet, refl, (n, omega arith, ground arith)))
        (λ _.
          if_cases (Comes (Freed n)) (ltb deadline (looks n).clock)
            (λ _. (still_holds (looks n).used_mb, refl, tt))
            (λ early.
              later
                (release_loop-Freed fuel (n + 1) ticks (ground (arith, ticks n)) (omega arith))))
    where
      later :
          Comes (Freed (n + 1)) (release_loop quiet_mb deadline looks fuel (n + 1))
          → Comes (Freed n) (release_loop quiet_mb deadline looks fuel (n + 1))
      later (quiet, e, (m, after, low)) = (quiet, e, (m, omega arith, low))
      later (did_not_exit names, e, t) = (did_not_exit names, e, tt)
      later (still_holds used, e, t) = (still_holds used, e, tt)

  exit_loop-Released :
      (fuel : ℕ) (stopped : List Text) (n : ℕ)
      → ((k : ℕ) → k ≤ (looks k).clock)
      → 0 < fuel
      → deadline + 1 < fuel + n
      → Comes (Released stopped n) (exit_loop quiet_mb deadline looks fuel stopped n)
  unfolding exit_loop wait_for_release
  exit_loop-Released zero stopped n ticks pos h = absurd (omega arith)
  exit_loop-Released (suc fuel) stopped n ticks pos h =
      by_up (λ p. exit_loop-Released fuel stopped (n + 1) ticks p (omega arith))
        (still_up stopped (looks n).running) refl
    where
      later :
          Comes (Released stopped (n + 1)) (exit_loop quiet_mb deadline looks fuel stopped (n + 1))
          → Comes (Released stopped n) (exit_loop quiet_mb deadline looks fuel stopped (n + 1))
      later (quiet, e, (m, after, gone, low)) = (quiet, e, (m, omega arith, gone, low))
      later (did_not_exit names, e, t) = (did_not_exit names, e, tt)
      later (still_holds used, e, t) = (still_holds used, e, tt)

      freed :
          still_up stopped (looks n).running ≡ []
          → Comes (Freed n) (release_loop quiet_mb deadline looks (suc fuel) n)
          → Comes (Released stopped n) (release_loop quiet_mb deadline looks (suc fuel) n)
      freed gone (quiet, e, low) = (quiet, e, (n, omega arith, gone, inr low))
      freed gone (did_not_exit names, e, t) = (did_not_exit names, e, tt)
      freed gone (still_holds used, e, t) = (still_holds used, e, tt)

      by_up :
          (0 < fuel
            → Comes
                (Released stopped (n + 1))
                (exit_loop quiet_mb deadline looks fuel stopped (n + 1)))
          → (up : List Text) → up ≡ still_up stopped (looks n).running
          → Comes (Released stopped n) (
              gone_or quiet_mb deadline looks
                (suc fuel)
                n
                up
                (exit_loop quiet_mb deadline looks fuel stopped (n + 1)))
      by_up again [] e =
          if_cases (Comes (Released stopped n)) (some_left (looks n).running)
            (λ left. (quiet, refl, (n, omega arith, sym e, inl left)))
            (λ _. freed (sym e) (release_loop-Freed (suc fuel) n ticks (omega arith) h))
      by_up again (name ∷ names) e =
          if_cases (Comes (Released stopped n)) (ltb deadline (looks n).clock)
            (λ _. (did_not_exit (name ∷ names), refl, tt))
            (λ early. later (again (ground (arith, ticks n))))

-- On a card of its own the wait for what was stopped ends, when the clock gains at least one in each
-- round: it is refused, or all that was stopped was seen gone, and then something else was left
-- running or the card was read as quiet.
pub wait_until_quiet-Released :
    (quiet_mb deadline : ℕ) (name : Text) (names : List Text) (looks : ℕ → Look)
    → ((k : ℕ) → k ≤ (looks k).clock)
    → (q : Quiet) × (wait_until_quiet quiet_mb deadline true (name ∷ names) looks ≡ some q)
      × Released quiet_mb deadline looks (name ∷ names) 0 q
unfolding wait_until_quiet
wait_until_quiet-Released quiet_mb deadline name names looks ticks =
    exit_loop-Released quiet_mb deadline looks (enough deadline) (name ∷ names) 0 ticks
      (omega arith) (omega arith)
