-- ===== src/Placement/FirstCome.antt =====
-- That the card's own models come first.
use ai_lab.Common.{
  if_cases, ℕ, ◌+◌, ◌≤◌, ◌<◌, ◌≡◌, ◌⊎◌, Bool, true, false, Option, none, some, arith,
}
use ai_lab.Placement.{
  in_turn, card, cpu, stopped, Server, Model, Placement, hold_limit, stop_server_if_idle, is_held,
  to_card, else_cpu, take, give_back, hold, stop_card, stop, stop_if_idle, Step, takes, turns,
  starts, gives_back, holds, stops_card, stops, idles, During, here, next,
}

abbrev pub is_up : Option Server → Bool
is_up none = false
is_up (some s) = s.running

-- The model is off the card and stays off until then: its server there does not run, no request is
-- answered there, and the card is held.
abbrev pub IsAway : ℕ → Placement → Type 0
IsAway until p =
    (is_up p.card_server ≡ false)
    × (p.on_card ≡ 0)
    × ((p.card_server ≡ none) ⊎ (until ≤ p.held_until))

module _ (model : Model) (until now : ℕ) where
  refuses :
      (free : Option ℕ) (up with_request : Bool) (p : Placement)
      → now < until
      → IsAway until p
      → to_card model now free up with_request p ≡ (false, p)
  unfolding to_card is_held
  refuses free up with_request p early (down, none_there, why) = ground arith

  to_card-IsAway :
      (free : Option ℕ) (up with_request : Bool) (p : Placement)
      → now < until
      → IsAway until p
      → IsAway until (to_card model now free up with_request p).1
  to_card-IsAway free up with_request p early away =
      rw (refuses free up with_request p early away) away

  turn-IsAway :
      (s : Server) (free : Option ℕ) (up with_request : Bool) (p : Placement)
      → now < until
      → p.card_server ≡ some s
      → IsAway until p
      → IsAway until (in_turn model now free up with_request s p).1
  unfolding in_turn is_held
  turn-IsAway s free up with_request p early e away =
      if_cases (λ (r : Bool × Placement). IsAway until r.1) (is_held now p) (λ _. away)
        (λ free_card. absurd (ground arith))

  take-IsAway :
      (free : Option ℕ) (up cpu_up : Bool) (p : Placement)
      → now < until
      → IsAway until p
      → IsAway until (take model now free up cpu_up p).1
  unfolding take
  take-IsAway free up cpu_up p early away =
      by_place (to_card model now free up true (record p { last_used = now }))
        (to_card-IsAway free up true (record p { last_used = now }) early away)
    where
      by_place :
          (r : Bool × Placement) → IsAway until r.1 → IsAway until (else_cpu model now cpu_up r).1
      by_place (true, p) h = h
      by_place (false, p) h = h

  Step-IsAway :
      {p q : Placement}
      → now < until
      → until ≤ now + hold_limit
      → Step model now p q
      → IsAway until p
      → IsAway until q
  unfolding give_back hold stop_card stop stop_if_idle stop_server_if_idle
  Step-IsAway {p} early soon (takes free up cpu_up) away = take-IsAway free up cpu_up p early away
  Step-IsAway {p} early soon (turns s free up with_request e) away =
      turn-IsAway s free up with_request p early e away
  Step-IsAway {p} early soon (starts free up) away = to_card-IsAway free up false p early away
  Step-IsAway {p} early soon (gives_back card) (down, none_there, why) =
      (ground arith, ground arith, ground arith)
  Step-IsAway {p} early soon (gives_back cpu) away = away
  Step-IsAway {p} early soon (gives_back stopped) away = away
  Step-IsAway {p} early soon holds (down, none_there, why) =
      (ground arith, ground arith, ground arith)
  Step-IsAway {p} early soon stops_card (down, none_there, why) =
      (ground arith, ground arith, ground arith)
  Step-IsAway {p} early soon stops (down, none_there, why) =
      (ground arith, ground arith, ground arith)
  Step-IsAway {p} early soon (idles busy) (down, none_there, why) =
      (ground arith, ground arith, ground arith)

stays-IsAway :
    (model : Model) (since : ℕ) (p q : Placement)
    → During model since (since + hold_limit) p q
    → IsAway (since + hold_limit) p
    → IsAway (since + hold_limit) q
stays-IsAway model since p q here away = away
stays-IsAway model since p q (next {q = m} now after before way step) away =
    Step-IsAway model (since + hold_limit) now before (omega arith) step
      (stays-IsAway model since p m way away)

-- When a card model's load begins at `since` and the requests on the card have finished, this model
-- leaves the card and stays off it until that load is over or its time has passed: whatever
-- requests come, starts and stops by hand and idle checks there are, its server there does not run
-- and no request is answered there.
pub During-IsAway :
    (model : Model) (since : ℕ) (p q : Placement)
    → p.on_card ≡ 0
    → During model since (since + hold_limit) (stop_card model (hold model since p)) q
    → IsAway (since + hold_limit) q
unfolding hold stop_card
During-IsAway model since p q free way =
    stays-IsAway model since (stop_card model (hold model since p)) q way
      (ground arith, ground arith, ground arith)
