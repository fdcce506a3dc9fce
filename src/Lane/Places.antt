-- ===== src/Lane/Places.antt =====
-- The counters of the queue say what its requests do, and what a stop meets.
use ai_lab.Common.{ℕ, ◌+◌, ◌≤◌, ◌<◌, ◌≡◌, refl, Option, none, some, List, [], ◌∷◌, length, All}
use ai_lab.Lane.{
  Lane, read_in_flight, stop_if_none_waits, announces, gets_place, begins, looks, decides, Reach,
  starts, steps,
}

-- Waiting are those announced or placed, in flight those at the server or failed there, and the
-- places taken are theirs and those of the placed and the leaving.
abbrev pub IsCounted : ℕ → Lane → Type 0
IsCounted parallel l =
    (l.queue.waiting ≡ length l.announced + length l.placed)
    × (l.queue.in_flight ≡ length l.at_server + length l.failed)
    × (l.queue.free + (length l.placed + (l.queue.in_flight + length l.leaving)) ≡ parallel)
    × (l.queue.failures + length l.at_server ≤ l.queue.requests)

-- While a stop looks, no more requests wait or are in flight than waited at its first reading.
abbrev pub IsShut : Lane → Option ℕ → Type 0
IsShut l none = Unit {0}
IsShut l (some waited) = l.queue.waiting + l.queue.in_flight ≤ waited

abbrev pub AtMostWaited : List (ℕ × List ℕ) → Type 0
AtMostWaited = All (λ (stop : ℕ × List ℕ). length stop.1 ≤ stop.0)

abbrev pub IsSafe : ℕ → Lane → Type 0
IsSafe parallel l = IsCounted parallel l × IsShut l l.looking × AtMostWaited l.stops

-- The reading of the two counters is not one step: if a model has a place at all, a stop may come
-- while a request is at its server, one that waited when the stop read that none was in flight.
pub stop-meets :
    (parallel a : ℕ)
    → 0 < parallel
    → (l : Lane) × Reach parallel l × (l.at_server ≡ a ∷ []) × (l.stops ≡ (1, a ∷ []) ∷ [])
unfolding read_in_flight stop_if_none_waits
stop-meets parallel a some_place = (
  _,
  steps
      (steps
        (steps (steps (steps starts (announces a refl)) (looks refl))
          (gets_place [] a [] refl some_place))
        (begins [] a [] refl))
      (decides 1 refl),
  refl,
  refl,
)
