-- ===== src/Lane/Examples.antt =====
-- The lane, run: two requests for one place, and stops while the first is at the server.
use ai_lab.Common.{◌≡◌, refl, [], ◌∷◌}
use ai_lab.Lane.{Lane, new_lane, read_in_flight, stop_if_none_waits}

abbrev two_ask : Lane
two_ask = record (new_lane 1) {
  queue = record { free = 0; in_flight = 1; waiting = 1; requests = 1; failures = 0 };
  announced = 20 ∷ [];
  at_server = 10 ∷ [];
}

-- Asked to stop, it stays as it is.
stop_refused : read_in_flight two_ask ≡ two_ask
unfolding read_in_flight
stop_refused = refl

idle_stopped :
    stop_if_none_waits 0 (read_in_flight (new_lane 1))
    ≡ record (new_lane 1) { stops = (0, []) ∷ [] }
unfolding read_in_flight stop_if_none_waits
idle_stopped = refl
