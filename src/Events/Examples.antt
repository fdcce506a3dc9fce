-- ===== src/Events/Examples.antt =====
-- A subscriber that reads nothing while events come.
use ai_lab.Common.{ℕ, ◌≡◌, refl, List, [], ◌∷◌, nat_key}
use ai_lab.Common.Dict.{Dict}
use ai_lab.Events.{subscribe, unsubscribe}

abbrev bus : Dict ℕ (List ℕ)
bus = (1, []) ∷ (2, 5 ∷ 6 ∷ []) ∷ []

subscribe_then_leave : unsubscribe 1 (subscribe 3 bus) ≡ (2, 5 ∷ 6 ∷ []) ∷ (3, []) ∷ []
unfolding subscribe unsubscribe
subscribe_then_leave = refl
