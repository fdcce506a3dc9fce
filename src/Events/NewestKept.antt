-- ===== src/Events/NewestKept.antt =====
-- What a subscriber that does not read still finds in its queue.
use ai_lab.Common.{
  ℕ, ◌+◌, ◌-◌, ◌≤◌, ◌<◌, ◌≡◌, sym, ap, ◌∙◌, ◌&&◌, some, List, [], ◌∷◌, ◌++◌, if_cases, ltb, leb,
  length, nat_key, arith, length-append, append_assoc, append-nil, true, false,
}
use ai_lab.Common.Dict.{Dict, get}
use ai_lab.Common.Newest.{newest, newest_all, newest-newest, length-newest, drop_by}
use ai_lab.Events.{offer, publish, publish_all}

module _ {ℓ} {A : Type ℓ} where
  offer-newest :
      (size : ℕ) (event : A) (queue : List A)
      → 0 < size
      → length queue ≤ size
      → offer size event queue ≡ newest size (queue ++ event ∷ [])
  offer-newest size event [] pos fits =
      if_cases (λ q. q ≡ newest size (event ∷ [])) (ltb 0 size && leb size 0)
        (λ full. absurd (ground arith)) (λ _. sym (newest_all size (event ∷ []) (omega arith)))
  offer-newest size event (x ∷ queue) pos fits =
      if_cases (λ q. q ≡ newest size (x ∷ queue ++ event ∷ []))
        (ltb 0 size && leb size (length (x ∷ queue)))
        (λ full.
          drop_by 1 (length (x ∷ queue ++ event ∷ []) - size) (x ∷ queue ++ event ∷ []) (one full))
        (λ room. sym (newest_all size (x ∷ queue ++ event ∷ []) (less room)))
    where
      grown : length (queue ++ event ∷ []) ≡ length queue + 1
      grown = length-append queue (event ∷ [])

      one :
          (ltb 0 size && leb size (length (x ∷ queue))) ≡ true
          → 1 ≡ length (x ∷ queue ++ event ∷ []) - size
      one full = ground (arith, grown)

      less :
          (ltb 0 size && leb size (length (x ∷ queue))) ≡ false
          → length (x ∷ queue ++ event ∷ []) ≤ size
      less room = ground (arith, grown)

  publish-get :
      (size : ℕ) (event : A) (bus : Dict ℕ (List A)) (id : ℕ) (queue : List A)
      → get id bus ≡ some queue
      → get id (publish size event bus) ≡ some (offer size event queue)
  unfolding get publish
  publish-get size event [] id queue h = absurd (cc)
  publish-get size event ((i, q) ∷ bus) id queue h =
      ground (arith, publish-get size event bus id queue)

  -- Publishing never waits for a subscriber: one that does not read finds the newest of what it had
  -- and all that came since, oldest first, as many as its queue holds.
  pub publish_all-newest :
      (size : ℕ) (events : List A) (bus : Dict ℕ (List A)) (id : ℕ) (queue : List A)
      → 0 < size
      → length queue ≤ size
      → get id bus ≡ some queue
      → get id (publish_all size events bus) ≡ some (newest size (queue ++ events))
  unfolding publish_all
  publish_all-newest size [] bus id queue pos fits h =
      h ∙ ap some (sym (ap (newest size) (append-nil queue) ∙ newest_all size queue fits))
  publish_all-newest size (event ∷ events) bus id queue pos fits h =
      publish_all-newest size events (publish size event bus) id (newest size (queue ++ event ∷ []))
        pos (length-newest size (queue ++ event ∷ []))
        (publish-get size event bus id queue h ∙ ap some (offer-newest size event queue pos fits))
      ∙ ap some (
          newest-newest size (queue ++ event ∷ []) events
          ∙ ap (newest size) (append_assoc queue (event ∷ []) events))
