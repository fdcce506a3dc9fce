-- ===== src/Events.antt =====
-- ai_lab/events.py: `EventBus` and the queues of its subscribers. A subscription is a number. One
-- `publish` is one step; `Queue(maxsize=0)` has no bound.
pub mod NewestKept
mod Examples
use ai_lab.Common.{
  ℕ, ◌+◌, Bool, true, false, not, ◌&&◌, Option, none, some, List, [], ◌∷◌, ◌++◌, if◌then◌else◌, ltb,
  leb, eqb, length, drop, nat_key, keep, map,
}
use ai_lab.Common.Dict.{Dict, get, put}

module _ {ℓ} {A : Type ℓ} where
  -- `put_nowait`; on Full the oldest is taken out first.
  abbrev pub offer : ℕ → A → List A → List A
  offer size event queue =
      if ltb 0 size && leb size (length queue)
      then drop 1 queue ++ event ∷ []
      else queue ++ event ∷ []

  unfoldable pub subscribe : ℕ → Dict ℕ (List A) → Dict ℕ (List A)
  subscribe subscription bus = bus ++ (subscription, []) ∷ []

  unfoldable pub unsubscribe : ℕ → Dict ℕ (List A) → Dict ℕ (List A)
  unsubscribe subscription bus = keep (λ (item : ℕ × List A). not (eqb item.0 subscription)) bus

  unfoldable pub publish : ℕ → A → Dict ℕ (List A) → Dict ℕ (List A)
  publish size event [] = []
  publish size event ((subscription, queue) ∷ rest) =
      (subscription, offer size event queue) ∷ publish size event rest

  -- A publisher that goes on and on, with no subscriber reading.
  unfoldable pub publish_all : ℕ → List A → Dict ℕ (List A) → Dict ℕ (List A)
  unfolding publish
  publish_all size [] bus = bus
  publish_all size (event ∷ events) bus = publish_all size events (publish size event bus)
