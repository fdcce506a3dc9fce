-- ===== src/Admission/Progress.antt =====
-- Planning never stops early, and the loop of `_pump` ends.
use ai_lab.Common.{ℕ, ◌≡◌, none, some, List, [], ◌∷◌, nat_key}
use ai_lab.Admission.Parts.{Waiting, Clients, QueueState, Rules}
use ai_lab.Admission.Planning.{Round, plan}
use ai_lab.Admission.Rounds.{
  Blocked, Outcome, blocked, left, admitted, refused, run_left, started, Result, After,
}
use ai_lab.Admission.Loop.{plan_rule}

module _ (rules : Rules) where
  -- Nobody waits, or the head has a reason to.
  pub data Settled (s : QueueState) : Type 0 where
    nobody : s.queue ≡ [] → Settled s
    waits :
        (head : Waiting) (rest : List Waiting)
        → s.queue ≡ head ∷ rest
        → Blocked rules s head
        → Settled s

module _ (rules : Rules) (asks : Clients) (now : ℕ) where
  abbrev Ended : Result → Type 0
  Ended (s, ready, none) = Settled rules s
  Ended (s, ready, some job) = Unit {0}

  each_round :
      (s : QueueState) (ready : List Waiting) (head : Waiting) (rest : List Waiting) (r : Round)
      → Unit {0}
      → s.queue ≡ head ∷ rest
      → Outcome rules asks now s head rest ready r
      → After (λ _ _. Unit {0}) Ended s ready r
  each_round s ready head rest r _ e (blocked why) = waits head rest e why
  each_round s ready head rest r _ e (left _) = tt
  each_round s ready head rest r _ e (admitted _ _ _ _) = tt
  each_round s ready head rest r _ e (refused _ _ _) = tt
  each_round s ready head rest r _ e (run_left _ _) = tt
  each_round s ready head rest r _ e (started _ _ _ _ _ _ _ _) = tt

  plan-Ended : (s : QueueState) → Ended (plan rules asks now s)
  plan-Ended s =
      plan_rule rules asks now (λ _ _. Unit {0}) Ended (λ s' ready _ e. nobody e) each_round s tt

-- If planning starts no load, then the queue it leaves is empty, or its head has to wait: a load
-- runs, the head's model has every place taken, or one of those that must make room for it is
-- still answering. Nothing else holds the queue up.
pub plan-Settled :
    (rules : Rules) (asks : Clients) (now : ℕ) (s : QueueState)
    → (plan rules asks now s).2 ≡ none
    → Settled rules (plan rules asks now s).0
plan-Settled rules asks now s e = settled (plan rules asks now s) (plan-Ended rules asks now s) e
  where
    settled : (r : Result) → Ended rules asks now r → r.2 ≡ none → Settled rules r.0
    settled (s', ready, none) h e = h
    settled (s', ready, some job) h e = absurd (cc)
