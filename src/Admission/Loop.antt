-- ===== src/Admission/Loop.antt =====
-- The loop of `Planner.plan`: every round that goes on shortens the queue, so a claim about each
-- round gives one about the loop, whose rounds never run out.
use ai_lab.Common.{ℕ, zero, suc, ◌≤◌, ◌<◌, ◌≡◌, refl, none, some, List, [], ◌∷◌, arith, length}
use ai_lab.Admission.Parts.{Waiting, Clients, QueueState, Rules, fail, drop_gone}
use ai_lab.Admission.Planning.{take_place, Round, stop, again, start, round, plan_loop, plan}
use ai_lab.Admission.Runs.{take_run-queue, head-run_of}
use ai_lab.Admission.Rounds.{
  Outcome, blocked, left, admitted, refused, run_left, started, round-Outcome, Result, After,
}

module _ (rules : Rules) (asks : Clients) (now : ℕ) where
  abbrev pub Shorter : List Waiting → Round → Type 0
  Shorter es stop = Unit {0}
  Shorter es (again s ready) = length s.queue < length es
  Shorter es (start s switch) = Unit {0}

  pub Outcome-Shorter :
      (s : QueueState) (head : Waiting) (rest ready : List Waiting) {r : Round}
      → Outcome rules asks now s head rest ready r
      → Shorter (head ∷ rest) r
  unfolding drop_gone fail take_place
  Outcome-Shorter s head rest ready (blocked _) = tt
  Outcome-Shorter s head rest ready (left _) = omega arith
  Outcome-Shorter s head rest ready (admitted _ _ _ _) = omega arith
  Outcome-Shorter s head rest ready (refused _ _ _) = omega arith
  Outcome-Shorter s head rest ready (run_left _ _) =
      rw (take_run-queue asks head.shape (head ∷ rest) s) (head-run_of head rest)
  Outcome-Shorter s head rest ready (started _ _ _ _ _ _ _ _) = tt

  module _ {ℓ} (P : QueueState → List Waiting → Type ℓ) (Q : Result → Type ℓ)
      (ends : (s : QueueState) (ready : List Waiting)
        → P s ready
        → s.queue ≡ []
        → Q (s, ready, none))
      (each : (s : QueueState) (ready : List Waiting) (head : Waiting) (rest : List Waiting)
          (r : Round)
        → P s ready
        → s.queue ≡ head ∷ rest
        → Outcome rules asks now s head rest ready r
        → After P Q s ready r) where
    step_rule :
        (fuel : ℕ) (s : QueueState) (ready es : List Waiting) (r : Round)
        → ((s' : QueueState) (ready' : List Waiting)
            → length s'.queue < fuel
            → P s' ready'
            → Q (plan_loop rules asks now fuel s' ready'))
        → length es ≤ fuel
        → Shorter es r
        → After P Q s ready r
        → Q (elim r [
          | stop ↦ (s, ready, none)
          | again s' ready' ↦ plan_loop rules asks now fuel s' ready'
          | start s' switch ↦ (s', ready, some switch)
        ])
    step_rule fuel s ready es stop ih enough shorter q = q
    step_rule fuel s ready es (again s' ready') ih enough shorter p = ih s' ready' (omega arith) p
    step_rule fuel s ready es (start s' switch) ih enough shorter q = q

    queue_rule :
        (fuel : ℕ) (s : QueueState) (ready es : List Waiting)
        → s.queue ≡ es
        → ((s' : QueueState) (ready' : List Waiting)
            → length s'.queue < fuel
            → P s' ready'
            → Q (plan_loop rules asks now fuel s' ready'))
        → length es ≤ fuel
        → P s ready
        → Q (elim (round rules asks now s es ready) [
          | stop ↦ (s, ready, none)
          | again s' ready' ↦ plan_loop rules asks now fuel s' ready'
          | start s' switch ↦ (s', ready, some switch)
        ])
    unfolding round
    queue_rule fuel s ready [] e ih enough p = ends s ready p e
    queue_rule fuel s ready (head ∷ rest) e ih enough p =
        let o = round-Outcome rules asks now s head rest ready in
        step_rule fuel s ready (head ∷ rest) _ ih enough (Outcome-Shorter s head rest ready o)
          (each s ready head rest _ p e o)

    loop_rule :
        (fuel : ℕ) (s : QueueState) (ready : List Waiting)
        → length s.queue < fuel
        → P s ready
        → Q (plan_loop rules asks now fuel s ready)
    unfolding plan_loop
    loop_rule zero s ready enough p = elim enough [ ]
    loop_rule (suc fuel) s ready enough p =
        queue_rule fuel s ready s.queue refl (loop_rule fuel) (omega arith) p

    pub plan_rule : (s : QueueState) → P s [] → Q (plan rules asks now s)
    unfolding plan
    plan_rule s p = loop_rule (suc (length s.queue)) s [] (omega arith) p
