-- ===== src/Admission/Fairness.antt =====
-- `Planner.plan` serves the queue in order and loses nobody.
use ai_lab.Common.{
  ℕ, ◌+◌, ◌≡◌, refl, sym, ap, ◌∙◌, subst, Option, none, some, List, [], ◌∷◌, ◌++◌, map, append-nil,
  append_assoc, arith, nat_key,
}
use ai_lab.Common.Bag.{count, count-append}
use ai_lab.Common.Subseq.{Subseq, done, kept, skipped, Subseq-append, keep-Subseq}
use mathlib.Core.List.{map-append}
use ai_lab.Admission.Parts.{Waiting, Clients, QueueState, Switch, Rules, fail, drop_gone}
use ai_lab.Admission.Planning.{take_place, take_run, Round, plan}
use ai_lab.Admission.Runs.{
  run_of, is_here, run_of-append-behind, take_run-photograph, take_run-queue, take_run-told,
}
use ai_lab.Admission.Rounds.{
  Outcome, blocked, left, admitted, refused, run_left, started, Result, After,
}
use ai_lab.Admission.Loop.{plan_rule}

abbrev pub numbers : List Waiting → List ℕ
numbers = map (λ e. e.number)

abbrev pub told_numbers : QueueState → List ℕ
told_numbers s = map (λ v. v.0) s.told

-- The requests that a switch is for.
abbrev pub waiting_for : Option Switch → List Waiting
waiting_for none = []
waiting_for (some switch) = switch.photograph

-- `taken` left the front of the queue. Those let in and those a switch is started for come from
-- it in its order, and everybody else in it is told why it is not served.
pub record IsServed (before after : QueueState) (served : List Waiting) : Type 0 where
  pub taken : List Waiting
  pub split : before.queue ≡ taken ++ after.queue
  pub ordered : Subseq served taken
  pub accounted :
      (a : ℕ)
      → count a (numbers taken) + count a (told_numbers before)
        ≡ count a (numbers served) + count a (told_numbers after)

IsServed-start : (s : QueueState) → IsServed s s []
IsServed-start s = record { taken = []; split = refl; ordered = done; accounted = λ a. refl }

-- One more piece `front` leaves the queue, of which `more` are served.
IsServed-step :
    (before s s' : QueueState) (served front more : List Waiting)
    → IsServed before s served
    → s.queue ≡ front ++ s'.queue
    → Subseq more front
    → ((a : ℕ)
        → count a (numbers front) + count a (told_numbers s)
          ≡ count a (numbers more) + count a (told_numbers s'))
    → IsServed before s' (served ++ more)
IsServed-step before s s' served front more v split sub told = record {
  taken = v.taken ++ front;
  split = v.split ∙ ap (λ q. v.taken ++ q) split ∙ sym (append_assoc v.taken front s'.queue);
  ordered = Subseq-append v.ordered sub;
  accounted = λ a.
      rw
        (
          map-append (λ (e : Waiting). e.number) v.taken front,
          map-append (λ (e : Waiting). e.number) served more,
          count-append a (numbers v.taken) (numbers front),
          count-append a (numbers served) (numbers more),
        )
        (omega (arith, v.accounted a, told a));
}

module _ (rules : Rules) (asks : Clients) (now : ℕ) (before : QueueState) where
  abbrev Carried : QueueState → List Waiting → Type 0
  Carried s ready = IsServed before s ready

  abbrev Ended : Result → Type 0
  Ended (s, ready, job) = IsServed before s (ready ++ waiting_for job)

  -- A round that serves nobody.
  told_step :
      (s s' : QueueState) (served front : List Waiting)
      → IsServed before s served
      → s.queue ≡ front ++ s'.queue
      → Subseq [] front
      → ((a : ℕ) → count a (numbers front) + count a (told_numbers s) ≡ count a (told_numbers s'))
      → IsServed before s' served
  told_step s s' served front v split sub told =
      rw append-nil at
        (IsServed-step before s s' served front [] v split sub (λ a. omega (arith, told a)))

  take_run-split :
      (s : QueueState) (head : Waiting) (rest : List Waiting)
      → s.queue ≡ head ∷ rest
      → s.queue
        ≡ run_of head.shape (head ∷ rest) ++ (take_run asks head.shape (head ∷ rest) s).1.queue
  take_run-split s head rest e =
      rw
        (
          take_run-queue asks head.shape (head ∷ rest) s,
          run_of-append-behind head.shape (head ∷ rest),
        )
        e

  take_run-Subseq :
      (s : QueueState) (head : Waiting) (rest run : List Waiting)
      → (take_run asks head.shape (head ∷ rest) s).0 ≡ run
      → Subseq run (run_of head.shape (head ∷ rest))
  take_run-Subseq s head rest run e =
      subst (λ l. Subseq l (run_of head.shape (head ∷ rest)))
        (sym (take_run-photograph asks head.shape (head ∷ rest) s) ∙ e)
        (keep-Subseq (is_here asks) (run_of head.shape (head ∷ rest)))

  take_run-counts :
      (s : QueueState) (head : Waiting) (rest run : List Waiting)
      → (take_run asks head.shape (head ∷ rest) s).0 ≡ run
      → (a : ℕ)
      → count a (numbers (run_of head.shape (head ∷ rest))) + count a (told_numbers s)
        ≡ count a (numbers run)
          + count a (told_numbers (take_run asks head.shape (head ∷ rest) s).1)
  take_run-counts s head rest run e a =
      rw (← e) (omega (arith, take_run-told asks head.shape a (head ∷ rest) s))

  each_round :
      (s : QueueState) (ready : List Waiting) (head : Waiting) (rest : List Waiting) (r : Round)
      → Carried s ready
      → s.queue ≡ head ∷ rest
      → Outcome rules asks now s head rest ready r
      → After Carried Ended s ready r
  unfolding drop_gone fail take_place
  each_round s ready head rest r v e (blocked _) = rw append-nil v
  each_round s ready head rest r v e (left _) =
      told_step s _ ready (head ∷ []) v e (skipped head done) (λ a. omega arith)
  each_round s ready head rest r v e (admitted _ _ _ _) =
      IsServed-step before s _ ready (head ∷ []) (head ∷ []) v e (kept head done) (λ a. omega arith)
  each_round s ready head rest r v e (refused _ _ _) =
      told_step s _ ready (head ∷ []) v e (skipped head done) (λ a. omega arith)
  each_round s ready head rest r v e (run_left _ none_left) =
      told_step s _ ready _ v (take_run-split s head rest e)
        (take_run-Subseq s head rest [] none_left)
        (λ a. omega (arith, take_run-counts s head rest [] none_left a))
  each_round s ready head rest r v e (started victims first more _ _ _ _ run) =
      IsServed-step before s _ ready _ (first ∷ more) v (take_run-split s head rest e)
        (take_run-Subseq s head rest (first ∷ more) run)
        (take_run-counts s head rest (first ∷ more) run)

-- Planning takes a piece off the front of the queue and leaves the rest as it stands; those let
-- in and those a switch is started for are of that piece, in their order of arrival, and every
-- other request of it is told once that it is not served. So nobody is let in before somebody
-- older who stays in the queue, and nobody is lost.
pub plan-IsServed :
    (rules : Rules) (asks : Clients) (now : ℕ) (s : QueueState)
    → let (s', ready, job) = plan rules asks now s in IsServed s s' (ready ++ waiting_for job)
plan-IsServed rules asks now s =
    plan_rule rules asks now (Carried rules asks now s) (Ended rules asks now s)
      (λ s' ready v _. rw append-nil v) (each_round rules asks now s) s (IsServed-start s)
