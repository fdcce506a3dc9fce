-- ===== src/Admission/Traces.antt =====
-- How often a number occurs in the queue, in the running loads and in the trace, before and after
-- each part of the scheduler.

use ai_lab.Common.{
  ℕ, ◌+◌, ◌≡◌, ap, false, Option, none, some, List, [], ◌∷◌, ◌++◌, map, if_cases, leb, eqb, arith,
}
use mathlib.Core.List.{map-append}
use ai_lab.Common.Bag.{count, count-append}
use ai_lab.Admission.Parts.{
  Shape, Failure, Waiting, Clients, QueueState, Switch, Rules, count_of, fail, fail_all, release,
  is_gone, drop_gone,
}
use ai_lab.Admission.Planning.{take_place, plan, admit_run, take_off, publish, settle, load_done}
use ai_lab.Admission.Scheduler.{decide, conclude}
use ai_lab.Admission.System.{job_list}
use ai_lab.Admission.Told.{fail_all_only_tells, release_only_tells, count-fail_all, count-release}
use ai_lab.Admission.Fairness.{IsServed, plan-IsServed, waiting_for, numbers, told_numbers}
use ai_lab.Admission.Loads.{admit_run-overflow, take_off-queue}
use ai_lab.Admission.Settling.{take_off-told}

-- How often a number occurs in the queue and in the trace together.
abbrev pub on_card : ℕ → QueueState → ℕ
on_card a s = count a (numbers s.queue) + count a (told_numbers s)

pub count-numbers :
    (a : ℕ) (xs ys : List Waiting)
    → count a (numbers (xs ++ ys)) ≡ count a (numbers xs) + count a (numbers ys)
count-numbers a xs ys =
    rw (map-append {B = ℕ} (λ (e : Waiting). e.number) xs ys)
      (count-append a (numbers xs) (numbers ys))

pub on_card-fail_all :
    (a : ℕ) (f : Failure) (es : List Waiting) (s : QueueState)
    → on_card a (fail_all f es s) ≡ count a (numbers es) + on_card a s
on_card-fail_all a f es s = omega (
  arith,
  count-fail_all a f es s,
  ap (λ (t : QueueState). count a (numbers t.queue)) (fail_all_only_tells f es s),
)

pub on_card-release :
    (a : ℕ) (es : List Waiting) (s : QueueState)
    → on_card a (release es s) ≡ count a (numbers es) + on_card a s
on_card-release a es s = omega (
  arith,
  count-release a es s,
  ap (λ (t : QueueState). count a (numbers t.queue)) (release_only_tells es s),
)

module _ (rules : Rules) (asks : Clients) (now a : ℕ) where
  abbrev pub Accounts :
      List Waiting → QueueState → List Waiting × List Waiting × QueueState → Type 0
  Accounts es s (ready, back, s') =
      count a (numbers es) + count a (told_numbers s)
      ≡ count a (numbers ready) + count a (numbers back) + count a (told_numbers s')

  admit_run-Accounts :
      (shape : Shape) (room : ℕ) (es : List Waiting) (s : QueueState)
      → Accounts es s (admit_run rules asks now shape room es s)
  unfolding admit_run drop_gone fail take_place
  admit_run-Accounts shape room [] s = omega arith
  admit_run-Accounts shape room (e ∷ es) s =
      if_cases (Accounts (e ∷ es) s) (is_gone asks e)
        (λ _. omega (arith, admit_run-Accounts shape room es (drop_gone e s)))
        λ _.
          if_cases (Accounts (e ∷ es) s) (leb room (count_of shape s.loaded))
            (λ _. omega (arith, admit_run-Accounts shape room es s))
            (λ _. omega (arith, admit_run-Accounts shape room es (take_place now shape s)))

  -- The requests of a load are let in, back in the queue or told.
  abbrev pub Settles : List Waiting → QueueState → List Waiting × QueueState → Type 0
  Settles es s (ready, s') =
      count a (numbers es) + on_card a s ≡ count a (numbers ready) + on_card a s'

  publish-Settles :
      (job : Switch) (failure : Option Failure) (s : QueueState)
      → Settles job.photograph s (publish rules asks now job failure s)
  unfolding publish
  publish-Settles job (some failure) s = omega (arith, on_card-fail_all a failure job.photograph s)
  publish-Settles job none s =
      let s' = load_done rules asks now job s in
      let (ready, back, after) =
        admit_run rules asks now job.shape (rules.places job.shape) job.photograph s' in
      omega (
        arith,
        admit_run-Accounts job.shape (rules.places job.shape) job.photograph s',
        ap (λ q. count a (numbers q))
            (admit_run-overflow rules asks now job.shape (rules.places job.shape) job.photograph
              s').1,
        count-numbers a back after.queue,
      )

  settle-Settles :
      (job : Switch) (failure : Option Failure) (s : QueueState)
      → Settles job.photograph s (settle rules asks now s job failure)
  unfolding settle
  settle-Settles job failure s =
      let s' = record s { switching = false } in
      let off = take_off rules asks now job.victims s' in
      if_cases (Settles job.photograph s) (eqb job.epoch s.epoch)
        (λ _. omega (
          arith,
          publish-Settles job failure off,
          ap (λ q. count a (numbers q)) (take_off-queue rules asks now job.victims s'),
          ap (λ q. count a (map (λ v. v.0) q)) (take_off-told rules asks now job.victims s').0,
        ))
        (λ _. omega (arith, on_card-fail_all a _ job.photograph s'))

  pub conclude-Settles :
      (job : Switch) (failure : Option Failure) (s : QueueState)
      → count a (numbers job.photograph) + on_card a s
        ≡ on_card a (conclude rules asks now job failure s)
  unfolding conclude
  conclude-Settles job failure s =
      let (ready, s') = settle rules asks now s job failure in
      omega (arith, settle-Settles job failure s, on_card-release a ready s')

abbrev pub jobs_count : ℕ → List Switch → ℕ
jobs_count a [] = 0
jobs_count a (job ∷ jobs) = count a (numbers job.photograph) + jobs_count a jobs

pub jobs_count-append :
    (a : ℕ) (xs ys : List Switch) → jobs_count a (xs ++ ys) ≡ jobs_count a xs + jobs_count a ys
jobs_count-append a [] ys = omega arith
jobs_count-append a (x ∷ xs) ys = omega (arith, jobs_count-append a xs ys)

pub decide-on_card :
    (rules : Rules) (asks : Clients) (now a : ℕ) (s : QueueState)
    → let (s', job) = decide rules asks now s in
      on_card a s ≡ on_card a s' + jobs_count a (job_list job)
unfolding decide
decide-on_card rules asks now a s =
    from_plan (plan rules asks now s) (plan-IsServed rules asks now s)
  where
    from_plan :
        (p : QueueState × List Waiting × Option Switch)
        → IsServed s p.0 (p.1 ++ waiting_for p.2)
        → on_card a s ≡ on_card a (release p.1 p.0) + jobs_count a (job_list p.2)
    from_plan (s', ready, none) v = omega (
      arith,
      v.accounted a,
      ap (λ q. count a (numbers q)) v.split,
      count-numbers a v.taken s'.queue,
      count-numbers a ready [],
      on_card-release a ready s',
    )
    from_plan (s', ready, some job) v = omega (
      arith,
      v.accounted a,
      ap (λ q. count a (numbers q)) v.split,
      count-numbers a v.taken s'.queue,
      count-numbers a ready job.photograph,
      on_card-release a ready s',
    )
