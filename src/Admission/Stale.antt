-- ===== src/Admission/Stale.antt =====
-- A load that runs when everything is stopped: whatever comes until it ends, its result is thrown
-- away.
use Prim.Native.String.{String}
use ai_lab.Common.{
  ℕ, zero, suc, ◌+◌, ◌≤◌, ◌≡◌, ◌≢◌, refl, ap, ◌∙◌, subst, Bool, false, Option, none, some, List, [],
  ◌∷◌, ◌++◌, if_cases, arith, length, All, All-append, leb, eqb, not, ◌||◌, nat_key, if◌then◌else◌,
}
use ai_lab.Common.Dict.{get}
use ai_lab.Admission.Parts.{
  Shape, Failure, abandoned, Waiting, Clients, QueueState, Switch, Rules, count_of, is_some,
  is_gone, drop_gone, fail, release, stopped_while_loading, fail_all,
}
use ai_lab.Admission.Planning.{
  Round, stop, again, start, take_place, take_run, any_busy, loaded_now, admit_head, refuse_head,
  start_run, plan_switch, round, plan_loop, plan, admit_run, take_off, load_done, publish, settle,
  or_else, admits_now, is_empty,
}
use ai_lab.Admission.Scheduler.{
  Scheduler, Entered, enter, leave, reset, adopt, forget_current, decide, conclude, any_held,
}
use ai_lab.Admission.System.{
  System, new_system, Step, enters, leaves, decides, concludes, resets, adopts, forgets,
  reconfigures, Reach, here, next, rules_of, job_list, with_card,
}
use ai_lab.Admission.Runs.{take_run-epoch}
use ai_lab.Admission.Told.{fail_all_only_tells, release_only_tells}
use ai_lab.Admission.Settling.{refusals, settle_stale, take_off-told}

abbrev RoundKeeps : ℕ → Round → Type 0
RoundKeeps epoch stop = Unit {0}
RoundKeeps epoch (again s ready) = s.epoch ≡ epoch
RoundKeeps epoch (start s job) = (s.epoch ≡ epoch) × (job.epoch ≡ epoch)

abbrev OfEpoch : ℕ → Option Switch → Type 0
OfEpoch epoch none = Unit {0}
OfEpoch epoch (some job) = job.epoch ≡ epoch

module _ (rules : Rules) (asks : Clients) (now : ℕ) where
  drop_gone-epoch : (e : Waiting) (s : QueueState) → (drop_gone e s).epoch ≡ s.epoch
  unfolding drop_gone fail
  drop_gone-epoch e s = refl

  start_run-epoch :
      (shape : Shape) (victims : List Shape) (run : List Waiting) (s : QueueState)
      (ready : List Waiting)
      → RoundKeeps s.epoch (start_run rules asks now shape victims run s ready)
  unfolding start_run
  start_run-epoch shape victims [] s ready = refl
  start_run-epoch shape victims (entry ∷ run) s ready = (refl, refl)

  admit_head-epoch :
      (s : QueueState) (head : Waiting) (rest ready : List Waiting)
      → RoundKeeps s.epoch (admit_head rules asks now s head rest ready)
  unfolding admit_head drop_gone fail take_place
  admit_head-epoch s head rest ready =
      if_cases (RoundKeeps s.epoch) (leb (rules.places head.shape) (count_of head.shape s.loaded))
        (λ _. tt) (λ _. if_cases (RoundKeeps s.epoch) (is_gone asks head) (λ _. refl) (λ _. refl))

  refuse_head-epoch :
      (s : QueueState) (head : Waiting) (rest ready : List Waiting)
      → RoundKeeps s.epoch (refuse_head rules asks now s head rest ready)
  unfolding refuse_head drop_gone fail
  refuse_head-epoch s head rest ready =
      if_cases (RoundKeeps s.epoch) (is_gone asks head) (λ _. refl) (λ _. refl)

  plan_switch-epoch :
      (s : QueueState) (head : Waiting) (rest ready : List Waiting)
      → RoundKeeps s.epoch (plan_switch rules asks now s head rest ready)
  unfolding plan_switch
  plan_switch-epoch s head rest ready = by_victims (rules.make_room head.shape (loaded_now s))
    where
      by_victims :
          (victims : Option (List Shape))
          → RoundKeeps s.epoch (elim victims [
            | none ↦ refuse_head rules asks now s head rest ready
            | some victims ↦
                if any_busy s.loaded victims
                then stop
                else let (run, s') = take_run asks head.shape (head ∷ rest) s in
                  start_run rules asks now head.shape victims run s' ready
          ])
      by_victims none = refuse_head-epoch s head rest ready
      by_victims (some victims) =
          if_cases (RoundKeeps s.epoch) (any_busy s.loaded victims) (λ _. tt)
            (λ _.
              subst
                (λ epoch. RoundKeeps epoch (
                  start_run rules asks now head.shape victims
                    (take_run asks head.shape (head ∷ rest) s).0
                    (take_run asks head.shape (head ∷ rest) s).1 ready))
                (take_run-epoch asks head.shape (head ∷ rest) s)
                (start_run-epoch head.shape victims (take_run asks head.shape (head ∷ rest) s).0
                  (take_run asks head.shape (head ∷ rest) s).1 ready))

  round-epoch :
      (s : QueueState) (es ready : List Waiting)
      → RoundKeeps s.epoch (round rules asks now s es ready)
  unfolding round
  round-epoch s [] ready = tt
  round-epoch s (head ∷ rest) ready =
      if_cases (RoundKeeps s.epoch) s.switching (λ _. tt)
        (λ _.
          if_cases (RoundKeeps s.epoch) (is_some (get head.shape s.loaded))
            (λ _. admit_head-epoch s head rest ready) (λ _. plan_switch-epoch s head rest ready))

  abbrev PlanKeeps : ℕ → QueueState × List Waiting × Option Switch → Type 0
  PlanKeeps epoch (s, ready, job) = (s.epoch ≡ epoch) × OfEpoch epoch job

  plan_loop-epoch :
      (fuel : ℕ) (s : QueueState) (ready : List Waiting)
      → PlanKeeps s.epoch (plan_loop rules asks now fuel s ready)
  unfolding plan_loop
  plan_loop-epoch zero s ready = (refl, tt)
  plan_loop-epoch (suc fuel) s ready =
      by_round (round rules asks now s s.queue ready) (round-epoch s s.queue ready)
        (λ s' ready'. plan_loop-epoch fuel s' ready')
    where
      by_round :
          (r : Round)
          → RoundKeeps s.epoch r
          → ((s' : QueueState) (ready' : List Waiting)
              → PlanKeeps s'.epoch (plan_loop rules asks now fuel s' ready'))
          → PlanKeeps s.epoch (elim r [
            | stop ↦ (s, ready, none)
            | again s' ready' ↦ plan_loop rules asks now fuel s' ready'
            | start s' switch ↦ (s', ready, some switch)
          ])
      by_round stop same later = (refl, tt)
      by_round (again s' ready') same later =
          subst (λ epoch. PlanKeeps epoch (plan_loop rules asks now fuel s' ready')) same
            (later s' ready')
      by_round (start s' job) same later = same

  release-epoch : (es : List Waiting) (s : QueueState) → (release es s).epoch ≡ s.epoch
  release-epoch es s = ap (λ (t : QueueState). t.epoch) (release_only_tells es s)

  fail_all-epoch :
      (f : Failure) (es : List Waiting) (s : QueueState) → (fail_all f es s).epoch ≡ s.epoch
  fail_all-epoch f es s = ap (λ (t : QueueState). t.epoch) (fail_all_only_tells f es s)

  decide-epoch :
      (s : QueueState)
      → ((decide rules asks now s).0.epoch ≡ s.epoch) × OfEpoch s.epoch (decide rules asks now s).1
  unfolding decide plan
  decide-epoch s =
      let (s', ready, job) = plan rules asks now s in
      let kept = plan_loop-epoch (suc (length s.queue)) s [] in
      (release-epoch ready s' ∙ kept.0, kept.1)

  admit_run-epoch :
      (shape : Shape) (room : ℕ) (es : List Waiting) (s : QueueState)
      → (admit_run rules asks now shape room es s).2.epoch ≡ s.epoch
  unfolding admit_run drop_gone fail take_place
  admit_run-epoch shape room [] s = refl
  admit_run-epoch shape room (e ∷ es) s = ground (
    arith,
    admit_run-epoch shape room es s,
    admit_run-epoch shape room es (drop_gone e s),
    admit_run-epoch shape room es (take_place now shape s),
  )

  publish-epoch :
      (job : Switch) (failure : Option Failure) (s : QueueState)
      → (publish rules asks now job failure s).1.epoch ≡ s.epoch
  unfolding publish
  publish-epoch job (some failure) s = fail_all-epoch failure job.photograph s
  publish-epoch job none s =
      admit_run-epoch job.shape (rules.places job.shape) job.photograph
        (load_done rules asks now job s)

  settle-epoch :
      (job : Switch) (failure : Option Failure) (s : QueueState)
      → (settle rules asks now s job failure).1.epoch ≡ s.epoch
  unfolding settle
  settle-epoch job failure s =
      let s' = record s { switching = false } in
      if_cases (λ (t : List Waiting × QueueState). t.1.epoch ≡ s.epoch) (eqb job.epoch s.epoch)
        (λ _.
          publish-epoch job failure (take_off rules asks now job.victims s')
          ∙ (take_off-told rules asks now job.victims s').1)
        (λ _. fail_all-epoch _ job.photograph s')

  conclude-epoch :
      (job : Switch) (failure : Option Failure) (s : QueueState)
      → (conclude rules asks now job failure s).epoch ≡ s.epoch
  unfolding conclude
  conclude-epoch job failure s =
      let (ready, s') = settle rules asks now s job failure in
      release-epoch ready s' ∙ settle-epoch job failure s

abbrev pub epoch_of : System → ℕ
epoch_of y = y.scheduler.card.epoch

-- No load that runs was decided in a later epoch than the present one.
abbrev IsOld : ℕ → List Switch → Type 0
IsOld epoch = All (λ (job : Switch). job.epoch ≤ epoch)

IsOld-later :
    (epoch later : ℕ) (jobs : List Switch) → epoch ≤ later → IsOld epoch jobs → IsOld later jobs
IsOld-later epoch later [] le old = tt
IsOld-later epoch later (job ∷ jobs) le old =
    (omega (arith, old.0, le), IsOld-later epoch later jobs le old.1)

IsOld-split :
    (epoch : ℕ) (before : List Switch) (job : Switch) (after : List Switch)
    → IsOld epoch (before ++ job ∷ after)
    → (job.epoch ≤ epoch) × IsOld epoch (before ++ after)
IsOld-split epoch [] job after old = old
IsOld-split epoch (other ∷ before) job after old =
    let rest = IsOld-split epoch before job after old.1 in (rest.0, (old.0, rest.1))

IsOld-job_list : (epoch : ℕ) (job : Option Switch) → OfEpoch epoch job → IsOld epoch (job_list job)
IsOld-job_list epoch none same = tt
IsOld-job_list epoch (some job) same = (omega (arith, same), tt)

enter-epoch :
    (rules : Rules) (asks : Clients) (now : ℕ) (shape : Shape) (wanted : Bool) (s : Scheduler)
    → (enter rules now asks shape wanted s).1.card.epoch ≡ s.card.epoch
unfolding enter take_place
enter-epoch rules asks now shape wanted s =
    if_cases (λ (t : Entered × Scheduler). t.1.card.epoch ≡ s.card.epoch)
      (admits_now rules asks now s.card shape) (λ _. refl)
      (λ _.
        if_cases (λ (t : Entered × Scheduler). t.1.card.epoch ≡ s.card.epoch)
          (leb s.max_waiting (length s.card.queue)) (λ _. refl) (λ _. refl))

reset-epoch : (reason : String) (s : QueueState) → (reset reason s).1.epoch ≡ s.epoch + 1
unfolding reset
reset-epoch reason s = ap (λ (t : QueueState). t.epoch) (fail_all_only_tells _ s.queue _)

adopt-epoch :
    (now : ℕ) (shapes : List Shape) (s : QueueState) → (adopt now shapes s).epoch ≡ s.epoch
unfolding adopt
adopt-epoch now shapes s =
    if_cases (λ (t : QueueState). t.epoch ≡ s.epoch)
      (any_held s.loaded || not (is_empty s.queue) || s.switching) (λ _. refl) (λ _. refl)

Step-epoch : {places : Shape → ℕ} {y z : System} → Step places y z → epoch_of y ≤ epoch_of z
unfolding leave forget_current
Step-epoch (enters y asks now shape w) = omega (arith, enter-epoch _ asks now shape w y.scheduler)
Step-epoch (leaves y shape) = omega arith
Step-epoch {places} (decides y room asks now) =
    omega (arith, (decide-epoch (rules_of places room) asks now y.scheduler.card).0)
Step-epoch (concludes y before job after asks now failure e) =
    omega (arith, conclude-epoch _ asks now job failure y.scheduler.card)
Step-epoch (resets y reason) = omega (arith, reset-epoch reason y.scheduler.card)
Step-epoch (adopts y now shapes) = omega (arith, adopt-epoch now shapes y.scheduler.card)
Step-epoch (forgets y) = omega arith
Step-epoch (reconfigures y n) = omega arith

Reach-epoch : {places : Shape → ℕ} {x z : System} → Reach places x z → epoch_of x ≤ epoch_of z
Reach-epoch here = omega arith
Reach-epoch (next reach step) = omega (arith, Reach-epoch reach, Step-epoch step)

Step-IsOld :
    {places : Shape → ℕ} {y z : System}
    → Step places y z
    → IsOld (epoch_of y) y.jobs
    → IsOld (epoch_of z) z.jobs
Step-IsOld {z} step old = IsOld-later _ (epoch_of z) z.jobs (Step-epoch step) (still step old)
  where
    still :
        {places : Shape → ℕ} {y z : System}
        → Step places y z
        → IsOld (epoch_of y) y.jobs
        → IsOld (epoch_of y) z.jobs
    still (enters y asks now shape w) old = old
    still (leaves y shape) old = old
    still {places} (decides y room asks now) old =
        All-append _ y.jobs _ old
          (IsOld-job_list _ _ (decide-epoch (rules_of places room) asks now y.scheduler.card).1)
    still (concludes y before job after asks now failure e) old =
        (IsOld-split _ before job after (subst (IsOld (epoch_of y)) e old)).1
    still (resets y reason) old = old
    still (adopts y now shapes) old = old
    still (forgets y) old = old
    still (reconfigures y n) old = old

Reach-IsOld :
    {places : Shape → ℕ} {max_waiting : ℕ} {y : System}
    → Reach places (new_system max_waiting) y
    → IsOld (epoch_of y) y.jobs
Reach-IsOld here = tt
Reach-IsOld (next reach step) = Step-IsOld step (Reach-IsOld reach)

-- If a load runs when everything is stopped, then whatever any thread does before it ends, its
-- result is thrown away: models that are loaded and requests that are queued by then stay as they
-- are, nobody goes in, and each request that it ran for is told the failure of the load, or that
-- everything was stopped.
pub conclude-Stale :
    {places : Shape → ℕ} {max_waiting : ℕ} {y z : System}
    → Reach places (new_system max_waiting) y
    → (before : List Switch) (job : Switch) (after : List Switch) → y.jobs ≡ before ++ job ∷ after
    → (reason : String) → Reach places (with_card y (reset reason y.scheduler.card).1) z
    → (rules : Rules) (asks : Clients) (now : ℕ) (failure : Option Failure)
    → let s = z.scheduler.card in
      let s' = conclude rules asks now job failure s in
      (s'.loaded ≡ s.loaded)
      × (s'.queue ≡ s.queue)
      × (s'.told
          ≡ refusals (or_else failure (abandoned stopped_while_loading)) job.photograph ++ s.told)
unfolding conclude release
conclude-Stale {y} {z} reach before job after running reason later rules asks now failure =
    let s = z.scheduler.card in
    let old =
      (IsOld-split _ before job after (subst (IsOld (epoch_of y)) running (Reach-IsOld reach))).0 in
    let stale : job.epoch ≢ s.epoch =
      λ same. omega (arith, same, old, Reach-epoch later, reset-epoch reason y.scheduler.card) in
    rw (settle_stale rules asks now s job failure stale) (refl, refl, refl)
