-- ===== src/Admission/Capacity.antt =====
-- The number of requests admitted to a shape never passes the places of that shape.
use Prim.Native.String.{String}
use ai_lab.Common.{
  ◌||◌, not, ℕ, ◌+◌, ◌≤◌, ◌<◌, ◌≡◌, refl, Bool, false, Option, none, some, List, [], ◌∷◌, eqb,
  eqb_iff, arith, nat_key, leb, if_cases, ◌-◌, length,
}
use ai_lab.Common.Dict.{Dict, get}
use ai_lab.Admission.Parts.{
  Shape, Failure, abandoned, Waiting, Clients, QueueState, Switch, Rules, count_of, fail, fail_all,
  release, is_gone, drop_gone,
}
use ai_lab.Admission.Planning.{
  take_place, Round, is_empty, plan, admits_now, admit_run, settle, take_off, publish,
}
use ai_lab.Admission.Scheduler.{
  Scheduler, Entered, enter, leave, reset, adopt, forget_current, any_held, from_keys, decide,
  conclude,
}
use ai_lab.Admission.Runs.{take_run-loaded}
use ai_lab.Admission.Rounds.{Outcome, blocked, left, admitted, refused, run_left, started, After}
use ai_lab.Admission.Loop.{plan_rule}
use ai_lab.Admission.Counts.{count_of-put, count_of-pop, count_of-leave_first, count_of-from_keys}

-- No shape answers more requests than it has places.
abbrev pub InPlaces : Rules → Dict Shape ℕ → Type 0
InPlaces rules loaded = (shape : Shape) → count_of shape loaded ≤ rules.places shape

loaded-fail_all :
    (f : Failure) (es : List Waiting) (s : QueueState) → (fail_all f es s).loaded ≡ s.loaded
unfolding fail_all fail
loaded-fail_all f [] s = refl
loaded-fail_all f (e ∷ es) s = loaded-fail_all f es (fail f e s)

loaded-release : (es : List Waiting) (s : QueueState) → (release es s).loaded ≡ s.loaded
unfolding release
loaded-release [] s = refl
loaded-release (e ∷ es) s = loaded-release es _

module _ (rules : Rules) (asks : Clients) (now : ℕ) where
  take_place-InPlaces :
      (shape : Shape) (s : QueueState)
      → InPlaces rules s.loaded
      → count_of shape s.loaded < rules.places shape
      → InPlaces rules (take_place now shape s).loaded
  unfolding take_place
  take_place-InPlaces shape s h room j =
      ground
        (arith, count_of-put shape j (count_of shape s.loaded + 1) s.loaded, h j, eqb_iff shape j)

  each_round :
      (s : QueueState) (ready : List Waiting) (head : Waiting) (rest : List Waiting) (r : Round)
      → InPlaces rules s.loaded
      → s.queue ≡ head ∷ rest
      → Outcome rules asks now s head rest ready r
      → After
          (λ s' _. InPlaces rules s'.loaded)
          (λ result. InPlaces rules result.0.loaded)
          s
          ready
          r
  unfolding drop_gone fail
  each_round s ready head rest r h e (blocked _) = h
  each_round s ready head rest r h e (left _) = h
  each_round s ready head rest r h e (admitted _ _ _ room) =
      take_place-InPlaces head.shape (record s { queue = rest }) h room
  each_round s ready head rest r h e (refused _ _ _) = h
  each_round s ready head rest r h e (run_left _ _) =
      rw (take_run-loaded asks head.shape (head ∷ rest) s) h
  each_round s ready head rest r h e (started _ _ _ _ _ _ _ _) =
      rw (take_run-loaded asks head.shape (head ∷ rest) s) h

  plan-InPlaces :
      (s : QueueState) → InPlaces rules s.loaded → InPlaces rules (plan rules asks now s).0.loaded
  plan-InPlaces s h =
      plan_rule rules asks now (λ s' _. InPlaces rules s'.loaded)
        (λ result. InPlaces rules result.0.loaded) (λ s' _ v _. v) each_round s h

  admit_run-InPlaces :
      (shape : Shape) (es : List Waiting) (s : QueueState)
      → InPlaces rules s.loaded
      → InPlaces rules (admit_run rules asks now shape (rules.places shape) es s).2.loaded
  unfolding admit_run drop_gone fail
  admit_run-InPlaces shape [] s h = h
  admit_run-InPlaces shape (e ∷ es) s h =
      if_cases (λ (t : List Waiting × List Waiting × QueueState). InPlaces rules t.2.loaded)
        (is_gone asks e) (λ _. admit_run-InPlaces shape es (drop_gone e s) h)
        λ _.
          if_cases (λ (t : List Waiting × List Waiting × QueueState). InPlaces rules t.2.loaded)
            (leb (rules.places shape) (count_of shape s.loaded))
            (λ _. admit_run-InPlaces shape es s h)
            (λ room.
              admit_run-InPlaces shape es (take_place now shape s)
                (take_place-InPlaces shape s h (ground arith)))

  take_off-InPlaces :
      (victims : List Shape) (s : QueueState)
      → InPlaces rules s.loaded
      → InPlaces rules (take_off rules asks now victims s).loaded
  unfolding take_off
  take_off-InPlaces [] s h = h
  take_off-InPlaces (v ∷ vs) s h =
      take_off-InPlaces vs _ (λ j. ground (arith, count_of-pop v j s.loaded, h j))

  publish-InPlaces :
      (switch : Switch) (failure : Option Failure) (s : QueueState)
      → InPlaces rules s.loaded
      → InPlaces rules (publish rules asks now switch failure s).1.loaded
  unfolding publish
  publish-InPlaces switch (some failure) s h = rw (loaded-fail_all failure switch.photograph s) h
  publish-InPlaces switch none s h =
      admit_run-InPlaces switch.shape switch.photograph _
        (λ j. ground (arith, count_of-put switch.shape j 0 s.loaded, h j))

  settle-InPlaces :
      (s : QueueState) (switch : Switch) (failure : Option Failure)
      → InPlaces rules s.loaded
      → InPlaces rules (settle rules asks now s switch failure).1.loaded
  unfolding settle
  settle-InPlaces s switch failure h =
      if_cases (λ (t : List Waiting × QueueState). InPlaces rules t.1.loaded)
        (eqb switch.epoch s.epoch)
        (λ _. publish-InPlaces switch failure _ (take_off-InPlaces switch.victims _ h))
        (λ _. rw (loaded-fail_all _ switch.photograph (record s { switching = false })) h)

  pub enter-InPlaces :
      (shape : Shape) (still_wanted : Bool) (s : Scheduler)
      → InPlaces rules s.card.loaded
      → InPlaces rules (enter rules now asks shape still_wanted s).1.card.loaded
  unfolding enter
  enter-InPlaces shape still_wanted s h =
      if_cases (λ (t : Entered × Scheduler). InPlaces rules t.1.card.loaded)
        (admits_now rules asks now s.card shape)
        (λ free. take_place-InPlaces shape s.card h (ground arith))
        (λ _.
          if_cases (λ (t : Entered × Scheduler). InPlaces rules t.1.card.loaded)
            (leb s.max_waiting (length s.card.queue)) (λ _. h) (λ _. h))

pub leave-InPlaces :
    (rules : Rules) (shape : Option Shape) (s : QueueState)
    → InPlaces rules s.loaded
    → InPlaces rules (leave shape s).loaded
unfolding leave
leave-InPlaces rules none s h j = ground (arith, count_of-leave_first j s.loaded, h j)
leave-InPlaces rules (some shape) s h j = ground (
  arith,
  count_of-leave_first j s.loaded,
  count_of-put shape j (count_of shape s.loaded - 1) s.loaded,
  h j,
  h shape,
)

from_keys-InPlaces : (rules : Rules) (shapes : List Shape) → InPlaces rules (from_keys 0 shapes [])
unfolding count_of get
from_keys-InPlaces rules shapes j = ground (arith, count_of-from_keys j shapes [])

pub adopt-InPlaces :
    (rules : Rules) (now : ℕ) (shapes : List Shape) (s : QueueState)
    → InPlaces rules s.loaded
    → InPlaces rules (adopt now shapes s).loaded
unfolding adopt
adopt-InPlaces rules now shapes s h =
    if_cases (λ (t : QueueState). InPlaces rules t.loaded)
      (any_held s.loaded || not (is_empty s.queue) || s.switching) (λ _. h)
      (λ _. from_keys-InPlaces rules shapes)

pub decide-InPlaces :
    (rules : Rules) (asks : Clients) (now : ℕ) (s : QueueState)
    → InPlaces rules s.loaded
    → InPlaces rules (decide rules asks now s).0.loaded
unfolding decide
decide-InPlaces rules asks now s h =
    let (s', ready, job) = plan rules asks now s in
    rw (loaded-release ready s') (plan-InPlaces rules asks now s h)

pub conclude-InPlaces :
    (rules : Rules) (asks : Clients) (now : ℕ) (job : Switch) (failure : Option Failure)
    (s : QueueState)
    → InPlaces rules s.loaded
    → InPlaces rules (conclude rules asks now job failure s).loaded
unfolding conclude
conclude-InPlaces rules asks now job failure s h =
    let (ready, s') = settle rules asks now s job failure in
    rw (loaded-release ready s') (settle-InPlaces rules asks now s job failure h)

pub reset-InPlaces :
    (rules : Rules) (reason : String) (s : QueueState) → InPlaces rules (reset reason s).1.loaded
unfolding reset count_of get
reset-InPlaces rules reason s = rw (loaded-fail_all (abandoned reason) s.queue _) (λ j. omega arith)

pub forget-InPlaces : (rules : Rules) (s : QueueState) → InPlaces rules (forget_current s).loaded
unfolding forget_current count_of get
forget-InPlaces rules s j = omega arith
