-- ===== src/Admission/Account.antt =====
-- Every request that was ever queued is in exactly one place, and is told one thing at most.
use Prim.Native.String.{String}
use ai_lab.Common.{
  ℕ, ◌+◌, ◌≤◌, ◌≡◌, refl, ap, Bool, ◌&&◌, ◌||◌, not, none, List, [], ◌∷◌, if◌then◌else◌, if_cases,
  ltb, leb, arith, length,
}
use ai_lab.Common.Bag.{count}
use ai_lab.Admission.Parts.{Shape, abandoned, Clients, QueueState, Rules}
use ai_lab.Admission.Planning.{is_empty, admits_now}
use ai_lab.Admission.Scheduler.{
  Scheduler, Entered, enter, leave, reset, adopt, forget_current, decide, any_held,
}
use ai_lab.Admission.System.{
  System, new_system, Step, enters, leaves, decides, concludes, resets, adopts, forgets,
  reconfigures, Reach, here, next, rules_of, job_list, with_card,
}
use ai_lab.Admission.Fairness.{numbers, told_numbers}
use ai_lab.Admission.Traces.{
  on_card, count-numbers, on_card-fail_all, jobs_count, jobs_count-append, decide-on_card,
  conclude-Settles,
}

-- How often a number occurs in the queue, in the running loads and in the trace together.
abbrev pub places_of : ℕ → System → ℕ
places_of a y =
    count a (numbers y.scheduler.card.queue)
    + jobs_count a y.jobs
    + count a (told_numbers y.scheduler.card)

abbrev pub once_below : ℕ → ℕ → ℕ
once_below bound a = if leb 1 a && ltb a bound then 1 else 0

abbrev pub Accounted : System → Type 0
Accounted y = (a : ℕ) → places_of a y ≡ once_below y.scheduler.next_number a

enter-Accounted :
    (y : System) (rules : Rules) (asks : Clients) (now : ℕ) (shape : Shape) (w : Bool)
    → 1 ≤ y.scheduler.next_number
    → Accounted y
    → (1 ≤ (enter rules now asks shape w y.scheduler).1.next_number)
      × Accounted (record y { scheduler = (enter rules now asks shape w y.scheduler).1 })
unfolding enter
enter-Accounted y rules asks now shape w pos h =
    if_cases
      (λ (t : Entered × Scheduler).
        (1 ≤ t.1.next_number) × Accounted (record y { scheduler = t.1 }))
      (admits_now rules asks now y.scheduler.card shape) (λ _. (pos, h))
      λ _.
        if_cases
          (λ (t : Entered × Scheduler).
            (1 ≤ t.1.next_number) × Accounted (record y { scheduler = t.1 }))
          (leb y.scheduler.max_waiting (length y.scheduler.card.queue)) (λ _. (pos, h))
          (λ _. (
            omega arith,
            λ a. ground (
              arith,
              h a,
              count-numbers a y.scheduler.card.queue (
                  record {
                    number = y.scheduler.next_number;
                    shape = shape;
                    arrived = now;
                    still_wanted = w;
                  }
                  ∷ []),
            ),
          ))

-- An operation that moves requests between the queue and the trace, and no more.
moves_Accounted :
    (y : System) (card : QueueState)
    → ((a : ℕ) → on_card a card ≡ on_card a y.scheduler.card)
    → Accounted y
    → Accounted (with_card y card)
moves_Accounted y card same h a = omega (arith, same a, h a)

reset-on_card :
    (a : ℕ) (reason : String) (s : QueueState) → on_card a (reset reason s).1 ≡ on_card a s
unfolding reset
reset-on_card a reason s = omega (arith, on_card-fail_all a (abandoned reason) s.queue _)

adopt-on_card :
    (a now : ℕ) (shapes : List Shape) (s : QueueState)
    → on_card a (adopt now shapes s) ≡ on_card a s
unfolding adopt
adopt-on_card a now shapes s =
    if_cases (λ (t : QueueState). on_card a t ≡ on_card a s)
      (any_held s.loaded || not (is_empty s.queue) || s.switching) (λ _. refl) (λ _. refl)

Step-Accounted :
    {places : Shape → ℕ} {y z : System}
    → Step places y z
    → 1 ≤ y.scheduler.next_number
    → Accounted y
    → (1 ≤ z.scheduler.next_number) × Accounted z
unfolding leave forget_current
Step-Accounted (enters y asks now shape w) pos h = enter-Accounted y _ asks now shape w pos h
Step-Accounted (leaves y shape) pos h = (pos, h)
Step-Accounted (decides y room asks now) pos h = (
  pos,
  λ a. omega (
    arith,
    h a,
    decide-on_card (rules_of _ room) asks now a y.scheduler.card,
    jobs_count-append a y.jobs (job_list (decide (rules_of _ room) asks now y.scheduler.card).1),
  ),
)
Step-Accounted (concludes y before job after asks now failure e) pos h = (
  pos,
  λ a. omega (
    arith,
    h a,
    conclude-Settles (rules_of _ (λ _ _. none)) asks now a job failure y.scheduler.card,
    ap (jobs_count a) e,
    jobs_count-append a before (job ∷ after),
    jobs_count-append a before after,
  ),
)
Step-Accounted (resets y reason) pos h = (
  pos,
  moves_Accounted y (reset reason y.scheduler.card).1 (λ a. reset-on_card a reason y.scheduler.card)
      h,
)
Step-Accounted (adopts y now shapes) pos h = (
  pos,
  moves_Accounted y (adopt now shapes y.scheduler.card)
      (λ a. adopt-on_card a now shapes y.scheduler.card) h,
)
Step-Accounted (forgets y) pos h = (pos, h)
Step-Accounted (reconfigures y n) pos h = (pos, h)

new-Accounted : (max_waiting : ℕ) → Accounted (new_system max_waiting)
new-Accounted max_waiting a = ground arith

Reach-both :
    (places : Shape → ℕ) (max_waiting : ℕ) (y : System)
    → Reach places (new_system max_waiting) y
    → (1 ≤ y.scheduler.next_number) × Accounted y
Reach-both places max_waiting y here = (omega arith, new-Accounted max_waiting)
Reach-both places max_waiting y (next r st) =
    let (pos, h) = Reach-both places max_waiting _ r in Step-Accounted st pos h

-- After any interleaving from a new scheduler, every request that was ever queued is in exactly
-- one place: it waits in the queue, or a load runs for it, or it was told once, that it is let in
-- or why it is not. So none is lost, none is let in twice and none is both let in and refused.
pub Reach-Accounted :
    (places : Shape → ℕ) (max_waiting : ℕ) (y : System)
    → Reach places (new_system max_waiting) y
    → Accounted y
Reach-Accounted places max_waiting y r = (Reach-both places max_waiting y r).1
