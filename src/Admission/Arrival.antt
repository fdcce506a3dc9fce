-- ===== src/Admission/Arrival.antt =====
-- The queue is always in order of arrival, and at most one load runs.
use Prim.Native.String.{String}
use ai_lab.Common.{
  not, ◌||◌, ℕ, ◌+◌, ◌≡◌, refl, sym, ap, ◌∙◌, subst, Bool, true, false, Option, none, some, List,
  [], ◌∷◌, ◌++◌, if_cases, leb, arith, length, append-nil, append_assoc,
}
use ai_lab.Common.Subseq.{Subseq, Subseq-append, Subseq-nil, Subseq-refl}
use ai_lab.Admission.Parts.{
  Shape, Failure, abandoned, Waiting, Clients, QueueState, Switch, Rules, release,
}
use ai_lab.Admission.Planning.{is_empty, take_place, plan, admits_now, settle}
use ai_lab.Admission.Scheduler.{
  Scheduler, Entered, enter, leave, reset, adopt, forget_current, decide, conclude, any_held,
}
use ai_lab.Admission.System.{
  System, new_system, Step, enters, leaves, decides, concludes, resets, adopts, forgets,
  reconfigures, Reach, here, next, job_list, with_card,
}
use ai_lab.Admission.Told.{fail_all_only_tells, release_only_tells}
use ai_lab.Admission.Fairness.{IsServed, plan-IsServed, waiting_for}
use ai_lab.Admission.Loads.{Loads, plan-Loads, plan_loading, settle-GivesBack}
use ai_lab.Admission.Ascending.{Ascends, Ascends-Subseq, Ascends-snoc, Ascends-behind}

-- Either nothing loads, or one job does; and the requests of that job and then the queue, as they
-- stand, are in order of arrival, all numbered below the next number.
pub data InOrder (y : System) : Type 0 where
  quiet :
      y.jobs ≡ []
      → y.scheduler.card.switching ≡ false
      → Ascends 1 y.scheduler.next_number y.scheduler.card.queue
      → InOrder y
  loads :
      (job : Switch)
      → y.jobs ≡ job ∷ []
      → y.scheduler.card.switching ≡ true
      → Ascends 1 y.scheduler.next_number (job.photograph ++ y.scheduler.card.queue)
      → InOrder y

-- An operation that leaves the loads alone and the queue as it is or less.
InOrder-less :
    (y : System) (card : QueueState)
    → card.switching ≡ y.scheduler.card.switching
    → Subseq card.queue y.scheduler.card.queue
    → InOrder y
    → InOrder (with_card y card)
InOrder-less y card same sub (quiet e idle a) = quiet e (same ∙ idle) (Ascends-Subseq _ _ sub a)
InOrder-less y card same sub (loads job e busy a) =
    loads job e (same ∙ busy)
      (Ascends-Subseq _ _ (Subseq-append (Subseq-refl job.photograph) sub) a)

InOrder-same :
    (y : System) (card : QueueState)
    → card.switching ≡ y.scheduler.card.switching
    → card.queue ≡ y.scheduler.card.queue
    → InOrder y
    → InOrder (with_card y card)
InOrder-same y card same e =
    InOrder-less y card same (subst (λ q. Subseq q y.scheduler.card.queue) (sym e) (Subseq-refl _))

enter-InOrder :
    (y : System) (rules : Rules) (asks : Clients) (now : ℕ) (shape : Shape) (w : Bool)
    → InOrder y
    → InOrder (record y { scheduler = (enter rules now asks shape w y.scheduler).1 })
unfolding enter
enter-InOrder y rules asks now shape w h =
    if_cases (λ (t : Entered × Scheduler). InOrder (record y { scheduler = t.1 }))
      (admits_now rules asks now y.scheduler.card shape)
      (λ _. InOrder-same y (take_place now shape y.scheduler.card) refl refl h)
      (λ _.
        if_cases (λ (t : Entered × Scheduler). InOrder (record y { scheduler = t.1 }))
          (leb y.scheduler.max_waiting (length y.scheduler.card.queue)) (λ _. h) (λ _. longer h))
  where
    longer :
        InOrder y
        → InOrder (record y {
          scheduler = record (y.scheduler) {
            card = record (y.scheduler.card) {
              queue =
                  y.scheduler.card.queue
                  ++ record {
                    number = y.scheduler.next_number;
                    shape = shape;
                    arrived = now;
                    still_wanted = w;
                  }
                    ∷ [];
            };
            next_number = y.scheduler.next_number + 1;
          };
        })
    longer (quiet e idle a) = quiet e idle (Ascends-snoc _ _ _ _ refl a)
    longer (loads job e busy a) =
        loads job e busy (rw (← append_assoc) (Ascends-snoc _ _ _ _ refl a))

decided : System → QueueState × List Waiting × Option Switch → System
decided y (s, ready, job) = record (with_card y (release ready s)) { jobs = y.jobs ++ job_list job }

served-Ascends :
    (n : ℕ) (before s : QueueState) (ready run : List Waiting)
    → IsServed before s (ready ++ run)
    → Ascends 1 n before.queue
    → Ascends 1 n (run ++ s.queue)
served-Ascends n before s ready run v a = Ascends-behind 1 n ready (run ++ s.queue) (
    rw append_assoc at
      (Ascends-Subseq 1 n (Subseq-append v.ordered (Subseq-refl s.queue)) (rw v.split at a)))

queue-release : (es : List Waiting) (s : QueueState) → (release es s).queue ≡ s.queue
queue-release es s = ap (λ (t : QueueState). t.queue) (release_only_tells es s)

switching-release : (es : List Waiting) (s : QueueState) → (release es s).switching ≡ s.switching
switching-release es s = ap (λ (t : QueueState). t.switching) (release_only_tells es s)

decide-quiet :
    (y : System) (r : QueueState × List Waiting × Option Switch)
    → y.jobs ≡ []
    → y.scheduler.card.switching ≡ false
    → Loads y.scheduler.card.switching r
    → IsServed y.scheduler.card r.0 (r.1 ++ waiting_for r.2)
    → Ascends 1 y.scheduler.next_number y.scheduler.card.queue
    → InOrder (decided y r)
unfolding decided
decide-quiet y (s, ready, none) e idle l v a =
    quiet (append-nil y.jobs ∙ e) (switching-release ready s ∙ l ∙ idle)
      (rw (queue-release ready s) (served-Ascends _ _ s ready [] v a))
decide-quiet y (s, ready, some job) e idle l v a =
    loads job (ap (λ l. l ++ job ∷ []) e) (switching-release ready s ∙ l.1)
      (rw (queue-release ready s) (served-Ascends _ _ s ready job.photograph v a))

decide-InOrder :
    (y : System) (rules : Rules) (asks : Clients) (now : ℕ)
    → InOrder y
    → InOrder (record (with_card y (decide rules asks now y.scheduler.card).0) {
      jobs = y.jobs ++ job_list (decide rules asks now y.scheduler.card).1;
    })
unfolding decide decided release
decide-InOrder y rules asks now (quiet e idle a) =
    decide-quiet y (plan rules asks now y.scheduler.card) e idle
      (plan-Loads rules asks now y.scheduler.card) (plan-IsServed rules asks now y.scheduler.card) a
decide-InOrder y rules asks now (loads job e busy a) =
    subst (λ r. InOrder (decided y r)) (sym (plan_loading rules asks now y.scheduler.card busy))
      (loads job (append-nil y.jobs ∙ e) busy a)

only_job :
    (before after : List Switch) (job other : Switch)
    → before ++ job ∷ after ≡ other ∷ []
    → (before ++ after ≡ []) × (job ≡ other)
only_job [] after job other e = (cc, cc)
only_job (x ∷ []) after job other e = absurd (cc)
only_job (x ∷ y ∷ xs) after job other e = absurd (cc)

not_empty : (before after : List Switch) (job : Switch) → before ++ job ∷ after ≡ [] → ⊥
not_empty [] after job e = cc
not_empty (x ∷ xs) after job e = cc

conclude-InOrder :
    (y : System) (rules : Rules) (before : List Switch) (job : Switch) (after : List Switch)
    (asks : Clients) (now : ℕ) (failure : Option Failure)
    → y.jobs ≡ before ++ job ∷ after
    → InOrder y
    → InOrder (record (with_card y (conclude rules asks now job failure y.scheduler.card)) {
      jobs = before ++ after;
    })
unfolding conclude
conclude-InOrder y rules before job after asks now failure e (quiet none_runs _ _) =
    absurd (not_empty before after job (sym e ∙ none_runs))
conclude-InOrder y rules before job after asks now failure e (loads other one busy a) =
    let (none_left, same) = only_job before after job other (sym e ∙ one) in
    let (ready, s') = settle rules asks now y.scheduler.card job failure in
    let (back, split, sub, ends) = settle-GivesBack rules asks now y.scheduler.card job failure in
    quiet none_left (switching-release ready s' ∙ ends) (
      rw (queue-release ready s', split)
        (Ascends-Subseq 1 _ (Subseq-append sub (Subseq-refl y.scheduler.card.queue))
          (rw (← same) at a)))

reset-InOrder :
    (y : System) (reason : String)
    → InOrder y
    → InOrder (with_card y (reset reason y.scheduler.card).1)
unfolding reset
reset-InOrder y reason h =
    InOrder-less y _
      (ap (λ (t : QueueState). t.switching)
        (fail_all_only_tells (abandoned reason) y.scheduler.card.queue _))
      (subst (λ q. Subseq q y.scheduler.card.queue)
        (sym (
          ap (λ (t : QueueState). t.queue)
            (fail_all_only_tells (abandoned reason) y.scheduler.card.queue _)))
        (Subseq-nil y.scheduler.card.queue))
      h

adopt-InOrder :
    (y : System) (now : ℕ) (shapes : List Shape)
    → InOrder y
    → InOrder (with_card y (adopt now shapes y.scheduler.card))
unfolding adopt
adopt-InOrder y now shapes h =
    if_cases (λ c. InOrder (with_card y c))
      (any_held y.scheduler.card.loaded
        || not (is_empty y.scheduler.card.queue)
        || y.scheduler.card.switching)
      (λ _. h) (λ _. InOrder-same y _ refl refl h)

Step-InOrder : {places : Shape → ℕ} {y z : System} → Step places y z → InOrder y → InOrder z
unfolding leave forget_current
Step-InOrder (enters y asks now shape w) h = enter-InOrder y _ asks now shape w h
Step-InOrder (leaves y shape) h = InOrder-same y _ refl refl h
Step-InOrder (decides y room asks now) h = decide-InOrder y _ asks now h
Step-InOrder (concludes y before job after asks now failure e) h =
    conclude-InOrder y _ before job after asks now failure e h
Step-InOrder (resets y reason) h = reset-InOrder y reason h
Step-InOrder (adopts y now shapes) h = adopt-InOrder y now shapes h
Step-InOrder (forgets y) h = InOrder-same y _ refl refl h
Step-InOrder (reconfigures y n) (quiet e idle a) = quiet e idle a
Step-InOrder (reconfigures y n) (loads job e busy a) = loads job e busy a

-- After any interleaving from a new scheduler, at most one load runs, `switching` says whether one
-- does, and the requests it runs for, followed by the queue, stand in order of arrival: each
-- number is greater than the one before it and below the next number to be given.
pub Reach-InOrder :
    (places : Shape → ℕ) (max_waiting : ℕ) (y : System)
    → Reach places (new_system max_waiting) y
    → InOrder y
Reach-InOrder places max_waiting y here = quiet refl refl (omega arith)
Reach-InOrder places max_waiting y (next r st) =
    Step-InOrder st (Reach-InOrder places max_waiting _ r)
