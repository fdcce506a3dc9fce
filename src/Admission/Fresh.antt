-- ===== src/Admission/Fresh.antt =====
-- A load that starts takes its run off the queue, and what comes back is only what the model that
-- was loaded has no place for.
use ai_lab.Common.{
  ℕ, ◌+◌, ◌≤◌, ◌<◌, ◌≡◌, refl, sym, ap, ◌∙◌, subst, true, false, Option, none, some, List, [], ◌∷◌,
  ◌++◌, if_cases, leb, eqb, eqb_iff, arith, nat_key, length, length-append, keep, All, ◌⊎◌, inl,
  inr, length-keep-le,
}
use ai_lab.Common.Dict.{get, get-put}
use ai_lab.Admission.Parts.{
  Shape, Failure, Verdict, Waiting, Clients, QueueState, Switch, Rules, count_of, is_some, fail,
  release, is_gone, drop_gone,
}
use ai_lab.Admission.Planning.{
  take_place, take_run, Round, plan, admit_run, take_off, publish, settle, load_done,
}
use ai_lab.Admission.Scheduler.{conclude}
use ai_lab.Admission.Counts.{count_of-put}
use ai_lab.Admission.Runs.{
  run_of, behind, is_here, run_of-append-behind, take_run-photograph, take_run-queue,
}
use ai_lab.Admission.Rounds.{
  Outcome, blocked, left, admitted, refused, run_left, started, Result, After,
}
use ai_lab.Admission.Loop.{plan_rule, Outcome-Shorter}
use ai_lab.Admission.Loads.{admit_run-overflow, take_off-queue, take_off-switching}
use ai_lab.Admission.Told.{fail_all_only_tells, release_only_tells}

abbrev AllOf : Shape → List Waiting → Type 0
AllOf shape = All (λ e. e.shape ≡ shape)

run_of-AllOf :
    (asks : Clients) (shape : Shape) (es : List Waiting)
    → AllOf shape (keep (is_here asks) (run_of shape es))
unfolding run_of
run_of-AllOf asks shape [] = tt
run_of-AllOf asks shape (e ∷ es) = ground (arith, eqb_iff e.shape shape, run_of-AllOf asks shape es)

-- The photograph and what is left are no longer than the queue was.
pub record IsRun (bound : ℕ) (s : QueueState) (job : Switch) : Type 0 where
  pub fewer : length job.photograph + length s.queue ≤ bound
  pub someone : 0 < length job.photograph
  pub one_shape : AllOf job.shape job.photograph

module _ (rules : Rules) (asks : Clients) (now : ℕ) (bound : ℕ) where
  abbrev Carried : QueueState → List Waiting → Type 0
  Carried s ready = length s.queue ≤ bound

  abbrev pub Ended : Result → Type 0
  Ended (s, ready, none) = Unit {0}
  Ended (s, ready, some job) = IsRun bound s job

  started-IsRun :
      (s : QueueState) (head : Waiting) (rest : List Waiting) (first : Waiting)
      (more : List Waiting)
      → length (head ∷ rest) ≤ bound
      → (take_run asks head.shape (head ∷ rest) s).0 ≡ first ∷ more
      → (length (first ∷ more) + length (take_run asks head.shape (head ∷ rest) s).1.queue ≤ bound)
        × AllOf head.shape (first ∷ more)
  started-IsRun s head rest first more h run =
      let es = head ∷ rest in
      let photo = sym run ∙ take_run-photograph asks head.shape es s in
      (
        rw (take_run-queue asks head.shape es s) (
            omega (
              arith,
              ap length photo,
              length-keep-le (is_here asks) (run_of head.shape es),
              ap length (run_of-append-behind head.shape es),
              length-append (run_of head.shape es) (behind head.shape es),
            )),
        subst (AllOf head.shape) (sym photo) (run_of-AllOf asks head.shape es),
      )

  each_round :
      (s : QueueState) (ready : List Waiting) (head : Waiting) (rest : List Waiting) (r : Round)
      → Carried s ready
      → s.queue ≡ head ∷ rest
      → Outcome rules asks now s head rest ready r
      → After Carried Ended s ready r
  unfolding drop_gone fail take_place
  each_round s ready head rest r h e (blocked _) = tt
  each_round s ready head rest r h e (left _) = omega (arith, ap length e)
  each_round s ready head rest r h e (admitted _ _ _ _) = omega (arith, ap length e)
  each_round s ready head rest r h e (refused _ _ _) = omega (arith, ap length e)
  each_round s ready head rest r h e (run_left idle none_left) = omega (
    arith,
    ap length e,
    Outcome-Shorter rules asks now s head rest ready (run_left idle none_left),
  )
  each_round s ready head rest r h e (started _ first more _ _ _ _ run) =
      let (fewer, same) = started-IsRun s head rest first more (omega (arith, ap length e)) run in
      record { fewer = fewer; someone = omega arith; one_shape = same }

pub plan-IsRun :
    (rules : Rules) (asks : Clients) (now : ℕ) (s : QueueState)
    → Ended rules asks now (length s.queue) (plan rules asks now s)
plan-IsRun rules asks now s =
    plan_rule rules asks now (Carried rules asks now (length s.queue))
      (Ended rules asks now (length s.queue)) (λ _ _ _ _. tt)
      (each_round rules asks now (length s.queue)) s (omega arith)

module _ (rules : Rules) (asks : Clients) (now : ℕ) (shape : Shape) where
  take_place-counts :
      (s : QueueState)
      → (count_of shape (take_place now shape s).loaded ≡ count_of shape s.loaded + 1)
        × (is_some (get shape (take_place now shape s).loaded) ≡ true)
  unfolding take_place
  take_place-counts s = (
    ground (
      arith,
      count_of-put shape shape (count_of shape s.loaded + 1) s.loaded,
      eqb_iff shape shape,
    ),
    ground (arith, get-put shape shape (count_of shape s.loaded + 1) s.loaded, eqb_iff shape shape),
  )

  -- The count of the shape never falls, and if anybody is left over then every place is taken.
  abbrev Fills : ℕ → QueueState → List Waiting × List Waiting × QueueState → Type 0
  Fills room s (ready, overflow, s') =
      (count_of shape s.loaded ≤ count_of shape s'.loaded)
      × (is_some (get shape s.loaded) ≡ true → is_some (get shape s'.loaded) ≡ true)
      × AllOf shape overflow
      × ((overflow ≡ []) ⊎ (room ≤ count_of shape s'.loaded))

  admit_run-Fills :
      (room : ℕ) (es : List Waiting) (s : QueueState)
      → AllOf shape es
      → Fills room s (admit_run rules asks now shape room es s)
  unfolding admit_run drop_gone fail
  admit_run-Fills room [] s h = (omega arith, λ e. e, tt, inl refl)
  admit_run-Fills room (e ∷ es) s h =
      if_cases (Fills room s) (is_gone asks e) (λ _. admit_run-Fills room es (drop_gone e s) h.1)
        λ _.
          if_cases (Fills room s) (leb room (count_of shape s.loaded))
            (λ no_room.
              let r = admit_run-Fills room es s h.1 in
              (r.0, r.1, (h.0, r.2), inr (ground (arith, r.0))))
            (λ _.
              let p = take_place-counts s in
              let r = admit_run-Fills room es (take_place now shape s) h.1 in
              (omega (arith, p.0, r.0), λ _. r.1 p.1, r.2, r.3))

  load_done-loaded :
      (job : Switch) (s : QueueState)
      → is_some (get job.shape (load_done rules asks now job s).loaded) ≡ true
  load_done-loaded job s =
      ground (arith, get-put job.shape job.shape 0 s.loaded, eqb_iff job.shape job.shape)

-- What `_pump` finds after a load: a shorter queue, or a head whose model is loaded and full.
pub data Fresh (rules : Rules) (bound : ℕ) (s : QueueState) : Type 0 where
  shorter : length s.queue < bound → Fresh rules bound s
  stuck :
      (head : Waiting) (rest : List Waiting)
      → s.queue ≡ head ∷ rest
      → s.switching ≡ false
      → is_some (get head.shape s.loaded) ≡ true
      → rules.places head.shape ≤ count_of head.shape s.loaded
      → Fresh rules bound s

Fresh-front :
    (rules : Rules) (bound : ℕ) (s s' : QueueState) (shape : Shape) (front : List Waiting)
    → s'.queue ≡ front ++ s.queue
    → s'.switching ≡ false
    → length s.queue < bound
    → AllOf shape front
    → is_some (get shape s'.loaded) ≡ true
    → (front ≡ []) ⊎ (rules.places shape ≤ count_of shape s'.loaded)
    → Fresh rules bound s'
Fresh-front rules bound s s' shape [] e idle less same there room =
    shorter (omega (arith, ap length e))
Fresh-front rules bound s s' shape (x ∷ front) e idle less same there (inl none_left) = absurd (cc)
Fresh-front rules bound s s' shape (x ∷ front) e idle less same there (inr room) =
    stuck x (front ++ s.queue) e idle (rw (same.0) there) (rw (same.0) room)

Fresh-told :
    (rules : Rules) (bound : ℕ) (s : QueueState) (told : List (ℕ × Verdict))
    → Fresh rules bound s
    → Fresh rules bound (record s { told = told })
Fresh-told rules bound s told (shorter h) = shorter h
Fresh-told rules bound s told (stuck head rest e idle there room) =
    stuck head rest e idle there room

module _ (rules : Rules) (asks : Clients) (now bound : ℕ) (job : Switch) where
  publish-Fresh :
      (failure : Option Failure) (s : QueueState)
      → length s.queue < bound
      → s.switching ≡ false
      → AllOf job.shape job.photograph
      → Fresh rules bound (publish rules asks now job failure s).1
  unfolding publish
  publish-Fresh (some failure) s less idle same =
      rw (fail_all_only_tells failure job.photograph s) (Fresh-told rules bound s _ (shorter less))
  publish-Fresh none s less idle same =
      let s' = load_done rules asks now job s in
      let (overflow, queue, switching) =
        admit_run-overflow rules asks now job.shape (rules.places job.shape) job.photograph s' in
      let fills =
        admit_run-Fills rules asks now job.shape (rules.places job.shape) job.photograph s' same in
      let (ready, back, after) =
        admit_run rules asks now job.shape (rules.places job.shape) job.photograph s' in
      Fresh-front rules bound s (record after { queue = back ++ after.queue }) job.shape back
        (ap (λ q. back ++ q) queue) (switching ∙ idle) less fills.2
        (fills.1 (load_done-loaded rules asks now job.shape job s)) fills.3

  settle-Fresh :
      (failure : Option Failure) (s : QueueState)
      → length s.queue < bound
      → AllOf job.shape job.photograph
      → Fresh rules bound (settle rules asks now s job failure).1
  unfolding settle
  settle-Fresh failure s less same =
      let s' = record s { switching = false } in
      if_cases (λ (t : List Waiting × QueueState). Fresh rules bound t.1) (eqb job.epoch s.epoch)
        (λ _.
          publish-Fresh failure (take_off rules asks now job.victims s')
            (omega (arith, ap length (take_off-queue rules asks now job.victims s')))
            (take_off-switching rules asks now job.victims s') same)
        (λ _.
          rw (fail_all_only_tells _ job.photograph s') (Fresh-told rules bound s' _ (shorter less)))

  pub conclude-Fresh :
      (failure : Option Failure) (s : QueueState)
      → length s.queue < bound
      → AllOf job.shape job.photograph
      → Fresh rules bound (conclude rules asks now job failure s)
  unfolding conclude
  conclude-Fresh failure s less same =
      let (ready, s') = settle rules asks now s job failure in
      rw (release_only_tells ready s')
        (Fresh-told rules bound s' (release ready s').told (settle-Fresh failure s less same))
