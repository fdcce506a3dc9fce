-- ===== src/Admission/Loads.antt =====
-- Which calls of the scheduler start a load, and what a load that ends does to the queue.
use ai_lab.Common.{
  ℕ, ◌≡◌, refl, sym, ap, ◌∙◌, Bool, true, false, Option, none, some, List, [], ◌∷◌, ◌++◌, if_cases,
  leb, eqb, nat_key,
}
use ai_lab.Common.Subseq.{Subseq, done, kept, skipped, Subseq-nil}
use ai_lab.Admission.Parts.{
  Shape, Failure, Waiting, Clients, QueueState, Switch, Rules, count_of, fail, is_gone, drop_gone,
}
use ai_lab.Admission.Planning.{
  take_place, Round, stop, round, plan_loop, plan, admit_run, take_off, publish, settle, load_done,
}
use ai_lab.Admission.Runs.{take_run-switching}
use ai_lab.Admission.Rounds.{
  Outcome, blocked, left, admitted, refused, run_left, started, Result, After,
}
use ai_lab.Admission.Loop.{plan_rule}
use ai_lab.Admission.Told.{fail_all_only_tells}

-- A load is started only where none runs, and then one runs; else nothing changes in that.
abbrev pub Loads : Bool → Result → Type 0
Loads before (s, ready, none) = s.switching ≡ before
Loads before (s, ready, some job) = (before ≡ false) × (s.switching ≡ true)

module _ (rules : Rules) (asks : Clients) (now : ℕ) where
  abbrev Same : Bool → QueueState → List Waiting → Type 0
  Same before s ready = s.switching ≡ before

  each_round :
      (before : Bool) (s : QueueState) (ready : List Waiting) (head : Waiting) (rest : List Waiting)
      (r : Round)
      → Same before s ready
      → s.queue ≡ head ∷ rest
      → Outcome rules asks now s head rest ready r
      → After (Same before) (Loads before) s ready r
  unfolding drop_gone fail take_place
  each_round before s ready head rest r h e (blocked _) = h
  each_round before s ready head rest r h e (left _) = h
  each_round before s ready head rest r h e (admitted _ _ _ _) = h
  each_round before s ready head rest r h e (refused _ _ _) = h
  each_round before s ready head rest r h e (run_left _ _) =
      take_run-switching asks head.shape (head ∷ rest) s ∙ h
  each_round before s ready head rest r h e (started _ _ _ idle _ _ _ _) = (sym h ∙ idle, refl)

  pub plan-Loads : (s : QueueState) → Loads s.switching (plan rules asks now s)
  plan-Loads s =
      plan_rule rules asks now (Same s.switching) (Loads s.switching) (λ s' _ h _. h)
        (each_round s.switching) s refl

  round_loading :
      (s : QueueState) (es ready : List Waiting)
      → s.switching ≡ true
      → round rules asks now s es ready ≡ stop
  unfolding round
  round_loading s [] ready h = refl
  round_loading s (head ∷ rest) ready h = simp h

  -- While a load runs, planning does nothing.
  pub plan_loading : (s : QueueState) → s.switching ≡ true → plan rules asks now s ≡ (s, [], none)
  unfolding plan plan_loop
  plan_loading s h = rw (round_loading s s.queue [] h, plan_loop)

  -- The overflow is left of the run, and everybody else of it goes in or is told.
  pub admit_run-overflow :
      (shape : Shape) (room : ℕ) (es : List Waiting) (s : QueueState)
      → Subseq (admit_run rules asks now shape room es s).1 es
        × ((admit_run rules asks now shape room es s).2.queue ≡ s.queue)
        × ((admit_run rules asks now shape room es s).2.switching ≡ s.switching)
  unfolding admit_run drop_gone fail take_place
  admit_run-overflow shape room [] s = (done, refl, refl)
  admit_run-overflow shape room (e ∷ es) s =
      if_cases
        (λ (t : List Waiting × List Waiting × QueueState).
          Subseq t.1 (e ∷ es) × (t.2.queue ≡ s.queue) × (t.2.switching ≡ s.switching))
        (is_gone asks e)
        (λ _. let r = admit_run-overflow shape room es (drop_gone e s) in (skipped e r.0, r.1, r.2))
        λ _.
          if_cases
            (λ (t : List Waiting × List Waiting × QueueState).
              Subseq t.1 (e ∷ es) × (t.2.queue ≡ s.queue) × (t.2.switching ≡ s.switching))
            (leb room (count_of shape s.loaded))
            (λ _. let r = admit_run-overflow shape room es s in (kept e r.0, r.1, r.2))
            (λ _.
              let r = admit_run-overflow shape room es (take_place now shape s) in
              (skipped e r.0, r.1, r.2))

  pub take_off-queue :
      (victims : List Shape) (s : QueueState) → (take_off rules asks now victims s).queue ≡ s.queue
  unfolding take_off
  take_off-queue [] s = refl
  take_off-queue (v ∷ vs) s = take_off-queue vs _

  pub take_off-switching :
      (victims : List Shape) (s : QueueState)
      → (take_off rules asks now victims s).switching ≡ s.switching
  unfolding take_off
  take_off-switching [] s = refl
  take_off-switching (v ∷ vs) s = take_off-switching vs _

  -- What a load that ends gives back to the queue.
  abbrev pub GivesBack : Switch → QueueState → Bool → List Waiting × QueueState → Type 0
  GivesBack job s loading (ready, s') =
      (back : List Waiting) × (s'.queue ≡ back ++ s.queue)
      × Subseq back job.photograph
      × (s'.switching ≡ loading)

  publish-GivesBack :
      (job : Switch) (failure : Option Failure) (s : QueueState)
      → GivesBack job s s.switching (publish rules asks now job failure s)
  unfolding publish
  publish-GivesBack job (some failure) s = (
    [],
    ap (λ (t : QueueState). t.queue) (fail_all_only_tells failure job.photograph s),
    Subseq-nil job.photograph,
    ap (λ (t : QueueState). t.switching) (fail_all_only_tells failure job.photograph s),
  )
  publish-GivesBack job none s =
      let s' = load_done rules asks now job s in
      let (ready, overflow, after) =
        admit_run rules asks now job.shape (rules.places job.shape) job.photograph s' in
      let r = admit_run-overflow job.shape (rules.places job.shape) job.photograph s' in
      (overflow, ap (λ q. overflow ++ q) r.1, r.0, r.2)

  pub settle-GivesBack :
      (s : QueueState) (job : Switch) (failure : Option Failure)
      → GivesBack job s false (settle rules asks now s job failure)
  unfolding settle
  settle-GivesBack s job failure =
      let s' = record s { switching = false } in
      if_cases (GivesBack job s false) (eqb job.epoch s.epoch)
        (λ _.
          let (back, e, sub, l) =
            publish-GivesBack job failure (take_off rules asks now job.victims s') in
          (
            back,
            rw (take_off-queue job.victims s') at e,
            sub,
            l ∙ take_off-switching job.victims s',
          ))
        (λ _. (
          [],
          ap (λ (t : QueueState). t.queue) (fail_all_only_tells _ job.photograph s'),
          Subseq-nil job.photograph,
          ap (λ (t : QueueState). t.switching) (fail_all_only_tells _ job.photograph s'),
        ))
