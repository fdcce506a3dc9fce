-- ===== src/Admission/Settling.antt =====
-- What the end of a load does: `Planner.settle` on each of its branches.
use ai_lab.Common.{
  ℕ, zero, suc, ◌+◌, ◌≡◌, refl, sym, ap, ◌∙◌, ◌≢◌, Bool, true, false, Option, none, some, List, [],
  ◌∷◌, ◌++◌, map, append_assoc, if◌then◌else◌, if_cases, leb, eqb, eqb_iff, arith, nat_key, length,
  keep, take, drop,
}
use mathlib.Core.Path.{ap₂}
use mathlib.Core.List.{reverse, reverse-cons, map-append}
use ai_lab.Common.Dict.{get, pop, get-pop}
use ai_lab.Admission.Parts.{
  Shape, Failure, abandoned, Verdict, refused, Waiting, Clients, QueueState, Switch, Rules,
  count_of, fail, fail_all, is_gone, drop_gone, stopped_while_loading,
}
use ai_lab.Admission.Planning.{take_place, admit_run, take_off, publish, settle, load_done, or_else}
use ai_lab.Admission.Counts.{count_of-put}
use ai_lab.Admission.Runs.{is_here}
use ai_lab.Admission.Loads.{admit_run-overflow, take_off-queue}

-- The trace when each of these is refused for `f`, the last of them newest.
abbrev pub refusals : Failure → List Waiting → List (ℕ × Verdict)
refusals f es = map (λ e. (e.number, refused f)) (reverse es)

refusals-cons :
    (f : Failure) (e : Waiting) (es : List Waiting) (told : List (ℕ × Verdict))
    → refusals f (e ∷ es) ++ told ≡ refusals f es ++ (e.number, refused f) ∷ told
refusals-cons f e es told =
    rw
      (
        reverse-cons e es,
        map-append {B = ℕ × Verdict} (λ (x : Waiting). (x.number, refused f)) (reverse es) (e ∷ []),
      )
      (append_assoc (refusals f es) ((e.number, refused f) ∷ []) told)

fail_all_refuses :
    (f : Failure) (es : List Waiting) (s : QueueState)
    → fail_all f es s ≡ record s { told = refusals f es ++ s.told }
unfolding fail_all fail
fail_all_refuses f [] s = refl
fail_all_refuses f (e ∷ es) s =
    fail_all_refuses f es (fail f e s)
    ∙ ap (λ t. record s { told = t }) (sym (refusals-cons f e es s.told))

pub take_off-told :
    (rules : Rules) (asks : Clients) (now : ℕ) (victims : List Shape) (s : QueueState)
    → ((take_off rules asks now victims s).told ≡ s.told)
      × ((take_off rules asks now victims s).epoch ≡ s.epoch)
unfolding take_off
take_off-told rules asks now [] s = (refl, refl)
take_off-told rules asks now (v ∷ vs) s = take_off-told rules asks now vs _

-- A shape is off if it is one of the victims, and stays as it was if it is not.
abbrev pub member : Shape → List Shape → Bool
member j [] = false
member j (v ∷ vs) = let later = member j vs in if eqb v j then true else later

take_off-get :
    (rules : Rules) (asks : Clients) (now : ℕ) (j : Shape) (victims : List Shape) (s : QueueState)
    → get j (take_off rules asks now victims s).loaded
      ≡ (if member j victims then none else get j s.loaded)
unfolding take_off
take_off-get rules asks now j [] s = refl
take_off-get rules asks now j (v ∷ vs) s = ground (
  arith,
  take_off-get rules asks now j vs
      (record s { loaded = pop v s.loaded; last_used = pop v s.last_used }),
  get-pop v j s.loaded,
  eqb_iff v j,
)

take_off-count :
    (rules : Rules) (asks : Clients) (now : ℕ) (j : Shape) (victims : List Shape) (s : QueueState)
    → count_of j (take_off rules asks now victims s).loaded
      ≡ (if member j victims then 0 else count_of j s.loaded)
unfolding count_of
take_off-count rules asks now j victims s = ground (arith, take_off-get rules asks now j victims s)

module _ (rules : Rules) (asks : Clients) (now : ℕ) where
  -- A load decided before a reset: the card and the queue are left as the reset made them, nobody
  -- goes in, and each request that it ran for is told the failure of the load, or that everything
  -- was stopped.
  pub settle_stale :
      (s : QueueState) (job : Switch) (failure : Option Failure)
      → job.epoch ≢ s.epoch
      → settle rules asks now s job failure ≡ (
        [],
        record s {
          switching = false;
          told =
              refusals (or_else failure (abandoned stopped_while_loading)) job.photograph ++ s.told;
        },
      )
  unfolding settle
  settle_stale s job failure stale =
      if_cases
        (λ (t : List Waiting × QueueState). t ≡ (
          [],
          record s {
            switching = false;
            told =
                refusals (or_else failure (abandoned stopped_while_loading)) job.photograph
                ++ s.told;
          },
        ))
        (eqb job.epoch s.epoch) (λ e. absurd (stale ((eqb_iff _ _).0 e)))
        (λ _. ap (λ (t : QueueState). ([], t)) (fail_all_refuses _ job.photograph _))

  -- A load that failed: the victims are off all the same, every other shape is as it was, nobody
  -- goes in, the queue is as it was and each request that it ran for is told why it failed.
  pub settle_failed :
      (s : QueueState) (job : Switch) (f : Failure) (j : Shape)
      → job.epoch ≡ s.epoch
      → let (ready, s') = settle rules asks now s job (some f) in
        (ready ≡ [])
        × (s'.queue ≡ s.queue)
        × (get j s'.loaded ≡ (if member j job.victims then none else get j s.loaded))
        × (s'.told ≡ refusals f job.photograph ++ s.told)
  unfolding settle publish
  settle_failed s job f j same =
      let s' = record s { switching = false } in
      let off = take_off rules asks now job.victims s' in
      if_cases
        (λ (t : List Waiting × QueueState).
          (t.0 ≡ [])
          × (t.1.queue ≡ s.queue)
          × (get j t.1.loaded ≡ (if member j job.victims then none else get j s.loaded))
          × (t.1.told ≡ refusals f job.photograph ++ s.told))
        (eqb job.epoch s.epoch)
        (λ _. rw (fail_all_refuses f job.photograph off) (
          refl,
          take_off-queue rules asks now job.victims s',
          take_off-get rules asks now j job.victims s',
          ap (λ t. refusals f job.photograph ++ t) (take_off-told rules asks now job.victims s').0,
        ))
        (λ e. absurd (cc (e, (eqb_iff job.epoch s.epoch).1 same)))

  abbrev Splits :
      Shape → ℕ → List Waiting → QueueState → List Waiting × List Waiting × QueueState → Type 0
  Splits shape n es s (ready, back, s') =
      (ready ≡ take n (keep (is_here asks) es))
      × (back ≡ drop n (keep (is_here asks) es))
      × ((j : Shape)
          → count_of j s'.loaded
            ≡ (if eqb shape j then count_of shape s.loaded + length ready else count_of j s.loaded))

  here_cons :
      (e : Waiting) (es : List Waiting)
      → is_gone asks e ≡ false
      → keep (is_here asks) (e ∷ es) ≡ e ∷ keep (is_here asks) es
  here_cons e es h = rw h

  gone_cons :
      (e : Waiting) (es : List Waiting)
      → is_gone asks e ≡ true
      → keep (is_here asks) (e ∷ es) ≡ keep (is_here asks) es
  gone_cons e es h = rw h

  take_place-count :
      (shape j : Shape) (s : QueueState)
      → count_of j (take_place now shape s).loaded
        ≡ (if eqb shape j then count_of shape s.loaded + 1 else count_of j s.loaded)
  unfolding take_place
  take_place-count shape j s = count_of-put shape j (count_of shape s.loaded + 1) s.loaded

  admit_run-Splits :
      (shape : Shape) (room n : ℕ) (es : List Waiting) (s : QueueState)
      → count_of shape s.loaded + n ≡ room
      → Splits shape n es s (admit_run rules asks now shape room es s)
  unfolding admit_run drop_gone fail
  admit_run-Splits shape room zero [] s h = (refl, refl, λ j. ground (arith, eqb_iff shape j))
  admit_run-Splits shape room (suc n) [] s h = (refl, refl, λ j. ground (arith, eqb_iff shape j))
  admit_run-Splits shape room zero (e ∷ es) s h =
      if_cases (Splits shape zero (e ∷ es) s) (is_gone asks e)
        (λ gone. rw (gone_cons e es gone) (admit_run-Splits shape room zero es (drop_gone e s) h))
        λ here.
          if_cases (Splits shape zero (e ∷ es) s) (leb room (count_of shape s.loaded))
            (λ _.
              rw (here_cons e es here) (
                let r = admit_run-Splits shape room zero es s h in (r.0, ap (λ l. e ∷ l) r.1, r.2)))
            (λ no_room. absurd (ground arith))
  admit_run-Splits shape room (suc n) (e ∷ es) s h =
      if_cases (Splits shape (suc n) (e ∷ es) s) (is_gone asks e)
        (λ gone.
          rw (gone_cons e es gone) (admit_run-Splits shape room (suc n) es (drop_gone e s) h))
        λ here.
          if_cases (Splits shape (suc n) (e ∷ es) s) (leb room (count_of shape s.loaded))
            (λ no_room. absurd (ground arith))
            (λ _. rw (here_cons e es here) (
              let r =
                admit_run-Splits shape room n es (take_place now shape s)
                  (ground (arith, take_place-count shape shape s, eqb_iff shape shape)) in
              (
                ap (λ l. e ∷ l) r.0,
                r.1,
                λ j. ground (
                  arith,
                  r.2 j,
                  take_place-count shape j s,
                  take_place-count shape shape s,
                  eqb_iff shape shape,
                  eqb_iff shape j,
                ),
              )))

  -- A load that worked: of the requests it ran for whose clients are still there, as many as the
  -- model has places go in, the oldest first; the others go back to the front of the queue in their
  -- order. The shape then counts those let in, a victim counts nothing, and any other shape what
  -- it did before.
  pub settle_loaded :
      (s : QueueState) (job : Switch) (j : Shape)
      → job.epoch ≡ s.epoch
      → let (ready, s') = settle rules asks now s job none in
        let here = keep (is_here asks) job.photograph in
        (ready ≡ take (rules.places job.shape) here)
        × (s'.queue ≡ drop (rules.places job.shape) here ++ s.queue)
        × (count_of j s'.loaded ≡ (
            if eqb job.shape j
            then length ready
            else if member j job.victims
            then 0
            else count_of j s.loaded))
  unfolding settle publish
  settle_loaded s job j same =
      let s' = record s { switching = false } in
      let off = take_off rules asks now job.victims s' in
      let on = load_done rules asks now job off in
      let (ready, back, after) =
        admit_run rules asks now job.shape (rules.places job.shape) job.photograph on in
      let here = keep (is_here asks) job.photograph in
      let (ready_is, back_is, counts) =
        admit_run-Splits job.shape (rules.places job.shape) (rules.places job.shape) job.photograph
          on
          (ground
            (arith, count_of-put job.shape job.shape 0 off.loaded, eqb_iff job.shape job.shape)) in
      if_cases
        (λ (t : List Waiting × QueueState).
          (t.0 ≡ take (rules.places job.shape) here)
          × (t.1.queue ≡ drop (rules.places job.shape) here ++ s.queue)
          × (count_of j t.1.loaded ≡ (
              if eqb job.shape j
              then length t.0
              else if member j job.victims
              then 0
              else count_of j s.loaded)))
        (eqb job.epoch s.epoch)
        (λ _. (
          ready_is,
          ap₂ (λ b q. b ++ q) back_is
              ((admit_run-overflow rules asks now job.shape (rules.places job.shape) job.photograph
                  on).1
                ∙ take_off-queue rules asks now job.victims s'),
          ground (
            arith,
            counts j,
            count_of-put job.shape j 0 off.loaded,
            count_of-put job.shape job.shape 0 off.loaded,
            take_off-count rules asks now j job.victims s',
            eqb_iff job.shape j,
            eqb_iff job.shape job.shape,
          ),
        ))
        (λ e. absurd (cc (e, (eqb_iff job.epoch s.epoch).1 same)))
