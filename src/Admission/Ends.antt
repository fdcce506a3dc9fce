-- ===== src/Admission/Ends.antt =====
-- The loop of `_pump` ends.
use ai_lab.Common.{
  ℕ, zero, suc, ◌+◌, ◌≤◌, ◌<◌, ◌≡◌, refl, ap, ◌∙◌, true, Option, none, some, List, [], ◌∷◌, arith,
  nat_key, length,
}
use ai_lab.Common.Dict.{get}
use ai_lab.Admission.Parts.{
  Verdict, Waiting, Clients, QueueState, Switch, Rules, count_of, is_some, release,
}
use ai_lab.Admission.Planning.{stop, round, plan_loop, plan, loaded_now}
use ai_lab.Admission.Scheduler.{Outside, pump, decide, conclude}
use ai_lab.Admission.Rounds.{loading, full, busy, Result}
use ai_lab.Admission.Told.{release_only_tells}
use ai_lab.Admission.Progress.{Settled, nobody, waits, plan-Settled}
use ai_lab.Admission.Fresh.{plan-IsRun, Fresh, shorter, stuck, conclude-Fresh, Ended}

round_full :
    (rules : Rules) (asks : Clients) (now : ℕ) (s : QueueState) (head : Waiting)
    (rest ready : List Waiting)
    → is_some (get head.shape s.loaded) ≡ true
    → rules.places head.shape ≤ count_of head.shape s.loaded
    → round rules asks now s (head ∷ rest) ready ≡ stop
unfolding round
round_full rules asks now s head rest ready there room = ground arith

plan_full :
    (rules : Rules) (asks : Clients) (now : ℕ) (s : QueueState) (head : Waiting)
    (rest : List Waiting)
    → s.queue ≡ head ∷ rest
    → is_some (get head.shape s.loaded) ≡ true
    → rules.places head.shape ≤ count_of head.shape s.loaded
    → plan rules asks now s ≡ (s, [], none)
unfolding plan plan_loop
plan_full rules asks now s head rest e there room = rw (
  ap (λ es. round rules asks now s es []) e ∙ round_full rules asks now s head rest [] there room,
  plan_loop,
)

decide_full :
    (rules : Rules) (asks : Clients) (now : ℕ) (s : QueueState) (head : Waiting)
    (rest : List Waiting)
    → s.queue ≡ head ∷ rest
    → is_some (get head.shape s.loaded) ≡ true
    → rules.places head.shape ≤ count_of head.shape s.loaded
    → decide rules asks now s ≡ (s, none)
unfolding decide release
decide_full rules asks now s head rest e there room =
    ap (λ (p : Result). (release p.1 p.0, p.2)) (plan_full rules asks now s head rest e there room)

Settled-told :
    (rules : Rules) (s : QueueState) (told : List (ℕ × Verdict))
    → Settled rules s
    → Settled rules (record s { told = told })
unfolding loaded_now
Settled-told rules s told (nobody e) = nobody e
Settled-told rules s told (waits head rest e (loading l)) = waits head rest e (loading l)
Settled-told rules s told (waits head rest e (full there room)) =
    waits head rest e (full there room)
Settled-told rules s told (waits head rest e (busy victims gone room held)) =
    waits head rest e (busy victims gone room held)

Settled-release :
    (rules : Rules) (s : QueueState) (es : List Waiting)
    → Settled rules s
    → Settled rules (release es s)
Settled-release rules s es h = rw (release_only_tells es s) (Settled-told rules s _ h)

length-release : (es : List Waiting) (s : QueueState) → length (release es s).queue ≡ length s.queue
length-release es s = ap (λ (t : QueueState). length t.queue) (release_only_tells es s)

-- What comes in all of so many rounds.
unfoldable pub total_below : (ℕ → ℕ) → ℕ → ℕ
total_below more zero = 0
total_below more (suc rounds) = total_below more rounds + more rounds

module _ (rules : Rules) (out : Outside) (now : ℕ) where
  -- The rounds suffice, and nothing more can happen without waiting.
  abbrev pub Ends : Option QueueState → Type 0
  Ends r = (s' : QueueState) × (r ≡ some s') × Settled rules s'

  after_plan :
      (rounds bound more : ℕ) (p : Result)
      → Ended rules (out.before rounds) now bound p
      → (p.2 ≡ none → Settled rules p.0)
      → ((t : QueueState) → length (out.between rounds t).queue ≤ length t.queue + more)
      → ((s' : QueueState) → Fresh rules (bound + more) s' → Ends (pump rules out now rounds s'))
      → Ends (elim p.2 [
        | none ↦ some (release p.1 p.0)
        | some job ↦ pump rules out now rounds (
            conclude rules
              (out.after rounds)
              now
              job
              (out.loads rounds)
              (out.between rounds (release p.1 p.0)))
      ])
  after_plan rounds bound more (s, ready, none) run settled comes ih =
      (release ready s, refl, Settled-release rules s ready (settled refl))
  after_plan rounds bound more (s, ready, some job) run settled comes ih = ih _ (
      conclude-Fresh rules (out.after rounds) now (bound + more) job (out.loads rounds)
        (out.between rounds (release ready s))
        (omega (arith, length-release ready s, run.fewer, run.someone, comes (release ready s)))
        run.one_shape)

  pump_stuck :
      (rounds : ℕ) (s : QueueState) (head : Waiting) (rest : List Waiting)
      → 0 < rounds
      → s.queue ≡ head ∷ rest
      → is_some (get head.shape s.loaded) ≡ true
      → rules.places head.shape ≤ count_of head.shape s.loaded
      → Ends (pump rules out now rounds s)
  unfolding pump
  pump_stuck zero s head rest some_left e there room = elim some_left [ ]
  pump_stuck (suc rounds) s head rest some_left e there room = (
    s,
    ap {B = Option QueueState}
        (λ (d : QueueState × Option Switch). elim d.1 [
          | none ↦ some d.0
          | some job ↦ pump rules out now rounds (
              conclude rules (out.after rounds) now job (out.loads rounds) (out.between rounds d.0))
        ])
        (decide_full rules (out.before rounds) now s head rest e there room),
    waits head rest e (full there room),
  )

  module _ (more : ℕ → ℕ)
      (comes : (round : ℕ) (t : QueueState)
        → length (out.between round t).queue ≤ length t.queue + more round) where
    pump_from :
        (rounds : ℕ) (s : QueueState)
        → length s.queue + total_below more rounds + 2 ≤ rounds
        → Ends (pump rules out now rounds s)
    unfolding pump decide total_below
    pump_from zero s enough = absurd (omega arith)
    pump_from (suc rounds) s enough =
        after_plan rounds (length s.queue) (more rounds) (plan rules (out.before rounds) now s)
          (plan-IsRun rules (out.before rounds) now s)
          (plan-Settled rules (out.before rounds) now s) (comes rounds)
          λ s' fresh. go s' fresh (pump_from rounds s')
      where
        go :
            (s' : QueueState)
            → Fresh rules (length s.queue + more rounds) s'
            → (length s'.queue + total_below more rounds + 2 ≤ rounds
                → Ends (pump rules out now rounds s'))
            → Ends (pump rules out now rounds s')
        go s' (shorter less) ih = ih (omega arith)
        go s' (stuck head rest e idle there room) ih =
            pump_stuck rounds s' head rest (omega arith) e there room

-- The loop of `_pump` ends, whatever the clients answer, the loads raise and other threads do while
-- a load runs. If in each round they make the queue longer by so many requests at most, then as
-- many rounds as requests wait and may come in them all, and two more, are enough: it returns, and
-- when it looked last nobody waited or the head of the queue had to.
pub pump-Ends :
    (rules : Rules) (out : Outside) (now : ℕ) (more : ℕ → ℕ)
    → ((round : ℕ) (t : QueueState)
        → length (out.between round t).queue ≤ length t.queue + more round)
    → (rounds : ℕ) (s : QueueState) → length s.queue + total_below more rounds + 2 ≤ rounds
    → Ends rules out now (pump rules out now rounds s)
pump-Ends = pump_from
