-- ===== src/Admission/Rounds.antt =====
-- The cases of one round of `Planner.plan`, and the rule by which a claim about the whole loop
-- follows from one about a round.
use ai_lab.Common.{
  ℕ, ◌≤◌, ◌<◌, ◌≡◌, refl, inl, inr, true, false, Option, none, some, List, [], ◌∷◌, ◌++◌, leb,
  arith, nat_key, Bool-cases, Option-cases, if_cases,
}
use ai_lab.Common.Dict.{get}
use ai_lab.Admission.Parts.{
  Shape, will_not_fit, Waiting, Clients, QueueState, Switch, Rules, is_some, count_of, fail,
  is_gone, drop_gone,
}
use ai_lab.Admission.Planning.{
  take_place, take_run, any_busy, loaded_now, Round, stop, again, start, admit_head, refuse_head,
  start_run, plan_switch, round,
}

module _ (rules : Rules) where
  -- Why a round lets nobody in: a load runs, the head's model is full, or one that has to make
  -- room for it is still answering.
  pub data Blocked (s : QueueState) (head : Waiting) : Type 0 where
    loading : s.switching ≡ true → Blocked s head
    full :
        is_some (get head.shape s.loaded) ≡ true
        → rules.places head.shape ≤ count_of head.shape s.loaded
        → Blocked s head
    busy :
        (victims : List Shape)
        → is_some (get head.shape s.loaded) ≡ false
        → rules.make_room head.shape (loaded_now s) ≡ some victims
        → any_busy s.loaded victims ≡ true
        → Blocked s head

module _ (rules : Rules) (asks : Clients) (now : ℕ) where
  pub data Outcome (s : QueueState) (head : Waiting) (rest ready : List Waiting)
      : Round → Type 0 where
    blocked : Blocked rules s head → Outcome s head rest ready stop
    left :
        is_gone asks head ≡ true
        → Outcome s head rest ready (again (drop_gone head (record s { queue = rest })) ready)
    admitted :
        s.switching ≡ false
        → is_some (get head.shape s.loaded) ≡ true
        → is_gone asks head ≡ false
        → count_of head.shape s.loaded < rules.places head.shape
        → Outcome s head rest ready
            (again (take_place now head.shape (record s { queue = rest })) (ready ++ head ∷ []))
    refused :
        s.switching ≡ false
        → is_gone asks head ≡ false
        → rules.make_room head.shape (loaded_now s) ≡ none
        → Outcome s head rest ready
            (again (fail will_not_fit head (record s { queue = rest })) ready)
    run_left :
        s.switching ≡ false
        → (take_run asks head.shape (head ∷ rest) s).0 ≡ []
        → Outcome s head rest ready (again (take_run asks head.shape (head ∷ rest) s).1 ready)
    started :
        (victims : List Shape) (first : Waiting) (more : List Waiting)
        → s.switching ≡ false
        → is_some (get head.shape s.loaded) ≡ false
        → rules.make_room head.shape (loaded_now s) ≡ some victims
        → any_busy s.loaded victims ≡ false
        → (take_run asks head.shape (head ∷ rest) s).0 ≡ first ∷ more
        → Outcome s head rest ready (
            start
              (record ((take_run asks head.shape (head ∷ rest) s).1) { switching = true })
              (record {
                shape = head.shape;
                victims = victims;
                photograph = first ∷ more;
                epoch = (take_run asks head.shape (head ∷ rest) s).1.epoch;
              }))

  module _ (s : QueueState) (head : Waiting) (rest ready : List Waiting) where
    admit_head-Outcome :
        s.switching ≡ false
        → is_some (get head.shape s.loaded) ≡ true
        → Outcome s head rest ready (admit_head rules asks now s head rest ready)
    unfolding admit_head
    admit_head-Outcome idle there =
        elim (Bool-cases (leb (rules.places head.shape) (count_of head.shape s.loaded))) [
          | inl e ↦ rw e (blocked (full there (ground arith)))
          | inr e ↦ rw e (elim (Bool-cases (is_gone asks head)) [
            | inl g ↦ rw g (left g)
            | inr g ↦ rw g (admitted idle there g (ground arith))
          ])
        ]

    refuse_head-Outcome :
        s.switching ≡ false
        → rules.make_room head.shape (loaded_now s) ≡ none
        → Outcome s head rest ready (refuse_head rules asks now s head rest ready)
    unfolding refuse_head
    refuse_head-Outcome idle never = elim (Bool-cases (is_gone asks head)) [
      | inl g ↦ rw g (left g)
      | inr g ↦ rw g (refused idle g never)
    ]

    start_run-Outcome :
        (victims run : List _)
        → s.switching ≡ false
        → is_some (get head.shape s.loaded) ≡ false
        → rules.make_room head.shape (loaded_now s) ≡ some victims
        → any_busy s.loaded victims ≡ false
        → (take_run asks head.shape (head ∷ rest) s).0 ≡ run
        → Outcome s head rest ready (
            start_run rules asks now head.shape victims run
              (take_run asks head.shape (head ∷ rest) s).1
              ready)
    unfolding start_run
    start_run-Outcome victims [] idle gone room free e = run_left idle e
    start_run-Outcome victims (first ∷ more) idle gone room free e =
        started victims first more idle gone room free e

    plan_switch-Outcome :
        s.switching ≡ false
        → is_some (get head.shape s.loaded) ≡ false
        → Outcome s head rest ready (plan_switch rules asks now s head rest ready)
    unfolding plan_switch
    plan_switch-Outcome idle gone =
        elim (Option-cases (rules.make_room head.shape (loaded_now s))) [
          | inl never ↦ rw (never, plan_switch) (refuse_head-Outcome idle never)
          | inr (victims, room) ↦
              rw (room, plan_switch)
                (elim (Bool-cases (any_busy s.loaded victims)) [
                  | inl held ↦ rw held (blocked (busy victims gone room held))
                  | inr free ↦ rw free (start_run-Outcome victims _ idle gone room free refl)
                ])
        ]

    pub round-Outcome : Outcome s head rest ready (round rules asks now s (head ∷ rest) ready)
    unfolding round
    round-Outcome =
        if_cases (Outcome s head rest ready) s.switching (λ e. blocked (loading e))
          λ idle.
            if_cases (Outcome s head rest ready) (is_some (get head.shape s.loaded))
              (admit_head-Outcome idle) (plan_switch-Outcome idle)

abbrev pub Result : Type 0
Result = QueueState × List Waiting × Option Switch

-- What a round must lead to for `Q` to hold of the result of the loop, `P` being the claim that
-- is carried from round to round.
abbrev pub After {ℓ} :
    (QueueState → List Waiting → Type ℓ)
    → (Result → Type ℓ)
    → QueueState
    → List Waiting
    → Round
    → Type ℓ
After P Q s ready stop = Q (s, ready, none)
After P Q s ready (again s' ready') = P s' ready'
After P Q s ready (start s' switch) = Q (s', ready, some switch)
