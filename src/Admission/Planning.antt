-- ===== src/Admission/Planning.antt =====
-- ai_lab/gateway/admission/planning.py: the decisions of `Planner`. Every function takes the state
-- that the scheduler's lock guards and returns the new one.
use ai_lab.Common.{
  ℕ, zero, suc, ◌+◌, Bool, true, false, not, ◌&&◌, Option, none, some, List, [], ◌∷◌, ◌++◌, map,
  if◌then◌else◌, ltb, leb, eqb, length, nat_key,
}
use ai_lab.Common.Dict.{Dict, get, put, pop}
use ai_lab.Admission.Parts.{
  Shape, Failure, will_not_fit, abandoned, Waiting, Clients, QueueState, Switch, Loaded, Rules,
  or_zero, is_some, count_of, fail, fail_all, is_gone, drop_gone, stopped_while_loading,
}

abbrev pub is_empty {ℓ} : {A : Type ℓ} → List A → Bool
is_empty [] = true
is_empty (x ∷ xs) = false

unfoldable pub take_place : ℕ → Shape → QueueState → QueueState
take_place now shape s = record s {
  loaded = put shape (count_of shape s.loaded + 1) s.loaded;
  last_used = put shape now s.last_used;
}

unfoldable pub loaded_now : QueueState → List Loaded
loaded_now s =
    map
      (λ item. record {
        shape = item.0;
        in_flight = item.1;
        last_used = or_zero (get item.0 s.last_used);
      })
      s.loaded

-- `any(state.loaded.get(shape, 0) for shape in victims)`
unfoldable pub any_busy : Dict Shape ℕ → List Shape → Bool
any_busy loaded [] = false
any_busy loaded (shape ∷ rest) =
    let later = any_busy loaded rest in if ltb 0 (count_of shape loaded) then true else later

-- The run of `_take_run` still in the queue behind it, and the state with the gone ones told.
unfoldable pub take_run : Clients → Shape → List Waiting → QueueState → List Waiting × QueueState
take_run asks shape [] s = ([], record s { queue = [] })
take_run asks shape (entry ∷ rest) s =
    let told = take_run asks shape rest (drop_gone entry s) in
    let kept = take_run asks shape rest s in
    if eqb entry.shape shape
    then (if is_gone asks entry then told else (entry ∷ kept.0, kept.1))
    else ([], record s { queue = entry ∷ rest })

-- What one round of the loop of `plan` comes to.
pub data Round : Type 0 where
  stop : Round
  again : QueueState → List Waiting → Round
  start : QueueState → Switch → Round

-- `failure or AbandonedError(…)`
abbrev pub or_else : Option Failure → Failure → Failure
or_else none failure = failure
or_else (some failure) _ = failure

module _ (rules : Rules) (asks : Clients) (now : ℕ) where
  unfoldable pub admits_now : QueueState → Shape → Bool
  admits_now s shape =
      is_empty s.queue
      && not s.switching
      && is_some (get shape s.loaded)
      && ltb (count_of shape s.loaded) (rules.places shape)

  unfoldable pub admit_head : QueueState → Waiting → List Waiting → List Waiting → Round
  admit_head s head rest ready =
      let s' = record s { queue = rest } in
      if leb (rules.places head.shape) (count_of head.shape s.loaded)
      then stop
      else if is_gone asks head
      then again (drop_gone head s') ready
      else again (take_place now head.shape s') (ready ++ head ∷ [])

  -- The head will never fit: it is told so, unless it is gone.
  unfoldable pub refuse_head : QueueState → Waiting → List Waiting → List Waiting → Round
  refuse_head s head rest ready =
      let s' = record s { queue = rest } in
      if is_gone asks head
      then again (drop_gone head s') ready
      else again (fail will_not_fit head s') ready

  unfoldable pub start_run : Shape → List Shape → List Waiting → QueueState → List Waiting → Round
  start_run shape victims [] s ready = again s ready
  start_run shape victims (entry ∷ run) s ready =
      start (record s { switching = true })
        (record { shape = shape; victims = victims; photograph = entry ∷ run; epoch = s.epoch })

  unfoldable pub plan_switch : QueueState → Waiting → List Waiting → List Waiting → Round
  unfolding refuse_head start_run
  plan_switch s head rest ready = elim (rules.make_room head.shape (loaded_now s)) [
    | none ↦ refuse_head s head rest ready
    | some victims ↦
        if any_busy s.loaded victims
        then stop
        else let (run, s') = take_run asks head.shape (head ∷ rest) s in
          start_run head.shape victims run s' ready
  ]

  unfoldable pub round : QueueState → List Waiting → List Waiting → Round
  unfolding admit_head plan_switch
  round s [] ready = stop
  round s (head ∷ rest) ready =
      if s.switching
      then stop
      else if is_some (get head.shape s.loaded)
      then admit_head s head rest ready
      else plan_switch s head rest ready

  -- The loop of `plan`. Each round that goes on takes an entry off the queue.
  unfoldable pub plan_loop :
      ℕ → QueueState → List Waiting → QueueState × List Waiting × Option Switch
  plan_loop zero s ready = (s, ready, none)
  plan_loop (suc fuel) s ready = elim (round s s.queue ready) [
    | stop ↦ (s, ready, none)
    | again s' ready' ↦ plan_loop fuel s' ready'
    | start s' switch ↦ (s', ready, some switch)
  ]

  unfoldable pub plan : QueueState → QueueState × List Waiting × Option Switch
  unfolding plan_loop round
  plan s = plan_loop (suc (length s.queue)) s []

  -- `_admit_run`: who goes in, who goes back to the front, and the state.
  unfoldable pub admit_run :
      Shape → ℕ → List Waiting → QueueState → List Waiting × List Waiting × QueueState
  admit_run shape room [] s = ([], [], s)
  admit_run shape room (entry ∷ rest) s =
      let told = admit_run shape room rest (drop_gone entry s) in
      let full = admit_run shape room rest s in
      let placed = admit_run shape room rest (take_place now shape s) in
      if is_gone asks entry
      then told
      else if leb room (count_of shape s.loaded)
      then (full.0, entry ∷ full.1, full.2)
      else (entry ∷ placed.0, placed.1, placed.2)

  unfoldable pub take_off : List Shape → QueueState → QueueState
  take_off [] s = s
  take_off (gone ∷ rest) s =
      take_off rest (record s { loaded = pop gone s.loaded; last_used = pop gone s.last_used })

  abbrev pub load_done : Switch → QueueState → QueueState
  load_done switch s = record s {
    loaded = put switch.shape 0 s.loaded;
    last_used = put switch.shape now s.last_used;
  }

  -- The overflow goes back to the front of the queue.
  abbrev give_back : List Waiting × List Waiting × QueueState → List Waiting × QueueState
  give_back (ready, overflow, s) = (ready, record s { queue = overflow ++ s.queue })

  unfoldable pub publish : Switch → Option Failure → QueueState → List Waiting × QueueState
  unfolding take_off admit_run
  publish switch (some failure) s = ([], fail_all failure switch.photograph s)
  publish switch none s =
      give_back
        (admit_run switch.shape (rules.places switch.shape) switch.photograph (load_done switch s))

  unfoldable pub settle : QueueState → Switch → Option Failure → List Waiting × QueueState
  unfolding publish
  settle s switch failure =
      let s' = record s { switching = false } in
      if eqb switch.epoch s.epoch
      then publish switch failure (take_off switch.victims s')
      else ([], fail_all (or_else failure (abandoned stopped_while_loading)) switch.photograph s')
