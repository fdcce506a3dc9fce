-- ===== src/Admission/Examples.antt =====
-- The scheduler run on small inputs, and its theorems applied to them.

use ai_lab.Common.{
  ℕ, ◌≡◌, ◌≤◌, ◌+◌, length-append, refl, true, false, none, some, [], ◌∷◌, ◌++◌, if◌then◌else◌,
  arith, length, eqb, keep, take, drop, nat_key,
}
use ai_lab.Common.Dict.{get, put, pop}
use ai_lab.Admission.Parts.{
  Shape, load_failed, abandoned, wanted, unwanted, let_in, refused, Waiting, Clients, QueueState,
  Switch, Rules, count_of, stopped_while_loading, is_gone, release, drop_gone, fail, fail_all,
}
use ai_lab.Admission.Planning.{plan, settle, any_busy, loaded_now, take_run}
use ai_lab.Admission.Scheduler.{
  Scheduler, new_scheduler, new_state, one_at_a_time, at_once, enter, leave, reset, decide,
  conclude, pump, Outside, state_report, total,
}
use ai_lab.Admission.Runs.{is_here}
use ai_lab.Admission.System.{System, with_card, new_system, enters, decides, Reach, here, next}
use ai_lab.Admission.Fairness.{IsServed, plan-IsServed, waiting_for}
use ai_lab.Admission.Invariants.{KeepsPlaces, Reach-KeepsPlaces}
use ai_lab.Admission.Arrival.{InOrder, Reach-InOrder}
use ai_lab.Admission.Account.{Accounted, Reach-Accounted}
use ai_lab.Admission.Progress.{Settled, plan-Settled}
use ai_lab.Admission.Ends.{Ends, pump-Ends, total_below}
use ai_lab.Admission.Settling.{refusals, settle_failed, settle_loaded}
use ai_lab.Admission.Stale.{conclude-Stale}
use ai_lab.Admission.Lease.{Gateway, finished}
use ai_lab.Admission.Places.{finished_overfills}

abbrev two_places : Rules
two_places = record { places = λ _. 2; make_room = one_at_a_time }

abbrev request : ℕ → Shape → Waiting
request number shape = record { number = number; shape = shape; arrived = 0; still_wanted = true }

-- Everybody is still there but number 2.
abbrev second_left : Clients
second_left n = if eqb n 2 then unwanted else wanted

-- Model 7 is loaded and idle; three requests for model 8, of which the second left, and then one
-- for model 7.
abbrev waiting_card : QueueState
waiting_card = record {
  queue = request 1 8 ∷ request 2 8 ∷ request 3 8 ∷ request 4 7 ∷ [];
  loaded = (7, 0) ∷ [];
  last_used = (7, 5) ∷ [];
  switching = false;
  epoch = 0;
  told = [];
}

abbrev run_of_eight : Switch
run_of_eight = record {
  shape = 8;
  victims = 7 ∷ [];
  photograph = request 1 8 ∷ request 3 8 ∷ [];
  epoch = 0;
}

program : Unit {0}
unfolding plan settle enter leave reset decide conclude pump state_report get put pop count_of
    any_busy loaded_now take_run is_gone release drop_gone fail fail_all total
program = tt

planned : (plan two_places second_left 9 waiting_card).2 ≡ some run_of_eight
unfolding program
planned = refl

abbrev outside : Outside
outside = record {
  before = λ _. second_left;
  after = λ _. second_left;
  loads = λ _. none;
  between = λ _ t. t;
}

pumped_to_end :
    pump two_places outside 9 6 waiting_card
    ≡ some (record {
      queue = request 4 7 ∷ [];
      loaded = (8, 2) ∷ [];
      last_used = (8, 9) ∷ [];
      switching = false;
      epoch = 0;
      told =
          (3, let_in)
          ∷ (1, let_in)
          ∷ (2, refused (abandoned "the client closed the connection while waiting"))
          ∷ [];
    })
unfolding program
pumped_to_end = refl

-- One request for model 8 at an empty card: it is queued, and then a load for it starts.
abbrev entered : System
entered = record (new_system 150) {
  scheduler =
      (enter (record { places = λ _. 2; make_room = λ _ _. none }) 3 second_left 8 true
        (new_scheduler 150)).1;
}

abbrev loading_system : System
loading_system = record {
  scheduler = record (entered.scheduler) {
    card = (decide two_places second_left 4 entered.scheduler.card).0;
  };
  jobs =
      record {
        shape = 8;
        victims = [];
        photograph = record { number = 1; shape = 8; arrived = 3; still_wanted = true } ∷ [];
        epoch = 0;
      }
      ∷ [];
}

loading_reached : Reach (λ _. 2) (new_system 150) loading_system
unfolding program
loading_reached =
    next (next here (enters (new_system 150) second_left 3 8 true))
      (decides entered one_at_a_time second_left 4)

Reach-KeepsPlaces_example : KeepsPlaces (λ _. 2) loading_system
Reach-KeepsPlaces_example = Reach-KeepsPlaces (λ _. 2) 150 loading_system loading_reached

Reach-InOrder_example : InOrder loading_system
Reach-InOrder_example = Reach-InOrder (λ _. 2) 150 loading_system loading_reached

Reach-Accounted_example : Accounted loading_system
Reach-Accounted_example = Reach-Accounted (λ _. 2) 150 loading_system loading_reached

plan-IsServed_example : IsServed waiting_card (plan two_places second_left 9 waiting_card).0 (
    (plan two_places second_left 9 waiting_card).1
    ++ waiting_for (plan two_places second_left 9 waiting_card).2)
plan-IsServed_example = plan-IsServed two_places second_left 9 waiting_card

-- The model that has to go is still answering, so the head waits.
abbrev busy_card : QueueState
busy_card = record waiting_card { loaded = (7, 1) ∷ [] }

plan-Settled_example : Settled two_places (plan two_places second_left 9 busy_card).0
unfolding program
plan-Settled_example = plan-Settled two_places second_left 9 busy_card refl

-- One more request comes while the first load runs.
abbrev joined : ℕ → QueueState → QueueState
joined round t = if eqb round 6 then record t { queue = t.queue ++ (request 5 7 ∷ []) } else t

abbrev one_joins : Outside
one_joins = record outside { between = joined }

abbrev comes : ℕ → ℕ
comes round = if eqb round 6 then 1 else 0

joined-length :
    (round : ℕ) (t : QueueState) → length (joined round t).queue ≤ length t.queue + comes round
joined-length round t = ground (arith, length-append t.queue (request 5 7 ∷ []))

pump-Ends_example : Ends two_places one_joins 9 (pump two_places one_joins 9 7 waiting_card)
unfolding total_below
pump-Ends_example =
    pump-Ends two_places one_joins 9 comes joined-length 7 waiting_card (omega arith)

abbrev switching_card : QueueState
switching_card = record waiting_card { queue = request 4 7 ∷ []; switching = true }

-- Everything is stopped while that load runs, and then one more request comes.
abbrev eight_alone : Switch
eight_alone = record {
  shape = 8;
  victims = [];
  photograph = record { number = 1; shape = 8; arrived = 3; still_wanted = true } ∷ [];
  epoch = 0;
}

abbrev stopped_system : System
stopped_system = with_card loading_system (reset "stop" loading_system.scheduler.card).1

abbrev asked_again : System
asked_again = record stopped_system {
  scheduler =
      (enter (record { places = λ _. 2; make_room = λ _ _. none }) 5 second_left 9 true
        stopped_system.scheduler).1;
}

conclude-Stale_example :
    let s = asked_again.scheduler.card in
    let s' = conclude two_places second_left 6 eight_alone none s in
    (s'.loaded ≡ s.loaded)
    × (s'.queue ≡ s.queue)
    × (s'.told ≡ refusals (abandoned stopped_while_loading) eight_alone.photograph ++ s.told)
conclude-Stale_example =
    conclude-Stale loading_reached [] eight_alone [] refl "stop"
      (next here (enters stopped_system second_left 5 9 true)) two_places second_left 6 none

settle_failed_example :
    let (ready, s') =
      settle two_places second_left 9 switching_card run_of_eight
        (some (load_failed "out of memory")) in
    (ready ≡ [])
    × (s'.queue ≡ switching_card.queue)
    × (get 7 s'.loaded ≡ none)
    × (s'.told ≡ refusals (load_failed "out of memory") run_of_eight.photograph ++ [])
settle_failed_example =
    settle_failed two_places second_left 9 switching_card run_of_eight (load_failed "out of memory")
      7 refl

settle_loaded_example :
    let (ready, s') = settle two_places second_left 9 switching_card run_of_eight none in
    (ready ≡ take 2 (keep (is_here second_left) run_of_eight.photograph))
    × (s'.queue
        ≡ drop 2 (keep (is_here second_left) run_of_eight.photograph) ++ switching_card.queue)
    × (count_of 8 s'.loaded ≡ length ready)
settle_loaded_example = settle_loaded two_places second_left 9 switching_card run_of_eight 8 refl

abbrev two_models : QueueState
two_models = record new_state { loaded = (7, 2) ∷ (8, 1) ∷ [] }

abbrev gateway : Gateway
gateway = record { card = two_models; served_s = 0 }

abbrev busy_scheduler : Scheduler
busy_scheduler = record { card = (finished 4 gateway).card; next_number = 1; max_waiting = 150 }

finished_overfills_example :
    (count_of 8 busy_scheduler.card.loaded ≡ 1)
    × (count_of 7 busy_scheduler.card.loaded ≡ 1)
    × ((enter two_places 5 second_left 7 true busy_scheduler).0 ≡ at_once)
finished_overfills_example =
    finished_overfills two_places second_left 5 4 7 8 true 1 0 [] gateway busy_scheduler
      (omega arith) refl refl refl refl refl
