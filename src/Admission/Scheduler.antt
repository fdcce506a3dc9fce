-- ===== src/Admission/Scheduler.antt =====
-- ai_lab/gateway/admission/scheduler.py: the class `Scheduler`. Each function is what one call does
-- while it holds the lock; `pump` is the loop of `_pump`, with what other threads do while its loads run.
use Prim.Native.String.{String}
use ai_lab.Common.{
  ℕ, zero, suc, ◌+◌, ◌-◌, Bool, false, ◌||◌, not, Option, none, some, List, [], ◌∷◌, ◌++◌, map,
  if◌then◌else◌, ltb, leb, eqb, length, keep, nat_key,
}
use ai_lab.Common.Dict.{Dict, put}
use ai_lab.Admission.Parts.{
  Shape, Failure, queue_full, abandoned, Waiting, Clients, QueueState, Switch, Loaded, Rules,
  count_of, fail_all, release,
}
use ai_lab.Admission.Planning.{admits_now, take_place, plan, settle, is_empty}

pub record Scheduler : Type 0 where
  pub card : QueueState
  pub next_number : ℕ
  pub max_waiting : ℕ

abbrev pub new_state : QueueState
new_state = record {
  queue = [];
  loaded = [];
  last_used = [];
  switching = false;
  epoch = 0;
  told = [];
}

-- `__init__`: an idle card, and the first request will be number 1.
abbrev pub new_scheduler : ℕ → Scheduler
new_scheduler max_waiting = record { card = new_state; next_number = 1; max_waiting = max_waiting }

-- Given no `make_room`, everything loaded is a victim of everything else.
abbrev pub one_at_a_time : Shape → List Loaded → Option (List Shape)
one_at_a_time shape loaded = some (map (λ item. item.shape) loaded)

-- What the caller of `enter` does next: go on, raise, or wait for its entry.
pub data Entered : Type 0 where
  at_once : Entered
  raises : Failure → Entered
  waits : Waiting → Entered

module _ (rules : Rules) (now : ℕ) where
  -- `admits_now` asks nobody, so the answers that `Planner` is given do not matter.
  unfoldable pub enter : Clients → Shape → Bool → Scheduler → Entered × Scheduler
  unfolding admits_now take_place
  enter asks shape still_wanted s =
      if admits_now rules asks now s.card shape
      then (at_once, record s { card = take_place now shape s.card })
      else if leb s.max_waiting (length s.card.queue)
      then (raises (queue_full (length s.card.queue)), s)
      else let entry : Waiting = record {
        number = s.next_number;
        shape = shape;
        arrived = now;
        still_wanted = still_wanted;
      } in
        (
          waits entry,
          record s {
            card = record (s.card) { queue = s.card.queue ++ entry ∷ [] };
            next_number = s.next_number + 1;
          },
        )

-- The loop over the loaded shapes: a place of the first that holds one.
unfoldable pub leave_first : Dict Shape ℕ → Dict Shape ℕ
leave_first [] = []
leave_first ((held, count) ∷ rest) =
    let later = (held, count) ∷ leave_first rest in
    if ltb 0 count then (held, count - 1) ∷ rest else later

unfoldable pub leave_one : Option Shape → Dict Shape ℕ → Dict Shape ℕ
unfolding leave_first
leave_one none loaded = leave_first loaded
leave_one (some shape) loaded =
    if ltb 0 (count_of shape loaded)
    then put shape (count_of shape loaded - 1) loaded
    else leave_first loaded

unfoldable pub leave : Option Shape → QueueState → QueueState
unfolding leave_one
leave shape s = record s { loaded = leave_one shape s.loaded }

-- How many were turned away, and the state.
unfoldable pub reset : String → QueueState → ℕ × QueueState
reset reason s = (
  length s.queue,
  fail_all (abandoned reason) s.queue
      (record s { epoch = s.epoch + 1; queue = []; loaded = []; last_used = [] }),
)

-- `any(self._state.loaded.values())`
unfoldable pub any_held : Dict Shape ℕ → Bool
any_held [] = false
any_held ((shape, count) ∷ rest) = ltb 0 count || any_held rest

-- `dict.fromkeys(shapes, value)`
unfoldable pub from_keys : ℕ → List Shape → Dict Shape ℕ → Dict Shape ℕ
from_keys value [] d = d
from_keys value (shape ∷ rest) d = from_keys value rest (put shape value d)

unfoldable pub adopt : ℕ → List Shape → QueueState → QueueState
unfolding any_held from_keys
adopt now shapes s =
    if any_held s.loaded || not (is_empty s.queue) || s.switching
    then s
    else record s { loaded = from_keys 0 shapes []; last_used = from_keys now shapes [] }

unfoldable pub forget_current : QueueState → QueueState
forget_current s = record s { loaded = []; last_used = [] }

-- `_pump` up to the load: what is decided under the lock, and who is let in after it.
unfoldable pub decide : Rules → Clients → ℕ → QueueState → QueueState × Option Switch
decide rules asks now s = let (s', ready, job) = plan rules asks now s in (release ready s', job)

-- `_pump` after the load.
unfoldable pub conclude : Rules → Clients → ℕ → Switch → Option Failure → QueueState → QueueState
conclude rules asks now job failure s =
    let (ready, s') = settle rules asks now s job failure in release ready s'

-- What the outside does in each round: how the clients answer before and after the load, what the
-- load raises, and what the other threads make of the card and the queue while it runs, when the
-- lock is dropped.
pub record Outside : Type 0 where
  pub before : ℕ → Clients
  pub after : ℕ → Clients
  pub loads : ℕ → Option Failure
  pub between : ℕ → QueueState → QueueState

-- The loop of `_pump` with the rounds counted down; `none` means that they ran out.
unfoldable pub pump : Rules → Outside → ℕ → ℕ → QueueState → Option QueueState
unfolding decide conclude
pump rules out now zero s = none
pump rules out now (suc rounds) s =
    let decided = decide rules (out.before rounds) now s in
    elim decided.1 [
      | none ↦ some decided.0
      | some job ↦ pump rules out now rounds (
          conclude rules (out.after rounds) now job (out.loads rounds)
            (out.between rounds decided.0))
    ]

-- `state`: the report for the page.
pub record LoadedRow : Type 0 where
  pub shape : Shape
  pub in_flight : ℕ
  pub places : ℕ
  pub waiting : ℕ

pub record Report : Type 0 where
  pub loaded : List LoadedRow
  pub in_flight : ℕ
  pub switching : Bool
  pub waiting : List (Shape × ℕ)

unfoldable pub total : Dict Shape ℕ → ℕ
total [] = 0
total ((shape, count) ∷ rest) = count + total rest

unfoldable pub state_report : Rules → ℕ → QueueState → Report
unfolding total
state_report rules now s = record {
  loaded =
      map
        (λ item. record {
          shape = item.0;
          in_flight = item.1;
          places = rules.places item.0;
          waiting = length (keep (λ entry. eqb entry.shape item.0) s.queue);
        })
        s.loaded;
  in_flight = total s.loaded;
  switching = s.switching;
  waiting = map (λ entry. (entry.shape, now - entry.arrived)) s.queue;
}
