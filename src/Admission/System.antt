-- ===== src/Admission/System.antt =====
-- The scheduler among its threads: every step is what one thread does while it holds the lock, and
-- the environment chooses the steps, their order, the answers and the times. Between `decides`
-- and `concludes` of one job a load runs with the lock dropped, so any other step may come.
use Prim.Native.String.{String}
use ai_lab.Common.{ℕ, ◌≡◌, Bool, Option, none, some, List, [], ◌∷◌, ◌++◌}
use ai_lab.Admission.Parts.{Shape, Failure, Clients, QueueState, Switch, Loaded, Rules}
use ai_lab.Admission.Scheduler.{
  Scheduler, new_scheduler, enter, leave, reset, adopt, forget_current, decide, conclude,
}

-- `jobs` are the loads that run now, in the order in which they were decided.
pub record System : Type 0 where
  pub scheduler : Scheduler
  pub jobs : List Switch

abbrev pub new_system : ℕ → System
new_system max_waiting = record { scheduler = new_scheduler max_waiting; jobs = [] }

abbrev pub rules_of : (Shape → ℕ) → (Shape → List Loaded → Option (List Shape)) → Rules
rules_of places make_room = record { places = places; make_room = make_room }

abbrev pub job_list : Option Switch → List Switch
job_list none = []
job_list (some job) = job ∷ []

abbrev pub with_card : System → QueueState → System
with_card y card = record y { scheduler = record (y.scheduler) { card = card } }

-- The places of a shape are fixed; what has to make room for what may change from call to call.
pub data Step (places : Shape → ℕ) : System → System → Type 0 where
  enters :
      (y : System) (asks : Clients) (now : ℕ) (shape : Shape) (still_wanted : Bool)
      → Step places y (record y {
        scheduler =
            (enter (rules_of places (λ _ _. none)) now asks shape still_wanted y.scheduler).1;
      })
  leaves :
      (y : System) (shape : Option Shape)
      → Step places y (with_card y (leave shape y.scheduler.card))
  decides :
      (y : System) (make_room : Shape → List Loaded → Option (List Shape)) (asks : Clients)
      (now : ℕ)
      → Step places y
          (record (with_card y (decide (rules_of places make_room) asks now y.scheduler.card).0) {
            jobs =
                y.jobs ++ job_list (decide (rules_of places make_room) asks now y.scheduler.card).1;
          })
  concludes :
      (y : System) (before : List Switch) (job : Switch) (after : List Switch) (asks : Clients)
      (now : ℕ) (failure : Option Failure)
      → y.jobs ≡ before ++ job ∷ after
      → Step places y
          (record (with_card y
            (conclude (rules_of places (λ _ _. none)) asks now job failure y.scheduler.card)) {
              jobs = before ++ after;
            })
  resets :
      (y : System) (reason : String) → Step places y (with_card y (reset reason y.scheduler.card).1)
  adopts :
      (y : System) (now : ℕ) (shapes : List Shape)
      → Step places y (with_card y (adopt now shapes y.scheduler.card))
  forgets : (y : System) → Step places y (with_card y (forget_current y.scheduler.card))
  reconfigures :
      (y : System) (max_waiting : ℕ)
      → Step places y (record y { scheduler = record (y.scheduler) { max_waiting = max_waiting } })

pub data Reach (places : Shape → ℕ) (x : System) : System → Type 0 where
  here : Reach places x x
  next : {y z : System} → Reach places x y → Step places y z → Reach places x z
