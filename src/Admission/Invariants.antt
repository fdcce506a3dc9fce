-- ===== src/Admission/Invariants.antt =====
-- What holds of the scheduler after any interleaving of its calls.
use ai_lab.Common.{ℕ, ◌≤◌, none, arith, nat_key}
use ai_lab.Common.Dict.{get}
use ai_lab.Admission.Parts.{Shape, count_of}
use ai_lab.Admission.System.{
  System, new_system, Step, enters, leaves, decides, concludes, resets, adopts, forgets,
  reconfigures, Reach, here, next, rules_of,
}
use ai_lab.Admission.Capacity.{
  enter-InPlaces, leave-InPlaces, decide-InPlaces, conclude-InPlaces, reset-InPlaces,
  adopt-InPlaces, forget-InPlaces,
}

abbrev pub KeepsPlaces : (Shape → ℕ) → System → Type 0
KeepsPlaces places y = (shape : Shape) → count_of shape y.scheduler.card.loaded ≤ places shape

Step-KeepsPlaces :
    {places : Shape → ℕ} {y z : System}
    → Step places y z
    → KeepsPlaces places y
    → KeepsPlaces places z
Step-KeepsPlaces (enters y asks now shape w) h = enter-InPlaces _ asks now shape w y.scheduler h
Step-KeepsPlaces (leaves y shape) h =
    leave-InPlaces (rules_of _ (λ _ _. none)) shape y.scheduler.card h
Step-KeepsPlaces (decides y room asks now) h = decide-InPlaces _ asks now y.scheduler.card h
Step-KeepsPlaces (concludes y b job a asks now failure e) h =
    conclude-InPlaces _ asks now job failure y.scheduler.card h
Step-KeepsPlaces (resets y reason) h =
    reset-InPlaces (rules_of _ (λ _ _. none)) reason y.scheduler.card
Step-KeepsPlaces (adopts y now shapes) h =
    adopt-InPlaces (rules_of _ (λ _ _. none)) now shapes y.scheduler.card h
Step-KeepsPlaces (forgets y) h = forget-InPlaces (rules_of _ (λ _ _. none)) y.scheduler.card
Step-KeepsPlaces (reconfigures y n) h = h

-- After any interleaving of calls, loads and outside changes from a new scheduler, no shape counts
-- more requests in flight than it has places.
pub Reach-KeepsPlaces :
    (places : Shape → ℕ) (max_waiting : ℕ) (y : System)
    → Reach places (new_system max_waiting) y
    → KeepsPlaces places y
unfolding count_of get
Reach-KeepsPlaces places max_waiting y here shape = omega arith
Reach-KeepsPlaces places max_waiting y (next r st) shape =
    Step-KeepsPlaces st (Reach-KeepsPlaces places max_waiting _ r) shape
