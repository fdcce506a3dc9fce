-- ===== src/Builds.antt =====
-- ai_lab/builds/background_job.py: `BackgroundJob`, its task's thread as a step relation. Every method
-- holds the job's lock, so it is one step; `check` is a parameter, `none` where it refuses.
pub mod Apart
mod Examples
use ai_lab.Common.{
  ℕ, ◌+◌, ◌-◌, Bool, true, false, Option, none, some, List, [], ◌∷◌, ◌++◌, if◌then◌else◌, eqb, ◌≡◌,
}
use ai_lab.Common.Newest.{newest}
use ai_lab.Clients.Text.{Text, codes, text_eq}

pub data State : Type 0 where
  idle running done failed : State

pub record Job : Type 0 where
  pub lines : List Text
  pub state : State
  pub error : Text
  pub changing : ℕ

abbrev pub new_job : Job
new_job = record { lines = []; state = idle; error = []; changing = 0 }

abbrev log_lines : ℕ
log_lines = 500

pub data Started : Type 0 where
  started : Job → Started
  already_running : Started
  being_changed : Started
  check_refused : Started

abbrev pub is_running : State → Bool
is_running running = true
is_running idle = false
is_running done = false
is_running failed = false

unfoldable pub start : Bool → Job → Started
start check j =
    if is_running j.state
    then already_running
    else if eqb j.changing 0
    then (if check
        then started (record j { lines = []; error = []; state = running })
        else check_refused)
    else being_changed

unfoldable pub succeeded : Job → Job
succeeded j = record j { state = done }

-- The message of the exception, or the name of its class.
abbrev or_class : Text → Text → Text
or_class [] class = class
or_class (c ∷ s) class = c ∷ s

unfoldable pub fail_with : Text → Text → Job → Job
fail_with message class j = record j { state = failed; error = or_class message class }

unfoldable pub say : Text → Job → Job
say text j = record j { lines = newest log_lines (j.lines ++ text ∷ []) }

-- `idle` on its way in, `none` where it raises, and on its way out.
unfoldable pub enter_idle : Job → Option Job
enter_idle j = if is_running j.state then none else some (record j { changing = j.changing + 1 })

unfoldable pub leave_idle : Job → Job
leave_idle j = record j { changing = j.changing - 1 }

-- `fail_and_clean`: said, the leftover deleted unless it is in use, and only then marked failed.
pub data Act : Type 0 where
  says : Text → Act
  removes : Text → Act
  marks_failed : Text → Text → Act

abbrev same_folder : Text → Option Text → Bool
same_folder folder none = false
same_folder folder (some used) = text_eq folder used

abbrev cleaning : (Text → Bool) → Option Text → Option Text → List Act
cleaning exists none in_use = []
cleaning exists (some folder) in_use =
    if exists folder then (if same_folder folder in_use then [] else removes folder ∷ []) else []

unfoldable pub fail_and_clean : (Text → Bool) → Text → Text → Option Text → Option Text → List Act
fail_and_clean exists message class leftover in_use =
    says (or_class message class) ∷ cleaning exists leftover in_use
    ++ marks_failed message class ∷ []

-- The world around a job: whether its task's thread is at work, and how many changes are being made.
pub record World : Type 0 where
  pub job : Job
  pub task_at_work : Bool
  pub changes_at_work : ℕ

pub data Step : World → World → Type 0 where
  starts :
      (w : World) (check : Bool) (j : Job)
      → start check w.job ≡ started j
      → Step w (record w { job = j; task_at_work = true })
  task_says : (w : World) (text : Text) → Step w (record w { job = say text w.job })
  task_succeeds :
      (w : World)
      → w.task_at_work ≡ true
      → Step w (record w { job = succeeded w.job; task_at_work = false })
  task_fails :
      (w : World) (message class : Text)
      → w.task_at_work ≡ true
      → Step w (record w { job = fail_with message class w.job; task_at_work = false })
  change_begins :
      (w : World) (j : Job)
      → enter_idle w.job ≡ some j
      → Step w (record w { job = j; changes_at_work = w.changes_at_work + 1 })
  change_ends :
      (w : World) (n : ℕ)
      → w.changes_at_work ≡ n + 1
      → Step w (record w { job = leave_idle w.job; changes_at_work = n })

pub data Reach : World → Type 0 where
  begins : Reach (record { job = new_job; task_at_work = false; changes_at_work = 0 })
  goes_on : {w v : World} → Reach w → Step w v → Reach v
