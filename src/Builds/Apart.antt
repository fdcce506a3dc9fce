-- ===== src/Builds/Apart.antt =====
-- A task and a change of versions never run at the same time.
use ai_lab.Common.{◌≡◌, refl, ◌⊎◌, inl, false, arith}
use ai_lab.Builds.{
  is_running, start, succeeded, fail_with, say, enter_idle, leave_idle, World, Step, starts,
  task_says, task_succeeds, task_fails, change_begins, change_ends, Reach, begins, goes_on,
}

-- The state of the job tells of its task, its count of the changes, and the two are never at work
-- together.
abbrev pub IsApart : World → Type 0
IsApart w =
    (w.task_at_work ≡ is_running w.job.state)
    × (w.job.changing ≡ w.changes_at_work)
    × ((w.task_at_work ≡ false) ⊎ (w.changes_at_work ≡ 0))

Step-IsApart : {w v : World} → Step w v → IsApart w → IsApart v
unfolding start say succeeded fail_with enter_idle leave_idle
Step-IsApart (starts w check j h) (task, count, apart) = ground arith
Step-IsApart (task_says w text) h = h
Step-IsApart (task_succeeds w on) (task, count, apart) = ground arith
Step-IsApart (task_fails w message class on) (task, count, apart) = ground arith
Step-IsApart (change_begins w j h) (task, count, apart) = ground arith
Step-IsApart (change_ends w n h) (task, count, apart) = ground arith

-- However starts, lines of output, ends, failures and changes of versions follow each other, a task
-- and a change are never at work together, and the state says whether a task is.
pub Reach-IsApart : (w : World) → Reach w → IsApart w
Reach-IsApart w begins = (refl, refl, inl refl)
Reach-IsApart w (goes_on r s) = Step-IsApart s (Reach-IsApart _ r)
