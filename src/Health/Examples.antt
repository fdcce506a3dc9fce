-- ===== src/Health/Examples.antt =====
-- An engine whose counter stands still, and one restart of it.
use ai_lab.Common.{ℕ, ◌+◌, ◌*◌, ◌≤◌, ◌≡◌, refl, ◌⊎◌, false, none, some, [], arith}
use ai_lab.Clients.Text.{codes}
use ai_lab.Health.{
  Report, Progress, idle_for, look, not_less_than, of, forget, report_stall, restarted,
  is_restarting,
}
use ai_lab.Health.Stuck.{StandsStill, idle_for-Stuck}

program : Unit {0}
unfolding idle_for look of forget report_stall restarted is_restarting
program = tt

abbrev busy : Report
busy = record { tokens_processed = some 70; requests_running = 2; requests_waiting = 1 }

abbrev watch : Progress
watch = record { last_read = some 4000; last_work = some 70; last_progress = 1000 }

stuck_for : (idle_for 2000 6500 busy watch).0 ≡ 5500
unfolding program
stuck_for = refl

unwatched : (idle_for 2000 10001 busy watch).0 ≡ 0
unfolding program
unwatched = refl

forget_one : forget (codes "a") (of (codes "a") 1 5 []).1 ≡ []
unfolding program
forget_one = refl

stall_once : (report_stall (codes "a") (report_stall (codes "a") []).1).0 ≡ false
unfolding program
stall_once = refl

restart_again : restarted (codes "a") (report_stall (codes "a") []).1 ≡ []
unfolding program
restart_again = refl

idle_for-Stuck_example :
    ((last : ℕ) × (some 4000 ≡ some last) × (6500 ≤ last + 2000 * 3))
    × ((idle_for 2000 6500 busy watch).0 ≡ 5500)
    × (((not_less_than 6500 2000 (some 4000) ≡ false) × ((idle_for 2000 6500 busy watch).1 ≡ watch))
        ⊎ ((busy.tokens_processed ≡ none) ⊎ StandsStill busy (some 70)))
unfolding program
idle_for-Stuck_example = idle_for-Stuck 2000 6500 busy watch (omega arith)
