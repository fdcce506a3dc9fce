-- ===== src/Builds/Examples.antt =====
-- A build and a change of versions on a concrete run.
use ai_lab.Common.{◌≡◌, refl, true, false, some, [], ◌∷◌}
use ai_lab.Clients.Text.{codes}
use ai_lab.Builds.{
  Job, World, start, already_running, enter_idle, Reach, begins, goes_on, starts, task_fails,
  change_begins, running, failed, fail_and_clean, says, removes, marks_failed, fail_with,
}
use ai_lab.Builds.Apart.{IsApart, Reach-IsApart}

abbrev at_work : Job
at_work = record { lines = []; state = running; error = []; changing = 0 }

abbrev broken : World
broken = record {
  job = record { lines = []; state = failed; error = codes "no disk"; changing = 1 };
  task_at_work = false;
  changes_at_work = 1;
}

program : Unit {0}
unfolding start enter_idle fail_and_clean fail_with
program = tt

start_twice : start true at_work ≡ already_running
unfolding program
start_twice = refl

clean_up :
    fail_and_clean
      (λ f. true)
      (codes "no disk")
      (codes "OSError")
      (some (codes "/b/2"))
      (some (codes "/b/1"))
    ≡ says (codes "no disk")
      ∷ removes (codes "/b/2")
      ∷ marks_failed (codes "no disk") (codes "OSError")
      ∷ []
unfolding program
clean_up = refl

Reach-broken : Reach broken
unfolding program
Reach-broken =
    goes_on
      (goes_on (goes_on begins (starts _ true at_work refl))
        (task_fails _ (codes "no disk") (codes "OSError") refl))
      (change_begins _ broken.job refl)

Reach-IsApart_example : IsApart broken
Reach-IsApart_example = Reach-IsApart broken Reach-broken
