-- ===== src/Providers/Examples.antt =====
-- A vendor's gate and its calls on concrete runs.
use ai_lab.Common.{ℕ, zero, suc, ◌≤◌, ◌≡◌, refl, none, some, List, [], ◌∷◌, All}
use ai_lab.Clients.Text.{codes, lower, starts_with, strip, strip_left, non_empty}
use ai_lab.Providers.Gate.{
  Limits, Gate, new_gate, launches, tries, limited, succeeds, rate_limited, try_launch, succeeded,
  wait_at,
}
use ai_lab.Providers.Spacing.{rate_limited-launches}
use ai_lab.Providers.Failures.{
  classify, rate_limit, transient, label, first_marker, contains, rate_limit_markers, fatal_markers,
  split_lines, blank_digits,
}
use ai_lab.Providers.Pool.{
  Outcome, Effect, answered, errors, Result, answer, answer_of, answer_loop, round, runs,
  gate_pauses, gate_succeeds, counts_ok, counts_failure, waits,
}
use ai_lab.Providers.Usage.{Counts, Days}
use ai_lab.Providers.Retries.{Told, answer_of-Told}

abbrev limits : Limits
limits = record {
  launch_spacing = 500;
  rate_limit_waits = 30000 ∷ 120000 ∷ 300000 ∷ [];
  rate_limit_retries = 3;
  network_waits = 5000 ∷ 15000 ∷ [];
}

program : Unit {0}
unfolding launches try_launch rate_limited succeeded classify label first_marker contains
    rate_limit_markers fatal_markers split_lines blank_digits lower starts_with strip strip_left
    non_empty answer_of answer_loop round
program = tt

launches_paused :
    launches limits
      (tries 0 ∷ tries 100 ∷ tries 600 ∷ limited 700 ∷ tries 1200 ∷ tries 31000 ∷ [])
      new_gate
    ≡ 0 ∷ 600 ∷ 31000 ∷ []
unfolding program
launches_paused = refl

classify_limit : classify (codes "Usage LIMIT reached") ≡ (rate_limit, codes "usage limit")
unfolding program
classify_limit = refl

classify_unknown : classify (codes "oops 404 at 12:30") ≡ (transient, codes "oops # at #:#")
unfolding program
classify_unknown = refl

abbrev flaky : ℕ → Outcome
flaky zero = errors (codes "429")
flaky (suc zero) = errors (codes "lost")
flaky (suc (suc n)) = answered (codes "hello")

answer_flaky :
    answer_of limits flaky
    ≡ some (
      answer (codes "hello"),
      runs
          ∷ counts_failure (codes "429")
          ∷ gate_pauses
          ∷ runs
          ∷ counts_failure (codes "lost")
          ∷ waits 5000
          ∷ runs
          ∷ gate_succeeds
          ∷ counts_ok
          ∷ [],
    )
unfolding program
answer_flaky = refl

abbrev paused_gate : Gate
paused_gate = record { last_launch = none; paused_until = 30700; strikes = 1 }

rate_limited-launches_example :
    (wait_at 0 (30000 ∷ 120000 ∷ 300000 ∷ []) ≡ some 30000)
    × All
        (λ at. 30700 ≤ at)
        (launches limits (tries 1200 ∷ succeeds ∷ tries 31000 ∷ []) paused_gate)
unfolding program
rate_limited-launches_example =
    rate_limited-launches limits 700 30000 new_gate paused_gate
      (tries 1200 ∷ succeeds ∷ tries 31000 ∷ []) refl

answer_of-Told_example :
    (x : Result × List Effect) × (answer_of limits flaky ≡ some x) × Told limits flaky 0 0 0 x
answer_of-Told_example = answer_of-Told limits flaky

abbrev one_call : Counts
one_call = record { requests = 1; ok = 1; models = (codes "sonnet", 1) ∷ []; failures = [] }

abbrev one_day : Days
one_day = (codes "2026-10-07", (codes "anthropic", one_call) ∷ []) ∷ []
