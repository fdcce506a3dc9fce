-- ===== src/Admission/Lease.antt =====
-- ai_lab/gateway/state.py `Lease.release` and ai_lab/gateway/core.py `Gateway.finished`: how a
-- request gives its place back. Times are counted in whole units of the clock.
use ai_lab.Common.{ℕ, ◌+◌, ◌-◌, Bool, true, none, if◌then◌else◌, eqb}
use ai_lab.Admission.Parts.{QueueState}
use ai_lab.Admission.Scheduler.{leave}

-- The scheduler's card and the counter `served_s` of the gateway.
pub record Gateway : Type 0 where
  pub card : QueueState
  pub served_s : ℕ

pub record Lease : Type 0 where
  pub started : ℕ
  pub given_back : Bool

-- `finished` names no shape to `leave`.
unfoldable pub finished : ℕ → Gateway → Gateway
unfolding leave
finished held_s g = record g { served_s = g.served_s + held_s; card = leave none g.card }

unfoldable pub give_back : ℕ → Lease → Gateway → Lease × Gateway
unfolding finished
give_back now lease g = if lease.given_back then (lease, g) else (
  record lease { given_back = true },
  finished (if eqb lease.started 0 then 0 else now - lease.started) g,
)
