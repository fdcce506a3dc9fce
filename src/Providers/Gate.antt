-- ===== src/Providers/Gate.antt =====
-- ai_lab/providers/gate.py: `VendorGate`. Times are whole milliseconds of its clock; "-inf" is `none`.
-- The places in flight are those of a semaphore of the standard library.
use ai_lab.Common.{
  ℕ, zero, suc, ◌+◌, ◌-◌, min, max, Option, none, some, List, [], ◌∷◌, if◌then◌else◌, leb, length,
}

pub record Limits : Type 0 where
  pub launch_spacing : ℕ
  pub rate_limit_waits : List ℕ
  pub rate_limit_retries : ℕ
  pub network_waits : List ℕ

pub record Gate : Type 0 where
  pub last_launch : Option ℕ
  pub paused_until : ℕ
  pub strikes : ℕ

abbrev pub new_gate : Gate
new_gate = record { last_launch = none; paused_until = 0; strikes = 0 }

abbrev pub wait_at : ℕ → List ℕ → Option ℕ
wait_at n [] = none
wait_at zero (w ∷ waits) = some w
wait_at (suc n) (w ∷ waits) = wait_at n waits

abbrev pub ready_at : Limits → Gate → ℕ
ready_at limits g = elim g.last_launch [
  | none ↦ g.paused_until
  | some at ↦ max g.paused_until (at + limits.launch_spacing)
]

pub data Turn : Type 0 where
  launched : Gate → Turn
  sleeps : (for_how_long : ℕ) → Turn

-- One round of `_wait_for_turn`, under the lock.
unfoldable pub try_launch : Limits → ℕ → Gate → Turn
try_launch limits now g =
    if leb (ready_at limits g) now
    then launched (record g { last_launch = some now })
    else sleeps (ready_at limits g - now)

-- The pause, `none` where the index is out of range, and the gate after it.
unfoldable pub rate_limited : Limits → ℕ → Gate → Option (ℕ × Gate)
rate_limited limits now g =
    elim (wait_at (min g.strikes (length limits.rate_limit_waits - 1)) limits.rate_limit_waits) [
      | none ↦ none
      | some pause ↦ some (
        pause,
        record g { strikes = g.strikes + 1; paused_until = max g.paused_until (now + pause) },
      )
    ]

unfoldable pub succeeded : Gate → Gate
succeeded g = record g { strikes = 0 }

-- What callers do with the gate, in the order the lock gives, each with the clock it reads.
pub data Act : Type 0 where
  tries : (now : ℕ) → Act
  limited : (now : ℕ) → Act
  succeeds : Act

abbrev pub act : Limits → Act → Gate → Gate × Option ℕ
act limits (tries now) g = elim (try_launch limits now g) [
  | launched g' ↦ (g', some now)
  | sleeps for_how_long ↦ (g, none)
]
act limits (limited now) g = elim (rate_limited limits now g) [
  | none ↦ (g, none)
  | some (pause, g') ↦ (g', none)
]
act limits succeeds g = (succeeded g, none)

abbrev pub note : Option ℕ → List ℕ → List ℕ
note none rest = rest
note (some at) rest = at ∷ rest

-- The launches, in their order.
unfoldable pub launches : Limits → List Act → Gate → List ℕ
unfolding try_launch rate_limited succeeded
launches limits [] g = []
launches limits (a ∷ acts) g = let (g', at) = act limits a g in note at (launches limits acts g')
