-- ===== src/Providers/Pool.antt =====
-- ai_lab/providers/pool.py: `ProviderPool._answer`, the loop of attempts. The CLI's runs are given by
-- their number, from zero; what the loop does to the gate, the usage log and the clock is listed
-- in its order, as others use them too. A refusal has the CLI's whole text, of which `_tail` shows the
-- end.
use ai_lab.Common.{ℕ, zero, suc, ◌+◌, Option, none, some, List, [], ◌∷◌, if◌then◌else◌, ltb, length}
use ai_lab.Clients.Text.{Text}
use ai_lab.Providers.Gate.{Limits, wait_at}
use ai_lab.Providers.Failures.{ErrorKind, rate_limit, fatal, transient, classify}

-- An outcome of the CLI: its answer, or its errors.
pub data Outcome : Type 0 where
  answered : Text → Outcome
  errors : Text → Outcome

pub data Effect : Type 0 where
  runs : Effect
  gate_succeeds gate_pauses : Effect
  counts_ok : Effect
  counts_failure : Text → Effect
  waits : ℕ → Effect

pub data Result : Type 0 where
  answer : Text → Result
  unavailable : Text → Result
  spent : Text → Result

abbrev pub and_first : Effect → Option (Result × List Effect) → Option (Result × List Effect)
and_first e none = none
and_first e (some (result, effects)) = some (result, e ∷ effects)

abbrev pub and_then : List Effect → Option (Result × List Effect) → Option (Result × List Effect)
and_then [] r = r
and_then (e ∷ es) r = and_first e (and_then es r)

-- One round of the loop ends it, or goes on with the two counts.
pub data Round : Type 0 where
  ends : Result → List Effect → Round
  goes_on : (rate_limits transient : ℕ) → List Effect → Round

abbrev pub on_failure : Limits → ErrorKind × Text → Text → ℕ → ℕ → Round
on_failure limits (fatal, label) text rate_limits tries =
    ends (unavailable text) (runs ∷ counts_failure label ∷ [])
on_failure limits (rate_limit, label) text rate_limits tries =
    if ltb limits.rate_limit_retries (rate_limits + 1)
    then ends (spent text) (runs ∷ counts_failure label ∷ [])
    else goes_on (rate_limits + 1) tries (runs ∷ counts_failure label ∷ gate_pauses ∷ [])
on_failure limits (transient, label) text rate_limits tries =
    elim (wait_at tries limits.network_waits) [
      | none ↦ ends (unavailable text) (runs ∷ counts_failure label ∷ [])
      | some wait ↦ goes_on rate_limits (tries + 1) (runs ∷ counts_failure label ∷ waits wait ∷ [])
    ]

unfoldable pub round : Limits → Outcome → ℕ → ℕ → Round
round limits (answered text) rate_limits tries =
    ends (answer text) (runs ∷ gate_succeeds ∷ counts_ok ∷ [])
round limits (errors text) rate_limits tries =
    on_failure limits (classify text) text rate_limits tries

-- `fuel` bounds the rounds; `none` where it is spent.
unfoldable pub answer_loop : Limits → (ℕ → Outcome) → ℕ → ℕ → ℕ → ℕ → Option (Result × List Effect)
unfolding round
answer_loop limits cli zero n rate_limits tries = none
answer_loop limits cli (suc fuel) n rate_limits tries =
    elim (round limits (cli n) rate_limits tries) [
      | ends result effects ↦ some (result, effects)
      | goes_on rate_limits' tries' effects ↦
          and_then effects (answer_loop limits cli fuel (n + 1) rate_limits' tries')
    ]

abbrev pub enough : Limits → ℕ
enough limits = limits.rate_limit_retries + length limits.network_waits + 1

unfoldable pub answer_of : Limits → (ℕ → Outcome) → Option (Result × List Effect)
unfolding answer_loop
answer_of limits cli = answer_loop limits cli (enough limits) 0 0 0
