-- ===== src/AnswerCap.antt =====
-- ai_lab/api/answer_cap.py: `add_cap` and `send_capped`. A request is a dictionary of numbers, `none` for a
-- field that is None; sending it is a parameter, and what an answer says of itself is what the code
-- reads of it. Of `close`, which gives the place back, only that it is held while the code retries.
pub mod Retried
mod Examples
use ai_lab.Common.{
  ℕ, Bool, true, false, not, ◌&&◌, ◌||◌, Option, none, some, List, [], ◌∷◌, ◌++◌, if◌then◌else◌,
  eqb, ◌==◌,
}
use ai_lab.Common.Dict.{Dict, get, put, pop}
use ai_lab.Clients.Text.{Text, codes, text_key}

abbrev pub Request : Type 0
Request = Dict Text (Option ℕ)

pub record Answer : Type 0 where
  pub status : ℕ
  pub is_json : Bool
  pub reason : Option Text
  pub headers : Dict Text ℕ

abbrev pub is_capped_path : Text → Bool
is_capped_path path = path == codes "/v1/chat/completions" || path == codes "/v1/completions"

abbrev pub names_limit : Option (Option ℕ) → Bool
names_limit none = false
names_limit (some none) = false
names_limit (some (some n)) = true

unfoldable pub max_tokens : Text
max_tokens = codes "max_tokens"

unfoldable pub max_completion_tokens : Text
max_completion_tokens = codes "max_completion_tokens"

-- The cap added, or zero, and the request after it.
unfoldable pub add_cap : Request → Text → ℕ → ℕ × Request
add_cap request path limit =
    if eqb limit 0 || not (is_capped_path path)
    then (0, request)
    else if names_limit (get max_tokens request) || names_limit (get max_completion_tokens request)
    then (0, request)
    else (limit, put max_tokens (some limit) request)

abbrev pub is_reason : Text → Option Text → Bool
is_reason reason none = false
is_reason reason (some r) = r == reason

-- `_refused_for_length`: whether the refusal is for length; `reason` is `context_limit.REASON`.
unfoldable pub refused_for_length : Text → Answer → Bool
refused_for_length reason answer =
    if not (eqb answer.status 400) || not answer.is_json
    then false
    else is_reason reason answer.reason

unfoldable pub header : Text
header = codes "X-AI-Lab-Default-Max-Tokens"

-- What is done with the cap added and the request after it.
abbrev pub send_added : Text → (Request → Answer) → ℕ × Request → Answer × List (Request × Bool)
send_added reason send (added, capped) =
    if eqb added 0
    then (send capped, (capped, false) ∷ [])
    else if refused_for_length reason (send capped)
    then (send (pop max_tokens capped), (capped, true) ∷ (pop max_tokens capped, false) ∷ [])
    else (
      record (send capped) { headers = put header added (send capped).headers },
      (capped, true) ∷ [],
    )

-- The answer, and the requests that were sent, each with whether the place was held meanwhile.
unfoldable pub send_capped :
    Text → (Request → Answer) → Request → Text → ℕ → Answer × List (Request × Bool)
unfolding add_cap
send_capped reason send request path limit = send_added reason send (add_cap request path limit)
