-- ===== src/AnswerCap/Examples.antt =====
-- A request without a limit that is too long with one.
use ai_lab.Common.{ℕ, ◌≡◌, refl, true, false, Option, none, some, [], ◌∷◌}
use ai_lab.Common.Dict.{get, put, pop}
use ai_lab.Clients.Text.{Text, codes, text_key}
use ai_lab.AnswerCap.{
  Request, Answer, add_cap, send_capped, max_tokens, max_completion_tokens, refused_for_length,
  header,
}
use ai_lab.AnswerCap.Retried.{Sent, send_capped-Sent}

program : Unit {0}
unfolding add_cap send_capped max_tokens max_completion_tokens refused_for_length header get put pop
program = tt

abbrev too_long : Text
too_long = codes "too_long"

abbrev chat : Text
chat = codes "/v1/chat/completions"

abbrev refusing : Option (Option ℕ) → Answer
refusing none = record { status = 200; is_json = true; reason = none; headers = [] }
refusing (some limit) = record {
  status = 400;
  is_json = true;
  reason = some too_long;
  headers = [];
}

abbrev engine : Request → Answer
engine request = refusing (get (codes "max_tokens") request)

sent_twice :
    (send_capped too_long engine [] chat 4096).1
    ≡ ((codes "max_tokens", some 4096) ∷ [], true) ∷ ([], false) ∷ []
unfolding program
sent_twice = refl

send_capped-Sent_example :
    Sent too_long engine [] chat 4096 (send_capped too_long engine [] chat 4096)
send_capped-Sent_example = send_capped-Sent too_long engine [] chat 4096
