-- ===== src/AnswerCap/Retried.antt =====
-- What a request that names no limit is sent as.
use ai_lab.Common.{
  ℕ, ◌≡◌, ◌≢◌, ◌<◌, refl, sym, eqb_iff, ◌⊎◌, inl, inr, Bool, true, false, not, ◌||◌, Option, none,
  some, List, [], ◌∷◌, if_cases, eqb, arith, Bool-cases,
}
use ai_lab.Common.Dict.{get, put, pop, get-put, get-pop, get-put_self, get-pop_self}
use ai_lab.Clients.Text.{Text, codes, text_key, text_eq, text_eq_iff}
use ai_lab.AnswerCap.{
  Request, Answer, add_cap, send_capped, send_added, names_limit, max_tokens, max_completion_tokens,
  refused_for_length, is_capped_path, header,
}

-- The same fields, but for the limit itself.
abbrev pub SameElse : Request → Request → Type 0
SameElse r s = (name : Text) → (name ≡ max_tokens) ⊎ (get name s ≡ get name r)

-- The client gives no limit under this name.
abbrev pub Unlimited : Request → Text → Type 0
Unlimited request name = (n : ℕ) → get name request ≢ some (some n)

-- A cap is due: there is one, the path is capped, and the client gives no limit of its own.
abbrev pub IsDue : Request → Text → ℕ → Type 0
IsDue request path limit =
    (0 < limit)
    × ((path ≡ codes "/v1/chat/completions") ⊎ (path ≡ codes "/v1/completions"))
    × Unlimited request max_tokens
    × Unlimited request max_completion_tokens

-- What was sent. When no cap is due, the request as it came; when one is due, the request with the
-- cap, and, if that was refused for its length, then the request without any limit.
abbrev pub Sent :
    Text → (Request → Answer) → Request → Text → ℕ → Answer × List (Request × Bool) → Type 0
Sent reason send request path limit (answer, []) = ⊥
Sent reason send request path limit (answer, (r, held) ∷ []) =
    (¬ IsDue request path limit × (r ≡ request) × (held ≡ false) × (answer ≡ send request))
    ⊎ (IsDue request path limit
        × SameElse request r
        × (get max_tokens r ≡ some (some limit))
        × (held ≡ true)
        × (refused_for_length reason (send r) ≡ false)
        × (get header answer.headers ≡ some limit))
Sent reason send request path limit (answer, (r, held) ∷ (s, held') ∷ []) =
    IsDue request path limit
    × SameElse request r
    × (get max_tokens r ≡ some (some limit))
    × (held ≡ true)
    × (refused_for_length reason (send r) ≡ true)
    × SameElse request s
    × (get max_tokens s ≡ none)
    × (held' ≡ false)
    × (answer ≡ send s)
Sent reason send request path limit (answer, a ∷ b ∷ c ∷ rest) = ⊥

no_path :
    (limit : ℕ) (path : Text)
    → (eqb limit 0 || not (is_capped_path path)) ≡ true
    → 0 < limit
    → is_capped_path path ≡ true
    → ⊥
no_path limit path off positive capped = by_tests (is_capped_path path) off capped
  where
    by_tests : (c : Bool) → (eqb limit 0 || not c) ≡ true → c ≡ true → ⊥
    by_tests true off' capped' = ground (arith, off', positive, eqb_iff limit 0)
    by_tests false off' capped' = absurd (ground (arith, capped'))

positive_limit :
    (limit : ℕ) (path : Text) → (eqb limit 0 || not (is_capped_path path)) ≡ false → 0 < limit
positive_limit limit path on = by_test (is_capped_path path) on
  where
    by_test : (c : Bool) → (eqb limit 0 || not c) ≡ false → 0 < limit
    by_test c on' = ground (arith, on', eqb_iff limit 0)

on_path :
    (limit : ℕ) (path : Text)
    → (eqb limit 0 || not (is_capped_path path)) ≡ false
    → is_capped_path path ≡ true
on_path limit path on = by_test (eqb limit 0) (is_capped_path path) on
  where
    by_test : (a c : Bool) → (a || not c) ≡ false → c ≡ true
    by_test a c on' = ground (arith, on')

limited_by : {a b : Bool} → (a || b) ≡ true → a ≡ false → b ≡ false → ⊥
limited_by own a b = ground (arith, own, a, b)

names_limit-Unlimited :
    (request : Request) (name : Text)
    → names_limit (get name request) ≡ false
    → Unlimited request name
names_limit-Unlimited request name free n is = absurd (ground (arith, free, is))

Unlimited-names_limit :
    (value : Option (Option ℕ)) → ((n : ℕ) → value ≢ some (some n)) → names_limit value ≡ false
Unlimited-names_limit none free = refl
Unlimited-names_limit (some none) free = refl
Unlimited-names_limit (some (some n)) free = absurd (free n refl)

is_capped_path-is :
    (path : Text)
    → is_capped_path path ≡ true
    → (path ≡ codes "/v1/chat/completions") ⊎ (path ≡ codes "/v1/completions")
is_capped_path-is path is = ground (
  arith,
  is,
  text_eq_iff path (codes "/v1/chat/completions"),
  text_eq_iff path (codes "/v1/completions"),
)

capped_if_is :
    (path : Text)
    → (path ≡ codes "/v1/chat/completions") ⊎ (path ≡ codes "/v1/completions")
    → is_capped_path path ≡ true
capped_if_is path is = ground (
  arith,
  is,
  text_eq_iff path (codes "/v1/chat/completions"),
  text_eq_iff path (codes "/v1/completions"),
)

put-SameElse :
    (limit : ℕ) (request : Request) → SameElse request (put max_tokens (some limit) request)
put-SameElse limit request name = by_test (Bool-cases (text_eq max_tokens name))
  where
    by_test :
        (text_eq max_tokens name ≡ true) ⊎ (text_eq max_tokens name ≡ false)
        → (name ≡ max_tokens) ⊎ (get name (put max_tokens (some limit) request) ≡ get name request)
    by_test (inl same) = inl (sym ((text_eq_iff max_tokens name).0 same))
    by_test (inr other) = inr (ground (arith, get-put max_tokens name (some limit) request, other))

pop-SameElse : (request r : Request) → SameElse request r → SameElse request (pop max_tokens r)
pop-SameElse request r same name = by_test (Bool-cases (text_eq max_tokens name)) (same name)
  where
    by_test :
        (text_eq max_tokens name ≡ true) ⊎ (text_eq max_tokens name ≡ false)
        → (name ≡ max_tokens) ⊎ (get name r ≡ get name request)
        → (name ≡ max_tokens) ⊎ (get name (pop max_tokens r) ≡ get name request)
    by_test (inl e) s = inl (sym ((text_eq_iff max_tokens name).0 e))
    by_test (inr other) (inl e) = inl e
    by_test (inr other) (inr e) = inr (ground (arith, get-pop max_tokens name r, other, e))

as_it_came :
    (reason : Text) (send : Request → Answer) (request : Request) (path : Text) (limit : ℕ)
    → ¬ IsDue request path limit
    → Sent reason send request path limit (send_added reason send (0, request))
as_it_came reason send request path limit not_due = inl (not_due, refl, refl, refl)

added_limit :
    (reason : Text) (send : Request → Answer) (request : Request) (path : Text) (limit : ℕ)
    → IsDue request path limit
    → Sent reason send request path limit
        (send_added reason send (limit, put max_tokens (some limit) request))
added_limit reason send request path limit due =
    let capped : Request = put max_tokens (some limit) request in
    let same : SameElse request capped = put-SameElse limit request in
    let limited : get max_tokens capped ≡ some (some limit) =
      get-put_self max_tokens (some limit) request in
    if_cases (Sent reason send request path limit) (eqb limit 0)
      (λ zero. absurd (ground (arith, due.0, zero)))
      (λ _.
        if_cases (Sent reason send request path limit) (refused_for_length reason (send capped))
          (λ refusal. (
            due,
            same,
            limited,
            refl,
            refusal,
            pop-SameElse request capped same,
            get-pop_self max_tokens capped,
            refl,
            refl,
          ))
          (λ fine.
            inr (due, same, limited, refl, fine, get-put_self header limit (send capped).headers)))

-- When no cap is due, a request is sent once, as it came. A cap is due when it is not zero, the
-- path is capped and the client gives neither limit. Then the request is sent with the cap, and an
-- answer to that says so in its header; or it is refused for its length, and sent once more without
-- a limit. No other field of it changes, and the place is held for the first sending of the cap
-- alone.
pub send_capped-Sent :
    (reason : Text) (send : Request → Answer) (request : Request) (path : Text) (limit : ℕ)
    → Sent reason send request path limit (send_capped reason send request path limit)
unfolding send_capped add_cap
send_capped-Sent reason send request path limit =
    if_cases (λ (c : ℕ × Request). Sent reason send request path limit (send_added reason send c))
      (eqb limit 0 || not (is_capped_path path))
      (λ off.
        as_it_came reason send request path limit
          (λ due. no_path limit path off due.0 (capped_if_is path due.1)))
      (λ on.
        if_cases
          (λ (c : ℕ × Request). Sent reason send request path limit (send_added reason send c))
          (names_limit (get max_tokens request) || names_limit (get max_completion_tokens request))
          (λ own.
            as_it_came reason send request path limit (λ due.
              limited_by own (Unlimited-names_limit _ due.2) (Unlimited-names_limit _ due.3)))
          (λ free. added_limit reason send request path limit (
            positive_limit limit path on,
            is_capped_path-is path (on_path limit path on),
            names_limit-Unlimited request max_tokens (ground (arith, free)),
            names_limit-Unlimited request max_completion_tokens (ground (arith, free)),
          )))
