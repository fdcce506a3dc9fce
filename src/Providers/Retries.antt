-- ===== src/Providers/Retries.antt =====
-- How often a call is tried, and what comes of it.
use ai_lab.Common.{
  ℕ, zero, suc, ◌+◌, ◌≤◌, ◌<◌, ◌≡◌, refl, sym, ap, Option, none, some, List, [], ◌∷◌, ◌++◌,
  if_cases, ltb, length, arith, subst,
}
use ai_lab.Clients.Text.{Text}
use ai_lab.Providers.Gate.{Limits, wait_at}
use ai_lab.Providers.Failures.{ErrorKind, rate_limit, fatal, transient, classify}
use ai_lab.Providers.Pool.{
  Outcome, answered, errors, Effect, runs, gate_pauses, counts_ok, counts_failure, waits, Result,
  answer, unavailable, spent, and_then, and_first, Round, ends, goes_on, on_failure, round,
  answer_loop, enough, answer_of,
}

abbrev pub is_run : Effect → ℕ
is_run runs = 1
is_run _ = 0

abbrev pub is_count : Effect → ℕ
is_count counts_ok = 1
is_count (counts_failure l) = 1
is_count _ = 0

abbrev pub is_pause : Effect → ℕ
is_pause gate_pauses = 1
is_pause _ = 0

abbrev pub is_wait : Effect → ℕ
is_wait (waits s) = 1
is_wait _ = 0

abbrev pub times : (Effect → ℕ) → List Effect → ℕ
times f [] = 0
times f (e ∷ es) = f e + times f es

times-append : (f : Effect → ℕ) (xs ys : List Effect) → times f (xs ++ ys) ≡ times f xs + times f ys
times-append f [] ys = omega arith
times-append f (x ∷ xs) ys = omega (arith, times-append f xs ys)

-- An answer is what the CLI answered, and a refusal carries what it wrote.
abbrev pub Fits : Result → Outcome → Type 0
Fits (answer t) o = o ≡ answered t
Fits (unavailable t) o = o ≡ errors t
Fits (spent t) o = o ≡ errors t

-- So many runs failed, from this one on.
abbrev pub AllFailed : (ℕ → Outcome) → ℕ → ℕ → Type 0
AllFailed cli n zero = Unit
AllFailed cli n (suc k) = ((text : Text) × (cli n ≡ errors text)) × AllFailed cli (n + 1) k

module _ (limits : Limits) where
  abbrev RoundTold : Outcome → ℕ → ℕ → Round → Type 0
  RoundTold o r t (ends result es) =
      Fits result o
      × (times is_run es ≡ 1)
      × (times is_count es ≡ 1)
      × (times is_pause es ≡ 0)
      × (times is_wait es ≡ 0)
  RoundTold o r t (goes_on r' t' es) =
      ((text : Text) × (o ≡ errors text))
      × (times is_run es ≡ 1)
      × (times is_count es ≡ 1)
      × (r' ≡ r + times is_pause es)
      × (t' ≡ t + times is_wait es)
      × (r' + t' ≡ r + t + 1)
      × (r' ≤ limits.rate_limit_retries)
      × (t' ≤ length limits.network_waits)

  wait_at-lt : (n w : ℕ) (ws : List ℕ) → wait_at n ws ≡ some w → n < length ws
  wait_at-lt n w [] h = absurd (cc)
  wait_at-lt zero w (v ∷ ws) h = omega arith
  wait_at-lt (suc n) w (v ∷ ws) h = omega (arith, wait_at-lt n w ws h)

  on_failure-Told :
      (kind : ErrorKind × Text) (text : Text) (r t : ℕ)
      → r ≤ limits.rate_limit_retries
      → t ≤ length limits.network_waits
      → RoundTold (errors text) r t (on_failure limits kind text r t)
  on_failure-Told (fatal, label) text r t hr ht = (refl, refl, refl, refl, refl)
  on_failure-Told (rate_limit, label) text r t hr ht =
      if_cases (RoundTold (errors text) r t) (ltb limits.rate_limit_retries (r + 1))
        (λ _. (refl, refl, refl, refl, refl))
        (λ more. ((text, refl), refl, refl, refl, omega arith, omega arith, ground arith, ht))
  on_failure-Told (transient, label) text r t hr ht = by_wait (wait_at t limits.network_waits) refl
    where
      by_wait :
          (w : Option ℕ)
          → w ≡ wait_at t limits.network_waits
          → RoundTold (errors text) r t (elim w as (λ _. Round) [
            | none ↦ ends (unavailable text) (runs ∷ counts_failure label ∷ [])
            | some wait ↦ goes_on r (t + 1) (runs ∷ counts_failure label ∷ waits wait ∷ [])
          ])
      by_wait none e = (refl, refl, refl, refl, refl)
      by_wait (some w) e = (
        (text, refl),
        refl,
        refl,
        omega arith,
        refl,
        omega arith,
        hr,
        omega (arith, wait_at-lt t w limits.network_waits (sym e)),
      )

  round-Told :
      (o : Outcome) (r t : ℕ)
      → r ≤ limits.rate_limit_retries
      → t ≤ length limits.network_waits
      → RoundTold o r t (round limits o r t)
  unfolding round
  round-Told (answered text) r t hr ht = (refl, refl, refl, refl, refl)
  round-Told (errors text) r t hr ht = on_failure-Told (classify text) text r t hr ht

  abbrev pub Told : (ℕ → Outcome) → ℕ → ℕ → ℕ → Result × List Effect → Type 0
  Told cli n r t (result, es) =
      ((c : ℕ) × (times is_run es ≡ c + 1) × Fits result (cli (n + c)) × AllFailed cli n c)
      × (times is_count es ≡ times is_run es)
      × (times is_run es ≡ times is_pause es + times is_wait es + 1)
      × (r + times is_pause es ≤ limits.rate_limit_retries)
      × (t + times is_wait es ≤ length limits.network_waits)

  and_then-some :
      (es fs : List Effect) (result : Result) (x : Option (Result × List Effect))
      → x ≡ some (result, fs)
      → and_then es x ≡ some (result, es ++ fs)
  and_then-some [] fs result x h = h
  and_then-some (e ∷ es) fs result x h = ap (and_first e) (and_then-some es fs result x h)

  Told-next :
      (cli : ℕ → Outcome) (n r t r' t' : ℕ) (es fs : List Effect) (result : Result)
      → RoundTold (cli n) r t (goes_on r' t' es)
      → Told cli (n + 1) r' t' (result, fs)
      → Told cli n r t (result, es ++ fs)
  Told-next cli n r t r' t' es fs result (failed, one, counted, hr, ht, step, _, _)
        ((c, runs_c, fits, failing), same, sum, lr, lt) =
      (
        (suc c, omega (arith, times-append is_run es fs), moved fits, (failed, failing)),
        omega (arith, times-append is_run es fs, times-append is_count es fs),
        omega (
          arith,
          times-append is_run es fs,
          times-append is_pause es fs,
          times-append is_wait es fs,
        ),
        omega (arith, times-append is_pause es fs),
        omega (arith, times-append is_wait es fs),
      )
    where
      moved : Fits result (cli (n + 1 + c)) → Fits result (cli (n + suc c))
      moved f = let e : n + 1 + c ≡ n + suc c = omega arith in subst (λ k. Fits result (cli k)) e f

  loop-Told :
      (cli : ℕ → Outcome) (fuel n r t : ℕ)
      → r ≤ limits.rate_limit_retries
      → t ≤ length limits.network_waits
      → limits.rate_limit_retries + length limits.network_waits < fuel + r + t
      → (x : Result × List Effect) × (answer_loop limits cli fuel n r t ≡ some x) × Told cli n r t x
  unfolding answer_loop
  loop-Told cli zero n r t hr ht h = absurd (omega arith)
  loop-Told cli (suc fuel) n r t hr ht h =
      by_round (λ r' t' hr' ht' h'. loop-Told cli fuel (n + 1) r' t' hr' ht' h')
        (round limits (cli n) r t) (round-Told (cli n) r t hr ht)
    where
      here : (result : Result) → Fits result (cli n) → Fits result (cli (n + 0))
      here result fits = let e : n ≡ n + 0 = omega arith in subst (λ k. Fits result (cli k)) e fits

      by_round :
          ((r' t' : ℕ)
            → r' ≤ limits.rate_limit_retries
            → t' ≤ length limits.network_waits
            → limits.rate_limit_retries + length limits.network_waits < fuel + r' + t'
            → (x : Result × List Effect) × (answer_loop limits cli fuel (n + 1) r' t' ≡ some x)
              × Told cli (n + 1) r' t' x)
          → (o : Round) → RoundTold (cli n) r t o
          → (x : Result × List Effect) × ((elim o as (λ _. Option (Result × List Effect)) [
            | ends result effects ↦ some (result, effects)
            | goes_on rate_limits' tries' effects ↦
                and_then effects (answer_loop limits cli fuel (n + 1) rate_limits' tries')
          ])
              ≡ some x)
            × Told cli n r t x
      by_round again (ends result es) (fits, one, counted, p, w) = (
        (result, es),
        refl,
        (
          (0, omega (arith, one), here result fits, tt),
          omega (arith, one, counted),
          omega (arith, one, p, w),
          omega (arith, p),
          omega (arith, w),
        ),
      )
      by_round again (goes_on r' t' es) told =
          let step = told.5 in
          let hr' = told.6 in
          let ht' = told.7 in
          let ((result, fs), e, more) = again r' t' hr' ht' (omega arith) in
          (
            (result, es ++ fs),
            and_then-some es fs result (answer_loop limits cli fuel (n + 1) r' t') e,
            Told-next cli n r t r' t' es fs result told more,
          )

-- A call of a model ends, whatever the CLI does. Its result is that of the last run, an answer as it
-- came or a refusal with its words, and every earlier run failed; each run is counted once; each
-- run but the last is followed by one pause of the vendor or one wait, the pauses at most the
-- retries allowed and the waits at most those configured.
pub answer_of-Told :
    (limits : Limits) (cli : ℕ → Outcome)
    → (x : Result × List Effect) × (answer_of limits cli ≡ some x) × Told limits cli 0 0 0 x
unfolding answer_of
answer_of-Told limits cli =
    loop-Told limits cli (enough limits) 0 0 0 (omega arith) (omega arith) (omega arith)
