-- ===== src/Providers/Spacing.antt =====
-- How far apart a vendor's calls are launched.
use ai_lab.Common.{
  ℕ, ◌+◌, ◌-◌, ◌≤◌, ◌≡◌, refl, sym, min, max, Option, none, some, List, [], ◌∷◌, if_cases, leb,
  length, arith, All,
}
use ai_lab.Common.Spaced.{IsSpaced, IsSpaced-nil}
use ai_lab.Providers.Gate.{
  Limits, Gate, wait_at, ready_at, Turn, launched, sleeps, try_launch, rate_limited, succeeded, Act,
  tries, limited, succeeds, note, launches,
}

ready_pause :
    (limits : Limits) (g : Gate) (now : ℕ) → ready_at limits g ≤ now → g.paused_until ≤ now
ready_pause limits g now r = go g.last_launch r
  where
    go :
        (l : Option ℕ)
        → (elim l as (λ _. ℕ) [
          | none ↦ g.paused_until
          | some at ↦ max g.paused_until (at + limits.launch_spacing)
        ])
          ≤ now
        → g.paused_until ≤ now
    go none r = r
    go (some at) r = omega arith

ready_last :
    (limits : Limits) (g : Gate) (last now : ℕ)
    → g.last_launch ≡ some last
    → ready_at limits g ≤ now
    → last + limits.launch_spacing ≤ now
ready_last limits g last now h r = ground arith

abbrev after : Limits → List Act → Gate × Option ℕ → List ℕ
after limits acts (g, at) = note at (launches limits acts g)

Turn-cases :
    (P : List ℕ → Type 0) (limits : Limits) (now : ℕ) (acts : List Act) (g : Gate)
    → (ready_at limits g ≤ now
        → P (now ∷ launches limits acts (record g { last_launch = some now })))
    → P (launches limits acts g)
    → P (launches limits (tries now ∷ acts) g)
unfolding launches try_launch
Turn-cases P limits now acts g hl hs =
    if_cases
      (λ (t : Turn). P (
        after limits acts (elim t as (λ _. Gate × Option ℕ) [
          | launched g' ↦ (g', some now)
          | sleeps for_how_long ↦ (g, none)
        ])))
      (leb (ready_at limits g) now) (λ h. hl (ground arith)) (λ _. hs)

Limited-cases :
    (P : List ℕ → Type 0) (limits : Limits) (now : ℕ) (acts : List Act) (g : Gate)
    → ((strikes until : ℕ)
        → g.paused_until ≤ until
        → P (launches limits acts (record g { strikes = strikes; paused_until = until })))
    → P (launches limits acts g)
    → P (launches limits (limited now ∷ acts) g)
unfolding launches rate_limited
Limited-cases P limits now acts g hl hs =
    by_wait (wait_at (min g.strikes (length limits.rate_limit_waits - 1)) limits.rate_limit_waits)
  where
    by_wait :
        (w : Option ℕ)
        → P (
            after limits acts
              (elim (elim w as (λ _. Option (ℕ × Gate)) [
                | none ↦ none
                | some pause ↦ some (
                  pause,
                  record g {
                    strikes = g.strikes + 1;
                    paused_until = max g.paused_until (now + pause);
                  },
                )
              ])
                as (λ _. Gate × Option ℕ) [ none ↦ (g, none) | some (pause, g') ↦ (g', none) ]))
    by_wait none = hs
    by_wait (some pause) = hl (g.strikes + 1) (max g.paused_until (now + pause)) (omega arith)

IsSpaced-next :
    (limits : Limits) (g : Gate) (now : ℕ) (rest : List ℕ)
    → ready_at limits g ≤ now
    → IsSpaced limits.launch_spacing (some now) rest
    → (last : Option ℕ) → last ≡ g.last_launch
    → IsSpaced limits.launch_spacing last (now ∷ rest)
IsSpaced-next limits g now rest r h none e = h
IsSpaced-next limits g now rest r h (some last) e = (ready_last limits g last now (sym e) r, h)

-- Whoever calls, and whatever is limited or succeeds in between, two launches in a row of one
-- vendor are at least the launch spacing apart.
pub launches-IsSpaced :
    (limits : Limits) (acts : List Act) (g : Gate)
    → IsSpaced limits.launch_spacing g.last_launch (launches limits acts g)
unfolding launches
launches-IsSpaced limits [] g = IsSpaced-nil limits.launch_spacing g.last_launch
launches-IsSpaced limits (tries now ∷ acts) g =
    Turn-cases (IsSpaced limits.launch_spacing g.last_launch) limits now acts g
      (λ ready.
        IsSpaced-next limits g now (launches limits acts (record g { last_launch = some now }))
          ready (launches-IsSpaced limits acts (record g { last_launch = some now })) g.last_launch
          refl)
      (launches-IsSpaced limits acts g)
launches-IsSpaced limits (limited now ∷ acts) g =
    Limited-cases (IsSpaced limits.launch_spacing g.last_launch) limits now acts g
      (λ strikes until _.
        launches-IsSpaced limits acts (record g { strikes = strikes; paused_until = until }))
      (launches-IsSpaced limits acts g)
launches-IsSpaced limits (succeeds ∷ acts) g = launches-IsSpaced limits acts (succeeded g)

paused :
    (limits : Limits) (acts : List Act) (g : Gate) (until : ℕ)
    → until ≤ g.paused_until
    → All (λ at. until ≤ at) (launches limits acts g)
unfolding launches
paused limits [] g until h = tt
paused limits (tries now ∷ acts) g until h =
    Turn-cases (All (λ at. until ≤ at)) limits now acts g
      (λ ready. (late ready, paused limits acts (record g { last_launch = some now }) until h))
      (paused limits acts g until h)
  where
    late : ready_at limits g ≤ now → until ≤ now
    late r = ground (arith, ready_pause limits g now)
paused limits (limited now ∷ acts) g until h =
    Limited-cases (All (λ at. until ≤ at)) limits now acts g
      (λ strikes until' more.
        paused limits acts (record g { strikes = strikes; paused_until = until' }) until
          (omega arith))
      (paused limits acts g until h)
paused limits (succeeds ∷ acts) g until h = paused limits acts (succeeded g) until h

-- A rate limit pauses the vendor by the wait of its place in the row, the last for all that are
-- behind: whoever calls afterwards, and whatever succeeds or is limited again, nothing is launched
-- before that pause is over.
pub rate_limited-launches :
    (limits : Limits) (now pause : ℕ) (g g' : Gate) (acts : List Act)
    → rate_limited limits now g ≡ some (pause, g')
    → (wait_at (min g.strikes (length limits.rate_limit_waits - 1)) limits.rate_limit_waits
        ≡ some pause)
      × All (λ at. now + pause ≤ at) (launches limits acts g')
unfolding rate_limited
rate_limited-launches limits now pause g g' acts h =
    (ground arith, paused limits acts g' (now + pause) (ground arith))
