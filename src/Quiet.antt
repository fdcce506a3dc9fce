-- ===== src/Quiet.antt =====
-- ai_lab/gateway/resources.py: `wait_until_quiet` and `_wait_for_release`. What the machine answers and
-- the clock read at each round are given by the number of the round; times are whole milliseconds.
pub mod Released
mod Examples
use ai_lab.Common.{
  ℕ, zero, suc, ◌+◌, Bool, true, false, ◌&&◌, ◌||◌, Option, none, some, List, [], ◌∷◌,
  if◌then◌else◌, ltb, leb, keep, ◌==◌,
}
use ai_lab.Clients.Text.{Text, text_key}

pub record Look : Type 0 where
  pub running : List Text
  pub used_mb : ℕ
  pub clock : ℕ

-- What a wait comes to; `did_not_exit` and `still_holds` are raised.
pub data Quiet : Type 0 where
  quiet : Quiet
  did_not_exit : List Text → Quiet
  still_holds : ℕ → Quiet

abbrev pub is_up : Text → List Text → Bool
is_up name [] = false
is_up name (r ∷ running) = let later = is_up name running in if r == name then true else later

abbrev pub still_up : List Text → List Text → List Text
still_up stopped running = keep (λ name. is_up name running) stopped

abbrev pub some_left : List Text → Bool
some_left [] = false
some_left (x ∷ xs) = true

module _ (quiet_mb deadline : ℕ) (looks : ℕ → Look) where
  -- The loop of `_wait_for_release`; `none` where the fuel is spent.
  unfoldable pub release_loop : ℕ → ℕ → Option Quiet
  release_loop zero n = none
  release_loop (suc fuel) n =
      let rest = release_loop fuel (n + 1) in
      if leb (looks n).used_mb quiet_mb
      then some quiet
      else if ltb deadline (looks n).clock
      then some (still_holds (looks n).used_mb)
      else rest

  unfoldable pub wait_for_release : ℕ → ℕ → Bool → Option Quiet
  unfolding release_loop
  wait_for_release fuel n keeping = if keeping then some quiet else release_loop fuel n

  abbrev pub gone_or : ℕ → ℕ → List Text → Option Quiet → Option Quiet
  gone_or fuel n [] rest = wait_for_release fuel n (some_left (looks n).running)
  gone_or fuel n (name ∷ names) rest =
      if ltb deadline (looks n).clock then some (did_not_exit (name ∷ names)) else rest

  unfoldable pub exit_loop : ℕ → List Text → ℕ → Option Quiet
  exit_loop zero stopped n = none
  exit_loop (suc fuel) stopped n =
      gone_or (suc fuel) n (still_up stopped (looks n).running) (exit_loop fuel stopped (n + 1))

abbrev pub enough : ℕ → ℕ
enough deadline = deadline + 2

-- The neighbours make way first, which is theirs; `is_dedicated` is what the card says it is.
unfoldable pub wait_until_quiet : ℕ → ℕ → Bool → List Text → (ℕ → Look) → Option Quiet
unfolding exit_loop
wait_until_quiet quiet_mb deadline is_dedicated [] looks = some quiet
wait_until_quiet quiet_mb deadline is_dedicated (name ∷ names) looks =
    if is_dedicated
    then exit_loop quiet_mb deadline looks (enough deadline) (name ∷ names) 0
    else some quiet
