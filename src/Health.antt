-- ===== src/Health.antt =====
-- ai_lab/gateway/progress.py `EngineProgress` and `ProgressBook`, and ai_lab/gateway/restart.py
-- `StalledEngines`: whether an engine is still at work, and its restart. What the engine reports and
-- the clock are arguments.
pub mod Stuck
mod Examples
use ai_lab.Common.{
  ℕ, ◌+◌, ◌-◌, ◌*◌, Bool, true, false, not, ◌&&◌, ◌||◌, Option, none, some, List, [], ◌∷◌,
  if◌then◌else◌, ltb, leb, eqb, keep, ◌==◌,
}
use ai_lab.Common.Dict.{Dict}
use ai_lab.Clients.Text.{Text, text_key}

-- A count of requests that is missing is zero.
pub record Report : Type 0 where
  pub tokens_processed : Option ℕ
  pub requests_running : ℕ
  pub requests_waiting : ℕ

-- `last_read` is `none` for "-inf".
pub record Progress : Type 0 where
  pub last_read : Option ℕ
  pub last_work : Option ℕ
  pub last_progress : ℕ

abbrev pub new_progress : ℕ → Progress
new_progress now = record { last_read = none; last_work = none; last_progress = now }

abbrev pub unwatched_reads : ℕ
unwatched_reads = 3

-- More, and not less, than so long since the last read.
abbrev pub longer_than : ℕ → ℕ → Option ℕ → Bool
longer_than now wait none = true
longer_than now wait (some last) = ltb (last + wait) now

abbrev pub not_less_than : ℕ → ℕ → Option ℕ → Bool
not_less_than now wait none = true
not_less_than now wait (some last) = leb (last + wait) now

abbrev pub same_work : ℕ → Option ℕ → Bool
same_work work none = false
same_work work (some last) = eqb work last

abbrev pub is_idle : Report → Bool
is_idle report = eqb report.requests_running 0 && eqb report.requests_waiting 0

abbrev pub look_at : Option ℕ → Report → ℕ → Progress → Progress
look_at none report now p = p
look_at (some work) report now p = record p {
  last_progress =
      if is_idle report || not (same_work work p.last_work) then now else p.last_progress;
  last_work = some work;
}

-- `_look`
unfoldable pub look : Report → ℕ → Progress → Progress
look report now p = look_at report.tokens_processed report now p

abbrev pub watched : ℕ → ℕ → Progress → Progress
watched read_every now p =
    if longer_than now (read_every * unwatched_reads) p.last_read
    then record p { last_progress = now }
    else p

-- The answer, and the watch after it; `report` is what `read()` answers if it is called.
unfoldable pub idle_for : ℕ → ℕ → Report → Progress → ℕ × Progress
unfolding look
idle_for read_every now report p =
    let w = watched read_every now p in
    let p' =
      if not_less_than now read_every p.last_read
      then look report now (record w { last_read = some now })
      else w in
    (now - p'.last_progress, p')

-- `ProgressBook`: the key is the instance and its port.
abbrev pub is_key : Text → ℕ → Text × ℕ → Bool
is_key instance_id port (i, p) = i == instance_id && eqb p port

unfoldable pub of :
    Text → ℕ → ℕ → List ((Text × ℕ) × Progress) → Progress × List ((Text × ℕ) × Progress)
of instance_id port now [] = (new_progress now, ((instance_id, port), new_progress now) ∷ [])
of instance_id port now ((k, p) ∷ book) =
    let (found, rest) = of instance_id port now book in
    if is_key instance_id port k then (p, (k, p) ∷ book) else (found, (k, p) ∷ rest)

unfoldable pub forget : Text → List ((Text × ℕ) × Progress) → List ((Text × ℕ) × Progress)
forget instance_id book =
    keep (λ (item : (Text × ℕ) × Progress). not (item.0.0 == instance_id)) book

-- `StalledEngines`: the engines being restarted.
unfoldable pub is_restarting : Text → List Text → Bool
is_restarting id [] = false
is_restarting id (i ∷ is) = let later = is_restarting id is in if i == id then true else later

-- Whether this call started it.
unfoldable pub report_stall : Text → List Text → Bool × List Text
unfolding is_restarting
report_stall id restarting =
    if is_restarting id restarting then (false, restarting) else (true, id ∷ restarting)

unfoldable pub restarted : Text → List Text → List Text
restarted id restarting = keep (λ i. not (i == id)) restarting
