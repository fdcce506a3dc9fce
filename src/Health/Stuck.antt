-- ===== src/Health/Stuck.antt =====
-- When an engine counts as stuck, and what is forgotten of one that was restarted.
use ai_lab.Common.{
  ℕ, ◌+◌, ◌-◌, ◌*◌, ◌≤◌, ◌<◌, ◌≡◌, ◌⊎◌, inl, inr, true, false, Option, none, some, arith,
  Bool-cases, Option-cases,
}
use ai_lab.Clients.Text.{text_key}
use ai_lab.Health.{Report, Progress, idle_for, look, not_less_than, is_idle}

-- The engine has work, and its counter stands where it stood.
abbrev pub StandsStill : Report → Option ℕ → Type 0
StandsStill report last =
    (is_idle report ≡ false)
    × ((work : ℕ) × (report.tokens_processed ≡ some work) × (last ≡ some work))

-- An engine is said to have been without work for any time only if somebody looked at it within the
-- last three reads. The time is then counted from the last progress that was known before; and
-- either it is too early to read again, and the watch stays as it is, or what is read now gives no
-- counter or shows that the engine has work and its counter stands still.
pub idle_for-Stuck :
    (read_every now : ℕ) (report : Report) (p : Progress)
    → 0 < (idle_for read_every now report p).0
    → ((last : ℕ) × (p.last_read ≡ some last) × (now ≤ last + read_every * 3))
      × ((idle_for read_every now report p).0 ≡ now - p.last_progress)
      × (((not_less_than now read_every p.last_read ≡ false)
            × ((idle_for read_every now report p).1 ≡ p))
          ⊎ ((report.tokens_processed ≡ none) ⊎ StandsStill report p.last_work))
unfolding idle_for look
idle_for-Stuck read_every now report p h = (
  recent (Option-cases p.last_read),
  ground arith,
  still (Bool-cases (not_less_than now read_every p.last_read)),
)
  where
    recent :
        (p.last_read ≡ none) ⊎ ((last : ℕ) × (p.last_read ≡ some last))
        → (last : ℕ) × (p.last_read ≡ some last) × (now ≤ last + read_every * 3)
    recent (inl none_yet) = absurd (ground arith)
    recent (inr (last, e)) = (last, e, ground arith)

    still :
        (not_less_than now read_every p.last_read ≡ true)
          ⊎ (not_less_than now read_every p.last_read ≡ false)
        → ((not_less_than now read_every p.last_read ≡ false)
            × ((idle_for read_every now report p).1 ≡ p))
          ⊎ ((report.tokens_processed ≡ none) ⊎ StandsStill report p.last_work)
    still (inr early) = inl (early, ground arith)
    still (inl time) = ground arith
