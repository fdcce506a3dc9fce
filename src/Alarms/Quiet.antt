-- ===== src/Alarms/Quiet.antt =====
-- How often an alarm that lasts is sent.
use ai_lab.Common.{
  ℕ, ◌≤◌, ◌≡◌, refl, sym, ap, ◌∙◌, ◌⊎◌, inl, inr, Bool, true, false, ◌||◌, Option, none, some, List,
  [], ◌∷◌, ◌++◌, ltb, arith, append-nil, append_assoc, map, subst,
}
use ai_lab.Common.Dict.{get, get-put_self}
use ai_lab.Common.Spaced.{IsSpaced, IsSpaced-nil}
use ai_lab.Clients.Text.{Text, text_key}
use ai_lab.Alarms.{
  rank, Condition, Entry, raised, Event, Settings, Book, wait_of, is_over, due, record_event,
  raise_again, raise,
}

module _ (settings : Settings) (family : Text) (c : Condition) where
  -- The same condition, found at one time after the other.
  abbrev pub report_all : List ℕ → Book → Book
  report_all [] b = b
  report_all (now ∷ times) b = report_all times (raise settings family now c b)

  abbrev pub repeat_event : ℕ → Event
  repeat_event now = record {
    ts = now;
    kind = raised;
    condition = c;
    is_sent = true;
    is_repeat = true;
  }

  -- The condition is in force, and was as bad as it is now.
  abbrev pub Lasts : Book → Type 0
  Lasts b =
      (entry : Entry) × (get c.key b.active ≡ some entry)
      × (rank c.level ≤ rank entry.condition.level)

  -- What one report does: it is sent and starts the clock, when that is over, or it is held back.
  abbrev Reported : ℕ → Book → Book → Type 0
  Reported now b b' =
      ((is_over now (wait_of settings c.level) (get c.key b.sent) ≡ true)
        × (b'.messages ≡ b.messages ++ repeat_event now ∷ [])
        × (get c.key b'.sent ≡ some now))
      ⊎ ((b'.messages ≡ b.messages) × (b'.sent ≡ b.sent))

  abbrev again : ℕ → Entry → Bool → Book → Book
  again now entry send b = raise_again settings now c entry send b

  abbrev updated : Entry → Bool → Entry
  updated entry send = record entry {
    condition = record entry.condition { level = c.level; message = c.message; detail = c.detail };
    notified = entry.notified || send;
  }

  again-Reported :
      (now : ℕ) (entry : Entry) (send : Bool) (b : Book)
      → (send ≡ true → is_over now (wait_of settings c.level) (get c.key b.sent) ≡ true)
      → Reported now b (again now entry send b) × Lasts (again now entry send b)
  unfolding record_event
  again-Reported now entry true b over = (
    inl (over refl, refl, get-put_self c.key now b.sent),
    (updated entry true, get-put_self c.key (updated entry true) b.active, omega arith),
  )
  again-Reported now entry false b over = (
    inr (refl, refl),
    (updated entry false, get-put_self c.key (updated entry false) b.active, omega arith),
  )

  sends_when :
      (now : ℕ) (entry : Entry) (b : Book)
      → rank c.level ≤ rank entry.condition.level
      → (due settings c.key c.level now b || ltb (rank entry.condition.level) (rank c.level)) ≡ true
      → is_over now (wait_of settings c.level) (get c.key b.sent) ≡ true
  unfolding due
  sends_when now entry b h s = ground arith

  raise-Reported :
      (now : ℕ) (b : Book)
      → Lasts b
      → Reported now b (raise settings family now c b) × Lasts (raise settings family now c b)
  unfolding raise
  raise-Reported now b (entry, there, worse) =
      let send : Bool =
        due settings c.key c.level now b || ltb (rank entry.condition.level) (rank c.level) in
      rw (there, raise) (again-Reported now entry send b (sends_when now entry b worse))

  Spaced-next :
      (now : ℕ) (last : Option ℕ) (ts : List ℕ)
      → is_over now (wait_of settings c.level) last ≡ true
      → IsSpaced (wait_of settings c.level) (some now) ts
      → IsSpaced (wait_of settings c.level) last (now ∷ ts)
  Spaced-next now none ts over h = h
  Spaced-next now (some last) ts over h = (ground arith, h)

  -- A condition that lasts and does not get worse is repeated, however often it is found, only after
  -- the wait of its level since the last time it was sent: what is sent is that repeat, at times that
  -- are at least so far apart, and nothing else.
  pub report_all-IsSpaced :
      (times : List ℕ) (b : Book)
      → Lasts b
      → (ts : List ℕ) × ((report_all times b).messages ≡ b.messages ++ map repeat_event ts)
        × IsSpaced (wait_of settings c.level) (get c.key b.sent) ts
  report_all-IsSpaced [] b lasts =
      ([], sym (append-nil b.messages), IsSpaced-nil (wait_of settings c.level) (get c.key b.sent))
  report_all-IsSpaced (now ∷ times) b lasts =
      let (what, lasts') = raise-Reported now b lasts in
      let (ts, sent_then, spaced) =
        report_all-IsSpaced times (raise settings family now c b) lasts' in
      by_report ts sent_then spaced what
    where
      by_report :
          (ts : List ℕ)
          → (report_all times (raise settings family now c b)).messages
            ≡ (raise settings family now c b).messages ++ map repeat_event ts
          → IsSpaced (wait_of settings c.level) (get c.key (raise settings family now c b).sent) ts
          → Reported now b (raise settings family now c b)
          → (ts : List ℕ) × ((report_all times (raise settings family now c b)).messages
              ≡ b.messages ++ map repeat_event ts)
            × IsSpaced (wait_of settings c.level) (get c.key b.sent) ts
      by_report ts m spaced (inl (over, messages, clock)) = (
        now ∷ ts,
        m
            ∙ ap (λ l. l ++ map repeat_event ts) messages
            ∙ append_assoc b.messages (repeat_event now ∷ []) (map repeat_event ts),
        Spaced-next now (get c.key b.sent) ts over
            (subst (λ l. IsSpaced (wait_of settings c.level) l ts) clock spaced),
      )
      by_report ts m spaced (inr (messages, clock)) = (
        ts,
        m ∙ ap (λ l. l ++ map repeat_event ts) messages,
        subst (λ l. IsSpaced (wait_of settings c.level) l ts) (ap (get c.key) clock) spaced,
      )
