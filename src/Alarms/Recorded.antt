-- ===== src/Alarms/Recorded.antt =====
-- The events table against what was sent.
use ai_lab.Common.{
  ℕ, ◌≡◌, refl, sym, ap, ◌∙◌, Bool, true, false, not, ◌&&◌, ◌||◌, Option, none, some, List, [], ◌∷◌,
  ◌++◌, if◌then◌else◌, if_cases, keep, ◌==◌, arith, append-nil, ltb,
}
use ai_lab.Common.Dict.{Dict, get, put, pop}
use ai_lab.Clients.Text.{Text, text_key, codes}
use ai_lab.Alarms.{
  Condition, Entry, Kind, Event, Settings, Book, record_event, resolve, raise, raise_new,
  raise_again, event, conditions, resolve_ended, raise_all, by_key, due, is_critical, is_in, rank,
  raised, resolved, happened,
}

abbrev pub IsTold : Book → Type 0
IsTold b = b.messages ≡ keep (λ (e : Event). e.is_sent) b.events

keep-end :
    (xs : List Event) (e : Event)
    → keep (λ (e : Event). e.is_sent) (xs ++ e ∷ [])
      ≡ keep (λ (e : Event). e.is_sent) xs ++ (if e.is_sent then e ∷ [] else [])
keep-end [] e = ground arith
keep-end (x ∷ xs) e = ground (arith, keep-end xs e)

abbrev noted : ℕ → Kind → Condition → Bool → Bool → Event
noted now kind c send repeat = record {
  ts = now;
  kind = kind;
  condition = c;
  is_sent = send;
  is_repeat = repeat;
}

module _ (settings : Settings) where
  record_event-IsTold :
      (now : ℕ) (kind : Kind) (c : Condition) (send repeat : Bool) (b : Book)
      → IsTold b
      → IsTold (record_event settings now kind c send repeat b)
  unfolding record_event
  record_event-IsTold now kind c true true b h =
      ap (λ l. l ++ noted now kind c true true ∷ []) h
      ∙ sym (keep-end b.events (noted now kind c true true))
  record_event-IsTold now kind c true false b h =
      ap (λ l. l ++ noted now kind c true false ∷ []) h
      ∙ sym (keep-end b.events (noted now kind c true false))
  record_event-IsTold now kind c false true b h = h
  record_event-IsTold now kind c false false b h =
      h
      ∙ sym (append-nil (keep (λ (e : Event). e.is_sent) b.events))
      ∙ sym (keep-end b.events (noted now kind c false false))

  raise-IsTold :
      (family : Text) (now : ℕ) (c : Condition) (b : Book)
      → IsTold b
      → IsTold (raise settings family now c b)
  unfolding raise
  raise-IsTold family now c b h = by_entry (get c.key b.active)
    where
      by_entry :
          (o : Option Entry)
          → IsTold (elim o as (λ _. Book) [
            | none ↦
                raise_new settings family now c
                  (due settings c.key c.level now b || is_critical c.level)
                  b
            | some entry ↦
                raise_again settings now c entry
                  (due settings c.key c.level now b
                    || ltb (rank entry.condition.level) (rank c.level))
                  b
          ])
      by_entry none =
          record_event-IsTold now raised c (due settings c.key c.level now b || is_critical c.level)
            false
            (record b {
              active =
                  put c.key
                    (record {
                      condition = c;
                      family = family;
                      since = now;
                      notified = due settings c.key c.level now b || is_critical c.level;
                    })
                    b.active;
            })
            h
      by_entry (some entry) =
          let send : Bool =
            due settings c.key c.level now b || ltb (rank entry.condition.level) (rank c.level) in
          record_event-IsTold now raised c send true
            (record b {
              active =
                  put c.key
                    (record entry {
                      condition = record entry.condition {
                        level = c.level;
                        message = c.message;
                        detail = c.detail;
                      };
                      notified = entry.notified || send;
                    })
                    b.active;
            })
            h

  raise_all-IsTold :
      (family : Text) (now : ℕ) (found : Dict Text Condition) (b : Book)
      → IsTold b
      → IsTold (raise_all settings family now found b)
  unfolding raise_all
  raise_all-IsTold family now [] b h = h
  raise_all-IsTold family now ((key, c) ∷ rest) b h =
      raise_all-IsTold family now rest (raise settings family now c b)
        (raise-IsTold family now c b h)

  resolve-IsTold :
      (now : ℕ) (key : Text) (known : Entry) (b : Book)
      → IsTold b
      → IsTold (resolve settings now key known b)
  unfolding resolve
  resolve-IsTold now key known b h =
      record_event-IsTold now resolved
        (record {
          key = key;
          level = known.condition.level;
          message = codes "Resolved: " ++ known.condition.message;
          detail = known.condition.detail;
        })
        known.notified false (record b { active = pop key b.active }) h

  resolve_ended-IsTold :
      (family : Text) (now : ℕ) (found : Dict Text Condition) (known : Dict Text Entry) (b : Book)
      → IsTold b
      → IsTold (resolve_ended settings family now found known b)
  unfolding resolve_ended
  resolve_ended-IsTold family now found [] b h = h
  resolve_ended-IsTold family now found ((key, known) ∷ rest) b h =
      resolve_ended-IsTold family now found rest
        (if known.family == family && not (is_in settings (get key found))
          then resolve settings now key known b
          else b)
        (if_cases IsTold (known.family == family && not (is_in settings (get key found)))
          (λ _. resolve-IsTold now key known b h) (λ _. h))

  -- What the book is told, one after the other.
  pub data Reach : Book → Type 0 where
    begins :
        (active : Dict Text Entry) (sent : Dict Text ℕ)
        → Reach (record { active = active; sent = sent; events = []; messages = [] })
    finds :
        {b : Book} (family : Text) (now : ℕ) (found : List Condition)
        → Reach b
        → Reach (conditions settings family now found b)
    meets : {b : Book} (now : ℕ) (c : Condition) → Reach b → Reach (event settings now c b)

  -- Whatever conditions come and go and whatever happens, from any state that was kept: what was
  -- sent is exactly what the events table has marked as sent, in its order, so that nothing is sent
  -- that was not written down.
  pub Reach-IsTold : (b : Book) → Reach b → IsTold b
  unfolding conditions event
  Reach-IsTold b (begins active sent) = refl
  Reach-IsTold b (finds {b = c} family now found r) =
      raise_all-IsTold family now (by_key settings found [])
        (resolve_ended settings family now (by_key settings found []) c.active c)
        (resolve_ended-IsTold family now (by_key settings found []) c.active c (Reach-IsTold c r))
  Reach-IsTold b (meets {b = c} now e r) =
      record_event-IsTold now happened e (is_critical e.level || due settings e.key e.level now c)
        false c (Reach-IsTold c r)
