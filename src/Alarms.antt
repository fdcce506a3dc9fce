-- ===== src/Alarms.antt =====
-- ai_lab/gpu_health/alarms.py: `AlarmBook`. The tables of the store are lists here, oldest first, and a
-- clock that never was is `none`. The details of a condition are a dictionary of texts.
pub mod Quiet
pub mod Recorded
mod Examples
use ai_lab.Common.{
  ℕ, ◌+◌, Bool, true, false, not, ◌&&◌, ◌||◌, Option, none, some, List, [], ◌∷◌, ◌++◌,
  if◌then◌else◌, ltb, leb, ◌==◌,
}
use ai_lab.Common.Dict.{Dict, get, put, pop}
use ai_lab.Clients.Text.{Text, codes, text_key}

pub data Level : Type 0 where
  info warning alarm critical : Level

abbrev pub rank : Level → ℕ
rank info = 0
rank warning = 1
rank alarm = 2
rank critical = 3

abbrev pub is_critical : Level → Bool
is_critical critical = true
is_critical info = false
is_critical warning = false
is_critical alarm = false

pub record Condition : Type 0 where
  pub key : Text
  pub level : Level
  pub message : Text
  pub detail : Dict Text Text

pub record Entry : Type 0 where
  pub condition : Condition
  pub family : Text
  pub since : ℕ
  pub notified : Bool

pub data Kind : Type 0 where
  resolved raised happened : Kind

pub record Event : Type 0 where
  pub ts : ℕ
  pub kind : Kind
  pub condition : Condition
  pub is_sent : Bool
  pub is_repeat : Bool

pub record Settings : Type 0 where
  pub repeat_s : ℕ
  pub critical_repeat_s : ℕ

-- `events` is the table, `messages` what was handed to `send`.
pub record Book : Type 0 where
  pub active : Dict Text Entry
  pub sent : Dict Text ℕ
  pub events : List Event
  pub messages : List Event

abbrev pub wait_of : Settings → Level → ℕ
wait_of settings level = if is_critical level then settings.critical_repeat_s else settings.repeat_s

abbrev pub is_over : ℕ → ℕ → Option ℕ → Bool
is_over now wait none = true
is_over now wait (some last) = leb (last + wait) now

abbrev pub is_info : Level → Bool
is_info info = true
is_info warning = false
is_info alarm = false
is_info critical = false

module _ (settings : Settings) where
  unfoldable pub due : Text → Level → ℕ → Book → Bool
  due key level now b =
      if is_info level then false else is_over now (wait_of settings level) (get key b.sent)

  abbrev pub sent_after : Kind → Text → ℕ → Dict Text ℕ → Dict Text ℕ
  sent_after resolved key now sent = pop key sent
  sent_after raised key now sent = put key now sent
  sent_after happened key now sent = put key now sent

  -- `_record`
  unfoldable pub record_event : ℕ → Kind → Condition → Bool → Bool → Book → Book
  record_event now kind c send repeat b =
      if repeat && not send
      then b
      else let event : Event = record {
        ts = now;
        kind = kind;
        condition = c;
        is_sent = send;
        is_repeat = repeat;
      } in
        if send
        then record b {
          events = b.events ++ event ∷ [];
          sent = sent_after kind c.key now b.sent;
          messages = b.messages ++ event ∷ [];
        }
        else record b { events = b.events ++ event ∷ [] }

  -- `_resolve`, with the entry that was in force.
  unfoldable pub resolve : ℕ → Text → Entry → Book → Book
  unfolding record_event
  resolve now key known b =
      record_event now resolved
        (record {
          key = key;
          level = known.condition.level;
          message = codes "Resolved: " ++ known.condition.message;
          detail = known.condition.detail;
        })
        known.notified false (record b { active = pop key b.active })

  abbrev pub raise_new : Text → ℕ → Condition → Bool → Book → Book
  raise_new family now c send b = record_event now raised c send false (record b {
    active =
        put c.key (record { condition = c; family = family; since = now; notified = send })
          b.active;
  })

  abbrev pub raise_again : ℕ → Condition → Entry → Bool → Book → Book
  raise_again now c entry send b = record_event now raised c send true (record b {
    active =
        put c.key
          (record entry {
            condition = record entry.condition {
              level = c.level;
              message = c.message;
              detail = c.detail;
            };
            notified = entry.notified || send;
          })
          b.active;
  })

  -- `_raise`
  unfoldable pub raise : Text → ℕ → Condition → Book → Book
  unfolding due
  raise family now c b = elim (get c.key b.active) [
    | none ↦ raise_new family now c (due c.key c.level now b || is_critical c.level) b
    | some entry ↦
        raise_again now c entry
          (due c.key c.level now b || ltb (rank entry.condition.level) (rank c.level)) b
  ]

  unfoldable pub event : ℕ → Condition → Book → Book
  unfolding due record_event
  event now c b =
      record_event now happened c (is_critical c.level || due c.key c.level now b) false b

  abbrev pub by_key : List Condition → Dict Text Condition → Dict Text Condition
  by_key [] d = d
  by_key (c ∷ found) d = by_key found (put c.key c d)

  abbrev pub is_in : Option Condition → Bool
  is_in none = false
  is_in (some c) = true

  unfoldable pub resolve_ended : Text → ℕ → Dict Text Condition → Dict Text Entry → Book → Book
  unfolding resolve
  resolve_ended family now found [] b = b
  resolve_ended family now found ((key, known) ∷ rest) b =
      resolve_ended family now found rest (
        if known.family == family && not (is_in (get key found))
        then resolve now key known b
        else b)

  unfoldable pub raise_all : Text → ℕ → Dict Text Condition → Book → Book
  unfolding raise
  raise_all family now [] b = b
  raise_all family now ((key, c) ∷ rest) b = raise_all family now rest (raise family now c b)

  -- The conditions of one family that are true now.
  unfoldable pub conditions : Text → ℕ → List Condition → Book → Book
  unfolding resolve_ended raise_all
  conditions family now found b =
      let found' = by_key found [] in
      raise_all family now found' (resolve_ended family now found' b.active b)
