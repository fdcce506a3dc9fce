-- ===== src/Alarms/Examples.antt =====
-- A chip that is too hot for a day.
use ai_lab.Common.{ℕ, ◌≡◌, refl, true, some, List, [], ◌∷◌, ◌++◌, map, arith}
use ai_lab.Common.Dict.{get, put, pop}
use ai_lab.Common.Spaced.{IsSpaced}
use ai_lab.Clients.Text.{Text, codes, text_key}
use ai_lab.Alarms.{
  warning, Condition, Event, Settings, Book, conditions, event, raise, resolve, record_event, due,
  raise_all, resolve_ended,
}
use ai_lab.Alarms.Quiet.{report_all, repeat_event, report_all-IsSpaced}

program : Unit {0}
unfolding conditions event raise resolve record_event due raise_all resolve_ended get put pop
program = tt

abbrev settings : Settings
settings = record { repeat_s = 21600; critical_repeat_s = 900 }

abbrev fast : Text
fast = codes "fast"

abbrev hot : Condition
hot = record { key = codes "hot"; level = warning; message = codes "hot"; detail = [] }

abbrev empty : Book
empty = record { active = []; sent = []; events = []; messages = [] }

abbrev first : Book
first = conditions settings fast 100 (hot ∷ []) empty

abbrev when_sent : Book → List ℕ
when_sent b = map (λ (e : Event). e.ts) b.messages

over_a_day :
    when_sent (
      conditions settings fast 30000 (hot ∷ []) (
        conditions settings fast 23000 [] (
          conditions settings fast 21700
            (hot ∷ [])
            (conditions settings fast 21699 (hot ∷ []) first))))
    ≡ 100 ∷ 21700 ∷ 23000 ∷ 30000 ∷ []
unfolding program
over_a_day = refl

report_all-IsSpaced_example :
    (ts : List ℕ) × ((report_all settings fast hot (200 ∷ 21700 ∷ 21800 ∷ []) first).messages
      ≡ first.messages ++ map (repeat_event settings fast hot) ts)
    × IsSpaced 21600 (some 100) ts
unfolding program
report_all-IsSpaced_example =
    report_all-IsSpaced settings fast hot (200 ∷ 21700 ∷ 21800 ∷ []) first
      (record { condition = hot; family = fast; since = 100; notified = true }, refl, omega arith)
