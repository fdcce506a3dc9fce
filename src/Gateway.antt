-- ===== src/Gateway.antt =====
-- ai_lab/gateway/core.py and control.py: the gateway over its parts, the scheduler, the loader, the
-- book of models taken off and the engines being restarted. The catalogue, which reads the
-- configuration, is outside: an id is given with its shape. What the card lists is an argument.
pub mod Stopped
pub mod Buttons
mod Examples
use Prim.Native.String.{String}
use ai_lab.Common.{
  ℕ, ◌+◌, Bool, true, false, not, ◌&&◌, ◌||◌, Option, none, some, List, [], ◌∷◌, map, if◌then◌else◌,
  ltb, leb, eqb, length, string_key, ◌==◌,
}
use ai_lab.Common.Dict.{Dict, get, put}
use ai_lab.Admission.Parts.{Shape, Loaded, Rules, or_zero}
use ai_lab.Admission.Scheduler.{
  Scheduler, LoadedRow, Report, reset, adopt, forget_current, state_report,
}
use ai_lab.Replaced.{Replacements, switched, stopped}
use ai_lab.Loading.{
  Instance, CardOperations, Memory, Loader, Switched, LoadError, card_changed, adopt_what_is_there,
  put_on_card, is_in,
}

-- The shapes that the scheduler holds to be loaded.
abbrev pub shapes_of : Dict Shape ℕ → List Shape
shapes_of loaded = map (λ item. item.0) loaded

-- `max(state["loaded"], key=…, default=None)`: the first of the busiest.
unfoldable pub busiest : List LoadedRow → Option LoadedRow
busiest [] = none
busiest (row ∷ rows) = elim (busiest rows) [
  | none ↦ some row
  | some best ↦ if leb best.in_flight row.in_flight then some row else some best
]

-- What holds the card, for the page and for a refusal.
pub record Holder : Type 0 where
  pub instance_id : String
  pub answering : Bool
  pub in_flight : ℕ
  pub places : ℕ
  pub waiting : ℕ
  pub switching : Bool

pub data LastError : Type 0 where
  restarted_for : (id reason : String) → LastError
  stopping_failed : (reason id words : String) → LastError

-- Limits of a task that the machine names, in seconds.
pub record Waits : Type 0 where
  pub first_byte_s : Option ℕ
  pub between_bytes_s : Option ℕ

abbrev pub or_default : ℕ → Option ℕ → ℕ
or_default default none = default
or_default default (some n) = n

abbrev pub places_of : Option LoadedRow → ℕ
places_of none = 0
places_of (some row) = row.places

abbrev pub is_idle : Report → Bool
is_idle state = eqb state.in_flight 0 && eqb (length state.waiting) 0 && not state.switching

module _ (memory : Memory) (instance_of : Shape → String) where
  pub record Gateway : Type 0 where
    pub scheduler : Scheduler
    pub loader : Loader memory
    pub replacements : Replacements
    pub last_error : Option LastError
    pub first_token_s : Dict String ℕ
    pub first_tokens : Dict String ℕ
    pub first_byte_s : ℕ
    pub between_bytes_s : ℕ
    pub task_timeouts : Dict String Waits

  abbrev pub loaded_ids : Gateway → List String
  loaded_ids g = map instance_of (shapes_of g.scheduler.card.loaded)

  abbrev pub adopted : ℕ → Option (List Shape) × Loader memory → Gateway → Gateway
  adopted now (none, l) g = record g { loader = l }
  adopted now (some shapes, l) g = record g {
    loader = l;
    scheduler = record g.scheduler { card = adopt now shapes g.scheduler.card };
  }

  -- `adopt_what_is_there`, given what the card lists.
  unfoldable pub adopt_card : ℕ → List Instance → Gateway → Gateway
  unfolding adopt_what_is_there adopt
  adopt_card now found g = adopted now (adopt_what_is_there memory found g.loader) g

  -- `card_changed`
  unfoldable pub outside_changed : Gateway → Gateway
  unfolding forget_current
  outside_changed g = record g {
    scheduler = record g.scheduler { card = forget_current g.scheduler.card };
    loader = card_changed memory g.loader;
  }

  -- How many were turned away, and the gateway.
  unfoldable pub reset_all : ℕ → String → Gateway → ℕ × Gateway
  unfolding reset stopped
  reset_all now reason g =
      let (turned_away, card) = reset reason g.scheduler.card in
      (
        turned_away,
        record g {
          loader = card_changed memory g.loader;
          replacements = stopped now reason (loaded_ids g) g.replacements;
          scheduler = record g.scheduler { card = card };
        },
      )

  -- `_restart_stalled` up to what it forgets of the engine; `unloaded` is what `unload` raises, and
  -- `told` the words the waiting are turned away with.
  unfoldable pub restart_stalled : ℕ → String → String → String → Option String → Gateway → Gateway
  unfolding reset_all
  restart_stalled now id reason told unloaded g =
      (reset_all now told (record g {
        last_error = elim unloaded [
          | none ↦ some (restarted_for id reason)
          | some words ↦ some (stopping_failed reason id words)
        ];
      })).1

  unfoldable pub first_token : ℕ → String → Gateway → Gateway
  first_token seconds id g = record g {
    first_token_s = put id (or_zero (get id g.first_token_s) + seconds) g.first_token_s;
    first_tokens = put id (or_zero (get id g.first_tokens) + 1) g.first_tokens;
  }

  abbrev pub waits_of : Gateway → Option Waits → ℕ × ℕ
  waits_of g none = (g.first_byte_s, g.between_bytes_s)
  waits_of g (some waits) = (
    or_default g.first_byte_s waits.first_byte_s,
    or_default g.between_bytes_s waits.between_bytes_s,
  )

  unfoldable pub timeouts_for : String → Gateway → ℕ × ℕ
  timeouts_for task g = waits_of g (get task g.task_timeouts)

  abbrev pub id_of : Option LoadedRow → String
  id_of none = ""
  id_of (some row) = instance_of row.shape

  abbrev pub busy_of : Report → Option Holder
  busy_of state =
      let best = busiest state.loaded in
      if is_idle state
      then none
      else some (record {
        instance_id = id_of best;
        answering = ltb 0 state.in_flight;
        in_flight = state.in_flight;
        places = places_of best;
        waiting = length state.waiting;
        switching = state.switching;
      })

  module _ (rules : Rules) where
    unfoldable pub busy : ℕ → Gateway → Option Holder
    unfolding state_report busiest
    busy now g = busy_of (state_report rules now g.scheduler.card)

    unfoldable pub activity : ℕ → Gateway → String × Bool
    unfolding state_report busiest
    activity now g =
        let state = state_report rules now g.scheduler.card in
        (id_of (busiest state.loaded), ltb 0 state.in_flight)

    -- `guard`: the holder that a refusal names, or nothing if the button may go ahead.
    unfoldable pub guard : ℕ → Gateway → Option Holder
    unfolding busy
    guard now g = busy now g

  module _ (operations : CardOperations) where
    abbrev pub put_back :
        Gateway → Switched memory operations → Gateway × operations.Card × Option LoadError
    put_back g r = (record g { loader = r.loader }, r.card, r.raised)

    -- `_switch`, called with the lock dropped.
    unfoldable pub switch_to :
        ℕ
        → Shape
        → List Shape
        → Option String
        → Option memory.Reading
        → Option memory.Reading
        → ℕ
        → operations.Card
        → Gateway
        → Gateway × operations.Card × Option LoadError
    unfolding put_on_card switched
    switch_to now shape victims noise first second took card g =
        let id = instance_of shape in
        let ids = map instance_of victims in
        let g' = record g { replacements = switched now id ids g.replacements } in
        put_back g' (
          put_on_card memory operations id shape ids (loaded_ids g') noise first second took
            g'.loader card)
