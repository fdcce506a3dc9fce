-- ===== src/Loading.antt =====
-- ai_lab/gateway/loading.py: room on the card, and the switch that puts a model there. The card's
-- operations (card_operations.py) are an interface; memory is read through functions of a reading,
-- whose form is open. Which readings the probe gives, and whether the wait for a quiet card raises,
-- is told to each call. Times are whole tenths of a second.
pub mod Cleared
pub mod Loads
mod Examples
use Prim.Native.String.{String}
use ai_lab.Common.{
  ℕ, ◌+◌, ◌-◌, ◌≡◌, Bool, true, false, not, ◌&&◌, ◌||◌, Option, none, some, List, [], ◌∷◌, ◌++◌,
  map, if◌then◌else◌, ltb, leb, eqb, length, keep, string_key, ◌==◌,
}
use ai_lab.Common.Newest.{newest}
use ai_lab.Admission.Parts.{Shape, Loaded}
use ai_lab.Eviction.{choose}

-- One row of `instances()`; its shape is `Shape.of` its id and its settings.
pub record Instance : Type 0 where
  pub id : String
  pub shape : Shape
  pub running : Bool
  pub ready : Bool

-- What `load` returns.
pub record Operation : Type 0 where
  pub ok : Bool
  pub error : String
  pub total_ms : ℕ

abbrev pub stop : String → Instance → Instance
stop id item = if id == item.id then record item { running = false; ready = false } else item

-- What `unload` does: it raises, or it returns an operation, which may not be `ok`.
pub data Unload : Type 0 where
  raises : (words : String) → Unload
  returns : (ok : Bool) → Unload

-- Moving models on and off a card. An `unload` whose operation is `ok` stops the entries of that id
-- and no other; of one that is not, or that raises, nothing is known.
pub record CardOperations : Type 1 where
  pub Card : Type 0
  pub instances : Card → List Instance
  pub unload : String → Card → Card × Unload
  pub load : Shape → Card → Card × Operation
  pub unload-instances :
      (id : String) (card : Card)
      → (unload id card).1 ≡ returns true
      → instances (unload id card).0 ≡ map (stop id) (instances card)

pub record Memory : Type 1 where
  pub Reading : Type 0
  pub needs_mb : Shape → ℕ
  pub capacity_mb : Reading → ℕ
  pub free_mb : Reading → ℕ

-- One line of the history; its time of day is left out.
pub record Entry : Type 0 where
  pub loaded : String
  pub unloaded : List String
  pub took : ℕ
  pub load_ms : ℕ

pub data LoadError : Type 0 where
  said : (words : String) → LoadError
  would_not_start : (id : String) → LoadError
  still_full : (id : String) (needed free : ℕ) → LoadError

abbrev pub is_in : String → List String → Bool
is_in id [] = false
is_in id (other ∷ ids) = (other == id) || is_in id ids

-- What `_clear` unloads: the victims, and what the scheduler does not know.
abbrev pub has_to_go : List String → List String → Instance → Bool
has_to_go wanted known item = item.running && (is_in item.id wanted || not (is_in item.id known))

abbrev pub or_would_not : String → String → LoadError
or_would_not id words = if words == "" then would_not_start id else said words

module _ (memory : Memory) where
  pub record Loader : Type 0 where
    pub pools : memory.Reading
    pub resweep : Bool
    pub switches : ℕ
    pub evictions : ℕ
    pub switch_s : ℕ
    pub history : List Entry

  abbrev pub history_kept : ℕ
  history_kept = 50

  -- At the start a sweep is due.
  abbrev pub new_loader : memory.Reading → Loader
  new_loader pools = record {
    pools = pools;
    resweep = true;
    switches = 0;
    evictions = 0;
    switch_s = 0;
    history = [];
  }

  abbrev pub card_changed : Loader → Loader
  card_changed l = record l { resweep = true }

  abbrev pub take_resweep : Loader → Bool × Loader
  take_resweep l = (l.resweep, record l { resweep = false })

  abbrev pub read_the_card : Option memory.Reading → Loader → Loader
  read_the_card none l = l
  read_the_card (some pools) l = record l { pools = pools }

  abbrev pub any_coming_up : List Instance → Bool
  any_coming_up [] = false
  any_coming_up (item ∷ items) = not item.ready || any_coming_up items

  -- What is to be adopted, if anything: `found` is what the card lists when it is asked.
  unfoldable pub adopt_what_is_there : List Instance → Loader → Option (List Shape) × Loader
  adopt_what_is_there found l =
      let (asked, l') = take_resweep l in
      let up = keep (λ item. item.running) found in
      if not asked
      then (none, l')
      else if any_coming_up up
      then (none, card_changed l')
      else (some (map (λ item. item.shape) up), l')

  unfoldable pub make_room : Shape → List Loaded → Loader → Option (List Shape)
  unfolding choose
  make_room shape loaded l =
      choose memory.needs_mb shape loaded (memory.free_mb l.pools) (memory.capacity_mb l.pools)

  unfoldable pub is_still_full : Shape → Loader → Bool
  is_still_full shape l =
      let needed = memory.needs_mb shape in
      let free = memory.free_mb l.pools in not (eqb needed 0 || eqb free 0 || leb needed free)

  -- `history.append(entry)`, and `del history[:-50]`
  abbrev pub keep_newest : List Entry → List Entry
  keep_newest = newest history_kept

  abbrev pub counted : Entry → Loader → Loader
  counted entry l = record l {
    switches = l.switches + 1;
    evictions = l.evictions + length entry.unloaded;
    switch_s = l.switch_s + entry.took;
    history = keep_newest (l.history ++ (entry ∷ []));
  }

  module _ (operations : CardOperations) where
    abbrev pub Cleared : Type 0
    Cleared = operations.Card × List String × Option String

    -- Whether the operation is `ok` is not looked at.
    abbrev pub unless_raised : Bool → String → operations.Card × Unload → Cleared → Cleared
    unless_raised gone id (card, raises words) rest = (card, [], some words)
    unless_raised gone id (card, returns ok) (card', stopped, raised) =
        (card', (if gone then id ∷ stopped else stopped), raised)

    -- The loop of `_clear` over what was listed: the card, what was stopped, and what was raised.
    unfoldable pub clear_each : (Instance → Bool) → List Instance → operations.Card → Cleared
    clear_each goes [] card = (card, [], none)
    clear_each goes (item ∷ items) card =
        let next = if goes item then operations.unload item.id card else (card, returns true) in
        unless_raised (goes item) item.id next (clear_each goes items next.0)

    unfoldable pub clear : List String → List String → operations.Card → Cleared
    unfolding clear_each
    clear wanted known card = clear_each (has_to_go wanted known) (operations.instances card) card

    -- What a switch leaves: the loader, the card, what was unloaded, and what it raised.
    pub record Switched : Type 0 where
      pub loader : Loader
      pub card : operations.Card
      pub unloaded : List String
      pub raised : Option LoadError

    abbrev pub after_load :
        String
        → Option memory.Reading
        → ℕ
        → List String
        → Loader
        → operations.Card × Operation
        → Switched
    after_load id second took unloaded l (card, operation) =
        let entry : Entry = record {
          loaded = id;
          unloaded = unloaded;
          took = took;
          load_ms = operation.total_ms;
        } in
        if operation.ok
        then record {
          loader = counted entry (read_the_card second l);
          card = card;
          unloaded = unloaded;
          raised = none;
        }
        else record {
          loader = l;
          card = card;
          unloaded = unloaded;
          raised = some (or_would_not id operation.error);
        }

    abbrev pub load_if_room :
        String
        → Shape
        → Option memory.Reading
        → ℕ
        → List String
        → Loader
        → operations.Card
        → Switched
    load_if_room id shape second took unloaded l card =
        if is_still_full shape l
        then record {
          loader = l;
          card = card;
          unloaded = unloaded;
          raised = some (still_full id (memory.needs_mb shape) (memory.free_mb l.pools));
        }
        else after_load id second took unloaded l (operations.load shape card)

    abbrev pub after_clear :
        String
        → Shape
        → Option String
        → Option memory.Reading
        → Option memory.Reading
        → ℕ
        → Loader
        → operations.Card × List String × Option String
        → Switched
    after_clear id shape noise first second took l (card, unloaded, some words) = record {
      loader = l;
      card = card;
      unloaded = unloaded;
      raised = some (said words);
    }
    after_clear id shape (some words) first second took l (card, unloaded, none) = record {
      loader = l;
      card = card;
      unloaded = unloaded;
      raised = some (said words);
    }
    after_clear id shape none first second took l (card, unloaded, none) =
        load_if_room id shape second took unloaded (read_the_card first l) card

    -- `noise` is what the wait for a quiet card raises, `first` and `second` the two readings.
    unfoldable pub put_on_card :
        String
        → Shape
        → List String
        → List String
        → Option String
        → Option memory.Reading
        → Option memory.Reading
        → ℕ
        → Loader
        → operations.Card
        → Switched
    unfolding clear is_still_full
    put_on_card id shape wanted known noise first second took l card =
        after_clear id shape noise first second took (take_resweep l).1 (clear wanted known card)
