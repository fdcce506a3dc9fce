-- ===== src/Gateway/Examples.antt =====
-- A gateway with two models on the card.
use Prim.Native.String.{String}
use ai_lab.Common.{ℕ, ◌≡◌, refl, true, false, none, some, List, [], ◌∷◌, arith, string_key}
use ai_lab.Common.Member.{here}
use ai_lab.Common.Dict.{get}
use ai_lab.Admission.Parts.{Shape, Waiting, Rules, Clients, wanted}
use ai_lab.Admission.Scheduler.{at_once, enter, new_state, new_scheduler}
use ai_lab.Replaced.{since}
use ai_lab.Loading.{Instance, Memory, new_loader}
use ai_lab.Gateway.{Gateway, adopt_card, reset_all, timeouts_for}
use ai_lab.Gateway.Stopped.{
  turned_away, reset_all-Told, reset_all-AdmitsRunning, adopt_card-Dropped,
}

abbrev memory : Memory
memory = record {
  Reading = ℕ;
  needs_mb = λ shape. 1000;
  capacity_mb = λ free. 24000;
  free_mb = λ free. free;
}

abbrev name_of : Shape → String
name_of shape = "a"

abbrev waiting : Waiting
waiting = record { number = 4; shape = 7; arrived = 2; still_wanted = false }

abbrev gateway : Gateway memory name_of
gateway = record {
  scheduler = record (new_scheduler 9) {
    card = record new_state { loaded = (7, 1) ∷ (8, 3) ∷ []; queue = waiting ∷ [] };
  };
  loader = new_loader memory 500;
  replacements = record { taken_off = []; notes = [] };
  last_error = none;
  first_token_s = [];
  first_tokens = [];
  first_byte_s = 600;
  between_bytes_s = 120;
  task_timeouts = ("speech", record { first_byte_s = some 30; between_bytes_s = none }) ∷ [];
}

abbrev rules : Rules
rules = record { places = λ shape. 4; make_room = λ shape. λ loaded. some [] }

speech_waits : timeouts_for memory name_of "speech" gateway ≡ (30, 120)
unfolding timeouts_for get
speech_waits = refl

reset_all-Told_example :
    let after = (reset_all memory name_of 9 "stop" gateway).1 in
    (after.scheduler.card.queue ≡ [])
    × (after.scheduler.card.loaded ≡ [])
    × (after.scheduler.card.told ≡ turned_away "stop" (waiting ∷ []) [])
    × (after.loader.resweep ≡ true)
    × (since "a" 3 after.replacements ≡ some "stop")
reset_all-Told_example = reset_all-Told memory name_of 9 "stop" "a" 3 gateway refl (omega arith)

abbrev found : List Instance
found =
    record { id = "x"; shape = 5; running = false; ready = false }
    ∷ record { id = "a"; shape = 7; running = true; ready = true }
    ∷ []

abbrev nobody : Clients
nobody number = wanted

reset_all-AdmitsRunning_example :
    let after = adopt_card memory name_of 9 found (reset_all memory name_of 9 "stop" gateway).1 in
    (enter rules 12 nobody 7 false after.scheduler).0 ≡ at_once
reset_all-AdmitsRunning_example =
    reset_all-AdmitsRunning memory name_of 9 "stop" rules nobody 12 false found 7 gateway refl refl
      here (omega arith)

abbrev loading : Gateway memory name_of
loading = record gateway {
  scheduler = record gateway.scheduler {
    card = record gateway.scheduler.card { switching = true };
  };
}

adopt_card-Dropped_example :
    ((adopt_card memory name_of 9 found loading).scheduler.card ≡ loading.scheduler.card)
    × ((adopt_card memory name_of 9 found loading).loader.resweep ≡ false)
adopt_card-Dropped_example = adopt_card-Dropped memory name_of 9 found loading refl refl refl
