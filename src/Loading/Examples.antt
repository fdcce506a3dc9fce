-- ===== src/Loading/Examples.antt =====
-- A card with a known model, a model to be taken off and a stray.

use ai_lab.Common.{
  ℕ, ◌*◌, ◌≡◌, refl, true, false, ◌⊎◌, none, some, List, [], ◌∷◌, map, All, keep, string_key,
}
use ai_lab.Loading.{
  Instance, CardOperations, Memory, Loader, still_full, new_loader, stop, has_to_go, clear,
  put_on_card, returns,
}
use ai_lab.Loading.Cleared.{all_ok, MayRun, ids, stop_in, clear-Sweeps}
use ai_lab.Loading.Loads.{IsLoaded, IsUnchanged, put_on_card-Told}

abbrev card : List Instance
card =
    record { id = "a"; shape = 1; running = true; ready = true }
    ∷ record { id = "b"; shape = 2; running = true; ready = true }
    ∷ record { id = "c"; shape = 3; running = true; ready = true }
    ∷ record { id = "d"; shape = 4; running = false; ready = false }
    ∷ []

abbrev desk : CardOperations
desk = record {
  Card = List Instance;
  instances = λ c. c;
  unload = λ id. λ c. (map (stop id) c, returns true);
  load = λ shape. λ c. (c, record { ok = true; error = ""; total_ms = 900 });
  unload-instances = λ id. λ c. λ quiet. refl;
}

-- A reading is what is free.
abbrev memory : Memory
memory = record {
  Reading = ℕ;
  needs_mb = λ shape. 1000 * shape;
  capacity_mb = λ free. 24000;
  free_mb = λ free. free;
}

abbrev loader : Loader memory
loader = new_loader memory 500

-- "b" is the victim and "c" is not known.
swept : (clear memory desk ("b" ∷ []) ("a" ∷ "b" ∷ []) card).1 ≡ "b" ∷ "c" ∷ []
unfolding clear
swept = refl

still_full_after :
    (put_on_card memory desk "e" 5
      ("b" ∷ [])
      ("a" ∷ "b" ∷ [])
      none
      (some 4000)
      none
      30
      loader
      card).raised
    ≡ some (still_full "e" 5000 4000)
unfolding put_on_card
still_full_after = refl

clear-Sweeps_example :
    ((clear memory desk ("b" ∷ []) ("a" ∷ "b" ∷ []) card).2 ≡ none)
    × ((clear memory desk ("b" ∷ []) ("a" ∷ "b" ∷ []) card).1
        ≡ ids (keep (has_to_go ("b" ∷ []) ("a" ∷ "b" ∷ [])) card))
    × ((clear memory desk ("b" ∷ []) ("a" ∷ "b" ∷ []) card).0
        ≡ map (stop_in (clear memory desk ("b" ∷ []) ("a" ∷ "b" ∷ []) card).1) card)
    × All
        (MayRun ("b" ∷ []) ("a" ∷ "b" ∷ []))
        (clear memory desk ("b" ∷ []) ("a" ∷ "b" ∷ []) card).0
unfolding clear all_ok
clear-Sweeps_example = clear-Sweeps memory desk ("b" ∷ []) ("a" ∷ "b" ∷ []) card refl

put_on_card-Told_example :
    IsLoaded memory desk "e" 5
      (some 6000)
      none
      30
      loader
      (clear memory desk ("b" ∷ []) ("a" ∷ "b" ∷ []) card)
      (put_on_card memory desk "e" 5
        ("b" ∷ [])
        ("a" ∷ "b" ∷ [])
        none
        (some 6000)
        none
        30
        loader
        card)
    ⊎ IsUnchanged memory desk "e" 5 (some 6000) none 30 loader (
        put_on_card memory desk "e" 5
          ("b" ∷ [])
          ("a" ∷ "b" ∷ [])
          none
          (some 6000)
          none
          30
          loader
          card)
put_on_card-Told_example =
    put_on_card-Told memory desk "e" 5 (some 6000) none 30 loader ("b" ∷ []) ("a" ∷ "b" ∷ []) none
      card
