-- ===== src/Gateway/Stopped.antt =====
-- A forced stop, and what the next request finds.
use Prim.Native.String.{String}
use ai_lab.Common.{
  ℕ, ◌+◌, ◌≤◌, ◌<◌, ◌≡◌, refl, sym, ap, ◌∙◌, subst, Bool, true, false, Option, none, some, List, [],
  ◌∷◌, map, arith, keep, eqb_iff, nat_key, string_key,
}
use ai_lab.Common.Dict.{Dict, get, put, get-put}
use ai_lab.Common.Member.{Has, here, there}
use ai_lab.Admission.Parts.{
  Shape, Waiting, Rules, Clients, abandoned, fail_all, fail, refused, Verdict, count_of, QueueState,
}
use ai_lab.Admission.Planning.{admits_now}
use ai_lab.Admission.Scheduler.{Scheduler, at_once, enter, reset, adopt, from_keys, any_held}
use ai_lab.Admission.Told.{fail_all_only_tells}
use ai_lab.Replaced.{mark, stopped, since}
use ai_lab.Replaced.Latest.{is_in, get-mark_all}
use ai_lab.Loading.{Instance, Memory, Loader, adopt_what_is_there, any_coming_up}
use ai_lab.Gateway.{Gateway, loaded_ids, adopted, adopt_card, reset_all}

get-from_keys_in :
    (shape value : ℕ) (shapes : List Shape) (d : Dict Shape ℕ)
    → get shape d ≡ some value
    → get shape (from_keys value shapes d) ≡ some value
unfolding from_keys
get-from_keys_in shape value [] d known = known
get-from_keys_in shape value (other ∷ shapes) d known =
    get-from_keys_in shape value shapes (put other value d)
      (ground (arith, known, get-put other shape value d))

get-from_keys :
    (value : ℕ) {shape : Shape} {shapes : List Shape} (d : Dict Shape ℕ)
    → Has shape shapes
    → get shape (from_keys value shapes d) ≡ some value
unfolding from_keys
get-from_keys value {shape} d (here {xs = shapes}) =
    get-from_keys_in shape value shapes (put shape value d)
      (ground (arith, get-put shape shape value d, eqb_iff shape shape))
get-from_keys value {shape} d (there {y = other} {xs = shapes} has) =
    get-from_keys value (put other value d) has

-- Those in flight turned away, the newest of the trace first.
abbrev pub turned_away : String → List Waiting → List (ℕ × Verdict) → List (ℕ × Verdict)
turned_away reason [] told = told
turned_away reason (entry ∷ queue) told =
    turned_away reason queue ((entry.number, refused (abandoned reason)) ∷ told)

fail_all-told :
    (reason : String) (queue : List Waiting) (s : QueueState)
    → (fail_all (abandoned reason) queue s).told ≡ turned_away reason queue s.told
unfolding fail_all fail
fail_all-told reason [] s = refl
fail_all-told reason (entry ∷ queue) s =
    fail_all-told reason queue (fail (abandoned reason) entry s)

-- A card that is taken up anew lets a request for one of its models in at once.
fresh_admits :
    (rules : Rules) (asks : Clients) (now later : ℕ) (shape : Shape) (shapes : List Shape)
    (card : QueueState)
    → card.queue ≡ []
    → card.loaded ≡ []
    → card.switching ≡ false
    → Has shape shapes
    → 0 < rules.places shape
    → admits_now rules asks later (adopt now shapes card) shape ≡ true
unfolding adopt any_held admits_now count_of
fresh_admits rules asks now later shape shapes card empty bare still has serves =
    let got = get-from_keys 0 [] has in rw (bare, empty, still, got) (ground (arith, serves))

enter_now :
    (rules : Rules) (now : ℕ) (asks : Clients) (shape : Shape) (still_wanted : Bool) (s : Scheduler)
    → admits_now rules asks now s.card shape ≡ true
    → (enter rules now asks shape still_wanted s).0 ≡ at_once
unfolding enter
enter_now rules now asks shape still_wanted s admits = ground (arith, admits)

abbrev pub up_of : List Instance → List Instance
up_of found = keep (λ item. item.running) found

module _ (memory : Memory) (instance_of : Shape → String) (now : ℕ) (reason : String) where
  -- A forced stop turns away everybody who waits, telling each the reason, believes nothing to be
  -- loaded and asks for a new look at the card; and a call whose model was loaded, and which began
  -- by now, is told the reason.
  pub reset_all-Told :
      (model : String) (started : ℕ) (g : Gateway memory instance_of)
      → is_in model (loaded_ids memory instance_of g) ≡ true
      → started ≤ now
      → let after = (reset_all memory instance_of now reason g).1 in
        (after.scheduler.card.queue ≡ [])
        × (after.scheduler.card.loaded ≡ [])
        × (after.scheduler.card.told
            ≡ turned_away reason g.scheduler.card.queue g.scheduler.card.told)
        × (after.loader.resweep ≡ true)
        × (since model started after.replacements ≡ some reason)
  unfolding reset_all reset stopped mark since
  reset_all-Told model started g held begun =
      let card = g.scheduler.card in
      let emptied : QueueState = record card {
        epoch = card.epoch + 1;
        queue = [];
        loaded = [];
        last_used = [];
      } in
      let only = fail_all_only_tells (abandoned reason) card.queue emptied in
      (
        ap (λ s. s.queue) only,
        ap (λ s. s.loaded) only,
        fail_all-told reason card.queue emptied,
        refl,
        rw
            (
              get-mark_all model now reason (loaded_ids memory instance_of g)
                  g.replacements.taken_off,
              held,
            )
            (ground (arith, begun)),
      )

  adopt_fresh :
      (found : List Instance) (l : Loader memory)
      → l.resweep ≡ true
      → any_coming_up memory (up_of found) ≡ false
      → (adopt_what_is_there memory found l).0 ≡ some (map (λ item. item.shape) (up_of found))
  unfolding adopt_what_is_there
  adopt_fresh found l asked ready = rw (asked, ready) refl

  adopted-card :
      (r : Option (List Shape) × Loader memory) (shapes : List Shape)
      (g : Gateway memory instance_of)
      → r.0 ≡ some shapes
      → (adopted memory instance_of now r g).scheduler.card ≡ adopt now shapes g.scheduler.card
  adopted-card (none, l) shapes g is = ground (arith, is)
  adopted-card (some found, l) shapes g is =
      ap (λ o. elim o [ none ↦ g.scheduler.card | some s ↦ adopt now s g.scheduler.card ]) is

  -- When no load runs and what is up on the card answers, the next request after a forced stop, for
  -- a model that is up and serves at least one request at a time, goes straight in: nothing is
  -- loaded again.
  pub reset_all-AdmitsRunning :
      (rules : Rules) (asks : Clients) (later : ℕ) (still_wanted : Bool) (found : List Instance)
      (shape : Shape) (g : Gateway memory instance_of)
      → g.scheduler.card.switching ≡ false
      → any_coming_up memory (up_of found) ≡ false
      → Has shape (map (λ item. item.shape) (up_of found))
      → 0 < rules.places shape
      → let after =
          adopt_card memory instance_of now found (reset_all memory instance_of now reason g).1 in
        (enter rules later asks shape still_wanted after.scheduler).0 ≡ at_once
  unfolding adopt_card reset_all reset
  reset_all-AdmitsRunning rules asks later still_wanted found shape g still ready has serves =
      let g' = (reset_all memory instance_of now reason g).1 in
      let shapes = map (λ (item : Instance). item.shape) (up_of found) in
      let r = adopt_what_is_there memory found g'.loader in
      let asked = adopt_fresh found g'.loader refl ready in
      let emptied =
        fail_all_only_tells (abandoned reason) g.scheduler.card.queue (record g.scheduler.card {
          epoch = g.scheduler.card.epoch + 1;
          queue = [];
          loaded = [];
          last_used = [];
        }) in
      enter_now rules later asks shape still_wanted (adopted memory instance_of now r g').scheduler
        (subst (λ card. admits_now rules asks later card shape ≡ true)
          (sym (adopted-card r shapes g' asked))
          (fresh_admits rules asks now later shape shapes g'.scheduler.card
            (ap (λ s. s.queue) emptied) (ap (λ s. s.loaded) emptied)
            (ap (λ s. s.switching) emptied ∙ still) has serves))

module _ (memory : Memory) (instance_of : Shape → String) (now : ℕ) where
  -- If a load runs when the card is looked at after an outside change, and all that is up answers,
  -- the scheduler takes nothing up and no new look is asked for.
  pub adopt_card-Dropped :
      (found : List Instance) (g : Gateway memory instance_of)
      → g.loader.resweep ≡ true
      → g.scheduler.card.switching ≡ true
      → any_coming_up memory (up_of found) ≡ false
      → ((adopt_card memory instance_of now found g).scheduler.card ≡ g.scheduler.card)
        × ((adopt_card memory instance_of now found g).loader.resweep ≡ false)
  unfolding adopt_card adopt_what_is_there adopt
  adopt_card-Dropped found g asked runs ready = rw (asked, ready) (ground (arith, runs), refl)
