-- ===== src/Loading/Loads.antt =====
-- What a switch makes of the card and of the figures, on every branch.
use Prim.Native.String.{String}
use ai_lab.Common.{
  subst, not, ◌||◌, ℕ, ◌+◌, ◌≤◌, ◌≡◌, refl, ap, ◌∙◌, ◌≢◌, ◌⊎◌, inl, inr, true, false, Option, none,
  some, List, [], ◌∷◌, ◌++◌, if_cases, arith, length, eqb, leb,
}
use ai_lab.Common.Newest.{newest}
use ai_lab.Admission.Parts.{Shape}
use ai_lab.Loading.{
  CardOperations, Memory, Loader, Operation, Cleared, Switched, Entry, clear, is_still_full,
  read_the_card, take_resweep, after_clear, put_on_card,
}

has_room :
    (needed free : ℕ)
    → not (eqb needed 0 || eqb free 0 || leb needed free) ≡ false
    → (needed ≡ 0) ⊎ ((free ≡ 0) ⊎ (needed ≤ free))
has_room needed free room = ground (arith, room)

module _ (memory : Memory) (operations : CardOperations) (id : String) (shape : Shape)
    (first second : Option memory.Reading) (took : ℕ) (l : Loader memory) where
  abbrev Result : Type 0
  Result = Switched memory operations

  abbrev pub IsUnchanged : Result → Type 0
  IsUnchanged r =
      (r.raised ≢ none)
      × (r.loader.switches ≡ l.switches)
      × (r.loader.evictions ≡ l.evictions)
      × (r.loader.switch_s ≡ l.switch_s)
      × (r.loader.history ≡ l.history)

  -- The needs are not known, nor what is free, or there is room by the reading after the sweep.
  abbrev HasRoom : Type 0
  HasRoom =
      let free = memory.free_mb (read_the_card memory first l).pools in
      (memory.needs_mb shape ≡ 0) ⊎ ((free ≡ 0) ⊎ (memory.needs_mb shape ≤ free))

  abbrev entry_of : List String → Operation → Entry
  entry_of unloaded operation = record {
    loaded = id;
    unloaded = unloaded;
    took = took;
    load_ms = operation.total_ms;
  }

  abbrev pub IsLoaded : Cleared memory operations → Result → Type 0
  IsLoaded c r =
      (r.raised ≡ none)
      × (c.2 ≡ none)
      × HasRoom
      × ((operations.load shape c.0).1.ok ≡ true)
      × (r.card ≡ (operations.load shape c.0).0)
      × (r.loader.switches ≡ l.switches + 1)
      × (r.loader.evictions ≡ l.evictions + length c.1)
      × (r.loader.switch_s ≡ l.switch_s + took)
      × (r.loader.history
          ≡ newest 50 (l.history ++ (entry_of c.1 (operations.load shape c.0).1 ∷ [])))

  read_same :
      (reading : Option memory.Reading) (k : Loader memory)
      → ((read_the_card memory reading k).switches ≡ k.switches)
        × ((read_the_card memory reading k).evictions ≡ k.evictions)
        × ((read_the_card memory reading k).switch_s ≡ k.switch_s)
        × ((read_the_card memory reading k).history ≡ k.history)
  read_same none k = (refl, refl, refl, refl)
  read_same (some reading) k = (refl, refl, refl, refl)

  pools_same :
      (reading : Option memory.Reading)
      → (read_the_card memory reading (take_resweep memory l).1).pools
        ≡ (read_the_card memory reading l).pools
  pools_same none = refl
  pools_same (some reading) = refl

  room_of :
      is_still_full memory shape (read_the_card memory first (take_resweep memory l).1) ≡ false
      → HasRoom
  unfolding is_still_full
  room_of room =
      has_room (memory.needs_mb shape) (memory.free_mb (read_the_card memory first l).pools) (
        subst
          (λ pools.
            not (
              eqb (memory.needs_mb shape) 0
              || eqb (memory.free_mb pools) 0
              || leb (memory.needs_mb shape) (memory.free_mb pools))
            ≡ false)
          (pools_same first) room)

  loads_or_not :
      (noise : Option String) (c : Cleared memory operations)
      → IsLoaded c (
          after_clear memory operations id shape noise first second took
            (take_resweep memory l).1
            c)
        ⊎ IsUnchanged (
            after_clear memory operations id shape noise first second took
              (take_resweep memory l).1
              c)
  loads_or_not noise (card, unloaded, some words) = inr (ground arith, refl, refl, refl, refl)
  loads_or_not (some words) (card, unloaded, none) = inr (ground arith, refl, refl, refl, refl)
  loads_or_not none (card, unloaded, none) =
      let k = (take_resweep memory l).1 in
      let read = read_the_card memory first k in
      let got = operations.load shape card in
      let same = read_same first k in
      let after = read_same second read in
      if_cases (λ r. IsLoaded (card, unloaded, none) r ⊎ IsUnchanged r)
        (is_still_full memory shape read)
        (λ full. inr (ground arith, same.0, same.1, same.2, same.3))
        (λ room.
          if_cases (λ r. IsLoaded (card, unloaded, none) r ⊎ IsUnchanged r) got.1.ok
            (λ ok. inl (
              refl,
              refl,
              room_of room,
              ok,
              refl,
              ground (arith, same, after),
              ground (arith, same, after),
              ground (arith, same, after),
              ap (λ h. newest 50 (h ++ (entry_of unloaded got.1 ∷ []))) (after.3 ∙ same.3),
            ))
            (λ bad. inr (ground arith, same.0, same.1, same.2, same.3)))

  -- A switch starts the model or it raises. If it starts it, the sweep has raised nothing, the
  -- model's needs were within what the reading after the sweep says is free, or one of the two was
  -- not known, the load says that it is `ok`, and it is counted, with the models taken off and the
  -- time it took, and is the newest of the last fifty of the history. If it raises, the figures stay
  -- as they were.
  pub put_on_card-Told :
      (wanted known : List String) (noise : Option String) (card : operations.Card)
      → IsLoaded
          (clear memory operations wanted known card)
          (put_on_card memory operations id shape wanted known noise first second took l card)
        ⊎ IsUnchanged
            (put_on_card memory operations id shape wanted known noise first second took l card)
  unfolding put_on_card
  put_on_card-Told wanted known noise card =
      loads_or_not noise (clear memory operations wanted known card)
