-- ===== src/Loading/Cleared.antt =====
-- What a sweep leaves running.
use Prim.Native.String.{String}
use ai_lab.Common.{
  subst, ◌⊎◌, ◌≡◌, refl, sym, ap, ◌∙◌, Bool, true, false, none, List, [], ◌∷◌, map, if◌then◌else◌,
  Bool-cases, inl, inr, arith, All, keep, string_key, ==_refl,
}
use ai_lab.Common.Member.{Has, here, there, All-map_of}
use ai_lab.Loading.{
  Instance, CardOperations, stop, is_in, has_to_go, clear_each, clear, unless_raised, Cleared,
  Memory, Unload, raises, returns,
}

abbrev pub ids : List Instance → List String
ids items = map (λ item. item.id) items

abbrev pub stop_in : List String → Instance → Instance
stop_in stopped item =
    if is_in item.id stopped then record item { running = false; ready = false } else item

stop_in-stop :
    (id : String) (stopped : List String) (item : Instance)
    → stop_in stopped (stop id item) ≡ stop_in (id ∷ stopped) item
stop_in-stop id stopped item = ground arith

map-stop :
    (id : String) (stopped : List String) (items : List Instance)
    → map (stop_in stopped) (map (stop id) items) ≡ map (stop_in (id ∷ stopped)) items
map-stop id stopped [] = refl
map-stop id stopped (item ∷ items) =
    rw (stop_in-stop id stopped item, map-stop id stopped items) refl

map_nothing : (items : List Instance) → map (stop_in []) items ≡ items
map_nothing [] = refl
map_nothing (item ∷ items) = rw (map_nothing items) refl

-- Whatever runs is known and no victim.
abbrev pub MayRun : List String → List String → Instance → Type 0
MayRun wanted known item =
    (item.running ≡ false) ⊎ ((is_in item.id wanted ≡ false) × (is_in item.id known ≡ true))

is_in-ids :
    (goes : Instance → Bool) {item : Instance} {all : List Instance}
    → Has item all
    → goes item ≡ true
    → is_in item.id (ids (keep goes all)) ≡ true
is_in-ids goes {item} (here {xs = all}) go = ground (arith, go, ==_refl item.id)
is_in-ids goes {item} (there {y = other} {xs = all} has) go = ground (arith, is_in-ids goes has go)

stopped-MayRun :
    (wanted known : List String) (all : List Instance) (item : Instance)
    → Has item all
    → MayRun wanted known (stop_in (ids (keep (has_to_go wanted known) all)) item)
stopped-MayRun wanted known all item has = ground (arith, is_in-ids (has_to_go wanted known) has)

module _ (memory : Memory) (operations : CardOperations) where
  abbrev pub is_ok : Unload → Bool
  is_ok (raises words) = false
  is_ok (returns ok) = ok

  -- Whether each `unload` of a sweep returned an operation that is `ok`.
  unfoldable pub all_ok : (Instance → Bool) → List Instance → operations.Card → Bool
  all_ok goes [] card = true
  all_ok goes (item ∷ items) card =
      let next = if goes item then operations.unload item.id card else (card, returns true) in
      let later = all_ok goes items next.0 in if is_ok next.1 then later else false

  abbrev pub sweep_ok : List String → List String → operations.Card → Bool
  sweep_ok wanted known card = all_ok (has_to_go wanted known) (operations.instances card) card

  abbrev IsStopped :
      (Instance → Bool) → List Instance → operations.Card → Cleared memory operations → Type 0
  IsStopped goes items card r =
      (r.1 ≡ ids (keep goes items))
      × (operations.instances r.0 ≡ map (stop_in r.1) (operations.instances card))

  unless_raised-IsStopped :
      (goes : Instance → Bool) (item : Instance) (items : List Instance) (card : operations.Card)
      (next : operations.Card × Unload) (rest : Cleared memory operations)
      → goes item ≡ true
      → next.1 ≡ returns true
      → operations.instances next.0 ≡ map (stop item.id) (operations.instances card)
      → (rest.2 ≡ none) × IsStopped goes items next.0 rest
      → let r = unless_raised memory operations true item.id next rest in
        (r.2 ≡ none) × IsStopped goes (item ∷ items) card r
  unless_raised-IsStopped goes item items card (card', raises words) rest go ok law later =
      absurd (ground (arith, ok))
  unless_raised-IsStopped goes item items card (card', returns said) (last, stopped, raised) go ok
        law later =
      let (through, is_named) = later in
      let (named, left) = is_named in
      rw (go) (
        through,
        (
          rw (named) refl,
          left
              ∙ (ap (map (stop_in stopped)) law
                  ∙ map-stop item.id stopped (operations.instances card)),
        ),
      )

  is_ok-returns : (u : Unload) → is_ok u ≡ true → u ≡ returns true
  is_ok-returns (raises words) ok = absurd (ground (arith, ok))
  is_ok-returns (returns said) ok = ap returns ok

  later_ok :
      (first later : Bool)
      → (if first then later else false) ≡ true
      → (first ≡ true) × (later ≡ true)
  later_ok first later ok = ground (arith, ok)

  all_ok-goes :
      (goes : Instance → Bool) (item : Instance) (items : List Instance) (card : operations.Card)
      → goes item ≡ true
      → all_ok goes (item ∷ items) card ≡ true
      → ((operations.unload item.id card).1 ≡ returns true)
        × (all_ok goes items (operations.unload item.id card).0 ≡ true)
  unfolding all_ok
  all_ok-goes goes item items card go ok =
      let next = operations.unload item.id card in
      let both = later_ok (is_ok next.1) (all_ok goes items next.0) (
        subst
          (λ b.
            (let step = if b then next else (card, returns true) in
              if is_ok step.1 then all_ok goes items step.0 else false)
            ≡ true)
          go ok) in
      (is_ok-returns next.1 both.0, both.1)

  all_ok-stays :
      (goes : Instance → Bool) (item : Instance) (items : List Instance) (card : operations.Card)
      → goes item ≡ false
      → all_ok goes (item ∷ items) card ≡ true
      → all_ok goes items card ≡ true
  unfolding all_ok
  all_ok-stays goes item items card stay ok = ground (arith, stay, ok)

  clear_each-IsStopped :
      (goes : Instance → Bool) (items : List Instance) (card : operations.Card)
      → all_ok goes items card ≡ true
      → let r = clear_each memory operations goes items card in
        (r.2 ≡ none) × IsStopped goes items card r
  unfolding clear_each
  clear_each-IsStopped goes [] card ok =
      (refl, (refl, sym (map_nothing (operations.instances card))))
  clear_each-IsStopped goes (item ∷ items) card ok = elim (Bool-cases (goes item)) [
    | inl go ↦
        let next = operations.unload item.id card in
        let rest = clear_each memory operations goes items next.0 in
        let fine = all_ok-goes goes item items card go ok in
        let result : clear_each memory operations goes (item ∷ items) card
            ≡ unless_raised memory operations true item.id next rest =
          rw (go) refl in
        subst (λ r. (r.2 ≡ none) × IsStopped goes (item ∷ items) card r) (sym result)
          (unless_raised-IsStopped goes item items card next rest go fine.0
            (operations.unload-instances item.id card fine.0)
            (clear_each-IsStopped goes items next.0 fine.1))
    | inr stay ↦
        rw (stay) (clear_each-IsStopped goes items card (all_ok-stays goes item items card stay ok))
  ]

  -- If each `unload` of a sweep returns an operation that is `ok`, the sweep raises nothing and
  -- tells what it has stopped: the victims that were running and what was running and not known, in
  -- the order of the listing. After it, whatever runs is known and is no victim, and nothing else
  -- has changed.
  pub clear-Sweeps :
      (wanted known : List String) (card : operations.Card)
      → sweep_ok wanted known card ≡ true
      → ((clear memory operations wanted known card).2 ≡ none)
        × ((clear memory operations wanted known card).1
            ≡ ids (keep (has_to_go wanted known) (operations.instances card)))
        × (operations.instances (clear memory operations wanted known card).0
            ≡ map
                (stop_in (clear memory operations wanted known card).1)
                (operations.instances card))
        × All
            (MayRun wanted known)
            (operations.instances (clear memory operations wanted known card).0)
  unfolding clear
  clear-Sweeps wanted known card ok =
      let all = operations.instances card in
      let goes = has_to_go wanted known in
      let (through, is_named) = clear_each-IsStopped goes all card ok in
      let (named, left) = is_named in
      (
        through,
        named,
        left,
        rw (left, named)
            (All-map_of (MayRun wanted known) (stop_in (ids (keep goes all))) all
              (λ item. λ has. stopped-MayRun wanted known all item has)),
      )
