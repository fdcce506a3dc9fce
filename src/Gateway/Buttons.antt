-- ===== src/Gateway/Buttons.antt =====
-- What the Load and Unload buttons are told.
use Prim.Native.String.{String}
use ai_lab.Common.{
  ℕ, suc, ◌-◌, ◌≤◌, ◌<◌, ◌≡◌, refl, sym, subst, ap, ◌∙◌, ◌⊎◌, inl, inr, true, false, Option, none,
  some, List, [], ◌∷◌, map, if◌then◌else◌, if_cases, Bool-cases, arith, length, All, ltb, leb,
}
use ai_lab.Common.Member.{Has, here, there}
use ai_lab.Admission.Parts.{Shape, Waiting, Rules}
use ai_lab.Admission.Scheduler.{LoadedRow, Report, total, state_report}
use ai_lab.Loading.{Memory}
use ai_lab.Gateway.{Gateway, Holder, busiest, is_idle, busy_of, guard, id_of, places_of}

-- Nobody answers more requests than this one, which is loaded.
abbrev pub IsBusiest : LoadedRow → List LoadedRow → Type 0
IsBusiest best rows = Has best rows × All (λ row. row.in_flight ≤ best.in_flight) rows

abbrev pub PicksBusiest : List LoadedRow → Option LoadedRow → Type 0
PicksBusiest rows none = rows ≡ []
PicksBusiest rows (some best) = IsBusiest best rows

All-le :
    (rows : List LoadedRow) (low high : ℕ)
    → low ≤ high
    → All (λ row. row.in_flight ≤ low) rows
    → All (λ row. row.in_flight ≤ high) rows
All-le [] low high le all = tt
All-le (row ∷ rows) low high le all = (omega (arith, le, all.0), All-le rows low high le all.1)

picked :
    (row : LoadedRow) (rows : List LoadedRow) (rest : Option LoadedRow)
    → PicksBusiest rows rest
    → PicksBusiest (row ∷ rows) (elim rest [
      | none ↦ some row
      | some best ↦ if leb best.in_flight row.in_flight then some row else some best
    ])
picked row rows none empty =
    (here, (omega arith, subst (All (λ r. r.in_flight ≤ row.in_flight)) (sym empty) tt))
picked row rows (some best) most =
    if_cases (PicksBusiest (row ∷ rows)) (leb best.in_flight row.in_flight)
      (λ more. (
        here,
        (omega arith, All-le rows best.in_flight row.in_flight (ground (arith, more)) most.1),
      ))
      (λ less. (there most.0, (ground (arith, less), most.1)))

busiest-PicksBusiest : (rows : List LoadedRow) → PicksBusiest rows (busiest rows)
unfolding busiest
busiest-PicksBusiest [] = refl
busiest-PicksBusiest (row ∷ rows) = picked row rows (busiest rows) (busiest-PicksBusiest rows)

length-map :
    (now : ℕ) (queue : List Waiting)
    → length {A = Shape × ℕ} (map (λ e. (e.shape, now - e.arrived)) queue) ≡ length queue
length-map now [] = refl
length-map now (e ∷ queue) = ap suc (length-map now queue)

no_entries : (queue : List Waiting) → length queue ≡ 0 → queue ≡ []
no_entries [] none' = refl
no_entries (e ∷ queue) none' = ground (arith, none')

module _ (memory : Memory) (instance_of : Shape → String) where
  -- What a holder says of the report it is made from.
  abbrev pub Tells : Report → Holder → Type 0
  Tells state holder =
      ((0 < state.in_flight) ⊎ ((0 < length state.waiting) ⊎ (state.switching ≡ true)))
      × (holder.in_flight ≡ state.in_flight)
      × (holder.waiting ≡ length state.waiting)
      × (holder.switching ≡ state.switching)
      × ((best : Option LoadedRow) × PicksBusiest state.loaded best
          × (holder.instance_id ≡ id_of memory instance_of best))

  busy_of-Tells :
      (state : Report)
      → ((busy_of memory instance_of state ≡ none)
          × (state.in_flight ≡ 0)
          × (length state.waiting ≡ 0)
          × (state.switching ≡ false))
        ⊎ ((holder : Holder) × (busy_of memory instance_of state ≡ some holder)
            × Tells state holder)
  busy_of-Tells state =
      let best = busiest state.loaded in
      let holder : Holder = record {
        instance_id = id_of memory instance_of best;
        answering = ltb 0 state.in_flight;
        in_flight = state.in_flight;
        places = places_of best;
        waiting = length state.waiting;
        switching = state.switching;
      } in
      elim (Bool-cases (is_idle state)) [
        | inl idle ↦
            inl (rw (idle) refl, ground (arith, idle), ground (arith, idle), ground (arith, idle))
        | inr held ↦ inr (
          holder,
          rw (held) refl,
          (ground (arith, held), refl, refl, refl, (best, busiest-PicksBusiest state.loaded, refl)),
        )
      ]

  module _ (rules : Rules) (now : ℕ) where
    -- A button may go ahead only when nothing is answered, nobody waits and no load runs; else the
    -- refusal says what of this holds the card, and names a loaded model that answers as many
    -- requests as any, if one is loaded.
    pub guard-Tells :
        (g : Gateway memory instance_of)
        → ((guard memory instance_of rules now g ≡ none)
            × (total g.scheduler.card.loaded ≡ 0)
            × (g.scheduler.card.queue ≡ [])
            × (g.scheduler.card.switching ≡ false))
          ⊎ ((holder : Holder) × (guard memory instance_of rules now g ≡ some holder)
              × Tells (state_report rules now g.scheduler.card) holder)
    unfolding guard state_report
    guard-Tells g =
        let card = g.scheduler.card in
        elim (busy_of-Tells (state_report rules now card)) [
          | inl (free, none', empty, still) ↦
              inl (
                free,
                none',
                no_entries card.queue (sym (length-map now card.queue) ∙ empty),
                still,
              )
          | inr held ↦ inr held
        ]
