-- ===== src/Budget/Bounds.antt =====
-- What the budget promises of its figures.
use ai_lab.Common.{
  ℕ, ◌+◌, ◌-◌, ◌≤◌, ◌≡◌, ◌≢◌, ◌⊎◌, true, Option, none, some, [], if◌then◌else◌, eqb, arith,
  string_key, min,
}
use ai_lab.Common.Dict.{get}
use ai_lab.Budget.{
  Pool, dedicated, unified, free_mb, for_models_mb, available_mb, sum_available, sum_held,
  max_reserve, Card, Host, machine_of, budget_of, of, or_ask, read_pools, capacity_mb, card_free_mb,
}

-- What a model may take now is never more than what models may use at all nor than what is free.
-- When there is anything to take, taking it all leaves the reserve free, and with a ceiling it keeps
-- the models within the ceiling.
pub available-le :
    (p : Pool)
    → (available_mb p ≤ for_models_mb p)
      × (available_mb p ≤ free_mb p)
      × ((available_mb p ≡ 0) ⊎ (p.used_mb + available_mb p + p.reserve_mb ≤ p.total_mb))
      × ((available_mb p ≡ 0)
          ⊎ ((p.ceiling_mb ≡ 0) ⊎ (p.used_by_models_mb + available_mb p ≤ p.ceiling_mb)))
unfolding available_mb for_models_mb
available-le p = (ground arith, ground arith, ground arith, ground arith)

budget_of_card :
    (c : Card) (used total reserve ceiling reclaimable : ℕ)
    → c.is_available ≡ true
    → c.memory_kind ≡ dedicated
    → c.memory_total_mb ≢ 0
    → let pools = read_pools (budget_of (some c) used total reserve ceiling).pools in
      (capacity_mb pools ≡ c.memory_total_mb)
      × (card_free_mb reclaimable pools ≡ c.memory_total_mb - c.memory_used_mb + reclaimable)
unfolding budget_of read_pools capacity_mb card_free_mb get for_models_mb available_mb
budget_of_card c used total reserve ceiling reclaimable on kind some_memory =
    (ground arith, ground arith)

-- On a machine with a card of its own that can be read, the gateway counts with that card alone
-- and uses all of it: the capacity is the card's whole memory, and what is free is what the card
-- does not use and what neighbours give back, whatever the machine's memory and its reserve are.
pub of_card :
    (h : Host) (card : Option Card) (c : Card) (reserve ceiling reclaimable : ℕ)
    → or_ask card h ≡ some c
    → c.is_available ≡ true
    → c.memory_kind ≡ dedicated
    → c.memory_total_mb ≢ 0
    → let pools = read_pools (of h reserve card ceiling).pools in
      (capacity_mb pools ≡ c.memory_total_mb)
      × (card_free_mb reclaimable pools ≡ c.memory_total_mb - c.memory_used_mb + reclaimable)
unfolding of
of_card h card c reserve ceiling reclaimable e on kind some_memory =
    rw (e, of)
      (budget_of_card c (machine_of h).0 (machine_of h).1 reserve ceiling reclaimable on kind
        some_memory)

-- On unified memory there is one pool, so nothing is counted twice: the memory is the machine's if
-- that can be read and else the card's, and the reserve and the ceiling are of that pool.
pub of_unified :
    (h : Host) (card : Option Card) (c : Card) (reserve ceiling : ℕ)
    → or_ask card h ≡ some c
    → c.memory_kind ≡ unified
    → let b = of h reserve card ceiling in
      let total = if eqb (machine_of h).1 0 then c.memory_total_mb else (machine_of h).1 in
      (sum_held b.pools ≡ c.memory_used_mb)
      × (max_reserve b.pools ≡ reserve)
      × (sum_available b.pools ≡ (
          if eqb ceiling 0
          then total - (machine_of h).0 - reserve
          else min (total - (machine_of h).0 - reserve) (ceiling - c.memory_used_mb)))
unfolding of sum_held max_reserve sum_available available_mb
of_unified h card c reserve ceiling e kind = rw (e, of) (ground arith, ground arith, ground arith)

-- A machine whose card and memory cannot be read offers nothing, and the budget is still an answer.
pub of_unreadable :
    (h : Host) (reserve ceiling : ℕ)
    → h.accelerator ≡ none
    → h.system_memory ≡ none
    → let b = of h reserve none ceiling in
      (b.pools ≡ []) × (sum_available b.pools ≡ 0) × (capacity_mb (read_pools b.pools) ≡ 0)
unfolding of sum_available read_pools capacity_mb get
of_unreadable h reserve ceiling e m = (ground arith, ground arith, ground arith)
