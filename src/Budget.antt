-- ===== src/Budget.antt =====
-- ai_lab/budget.py: how much memory is available for models, and the readings of it in
-- ai_lab/gateway/resources.py. Memory is counted in whole megabytes, so `round` changes nothing;
-- `max(0.0, a - b)` is the subtraction that stops at zero.
pub mod Bounds
mod Examples
use Prim.Native.String.{String}
use ai_lab.Common.{
  ℕ, ◌+◌, ◌-◌, min, max, Bool, true, false, ◌&&◌, Option, none, some, List, [], ◌∷◌, ◌++◌, not,
  if◌then◌else◌, eqb, ◌==◌, string_key,
}
use ai_lab.Common.Dict.{Dict, get, put}

pub data Kind : Type 0 where
  dedicated unified : Kind

pub record Pool : Type 0 where
  pub name : String
  pub kind : Kind
  pub total_mb : ℕ
  pub used_mb : ℕ
  pub used_by_models_mb : ℕ
  pub reserve_mb : ℕ
  pub ceiling_mb : ℕ

abbrev pub card_name : String
card_name = "card"

abbrev pub machine_name : String
machine_name = "machine"

abbrev pub default_reserve_mb : ℕ
default_reserve_mb = 8192

unfoldable pub free_mb : Pool → ℕ
free_mb p = p.total_mb - p.used_mb

unfoldable pub for_models_mb : Pool → ℕ
for_models_mb p =
    let usable = p.total_mb - p.reserve_mb in
    if eqb p.ceiling_mb 0 then usable else min usable p.ceiling_mb

unfoldable pub available_mb : Pool → ℕ
unfolding free_mb
available_mb p =
    let free = free_mb p - p.reserve_mb in
    if eqb p.ceiling_mb 0 then free else min free (p.ceiling_mb - p.used_by_models_mb)

pub record Budget : Type 0 where
  pub pools : List Pool
  pub is_unified : Bool

unfoldable pub sum_available : List Pool → ℕ
sum_available [] = 0
sum_available (p ∷ ps) = available_mb p + sum_available ps

unfoldable pub sum_held : List Pool → ℕ
sum_held [] = 0
sum_held (p ∷ ps) = p.used_by_models_mb + sum_held ps

unfoldable pub max_reserve : List Pool → ℕ
max_reserve [] = 0
max_reserve (p ∷ ps) = max p.reserve_mb (max_reserve ps)

unfoldable pub find_pool : String → List Pool → Option Pool
find_pool name [] = none
find_pool name (p ∷ ps) = if p.name == name then some p else find_pool name ps

-- The reading of an accelerator.
pub record Card : Type 0 where
  pub is_available : Bool
  pub memory_kind : Kind
  pub memory_total_mb : ℕ
  pub memory_used_mb : ℕ

-- What the host answers; `none` where the probe raises.
pub record Host : Type 0 where
  pub accelerator : Option Card
  pub system_memory : Option (ℕ × ℕ)

-- `_machine`: used and total.
abbrev pub machine_of : Host → ℕ × ℕ
machine_of h = elim h.system_memory [ none ↦ (0, 0) | some reading ↦ reading ]

-- `a or b`, on numbers.
abbrev or_number : ℕ → ℕ → ℕ
or_number a b = if eqb a 0 then b else a

abbrev card_pools : Option Card → List Pool
card_pools none = []
card_pools (some c) =
    if c.is_available && not (eqb c.memory_total_mb 0)
    then record {
      name = card_name;
      kind = dedicated;
      total_mb = c.memory_total_mb;
      used_mb = c.memory_used_mb;
      used_by_models_mb = c.memory_used_mb;
      reserve_mb = 0;
      ceiling_mb = 0;
    }
      ∷ []
    else []

unfoldable pub dedicated_pools : Option Card → ℕ → ℕ → ℕ → List Pool
dedicated_pools card machine_used machine_total reserve =
    card_pools card
    ++ (if eqb machine_total 0
        then []
        else record {
          name = machine_name;
          kind = dedicated;
          total_mb = machine_total;
          used_mb = machine_used;
          used_by_models_mb = 0;
          reserve_mb = reserve;
          ceiling_mb = 0;
        }
          ∷ [])

abbrev unified_pool : Card → ℕ → ℕ → ℕ → ℕ → Pool
unified_pool c machine_used machine_total reserve ceiling = record {
  name = machine_name;
  kind = unified;
  total_mb = or_number machine_total c.memory_total_mb;
  used_mb = machine_used;
  used_by_models_mb = c.memory_used_mb;
  reserve_mb = reserve;
  ceiling_mb = ceiling;
}

abbrev is_unified_kind : Kind → Bool
is_unified_kind dedicated = false
is_unified_kind unified = true

abbrev dedicated_budget : Option Card → ℕ → ℕ → ℕ → Budget
dedicated_budget card machine_used machine_total reserve = record {
  pools = dedicated_pools card machine_used machine_total reserve;
  is_unified = false;
}

unfoldable pub budget_of : Option Card → ℕ → ℕ → ℕ → ℕ → Budget
unfolding dedicated_pools
budget_of none machine_used machine_total reserve ceiling =
    dedicated_budget none machine_used machine_total reserve
budget_of (some c) machine_used machine_total reserve ceiling =
    if is_unified_kind c.memory_kind
    then record {
      pools = unified_pool c machine_used machine_total reserve ceiling ∷ [];
      is_unified = true;
    }
    else dedicated_budget (some c) machine_used machine_total reserve

-- A reading already taken is used, else the host is asked.
abbrev pub or_ask : Option Card → Host → Option Card
or_ask none h = h.accelerator
or_ask (some c) h = some c

unfoldable pub of : Host → ℕ → Option Card → ℕ → Budget
unfolding budget_of
of h reserve card ceiling =
    budget_of (or_ask card h) (machine_of h).0 (machine_of h).1 reserve ceiling

-- `GatewayResources.read_pools`: the pools by their names.
unfoldable pub read_pools : List Pool → Dict String Pool
read_pools [] = []
read_pools (p ∷ ps) = (p.name, p) ∷ read_pools ps

-- `GatewayResources.pool`
unfoldable pub gateway_pool : Dict String Pool → Option Pool
gateway_pool pools = elim (get card_name pools) [ none ↦ get machine_name pools | some p ↦ some p ]

unfoldable pub capacity_mb : Dict String Pool → ℕ
unfolding gateway_pool
capacity_mb pools = elim (gateway_pool pools) [ none ↦ 0 | some p ↦ for_models_mb p ]

unfoldable pub card_free_mb : ℕ → Dict String Pool → ℕ
unfolding gateway_pool
card_free_mb reclaimable pools = elim (gateway_pool pools) [
  | none ↦ reclaimable
  | some p ↦ available_mb p + reclaimable
]
