-- ===== src/Eviction.antt =====
-- ai_lab/gateway/eviction.py: which loaded models leave for another. Memory is counted in whole
-- megabytes; `capacity * 0.9` is compared exactly, both sides times ten.
pub mod Order
pub mod Choice
mod Examples
use ai_lab.Common.{
  ℕ, ◌+◌, ◌*◌, Bool, true, false, not, ◌&&◌, ◌||◌, Option, none, some, List, [], ◌∷◌, map,
  if◌then◌else◌, ltb, leb, eqb, keep,
}
use ai_lab.Admission.Parts.{Shape, Loaded}

-- `_over`: whether a known limit is passed.
unfoldable pub over : ℕ → ℕ → Bool → Bool
over needed limit inclusive =
    if eqb limit 0 then false else if inclusive then leb limit needed else ltb limit needed

-- The key `(bool(in_flight), last_used)` of one is not after that of the other.
unfoldable pub comes_first : Loaded → Loaded → Bool
comes_first a b =
    if eqb a.in_flight 0
    then (if eqb b.in_flight 0 then leb a.last_used b.last_used else true)
    else (if eqb b.in_flight 0 then false else leb a.last_used b.last_used)

unfoldable pub insert : Loaded → List Loaded → List Loaded
insert a [] = a ∷ []
insert a (b ∷ bs) = let later = b ∷ insert a bs in if comes_first a b then a ∷ b ∷ bs else later

-- `sorted(loaded, key=…)`, which keeps the order of equal keys.
unfoldable pub oldest_idle_first : List Loaded → List Loaded
unfolding insert
oldest_idle_first [] = []
oldest_idle_first (a ∷ as') = insert a (oldest_idle_first as')

module _ (needs_mb : Shape → ℕ) where
  unfoldable pub one_is_enough : ℕ → ℕ → List Shape → List Shape
  one_is_enough needed free [] = []
  one_is_enough needed free (shape ∷ rest) =
      let later = one_is_enough needed free rest in
      if leb needed (free + needs_mb shape) then shape ∷ [] else later

  -- The loop, with the victims taken so far in order.
  unfoldable pub until_it_fits : ℕ → ℕ → ℕ → List Shape → Option (List Shape)
  until_it_fits needed free capacity [] = if ltb capacity needed then none else some []
  until_it_fits needed free capacity (shape ∷ rest) =
      let free' = free + needs_mb shape in
      let later = until_it_fits needed free' capacity rest in
      if leb needed free'
      then some (shape ∷ [])
      else elim later [ none ↦ none | some victims ↦ some (shape ∷ victims) ]

  abbrev pub others_of : Shape → List Loaded → List Shape
  others_of wanted loaded =
      keep (λ shape. not (eqb shape wanted)) (map (λ item. item.shape) (oldest_idle_first loaded))

  abbrev pub is_known : ℕ → ℕ → Bool
  is_known needed free = not (eqb needed 0) && not (eqb free 0)

  abbrev pub alone_or : List Shape → Option (List Shape) → Option (List Shape)
  alone_or [] several = several
  alone_or (shape ∷ rest) several = some (shape ∷ rest)

  unfoldable pub choose : Shape → List Loaded → ℕ → ℕ → Option (List Shape)
  unfolding over
  choose wanted loaded free capacity =
      let needed = needs_mb wanted in
      let others = others_of wanted loaded in
      if is_known needed free && over needed capacity false
      then none
      else if not (is_known needed free) || over (10 * needed) (9 * capacity) true
      then some others
      else if leb needed free
      then some []
      else alone_or (one_is_enough needed free others) (until_it_fits needed free capacity others)
