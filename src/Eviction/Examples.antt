-- ===== src/Eviction/Examples.antt =====
-- The choice on a small machine, and its theorems applied to it.
use ai_lab.Common.{ℕ, ◌≡◌, refl, none, some, List, [], ◌∷◌, if◌then◌else◌, eqb}
use ai_lab.Admission.Parts.{Shape, Loaded}
use ai_lab.Eviction.{
  choose, oldest_idle_first, insert, comes_first, others_of, one_is_enough, until_it_fits,
}
use ai_lab.Eviction.Choice.{Picked, choose-Picked}

abbrev sizes : Shape → ℕ
sizes shape = if eqb shape 1 then 4000 else if eqb shape 2 then 9000 else 12000

abbrev item : ℕ → ℕ → ℕ → Loaded
item shape in_flight last_used = record {
  shape = shape;
  in_flight = in_flight;
  last_used = last_used;
}

abbrev two_loaded : List Loaded
two_loaded = item 2 1 3 ∷ item 1 0 8 ∷ []

program : Unit {0}
unfolding choose oldest_idle_first insert comes_first one_is_enough until_it_fits
program = tt

choose_one : choose sizes 3 two_loaded 3500 24000 ≡ some (2 ∷ [])
unfolding program
choose_one = refl

choose_several : choose sizes 3 two_loaded 1000 24000 ≡ some (1 ∷ 2 ∷ [])
unfolding program
choose_several = refl

choose_never : choose sizes 3 two_loaded 1000 11000 ≡ none
unfolding program
choose_never = refl

choose-Picked_example :
    Picked sizes 12000 1000 24000
      (others_of sizes 3 two_loaded)
      (choose sizes 3 two_loaded 1000 24000)
choose-Picked_example = choose-Picked sizes 3 two_loaded 1000 24000
