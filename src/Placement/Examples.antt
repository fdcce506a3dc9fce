-- ===== src/Placement/Examples.antt =====
-- A model that is asked for while the card is loaded with another.
use ai_lab.Common.{◌≡◌, refl, true, false, none, some, [], ◌∷◌, arith}
use ai_lab.Placement.{
  card, cpu, Model, Placement, hold, stop_card, take, to_card, in_turn, is_held, start_on_card,
  ensure_started, device, settled, in_demand, reclaimable_mb, stop_if_idle, stop_server_if_idle,
  here, next, takes,
}
use ai_lab.Placement.FirstCome.{IsAway, During-IsAway}

program : Unit {0}
unfolding hold stop_card take to_card in_turn is_held start_on_card ensure_started device settled
    in_demand reclaimable_mb stop_if_idle stop_server_if_idle
program = tt

abbrev model : Model
model = record { room_mb = some 3000; needs_mb = 2000; idle_stop = 600000 }

abbrev on_the_card : Placement
on_the_card = record {
  cpu_server = record { running = false; last_used = 0 };
  card_server = some (record { running = true; last_used = 5000 });
  on_card = 0;
  held_until = 0;
  no_room_until = 0;
  last_used = 5000;
}

abbrev answered : Placement
answered = (take model 7000 (some 9000) true true (stop_card model (hold model 6000 on_the_card))).1

takes_the_card : (take model 6000 none true true on_the_card).0 ≡ some card
unfolding program
takes_the_card = refl

takes_the_processor :
    (take model 7000 (some 9000) true true (stop_card model (hold model 6000 on_the_card))).0
    ≡ some cpu
unfolding program
takes_the_processor = refl

comes_back : (take model 9000 (some 9000) true true (settled model 8000 answered).1).0 ≡ some card
unfolding program
comes_back = refl

frees : reclaimable_mb model on_the_card ≡ 2000
unfolding program
frees = refl

idle_off : (stop_if_idle model 605000 false on_the_card).0 ≡ card ∷ []
unfolding program
idle_off = refl

now_on_processor : device model 8000 answered ≡ cpu
unfolding program
now_on_processor = refl

During-IsAway_example : IsAway 906000 answered
During-IsAway_example =
    During-IsAway model 6000 on_the_card answered refl
      (next 7000 (omega arith) (omega arith) here (takes (some 9000) true true))
