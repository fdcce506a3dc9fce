-- ===== src/Quiet/Examples.antt =====
-- A model that exits in the second round and gives its memory back in the third.
use ai_lab.Common.{ℕ, zero, suc, ◌+◌, ◌*◌, ◌≤◌, ◌≡◌, refl, true, some, [], ◌∷◌, arith}
use ai_lab.Clients.Text.{codes}
use ai_lab.Quiet.{
  Look, Quiet, quiet, still_holds, wait_until_quiet, exit_loop, wait_for_release, release_loop,
}
use ai_lab.Quiet.Released.{Released, wait_until_quiet-Released}

program : Unit {0}
unfolding wait_until_quiet exit_loop wait_for_release release_loop
program = tt

abbrev card : ℕ → Look
card zero = record { running = codes "a" ∷ []; used_mb = 9000; clock = 1 }
card (suc zero) = record { running = []; used_mb = 9000; clock = 3 }
card (suc (suc n)) = record { running = []; used_mb = 2; clock = n + 3 }

abbrev full_card : ℕ → Look
full_card n = record { running = []; used_mb = 9000; clock = 2 * n }

wait_exits : wait_until_quiet 512 10 true (codes "a" ∷ []) card ≡ some quiet
unfolding program
wait_exits = refl

wait_in_vain : wait_until_quiet 512 10 true (codes "a" ∷ []) full_card ≡ some (still_holds 9000)
unfolding program
wait_in_vain = refl

card_ticks : (k : ℕ) → k ≤ (card k).clock
card_ticks zero = omega arith
card_ticks (suc zero) = omega arith
card_ticks (suc (suc n)) = omega arith

wait_until_quiet-Released_example :
    (q : Quiet) × (wait_until_quiet 512 10 true (codes "a" ∷ []) card ≡ some q)
    × Released 512 10 card (codes "a" ∷ []) 0 q
wait_until_quiet-Released_example = wait_until_quiet-Released 512 10 (codes "a") [] card card_ticks
