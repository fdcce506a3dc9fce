-- ===== src/Journal/Examples.antt =====
-- A page that polls a journal of two lines.
use ai_lab.Common.{ℕ, ◌≡◌, refl, false, List, [], ◌∷◌}
use ai_lab.Common.{some}
use ai_lab.Common.Dict.{Dict, get, put}
use ai_lab.Common.Newest.{newest}
use ai_lab.Clients.Text.{Text, codes}
use ai_lab.Journal.{Journal, take_event, new_journal, write, write_all, since}
use ai_lab.Journal.Polling.{numbered, since-write_all}

abbrev earlier : List (ℕ × Text)
earlier = (10, codes "loading") ∷ (11, codes "loaded") ∷ []

abbrev later : List (ℕ × Text)
later = (12, codes "refused") ∷ (13, codes "off") ∷ (14, codes "on") ∷ []

last_two :
    (since 2 (write_all 2 false later (write_all 2 false earlier new_journal))).0
    ≡ record { id = 4; at = 13; text = codes "off" }
      ∷ record { id = 5; at = 14; text = codes "on" }
      ∷ []
unfolding since write_all write
last_two = refl

since-write_all_example :
    let j = write_all 2 false earlier new_journal in
    since (since 0 j).1 (write_all 2 false later j) ≡ (newest 2 (numbered 3 later), 5)
since-write_all_example = since-write_all 2 false earlier later

one_line_a_step :
    let take = λ (phase : Text) (s : Dict Text Text × Journal).
      take_event 9 false 5 (some phase) (some (codes "a")) (codes "x") s in
    let (last, j) = take (codes "warm_up") (take (codes "warm_up") ([], new_journal)) in
    (since 0 j).0 ≡ record { id = 1; at = 5; text = codes "a: warm up — x" } ∷ []
unfolding since take_event write get put
one_line_a_step = refl
