-- ===== src/Replaced/Examples.antt =====
-- A short history of the book.

use ai_lab.Common.{ℕ, ◌≡◌, refl, Option, some, List, [], ◌∷◌}
use ai_lab.Replaced.{Replacements, since}
use ai_lab.Replaced.Latest.{Call, switches, stops, replay}

abbrev new_book : Replacements
new_book = record { taken_off = []; notes = [] }

abbrev history : List (ℕ × Call)
history = (3, switches "b" ("a" ∷ [])) ∷ (9, stops "restart" ("b" ∷ [])) ∷ []

told_what_for : since "a" 2 (replay history new_book) ≡ some "b"
unfolding since ai_lab.Common.Dict.get ai_lab.Replaced.stopped ai_lab.Common.Dict.put
    ai_lab.Replaced.switched
told_what_for = refl
