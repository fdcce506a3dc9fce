-- ===== src/Replaced.antt =====
-- ai_lab/gateway/admission/replaced.py: which models were taken off the card, when and for what.
-- The operation log is the list of its notes, the newest first.
pub mod Latest
mod Examples
use Prim.Native.String.{String}
use ai_lab.Common.{ℕ, Option, none, some, List, [], ◌∷◌, ◌≡◌, if◌then◌else◌, ltb, string_key, map}
use ai_lab.Common.Dict.{Dict, get, put}

-- The two lines that the book writes, with what they name.
pub data Note : Type 0 where
  putting : (wanted : String) (victims : List String) → Note
  all_stopped : (reason : String) → Note

pub record Replacements : Type 0 where
  pub taken_off : Dict String (ℕ × String)
  pub notes : List Note

unfoldable pub mark_all :
    ℕ → String → List String → Dict String (ℕ × String) → Dict String (ℕ × String)
mark_all now by [] d = d
mark_all now by (victim ∷ rest) d = mark_all now by rest (put victim (now, by) d)

unfoldable pub mark : ℕ → List String → String → Replacements → Replacements
unfolding mark_all
mark now victims by r = record r { taken_off = mark_all now by victims r.taken_off }

unfoldable pub switched : ℕ → String → List String → Replacements → Replacements
unfolding mark
switched now wanted victims r =
    mark now victims wanted (record r { notes = putting wanted victims ∷ r.notes })

-- `loaded` gives the instance of each loaded shape.
unfoldable pub stopped : ℕ → String → List String → Replacements → Replacements
unfolding mark
stopped now reason loaded r =
    mark now loaded reason (record r { notes = all_stopped reason ∷ r.notes })

abbrev pub after_start : ℕ → Option (ℕ × String) → Option String
after_start started none = none
after_start started (some (at, by)) = if ltb at started then none else some by

unfoldable pub since : String → ℕ → Replacements → Option String
since model started r = after_start started (get model r.taken_off)
