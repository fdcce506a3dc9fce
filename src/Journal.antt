-- ===== src/Journal.antt =====
-- ai_lab/runtime/journal.py: `OperationJournal`, the newest lines in memory, and `PhaseFollower`. The times are
-- arguments; the lines the rotating file gets are listed as `filed`, oldest first.
pub mod Polling
mod Examples
use ai_lab.Common.{
  ℕ, ◌+◌, ◌-◌, Bool, true, false, Option, none, some, List, [], ◌∷◌, ◌++◌, if◌then◌else◌, ltb, keep,
  eqb, map, ◌==◌,
}
use ai_lab.Common.Newest.{newest}
use ai_lab.Common.Dict.{Dict, get, put}
use ai_lab.Clients.Text.{Text, codes, text_key}

pub record Line : Type 0 where
  pub id : ℕ
  pub at : ℕ
  pub text : Text

pub record Journal : Type 0 where
  pub lines : List Line
  pub next_id : ℕ
  pub filed : List (ℕ × Text)

abbrev pub new_journal : Journal
new_journal = record { lines = []; next_id = 1; filed = [] }

-- `keep_lines` is the `maxlen` of the deque; there is a file when `has_file`.
unfoldable pub write : ℕ → Bool → ℕ → Text → Journal → Journal
write keep_lines has_file now text j = record {
  lines = newest keep_lines (j.lines ++ record { id = j.next_id; at = now; text = text } ∷ []);
  next_id = j.next_id + 1;
  filed = if has_file then j.filed ++ (now, text) ∷ [] else j.filed;
}

-- The lines and the last id.
unfoldable pub since : ℕ → Journal → List Line × ℕ
since after j = (keep (λ line. ltb after line.id) j.lines, j.next_id - 1)

unfoldable pub write_all : ℕ → Bool → List (ℕ × Text) → Journal → Journal
unfolding write
write_all keep_lines has_file [] j = j
write_all keep_lines has_file ((now, text) ∷ more) j =
    write_all keep_lines has_file more (write keep_lines has_file now text j)

-- `PhaseFollower.take`: the last step noted of each model, and the journal it writes to. An event
-- without a phase or a model is passed over.
abbrev underscore_to_space : ℕ → ℕ
underscore_to_space c = if eqb c 95 then 32 else c

abbrev pub behind_dash : Text → Text
behind_dash [] = []
behind_dash (c ∷ message) = codes " — " ++ c ∷ message

abbrev pub is_step : Text → Option Text → Bool
is_step name none = false
is_step name (some last) = last == name

unfoldable pub take_event :
    ℕ
    → Bool
    → ℕ
    → Option Text
    → Option Text
    → Text
    → Dict Text Text × Journal
    → Dict Text Text × Journal
unfolding write
take_event keep_lines has_file now none instance_id message s = s
take_event keep_lines has_file now (some name) none message s = s
take_event keep_lines has_file now (some name) (some instance_id) message (last, j) =
    if is_step name (get instance_id last) then (last, j) else (
      put instance_id name last,
      write keep_lines has_file now
          (instance_id ++ codes ": " ++ map underscore_to_space name ++ behind_dash message) j,
    )
