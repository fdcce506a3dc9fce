-- ===== src/Providers/Usage.antt =====
-- ai_lab/providers/usage.py: `UsageLog.record`. A day is its ISO text; the file keeps what the dictionary
-- keeps.
use ai_lab.Common.{
  ℕ, ◌+◌, ◌-◌, Bool, true, false, ◌&&◌, ◌||◌, Option, none, some, List, [], ◌∷◌, if◌then◌else◌, ltb,
  eqb, length, take, map,
}
use ai_lab.Common.Dict.{Dict, get, put, pop}
use ai_lab.Clients.Text.{Text, text_key, non_empty}

pub record Counts : Type 0 where
  pub requests : ℕ
  pub ok : ℕ
  pub models : Dict Text ℕ
  pub failures : Dict Text ℕ

abbrev pub new_counts : Counts
new_counts = record { requests = 0; ok = 0; models = []; failures = [] }

abbrev pub or_zero_of : Option ℕ → ℕ
or_zero_of none = 0
or_zero_of (some n) = n

-- `d[k] = d.get(k, 0) + 1`
abbrev pub bump : Text → Dict Text ℕ → Dict Text ℕ
bump k d = put k (or_zero_of (get k d) + 1) d

abbrev pub days_kept : ℕ
days_kept = 31

-- The order of texts: by the first character that differs, a beginning before what goes on.
abbrev comes_before : Text → Text → Bool
comes_before [] t = true
comes_before (x ∷ xs) [] = false
comes_before (x ∷ xs) (y ∷ ys) = ltb x y || (eqb x y && comes_before xs ys)

unfoldable pub insert_day : Text → List Text → List Text
insert_day d [] = d ∷ []
insert_day d (e ∷ es) =
    let later = insert_day d es in if comes_before d e then d ∷ e ∷ es else e ∷ later

unfoldable pub sorted_days : List Text → List Text
unfolding insert_day
sorted_days [] = []
sorted_days (d ∷ ds) = insert_day d (sorted_days ds)

abbrev pub Days : Type 0
Days = Dict Text (Dict Text Counts)

unfoldable pub drop_days : List Text → Days → Days
drop_days [] days = days
drop_days (old ∷ more) days = drop_days more (pop old days)

abbrev pub or_new : Option Counts → Counts
or_new none = new_counts
or_new (some c) = c

abbrev pub or_none : Option (Dict Text Counts) → Dict Text Counts
or_none none = []
or_none (some d) = d

unfoldable pub count_call : Text → Text → Counts → Counts
unfolding non_empty
count_call model failure c = record {
  requests = c.requests + 1;
  ok = if non_empty failure then c.ok else c.ok + 1;
  models = bump model c.models;
  failures = if non_empty failure then bump failure c.failures else c.failures;
}

-- `sorted(self._days)[:-DAYS_KEPT]`
abbrev pub too_old : Days → List Text
too_old days =
    take (length days - days_kept)
      (sorted_days (map (λ (item : Text × Dict Text Counts). item.0) days))

unfoldable pub record_call : Text → Text → Text → Text → Days → Days
unfolding count_call sorted_days drop_days
record_call today vendor model failure days =
    let day = or_none (get today days) in
    let days' =
      put today (put vendor (count_call model failure (or_new (get vendor day))) day) days in
    drop_days (too_old days') days'
