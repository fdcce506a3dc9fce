-- ===== src/Common/Spaced.antt =====
-- Times that follow each other at least so far apart.
use Prim.Native.Nat.{ℕ, ◌+◌, ◌≤◌}
use mathlib.Core.Option.{Option, none, some}
use mathlib.Core.List.{List, [], ◌∷◌}

-- After the last time, if there was one.
abbrev pub IsSpaced : ℕ → Option ℕ → List ℕ → Type 0
IsSpaced spacing last [] = Unit
IsSpaced spacing none (at ∷ more) = IsSpaced spacing (some at) more
IsSpaced spacing (some last) (at ∷ more) = (last + spacing ≤ at) × IsSpaced spacing (some at) more

pub IsSpaced-nil : (spacing : ℕ) (last : Option ℕ) → IsSpaced spacing last []
IsSpaced-nil spacing none = tt
IsSpaced-nil spacing (some last) = tt
