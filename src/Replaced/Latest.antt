-- ===== src/Replaced/Latest.antt =====
-- What `since` says after a history of switches and stops.
use Prim.Native.String.{String}
use ai_lab.Common.{
  ℕ, ◌≡◌, refl, Bool, true, false, Option, some, List, [], ◌∷◌, if◌then◌else◌, arith, string_key,
  ◌==◌,
}
use ai_lab.Common.Dict.{Dict, get, put, get-put}
use ai_lab.Replaced.{Replacements, mark_all, mark, switched, stopped, since, after_start}

abbrev pub is_in : String → List String → Bool
is_in model [] = false
is_in model (v ∷ vs) = let later = is_in model vs in if v == model then true else later

pub get-mark_all :
    (model : String) (now : ℕ) (by : String) (victims : List String) (d : Dict String (ℕ × String))
    → get model (mark_all now by victims d)
      ≡ (if is_in model victims then some (now, by) else get model d)
unfolding mark_all
get-mark_all model now by [] d = refl
get-mark_all model now by (v ∷ vs) d =
    ground (arith, get-mark_all model now by vs (put v (now, by) d), get-put v model (now, by) d)

-- One call of the book at its time.
pub data Call : Type 0 where
  switches : (wanted : String) (victims : List String) → Call
  stops : (reason : String) (loaded : List String) → Call

abbrev pub replay : List (ℕ × Call) → Replacements → Replacements
replay [] r = r
replay ((now, switches wanted victims) ∷ calls) r = replay calls (switched now wanted victims r)
replay ((now, stops reason loaded) ∷ calls) r = replay calls (stopped now reason loaded r)

-- The last call of a history that took `model` off: its time and what it was for.
abbrev pub last_taken : String → List (ℕ × Call) → Option (ℕ × String) → Option (ℕ × String)
last_taken model [] known = known
last_taken model ((now, switches wanted victims) ∷ calls) known =
    last_taken model calls (if is_in model victims then some (now, wanted) else known)
last_taken model ((now, stops reason loaded) ∷ calls) known =
    last_taken model calls (if is_in model loaded then some (now, reason) else known)

get-replay :
    (model : String) (calls : List (ℕ × Call)) (r : Replacements)
    → get model (replay calls r).taken_off ≡ last_taken model calls (get model r.taken_off)
unfolding switched stopped mark
get-replay model [] r = refl
get-replay model ((now, switches wanted victims) ∷ calls) r = rw (
  get-replay model calls (switched now wanted victims r),
  get-mark_all model now wanted victims r.taken_off,
)
get-replay model ((now, stops reason loaded) ∷ calls) r = rw (
  get-replay model calls (stopped now reason loaded r),
  get-mark_all model now reason loaded r.taken_off,
)

-- After any history of switches and stops, a call that started at `started` is told what the last
-- one that took its model off was for, if that was not before the call started, and nothing
-- otherwise.
pub since-replay :
    (model : String) (started : ℕ) (calls : List (ℕ × Call)) (r : Replacements)
    → since model started (replay calls r)
      ≡ after_start started (last_taken model calls (get model r.taken_off))
unfolding since
since-replay model started calls r = rw (get-replay model calls r)
