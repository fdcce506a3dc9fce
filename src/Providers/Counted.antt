-- ===== src/Providers/Counted.antt =====
-- That the counts of the calls agree with each other.
use ai_lab.Common.{
  ℕ, ◌+◌, ◌≡◌, refl, Bool, true, false, Option, none, some, List, [], ◌∷◌, if◌then◌else◌, if_cases,
  ◌==◌, arith, All,
}
use ai_lab.Common.Dict.{Dict, get, put, pop}
use ai_lab.Clients.Text.{Text, text_key, non_empty}
use ai_lab.Providers.Usage.{
  Counts, bump, Days, drop_days, or_new, or_none, count_call, record_call, too_old,
}

abbrev pub sum : Dict Text ℕ → ℕ
sum [] = 0
sum ((k, n) ∷ d) = n + sum d

sum-bump : (k : Text) (d : Dict Text ℕ) → sum (bump k d) ≡ sum d + 1
unfolding get put
sum-bump k [] = omega arith
sum-bump k ((j, n) ∷ d) = ground (arith, sum-bump k d)

-- Every call is of one model, and went well or failed.
abbrev pub IsCounted : Counts → Type 0
IsCounted c = (c.requests ≡ sum c.models) × (c.requests ≡ c.ok + sum c.failures)

abbrev IsCountedDay : Text × Counts → Type 0
IsCountedDay (vendor, c) = IsCounted c

abbrev IsCountedAll : Text × Dict Text Counts → Type 0
IsCountedAll (day, d) = All IsCountedDay d

abbrev pub IsConsistent : Days → Type 0
IsConsistent days = All IsCountedAll days

module _ {V : Type 0} (P : V → Type 0) where
  abbrev OnValue : Text × V → Type 0
  OnValue (k, v) = P v

  All-put : (k : Text) (v : V) (d : Dict Text V) → P v → All OnValue d → All OnValue (put k v d)
  unfolding put
  All-put k v [] hv h = (hv, tt)
  All-put k v ((j, w) ∷ d) hv (hw, h) =
      if_cases (All OnValue) (j == k) (λ _. (hv, h)) (λ _. (hw, All-put k v d hv h))

  All-pop : (k : Text) (d : Dict Text V) → All OnValue d → All OnValue (pop k d)
  unfolding pop
  All-pop k [] h = h
  All-pop k ((j, w) ∷ d) (hw, h) =
      if_cases (All OnValue) (j == k) (λ _. All-pop k d h) (λ _. (hw, All-pop k d h))

  abbrev OnFound : Option V → Type 0
  OnFound none = Unit
  OnFound (some v) = P v

  All-get : (k : Text) (d : Dict Text V) → All OnValue d → OnFound (get k d)
  unfolding get
  All-get k [] h = tt
  All-get k ((j, w) ∷ d) (hw, h) = if_cases OnFound (j == k) (λ _. hw) (λ _. All-get k d h)

count_call-IsCounted :
    (model failure : Text) (c : Counts) → IsCounted c → IsCounted (count_call model failure c)
unfolding count_call
count_call-IsCounted model failure c (m, f) =
    (omega (arith, sum-bump model c.models, m), failed (non_empty failure))
  where
    failed :
        (b : Bool)
        → c.requests + 1
          ≡ (if b then c.ok else c.ok + 1) + sum (if b then bump failure c.failures else c.failures)
    failed true = omega (arith, sum-bump failure c.failures, f)
    failed false = omega (arith, f)

drop_days-IsConsistent :
    (old : List Text) (days : Days) → IsConsistent days → IsConsistent (drop_days old days)
unfolding drop_days
drop_days-IsConsistent [] days h = h
drop_days-IsConsistent (o ∷ old) days h =
    drop_days-IsConsistent old (pop o days) (All-pop (All IsCountedDay) o days h)

-- Counting a call keeps the counts in agreement: on every day, for every vendor, the calls are as many
-- as those of its models and as many as went well or failed, and so they stay when old days go.
pub record_call-IsConsistent :
    (today vendor model failure : Text) (days : Days)
    → IsConsistent days
    → IsConsistent (record_call today vendor model failure days)
unfolding record_call
record_call-IsConsistent today vendor model failure days h =
    let day : Dict Text Counts = or_none (get today days) in
    let c : Counts = count_call model failure (or_new (get vendor day)) in
    let on_day : All IsCountedDay day =
      of_day (get today days) (All-get (All IsCountedDay) today days h) in
    let counted : IsCounted c =
      count_call-IsCounted model failure (or_new (get vendor day))
        (of_vendor (get vendor day) (All-get IsCounted vendor day on_day)) in
    let days' : Days = put today (put vendor c day) days in
    drop_days-IsConsistent (too_old days') days' (
      All-put (All IsCountedDay) today (put vendor c day) days
        (All-put IsCounted vendor c day counted on_day) h)
  where
    of_day :
        (o : Option (Dict Text Counts))
        → OnFound (All IsCountedDay) o
        → All IsCountedDay (or_none o)
    of_day none h = tt
    of_day (some d) h = h

    of_vendor : (o : Option Counts) → OnFound IsCounted o → IsCounted (or_new o)
    of_vendor none h = (refl, refl)
    of_vendor (some c) h = h
