-- ===== src/Eviction/Order.antt =====
-- The order in which models are asked to leave.
use ai_lab.Common.{◌≡◌, true, false, List, [], ◌∷◌, if_cases, arith}
use mathlib.Core.List.{Perm}
use mathlib.Core.List.Perm
use ai_lab.Admission.Parts.{Loaded}
use ai_lab.Eviction.{comes_first, insert, oldest_idle_first}

abbrev pub FirstOf : Loaded → List Loaded → Type 0
FirstOf a [] = Unit {0}
FirstOf a (b ∷ bs) = (comes_first a b ≡ true) × FirstOf a bs

-- Each comes before all that stand behind it.
abbrev pub IsOrdered : List Loaded → Type 0
IsOrdered [] = Unit {0}
IsOrdered (a ∷ as') = FirstOf a as' × IsOrdered as'

comes_first_trans :
    (a b c : Loaded) → comes_first a b ≡ true → comes_first b c ≡ true → comes_first a c ≡ true
unfolding comes_first
comes_first_trans a b c h k = ground arith

comes_first_total : (a b : Loaded) → comes_first a b ≡ false → comes_first b a ≡ true
unfolding comes_first
comes_first_total a b h = ground arith

FirstOf-trans :
    (a b : Loaded) (cs : List Loaded) → comes_first a b ≡ true → FirstOf b cs → FirstOf a cs
FirstOf-trans a b [] h k = tt
FirstOf-trans a b (c ∷ cs) h k = (comes_first_trans a b c h k.0, FirstOf-trans a b cs h k.1)

insert-FirstOf :
    (a b : Loaded) (bs : List Loaded)
    → comes_first b a ≡ true
    → FirstOf b bs
    → FirstOf b (insert a bs)
unfolding insert
insert-FirstOf a b [] h k = (h, tt)
insert-FirstOf a b (c ∷ cs) h k =
    if_cases (FirstOf b) (comes_first a c) (λ _. (h, k)) (λ _. (k.0, insert-FirstOf a b cs h k.1))

insert-IsOrdered : (a : Loaded) (bs : List Loaded) → IsOrdered bs → IsOrdered (insert a bs)
unfolding insert
insert-IsOrdered a [] h = (tt, tt)
insert-IsOrdered a (b ∷ bs) h =
    if_cases IsOrdered (comes_first a b) (λ first. ((first, FirstOf-trans a b bs first h.0), h))
      (λ later.
        (insert-FirstOf a b bs (comes_first_total a b later) h.0, insert-IsOrdered a bs h.1))

insert-perm : (a : Loaded) (bs : List Loaded) → Perm (insert a bs) (a ∷ bs)
unfolding insert
insert-perm a [] = Perm.refl _
insert-perm a (b ∷ bs) =
    if_cases (λ l. Perm l (a ∷ b ∷ bs)) (comes_first a b) (λ _. Perm.refl _)
      (λ _. Perm.trans (Perm.cons b (insert-perm a bs)) (Perm.swap a b bs))

-- The models are put in order and none is left out or added: an idle one stands before every one
-- that is answering, and of two that are both idle or both answering the one used longer ago.
pub oldest_idle_first-IsOrdered :
    (loaded : List Loaded)
    → IsOrdered (oldest_idle_first loaded) × Perm (oldest_idle_first loaded) loaded
unfolding oldest_idle_first
oldest_idle_first-IsOrdered [] = (tt, Perm.refl _)
oldest_idle_first-IsOrdered (a ∷ as') =
    let (ordered, same) = oldest_idle_first-IsOrdered as' in
    (
      insert-IsOrdered a (oldest_idle_first as') ordered,
      Perm.trans (insert-perm a (oldest_idle_first as')) (Perm.cons a same),
    )
