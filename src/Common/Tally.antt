-- ===== src/Common/Tally.antt =====
-- Entries of a list that pass a test, counted, and lists split into groups and sorted.
use Prim.Native.Nat.{ℕ, suc, ◌+◌}
use mathlib.Core.Path.{◌≡◌, refl}
use mathlib.Core.Bool.{Bool}
use mathlib.Core.List.{List, [], ◌∷◌, ◌++◌}
use native.Mathlib.Omega.{arith}
use ai_lab.Common.Tests.{if◌then◌else◌}
use ai_lab.Common.Keys.{Key, ◌==◌}
use ai_lab.Common.Dict.{Dict}

module _ {ℓ} {A : Type ℓ} where
  abbrev pub tally : (A → Bool) → List A → ℕ
  tally test [] = 0
  tally test (x ∷ xs) = let rest = tally test xs in if test x then suc rest else rest

  pub tally-append :
      (test : A → Bool) (xs ys : List A) → tally test (xs ++ ys) ≡ tally test xs + tally test ys
  tally-append test [] ys = omega arith
  tally-append test (x ∷ xs) ys = ground (arith, tally-append test xs ys)

  abbrev pub insert_by : (A → A → Bool) → A → List A → List A
  insert_by le a [] = a ∷ []
  insert_by le a (b ∷ bs) =
      let later = b ∷ insert_by le a bs in if le a b then a ∷ b ∷ bs else later

  -- `sorted(xs, key=…)`, which keeps the order of equal keys.
  abbrev pub sort_by : (A → A → Bool) → List A → List A
  sort_by le [] = []
  sort_by le (x ∷ xs) = insert_by le x (sort_by le xs)

  tally-insert_by :
      (test : A → Bool) (le : A → A → Bool) (a : A) (bs : List A)
      → tally test (insert_by le a bs) ≡ tally test (a ∷ bs)
  tally-insert_by test le a [] = refl
  tally-insert_by test le a (b ∷ bs) = ground (arith, tally-insert_by test le a bs)

  pub tally-sort_by :
      (test : A → Bool) (le : A → A → Bool) (xs : List A)
      → tally test (sort_by le xs) ≡ tally test xs
  tally-sort_by test le [] = refl
  tally-sort_by test le (x ∷ xs) =
      ground (arith, tally-insert_by test le x (sort_by le xs), tally-sort_by test le xs)

module _ {ℓ κ} {K : Type κ} ⦃e : Key K⦄ {A : Type ℓ} where
  -- `d.setdefault(k, []).append(a)`
  unfoldable pub add_to : K → A → Dict K (List A) → Dict K (List A)
  add_to k a [] = (k, a ∷ []) ∷ []
  add_to k a ((j, as') ∷ d) = if j == k then (j, as' ++ (a ∷ [])) ∷ d else (j, as') ∷ add_to k a d

  unfoldable pub group_onto : (A → K) → List A → Dict K (List A) → Dict K (List A)
  unfolding add_to
  group_onto key [] d = d
  group_onto key (x ∷ xs) d = group_onto key xs (add_to (key x) x d)

  -- What all groups hold that passes a test.
  abbrev pub tally_all : (A → Bool) → Dict K (List A) → ℕ
  tally_all test [] = 0
  tally_all test ((k, as') ∷ d) = tally test as' + tally_all test d

  tally_all-add_to :
      (test : A → Bool) (k : K) (a : A) (d : Dict K (List A))
      → tally_all test (add_to k a d) ≡ tally test (a ∷ []) + tally_all test d
  unfolding add_to
  tally_all-add_to test k a [] = refl
  tally_all-add_to test k a ((j, as') ∷ d) =
      ground (arith, tally-append test as' (a ∷ []), tally_all-add_to test k a d)

  pub tally_all-group_onto :
      (test : A → Bool) (key : A → K) (xs : List A) (d : Dict K (List A))
      → tally_all test (group_onto key xs d) ≡ tally test xs + tally_all test d
  unfolding group_onto
  tally_all-group_onto test key [] d = omega arith
  tally_all-group_onto test key (x ∷ xs) d = ground (
    arith,
    tally_all-group_onto test key xs (add_to (key x) x d),
    tally_all-add_to test (key x) x d,
  )

  tally_all-insert_by :
      (test : A → Bool) (le : K × List A → K × List A → Bool) (g : K × List A) (d : Dict K (List A))
      → tally_all test (insert_by le g d) ≡ tally test g.1 + tally_all test d
  tally_all-insert_by test le g [] = refl
  tally_all-insert_by test le g (h ∷ d) = ground (arith, tally_all-insert_by test le g d)

  pub tally_all-sort_by :
      (test : A → Bool) (le : K × List A → K × List A → Bool) (d : Dict K (List A))
      → tally_all test (sort_by le d) ≡ tally_all test d
  tally_all-sort_by test le [] = refl
  tally_all-sort_by test le (g ∷ d) =
      ground (arith, tally_all-insert_by test le g (sort_by le d), tally_all-sort_by test le d)
