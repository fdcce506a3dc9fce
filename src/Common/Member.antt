-- ===== src/Common/Member.antt =====
-- Membership in a list, and what holds of all entries.
use mathlib.Core.Path.{◌≡◌}
use mathlib.Core.Bool.{Bool, true}
use mathlib.Core.List.{List, ◌∷◌, [], map}
use ai_lab.Common.Tests.{if_cases}
use ai_lab.Common.Lists.{All, keep}

pub data Has {ℓ} {A : Type ℓ} (x : A) : List A → Type ℓ where
  here : {xs : List A} → Has x (x ∷ xs)
  there : {y : A} {xs : List A} → Has x xs → Has x (y ∷ xs)

module _ {ℓ κ} {A : Type ℓ} (P : A → Type κ) where
  pub All-Has : {x : A} {xs : List A} → All P xs → Has x xs → P x
  All-Has all here = all.0
  All-Has all (there has) = All-Has all.1 has

  pub All-of : (xs : List A) → ((x : A) → Has x xs → P x) → All P xs
  All-of [] each = tt
  All-of (x ∷ xs) each = (each x here, All-of xs (λ y. λ has. each y (there has)))

  pub All-keep : (test : A → Bool) (xs : List A) → All P xs → All P (keep test xs)
  All-keep test [] all = tt
  All-keep test (x ∷ xs) all =
      if_cases (All P) (test x) (λ _. (all.0, All-keep test xs all.1)) (λ _. All-keep test xs all.1)

  pub All-keep_of :
      (test : A → Bool) (xs : List A)
      → ((x : A) → Has x xs → test x ≡ true → P x)
      → All P (keep test xs)
  All-keep_of test [] each = tt
  All-keep_of test (x ∷ xs) each =
      let rest = All-keep_of test xs (λ y. λ has. each y (there has)) in
      if_cases (All P) (test x) (λ passed. (each x here passed, rest)) (λ _. rest)

pub All-map_of {ℓ κ μ} :
    {A : Type ℓ} {B : Type κ} (P : B → Type μ) (f : A → B) (xs : List A)
    → ((x : A) → Has x xs → P (f x))
    → All P (map f xs)
All-map_of P f [] each = tt
All-map_of P f (x ∷ xs) each = (each x here, All-map_of P f xs (λ y. λ has. each y (there has)))
