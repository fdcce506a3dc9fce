-- ===== src/Common/Subseq.antt =====
-- One list is left of another when some entries are taken out and the order is kept.

use mathlib.Core.Bool.{Bool}
use mathlib.Core.List.{List, [], ◌∷◌, ◌++◌}
use ai_lab.Common.Tests.{if_cases}
use ai_lab.Common.Lists.{keep}

pub data Subseq {ℓ} {A : Type ℓ} : List A → List A → Type ℓ where
  done : Subseq [] []
  kept : {xs ys : List A} (x : A) → Subseq xs ys → Subseq (x ∷ xs) (x ∷ ys)
  skipped : {xs ys : List A} (x : A) → Subseq xs ys → Subseq xs (x ∷ ys)

module _ {ℓ} {A : Type ℓ} where
  pub Subseq-append :
      {xs ys us vs : List A} → Subseq xs ys → Subseq us vs → Subseq (xs ++ us) (ys ++ vs)
  Subseq-append done s = s
  Subseq-append (kept x r) s = kept x (Subseq-append r s)
  Subseq-append (skipped x r) s = skipped x (Subseq-append r s)

  pub keep-Subseq : (test : A → Bool) (xs : List A) → Subseq (keep test xs) xs
  keep-Subseq test [] = done
  keep-Subseq test (x ∷ xs) =
      let r = keep-Subseq test xs in
      if_cases (λ l. Subseq l (x ∷ xs)) (test x) (λ _. kept x r) (λ _. skipped x r)

  pub Subseq-refl : (xs : List A) → Subseq xs xs
  Subseq-refl [] = done
  Subseq-refl (x ∷ xs) = kept x (Subseq-refl xs)

  pub Subseq-nil : (xs : List A) → Subseq [] xs
  Subseq-nil [] = done
  Subseq-nil (x ∷ xs) = skipped x (Subseq-nil xs)
