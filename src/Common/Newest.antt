-- ===== src/Common/Newest.antt =====
-- The newest entries of a list that grows at its end: what a bounded queue keeps.
use Prim.Native.Nat.{ℕ, zero, suc, ◌+◌, ◌-◌, ◌≤◌}
use mathlib.Core.Path.{◌≡◌, refl, sym, ap, ◌∙◌}
use mathlib.Core.List.{List, [], ◌∷◌, ◌++◌}
use native.Mathlib.Omega.{arith}
use ai_lab.Common.Lists.{length, drop, length-append}

module _ {ℓ} {A : Type ℓ} where
  length-drop : (n : ℕ) (xs : List A) → length (drop n xs) ≡ length xs - n
  length-drop zero xs = omega arith
  length-drop (suc n) [] = omega arith
  length-drop (suc n) (x ∷ xs) = omega (arith, length-drop n xs)

  pub drop_by : (n m : ℕ) (xs : List A) → n ≡ m → drop n xs ≡ drop m xs
  drop_by n m xs h = ap (λ k. drop k xs) h

  drop-nil : (n : ℕ) → drop {A = A} n [] ≡ []
  drop-nil zero = refl
  drop-nil (suc n) = refl

  pub drop-append :
      (n : ℕ) (xs ys : List A) → drop n (xs ++ ys) ≡ drop n xs ++ drop (n - length xs) ys
  drop-append zero xs ys = ap (λ k. xs ++ k) (drop_by 0 (0 - length xs) ys (omega arith))
  drop-append (suc n) [] ys = drop_by (suc n) (suc n - 0) ys (omega arith)
  drop-append (suc n) (x ∷ xs) ys =
      drop-append n xs ys
      ∙ ap (λ k. drop n xs ++ k)
          (drop_by (n - length xs) (suc n - suc (length xs)) ys (omega arith))

  drop-drop : (n m : ℕ) (xs : List A) → drop m (drop n xs) ≡ drop (n + m) xs
  drop-drop zero m xs = drop_by m (0 + m) xs (omega arith)
  drop-drop (suc n) m [] = drop-nil m ∙ sym (drop-nil (suc n + m))
  drop-drop (suc n) m (x ∷ xs) =
      drop-drop n m xs ∙ drop_by (suc (n + m)) (suc n + m) (x ∷ xs) (omega arith)

  -- The last `n` entries, or all of them.
  abbrev pub newest : ℕ → List A → List A
  newest n xs = drop (length xs - n) xs

  pub newest_all : (n : ℕ) (xs : List A) → length xs ≤ n → newest n xs ≡ xs
  newest_all n xs h = drop_by (length xs - n) 0 xs (omega arith)

  pub length-newest : (n : ℕ) (xs : List A) → length (newest n xs) ≤ n
  length-newest n xs = omega (arith, length-drop (length xs - n) xs)

  pub newest_split :
      (n : ℕ) (xs ys : List A)
      → newest n (xs ++ ys) ≡ drop (length xs + length ys - n) xs ++ drop (length ys - n) ys
  newest_split n xs ys =
      drop_by (length (xs ++ ys) - n) (length xs + length ys - n) (xs ++ ys)
        (ap (λ k. k - n) (length-append xs ys))
      ∙ drop-append (length xs + length ys - n) xs ys
      ∙ ap (λ k. drop (length xs + length ys - n) xs ++ k)
          (drop_by (length xs + length ys - n - length xs) (length ys - n) ys (omega arith))

  -- Forgetting what is old before more comes changes nothing.
  pub newest-newest : (n : ℕ) (xs ys : List A) → newest n (newest n xs ++ ys) ≡ newest n (xs ++ ys)
  newest-newest n xs ys =
      newest_split n (newest n xs) ys
      ∙ ap (λ l. l ++ drop (length ys - n) ys)
          (drop-drop (length xs - n) (length (newest n xs) + length ys - n) xs
            ∙ drop_by (length xs - n + (length (newest n xs) + length ys - n))
                (length xs + length ys - n) xs same)
      ∙ sym (newest_split n xs ys)
    where
      same : length xs - n + (length (newest n xs) + length ys - n) ≡ length xs + length ys - n
      same = omega (arith, length-drop (length xs - n) xs)
