-- ===== src/Admission/Ascending.antt =====
-- Requests whose numbers ascend.

use ai_lab.Common.{ℕ, suc, ◌+◌, ◌≤◌, ◌≡◌, List, [], ◌∷◌, ◌++◌, arith}
use ai_lab.Common.Subseq.{Subseq, done, kept, skipped}
use ai_lab.Admission.Parts.{Waiting}

-- Numbers from `lo` on and below `hi`, each greater than the one before it.
abbrev pub Ascends : ℕ → ℕ → List Waiting → Type 0
Ascends lo hi [] = lo ≤ hi
Ascends lo hi (e ∷ es) = (lo ≤ e.number) × Ascends (suc e.number) hi es

pub Ascends-le : (lo hi : ℕ) (es : List Waiting) → Ascends lo hi es → lo ≤ hi
Ascends-le lo hi [] h = h
Ascends-le lo hi (e ∷ es) h = omega (arith, Ascends-le (suc e.number) hi es h.1, h.0)

pub Ascends-widen :
    (lo lo' hi : ℕ) (es : List Waiting) → lo' ≤ lo → Ascends lo hi es → Ascends lo' hi es
Ascends-widen lo lo' hi [] le h = omega arith
Ascends-widen lo lo' hi (e ∷ es) le h = (omega arith, h.1)

pub Ascends-Subseq :
    (lo hi : ℕ) {xs ys : List Waiting} → Subseq xs ys → Ascends lo hi ys → Ascends lo hi xs
Ascends-Subseq lo hi done h = h
Ascends-Subseq lo hi (kept e r) h = (h.0, Ascends-Subseq (suc e.number) hi r h.1)
Ascends-Subseq lo hi (skipped e r) h =
    Ascends-widen (suc e.number) lo hi _ (omega (arith, h.0))
      (Ascends-Subseq (suc e.number) hi r h.1)

pub Ascends-snoc :
    (lo hi : ℕ) (es : List Waiting) (e : Waiting)
    → e.number ≡ hi
    → Ascends lo hi es
    → Ascends lo (hi + 1) (es ++ e ∷ [])
Ascends-snoc lo hi [] e eq h = (omega arith, omega arith)
Ascends-snoc lo hi (x ∷ es) e eq h = (h.0, Ascends-snoc (suc x.number) hi es e eq h.1)

pub Ascends-behind :
    (lo hi : ℕ) (xs ys : List Waiting) → Ascends lo hi (xs ++ ys) → Ascends lo hi ys
Ascends-behind lo hi [] ys h = h
Ascends-behind lo hi (x ∷ xs) ys h =
    Ascends-widen (suc x.number) lo hi ys (omega (arith, h.0))
      (Ascends-behind (suc x.number) hi xs ys h.1)
