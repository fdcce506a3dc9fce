-- ===== src/Admission/Counts.antt =====
-- How the operations on `loaded` change the count of one shape.
use ai_lab.Common.{ℕ, ◌≤◌, ◌≡◌, List, [], ◌∷◌, if◌then◌else◌, eqb, arith, nat_key}
use ai_lab.Common.Dict.{Dict, get, put, pop, get-put, get-pop}
use ai_lab.Admission.Parts.{Shape, count_of}
use ai_lab.Admission.Scheduler.{leave_first, from_keys}

pub count_of-put :
    (k j : Shape) (v : ℕ) (d : Dict Shape ℕ)
    → count_of j (put k v d) ≡ (if eqb k j then v else count_of j d)
unfolding count_of
count_of-put k j v d = ground (arith, get-put k j v d)

pub count_of-pop :
    (k j : Shape) (d : Dict Shape ℕ) → count_of j (pop k d) ≡ (if eqb k j then 0 else count_of j d)
unfolding count_of
count_of-pop k j d = ground (arith, get-pop k j d)

pub count_of-leave_first :
    (j : Shape) (d : Dict Shape ℕ) → count_of j (leave_first d) ≤ count_of j d
unfolding count_of leave_first get
count_of-leave_first j [] = omega arith
count_of-leave_first j ((i, n) ∷ d) = ground (arith, count_of-leave_first j d)

pub count_of-from_keys :
    (j : Shape) (shapes : List Shape) (d : Dict Shape ℕ)
    → count_of j d ≡ 0
    → count_of j (from_keys 0 shapes d) ≡ 0
unfolding from_keys
count_of-from_keys j [] d h = h
count_of-from_keys j (shape ∷ rest) d h =
    count_of-from_keys j rest (put shape 0 d) (ground (arith, count_of-put shape j 0 d))
