-- ===== src/Admission/Told.antt =====
-- Waking requests, with or without a failure, changes nothing but the trace.
use ai_lab.Common.{ℕ, ◌+◌, ◌≡◌, refl, List, [], ◌∷◌, map, arith}
use ai_lab.Common.Bag.{count}
use ai_lab.Admission.Parts.{Failure, Waiting, QueueState, let_in, fail, fail_all, release}

pub fail_all_only_tells :
    (f : Failure) (es : List Waiting) (s : QueueState)
    → fail_all f es s ≡ record s { told = (fail_all f es s).told }
unfolding fail_all fail
fail_all_only_tells f [] s = refl
fail_all_only_tells f (e ∷ es) s = fail_all_only_tells f es (fail f e s)

pub release_only_tells :
    (es : List Waiting) (s : QueueState) → release es s ≡ record s { told = (release es s).told }
unfolding release
release_only_tells [] s = refl
release_only_tells (e ∷ es) s =
    release_only_tells es (record s { told = (e.number, let_in) ∷ s.told })

pub count-fail_all :
    (a : ℕ) (f : Failure) (es : List Waiting) (s : QueueState)
    → count a (map (λ v. v.0) (fail_all f es s).told)
      ≡ count a (map (λ e. e.number) es) + count a (map (λ v. v.0) s.told)
unfolding fail_all fail
count-fail_all a f [] s = omega arith
count-fail_all a f (e ∷ es) s = omega (arith, count-fail_all a f es (fail f e s))

pub count-release :
    (a : ℕ) (es : List Waiting) (s : QueueState)
    → count a (map (λ v. v.0) (release es s).told)
      ≡ count a (map (λ e. e.number) es) + count a (map (λ v. v.0) s.told)
unfolding release
count-release a [] s = omega arith
count-release a (e ∷ es) s = omega (arith, count-release a es _)
