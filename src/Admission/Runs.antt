-- ===== src/Admission/Runs.antt =====
-- `_take_run` against an independent description: the longest run of one shape at the front of
-- the queue, less the requests whose clients are gone.
use ai_lab.Common.{
  ℕ, ◌+◌, ◌≤◌, ◌<◌, ◌≡◌, refl, Bool, not, List, [], ◌∷◌, ◌++◌, map, if◌then◌else◌, eqb, arith,
  nat_key, length, keep,
}
use ai_lab.Common.Bag.{count}
use ai_lab.Admission.Parts.{Shape, Waiting, Clients, QueueState, fail, is_gone, drop_gone}
use ai_lab.Admission.Planning.{take_run}

abbrev pub is_here : Clients → Waiting → Bool
is_here asks entry = not (is_gone asks entry)

unfoldable pub run_of : Shape → List Waiting → List Waiting
run_of shape [] = []
run_of shape (entry ∷ rest) =
    let more = entry ∷ run_of shape rest in if eqb entry.shape shape then more else []

unfoldable pub behind : Shape → List Waiting → List Waiting
behind shape [] = []
behind shape (entry ∷ rest) =
    let more = behind shape rest in if eqb entry.shape shape then more else entry ∷ rest

pub run_of-append-behind :
    (shape : Shape) (es : List Waiting) → run_of shape es ++ behind shape es ≡ es
unfolding run_of behind
run_of-append-behind shape [] = refl
run_of-append-behind shape (e ∷ es) = ground (arith, run_of-append-behind shape es)

pub length-behind-le : (shape : Shape) (es : List Waiting) → length (behind shape es) ≤ length es
unfolding behind
length-behind-le shape [] = omega arith
length-behind-le shape (e ∷ es) = ground (arith, length-behind-le shape es)

module _ (asks : Clients) (shape : Shape) where
  pub take_run-photograph :
      (es : List Waiting) (s : QueueState)
      → (take_run asks shape es s).0 ≡ keep (is_here asks) (run_of shape es)
  unfolding take_run run_of
  take_run-photograph [] s = refl
  take_run-photograph (e ∷ es) s =
      ground (arith, take_run-photograph es s, take_run-photograph es (drop_gone e s))

  pub take_run-queue :
      (es : List Waiting) (s : QueueState) → (take_run asks shape es s).1.queue ≡ behind shape es
  unfolding take_run behind
  take_run-queue [] s = refl
  take_run-queue (e ∷ es) s = ground (arith, take_run-queue es s, take_run-queue es (drop_gone e s))

  pub take_run-loaded :
      (es : List Waiting) (s : QueueState) → (take_run asks shape es s).1.loaded ≡ s.loaded
  unfolding take_run drop_gone fail
  take_run-loaded [] s = refl
  take_run-loaded (e ∷ es) s =
      ground (arith, take_run-loaded es s, take_run-loaded es (drop_gone e s))

  pub take_run-switching :
      (es : List Waiting) (s : QueueState) → (take_run asks shape es s).1.switching ≡ s.switching
  unfolding take_run drop_gone fail
  take_run-switching [] s = refl
  take_run-switching (e ∷ es) s =
      ground (arith, take_run-switching es s, take_run-switching es (drop_gone e s))

  pub take_run-epoch :
      (es : List Waiting) (s : QueueState) → (take_run asks shape es s).1.epoch ≡ s.epoch
  unfolding take_run drop_gone fail
  take_run-epoch [] s = refl
  take_run-epoch (e ∷ es) s = ground (arith, take_run-epoch es s, take_run-epoch es (drop_gone e s))

  -- Each entry of the run is in the photograph, or is told that it was dropped.
  pub take_run-told :
      (a : ℕ) (es : List Waiting) (s : QueueState)
      → count a (map (λ v. v.0) (take_run asks shape es s).1.told)
          + count a (map (λ e. e.number) (take_run asks shape es s).0)
        ≡ count a (map (λ v. v.0) s.told) + count a (map (λ e. e.number) (run_of shape es))
  unfolding take_run run_of drop_gone fail
  take_run-told a [] s = refl
  take_run-told a (e ∷ es) s =
      ground (arith, take_run-told a es s, take_run-told a es (drop_gone e s))

pub head-run_of :
    (head : Waiting) (rest : List Waiting)
    → length (behind head.shape (head ∷ rest)) < length (head ∷ rest)
unfolding behind
head-run_of head rest = ground (arith, length-behind-le head.shape rest)
