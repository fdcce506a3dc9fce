-- ===== src/Eviction/Choice.antt =====
-- What `EvictionPlanner.choose` promises of the models that it picks.
use ai_lab.Common.{
  ℕ, ◌+◌, ◌*◌, ◌≤◌, ◌<◌, ◌≡◌, refl, ◌⊎◌, inl, inr, not, ◌&&◌, ◌||◌, true, false, Option, none, some,
  List, [], ◌∷◌, ◌++◌, if_cases, leb, ltb, arith,
}
use ai_lab.Common.{ap, ◌∙◌}
use ai_lab.Common.Subseq.{Subseq, done, kept, skipped, Subseq-nil, Subseq-refl}
use ai_lab.Admission.Parts.{Shape, Loaded}
use ai_lab.Eviction.{over, others_of, is_known, alone_or, one_is_enough, until_it_fits, choose}

module _ (needs_mb : Shape → ℕ) where
  abbrev pub freed : List Shape → ℕ
  freed [] = 0
  freed (shape ∷ rest) = needs_mb shape + freed rest

  -- Victims are among the others, in their order; and they free enough, or all others leave.
  abbrev pub Picked : ℕ → ℕ → ℕ → List Shape → Option (List Shape) → Type 0
  Picked needed free capacity others none = capacity < needed
  Picked needed free capacity others (some victims) =
      Subseq victims others × ((needed ≤ free + freed victims) ⊎ (victims ≡ others))

  Picked-cons :
      (needed free capacity : ℕ) (v : Shape) (vs : List Shape) (r : Option (List Shape))
      → Picked needed (free + needs_mb v) capacity vs r
      → Picked needed free capacity
          (v ∷ vs)
          (elim r [ none ↦ none | some victims ↦ some (v ∷ victims) ])
  Picked-cons needed free capacity v vs none h = h
  Picked-cons needed free capacity v vs (some victims) (sub, inl enough) =
      (kept v sub, inl (omega arith))
  Picked-cons needed free capacity v vs (some victims) (sub, inr all) =
      (kept v sub, inr (ap (λ l. v ∷ l) all))

  until_it_fits-Picked :
      (needed free capacity : ℕ) (others : List Shape)
      → Picked needed free capacity others (until_it_fits needs_mb needed free capacity others)
  unfolding until_it_fits
  until_it_fits-Picked needed free capacity [] =
      if_cases (Picked needed free capacity []) (ltb capacity needed) (λ e. ground arith)
        (λ _. (done, inr refl))
  until_it_fits-Picked needed free capacity (v ∷ vs) =
      if_cases (Picked needed free capacity (v ∷ vs)) (leb needed (free + needs_mb v))
        (λ e. (kept v (Subseq-nil vs), inl (ground arith)))
        (λ _.
          Picked-cons needed free capacity v vs _
            (until_it_fits-Picked needed (free + needs_mb v) capacity vs))

  -- Whether one alone is enough: the first such one, or none.
  abbrev Alone : ℕ → ℕ → List Shape → List Shape → Type 0
  Alone needed free others [] = Unit {0}
  Alone needed free others (v ∷ rest) =
      (rest ≡ []) × Subseq (v ∷ []) others × (needed ≤ free + needs_mb v)

  Alone-skip :
      (needed free : ℕ) (x : Shape) (xs l : List Shape)
      → Alone needed free xs l
      → Alone needed free (x ∷ xs) l
  Alone-skip needed free x xs [] h = tt
  Alone-skip needed free x xs (v ∷ rest) (e, sub, fits) = (e, skipped x sub, fits)

  one_is_enough-Alone :
      (needed free : ℕ) (others : List Shape)
      → Alone needed free others (one_is_enough needs_mb needed free others)
  unfolding one_is_enough
  one_is_enough-Alone needed free [] = tt
  one_is_enough-Alone needed free (v ∷ vs) =
      if_cases (Alone needed free (v ∷ vs)) (leb needed (free + needs_mb v))
        (λ e. (refl, kept v (Subseq-nil vs), ground arith))
        (λ _. Alone-skip needed free v vs _ (one_is_enough-Alone needed free vs))

  alone_or-Picked :
      (needed free capacity : ℕ) (others alone : List Shape) (several : Option (List Shape))
      → Alone needed free others alone
      → Picked needed free capacity others several
      → Picked needed free capacity others (alone_or needs_mb alone several)
  alone_or-Picked needed free capacity others [] several a h = h
  alone_or-Picked needed free capacity others (v ∷ rest) several (e, sub, fits) h =
      (rw e sub, inl (rw e (omega arith)))

  -- Whatever the reading, `choose` refuses only a model that needs more than the capacity; else
  -- the models that leave are other ones than the model wanted, in the order in which they are
  -- asked to leave, and with them gone there is room, unless they are all the others there are.
  pub choose-Picked :
      (wanted : Shape) (loaded : List Loaded) (free capacity : ℕ)
      → Picked
          (needs_mb wanted)
          free
          capacity
          (others_of needs_mb wanted loaded)
          (choose needs_mb wanted loaded free capacity)
  unfolding choose
  choose-Picked wanted loaded free capacity =
      let needed = needs_mb wanted in
      let others = others_of needs_mb wanted loaded in
      let P = Picked needed free capacity others in
      if_cases P (is_known needs_mb needed free && over needed capacity false) (λ e. ground arith)
        λ _.
          if_cases P (not (is_known needs_mb needed free) || over (10 * needed) (9 * capacity) true)
            (λ _. (Subseq-refl others, inr refl))
            λ _.
              if_cases P (leb needed free) (λ e. (Subseq-nil others, inl (ground arith)))
                (λ _.
                  alone_or-Picked needed free capacity others _ _
                    (one_is_enough-Alone needed free others)
                    (until_it_fits-Picked needed free capacity others))

  abbrev TooSmall : ℕ → ℕ → List Shape → Type 0
  TooSmall needed free [] = Unit {0}
  TooSmall needed free (v ∷ vs) = (free + needs_mb v < needed) × TooSmall needed free vs

  one_is_enough-first :
      (needed free : ℕ) (before : List Shape) (v : Shape) (after : List Shape)
      → TooSmall needed free before
      → needed ≤ free + needs_mb v
      → one_is_enough needs_mb needed free (before ++ v ∷ after) ≡ v ∷ []
  unfolding one_is_enough
  one_is_enough-first needed free [] v after h fits = ground arith
  one_is_enough-first needed free (x ∷ xs) v after h fits =
      ground (arith, one_is_enough-first needed free xs v after h.1)

  -- With a reading, and unless the model fits at once or takes nine tenths of the card: if one
  -- model's place alone frees the room, exactly one leaves, the first such in the order.
  pub choose_alone :
      (wanted : Shape) (loaded : List Loaded) (free capacity : ℕ) (before : List Shape) (v : Shape)
      (after : List Shape)
      → others_of needs_mb wanted loaded ≡ before ++ v ∷ after
      → TooSmall (needs_mb wanted) free before
      → needs_mb wanted ≤ free + needs_mb v
      → 0 < free
      → free < needs_mb wanted
      → 10 * needs_mb wanted < 9 * capacity
      → choose needs_mb wanted loaded free capacity ≡ some (v ∷ [])
  unfolding choose
  choose_alone wanted loaded free capacity before v after e small fits known short low = ground (
    arith,
    ap (one_is_enough needs_mb (needs_mb wanted) free) e
        ∙ one_is_enough-first (needs_mb wanted) free before v after small fits,
  )

  until_it_fits-all :
      (needed free : ℕ) (others : List Shape)
      → free + freed others < needed
      → until_it_fits needs_mb needed free 0 others ≡ none
  unfolding until_it_fits
  until_it_fits-all needed free [] h = ground arith
  until_it_fits-all needed free (v ∷ vs) h =
      ground (arith, until_it_fits-all needed (free + needs_mb v) vs)

  one_is_enough-none :
      (needed free : ℕ) (others : List Shape)
      → free + freed others < needed
      → one_is_enough needs_mb needed free others ≡ []
  unfolding one_is_enough
  one_is_enough-none needed free [] h = refl
  one_is_enough-none needed free (v ∷ vs) h = ground (arith, one_is_enough-none needed free vs)

  -- A zero capacity counts as unknown in the other tests, yet a model for which the free memory and
  -- the memory of all the others do not suffice is then refused for good, not given an empty card.
  pub choose_unknown_capacity :
      (wanted : Shape) (loaded : List Loaded) (free : ℕ)
      → 0 < free
      → free + freed (others_of needs_mb wanted loaded) < needs_mb wanted
      → choose needs_mb wanted loaded free 0 ≡ none
  unfolding choose
  choose_unknown_capacity wanted loaded free known h = ground (
    arith,
    one_is_enough-none (needs_mb wanted) free (others_of needs_mb wanted loaded) h,
    until_it_fits-all (needs_mb wanted) free (others_of needs_mb wanted loaded) h,
  )
