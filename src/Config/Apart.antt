-- ===== src/Config/Apart.antt =====
-- Claims that join a set one by one and find it without them.
use ai_lab.Common.{◌≡◌, refl, false, ◌||◌, List, [], ◌∷◌, ◌++◌, arith, All, All-append, Key}
use ai_lab.Config.Validation.{is_in, add_new, has_repeats}

module _ {ℓ} {A : Type ℓ} ⦃e : Key A⦄ where
  -- The claims are all different and new to the set, and nothing else joins it.
  pub record Joins (claims before after : List A) : Type ℓ where
    pub apart : has_repeats claims ≡ false
    pub fresh : All (λ a. is_in a before ≡ false) claims
    pub members : (a : A) → is_in a after ≡ (is_in a claims || is_in a before)

  pub Joins-nothing : (set : List A) → Joins [] set set
  Joins-nothing set = record { apart = refl; fresh = tt; members = λ a. refl }

  pub Joins-one : (a : A) (set : List A) → is_in a set ≡ false → Joins (a ∷ []) set (add_new a set)
  Joins-one a set new = record {
    apart = refl;
    fresh = (new, tt);
    members = λ b. ground (arith, new);
  }

  is_in-append : (a : A) (xs ys : List A) → is_in a (xs ++ ys) ≡ (is_in a xs || is_in a ys)
  is_in-append a [] ys = refl
  is_in-append a (x ∷ xs) ys = ground (arith, is_in-append a xs ys)

  fresh_before :
      (xs ys before : List A) (after : List A)
      → ((a : A) → is_in a after ≡ (is_in a xs || is_in a before))
      → All (λ a. is_in a after ≡ false) ys
      → All (λ a. is_in a before ≡ false) ys × All (λ a. is_in a xs ≡ false) ys
  fresh_before xs [] before after members fresh = (tt, tt)
  fresh_before xs (y ∷ ys) before after members fresh =
      let rest = fresh_before xs ys before after members fresh.1 in
      ((ground (arith, members y, fresh.0), rest.0), (ground (arith, members y, fresh.0), rest.1))

  not_among : (x : A) (xs ys : List A) → All (λ a. is_in a (x ∷ xs) ≡ false) ys → is_in x ys ≡ false
  not_among x xs [] fresh = refl
  not_among x xs (y ∷ ys) fresh =
      ground (arith, fresh.0, e.beq_iff x y, e.beq_iff y x, not_among x xs ys fresh.1)

  All-tail :
      (x : A) (xs ys : List A)
      → All (λ a. is_in a (x ∷ xs) ≡ false) ys
      → All (λ a. is_in a xs ≡ false) ys
  All-tail x xs [] fresh = tt
  All-tail x xs (y ∷ ys) fresh = (ground (arith, fresh.0), All-tail x xs ys fresh.1)

  apart_append :
      (xs ys : List A)
      → has_repeats xs ≡ false
      → has_repeats ys ≡ false
      → All (λ a. is_in a xs ≡ false) ys
      → has_repeats (xs ++ ys) ≡ false
  apart_append [] ys hx hy fresh = hy
  apart_append (x ∷ xs) ys hx hy fresh = ground (
    arith,
    hx,
    is_in-append x xs ys,
    not_among x xs ys fresh,
    apart_append xs ys (ground (arith, hx)) hy (All-tail x xs ys fresh),
  )

  pub Joins-both :
      {xs ys before middle after : List A}
      → Joins xs before middle
      → Joins ys middle after
      → Joins (xs ++ ys) before after
  Joins-both {xs} {ys} {before} {middle} {after} first second =
      let (old, other) = fresh_before xs ys before middle first.members second.fresh in
      record {
        apart = apart_append xs ys first.apart second.apart other;
        fresh = All-append (λ a. is_in a before ≡ false) xs ys first.fresh old;
        members = λ a. ground (arith, first.members a, second.members a, is_in-append a xs ys);
      }
