-- ===== src/Clients/Admitted.antt =====
-- Whom the door lets in, and what registering and setting a password give.
use ai_lab.Common.{
  ℕ, ◌≤◌, ◌≡◌, subst, refl, sym, ap, ◌∙◌, ◌⊎◌, inl, inr, Bool, true, false, not, ◌&&◌, Option, none,
  some, [], ◌∷◌, if_cases, ltb, arith, length,
}
use ai_lab.Common.Dict.{Dict, put}
use ai_lab.Clients.Text.{Text, text_key, text_eq_iff}
use ai_lab.Clients.Books.{Client, Power, valid, identify, register, uses_a_model}
use ai_lab.Clients.Security.{
  SecurityData, Outcome, done, refused, password_set, check, set_password,
}
use ai_lab.Clients.Door.{
  Headers, DoorState, Admitted, Without, caller, web, anonymous, no_token, is_off, token_missing,
  token_invalid, bearer, who, without, admit, is_open, by_token, by_session, unless_off, off_since,
}

module _ (digest : Text → Text) (now : ℕ) where
  -- A caller by its token, a page by its session, and nobody else.
  abbrev pub Known : Headers → DoorState → Admitted → Type 0
  Known h d (caller name) =
      (token : Text) × (bearer h ≡ some token) × (identify digest token d.clients ≡ some name)
  Known h d web = (bearer h ≡ none) × ((valid now h.session d.sessions).0 ≡ true)
  Known h d anonymous = ⊥
  Known h d (no_token why) = Unit
  Known h d (is_off since) = Unit

  without-Known :
      (h : Headers) (why : Without) (path peer : Text) (d e : DoorState)
      → e.security.require_token ≡ true
      → Known h d (without why path peer e).0
  unfolding without
  without-Known h why path peer d e on =
      if_cases (λ (r : Admitted × DoorState). Known h d r.0) e.security.require_token (λ _. tt)
        (λ off. absurd (cc))

  by_token-Known :
      (h : Headers) (path peer token : Text) (d : DoorState) (name : Option Text)
      → d.security.require_token ≡ true
      → bearer h ≡ some token
      → identify digest token d.clients ≡ name
      → Known h d (by_token digest now path peer name d).0
  by_token-Known h path peer token d none on e i = without-Known h token_invalid path peer d d on
  by_token-Known h path peer token d (some name) on e i = (token, e, i)

  by_session-Known :
      (h : Headers) (path peer : Text) (d : DoorState) (r : Bool × Dict Text ℕ)
      → d.security.require_token ≡ true
      → bearer h ≡ none
      → (valid now h.session d.sessions).0 ≡ r.0
      → Known h d (by_session digest now path peer r d).0
  by_session-Known h path peer d (true, book) on e v = (e, v)
  by_session-Known h path peer d (false, book) on e v =
      without-Known h token_missing path peer d (record d { sessions = book }) on

  who-Known :
      (path : Text) (h : Headers) (peer : Text) (d : DoorState)
      → d.security.require_token ≡ true
      → Known h d (who digest now path h peer d).0
  unfolding who
  who-Known path h peer d on = by_bearer (bearer h) refl
    where
      by_bearer :
          (b : Option Text)
          → bearer h ≡ b
          → Known h d
              (elim b as (λ _. Admitted × DoorState) [
                | some token ↦ by_token digest now path peer (identify digest token d.clients) d
                | none ↦ by_session digest now path peer (valid now h.session d.sessions) d
              ]).0
      by_bearer none e = by_session-Known h path peer d (valid now h.session d.sessions) on e refl
      by_bearer (some token) e =
          by_token-Known h path peer token d (identify digest token d.clients) on e refl

  unless_off-Known :
      (h : Headers) (d : DoorState) (off : Option (Option ℕ)) (r : Admitted × DoorState)
      → Known h d r.0
      → Known h d (unless_off digest now off r).0
  unless_off-Known h d none (no_token why, s) k = k
  unless_off-Known h d none (caller name, s) k = k
  unless_off-Known h d none (web, s) k = k
  unless_off-Known h d none (anonymous, s) k = k
  unless_off-Known h d none (is_off since, s) k = k
  unless_off-Known h d (some x) (no_token why, s) k = k
  unless_off-Known h d (some x) (caller name, s) k = tt
  unless_off-Known h d (some x) (web, s) k = tt
  unless_off-Known h d (some x) (anonymous, s) k = tt
  unless_off-Known h d (some x) (is_off since, s) k = tt

  -- When tokens are required, a call that is not open to all is let in only by a registered token
  -- or, when it has no token, by a valid session; without either it is refused.
  pub admit-Known :
      (method path : Text) (h : Headers) (peer : Text) (d : DoorState)
      → d.security.require_token ≡ true
      → is_open method path ≡ false
      → Known h d (admit digest now method path h peer d).0
  unfolding admit
  admit-Known method path h peer d on closed =
      if_cases (λ (r : Admitted × DoorState). Known h d r.0) (is_open method path)
        (λ is_in. absurd (cc))
        (λ _.
          unless_off-Known h d (off_since digest now method path d.power)
            (who digest now path h peer d) (who-Known path h peer d on))

  abbrev pub Stopped : Option ℕ → Admitted → Type 0
  Stopped since a = (a ≡ is_off since) ⊎ ((why : Without) × (a ≡ no_token why))

  unless_off-Stopped :
      (since : Option ℕ) (r : Admitted × DoorState)
      → Stopped since (unless_off digest now (some since) r).0
  unless_off-Stopped since (no_token why, s) = inr (why, refl)
  unless_off-Stopped since (caller name, s) = inl refl
  unless_off-Stopped since (web, s) = inl refl
  unless_off-Stopped since (anonymous, s) = inl refl
  unless_off-Stopped since (is_off x, s) = inl refl

  -- While AI-Lab is Off no call that uses a model is let in: it is told since when, unless it
  -- is refused for its token before.
  pub admit-Stopped :
      (method path : Text) (h : Headers) (peer : Text) (d : DoorState) (p : Power)
      → d.power ≡ some p
      → p.on ≡ false
      → uses_a_model method path ≡ true
      → is_open method path ≡ false
      → Stopped p.since (admit digest now method path h peer d).0
  unfolding admit
  admit-Stopped method path h peer d p e off model closed =
      if_cases (λ (r : Admitted × DoorState). Stopped p.since r.0) (is_open method path)
        (λ is_in. absurd (cc))
        (λ _.
          subst (λ x. Stopped p.since (unless_off digest now x (who digest now path h peer d)).0)
            (sym is_stopped) (unless_off-Stopped p.since (who digest now path h peer d)))
    where
      is_stopped : off_since digest now method path d.power ≡ some p.since
      is_stopped = ap (off_since digest now method path) e ∙ ground arith

module _ (digest : Text → Text) where
  identify-put :
      (name token : Text) (c : Client) (clients : Dict Text Client)
      → c.digest ≡ digest token
      → identify digest token clients ≡ none
      → identify digest token (put name c clients) ≡ some name
  unfolding identify put
  identify-put name token c [] e fresh = ground (arith, text_eq_iff c.digest (digest token))
  identify-put name token c ((n, c') ∷ clients) e fresh = ground (
    arith,
    text_eq_iff c.digest (digest token),
    text_eq_iff n name,
    identify-put name token c clients,
  )

  -- A client that registers is known by the token it is given, when that token was nobody's.
  pub identify-register :
      (now : ℕ) (name token : Text) (clients clients' : Dict Text Client)
      → identify digest token clients ≡ none
      → register digest now name token clients ≡ some clients'
      → identify digest token clients' ≡ some name
  unfolding register
  identify-register now name token clients clients' fresh h = ground (
    arith,
    identify-put name token (record { digest = digest token; registered_at = now }) clients refl,
  )

abbrev Sets : (Text → Text → Text) → Text → Text → SecurityData → SecurityData → Type 0
Sets hash new current d s =
    (check hash new s ≡ true)
    × (8 ≤ length new)
    × ((password_set d ≡ false) ⊎ (check hash current d ≡ true))

abbrev outcome_or : SecurityData → Outcome → SecurityData
outcome_or s (done t) = t
outcome_or s (refused why) = s

-- A password is set only by whoever knows the one that is set, if any, and only with eight characters
-- or more; and then it is the password.
pub check-set_password :
    (hash : Text → Text → Text) (new current salt : Text) (d s : SecurityData)
    → set_password hash new current salt d ≡ done s
    → (check hash new s ≡ true)
      × (8 ≤ length new)
      × ((password_set d ≡ false) ⊎ (check hash current d ≡ true))
unfolding set_password check
check-set_password hash new current salt d s =
    if_cases (λ (o : Outcome). o ≡ done s → Sets hash new current d s)
      (password_set d && not (check hash current d)) (λ _ h. absurd (cc))
      (λ knows.
        if_cases (λ (o : Outcome). o ≡ done s → Sets hash new current d s) (ltb (length new) 8)
          (λ _ h. absurd (cc))
          (λ long h.
            subst (Sets hash new current d) (ap (outcome_or s) h)
              ((text_eq_iff (hash new salt) (hash new salt)).1 refl, ground arith, ground arith)))
