-- ===== src/Clients/Guarded.antt =====
-- What the door and the sessions let through.
use ai_lab.Common.{ℕ, ◌+◌, ◌≡◌, refl, sym, ap, ◌∙◌, ◌⊎◌, inl, inr, true, some, if_cases, arith}
use ai_lab.Common.Dict.{get}
use ai_lab.Clients.Text.{Text, text_key}
use ai_lab.Clients.Books.{start, valid, end_all, lifetime_s}
use ai_lab.Clients.Security.{
  Changes, Outcome, done, refused, login_required, password_set, update, check, set_password,
}
use ai_lab.Clients.Door.{Headers, DoorState}
use ai_lab.Clients.Access.{
  Answer, after_update, after_password, Call, logs_in, logs_out, opens_page, changes_security,
  sets_password, registers, removes, beats, switches, calls, perform,
}
use ai_lab.Clients.Sessions.{get-put_cases, end_session_shrinks, open_for-security, admit-Keeps}

module _ (hash : Text → Text → Text) (digest : Text → Text) (now : ℕ) where
  -- The call is a login with the right password that opens this session.
  abbrev pub Opened : Call → Text → DoorState → Type 0
  Opened (logs_in password id) j d = (id ≡ j) × (check hash password d.security ≡ true)
  Opened _ j d = ⊥

  abbrev Guarded : Call → Text → ℕ → DoorState → DoorState → Type 0
  Guarded c j e d d' =
      login_required d'.security ≡ true
      → get j d'.sessions ≡ some e
      → ((login_required d.security ≡ true) × (get j d.sessions ≡ some e)) ⊎ Opened c j d

  opens_page-Guarded :
      (h : Headers) (id j : Text) (e : ℕ) (d : DoorState)
      → Guarded (opens_page h id) j e d (perform hash digest now (opens_page h id) d).1
  unfolding perform
  opens_page-Guarded h id j e d =
      if_cases (λ (r : Answer × DoorState). Guarded (opens_page h id) j e d r.1)
        (login_required d.security) (λ _ on there. inl (on, there))
        (λ free on there.
          absurd (cc (free, on, open_for-security now id (valid now h.session d.sessions) d)))

  update-Guarded :
      (changes : Changes) (d : DoorState) (o : Outcome)
      → o ≡ update changes d.security
      → (j : Text) (e : ℕ)
      → Guarded (changes_security changes) j e d (after_update hash digest now changes o d).1
  unfolding update login_required password_set get end_all
  update-Guarded changes d (refused why) same j e on there = inl (on, there)
  update-Guarded changes d (done s) same j e on there = ground arith

  login-Guarded :
      (password id j : Text) (e : ℕ) (d : DoorState)
      → Guarded (logs_in password id) j e d (perform hash digest now (logs_in password id) d).1
  unfolding perform start
  login-Guarded password id j e d =
      if_cases (λ (r : Answer × DoorState). Guarded (logs_in password id) j e d r.1)
        (check hash password d.security)
        (λ right on there.
          opened right on (get-put_cases id j (now + lifetime_s) d.sessions e there))
        (λ _ on there. inl (on, there))
    where
      opened :
          check hash password d.security ≡ true
          → login_required d.security ≡ true
          → (id ≡ j) ⊎ (get j d.sessions ≡ some e)
          → ((login_required d.security ≡ true) × (get j d.sessions ≡ some e))
            ⊎ Opened (logs_in password id) j d
      opened right on (inl same) = inr (same, right)
      opened right on (inr there) = inl (on, there)

  password-Guarded :
      (o : Outcome) (j : Text) (e : ℕ) (d : DoorState) (new current salt : Text)
      → Guarded (sets_password new current salt) j e d (after_password hash digest now o d).1
  unfolding get end_all
  password-Guarded (refused why) j e d new current salt on there = inl (on, there)
  password-Guarded (done s) j e d new current salt on there = ground arith

  -- While login is required, a web session is open only if it was open before with login required
  -- too, or if this very call is a login with the right password: no other call opens one, and
  -- neither requiring login nor setting a password under it lets an older session through.
  pub perform-Guarded :
      (c : Call) (j : Text) (e : ℕ) (d : DoorState)
      → login_required (perform hash digest now c d).1.security ≡ true
      → get j (perform hash digest now c d).1.sessions ≡ some e
      → ((login_required d.security ≡ true) × (get j d.sessions ≡ some e)) ⊎ Opened c j d
  unfolding perform
  perform-Guarded (logs_in password id) j e d on there = login-Guarded password id j e d on there
  perform-Guarded (logs_out h) j e d on there =
      inl (on, end_session_shrinks h.session d.sessions j e there)
  perform-Guarded (opens_page h id) j e d on there = opens_page-Guarded h id j e d on there
  perform-Guarded (changes_security changes) j e d on there =
      update-Guarded changes d (update changes d.security) refl j e on there
  perform-Guarded (sets_password new current salt) j e d on there =
      password-Guarded (set_password hash new current salt d.security) j e d new current salt on
        there
  perform-Guarded (registers name fresh) j e d on there = ground arith
  perform-Guarded (removes name) j e d on there = ground arith
  perform-Guarded (beats h) j e d on there = ground arith
  perform-Guarded (switches b) j e d on there = ground arith
  perform-Guarded (calls method path h peer) j e d on there =
      let (same, less) = admit-Keeps digest now method path h peer d in
      inl (sym (ap login_required same) ∙ on, less j e there)
