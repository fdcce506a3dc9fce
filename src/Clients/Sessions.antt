-- ===== src/Clients/Sessions.antt =====
-- Which web sessions are valid, and that the door opens none.
use ai_lab.Common.{
  ℕ, ◌≤◌, ◌≡◌, refl, ◌≢◌, ◌⊎◌, inl, inr, Bool, true, false, Option, none, some, [], ◌∷◌, if_cases,
  arith, Bool-cases,
}
use ai_lab.Common.Dict.{Dict, get, put, get-put, get-pop}
use ai_lab.Common.{◌↔◌}
use ai_lab.Clients.Text.{Text, text_eq, text_key, text_eq_iff, non_empty}
use ai_lab.Clients.Books.{valid, end_session, identify, check_expiry}
use ai_lab.Clients.Door.{
  Headers, DoorState, Admitted, Without, caller, web, anonymous, no_token, is_off, token_missing,
  token_invalid, bearer, who, without, admit, is_open, is_logged, by_token, by_session, unless_off,
  off_since,
}
use ai_lab.Clients.Access.{open_for}

pub get-put_cases :
    (id j : Text) (v : ℕ) (book : Dict Text ℕ) (e : ℕ)
    → get j (put id v book) ≡ some e
    → (id ≡ j) ⊎ (get j book ≡ some e)
get-put_cases id j v book e h = elim (Bool-cases (text_eq id j)) [
  | inl same ↦ inl ((text_eq_iff id j).0 same)
  | inr other ↦ inr (ground (arith, get-put id j v book, other))
]

check_shrinks :
    (now : ℕ) (id : Text) (book : Dict Text ℕ) (r : Option ℕ) (j : Text) (e : ℕ)
    → get j (check_expiry now id book r).1 ≡ some e
    → get j book ≡ some e
check_shrinks now id book none j e h = h
check_shrinks now id book (some expiry) j e h = ground (arith, get-pop id j book)

-- A book never gains a session by asking whether one is valid.
valid_shrinks :
    (now : ℕ) (id : Option Text) (book : Dict Text ℕ) (j : Text) (e : ℕ)
    → get j (valid now id book).1 ≡ some e
    → get j book ≡ some e
unfolding valid non_empty
valid_shrinks now none book j e h = h
valid_shrinks now (some []) book j e h = h
valid_shrinks now (some (c ∷ id)) book j e h =
    check_shrinks now (c ∷ id) book (get (c ∷ id) book) j e h

check_expiry_iff :
    (now : ℕ) (id : Text) (book : Dict Text ℕ) (r : Option ℕ)
    → ((check_expiry now id book r).0 ≡ true) ↔ ((e : ℕ) × (r ≡ some e) × (now ≤ e))
check_expiry_iff now id book none = (λ h. absurd (cc), λ h. absurd (ground arith))
check_expiry_iff now id book (some e) =
    (λ h. (e, refl, ground arith), λ (e', same, late). ground arith)

-- A session is valid exactly when its id is not empty, the book has it, and its end is not past.
pub valid_iff :
    (now : ℕ) (id : Text) (book : Dict Text ℕ)
    → ((valid now (some id) book).0 ≡ true)
      ↔ ((id ≢ []) × ((e : ℕ) × (get id book ≡ some e) × (now ≤ e)))
unfolding valid non_empty
valid_iff now [] book = ((λ h. absurd (cc)), λ h. absurd (h.0 refl))
valid_iff now (c ∷ id) book =
    let r = check_expiry_iff now (c ∷ id) book (get (c ∷ id) book) in
    ((λ h. ((λ e. cc), r.0 h)), λ h. r.1 h.1)

pub end_session_shrinks :
    (id : Option Text) (book : Dict Text ℕ) (j : Text) (e : ℕ)
    → get j (end_session id book) ≡ some e
    → get j book ≡ some e
unfolding end_session
end_session_shrinks none book j e h = ground (arith, get-pop [] j book)
end_session_shrinks (some id) book j e h = ground (arith, get-pop id j book)

pub open_for-security :
    (now : ℕ) (id : Text) (r : Bool × Dict Text ℕ) (d : DoorState)
    → (open_for now id r d).1.security ≡ d.security
open_for-security now id (true, book) d = refl
open_for-security now id (false, book) d = refl

-- The door changes no switch and opens no session.
abbrev pub Keeps : DoorState → DoorState → Type 0
Keeps d d' =
    (d'.security ≡ d.security)
    × ((j : Text) (e : ℕ) → get j d'.sessions ≡ some e → get j d.sessions ≡ some e)

without-Keeps :
    (why : Without) (path peer : Text) (d : DoorState) → Keeps d (without why path peer d).1
unfolding without
without-Keeps why path peer d =
    if_cases (λ (r : Admitted × DoorState). Keeps d r.1) d.security.require_token
      (λ _. (refl, λ j e h. h))
      (λ _.
        if_cases (Keeps d) (is_logged _ d.logged) (λ _. (refl, λ j e h. h))
          (λ _. (refl, λ j e h. h)))

module _ (digest : Text → Text) (now : ℕ) where
  by_token-Keeps :
      (path peer : Text) (name : Option Text) (d : DoorState)
      → Keeps d (by_token digest now path peer name d).1
  by_token-Keeps path peer none d = without-Keeps token_invalid path peer d
  by_token-Keeps path peer (some name) d = (refl, λ j e h. h)

  by_session-Keeps :
      (path peer : Text) (r : Bool × Dict Text ℕ) (d : DoorState)
      → ((j : Text) (e : ℕ) → get j r.1 ≡ some e → get j d.sessions ≡ some e)
      → Keeps d (by_session digest now path peer r d).1
  by_session-Keeps path peer (true, book) d h = (refl, h)
  by_session-Keeps path peer (false, book) d h =
      let (same, less) = without-Keeps token_missing path peer (record d { sessions = book }) in
      (same, λ j e there. h j e (less j e there))

  who-Keeps :
      (path : Text) (h : Headers) (peer : Text) (d : DoorState)
      → Keeps d (who digest now path h peer d).1
  unfolding who
  who-Keeps path h peer d = go (bearer h)
    where
      go :
          (t : Option Text)
          → Keeps d
              (elim t as (λ _. Admitted × DoorState) [
                | some token ↦ by_token digest now path peer (identify digest token d.clients) d
                | none ↦ by_session digest now path peer (valid now h.session d.sessions) d
              ]).1
      go none =
          by_session-Keeps path peer (valid now h.session d.sessions) d
            (valid_shrinks now h.session d.sessions)
      go (some token) = by_token-Keeps path peer (identify digest token d.clients) d

  unless_off-state :
      (off : Option (Option ℕ)) (r : Admitted × DoorState) → (unless_off digest now off r).1 ≡ r.1
  unless_off-state none (no_token why, d) = refl
  unless_off-state none (caller name, d) = refl
  unless_off-state none (web, d) = refl
  unless_off-state none (anonymous, d) = refl
  unless_off-state none (is_off since, d) = refl
  unless_off-state (some since) (no_token why, d) = refl
  unless_off-state (some since) (caller name, d) = refl
  unless_off-state (some since) (web, d) = refl
  unless_off-state (some since) (anonymous, d) = refl
  unless_off-state (some since) (is_off x, d) = refl

  pub admit-Keeps :
      (method path : Text) (h : Headers) (peer : Text) (d : DoorState)
      → Keeps d (admit digest now method path h peer d).1
  unfolding admit
  admit-Keeps method path h peer d =
      if_cases (λ (r : Admitted × DoorState). Keeps d r.1) (is_open method path)
        (λ _. (refl, λ j e there. there))
        (λ _.
          rw
            (unless_off-state (off_since digest now method path d.power)
              (who digest now path h peer d))
            (who-Keeps path h peer d))
