-- ===== src/Clients/Books.antt =====
-- ai_lab/clients/sessions.py `SessionBook`, presence.py `Presence`, registry.py `ClientRegistry` and
-- power.py `Power`. Fresh tokens and session ids, and the times, are arguments; the private files
-- keep what the records keep. `digest` is SHA-256 of hashlib, a function of the token.
use ai_lab.Common.{
  ℕ, ◌+◌, ◌-◌, Bool, true, false, not, ◌&&◌, ◌||◌, Option, none, some, [], ◌∷◌, if◌then◌else◌, ltb,
  leb, eqb, ◌==◌,
}
use ai_lab.Common.Dict.{Dict, get, put, pop}
use ai_lab.Clients.Text.{Text, codes, text_key, upper, starts_with, ends_with, non_empty}

abbrev pub lifetime_s : ℕ
lifetime_s = 2592000

-- `SessionBook.start` with the id that was drawn.
unfoldable pub start : ℕ → Text → Dict Text ℕ → Dict Text ℕ
start now id book = put id (now + lifetime_s) book

abbrev pub check_expiry : ℕ → Text → Dict Text ℕ → Option ℕ → Bool × Dict Text ℕ
check_expiry now id book none = (false, book)
check_expiry now id book (some expiry) =
    if ltb expiry now then (false, pop id book) else (true, book)

-- `SessionBook.valid`: the answer, and the book with an expired session deleted.
unfoldable pub valid : ℕ → Option Text → Dict Text ℕ → Bool × Dict Text ℕ
valid now none book = (false, book)
valid now (some id) book =
    if non_empty id then check_expiry now id book (get id book) else (false, book)

unfoldable pub end_session : Option Text → Dict Text ℕ → Dict Text ℕ
end_session none book = pop [] book
end_session (some id) book = pop id book

unfoldable pub end_all : Dict Text ℕ → Dict Text ℕ
end_all book = []

pub record Presence : Type 0 where
  pub last_call : Dict Text ℕ
  pub last_beat : Dict Text ℕ

unfoldable pub seen : ℕ → Text → Presence → Presence
seen now name p = record p { last_call = put name now p.last_call }

unfoldable pub heartbeat : ℕ → Text → Presence → Presence
heartbeat now name p = record p {
  last_call = put name now p.last_call;
  last_beat = put name now p.last_beat;
}

pub record Client : Type 0 where
  pub digest : Text
  pub registered_at : ℕ

abbrev is_name_char : ℕ → Bool
is_name_char c =
    (leb b'a' c && leb c b'z')
    || (leb b'0' c && leb c b'9')
    || eqb c b'.'
    || eqb c b'_'
    || eqb c b'-'

abbrev name_rest : ℕ → Text → Bool
name_rest room [] = true
name_rest room (c ∷ s) =
    (eqb c 10 && not (non_empty s)) || (ltb 0 room && is_name_char c && name_rest (room - 1) s)

-- `NAME`: a letter or digit, and up to 63 more characters; `$` also matches before a line feed
-- that ends the text.
unfoldable pub is_client_name : Text → Bool
is_client_name [] = false
is_client_name (c ∷ s) =
    ((leb b'a' c && leb c b'z') || (leb b'0' c && leb c b'9')) && name_rest 63 s

module _ (digest : Text → Text) where
  -- `none` where `register` raises ValueError.
  unfoldable pub register : ℕ → Text → Text → Dict Text Client → Option (Dict Text Client)
  register now name token clients =
      if is_client_name name
      then some (put name (record { digest = digest token; registered_at = now }) clients)
      else none

  unfoldable pub identify : Text → Dict Text Client → Option Text
  identify token [] = none
  identify token ((name, client) ∷ rest) =
      if client.digest == digest token then some name else identify token rest

-- `none` where `remove` raises KeyError.
unfoldable pub remove : Text → Dict Text Client → Option (Dict Text Client)
remove name clients = elim (get name clients) [ none ↦ none | some c ↦ some (pop name clients) ]

pub record Power : Type 0 where
  pub on : Bool
  pub since : Option ℕ

unfoldable pub uses_a_model : Text → Text → Bool
uses_a_model method path =
    if upper method == codes "GET"
    then false
    else if starts_with (codes "/v1/") path || starts_with (codes "/tokenize") path
    then true
    else starts_with (codes "/api/instances/") path && ends_with (codes "/load") path

abbrev same_bool : Bool → Bool → Bool
same_bool true b = b
same_bool false b = not b

-- The new state, and whether the Off actions run.
unfoldable pub switch : ℕ → Bool → Power → Power × Bool
switch now on p =
    if same_bool on p.on then (p, false) else (record { on = on; since = some now }, not on)
