-- ===== src/Clients/Door.antt =====
-- ai_lab/clients/door.py: who is calling, or why the call is refused.
use ai_lab.Common.{
  ℕ, Bool, true, false, not, ◌&&◌, ◌||◌, Option, none, some, List, [], ◌∷◌, ◌++◌, if◌then◌else◌,
  ◌==◌, take, drop,
}
use ai_lab.Common.Dict.{Dict}
use ai_lab.Clients.Text.{
  Text, codes, text_key, lower, upper, starts_with, strip, is_space, is_slash, split_slash,
  join_slash, non_empty,
}
use ai_lab.Clients.Books.{Client, Presence, Power, identify, valid, seen, uses_a_model}
use ai_lab.Clients.Security.{SecurityData}

-- What a request carries: its Authorization header, and what `SimpleCookie` finds for the
-- session cookie (`session_of`).
pub record Headers : Type 0 where
  pub authorization : Option Text
  pub session : Option Text

abbrev filled : Text → Option Text
filled s = if non_empty s then some s else none

unfoldable pub bearer_of : Text → Option Text
bearer_of raw =
    if starts_with (codes "bearer ") (lower raw) then filled (strip is_space (drop 7 raw)) else none

unfoldable pub bearer : Headers → Option Text
unfolding bearer_of
bearer h = elim h.authorization [ none ↦ none | some raw ↦ bearer_of raw ]

unfoldable pub route_key : Text → Text
route_key path =
    let (first, more) = split_slash (strip is_slash path) in
    codes "/" ++ join_slash (take 2 (first ∷ more))

-- Why a call came without a valid token, and what it is refused with.
pub data Without : Type 0 where
  token_invalid token_missing : Without

pub data Admitted : Type 0 where
  caller : (name : Text) → Admitted
  web anonymous : Admitted
  no_token : Without → Admitted
  is_off : Option ℕ → Admitted

pub record DoorState : Type 0 where
  pub clients : Dict Text Client
  pub presence : Presence
  pub security : SecurityData
  pub sessions : Dict Text ℕ
  pub power : Option Power
  pub logged : List (Without × Text × Text)

abbrev same_reason : Without → Without → Bool
same_reason token_invalid token_invalid = true
same_reason token_missing token_missing = true
same_reason token_invalid token_missing = false
same_reason token_missing token_invalid = false

unfoldable pub is_logged : Without × Text × Text → List (Without × Text × Text) → Bool
is_logged key [] = false
is_logged (why, route, peer) ((w, r, p) ∷ rest) =
    let later = is_logged (why, route, peer) rest in
    if same_reason w why && (r == route && p == peer) then true else later

-- `_without`: refused, or served and logged once for each kind, route and address.
unfoldable pub without : Without → Text → Text → DoorState → Admitted × DoorState
without why path peer d =
    if d.security.require_token
    then (no_token why, d)
    else let key : Without × Text × Text = (why, route_key path, peer) in
      (anonymous, if is_logged key d.logged then d else record d { logged = key ∷ d.logged })

abbrev pub is_open : Text → Text → Bool
is_open method path =
    (upper method == codes "GET" && (path == codes "/api/health" || path == codes "/api/session"))
    || (upper method == codes "POST" && path == codes "/api/login")

module _ (digest : Text → Text) (now : ℕ) where
  abbrev pub by_session : Text → Text → Bool × Dict Text ℕ → DoorState → Admitted × DoorState
  by_session path peer (true, book) d = (web, record d { sessions = book })
  by_session path peer (false, book) d =
      without token_missing path peer (record d { sessions = book })

  abbrev pub by_token : Text → Text → Option Text → DoorState → Admitted × DoorState
  by_token path peer (some name) d = (caller name, record d { presence = seen now name d.presence })
  by_token path peer none d = without token_invalid path peer d

  -- `_who`
  unfoldable pub who : Text → Headers → Text → DoorState → Admitted × DoorState
  who path h peer d = elim (bearer h) [
    | some token ↦ by_token path peer (identify digest token d.clients) d
    | none ↦ by_session path peer (valid now h.session d.sessions) d
  ]

  abbrev pub off_since : Text → Text → Option Power → Option (Option ℕ)
  off_since method path none = none
  off_since method path (some p) =
      if not p.on && uses_a_model method path then some p.since else none

  -- A caller that was let in is refused all the same while AI-Lab is Off; what `_who` raised stands.
  abbrev pub unless_off : Option (Option ℕ) → Admitted × DoorState → Admitted × DoorState
  unless_off off (no_token why, d) = (no_token why, d)
  unless_off none r = r
  unless_off (some since) (a, d) = (is_off since, d)

  unfoldable pub admit : Text → Text → Headers → Text → DoorState → Admitted × DoorState
  unfolding who
  admit method path h peer d =
      if is_open method path
      then (anonymous, d)
      else unless_off (off_since method path d.power) (who path h peer d)

  -- `caller`: the registered client behind a request's token.
  unfoldable pub client_of : Headers → Dict Text Client → Option Text
  client_of h clients = elim (bearer h) [ none ↦ none | some token ↦ identify digest token clients ]
