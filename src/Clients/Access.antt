-- ===== src/Clients/Access.antt =====
-- ai_lab/clients/access.py: the parts of access behind one object. Ids, salts and tokens drawn are
-- arguments; a call that raises leaves the state as the parts left it.
use ai_lab.Common.{ℕ, Bool, true, false, none, some, [], if◌then◌else◌}
use ai_lab.Common.Dict.{Dict}
use ai_lab.Clients.Text.{Text, text_key}
use ai_lab.Clients.Books.{
  start, valid, end_session, end_all, heartbeat, register, remove, switch, lifetime_s,
}
use ai_lab.Clients.Security.{
  Refusal, Outcome, done, refused, Changes, is_true, login_required, update, check, set_password,
}
use ai_lab.Clients.Door.{Headers, DoorState, Admitted, admit, client_of}

-- What a call answers: a Set-Cookie value for an id and its age, nothing, or a refusal.
pub data Answer : Type 0 where
  cookie : (id : Text) → (max_age : ℕ) → Answer
  nothing : Answer
  denied : Answer
  refusal : Refusal → Answer
  beat : (at : ℕ) → Answer
  unknown_client bad_name : Answer
  token : (name fresh : Text) → Answer
  switched : (on changed : Bool) → Answer
  admitted : Admitted → Answer

abbrev pub open_for : ℕ → Text → Bool × Dict Text ℕ → DoorState → Answer × DoorState
open_for now id (true, book) d = (nothing, record d { sessions = book })
open_for now id (false, book) d = (cookie id lifetime_s, record d { sessions = start now id book })

module _ (hash : Text → Text → Text) (digest : Text → Text) (now : ℕ) where
  unfoldable pub login : Text → Text → DoorState → Answer × DoorState
  login password id d =
      if check hash password d.security
      then (cookie id lifetime_s, record d { sessions = start now id d.sessions })
      else (denied, d)

  unfoldable pub logout : Headers → DoorState → Answer × DoorState
  logout h d = (cookie [] 0, record d { sessions = end_session h.session d.sessions })

  -- With login off the page opens a session by itself.
  unfoldable pub page_cookie : Headers → Text → DoorState → Answer × DoorState
  page_cookie h id d =
      if login_required d.security
      then (nothing, d)
      else open_for now id (valid now h.session d.sessions) d

  abbrev pub after_update : Changes → Outcome → DoorState → Answer × DoorState
  after_update changes (refused why) d = (refusal why, d)
  after_update changes (done s) d = (
    nothing,
    record d {
      security = s;
      sessions = if is_true changes.login_required then end_all d.sessions else d.sessions;
    },
  )

  unfoldable pub update_security : Changes → DoorState → Answer × DoorState
  unfolding update
  update_security changes d = after_update changes (update changes d.security) d

  abbrev pub after_password : Outcome → DoorState → Answer × DoorState
  after_password (refused why) d = (refusal why, d)
  after_password (done s) d = (
    nothing,
    record d {
      security = s;
      sessions = if login_required s then end_all d.sessions else d.sessions;
    },
  )

  unfoldable pub change_password : Text → Text → Text → DoorState → Answer × DoorState
  unfolding set_password
  change_password new current salt d =
      after_password (set_password hash new current salt d.security) d

  unfoldable pub register_client : Text → Text → DoorState → Answer × DoorState
  register_client name fresh d = elim (register digest now name fresh d.clients) [
    | none ↦ (bad_name, d)
    | some clients ↦ (token name fresh, record d { clients = clients })
  ]

  unfoldable pub remove_client : Text → DoorState → Answer × DoorState
  remove_client name d = elim (remove name d.clients) [
    | none ↦ (unknown_client, d)
    | some clients ↦ (nothing, record d { clients = clients })
  ]

  unfoldable pub beat_of : Headers → DoorState → Answer × DoorState
  beat_of h d = elim (client_of digest now h d.clients) [
    | none ↦ (denied, d)
    | some name ↦ (beat now, record d { presence = heartbeat now name d.presence })
  ]

  unfoldable pub switch_power : Bool → DoorState → Answer × DoorState
  switch_power on d = elim d.power [
    | none ↦ (nothing, d)
    | some p ↦ let (p', off) = switch now on p in (switched p'.on off, record d { power = some p' })
  ]

  unfoldable pub pass_door : Text → Text → Headers → Text → DoorState → Answer × DoorState
  pass_door method path h peer d =
      let (a, d') = admit digest now method path h peer d in (admitted a, d')

-- One call of the object, with what it draws.
pub data Call : Type 0 where
  logs_in : (password id : Text) → Call
  logs_out : Headers → Call
  opens_page : Headers → (id : Text) → Call
  changes_security : Changes → Call
  sets_password : (new current salt : Text) → Call
  registers : (name fresh : Text) → Call
  removes : (name : Text) → Call
  beats : Headers → Call
  switches : Bool → Call
  calls : (method path : Text) → Headers → (peer : Text) → Call

unfoldable pub perform :
    (Text → Text → Text) → (Text → Text) → ℕ → Call → DoorState → Answer × DoorState
unfolding login logout page_cookie update_security change_password register_client remove_client
    beat_of switch_power pass_door
perform hash digest now (logs_in password id) d = login hash digest now password id d
perform hash digest now (logs_out h) d = logout hash digest now h d
perform hash digest now (opens_page h id) d = page_cookie hash digest now h id d
perform hash digest now (changes_security changes) d = update_security hash digest now changes d
perform hash digest now (sets_password new current salt) d =
    change_password hash digest now new current salt d
perform hash digest now (registers name fresh) d = register_client hash digest now name fresh d
perform hash digest now (removes name) d = remove_client hash digest now name d
perform hash digest now (beats h) d = beat_of hash digest now h d
perform hash digest now (switches on) d = switch_power hash digest now on d
perform hash digest now (calls method path h peer) d =
    pass_door hash digest now method path h peer d
