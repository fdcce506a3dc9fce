-- ===== src/Clients/Examples.antt =====
-- A small office: one client, one session, and a password. The hash and the digest are plain ones.
use ai_lab.Common.{◌≡◌, refl, ◌⊎◌, true, false, none, some, [], ◌∷◌, ◌++◌}
use ai_lab.Common.Dict.{get, put, pop}
use ai_lab.Clients.Text.{
  Text, codes, text_key, lower, upper, starts_with, ends_with, strip, strip_left, split_slash,
  join_slash, non_empty,
}
use ai_lab.Clients.Books.{
  start, valid, end_session, seen, is_client_name, register, identify, uses_a_model,
}
use ai_lab.Clients.Security.{
  SecurityData, login_required, password_set, check, set_password, update,
}
use ai_lab.Clients.Door.{
  Headers, DoorState, caller, is_off, bearer, bearer_of, route_key, is_logged, without, who, admit,
}
use ai_lab.Clients.Access.{logs_in, perform}
use ai_lab.Clients.Guarded.{Opened, perform-Guarded}
use ai_lab.Clients.Admitted.{Known, admit-Known}

program : Unit {0}
unfolding start valid end_session seen register identify is_client_name uses_a_model login_required
    password_set check set_password update bearer bearer_of who admit without perform get put pop
    lower upper starts_with ends_with strip strip_left non_empty route_key is_logged split_slash
    join_slash
program = tt

abbrev hash : Text → Text → Text
hash password salt = salt ++ password

abbrev digest : Text → Text
digest token = 35 ∷ token

abbrev secret : SecurityData
secret = record {
  require_token = true;
  login_flag = true;
  password = some (record { salt = codes "s"; hashed = codes "slongsecret" });
}

abbrev office : DoorState
office = record {
  clients = (codes "desk", record { digest = codes "#tok"; registered_at = 1 }) ∷ [];
  presence = record { last_call = []; last_beat = [] };
  security = secret;
  sessions = (codes "old", 50) ∷ [];
  power = some (record { on = false; since = some 9 });
  logged = [];
}

abbrev with_token : Headers
with_token = record { authorization = some (codes "Bearer  tok "); session = none }

call_known :
    (admit digest 60 (codes "GET") (codes "/v1/models") with_token [] office).0
    ≡ caller (codes "desk")
unfolding program
call_known = refl

call_off :
    (admit digest 60 (codes "POST") (codes "/v1/chat/completions") with_token [] office).0
    ≡ is_off (some 9)
unfolding program
call_off = refl

perform-Guarded_example :
    ((login_required secret ≡ true) × (get (codes "new") office.sessions ≡ some 2592060))
    ⊎ Opened hash digest 60 (logs_in (codes "longsecret") (codes "new")) (codes "new") office
unfolding program
perform-Guarded_example =
    perform-Guarded hash digest 60 (logs_in (codes "longsecret") (codes "new")) (codes "new")
      2592060 office refl refl

admit-Known_example :
    Known digest 60 with_token office
      (admit digest 60 (codes "GET") (codes "/v1/models") with_token [] office).0
unfolding program
admit-Known_example =
    admit-Known digest 60 (codes "GET") (codes "/v1/models") with_token [] office refl refl

abbrev changed : SecurityData
changed = record {
  require_token = true;
  login_flag = true;
  password = some (record { salt = codes "t"; hashed = codes "tanother one" });
}
