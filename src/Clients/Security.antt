-- ===== src/Clients/Security.antt =====
-- ai_lab/clients/security.py: the switches and the password. `hash` is scrypt of hashlib, a function
-- of the password and the salt; the salt drawn is an argument. A text that is missing is empty.
use ai_lab.Common.{
  Bool, true, false, not, ◌&&◌, Option, none, some, if◌then◌else◌, ltb, length, ◌==◌,
}
use ai_lab.Clients.Text.{Text, text_key}

pub record Password : Type 0 where
  pub salt : Text
  pub hashed : Text

-- The file: a switch that it does not hold is off.
pub record SecurityData : Type 0 where
  pub require_token : Bool
  pub login_flag : Bool
  pub password : Option Password

pub data Refusal : Type 0 where
  password_missing wrong_password too_short : Refusal

pub data Outcome : Type 0 where
  done : SecurityData → Outcome
  refused : Refusal → Outcome

-- The changes of one call of `update`; a switch that is not named stays.
pub record Changes : Type 0 where
  pub require_token : Option Bool
  pub login_required : Option Bool

abbrev pub is_true : Option Bool → Bool
is_true none = false
is_true (some b) = b

abbrev or_keep : Option Bool → Bool → Bool
or_keep none b = b
or_keep (some b) old = b

unfoldable pub password_set : SecurityData → Bool
password_set d = elim d.password [ none ↦ false | some p ↦ true ]

unfoldable pub login_required : SecurityData → Bool
unfolding password_set
login_required d = d.login_flag && password_set d

unfoldable pub update : Changes → SecurityData → Outcome
unfolding password_set
update changes d =
    if is_true changes.login_required && not (password_set d)
    then refused password_missing
    else done (record d {
      require_token = or_keep changes.require_token d.require_token;
      login_flag = or_keep changes.login_required d.login_flag;
    })

module _ (hash : Text → Text → Text) where
  unfoldable pub check : Text → SecurityData → Bool
  check typed d = elim d.password [ none ↦ false | some p ↦ hash typed p.salt == p.hashed ]

  unfoldable pub set_password : Text → Text → Text → SecurityData → Outcome
  unfolding check password_set
  set_password new current salt d =
      if password_set d && not (check current d)
      then refused wrong_password
      else if ltb (length new) 8
      then refused too_short
      else done (record d { password = some (record { salt = salt; hashed = hash new salt }) })
