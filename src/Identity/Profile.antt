-- ===== src/Identity/Profile.antt =====
-- services/identity-service/src/users/users.service.ts: what users change of their own accounts. The
-- user is the row that JwtStrategy loaded for the request.
use aca_social.Base.{
  ℕ, Bool, not, Option, none, some, String, str_eq, find?, any, is_some, ◌&&◌, ◌==◌,
}
use aca_social.Service.{
  Result, Run, gets, lift, throw_if, modify, ◌>>=◌, ◌>>◌, conflict, bad_request, internal,
}
use aca_social.Identity.Users.{User, Privacy, Accounts}
use aca_social.Identity.Auth.{
  AccessToken, Crypto, has_email, present_email, with_password, save_user, revoke_all,
  blacklist_jti, validate,
}

pub record UpdateProfileDto : Type 0 where
  pub full_name : String
  pub date_of_birth : Option ℕ

pub record ChangePasswordDto : Type 0 where
  pub current_password : String
  pub new_password : String
  pub confirm_password : String

-- `if (dto.dateOfBirth) user.dateOfBirth = …`
abbrev pub with_birth : Option ℕ → User → User
with_birth none u = u
with_birth (some date) u = record u { date_of_birth = some date }

unfoldable pub update_profile : User → UpdateProfileDto → Run Accounts (Unit {0})
update_profile user dto =
    modify (save_user (with_birth dto.date_of_birth (record user { full_name = dto.full_name })))

unfoldable pub update_avatar : User → String → Run Accounts (Unit {0})
update_avatar user url = modify (save_user (record user { avatar_url = some url }))

unfoldable pub update_privacy : User → Privacy → Run Accounts (Unit {0})
update_privacy user privacy = modify (save_user (record user { privacy = privacy }))

unfoldable pub change_password : Crypto → ℕ → User → ChangePasswordDto → ℕ → Run Accounts (Unit {0})
change_password crypto salt user dto jti = do
  throw_if (not (crypto.compare dto.current_password user.password_hash)) bad_request
  throw_if (not (str_eq dto.new_password dto.confirm_password)) bad_request
  now ← gets (λ db. db.clock)
  modify (save_user (with_password (crypto.hash salt dto.new_password) now user))
  modify (revoke_all user.id)
  modify (blacklist_jti jti)

-- The request with an access token: the guard passes on the user that it loaded.
unfoldable pub request_change_password :
    Crypto → ℕ → AccessToken → ChangePasswordDto → Run Accounts (Unit {0})
request_change_password crypto salt payload dto = do
  user ← validate payload
  change_password crypto salt user dto payload.jti

-- The check of `requestChangeEmail`, before it creates and mails a code.
unfoldable pub request_change_email : String → Run Accounts (Unit {0})
request_change_email email = do
  existing ← gets (λ db. find? (present_email email) db.users)
  throw_if (is_some existing) conflict

-- The column `email` is unique, among deleted accounts too: the database refuses the row.
abbrev pub taken_by_other : ℕ → String → User → Bool
taken_by_other id email u = has_email email u && not (u.id == id)

unfoldable pub confirm_change_email : Result Bool → User → String → Run Accounts (Unit {0})
confirm_change_email answer user email = do
  existing ← gets (λ db. find? (present_email email) db.users)
  throw_if (is_some existing) conflict
  valid ← lift answer
  throw_if (not valid) bad_request
  taken ← gets (λ db. any (taken_by_other user.id email) db.users)
  throw_if taken internal
  modify (save_user (record user { email = email }))
