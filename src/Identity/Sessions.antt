-- ===== src/Identity/Sessions.antt =====
-- The writing requests to services/identity-service, one after another.
pub mod LoggingIn
pub mod Spent
pub mod Serving
pub mod Rotation
pub mod Revocation
use aca_social.Base.{ℕ, ◌+◌, Bool, List, [], ◌∷◌, String}
use aca_social.Service.{Result, Run}
use aca_social.Store.{Role}
use aca_social.Identity.Users.{User, Privacy, Accounts, change_role, delete_account}
use aca_social.Identity.Auth.{
  Crypto, Config, Uuids, RegisterDto, VerifyOtpDto, LoginDto, ResetPasswordDto, register,
  verify_register_otp, login, refresh_token, logout, reset_password, on_module_init,
}
use aca_social.Identity.Profile.{
  UpdateProfileDto, ChangePasswordDto, update_profile, update_avatar, update_privacy,
  change_password, confirm_change_email,
}

-- The requests, with what is drawn or answered while they run; `wait` is time that passes.
pub data Request : Type 0 where
  wait : ℕ → Request
  restart : Request
  registering : ℕ → RegisterDto → Request
  verifying : Result Bool → VerifyOtpDto → Request
  logging_in : Uuids → LoginDto → Request
  refreshing : Uuids → String → Request
  logging_out : ℕ → ℕ → Request
  resetting : ℕ → Result Bool → ResetPasswordDto → Request
  renaming : User → UpdateProfileDto → Request
  picturing : User → String → Request
  sharing : User → Privacy → Request
  new_password : ℕ → User → ChangePasswordDto → ℕ → Request
  new_email : Result Bool → User → String → Request
  promoting : ℕ → Role → ℕ → Request
  closing : Bool → ℕ → ℕ → Request

abbrev pub pass : ℕ → Accounts → Accounts
pass ms db = record db { clock = db.clock + ms }

module _ (config : Config) (crypto : Crypto) where
  -- The state that a request leaves.
  unfoldable pub respond : Request → Accounts → Accounts
  respond (Request.wait ms) db = pass ms db
  respond Request.restart db = on_module_init db
  respond (Request.registering salt dto) db = (register config crypto salt dto db).1
  respond (Request.verifying answer dto) db = (verify_register_otp answer dto db).1
  respond (Request.logging_in uuids dto) db = (login config crypto uuids dto db).1
  respond (Request.refreshing uuids raw) db = (refresh_token config crypto uuids raw db).1
  respond (Request.logging_out user jti) db = (logout user jti db).1
  respond (Request.resetting salt answer dto) db =
      (reset_password config crypto salt answer dto db).1
  respond (Request.renaming user dto) db = (update_profile user dto db).1
  respond (Request.picturing user url) db = (update_avatar user url db).1
  respond (Request.sharing user privacy) db = (update_privacy user privacy db).1
  respond (Request.new_password salt user dto jti) db =
      (change_password crypto salt user dto jti db).1
  respond (Request.new_email answer user email) db = (confirm_change_email answer user email db).1
  respond (Request.promoting id role actor) db = (change_role id role actor db).1
  respond (Request.closing matches user jti) db = (delete_account matches user jti db).1

  unfoldable pub serve : List Request → Accounts → Accounts
  serve [] db = db
  serve (r ∷ rs) db = serve rs (respond r db)
