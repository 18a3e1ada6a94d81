-- ===== src/Tests/Sessions.antt =====
-- The theorems on sessions at concrete inputs.
use aca_social.Base.{
  ℕ, ◌*◌, ◌≡◌, refl, true, false, none, some, [], ◌∷◌, ◌++◌, arith, str_eq, eq_iff, find?,
}
use aca_social.Service.{
  ok, err, unauthorized, pure, gets, or_throw, fetch, ◌>>=◌, ◌>>◌, throw_if, modify, branch,
}
use aca_social.Store.{Role}
use aca_social.Identity.Ttl.{
  ahead, parse_ttl, parse_int, parse_signed, skip_spaces, parse_digits, init, last, in_unit,
  round_from,
}
use aca_social.Identity.Ttl.Durations.{TimeUnit, decimal, letter, parse_ttl-decimal}
use aca_social.Mentions.{codes}
use aca_social.Identity.Users.{User, Privacy, Accounts}
use aca_social.Identity.Auth.{
  Crypto, Config, Uuids, Tokens, LoginDto, ResetPasswordDto, login, find_login, refresh_token,
  rotate, generate_tokens, save_user, reset_password, has_hash, access_token,
}
use aca_social.Identity.Profile.{ChangePasswordDto, request_change_password}
use aca_social.Identity.Sessions.{Request, serve, pass}
use aca_social.Identity.Sessions.Rotation.{
  HasNoSession, Rotates, refresh_token-Rotates, refresh_token_once,
}
use aca_social.Identity.Sessions.LoggingIn.{Login, login-Login, login-refresh_token}
use aca_social.Identity.Sessions.Revocation.{
  Resets, ChangesPassword, reset_password-Resets, request_change_password-ChangesPassword,
}

parse_ttl-decimal_example :
    parse_ttl (decimal 15 15 ++ letter TimeUnit.minute ∷ []) ≡ ahead (15 * 60)
parse_ttl-decimal_example = parse_ttl-decimal 15 TimeUnit.minute (omega arith)

-- The first integer that is no double: 9007199254740993s is read as one second less.
rounded : parse_ttl (codes "9007199254740993s") ≡ ahead 9007199254740992
unfolding parse_ttl parse_int parse_signed skip_spaces parse_digits init last in_unit round_from
rounded = refl

-- A hash that keeps the text, which shows that the laws can hold.
abbrev plain : Crypto
plain = record {
  sha256 = λ s. s;
  hash = λ salt s. s;
  compare = str_eq;
  compare_hash = λ salt s. (eq_iff s s).1 refl;
}

abbrev config : Config
config = record { access_seconds = 900; refresh_expires = "7d" }

abbrev user : User
user = record {
  id = 1;
  username = some "an";
  full_name = "An";
  date_of_birth = none;
  email = "an@ptit.vn";
  password_hash = "secret";
  avatar_url = none;
  privacy = Privacy.public;
  is_verified = true;
  role = Role.student;
  last_login_at = none;
  password_changed_at = none;
  deleted = false;
}

abbrev db : Accounts
db = record {
  clock = 5000;
  next_id = 2;
  users = user ∷ [];
  refresh_tokens = [];
  role_audits = [];
  blacklist = [];
}

abbrev uuids : ℕ → Uuids
uuids n = record { jti = n; refresh_token = "r1" }

abbrev later : Uuids
later = record { jti = 8; refresh_token = "r2" }

abbrev credentials : LoginDto
credentials = record { identifier = "an"; password = "secret" }

abbrev tokens : Tokens
tokens = record {
  access_token = access_token config plain 5000 (uuids 7) user;
  refresh_token = "r1";
}

logged_in : (login config plain (uuids 7) credentials db).0 ≡ ok tokens
unfolding login find_login generate_tokens pure gets or_throw fetch ◌>>=◌ ◌>>◌ throw_if modify find?
    save_user
logged_in = refl

login-Login_example :
    let (r, db') = login config plain (uuids 7) credentials db in
    Login config plain (uuids 7) credentials db r db'
login-Login_example = login-Login config plain (uuids 7) credentials db

unused : find? (has_hash "r1") db.refresh_tokens ≡ none
unfolding find?
unused = refl

week : parse_ttl (codes config.refresh_expires) ≡ ahead 604800
unfolding parse_ttl parse_int parse_signed skip_spaces parse_digits init last in_unit
week = refl

login-refresh_token_example :
    (new : Tokens) × ((refresh_token config plain later "r1"
        (pass 60000 (login config plain (uuids 7) credentials db).1)).0
      ≡ ok new)
    × (new.access_token.sub ≡ 1)
login-refresh_token_example =
    login-refresh_token config plain (uuids 7) later credentials db tokens 604800 60000 logged_in
      unused week (omega arith)

abbrev db_live : Accounts
db_live = record db {
  refresh_tokens =
      record { token_hash = "r1"; expires_at = 9000; user_id = 1; revoked = false } ∷ [];
}

abbrev new_tokens : Tokens
new_tokens = record {
  access_token = access_token config plain 5000 later user;
  refresh_token = "r2";
}

exchanged : (refresh_token config plain later "r1" db_live).0 ≡ ok new_tokens
unfolding refresh_token rotate generate_tokens pure gets or_throw fetch ◌>>=◌ ◌>>◌ throw_if modify
    branch find?
exchanged = refl

refresh_token-Rotates_example :
    let (r, db') = refresh_token config plain later "r1" db_live in
    Rotates config plain "r1" db_live r db'
refresh_token-Rotates_example = refresh_token-Rotates config plain later "r1" db_live

-- The token is used, its successor is used, and then the token again.
refresh_token_once_example :
    let (r, db') = refresh_token config plain later "r1" (
      serve config plain
        (Request.wait 10 ∷ Request.refreshing later "r2" ∷ [])
        (refresh_token config plain later "r1" db_live).1) in
    (r ≡ err unauthorized) × HasNoSession 1 db'
refresh_token_once_example =
    refresh_token_once config plain later later "r1" db_live new_tokens
      (Request.wait 10 ∷ Request.refreshing later "r2" ∷ []) exchanged

abbrev reset : ResetPasswordDto
reset = record { email = "an@ptit.vn"; new_password = "other" }

reset_password-Resets_example :
    let (r, db') = reset_password config plain 3 (ok true) reset db_live in
    Resets config plain 3 (ok true) reset db_live r db'
reset_password-Resets_example = reset_password-Resets config plain 3 (ok true) reset db_live

abbrev change : ChangePasswordDto
change = record { current_password = "secret"; new_password = "other"; confirm_password = "other" }

request_change_password-ChangesPassword_example :
    let (r, db') = request_change_password plain 3 tokens.access_token change db_live in
    ChangesPassword config plain 3 tokens.access_token change db_live r db'
request_change_password-ChangesPassword_example =
    request_change_password-ChangesPassword config plain 3 tokens.access_token change db_live
