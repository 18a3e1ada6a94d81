-- ===== src/Identity/Auth.antt =====
-- services/identity-service/src/auth: accounts, and sessions of access and refresh tokens
-- (auth.service.ts, strategies/jwt.strategy.ts). The one-time codes are those of Identity.Otp: a
-- method takes the answer of `verifyOtp`; creating and mailing a code writes no account.
use aca_social.Base.{
  ℕ, ◌+◌, ◌/◌, ◌≡◌, Bool, true, false, not, ◌&&◌, Option, none, some, [], ◌∷◌, ◌++◌, String, str_eq,
  ltb, if◌then◌else◌, find?, replace, update, includes, is_some,
}
use aca_social.Service.{
  Result, Run, pure, gets, fetch, lift, throw_if, modify, throw, branch, ◌>>=◌, ◌>>◌, unauthorized,
  conflict, not_found, bad_request, internal,
}
use aca_social.Store.{Role}
use aca_social.Identity.Users.{
  User, Privacy, RefreshToken, Accounts, user_is, token_of, revoke_tokens,
}
use aca_social.Mentions.{codes}
use aca_social.Identity.Ttl.{later, parse_ttl}

-- The libraries `crypto` and `bcrypt`. `hash` takes the salt, which `bcrypt.hash` draws; what it
-- documents is that `compare` accepts a password against any hash of it.
pub record Crypto : Type 0 where
  pub sha256 : String → String
  pub hash : ℕ → String → String
  pub compare : String → String → Bool
  pub compare_hash : (salt : ℕ) (password : String) → compare password (hash salt password) ≡ true

-- `JWT_REFRESH_EXPIRES_IN`, and the seconds that `sign` reads in `JWT_ACCESS_EXPIRES_IN`.
pub record Config : Type 0 where
  pub access_seconds : ℕ
  pub refresh_expires : String

-- What `randomUUID` returns to `generateTokens`.
pub record Uuids : Type 0 where
  pub jti : ℕ
  pub refresh_token : String

-- The payload that is signed; `sign` adds the times, in seconds.
pub record AccessToken : Type 0 where
  pub sub : ℕ
  pub username : Option String
  pub email : String
  pub role : Role
  pub jti : ℕ
  pub iat : ℕ
  pub exp : ℕ

pub record Tokens : Type 0 where
  pub access_token : AccessToken
  pub refresh_token : String

pub record RegisterDto : Type 0 where
  pub full_name : String
  pub date_of_birth : Option ℕ
  pub email : String
  pub password : String

pub record VerifyOtpDto : Type 0 where
  pub email : String
  pub username : String

pub record LoginDto : Type 0 where
  pub identifier : String
  pub password : String

pub record ResetPasswordDto : Type 0 where
  pub email : String
  pub new_password : String

abbrev pub has_email : String → User → Bool
has_email email u = str_eq u.email email

abbrev pub present_email : String → User → Bool
present_email email u = has_email email u && not u.deleted

abbrev pub is_name : Option String → String → Bool
is_name none name = false
is_name (some n) name = str_eq n name

abbrev pub present_name : String → User → Bool
present_name name u = is_name u.username name && not u.deleted

abbrev pub has_hash : String → RefreshToken → Bool
has_hash hash t = str_eq t.token_hash hash

-- `refreshTokenRepo.update({ userId, revoked: false }, { revoked: true })`
abbrev pub live_of : ℕ → RefreshToken → Bool
live_of user t = token_of user t && not t.revoked

abbrev pub revoked_row : RefreshToken → RefreshToken
revoked_row t = record t { revoked = true }

unfoldable pub revoke_live : ℕ → Accounts → Accounts
revoke_live user db = record db {
  refresh_tokens = update (live_of user) revoked_row db.refresh_tokens;
}

unfoldable pub revoke_all : ℕ → Accounts → Accounts
revoke_all user db = record db { refresh_tokens = revoke_tokens user db.refresh_tokens }

-- `userRepo.save(user)` of a row that is there
unfoldable pub save_user : User → Accounts → Accounts
save_user u db = record db { users = replace (user_is u.id) u db.users }

unfoldable pub add_user : User → Accounts → Accounts
add_user u db = record db { users = db.users ++ u ∷ []; next_id = db.next_id + 1 }

unfoldable pub add_token : RefreshToken → Accounts → Accounts
add_token t db = record db { refresh_tokens = db.refresh_tokens ++ t ∷ [] }

unfoldable pub blacklist_jti : ℕ → Accounts → Accounts
blacklist_jti jti db = record db { blacklist = jti ∷ db.blacklist }

-- `onModuleInit`
unfoldable pub on_module_init : Accounts → Accounts
on_module_init db = record db {
  users =
      update (λ u. not u.is_verified && is_some u.username) (λ u. record u { username = none })
        db.users;
}

abbrev pub registered : ℕ → String → RegisterDto → User
registered id password_hash dto = record {
  id = id;
  username = none;
  full_name = dto.full_name;
  date_of_birth = dto.date_of_birth;
  email = dto.email;
  password_hash = password_hash;
  avatar_url = none;
  privacy = Privacy.public;
  is_verified = false;
  role = Role.student;
  last_login_at = none;
  password_changed_at = none;
  deleted = false;
}

-- `new_password` and the time of the change
abbrev pub with_password : String → ℕ → User → User
with_password password_hash now u = record u {
  password_hash = password_hash;
  password_changed_at = some now;
}

unfoldable pub verify_register_otp : Result Bool → VerifyOtpDto → Run Accounts (Unit {0})
verify_register_otp answer dto = do
  user ← fetch (λ db. find? (present_email dto.email) db.users) not_found
  throw_if user.is_verified bad_request
  taken ← gets (λ db. find? (λ u. is_name u.username dto.username) db.users)
  throw_if (is_some taken) conflict
  valid ← lift answer
  throw_if (not valid) bad_request
  modify (save_user (record user { is_verified = true; username = some dto.username }))

-- `identifier.includes('@')`
abbrev pub is_email : String → Bool
is_email s = includes (codes s) 64

abbrev pub find_login : String → Accounts → Option User
find_login identifier db =
    if is_email identifier
    then find? (present_email identifier) db.users
    else find? (present_name identifier) db.users

module _ (config : Config) (crypto : Crypto) where
  unfoldable pub register : ℕ → RegisterDto → Run Accounts (Unit {0})
  register salt dto = do
    existing ← gets (λ db. find? (has_email dto.email) db.users)
    throw_if (is_some existing) conflict
    id ← gets (λ db. db.next_id)
    modify (add_user (registered id (crypto.hash salt dto.password) dto))

  abbrev pub access_token : ℕ → Uuids → User → AccessToken
  access_token now uuids u = record {
    sub = u.id;
    username = u.username;
    email = u.email;
    role = u.role;
    jti = uuids.jti;
    iat = now / 1000;
    exp = now / 1000 + config.access_seconds;
  }

  abbrev pub new_token : ℕ → Uuids → User → RefreshToken
  new_token now uuids u = record {
    token_hash = crypto.sha256 uuids.refresh_token;
    expires_at = later now (parse_ttl (codes config.refresh_expires));
    user_id = u.id;
    revoked = false;
  }

  unfoldable pub generate_tokens : Uuids → User → Run Accounts Tokens
  generate_tokens uuids user = do
    now ← gets (λ db. db.clock)
    modify (add_token (new_token now uuids user))
    pure
        (record { access_token = access_token now uuids user; refresh_token = uuids.refresh_token })

  -- The login time is stored without waiting for it: here it is stored before the tokens.
  unfoldable pub login : Uuids → LoginDto → Run Accounts Tokens
  login uuids dto = do
    user ← fetch (find_login dto.identifier) unauthorized
    throw_if (not user.is_verified) unauthorized
    throw_if (not (crypto.compare dto.password user.password_hash)) unauthorized
    now ← gets (λ db. db.clock)
    modify (save_user (record user { last_login_at = some now }))
    generate_tokens uuids user

  -- The user of a token is joined without the deleted ones; for a token without a user the server
  -- fails when it signs.
  unfoldable pub rotate : Uuids → RefreshToken → Run Accounts Tokens
  rotate uuids stored = do
    now ← gets (λ db. db.clock)
    throw_if (ltb stored.expires_at now) unauthorized
    modify (λ db. record db {
      refresh_tokens = replace (has_hash stored.token_hash) (revoked_row stored) db.refresh_tokens;
    })
    user ← fetch (λ db. find? (user_is stored.user_id) db.users) internal
    generate_tokens uuids user

  unfoldable pub refresh_token : Uuids → String → Run Accounts Tokens
  refresh_token uuids raw = do
    stored ← fetch (λ db. find? (has_hash (crypto.sha256 raw)) db.refresh_tokens) unauthorized
    branch stored.revoked (do modify (revoke_live stored.user_id); throw unauthorized)
        (rotate uuids stored)

  unfoldable pub reset_password : ℕ → Result Bool → ResetPasswordDto → Run Accounts (Unit {0})
  reset_password salt answer dto = do
    user ← fetch (λ db. find? (present_email dto.email) db.users) not_found
    valid ← lift answer
    throw_if (not valid) bad_request
    now ← gets (λ db. db.clock)
    modify (save_user (with_password (crypto.hash salt dto.new_password) now user))
    modify (revoke_all user.id)

-- `logout`. An entry of the blacklist lasts as long as the token it names.
unfoldable pub logout : ℕ → ℕ → Run Accounts (Unit {0})
logout user jti = do modify (revoke_live user); modify (blacklist_jti jti)

-- `passwordChangedAt && iat < Math.floor(passwordChangedAt / 1000)`
abbrev pub issued_before : ℕ → Option ℕ → Bool
issued_before iat none = false
issued_before iat (some at) = ltb iat (at / 1000)

-- `validate` of JwtStrategy, for a token whose signature and expiry are verified
unfoldable pub validate : AccessToken → Run Accounts User
validate payload = do
  revoked ← gets (λ db. includes db.blacklist payload.jti)
  throw_if revoked unauthorized
  user ← fetch (λ db. find? (user_is payload.sub) db.users) unauthorized
  throw_if (issued_before payload.iat user.password_changed_at) unauthorized
  pure user
