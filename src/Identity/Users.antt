-- ===== src/Identity/Users.antt =====
-- services/identity-service/src/users/users.service.ts: changing the role of a user, and deleting an
-- account. The rows are those of users/*.entity.ts.
pub mod RoleCalls
pub mod Admins
pub mod Overlapping
use aca_social.Base.{
  ℕ, Bool, true, false, not, ◌&&◌, Option, none, some, List, [], ◌∷◌, ◌++◌, ◌==◌, leb,
  if◌then◌else◌, find?, replace, count, update, String,
}
use aca_social.Store.{Role, Result, ok, err, not_found, forbidden, unauthorized}

pub data Privacy : Type 0 where
  public private : Privacy

-- `deleted` stands for `deletedAt`, which queries only test.
pub record User : Type 0 where
  pub id : ℕ
  pub username : Option String
  pub full_name : String
  pub date_of_birth : Option ℕ
  pub email : String
  pub password_hash : String
  pub avatar_url : Option String
  pub privacy : Privacy
  pub is_verified : Bool
  pub role : Role
  pub last_login_at : Option ℕ
  pub password_changed_at : Option ℕ
  pub deleted : Bool

pub record RefreshToken : Type 0 where
  pub token_hash : String
  pub expires_at : ℕ
  pub user_id : ℕ
  pub revoked : Bool

pub record UserRoleAudit : Type 0 where
  pub user_id : ℕ
  pub old_role : Role
  pub new_role : Role
  pub changed_by : ℕ

-- The tables, the tokens that are blacklisted in Redis, the time in milliseconds, and the supply of
-- identifiers.
pub record Accounts : Type 0 where
  pub clock : ℕ
  pub next_id : ℕ
  pub users : List User
  pub refresh_tokens : List RefreshToken
  pub role_audits : List UserRoleAudit
  pub blacklist : List ℕ

abbrev pub is_admin_role : Role → Bool
is_admin_role Role.admin = true
is_admin_role _ = false

abbrev pub same_role : Role → Role → Bool
same_role Role.student Role.student = true
same_role Role.teacher Role.teacher = true
same_role Role.moderator Role.moderator = true
same_role Role.admin Role.admin = true
same_role _ _ = false

abbrev pub user_is : ℕ → User → Bool
user_is id u = (u.id == id) && not u.deleted

abbrev pub admin_row : User → Bool
admin_row u = is_admin_role u.role && not u.deleted

abbrev pub token_of : ℕ → RefreshToken → Bool
token_of user t = t.user_id == user

-- `update(RefreshToken, { userId }, { revoked: true })`
abbrev pub revoke_tokens : ℕ → List RefreshToken → List RefreshToken
revoke_tokens user tokens = update (token_of user) (λ t. record t { revoked = true }) tokens

abbrev pub with_role : Role → ℕ → User → User
with_role role now u = record u { role = role; password_changed_at = some now }

-- The writes of `changeRole`.
unfoldable pub save_role : Role → ℕ → User → Accounts → Accounts
save_role role actor u db = record db {
  users = replace (user_is u.id) (with_role role db.clock u) db.users;
  refresh_tokens = revoke_tokens u.id db.refresh_tokens;
  role_audits =
      db.role_audits
      ++ record { user_id = u.id; old_role = u.role; new_role = role; changed_by = actor } ∷ [];
}

-- What the checks of `changeRole` come to.
pub data Decision : Type 0 where
  refused unchanged changed : Decision

-- The checks, on the user that was found and the users of the moment.
unfoldable pub decide_role : Role → ℕ → User → List User → Decision
decide_role role actor u users =
    if (u.id == actor) && not (is_admin_role role)
    then Decision.refused
    else if same_role u.role role
    then Decision.unchanged
    else if is_admin_role u.role && (not (is_admin_role role) && leb (count admin_row users) 1)
    then Decision.refused
    else Decision.changed

unfoldable pub decided_role : Role → ℕ → User → Decision → Accounts → Result (Unit {0}) × Accounts
decided_role role actor u Decision.refused db = (err forbidden, db)
decided_role role actor u Decision.unchanged db = (ok tt, db)
decided_role role actor u Decision.changed db = (ok tt, save_role role actor u db)

-- `changeRole` with the user that was found, without another transaction in between
unfoldable pub change_found : Role → ℕ → User → Accounts → Result (Unit {0}) × Accounts
change_found role actor u db = decided_role role actor u (decide_role role actor u db.users) db

unfoldable pub change_option : Role → ℕ → Option User → Accounts → Result (Unit {0}) × Accounts
change_option role actor none db = (err not_found, db)
change_option role actor (some u) db = change_found role actor u db

unfoldable pub change_role : ℕ → Role → ℕ → Accounts → Result (Unit {0}) × Accounts
change_role id role actor db = change_option role actor (find? (user_is id) db.users) db

-- `deleteAccount`, with the result of comparing the password as an argument.
unfoldable pub delete_account : Bool → ℕ → ℕ → Accounts → Result (Unit {0}) × Accounts
delete_account false user jti db = (err unauthorized, db)
delete_account true user jti db = (
  ok tt,
  record db {
    users = update (user_is user) (λ u. record u { deleted = true }) db.users;
    refresh_tokens = revoke_tokens user db.refresh_tokens;
    blacklist = jti ∷ db.blacklist;
  },
)
