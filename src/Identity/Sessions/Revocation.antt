-- ===== src/Identity/Sessions/Revocation.antt =====
-- What ends the sessions of a user: a changed password, and the end of the account.
use aca_social.Base.{
  ℕ, ◌/◌, ◌<◌, ◌≡◌, refl, sym, ◌∙◌, ap, subst, Bool, true, false, some, String, arith, find?,
  find?-satisfies, find?-replace, find?-found, includes, eq_iff,
}
use aca_social.Service.{
  Result, ok, err, Ends, unauthorized, fetch-Ends, gets-Ends, Checks, check-Ends, throw_if-Ends,
  modify-Ends, last_modify-Ends, pure-Ends, lift-Ends,
}
use aca_social.Identity.Users.{User, Accounts, user_is}
use aca_social.Identity.Users.Admins.{user_is-id, revoke_tokens-all}
use aca_social.Identity.Auth.{
  Crypto, Config, AccessToken, ResetPasswordDto, present_email, with_password, validate,
  issued_before, reset_password, revoke_all, save_user, blacklist_jti,
}
use aca_social.Identity.Profile.{ChangePasswordDto, change_password, request_change_password}
use aca_social.Identity.Sessions.Rotation.{HasNoSession}

-- An access token whose user is refused for a password change, or is not there, is refused.
validate-refuses :
    (payload : AccessToken) (db : Accounts)
    → ((u : User)
        → find? (user_is payload.sub) db.users ≡ some u
        → issued_before payload.iat u.password_changed_at ≡ true)
    → (validate payload db).0 ≡ err unauthorized
unfolding validate
validate-refuses payload db outdated =
    let ends : Ends (λ r db'. r ≡ err unauthorized) (validate payload db) = gets-Ends _ _ _ (
      throw_if-Ends _ _ _ _ refl λ _.
        fetch-Ends _ _ _ _ refl λ u found.
          throw_if-Ends _ _ _ _ refl λ later. absurd (ground (arith, outdated u found))) in
    ends.holds

-- An access token is accepted for a user that is there.
validate-Checks :
    (payload : AccessToken) (db : Accounts)
    → Checks (λ u. find? (user_is payload.sub) db.users ≡ some u) db (validate payload db)
unfolding validate
validate-Checks payload db = gets-Ends _ _ _ (
    throw_if-Ends _ _ _ _ refl λ _.
      fetch-Ends _ _ _ _ refl
        λ u found. throw_if-Ends _ _ _ _ refl λ _. pure-Ends _ _ (refl, found))

-- No refresh token of the user can be used, and no access token that was issued in an earlier second.
abbrev pub EndsSessions : ℕ → ℕ → Accounts → Type 0
EndsSessions user now db =
    HasNoSession user db
    × ((payload : AccessToken)
        → payload.sub ≡ user
        → payload.iat < now / 1000
        → (validate payload db).0 ≡ err unauthorized)

revoke_all-HasNoSession : (user : ℕ) (db : Accounts) → HasNoSession user (revoke_all user db)
unfolding revoke_all
revoke_all-HasNoSession user db = revoke_tokens-all user db.refresh_tokens

-- Both follow from the row of the user, and that the refresh tokens are revoked.
changed-EndsSessions :
    (user now : ℕ) (u : User) (db : Accounts)
    → find? (user_is user) db.users ≡ some u
    → u.password_changed_at ≡ some now
    → HasNoSession user db
    → EndsSessions user now db
changed-EndsSessions user now u db found changed ended = (
  ended,
  λ payload same early. validate-refuses payload db λ v is.
      let row = subst (λ i. find? (user_is i) db.users ≡ some v) same is in
      let equal : v ≡ u = cc (row, found) in
      ap (λ w. issued_before payload.iat w.password_changed_at) equal
      ∙ ap (issued_before payload.iat) changed
      ∙ ground arith,
)

-- The writes of a changed password: the row of the user, and the refresh tokens.
abbrev IsSaved : User → Accounts → Type 0
IsSaved u db = (find? (user_is u.id) db.users ≡ some u) × HasNoSession u.id db

revoke_all-IsSaved :
    (hash : String) (now : ℕ) (u stored : User) (db : Accounts)
    → find? (user_is u.id) db.users ≡ some stored
    → u.deleted ≡ false
    → IsSaved (with_password hash now u) (revoke_all u.id (save_user (with_password hash now u) db))
unfolding revoke_all save_user
revoke_all-IsSaved hash now u stored db found present = (
  find?-replace (user_is u.id) (with_password hash now u) db.users stored found (ground arith),
  revoke_tokens-all u.id db.refresh_tokens,
)

blacklist_jti-IsSaved :
    (u : User) (jti : ℕ) (db : Accounts) → IsSaved u db → IsSaved u (blacklist_jti jti db)
unfolding blacklist_jti
blacklist_jti-IsSaved u jti db h = h

blacklisted : (jti : ℕ) (db : Accounts) → includes (blacklist_jti jti db).blacklist jti ≡ true
unfolding blacklist_jti
blacklisted jti db = ground arith

module _ (config : Config) (crypto : Crypto) where
  -- What a changed password leaves: its hash is stored, and the sessions of the user ended.
  abbrev pub HasPassword : String → ℕ → User → Accounts → Accounts → Type 0
  HasPassword password salt u db db' =
      (find? (user_is u.id) db'.users ≡ some (with_password (crypto.hash salt password) db.clock u))
      × EndsSessions u.id db.clock db'

  IsSaved-HasPassword :
      (password : String) (salt : ℕ) (u : User) (db db' : Accounts)
      → IsSaved (with_password (crypto.hash salt password) db.clock u) db'
      → HasPassword password salt u db db'
  IsSaved-HasPassword password salt u db db' h =
      (h.0, changed-EndsSessions u.id db.clock _ db' h.0 refl h.1)

  abbrev pub Resets :
      ℕ → Result Bool → ResetPasswordDto → Accounts → Result (Unit {0}) → Accounts → Type 0
  Resets salt answer dto db (err e) db' = db' ≡ db
  Resets salt answer dto db (ok _) db' =
      (u : User) × (find? (present_email dto.email) db.users ≡ some u)
      × (answer ≡ ok true)
      × HasPassword dto.new_password salt u db db'

  -- A password reset that returns had the right code, and stores the hash of the new password. No
  -- refresh token of the user can be used after it, and no access token that was issued in an earlier
  -- second. One that throws writes nothing.
  pub reset_password-Resets :
      (salt : ℕ) (answer : Result Bool) (dto : ResetPasswordDto) (db : Accounts)
      → let (r, db') = reset_password config crypto salt answer dto db in
        Resets salt answer dto db r db'
  unfolding reset_password
  reset_password-Resets salt answer dto db =
      let ends : Ends (Resets salt answer dto db)
          (reset_password config crypto salt answer dto db) =
        fetch-Ends _ _ _ _ refl λ u found.
          lift-Ends _ _ _ (λ _. refl)
            λ valid is. throw_if-Ends _ _ _ _ refl λ right.
              let (present, exists) = reset_row dto.email u db found in
              gets-Ends _ _ _ (
                modify-Ends _ _ _ (
                  last_modify-Ends _ _ (
                    u,
                    found,
                    is ∙ ap ok (ground arith),
                    IsSaved-HasPassword dto.new_password salt u db _
                        (revoke_all-IsSaved _ db.clock u exists.0 db exists.1 present),
                  ))) in
      ends.holds
    where
      reset_row :
          (email : String) (u : User) (db : Accounts)
          → find? (present_email email) db.users ≡ some u
          → (u.deleted ≡ false) × ((stored : User) × (find? (user_is u.id) db.users ≡ some stored))
      reset_row email u db found =
          let matches = find?-satisfies (present_email email) db.users u found in
          let present : u.deleted ≡ false = ground arith in
          (
            present,
            find?-found (user_is u.id) (present_email email) db.users u found (ground arith),
          )

  abbrev pub ChangesPassword :
      ℕ → AccessToken → ChangePasswordDto → Accounts → Result (Unit {0}) → Accounts → Type 0
  ChangesPassword salt payload dto db (err e) db' = db' ≡ db
  ChangesPassword salt payload dto db (ok _) db' =
      (u : User) × (find? (user_is payload.sub) db.users ≡ some u)
      × (crypto.compare dto.current_password u.password_hash ≡ true)
      × (dto.new_password ≡ dto.confirm_password)
      × (includes db'.blacklist payload.jti ≡ true)
      × HasPassword dto.new_password salt u db db'

  change_password-ChangesPassword :
      (salt : ℕ) (payload : AccessToken) (u : User) (dto : ChangePasswordDto) (db : Accounts)
      → find? (user_is payload.sub) db.users ≡ some u
      → Ends
          (ChangesPassword salt payload dto db)
          (change_password crypto salt u dto payload.jti db)
  unfolding change_password
  change_password-ChangesPassword salt payload u dto db found =
      throw_if-Ends _ _ _ _ refl λ matches. throw_if-Ends _ _ _ _ refl λ confirmed.
        let (same, present) = user_is-id payload.sub u (find?-satisfies _ db.users u found) in
        let own = subst (λ i. find? (user_is i) db.users ≡ some u) (sym same) found in
        gets-Ends _ _ _ (
          modify-Ends _ _ _ (
            modify-Ends _ _ _ (
              last_modify-Ends _ _ (
                u,
                found,
                ground arith,
                (eq_iff _ _).0 (ground arith),
                blacklisted payload.jti _,
                IsSaved-HasPassword dto.new_password salt u db _ (
                    blacklist_jti-IsSaved _ payload.jti _
                      (revoke_all-IsSaved _ db.clock u u db own present)),
              ))))

  -- A password change that returns was asked for with an access token of the user, the current
  -- password and twice the new one. It stores the hash of the new password and blacklists the access
  -- token; no refresh token of the user can be used after it, and no access token that was issued in
  -- an earlier second. One that throws writes nothing.
  pub request_change_password-ChangesPassword :
      (salt : ℕ) (payload : AccessToken) (dto : ChangePasswordDto) (db : Accounts)
      → let (r, db') = request_change_password crypto salt payload dto db in
        ChangesPassword salt payload dto db r db'
  unfolding request_change_password
  request_change_password-ChangesPassword salt payload dto db =
      let ends : Ends (ChangesPassword salt payload dto db)
          (request_change_password crypto salt payload dto db) =
        check-Ends _ _ _ _ (validate-Checks payload db) (λ _. refl)
          λ u found. change_password-ChangesPassword salt payload u dto db found in
      ends.holds
