-- ===== src/Identity/Sessions/Serving.antt =====
-- The requests keep a refresh token revoked.
use aca_social.Base.{
  ℕ, ◌≡◌, sym, Bool, true, false, some, List, [], ◌∷◌, String, find?, find?-satisfies, eq_iff,
  subst,
}
use aca_social.Service.{
  modify, Result, Ends, fetch-Ends, gets-Ends, throw_if-Ends, modify-Ends, last_modify-Ends,
  pure-Ends, lift-Ends, branch-Ends, throw-Ends,
}
use aca_social.Store.{Role}
use aca_social.Identity.Users.{
  User, RefreshToken, Accounts, change_role, delete_account, save_role, token_of,
}
use aca_social.Identity.Auth.{
  Crypto, Config, Uuids, RegisterDto, VerifyOtpDto, LoginDto, ResetPasswordDto, register,
  verify_register_otp, login, refresh_token, rotate, generate_tokens, logout, reset_password,
  on_module_init, has_hash, save_user, add_user, add_token, blacklist_jti,
}
use aca_social.Identity.Profile.{
  ChangePasswordDto, update_profile, update_avatar, update_privacy, change_password,
  confirm_change_email,
}
use aca_social.Identity.Sessions.{Request, respond, serve}
use aca_social.Identity.Sessions.Spent.{
  Spent, append-IsSpent, update-IsSpent, replace-IsSpent, save_user-Keeps, revoke_all-Spent,
  revoke_live-Spent,
}
use aca_social.Identity.Users.Admins.{change_role-cases}

module _ (hash : String) (user : ℕ) where
  -- After a step that writes users only.
  abbrev Keeps : {A : Type 0} → Result A × Accounts → Type 0
  Keeps x = Ends (λ _ db'. Spent hash user db') x

  saved-Keeps : (u : User) (db : Accounts) → Spent hash user db → Keeps (modify (save_user u) db)
  saved-Keeps u db h = last_modify-Ends _ _ (save_user-Keeps hash user u db h)

  module _ (config : Config) (crypto : Crypto) where
    generate_tokens-Keeps :
        (uuids : Uuids) (u : User) (db : Accounts)
        → Spent hash user db
        → Keeps (generate_tokens config crypto uuids u db)
    unfolding generate_tokens add_token
    generate_tokens-Keeps uuids u db h =
        gets-Ends _ _ _
          (modify-Ends _ _ _ (pure-Ends _ _ (append-IsSpent hash user _ db.refresh_tokens h)))

    register-Keeps :
        (salt : ℕ) (dto : RegisterDto) (db : Accounts)
        → Spent hash user db
        → Keeps (register config crypto salt dto db)
    unfolding register add_user
    register-Keeps salt dto db h =
        gets-Ends _ _ _ (throw_if-Ends _ _ _ _ h λ _. gets-Ends _ _ _ (last_modify-Ends _ _ h))

    login-Keeps :
        (uuids : Uuids) (dto : LoginDto) (db : Accounts)
        → Spent hash user db
        → Keeps (login config crypto uuids dto db)
    unfolding login
    login-Keeps uuids dto db h = fetch-Ends _ _ _ _ h λ u _. throw_if-Ends _ _ _ _ h λ _.
        throw_if-Ends _ _ _ _ h λ _.
          gets-Ends _ _ _
            (modify-Ends _ _ _ (generate_tokens-Keeps uuids u _ (save_user-Keeps hash user _ db h)))

    rotate-Keeps :
        (uuids : Uuids) (t : RefreshToken) (db : Accounts)
        → find? (has_hash t.token_hash) db.refresh_tokens ≡ some t
        → t.revoked ≡ false
        → Spent hash user db
        → Keeps (rotate config crypto uuids t db)
    unfolding rotate
    rotate-Keeps uuids t db found live h =
        let replaced = replace-IsSpent hash user db.refresh_tokens t found live h in
        gets-Ends _ _ _ (
          throw_if-Ends _ _ _ _ h λ _.
            modify-Ends _ _ _
              (fetch-Ends _ _ _ _ replaced λ u _. generate_tokens-Keeps uuids u _ replaced))

    refresh_token-Keeps :
        (uuids : Uuids) (raw : String) (db : Accounts)
        → Spent hash user db
        → Keeps (refresh_token config crypto uuids raw db)
    unfolding refresh_token
    refresh_token-Keeps uuids raw db h = fetch-Ends _ _ _ _ h λ t found.
        branch-Ends _ _ _ _
          (λ _. modify-Ends _ _ _ (throw-Ends _ _ (revoke_live-Spent hash user t.user_id db h)))
          (λ live. rotate-Keeps uuids t db (found_by_hash raw t db found) live h)
      where
        found_by_hash :
            (raw : String) (t : RefreshToken) (db : Accounts)
            → find? (has_hash (crypto.sha256 raw)) db.refresh_tokens ≡ some t
            → find? (has_hash t.token_hash) db.refresh_tokens ≡ some t
        found_by_hash raw t db found =
            let same : t.token_hash ≡ crypto.sha256 raw =
              (eq_iff _ _).0 (find?-satisfies _ db.refresh_tokens t found) in
            subst (λ k. find? (has_hash k) db.refresh_tokens ≡ some t) (sym same) found

    reset_password-Keeps :
        (salt : ℕ) (answer : Result Bool) (dto : ResetPasswordDto) (db : Accounts)
        → Spent hash user db
        → Keeps (reset_password config crypto salt answer dto db)
    unfolding reset_password
    reset_password-Keeps salt answer dto db h = fetch-Ends _ _ _ _ h λ u _.
        lift-Ends _ _ _ (λ _. h)
          λ _ _. throw_if-Ends _ _ _ _ h λ _. gets-Ends _ _ _ (
            modify-Ends _ _ _ (
              last_modify-Ends _ _
                (revoke_all-Spent hash user u.id _ (save_user-Keeps hash user _ db h))))

    change_password-Keeps :
        (salt : ℕ) (u : User) (dto : ChangePasswordDto) (jti : ℕ) (db : Accounts)
        → Spent hash user db
        → Keeps (change_password crypto salt u dto jti db)
    unfolding change_password blacklist_jti
    change_password-Keeps salt u dto jti db h = throw_if-Ends _ _ _ _ h λ _.
        throw_if-Ends _ _ _ _ h λ _. gets-Ends _ _ _ (
          modify-Ends _ _ _ (
            modify-Ends _ _ _ (
              last_modify-Ends _ _
                (revoke_all-Spent hash user u.id _ (save_user-Keeps hash user _ db h)))))

  verify_register_otp-Keeps :
      (answer : Result Bool) (dto : VerifyOtpDto) (db : Accounts)
      → Spent hash user db
      → Keeps (verify_register_otp answer dto db)
  unfolding verify_register_otp
  verify_register_otp-Keeps answer dto db h = fetch-Ends _ _ _ _ h λ u _.
      throw_if-Ends _ _ _ _ h λ _. gets-Ends _ _ _ (
        throw_if-Ends _ _ _ _ h
          λ _. lift-Ends _ _ _ (λ _. h) λ _ _. throw_if-Ends _ _ _ _ h λ _. saved-Keeps _ db h)

  logout-Keeps : (id jti : ℕ) (db : Accounts) → Spent hash user db → Keeps (logout id jti db)
  unfolding logout blacklist_jti
  logout-Keeps id jti db h =
      modify-Ends _ _ _ (last_modify-Ends _ _ (revoke_live-Spent hash user id db h))

  confirm_change_email-Keeps :
      (answer : Result Bool) (u : User) (email : String) (db : Accounts)
      → Spent hash user db
      → Keeps (confirm_change_email answer u email db)
  unfolding confirm_change_email
  confirm_change_email-Keeps answer u email db h = gets-Ends _ _ _ (
      throw_if-Ends _ _ _ _ h λ _.
        lift-Ends _ _ _ (λ _. h)
          λ _ _.
            throw_if-Ends _ _ _ _ h
              λ _. gets-Ends _ _ _ (throw_if-Ends _ _ _ _ h λ _. saved-Keeps _ db h))

  change_role-Keeps :
      (id : ℕ) (role : Role) (actor : ℕ) (db : Accounts)
      → Spent hash user db
      → Spent hash user (change_role id role actor db).1
  unfolding save_role
  change_role-Keeps id role actor db h =
      change_role-cases (λ _ db'. Spent hash user db') id role actor db (λ e. h) (λ u _ _. h)
        (λ u _ _ _. update-IsSpent hash user (token_of u.id) db.refresh_tokens h)

  delete_account-Keeps :
      (matches : Bool) (id jti : ℕ) (db : Accounts)
      → Spent hash user db
      → Spent hash user (delete_account matches id jti db).1
  unfolding delete_account
  delete_account-Keeps false id jti db h = h
  delete_account-Keeps true id jti db h = update-IsSpent hash user (token_of id) db.refresh_tokens h

  module _ (config : Config) (crypto : Crypto) where
    respond-Spent :
        (r : Request) (db : Accounts)
        → Spent hash user db
        → Spent hash user (respond config crypto r db)
    unfolding respond on_module_init update_profile update_avatar update_privacy
    respond-Spent (Request.wait ms) db h = h
    respond-Spent Request.restart db h = h
    respond-Spent (Request.registering salt dto) db h =
        (register-Keeps config crypto salt dto db h).holds
    respond-Spent (Request.verifying answer dto) db h =
        (verify_register_otp-Keeps answer dto db h).holds
    respond-Spent (Request.logging_in uuids dto) db h =
        (login-Keeps config crypto uuids dto db h).holds
    respond-Spent (Request.refreshing uuids raw) db h =
        (refresh_token-Keeps config crypto uuids raw db h).holds
    respond-Spent (Request.logging_out id jti) db h = (logout-Keeps id jti db h).holds
    respond-Spent (Request.resetting salt answer dto) db h =
        (reset_password-Keeps config crypto salt answer dto db h).holds
    respond-Spent (Request.renaming u dto) db h = (saved-Keeps _ db h).holds
    respond-Spent (Request.picturing u url) db h = (saved-Keeps _ db h).holds
    respond-Spent (Request.sharing u setting) db h = (saved-Keeps _ db h).holds
    respond-Spent (Request.new_password salt u dto jti) db h =
        (change_password-Keeps config crypto salt u dto jti db h).holds
    respond-Spent (Request.new_email answer u email) db h =
        (confirm_change_email-Keeps answer u email db h).holds
    respond-Spent (Request.promoting id role actor) db h = change_role-Keeps id role actor db h
    respond-Spent (Request.closing matches id jti) db h = delete_account-Keeps matches id jti db h

    pub serve-Spent :
        (rs : List Request) (db : Accounts)
        → Spent hash user db
        → Spent hash user (serve config crypto rs db)
    unfolding serve
    serve-Spent [] db h = h
    serve-Spent (r ∷ rs) db h = serve-Spent rs _ (respond-Spent r db h)
