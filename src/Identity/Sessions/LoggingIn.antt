-- ===== src/Identity/Sessions/LoggingIn.antt =====
-- Who can log in, and what the tokens are good for.
use aca_social.Base.{
  ℕ, ◌+◌, ◌*◌, ◌≡◌, ◌≤◌, refl, sym, ◌∙◌, ap, subst, Bool, true, false, none, some, [], ◌∷◌, ◌++◌,
  String, arith, find?, find?-satisfies, find?-replace, find?-found, find?-append, eq_iff,
  Bool-cases, inl, inr,
}
use aca_social.Service.{
  Result, ok, err, Ends, fetch_found-Ends, passed-Ends, fetch-Ends, gets-Ends, throw_if-Ends,
  modify-Ends, pure-Ends, branch-Ends,
}
use aca_social.Identity.Ttl.{ahead, later as moved, parse_ttl}
use aca_social.Mentions.{codes}
use aca_social.Identity.Users.{User, RefreshToken, Accounts, user_is}
use aca_social.Identity.Users.Admins.{user_is-id}
use aca_social.Identity.Auth.{
  Crypto, Config, Uuids, Tokens, LoginDto, login, find_login, is_email, present_email, present_name,
  generate_tokens, access_token, new_token, add_token, save_user, has_hash, refresh_token, rotate,
}
use aca_social.Identity.Sessions.{pass}

login_row :
    (identifier : String) (u : User) (db : Accounts)
    → find_login identifier db ≡ some u
    → (u.deleted ≡ false) × ((stored : User) × (find? (user_is u.id) db.users ≡ some stored))
login_row identifier u db found = elim (Bool-cases (is_email identifier)) [
  | inl e ↦ row (present_email identifier) (rw e at found) λ passes. ground arith
  | inr e ↦ row (present_name identifier) (rw e at found) λ passes. ground arith
]
  where
    row :
        (q : User → Bool)
        → find? q db.users ≡ some u
        → (q u ≡ true → u.deleted ≡ false)
        → (u.deleted ≡ false) × ((stored : User) × (find? (user_is u.id) db.users ≡ some stored))
    row q is present =
        let there = present (find?-satisfies q db.users u is) in
        (there, find?-found (user_is u.id) q db.users u is (ground arith))

module _ (config : Config) (crypto : Crypto) where
  -- The user that logged in, and the rows that are stored.
  pub record LogsIn (uuids : Uuids) (dto : LoginDto) (db : Accounts) (tokens : Tokens)
      (db' : Accounts) : Type 0 where
    pub user : User
    pub found : find_login dto.identifier db ≡ some user
    pub verified : user.is_verified ≡ true
    pub password : crypto.compare dto.password user.password_hash ≡ true
    pub access : tokens.access_token ≡ access_token config crypto db.clock uuids user
    pub refresh : tokens.refresh_token ≡ uuids.refresh_token
    pub stored :
        find? (user_is user.id) db'.users ≡ some (record user { last_login_at = some db.clock })
    pub tokens_stored :
        db'.refresh_tokens ≡ db.refresh_tokens ++ new_token config crypto db.clock uuids user ∷ []
    pub same_time : db'.clock ≡ db.clock

  abbrev pub Login : Uuids → LoginDto → Accounts → Result Tokens → Accounts → Type 0
  Login uuids dto db (err e) db' = db' ≡ db
  Login uuids dto db (ok tokens) db' = LogsIn uuids dto db tokens db'

  -- A login that returns is that of a user who has verified the account, and not deleted it, and
  -- knows the password. The tokens are for that user, and the refresh token is stored by its hash.
  -- One that throws writes nothing.
  pub login-Login :
      (uuids : Uuids) (dto : LoginDto) (db : Accounts)
      → let (r, db') = login config crypto uuids dto db in Login uuids dto db r db'
  unfolding login generate_tokens add_token save_user
  login-Login uuids dto db =
      let ends : Ends (Login uuids dto db) (login config crypto uuids dto db) =
        fetch-Ends _ _ _ _ refl λ u found. throw_if-Ends _ _ _ _ refl λ verified.
          throw_if-Ends _ _ _ _ refl λ matches.
            let (present, exists) = login_row dto.identifier u db found in
            gets-Ends _ _ _ (
              modify-Ends _ _ _ (
                gets-Ends _ _ _ (
                  modify-Ends _ _ _ (
                    pure-Ends _ _ (record {
                      user = u;
                      found = found;
                      verified = ground arith;
                      password = ground arith;
                      access = refl;
                      refresh = refl;
                      stored =
                          find?-replace (user_is u.id) (record u { last_login_at = some db.clock })
                            db.users exists.0 exists.1 (ground arith);
                      tokens_stored = refl;
                      same_time = refl;
                    }))))) in
      ends.holds

  -- A call that returns new tokens for this user.
  abbrev Renews : ℕ → Result Tokens → Accounts → Type 0
  Renews user r db' = (new : Tokens) × (r ≡ ok new) × (new.access_token.sub ≡ user)

  generate_tokens-Renews :
      (uuids : Uuids) (u : User) (user : ℕ) (db : Accounts)
      → u.id ≡ user
      → Ends (Renews user) (generate_tokens config crypto uuids u db)
  unfolding generate_tokens
  generate_tokens-Renews uuids u user db same = gets-Ends _ _ _ (
      modify-Ends _ _ _ (
        pure-Ends _ _ (
          record {
            access_token = access_token config crypto db.clock uuids u;
            refresh_token = uuids.refresh_token;
          },
          refl,
          same,
        )))

  rotate-Renews :
      (uuids : Uuids) (t : RefreshToken) (u : User) (db : Accounts)
      → db.clock ≤ t.expires_at
      → find? (user_is t.user_id) db.users ≡ some u
      → Ends (Renews t.user_id) (rotate config crypto uuids t db)
  unfolding rotate
  rotate-Renews uuids t u db in_time there =
      let (same, _) = user_is-id t.user_id u (find?-satisfies _ db.users u there) in
      gets-Ends _ _ _ (
        passed-Ends _ _ _ _ (ground arith) (
          modify-Ends _ _ _
            (fetch_found-Ends _ _ _ _ u there (generate_tokens-Renews uuids u t.user_id _ same))))

  refresh_token-Renews :
      (uuids : Uuids) (raw : String) (t : RefreshToken) (u : User) (db : Accounts)
      → find? (has_hash (crypto.sha256 raw)) db.refresh_tokens ≡ some t
      → t.revoked ≡ false
      → db.clock ≤ t.expires_at
      → find? (user_is t.user_id) db.users ≡ some u
      → Ends (Renews t.user_id) (refresh_token config crypto uuids raw db)
  unfolding refresh_token
  refresh_token-Renews uuids raw t u db found live in_time there =
      fetch_found-Ends _ _ _ _ t found (
        branch-Ends _ _ _ _ (λ reused. absurd (cc (reused, live)))
          λ _. rotate-Renews uuids t u db in_time there)

  -- The refresh token of a login, of which no hash was stored before, can be exchanged for tokens of
  -- the same user until the configured time has passed.
  pub login-refresh_token :
      (uuids later : Uuids) (dto : LoginDto) (db : Accounts) (tokens : Tokens) (lifetime ms : ℕ)
      → (login config crypto uuids dto db).0 ≡ ok tokens
      → find? (has_hash (crypto.sha256 uuids.refresh_token)) db.refresh_tokens ≡ none
      → parse_ttl (codes config.refresh_expires) ≡ ahead lifetime
      → ms ≤ lifetime * 1000
      → (new : Tokens) × ((refresh_token config crypto later tokens.refresh_token
            (pass ms (login config crypto uuids dto db).1)).0
          ≡ ok new)
        × (new.access_token.sub ≡ tokens.access_token.sub)
  login-refresh_token uuids later dto db tokens lifetime ms returned unused lasts soon =
      let db' = (login config crypto uuids dto db).1 in
      let logged : LogsIn uuids dto db tokens db' =
        subst (λ r. Login uuids dto db r db') returned (login-Login uuids dto db) in
      let row = new_token config crypto db.clock uuids logged.user in
      let stored : find? (has_hash (crypto.sha256 tokens.refresh_token)) db'.refresh_tokens
          ≡ some row =
        subst (λ raw. find? (has_hash (crypto.sha256 raw)) db'.refresh_tokens ≡ some row)
          (sym logged.refresh)
          (ap (find? (has_hash (crypto.sha256 uuids.refresh_token))) logged.tokens_stored
            ∙ find?-append (has_hash (crypto.sha256 uuids.refresh_token)) row db.refresh_tokens
                unused ((eq_iff _ _).1 refl)) in
      let expires : row.expires_at ≡ db.clock + lifetime * 1000 =
        ap (λ s. moved db.clock s) lasts in
      let renewed =
        (refresh_token-Renews later tokens.refresh_token row _ (pass ms db') stored refl
          (in_time db.clock db'.clock ms lifetime _ logged.same_time expires soon)
          logged.stored).holds in
      (renewed.0, renewed.1, renewed.2 ∙ sym (ap (λ a. a.sub) logged.access))
    where
      in_time :
          (now now' ms lifetime expires : ℕ)
          → now' ≡ now
          → expires ≡ now + lifetime * 1000
          → ms ≤ lifetime * 1000
          → now' + ms ≤ expires
      in_time now now' ms lifetime expires same is soon = omega arith
