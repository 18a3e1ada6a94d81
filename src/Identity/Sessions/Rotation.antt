-- ===== src/Identity/Sessions/Rotation.antt =====
-- What a refresh token is exchanged for.
use aca_social.Base.{
  ℕ, ◌≡◌, ◌≤◌, ◌⊎◌, inl, inr, refl, sym, ◌∙◌, ap, subst, true, false, none, some, List, String,
  arith, find?, count, replace, find?-satisfies, find?-replace, count-update_none, eq_iff,
}
use aca_social.Service.{
  Error, Result, ok, err, Ends, unauthorized, internal, fetch-Ends, fetch_or-Ends, gets-Ends,
  throw_if-Ends, modify-Ends, pure-Ends, branch-Ends, throw-Ends,
}
use aca_social.Identity.Users.{User, RefreshToken, Accounts, user_is}
use aca_social.Identity.Users.Admins.{user_is-id}
use aca_social.Identity.Auth.{
  Crypto, Config, Uuids, Tokens, refresh_token, rotate, generate_tokens, has_hash, live_of,
  revoked_row, revoke_live, add_token,
}
use aca_social.Identity.Sessions.{Request, serve}
use aca_social.Identity.Sessions.Spent.{IsSpent, append-IsSpent}
use aca_social.Identity.Sessions.Serving.{serve-Spent}

-- No refresh token of the user can be used.
abbrev pub HasNoSession : ℕ → Accounts → Type 0
HasNoSession user db = count (live_of user) db.refresh_tokens ≡ 0

pub revoke_live-HasNoSession : (user : ℕ) (db : Accounts) → HasNoSession user (revoke_live user db)
unfolding revoke_live
revoke_live-HasNoSession user db =
    count-update_none (live_of user) revoked_row db.refresh_tokens λ t. ground arith

module _ (config : Config) (crypto : Crypto) where
  -- The row that is exchanged: it is live, and has not expired.
  pub record Exchanges (raw : String) (db : Accounts) (tokens : Tokens) (db' : Accounts)
      : Type 0 where
    pub stored : RefreshToken
    pub found : find? (has_hash (crypto.sha256 raw)) db.refresh_tokens ≡ some stored
    pub live : stored.revoked ≡ false
    pub unexpired : db.clock ≤ stored.expires_at
    pub same_user : tokens.access_token.sub ≡ stored.user_id
    pub spent : IsSpent (crypto.sha256 raw) stored.user_id db'.refresh_tokens

  -- Nothing is written; or the token was revoked before, and the sessions of its user end; or its
  -- user is gone.
  abbrev pub Refused : String → Accounts → Error → Accounts → Type 0
  Refused raw db e db' =
      ((e ≡ unauthorized) × (db' ≡ db))
      ⊎ ((stored : RefreshToken) × (find? (has_hash (crypto.sha256 raw)) db.refresh_tokens
            ≡ some stored)
          × ((stored.revoked ≡ true) × (e ≡ unauthorized) × HasNoSession stored.user_id db'
              ⊎ (find? (user_is stored.user_id) db.users ≡ none) × (e ≡ internal)))

  abbrev pub Rotates : String → Accounts → Result Tokens → Accounts → Type 0
  Rotates raw db (ok tokens) db' = Exchanges raw db tokens db'
  Rotates raw db (err e) db' = Refused raw db e db'

  find?-revoked_row :
      (hash : String) (t : RefreshToken) (ts : List RefreshToken)
      → find? (has_hash hash) ts ≡ some t
      → IsSpent hash t.user_id (replace (has_hash t.token_hash) (revoked_row t) ts)
  find?-revoked_row hash t ts found =
      let same = find?-satisfies (has_hash hash) ts t found in
      let equal : t.token_hash ≡ hash = (eq_iff _ _).0 same in
      record {
        row = revoked_row t;
        found =
            subst
              (λ k.
                find? (has_hash hash) (replace (has_hash k) (revoked_row t) ts)
                ≡ some (revoked_row t))
              (sym equal) (find?-replace (has_hash hash) (revoked_row t) ts t found same);
        spent = refl;
        owner = refl;
      }

  generate_tokens-Exchanges :
      (uuids : Uuids) (raw : String) (stored : RefreshToken) (db db' : Accounts)
      → find? (has_hash (crypto.sha256 raw)) db.refresh_tokens ≡ some stored
      → stored.revoked ≡ false
      → db.clock ≤ stored.expires_at
      → IsSpent (crypto.sha256 raw) stored.user_id db'.refresh_tokens
      → (u : User) → u.id ≡ stored.user_id
      → Ends (Rotates raw db) (generate_tokens config crypto uuids u db')
  unfolding generate_tokens add_token
  generate_tokens-Exchanges uuids raw stored db db' found live unexpired spent u same =
      gets-Ends _ _ _ (
        modify-Ends _ _ _ (
          pure-Ends _ _ (record {
            stored = stored;
            found = found;
            live = live;
            unexpired = unexpired;
            same_user = same;
            spent = append-IsSpent _ _ _ db'.refresh_tokens spent;
          })))

  rotate-Rotates :
      (uuids : Uuids) (raw : String) (stored : RefreshToken) (db : Accounts)
      → find? (has_hash (crypto.sha256 raw)) db.refresh_tokens ≡ some stored
      → stored.revoked ≡ false
      → Ends (Rotates raw db) (rotate config crypto uuids stored db)
  unfolding rotate
  rotate-Rotates uuids raw stored db found live =
      let spent = find?-revoked_row (crypto.sha256 raw) stored db.refresh_tokens found in
      gets-Ends _ _ _ (
        throw_if-Ends _ _ _ _ (inl (refl, refl)) λ in_time. modify-Ends _ _ _ (
          fetch_or-Ends _ _ _ _ (λ gone. inr (stored, found, inr (gone, refl)))
            λ u is.
              generate_tokens-Exchanges uuids raw stored db _ found live (ground arith) spent u
                (user_is-id stored.user_id u (find?-satisfies _ db.users u is)).0))

  -- A refresh call that returns was made with the token of a row that was there, live and not
  -- expired; the new access token is for the user of that row, which is revoked. One that throws
  -- writes nothing, unless the token was revoked before, and then no session of its user is left, or
  -- its user is gone.
  pub refresh_token-Rotates :
      (uuids : Uuids) (raw : String) (db : Accounts)
      → let (r, db') = refresh_token config crypto uuids raw db in Rotates raw db r db'
  unfolding refresh_token
  refresh_token-Rotates uuids raw db =
      let ends : Ends (Rotates raw db) (refresh_token config crypto uuids raw db) =
        fetch-Ends _ _ _ _ (inl (refl, refl)) λ stored found.
          branch-Ends _ _ _ _
            (λ reused. modify-Ends _ _ _ (
              throw-Ends _ _ (
                inr
                  (stored, found, inl (reused, refl, revoke_live-HasNoSession stored.user_id db)))))
            (λ live. rotate-Rotates uuids raw stored db found live) in
      ends.holds

  -- A token that is spent is refused, and ends the sessions of its user.
  refresh_token-IsSpent :
      (uuids : Uuids) (raw : String) (user : ℕ) (db : Accounts)
      → IsSpent (crypto.sha256 raw) user db.refresh_tokens
      → let (r, db') = refresh_token config crypto uuids raw db in
        (r ≡ err unauthorized) × HasNoSession user db'
  unfolding refresh_token
  refresh_token-IsSpent uuids raw user db h =
      let ends : Ends (λ r db'. (r ≡ err unauthorized) × HasNoSession user db')
          (refresh_token config crypto uuids raw db) =
        fetch_or-Ends _ _ _ _ (λ gone. absurd (ground (arith, h.found)))
          λ stored found.
            let same : stored ≡ h.row = cc (h.found, found) in
            branch-Ends _ _ _ _
              (λ _. modify-Ends _ _ _ (
                throw-Ends _ _ (
                  refl,
                  subst (λ u. HasNoSession u (revoke_live stored.user_id db))
                      (ap (λ t. t.user_id) same ∙ h.owner)
                      (revoke_live-HasNoSession stored.user_id db),
                )))
              (λ live. absurd (ground (arith, h.spent))) in
      ends.holds

  -- A refresh token can be used once. After a call that exchanged it, and any requests to the
  -- service after that, a second call with it is refused as unauthorized, and leaves its user without
  -- a usable refresh token.
  pub refresh_token_once :
      (uuids later : Uuids) (raw : String) (db : Accounts) (tokens : Tokens) (rs : List Request)
      → (refresh_token config crypto uuids raw db).0 ≡ ok tokens
      → let (r, db') =
          refresh_token config crypto later raw
            (serve config crypto rs (refresh_token config crypto uuids raw db).1) in
        (r ≡ err unauthorized) × HasNoSession tokens.access_token.sub db'
  refresh_token_once uuids later raw db tokens rs returned =
      let exchanged : Exchanges raw db tokens (refresh_token config crypto uuids raw db).1 =
        subst (λ r. Rotates raw db r (refresh_token config crypto uuids raw db).1) returned
          (refresh_token-Rotates uuids raw db) in
      let spent =
        serve-Spent (crypto.sha256 raw) exchanged.stored.user_id config crypto rs _
          exchanged.spent in
      let (refused, ended) =
        refresh_token-IsSpent later raw exchanged.stored.user_id
          (serve config crypto rs (refresh_token config crypto uuids raw db).1) spent in
      (
        refused,
        subst
            (λ user.
              HasNoSession user
                (refresh_token config crypto later raw
                  (serve config crypto rs (refresh_token config crypto uuids raw db).1)).1)
            (sym exchanged.same_user) ended,
      )
