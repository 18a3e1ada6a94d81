-- ===== src/Identity/Sessions/Spent.antt =====
-- A refresh token that was revoked stays revoked, whatever is requested.
use aca_social.Base.{
  ℕ, ◌≡◌, refl, ◌∙◌, Bool, true, false, some, List, [], ◌∷◌, ◌++◌, String, arith, if◌then◌else◌,
  find?, replace, update, find?-append_some, find?-replace_other, Bool-cases, inl, inr, str_eq,
  eq_iff, subst,
}
use aca_social.Identity.Users.{User, RefreshToken, Accounts, token_of}
use aca_social.Identity.Auth.{has_hash, live_of, revoked_row, revoke_live, revoke_all, save_user}

-- The row with this hash is revoked, and is of this user.
pub record IsSpent (hash : String) (user : ℕ) (tokens : List RefreshToken) : Type 0 where
  pub row : RefreshToken
  pub found : find? (has_hash hash) tokens ≡ some row
  pub spent : row.revoked ≡ true
  pub owner : row.user_id ≡ user

module _ (hash : String) (user : ℕ) where
  abbrev pub Spent : Accounts → Type 0
  Spent db = IsSpent hash user db.refresh_tokens

  pub append-IsSpent :
      (t : RefreshToken) (ts : List RefreshToken)
      → IsSpent hash user ts
      → IsSpent hash user (ts ++ t ∷ [])
  append-IsSpent t ts h = record {
    row = h.row;
    found = find?-append_some (has_hash hash) t ts h.row h.found;
    spent = h.spent;
    owner = h.owner;
  }

  -- An update that revokes.
  find?-revoked :
      (p : RefreshToken → Bool) (ts : List RefreshToken) (t : RefreshToken)
      → find? (has_hash hash) ts ≡ some t
      → find? (has_hash hash) (update p revoked_row ts) ≡ some (if p t then revoked_row t else t)
  unfolding find? update
  find?-revoked p [] t h = absurd (cc)
  find?-revoked p (x ∷ xs) t h = ground (arith, find?-revoked p xs t)

  pub update-IsSpent :
      (p : RefreshToken → Bool) (ts : List RefreshToken)
      → IsSpent hash user ts
      → IsSpent hash user (update p revoked_row ts)
  update-IsSpent p ts h = record {
    row = if p h.row then revoked_row h.row else h.row;
    found = find?-revoked p ts h.row h.found;
    spent = elim (Bool-cases (p h.row)) [ inl e ↦ rw e refl | inr e ↦ rw e h.spent ];
    owner = elim (Bool-cases (p h.row)) [ inl e ↦ rw e h.owner | inr e ↦ rw e h.owner ];
  }

  -- The row of a token that is not revoked is another one.
  pub replace-IsSpent :
      (ts : List RefreshToken) (t : RefreshToken)
      → find? (has_hash t.token_hash) ts ≡ some t
      → t.revoked ≡ false
      → IsSpent hash user ts
      → IsSpent hash user (replace (has_hash t.token_hash) (revoked_row t) ts)
  replace-IsSpent ts t found live h = elim (Bool-cases (str_eq t.token_hash hash)) [
    | inl same ↦
        let equal : t.token_hash ≡ hash = (eq_iff _ _).0 same in
        let again : find? (has_hash hash) ts ≡ some t =
          subst (λ k. find? (has_hash k) ts ≡ some t) equal found in
        absurd (ground arith)
    | inr other ↦ record {
      row = h.row;
      found =
          find?-replace_other (has_hash t.token_hash) (has_hash hash) (revoked_row t) ts t found
            other other
          ∙ h.found;
      spent = h.spent;
      owner = h.owner;
    }
  ]

  pub save_user-Keeps : (u : User) (db : Accounts) → Spent db → Spent (save_user u db)
  unfolding save_user
  save_user-Keeps u db h = h

  pub revoke_all-Spent : (id : ℕ) (db : Accounts) → Spent db → Spent (revoke_all id db)
  unfolding revoke_all
  revoke_all-Spent id db h = update-IsSpent (token_of id) db.refresh_tokens h

  pub revoke_live-Spent : (id : ℕ) (db : Accounts) → Spent db → Spent (revoke_live id db)
  unfolding revoke_live
  revoke_live-Spent id db h = update-IsSpent (live_of id) db.refresh_tokens h
