-- ===== src/Identity/Users/Admins.antt =====
-- What a change of a role writes.
use aca_social.Base.{
  ℕ, ◌≡◌, refl, sym, subst, [], ◌∷◌, ◌++◌, Bool, true, false, not, ◌&&◌, Option, none, some, List,
  ◌==◌, leb, arith, if◌then◌else◌, find?, count, update, find?-satisfies, find?-replace,
}
use aca_social.Store.{Role, Error, Result, ok, err, forbidden, not_found}
use aca_social.Identity.Users.{
  User, RefreshToken, Accounts, is_admin_role, same_role, user_is, admin_row, token_of,
  revoke_tokens, with_role, save_role, change_found, change_option, change_role, Decision,
  decide_role, decided_role,
}

abbrev pub admins : Accounts → ℕ
admins db = count admin_row db.users

pub user_is-id : (id : ℕ) (u : User) → user_is id u ≡ true → (u.id ≡ id) × (u.deleted ≡ false)
user_is-id id u h = ground arith

pub found_by_id :
    (id : ℕ) (u : User) (users : List User)
    → find? (user_is id) users ≡ some u
    → (find? (user_is u.id) users ≡ some u) × (u.deleted ≡ false) × (u.id ≡ id)
found_by_id id u users found =
    let (same, present) = user_is-id id u (find?-satisfies (user_is id) users u found) in
    (subst (λ k. find? (user_is k) users ≡ some u) (sym same) found, present, same)

pub revoke_tokens-all :
    (user : ℕ) (ts : List RefreshToken)
    → count (λ t. token_of user t && not t.revoked) (revoke_tokens user ts) ≡ 0
unfolding count update
revoke_tokens-all user [] = refl
revoke_tokens-all user (t ∷ ts) = ground (arith, revoke_tokens-all user ts)

-- What a change of a role does: nothing, if it throws or the role is the same; otherwise the user has
-- the role, the change is audited, and no refresh token of the user is left unrevoked.
abbrev pub Changes : ℕ → Role → ℕ → Accounts → Result (Unit {0}) → Accounts → Type 0
Changes id role actor db (err e) db' = db' ≡ db
Changes id role actor db (ok _) db' =
    (u : User) × (find? (user_is id) db.users ≡ some u)
    × (u.id ≡ id)
    × (if same_role u.role role
        then db' ≡ db
        else (find? (user_is u.id) db'.users ≡ some (with_role role db.clock u))
          × (count (λ t. token_of u.id t && not t.revoked) db'.refresh_tokens ≡ 0)
          × (db'.role_audits
              ≡ db.role_audits
                ++ record { user_id = u.id; old_role = u.role; new_role = role; changed_by = actor }
                  ∷ []))

-- Every branch of a change, once the user is found: what throws or changes nothing, and what saves.
change_found-cases :
    (P : Result (Unit {0}) → Accounts → Type 0) (role : Role) (actor : ℕ) (u : User) (db : Accounts)
    → P (err forbidden) db
    → (same_role u.role role ≡ true → P (ok tt) db)
    → (same_role u.role role ≡ false
        → (is_admin_role u.role && (not (is_admin_role role) && leb (count admin_row db.users) 1))
          ≡ false
        → P (ok tt) (save_role role actor u db))
    → let (r, db') = change_found role actor u db in P r db'
unfolding change_found decide_role decided_role
change_found-cases P role actor u db refused same saved =
    branches ((u.id == actor) && not (is_admin_role role)) (same_role u.role role)
      (is_admin_role u.role && (not (is_admin_role role) && leb (count admin_row db.users) 1)) same
      saved
  where
    branches :
        (a b c : Bool)
        → (b ≡ true → P (ok tt) db)
        → (b ≡ false → c ≡ false → P (ok tt) (save_role role actor u db))
        → let d =
            if a
            then Decision.refused
            else if b
            then Decision.unchanged
            else if c
            then Decision.refused
            else Decision.changed in
          let (r, db') = decided_role role actor u d db in P r db'
    branches true b c f g = refused
    branches false true c f g = f refl
    branches false false true f g = refused
    branches false false false f g = g refl refl

-- The branches of `changeRole`, the user that is not there included.
pub change_role-cases :
    (P : Result (Unit {0}) → Accounts → Type 0) (id : ℕ) (role : Role) (actor : ℕ) (db : Accounts)
    → ((e : Error) → P (err e) db)
    → ((u : User)
        → find? (user_is id) db.users ≡ some u
        → same_role u.role role ≡ true
        → P (ok tt) db)
    → ((u : User)
        → find? (user_is id) db.users ≡ some u
        → same_role u.role role ≡ false
        → (is_admin_role u.role && (not (is_admin_role role) && leb (count admin_row db.users) 1))
          ≡ false
        → P (ok tt) (save_role role actor u db))
    → let (r, db') = change_role id role actor db in P r db'
unfolding change_role change_option
change_role-cases P id role actor db thrown same saved = go (find? (user_is id) db.users) refl
  where
    go :
        (o : Option User)
        → find? (user_is id) db.users ≡ o
        → let (r, db') = change_option role actor o db in P r db'
    go none e = thrown not_found
    go (some u) e = change_found-cases P role actor u db (thrown forbidden) (same u e) (saved u e)

-- A change of a role that returns found the user; unless the role is the same, the user then has the
-- role, the change is audited, and none of the user's refresh tokens is usable. One that throws
-- changes nothing.
pub change_role-Changes :
    (id : ℕ) (role : Role) (actor : ℕ) (db : Accounts)
    → let (r, db') = change_role id role actor db in Changes id role actor db r db'
unfolding save_role
change_role-Changes id role actor db =
    change_role-cases (Changes id role actor db) id role actor db (λ e. refl)
      (λ u found same.
        let (_, _, key) = found_by_id id u db.users found in (u, found, key, rw same refl))
      (λ u found differs safe.
        let (found_self, present, key) = found_by_id id u db.users found in
        (
          u,
          found,
          key,
          rw differs (
              (
                find?-replace (user_is u.id) (with_role role db.clock u) db.users u found_self
                    (ground arith),
                revoke_tokens-all u.id db.refresh_tokens,
                refl,
              )),
        ))
