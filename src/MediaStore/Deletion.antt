-- ===== src/MediaStore/Deletion.antt =====
-- Who deletes a file, and when.
use aca_social.Base.{
  ℕ, ◌≡◌, ◌⊎◌, inl, inr, refl, sym, ap, true, false, not, ◌&&◌, Option, some, ◌==◌, arith, find?,
  replace, find?-satisfies, find?-replace, subst, ==_iff, Bool-cases,
}
use aca_social.Service.{
  Error, Result, ok, err, Ends, Checks, not_found, fetch-Ends, check-Ends, gets-Ends, throw_if-Ends,
  lift_then-Ends, last_modify-Ends, pure-Ends, fetch_found-Ends, bind-Ends,
}
use aca_social.Store.{Role, is_staff}
use aca_social.MediaStore.{
  MediaAsset, Assets, Usage, is_verified, is_unreadable, is_used, asset_is, is_live, with_deletion,
  save_asset, find_live, find_one, delete,
}

find_live-Checks :
    (id : ℕ) (db : Assets)
    → Checks
        (λ a. (find? (asset_is id) db.assets ≡ some a) × (is_live a ≡ true))
        db
        (find_live id db)
unfolding find_live
find_live-Checks id db =
    fetch-Ends _ _ _ _ refl
      λ a found. throw_if-Ends _ _ _ _ refl λ live. pure-Ends _ _ (refl, (found, ground arith))

-- A deleted file is not found.
find_one-dead :
    (id : ℕ) (a : MediaAsset) (db : Assets)
    → find? (asset_is id) db.assets ≡ some a
    → is_live a ≡ false
    → (find_one id db).0 ≡ err not_found
unfolding find_one find_live
find_one-dead id a db found dead =
    let ends : Ends (λ r _. r ≡ err not_found) (find_one id db) =
      bind-Ends (λ r _. r ≡ err not_found) _ _ _
        (fetch_found-Ends _ _ _ _ a found
          (throw_if-Ends _ _ _ _ refl λ live. absurd (ground arith)))
        (λ e _ same. ap (λ r. err (error_of r)) same) (λ a _ never. absurd (cc)) in
    ends.holds
  where
    error_of : Result MediaAsset → Error
    error_of (ok _) = not_found
    error_of (err e) = e

-- What a deletion needs, and leaves.
abbrev pub Deletes :
    Usage → Result (Unit {0}) → ℕ → ℕ → Option Role → Assets → Result (Unit {0}) → Assets → Type 0
Deletes usage destroyed id user role db (err e) db' = db' ≡ db
Deletes usage destroyed id user role db (ok _) db' =
    (a : MediaAsset) × (find? (asset_is id) db.assets ≡ some a)
    × (is_live a ≡ true)
    × ((a.uploaded_by ≡ user) ⊎ (is_staff role ≡ true))
    × ((usage ≡ Usage.counted 0) ⊎ (usage ≡ Usage.uncounted))
    × (destroyed ≡ ok tt)
    × (find? (asset_is id) db'.assets ≡ some (with_deletion db.clock user a))
    × ((find_one id db').0 ≡ err not_found)

may_delete :
    (a : MediaAsset) (user : ℕ) (role : Option Role)
    → (not (a.uploaded_by == user) && not (is_staff role)) ≡ false
    → (a.uploaded_by ≡ user) ⊎ (is_staff role ≡ true)
may_delete a user role h = elim (Bool-cases (a.uploaded_by == user)) [
  | inl same ↦ inl ((==_iff a.uploaded_by user).0 same)
  | inr other ↦ inr (ground arith)
]

-- A deletion that returns was asked for by the user who uploaded the file, or by staff, and the
-- discussion service answered that no post refers to the file, or answered without a number of posts.
-- The file was live; it is removed from Cloudinary, marked as deleted, and no longer found. One that
-- throws writes nothing. Staff are administrators and moderators.
pub delete-Deletes :
    (usage : Usage) (destroyed : Result (Unit {0})) (id user : ℕ) (role : Option Role) (db : Assets)
    → let (r, db') = delete usage destroyed id user role db in
      Deletes usage destroyed id user role db r db'
unfolding delete save_asset
delete-Deletes usage destroyed id user role db =
    let ends : Ends (Deletes usage destroyed id user role db)
        (delete usage destroyed id user role db) =
      check-Ends _ _ _ _ (find_live-Checks id db) (λ _. refl)
        λ a (found, live). throw_if-Ends _ _ _ _ refl λ allowed.
          throw_if-Ends _ _ _ _ refl λ answered. throw_if-Ends _ _ _ _ refl λ readable.
            throw_if-Ends _ _ _ _ refl λ unused.
              lift_then-Ends _ _ _ (λ _. refl)
                λ u done.
                  let same : a.id ≡ id =
                    (==_iff a.id id).0 (find?-satisfies (asset_is id) db.assets a found) in
                  let gone = with_deletion db.clock user a in
                  let stored : find? (asset_is id) (replace (asset_is a.id) gone db.assets)
                      ≡ some gone =
                    subst
                      (λ k. find? (asset_is id) (replace (asset_is k) gone db.assets) ≡ some gone)
                      (sym same)
                      (find?-replace (asset_is id) gone db.assets a found
                        (find?-satisfies (asset_is id) db.assets a found)) in
                  gets-Ends _ _ _ (
                    last_modify-Ends _ _ (
                      a,
                      found,
                      live,
                      may_delete a user role allowed,
                      none_counted usage answered readable unused,
                      done,
                      stored,
                      find_one-dead id gone _ stored refl,
                    )) in
    ends.holds
  where
    none_counted :
        (usage : Usage)
        → not (is_verified usage) ≡ false
        → is_unreadable usage ≡ false
        → is_used usage ≡ false
        → (usage ≡ Usage.counted 0) ⊎ (usage ≡ Usage.uncounted)
    none_counted Usage.unverified answered readable unused = absurd (cc)
    none_counted Usage.unreadable answered readable unused = absurd (cc)
    none_counted Usage.uncounted answered readable unused = inr refl
    none_counted (Usage.counted n) answered readable unused =
        let zero_posts : n ≡ 0 = ground arith in inl (ap Usage.counted zero_posts)
