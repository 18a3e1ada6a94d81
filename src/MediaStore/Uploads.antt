-- ===== src/MediaStore/Uploads.antt =====
-- Uploading a file, once or again.
use aca_social.Base.{
  ℕ, ◌≡◌, refl, sym, ◌∙◌, ap, subst, Bool, true, false, Option, none, some, List, [], ◌∷◌, ◌++◌,
  arith, String, eq_iff, find?, replace, any, length, find?-satisfies, find?-append,
  find?-replace_both, Option-cases, inl, inr,
}
use aca_social.Service.{
  Result, ok, err, Ends, gets-Ends, or_throw-Ends, lift_then-Ends, lift_ok-Ends, throw_if-Ends,
  modify-Ends, pure-Ends, branch-Ends, bind_then-Ends, last_modify-Ends,
}
use aca_social.MediaStore.{
  MediaAsset, Assets, UploadedFile, MediaCategory, CloudinaryResult, MediaResponseDto, Digest,
  to_dto, asset_is, copy_of, is_live, is_clean, scanned, save_asset, new_asset, insert_asset,
  collides, upload, upload_new, upload_found, reuse,
}

-- The identifiers of the rows are unique, as far as the copies of this file go.
abbrev pub IsKeyed : String → ℕ → Assets → Type 0
IsKeyed hash user db =
    (a : MediaAsset)
    → find? (copy_of hash user) db.assets ≡ some a
    → find? (asset_is a.id) db.assets ≡ some a

-- The returned file is the stored copy: live, and scanned.
abbrev pub Uploads : String → ℕ → Assets → Result MediaResponseDto → Assets → Type 0
Uploads hash user db (err e) db' = db' ≡ db
Uploads hash user db (ok dto) db' =
    (a : MediaAsset) × (dto ≡ to_dto a)
    × (find? (copy_of hash user) db'.assets ≡ some a)
    × (is_live a ≡ true)
    × (is_clean a.scan_status ≡ true)

any_found :
    (p q : MediaAsset → Bool) (xs : List MediaAsset) (y : MediaAsset)
    → find? p xs ≡ some y
    → q y ≡ true
    → any q xs ≡ true
unfolding find? any
any_found p q [] y found h = absurd (cc)
any_found p q (x ∷ xs) y found h = ground (arith, any_found p q xs y)

find?-insert :
    (hash : String) (user : ℕ) (a : MediaAsset) (xs : List MediaAsset)
    → a.sha256_hash ≡ hash
    → a.uploaded_by ≡ user
    → any (collides a) xs ≡ false
    → find? (copy_of hash user) (xs ++ a ∷ []) ≡ some a
find?-insert hash user a xs same owner free = elim (Option-cases (find? (copy_of hash user) xs)) [
  | inl absent ↦
      find?-append (copy_of hash user) a xs absent
        (ground (arith, (eq_iff a.sha256_hash hash).1 same))
  | inr (b, found) ↦
      let copy = find?-satisfies (copy_of hash user) xs b found in
      let content : b.sha256_hash ≡ a.sha256_hash =
        (eq_iff b.sha256_hash hash).0 (ground arith) ∙ sym same in
      let clash = (eq_iff b.sha256_hash a.sha256_hash).1 content in
      let taken : any (collides a) xs ≡ true =
        any_found (copy_of hash user) (collides a) xs b found (ground arith) in
      absurd (cc (taken, free))
]

upload_new-Uploads :
    (file : UploadedFile) (category : MediaCategory) (user : ℕ) (hash : String)
    (stored : Option CloudinaryResult) (db : Assets)
    → Ends (Uploads hash user db) (upload_new file category user hash stored db)
unfolding upload_new insert_asset
upload_new-Uploads file category user hash stored db = or_throw-Ends _ _ _ _ refl λ result _.
    gets-Ends _ _ _ (
      gets-Ends _ _ _ (
        let a = new_asset db.next_id db.clock file category user hash result in
        bind_then-Ends
          (λ r db'. elim r [
            | ok _ ↦ find? (copy_of hash user) db'.assets ≡ some a
            | err _ ↦ db' ≡ db
          ])
          _ _ _
          (gets-Ends _ _ _ (
            throw_if-Ends _ _ _ _ refl
              λ free. last_modify-Ends _ _ (find?-insert hash user a db.assets refl refl free)))
          (λ e db' same. same) (λ _ db' found. pure-Ends _ _ (a, refl, found, refl, refl))))

reuse-Uploads :
    (hash : String) (user : ℕ) (a : MediaAsset) (db : Assets)
    → find? (copy_of hash user) db.assets ≡ some a
    → find? (asset_is a.id) db.assets ≡ some a
    → is_live a ≡ true
    → Ends (Uploads hash user db) (reuse a db)
unfolding reuse save_asset
reuse-Uploads hash user a db found row live = gets-Ends _ _ _ (
    modify-Ends _ _ _ (
      pure-Ends _ _ (
        scanned db.clock a,
        refl,
        find?-replace_both (asset_is a.id) (copy_of hash user) (scanned db.clock a) db.assets a row
            found (find?-satisfies (copy_of hash user) db.assets a found),
        live,
        refl,
      )))

upload_found-Uploads :
    (file : UploadedFile) (category : MediaCategory) (user : ℕ) (hash : String)
    (stored : Option CloudinaryResult) (existing : Option MediaAsset) (db : Assets)
    → find? (copy_of hash user) db.assets ≡ existing
    → IsKeyed hash user db
    → Ends (Uploads hash user db) (upload_found file category user hash stored existing db)
unfolding upload_found
upload_found-Uploads file category user hash stored none db found keyed =
    upload_new-Uploads file category user hash stored db
upload_found-Uploads file category user hash stored (some a) db found keyed =
    branch-Ends _ _ _ _ (λ live. reuse-Uploads hash user a db found (keyed a found) live)
      (λ _. upload_new-Uploads file category user hash stored db)

-- The same, of a file that passed the scan.
abbrev pub IsUploaded :
    Result (Unit {0}) → String → ℕ → Assets → Result MediaResponseDto → Assets → Type 0
IsUploaded scan hash user db (err e) db' = db' ≡ db
IsUploaded scan hash user db (ok dto) db' = (scan ≡ ok tt) × Uploads hash user db (ok dto) db'

-- An upload that returns has passed the scan; what it returns is the stored copy of this user and
-- content, which is live and clean. One that throws writes nothing.
pub upload-IsUploaded :
    (digest : Digest) (scan : Result (Unit {0})) (stored : Option CloudinaryResult)
    (file : UploadedFile) (category : MediaCategory) (user : ℕ) (db : Assets)
    → IsKeyed (digest user file.buffer) user db
    → let (r, db') = upload digest scan stored file category user db in
      IsUploaded scan (digest user file.buffer) user db r db'
unfolding upload
upload-IsUploaded digest scan stored file category user db keyed =
    let hash = digest user file.buffer in
    let ends : Ends (IsUploaded scan hash user db)
        (upload digest scan stored file category user db) =
      lift_then-Ends _ _ _ (λ _. refl)
        λ u passed. gets-Ends _ _ _ (
          with_scan scan hash user db _ passed
            (upload_found-Uploads file category user hash stored _ db refl keyed)) in
    ends.holds
  where
    with_scan :
        (scan : Result (Unit {0})) (hash : String) (user : ℕ) (db : Assets)
        (x : Result MediaResponseDto × Assets)
        → scan ≡ ok tt
        → Ends (Uploads hash user db) x
        → Ends (IsUploaded scan hash user db) x
    with_scan scan hash user db x passed h = record { holds = go x.0 x.1 h.holds }
      where
        go :
            (r : Result MediaResponseDto) (db' : Assets)
            → Uploads hash user db r db'
            → IsUploaded scan hash user db r db'
        go (ok dto) db' u = (passed, u)
        go (err e) db' u = u

length-replace :
    (p : MediaAsset → Bool) (a : MediaAsset) (xs : List MediaAsset)
    → length (replace p a xs) ≡ length xs
unfolding replace
length-replace p a [] = refl
length-replace p a (x ∷ xs) = ground (arith, length-replace p a xs)

-- The second upload returns the same file, and stores no other.
abbrev pub IsSame : MediaResponseDto → Assets → Result MediaResponseDto → Assets → Type 0
IsSame dto db (ok again) db' = (again.id ≡ dto.id) × (length db'.assets ≡ length db.assets)
IsSame dto db (err e) db' = ⊥

reuse-IsSame :
    (a : MediaAsset) (dto : MediaResponseDto) (db : Assets)
    → dto ≡ to_dto a
    → Ends (IsSame dto db) (reuse a db)
unfolding reuse save_asset to_dto
reuse-IsSame a dto db same = gets-Ends _ _ _ (
    modify-Ends _ _ _ (
      pure-Ends _ _
        (sym (ap (λ d. d.id) same), length-replace (asset_is a.id) (scanned db.clock a) db.assets)))

-- A file is stored once. After an upload that returned, the same content of the same user is not
-- uploaded again: another upload that passes the scan, whatever its name and category, returns the
-- same file, and adds none.
pub upload_again :
    (digest : Digest) (scan : Result (Unit {0})) (stored again : Option CloudinaryResult)
    (file copy : UploadedFile) (category other : MediaCategory) (user : ℕ) (db : Assets)
    (dto : MediaResponseDto)
    → IsKeyed (digest user file.buffer) user db
    → copy.buffer ≡ file.buffer
    → (upload digest scan stored file category user db).0 ≡ ok dto
    → let db' = (upload digest scan stored file category user db).1 in
      let (r, db'') = upload digest (ok tt) again copy other user db' in IsSame dto db' r db''
unfolding upload upload_found
upload_again digest scan stored again file copy category other user db dto keyed same returned =
    let db' = (upload digest scan stored file category user db).1 in
    let (_, (a, is, found, live, _)) : IsUploaded scan (digest user file.buffer) user db (ok dto)
        db' =
      subst (λ r. IsUploaded scan (digest user file.buffer) user db r db') returned
        (upload-IsUploaded digest scan stored file category user db keyed) in
    let hash = ap (digest user) same in
    let copied : find? (copy_of (digest user copy.buffer) user) db'.assets ≡ some a =
      subst (λ h. find? (copy_of h user) db'.assets ≡ some a) (sym hash) found in
    let ends : Ends (IsSame dto db') (upload digest (ok tt) again copy other user db') =
      lift_ok-Ends _ _ _ (
        gets-Ends _ _ _ (
          rw copied (
            branch-Ends _ _ _ _ (λ _. reuse-IsSame a dto db' is)
              (λ dead. absurd (cc (live, dead)))))) in
    ends.holds

-- Nothing is returned, and nothing written.
abbrev pub IsRefused : Assets → Result MediaResponseDto → Assets → Type 0
IsRefused db (ok dto) db' = ⊥
IsRefused db (err e) db' = db' ≡ db

taken-IsRefused :
    (file : UploadedFile) (category : MediaCategory) (user : ℕ) (hash : String)
    (stored : Option CloudinaryResult) (a : MediaAsset) (db : Assets)
    → find? (copy_of hash user) db.assets ≡ some a
    → Ends (IsRefused db) (upload_new file category user hash stored db)
unfolding upload_new insert_asset
taken-IsRefused file category user hash stored a db found = or_throw-Ends _ _ _ _ refl λ result _.
    gets-Ends _ _ _ (
      gets-Ends _ _ _ (
        let b = new_asset db.next_id db.clock file category user hash result in
        let copy = find?-satisfies (copy_of hash user) db.assets a found in
        let taken : any (collides b) db.assets ≡ true =
          any_found (copy_of hash user) (collides b) db.assets a found (ground arith) in
        bind_then-Ends (λ r db'. elim r [ ok _ ↦ ⊥ | err _ ↦ db' ≡ db ]) _ _ _
          (gets-Ends _ _ _ (throw_if-Ends _ _ _ _ refl λ free. absurd (cc (taken, free))))
          (λ e db' same. same) (λ _ db' never. absurd never)))

-- A content that its user uploaded and that was deleted is never uploaded again: every upload of it by
-- this user throws, and writes nothing.
pub upload_deleted :
    (digest : Digest) (scan : Result (Unit {0})) (stored : Option CloudinaryResult)
    (file : UploadedFile) (category : MediaCategory) (user : ℕ) (a : MediaAsset) (db : Assets)
    → find? (copy_of (digest user file.buffer) user) db.assets ≡ some a
    → is_live a ≡ false
    → let (r, db') = upload digest scan stored file category user db in IsRefused db r db'
unfolding upload upload_found
upload_deleted digest scan stored file category user a db found dead =
    let ends : Ends (IsRefused db) (upload digest scan stored file category user db) =
      lift_then-Ends _ _ _ (λ _. refl)
        λ u _. gets-Ends _ _ _ (
          rw found (
            branch-Ends _ _ _ _ (λ live. absurd (cc (live, dead)))
              (λ _.
                taken-IsRefused file category user (digest user file.buffer) stored a db found))) in
    ends.holds
