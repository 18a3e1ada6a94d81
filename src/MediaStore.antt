-- ===== src/MediaStore.antt =====
-- services/media-service/src/media: uploaded files (media.service.ts), and their scan
-- (virus-scanner.service.ts). Cloudinary, ClamAV and the discussion service answer as arguments of the
-- methods.
pub mod Scanner
pub mod Framing
pub mod Uploads
pub mod Deletion
use aca_social.Base.{
  ℕ, ◌+◌, Bool, true, false, not, ◌&&◌, ◌||◌, Option, none, some, List, [], ◌∷◌, ◌++◌, ◌==◌, leb,
  ltb, if◌then◌else◌, String, str_eq, find?, replace, any, is_some, is_id,
}
use aca_social.Service.{
  Result, ok, err, Run, pure, throw, gets, or_throw, fetch, lift, throw_if, modify, branch, ◌>>=◌,
  ◌>>◌, forbidden, not_found, bad_request, unavailable, internal,
}
use aca_social.Store.{Role, is_staff}

pub data MediaCategory : Type 0 where
  image document code : MediaCategory

pub data ScanStatus : Type 0 where
  clean unverified : ScanStatus

pub record MediaAsset : Type 0 where
  pub id : ℕ
  pub scan_status : ScanStatus
  pub scanned_at : Option ℕ
  pub original_name : String
  pub public_id : String
  pub secure_url : String
  pub format : String
  pub mime_type : String
  pub category : MediaCategory
  pub size_bytes : ℕ
  pub sha256_hash : String
  pub uploaded_by : ℕ
  pub created_at : ℕ
  pub deleted_at : Option ℕ
  pub deleted_by : Option ℕ

-- The table `media_assets`, the time, and the supply of identifiers.
pub record Assets : Type 0 where
  pub clock : ℕ
  pub next_id : ℕ
  pub assets : List MediaAsset

-- The file as multer hands it over, with the name cut to its column and the extension taken from it.
pub record UploadedFile : Type 0 where
  pub buffer : List ℕ
  pub original_name : String
  pub extension : String
  pub mime_type : String
  pub size : ℕ

pub record CloudinaryResult : Type 0 where
  pub public_id : String
  pub secure_url : String
  pub format : String

pub record MediaResponseDto : Type 0 where
  pub id : ℕ
  pub original_name : String
  pub secure_url : String
  pub scan_status : ScanStatus
  pub scanned_at : Option ℕ
  pub format : String
  pub mime_type : String
  pub category : MediaCategory
  pub size_bytes : ℕ
  pub uploaded_by : ℕ
  pub created_at : ℕ

abbrev pub is_clean : ScanStatus → Bool
is_clean ScanStatus.clean = true
is_clean _ = false

unfoldable pub to_dto : MediaAsset → MediaResponseDto
to_dto a = record {
  id = a.id;
  original_name = a.original_name;
  secure_url = if is_clean a.scan_status then a.secure_url else "";
  scan_status = a.scan_status;
  scanned_at = a.scanned_at;
  format = a.format;
  mime_type = a.mime_type;
  category = a.category;
  size_bytes = a.size_bytes;
  uploaded_by = a.uploaded_by;
  created_at = a.created_at;
}

abbrev pub asset_is : ℕ → MediaAsset → Bool
asset_is id a = a.id == id

abbrev pub has_content : String → MediaAsset → Bool
has_content hash a = str_eq a.sha256_hash hash

abbrev pub copy_of : String → ℕ → MediaAsset → Bool
copy_of hash user a = has_content hash a && (a.uploaded_by == user)

abbrev pub is_live : MediaAsset → Bool
is_live a = not (is_some a.deleted_at)

-- `a || b || 'bin'`
abbrev pub or_text : String → String → String
or_text a b = if str_eq a "" then b else a

-- The unique columns of the table.
abbrev pub collides : MediaAsset → MediaAsset → Bool
collides a b = str_eq b.sha256_hash a.sha256_hash || str_eq b.public_id a.public_id

-- `save` of a new row: the database refuses a second value in a unique column.
unfoldable pub insert_asset : MediaAsset → Run Assets (Unit {0})
insert_asset a = do
  taken ← gets (λ db. any (collides a) db.assets)
  throw_if taken internal
  modify (λ db. record db { assets = db.assets ++ a ∷ []; next_id = db.next_id + 1 })

abbrev pub scanned : ℕ → MediaAsset → MediaAsset
scanned now a = record a { scan_status = ScanStatus.clean; scanned_at = some now }

unfoldable pub save_asset : MediaAsset → Assets → Assets
save_asset a db = record db { assets = replace (asset_is a.id) a db.assets }

abbrev pub new_asset :
    ℕ → ℕ → UploadedFile → MediaCategory → ℕ → String → CloudinaryResult → MediaAsset
new_asset id now file category user hash stored = record {
  id = id;
  scan_status = ScanStatus.clean;
  scanned_at = some now;
  original_name = file.original_name;
  public_id = stored.public_id;
  secure_url = stored.secure_url;
  format = or_text stored.format (or_text file.extension "bin");
  mime_type = file.mime_type;
  category = category;
  size_bytes = file.size;
  sha256_hash = hash;
  uploaded_by = user;
  created_at = now;
  deleted_at = none;
  deleted_by = none;
}

-- The hash of a user and a content.
abbrev pub Digest : Type 0
Digest = ℕ → List ℕ → String

abbrev pub is_live_copy : Option MediaAsset → Bool
is_live_copy none = false
is_live_copy (some a) = is_live a

-- The upload of a file that has no live copy; `none` stands for a failed upload to Cloudinary.
unfoldable pub upload_new :
    UploadedFile
    → MediaCategory
    → ℕ
    → String
    → Option CloudinaryResult
    → Run Assets MediaResponseDto
upload_new file category user hash stored = do
  result ← or_throw stored internal
  id ← gets (λ db. db.next_id)
  now ← gets (λ db. db.clock)
  insert_asset (new_asset id now file category user hash result)
  pure (to_dto (new_asset id now file category user hash result))

-- A live copy is returned, as scanned now.
unfoldable pub reuse : MediaAsset → Run Assets MediaResponseDto
reuse a = do
  now ← gets (λ db. db.clock)
  modify (save_asset (scanned now a))
  pure (to_dto (scanned now a))

unfoldable pub upload_found :
    UploadedFile
    → MediaCategory
    → ℕ
    → String
    → Option CloudinaryResult
    → Option MediaAsset
    → Run Assets MediaResponseDto
upload_found file category user hash stored none = upload_new file category user hash stored
upload_found file category user hash stored (some a) =
    branch (is_live a) (reuse a) (upload_new file category user hash stored)

unfoldable pub upload :
    Digest
    → Result (Unit {0})
    → Option CloudinaryResult
    → UploadedFile
    → MediaCategory
    → ℕ
    → Run Assets MediaResponseDto
upload digest scan stored file category user = do
  lift scan
  existing ← gets (λ db. find? (copy_of (digest user file.buffer) user) db.assets)
  upload_found file category user (digest user file.buffer) stored existing

unfoldable pub find_live : ℕ → Run Assets MediaAsset
find_live id = do
  asset ← fetch (λ db. find? (asset_is id) db.assets) not_found
  throw_if (not (is_live asset)) not_found
  pure asset

unfoldable pub find_one : ℕ → Run Assets MediaResponseDto
find_one id = do asset ← find_live id; pure (to_dto asset)

abbrev pub with_deletion : ℕ → ℕ → MediaAsset → MediaAsset
with_deletion now user a = record a { deleted_at = some now; deleted_by = some user }

-- The answer of the discussion service on the use of a file: none or an error status, a body that
-- cannot be read, one without `count`, or the number of posts.
pub data Usage : Type 0 where
  unverified unreadable uncounted : Usage
  counted : ℕ → Usage

abbrev pub is_verified : Usage → Bool
is_verified Usage.unverified = false
is_verified _ = true

abbrev pub is_unreadable : Usage → Bool
is_unreadable Usage.unreadable = true
is_unreadable _ = false

-- `references.count > 0`, which is false of what is undefined.
abbrev pub is_used : Usage → Bool
is_used (Usage.counted n) = ltb 0 n
is_used _ = false

-- `delete`; `destroyed` is what Cloudinary answers.
unfoldable pub delete : Usage → Result (Unit {0}) → ℕ → ℕ → Option Role → Run Assets (Unit {0})
delete usage destroyed id user role = do
  asset ← find_live id
  throw_if (not (asset.uploaded_by == user) && not (is_staff role)) forbidden
  throw_if (not (is_verified usage)) unavailable
  throw_if (is_unreadable usage) internal
  throw_if (is_used usage) bad_request
  lift destroyed
  now ← gets (λ db. db.clock)
  modify (save_asset (with_deletion now user asset))
