-- ===== src/Tests/Files.antt =====
-- The theorems on stored files and on presentation at concrete inputs.
use aca_social.Base.{
  ℕ, ◌+◌, ◌≡◌, refl, true, false, none, some, List, [], ◌∷◌, length, find?, inl, inr, any,
}
use aca_social.Service.{ok, pure, gets, fetch, or_throw, lift, ◌>>=◌, ◌>>◌, throw_if, modify}
use aca_social.Store.{Role, GatewayUser, TargetType, ModerationStatus, Visibility}
use aca_social.MediaStore.{
  MediaAsset, MediaCategory, Assets, UploadedFile, CloudinaryResult, Digest, upload, upload_found,
  upload_new, insert_asset, to_dto, new_asset, delete, copy_of, Usage, find_live,
}
use aca_social.MediaStore.Scanner.{write_stream}
use aca_social.MediaStore.Framing.{read_stream, read_stream-write_stream}
use aca_social.MediaStore.Uploads.{
  IsKeyed, IsUploaded, IsSame, IsRefused, upload-IsUploaded, upload_again, upload_deleted,
}
use aca_social.MediaStore.Deletion.{Deletes, delete-Deletes}
use aca_social.Presenter.{Item, Profiles, many}
use aca_social.Presenter.Anonymity.{many-LooksLike}

abbrev bytes : List ℕ
bytes = 1 ∷ 2 ∷ 3 ∷ []

read_stream-write_stream_example : read_stream (length bytes + 1) (write_stream bytes) ≡ some bytes
read_stream-write_stream_example = read_stream-write_stream bytes

-- A digest of two files.
abbrev digest : Digest
digest user [] = "empty"
digest user (b ∷ bs) = "content"

abbrev file : UploadedFile
file = record {
  buffer = bytes;
  original_name = "a.txt";
  extension = "txt";
  mime_type = "text/plain";
  size = 3;
}

abbrev renamed : UploadedFile
renamed = record file { original_name = "b.txt" }

abbrev cdn : CloudinaryResult
cdn = record { public_id = "p1"; secure_url = "https://cdn/p1"; format = "" }

abbrev no_files : Assets
no_files = record { clock = 10; next_id = 1; assets = [] }

abbrev stored : MediaAsset
stored = new_asset 1 10 file MediaCategory.document 4 "content" cdn

abbrev one_file : Assets
one_file = record { clock = 20; next_id = 2; assets = stored ∷ [] }

abbrev removed : MediaAsset
removed = record stored { deleted_at = some 15; deleted_by = some 4 }

abbrev one_removed : Assets
one_removed = record { clock = 20; next_id = 2; assets = removed ∷ [] }

no_files-IsKeyed : IsKeyed "content" 4 no_files
unfolding find?
no_files-IsKeyed a found = absurd (cc)

uploaded :
    (upload digest (ok tt) (some cdn) file MediaCategory.document 4 no_files).0 ≡ ok (to_dto stored)
unfolding upload upload_found upload_new insert_asset lift gets or_throw throw_if modify ◌>>=◌ ◌>>◌
    pure find? any
uploaded = refl

upload-IsUploaded_example :
    let (r, db') = upload digest (ok tt) (some cdn) file MediaCategory.document 4 no_files in
    IsUploaded (ok tt) "content" 4 no_files r db'
upload-IsUploaded_example =
    upload-IsUploaded digest (ok tt) (some cdn) file MediaCategory.document 4 no_files
      no_files-IsKeyed

upload_again_example :
    let db' = (upload digest (ok tt) (some cdn) file MediaCategory.document 4 no_files).1 in
    let (r, db'') = upload digest (ok tt) none renamed MediaCategory.image 4 db' in
    IsSame (to_dto stored) db' r db''
upload_again_example =
    upload_again digest (ok tt) (some cdn) none file renamed MediaCategory.document
      MediaCategory.image 4 no_files (to_dto stored) no_files-IsKeyed refl uploaded

removed_found : find? (copy_of "content" 4) one_removed.assets ≡ some removed
unfolding find?
removed_found = refl

upload_deleted_example :
    let (r, db') = upload digest (ok tt) (some cdn) file MediaCategory.document 4 one_removed in
    IsRefused one_removed r db'
upload_deleted_example =
    upload_deleted digest (ok tt) (some cdn) file MediaCategory.document 4 removed one_removed
      removed_found refl

delete-Deletes_example :
    let (r, db') = delete (Usage.counted 0) (ok tt) 1 4 (some Role.student) one_file in
    Deletes (Usage.counted 0) (ok tt) 1 4 (some Role.student) one_file r db'
delete-Deletes_example = delete-Deletes (Usage.counted 0) (ok tt) 1 4 (some Role.student) one_file

-- An answer without a number of posts deletes the file as well.
uncounted_deletes : (delete Usage.uncounted (ok tt) 1 4 none one_file).0 ≡ ok tt
unfolding delete find_live fetch or_throw gets throw_if lift modify ◌>>=◌ ◌>>◌ find? pure
uncounted_deletes = refl

abbrev guest : GatewayUser
guest = record { id = some 9; role = some Role.student }

abbrev question : ℕ → Item
question author = record {
  id = 1;
  author_id = author;
  is_anonymous = true;
  deleted = false;
  moderation_status = some ModerationStatus.approved;
  visibility = some Visibility.visible;
  pending_revision = none;
  moderation_note = some "ok";
  content = "?";
}

abbrev named : Item
named = record (question 6) { id = 2; is_anonymous = false }

abbrev directory : Profiles
directory ids = []

many-LooksLike_example :
    many directory [] guest TargetType.discussion (question 4 ∷ named ∷ [])
    ≡ many directory [] guest TargetType.discussion (question 5 ∷ named ∷ [])
many-LooksLike_example =
    many-LooksLike directory [] guest TargetType.discussion (question 4 ∷ named ∷ [])
      (question 5 ∷ named ∷ [])
      (
        inr (record { hidden = refl; not_mine = refl; not_mine_either = refl; same = refl }),
        (inl refl, tt),
      )
