-- ===== src/Media.antt =====
-- services/discussion-service/src/common/media-reference.service.ts: every attachment is a clean
-- file, and the author's own.
use aca_social.Base.{ℕ, Bool, true, false, not, Option, none, some, List, [], ◌∷◌, is_id, or_else}
use aca_social.Store.{Action, Result, ok, err, unavailable, bad_request, forbidden, lift}

-- The media service's answer for a file: no answer, status 404, another failure, or the file with
-- its uploader and whether its scan was clean.
pub data MediaResponse : Type 0 where
  unreachable missing failed : MediaResponse
  asset : (uploaded_by : Option ℕ) (clean : Bool) → MediaResponse

abbrev pub MediaReference : Type 0
MediaReference = ℕ → MediaResponse

-- `ownerId && asset.uploadedBy !== ownerId`
abbrev pub is_foreign : Option ℕ → Option ℕ → Bool
is_foreign none uploader = false
is_foreign (some owner) uploader = not (is_id uploader owner)

unfoldable pub check_asset : MediaResponse → Option ℕ → Result (Unit {0})
check_asset unreachable owner = err unavailable
check_asset missing owner = err bad_request
check_asset failed owner = err unavailable
check_asset (asset uploader false) owner = err bad_request
check_asset (asset uploader true) owner = elim (is_foreign owner uploader) [
  | true ↦ err forbidden
  | false ↦ ok tt
]

unfoldable pub check_all : MediaReference → List ℕ → Option ℕ → Result (Unit {0})
check_all media [] owner = ok tt
check_all media (id ∷ ids) owner =
    let rest = check_all media ids owner in
    elim (check_asset (media id) owner) [ ok _ ↦ rest | err e ↦ err e ]

unfoldable pub validate : MediaReference → Option (List ℕ) → Option ℕ → Action (Unit {0})
validate media ids owner = lift (check_all media (or_else ids []) owner)
