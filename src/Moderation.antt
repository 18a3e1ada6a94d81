-- ===== src/Moderation.antt =====
-- services/discussion-service/src/moderation/moderation.service.ts: the review of posts.
pub mod Review
pub mod Publishing
use Prim.Native.String.{String}
use aca_social.Base.{
  ℕ, ◌+◌, Bool, true, false, not, ◌&&◌, ◌||◌, Option, none, some, List, [], ◌∷◌, ◌++◌, ◌==◌,
  if◌then◌else◌, str_eq, includes, is_some, or_else,
}
use aca_social.Store.{
  GatewayUser, Discussion, PendingRevision, ModerationReview, Decision, ModerationStatus,
  Visibility, PostStatus, RevokeReason, Db, is_staff, is_pending, is_visible, is_solved,
  same_moderation, Action, bad_request, forbidden, conflict, pure, throw_if, modify, when, branch,
  transaction, ◌>>=◌, ◌>>◌,
}
use aca_social.Policy.{authenticated, lock_post}
use aca_social.Rooms.{managed_room_ids}
use aca_social.Media.{MediaReference, validate}
use aca_social.Mentions.{is_space}
use aca_social.Tags.{require_tags, recount}
use aca_social.Acceptance.{save_post, revoke_rows}
use Prim.Native.Char.{code}

-- `trim()`
unfoldable pub trim_start : String → String
trim_start String.[] = String.[]
trim_start (String.◌∷◌ c s) = if is_space (code c) then trim_start s else String.◌∷◌ c s

abbrev pub is_empty : String → Bool
is_empty String.[] = true
is_empty (String.◌∷◌ c s) = false

unfoldable pub trim_end : String → String
trim_end String.[] = String.[]
trim_end (String.◌∷◌ c s) =
    let rest = trim_end s in
    if is_empty rest && is_space (code c) then String.[] else String.◌∷◌ c rest

unfoldable pub trim : String → String
trim s = trim_end (trim_start s)

pub record ReviewContentDto : Type 0 where
  pub expected_moderation_status : Option ModerationStatus
  pub decision : Decision
  pub expected_version : ℕ
  pub expected_content : String
  pub note : Option String

abbrev pub is_allow : Decision → Bool
is_allow Decision.allow = true
is_allow _ = false

-- `dto.note?.trim() ?? ''`
abbrev pub note_of : Option String → String
note_of none = ""
note_of (some s) = trim s

abbrev pub is_nil : List ℕ → Bool
is_nil [] = true
is_nil (_ ∷ _) = false

-- `null` for staff, otherwise the rooms that the user manages, at least one.
unfoldable pub scope : GatewayUser → Action (Option (List ℕ))
scope user = do
  authenticated user
  branch (is_staff user.role) (pure none)
      (do ids ← managed_room_ids user; throw_if (is_nil ids) forbidden; pure (some ids))

abbrev pub in_scope : Option (List ℕ) → Option ℕ → Bool
in_scope none room = true
in_scope (some ids) none = false
in_scope (some ids) (some room) = includes ids room

-- The revision under review: a pending post's, if it has one.
abbrev pub draft_of : Discussion → Option PendingRevision
draft_of p = if is_pending p.moderation_status then p.pending_revision else none

abbrev content_or : Option PendingRevision → String → String
content_or none content = content
content_or (some r) content = r.content

-- The content that the reviewer was shown.
abbrev pub shown_content : Discussion → String
shown_content p = content_or (draft_of p) p.content

-- What was reviewed is no longer what is there.
abbrev pub is_outdated : ReviewContentDto → Discussion → Bool
is_outdated dto p =
    not (
      same_moderation p.moderation_status
        (or_else dto.expected_moderation_status ModerationStatus.pending))
    || (not (p.content_version == dto.expected_version)
        || not (str_eq (shown_content p) dto.expected_content))

-- `draft ? draft.mediaIds : …`, and the same for the tags
abbrev pub draft_media : Option PendingRevision → Discussion → List ℕ
draft_media none p = p.media
draft_media (some r) p = r.media_ids

abbrev pub draft_tags : Option PendingRevision → Discussion → List ℕ
draft_tags none p = p.tags
draft_tags (some r) p = r.tag_ids

abbrev pub with_draft : Option PendingRevision → Discussion → Discussion
with_draft none p = p
with_draft (some r) p = record p {
  title = r.title;
  content = r.content;
  is_anonymous = r.is_anonymous;
  tags = r.tag_ids;
  media = r.media_ids;
  pending_revision = none;
}

-- The post object after the decision, before its acceptance is looked at.
unfoldable pub decided : Decision → Discussion → Discussion
decided decision p =
    if is_allow decision
    then record (with_draft (draft_of p) p) {
      moderation_status = ModerationStatus.approved;
      visibility = Visibility.visible;
    }
    else if is_some (draft_of p) && is_visible p.visibility
    then record p { moderation_status = ModerationStatus.approved }
    else record p { moderation_status = ModerationStatus.hidden; visibility = Visibility.hidden }

abbrev pub is_hidden : Visibility → Bool
is_hidden Visibility.hidden = true
is_hidden _ = false

-- `(dto.decision === 'allow' && draft) || post.visibility === 'hidden'`
abbrev pub takes_back : Decision → Discussion → Bool
takes_back decision p =
    (is_allow decision && is_some (draft_of p)) || is_hidden (decided decision p).visibility

unfoldable pub reviewed : Decision → String → Discussion → Discussion
reviewed decision note p =
    let q = record (decided decision p) { moderation_note = note } in
    if takes_back decision p
    then record q {
      accepted_answer_id = none;
      accepted_comment_id = none;
      status = if is_solved q.status then PostStatus.opened else q.status;
    }
    else q

abbrev reason : Option PendingRevision → RevokeReason
reason none = RevokeReason.moderation_hidden
reason (some _) = RevokeReason.question_edited

abbrev pub review_row : ReviewContentDto → ℕ → Discussion → ModerationReview
review_row dto actor p = record {
  entity_id = p.id;
  content_version = p.content_version;
  decision = dto.decision;
  note = note_of dto.note;
  reviewer_id = actor;
}

abbrev pub add_review : ModerationReview → Db → Db
add_review r db = record db { reviews = db.reviews ++ r ∷ [] }

-- A draft that is allowed has active tags, which are then counted.
unfoldable pub apply_tags : Option PendingRevision → Discussion → Action (Unit {0})
apply_tags none p = pure tt
apply_tags (some r) p = do require_tags r.tag_ids; modify (recount p.tags r.tag_ids)

unfoldable pub check_allowed : MediaReference → Decision → Discussion → Action (Unit {0})
check_allowed media decision p =
    branch (is_allow decision)
      (do validate media (some (draft_media (draft_of p) p)) none; apply_tags (draft_of p) p)
      (pure tt)

unfoldable pub review :
    MediaReference → ℕ → ReviewContentDto → GatewayUser → Action ModerationStatus
review media id dto user = do
  actor ← authenticated user
  rooms ← scope user
  throw_if (not (is_allow dto.decision) && is_empty (note_of dto.note)) bad_request
  transaction (do
    post ← lock_post id
    throw_if (not (in_scope rooms post.room_id)) forbidden
    throw_if (is_outdated dto post) conflict
    check_allowed media dto.decision post
    when (takes_back dto.decision post) (modify (revoke_rows id actor (reason (draft_of post))))
    modify (save_post (reviewed dto.decision (note_of dto.note) post))
    modify (add_review (review_row dto actor post))
    pure (reviewed dto.decision (note_of dto.note) post).moderation_status)
