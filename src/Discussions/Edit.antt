-- ===== src/Discussions/Edit.antt =====
-- Editing a post: `update`. Where the room reviews posts, a visible post keeps its published version
-- while the edit waits as its pending revision.
use aca_social.Base.{
  ℕ, ◌+◌, Bool, true, false, not, ◌&&◌, ◌||◌, Option, none, some, List, [], ◌==◌, if◌then◌else◌,
  String, str_eq, is_some, or_else,
}
use aca_social.Store.{
  GatewayUser, Discussion, PendingRevision, PostStatus, RevisionType, RevokeReason,
  ModerationStatus, Visibility, is_visible, Action, conflict, pure, throw_if, modify, when, branch,
  transaction_with_rooms, ◌>>=◌, ◌>>◌,
}
use aca_social.Policy.{authenticated, require_manager, require_open, lock_post}
use aca_social.Media.{MediaReference, validate}
use aca_social.Tags.{distinct, require_tags, recount}
use aca_social.Rooms.{assert_can_post}
use aca_social.Acceptance.{save_post, revoke_rows}
use aca_social.Discussions.Create.{revision_of, add_revision, find_one}

pub record UpdateDiscussionDto : Type 0 where
  pub expected_version : Option ℕ
  pub revision_type : Option RevisionType
  pub title : Option String
  pub content : Option String
  pub tag_ids : Option (List ℕ)
  pub media_ids : Option (List ℕ)
  pub is_anonymous : Option Bool

abbrev pub distinct_tags : Option (List ℕ) → Option (List ℕ)
distinct_tags none = none
distinct_tags (some ids) = some (distinct [] ids)

-- `policy?.requiresApproval`, with the author in the place of the user
unfoldable pub requires_approval : Option ℕ → GatewayUser → Action Bool
requires_approval none user = pure false
requires_approval (some room) user = do c ← assert_can_post room user; pure c.requires_approval

-- `dto.expectedVersion !== undefined && contentVersion !== dto.expectedVersion`
abbrev pub is_stale : Option ℕ → ℕ → Bool
is_stale none version = false
is_stale (some expected) version = not (version == expected)

abbrev pub new_text : Option String → String → Bool
new_text none old = false
new_text (some new) old = not (str_eq new old)

abbrev same_bool : Bool → Bool → Bool
same_bool true b = b
same_bool false b = not b

abbrev pub new_flag : Option Bool → Bool → Bool
new_flag none old = false
new_flag (some new) old = not (same_bool new old)

unfoldable pub content_changed : UpdateDiscussionDto → Discussion → Bool
content_changed dto post =
    new_text dto.title post.title
    || (new_text dto.content post.content
        || (is_some dto.tag_ids
            || (is_some dto.media_ids
                || (new_flag dto.is_anonymous post.is_anonymous
                    || (is_some post.pending_revision
                        && (is_some dto.title || is_some dto.content))))))

abbrev pub previous_or : {A : Type 0} → Option PendingRevision → (PendingRevision → A) → A → A
previous_or none f a = a
previous_or (some r) f a = f r

-- `dto.x ?? previous?.x ?? post.x`, for each field
abbrev pub staged_revision : UpdateDiscussionDto → Option (List ℕ) → Discussion → PendingRevision
staged_revision dto tags post =
    let old = post.pending_revision in
    record {
      title = or_else dto.title (previous_or old (λ r. r.title) post.title);
      content = or_else dto.content (previous_or old (λ r. r.content) post.content);
      is_anonymous =
          or_else dto.is_anonymous (previous_or old (λ r. r.is_anonymous) post.is_anonymous);
      tag_ids = or_else tags (previous_or old (λ r. r.tag_ids) post.tags);
      media_ids = or_else dto.media_ids (previous_or old (λ r. r.media_ids) post.media);
    }

abbrev pub staged : UpdateDiscussionDto → Option (List ℕ) → Discussion → Discussion
staged dto tags post = record post {
  pending_revision = some (staged_revision dto tags post);
  content_version = post.content_version + 1;
  moderation_status = ModerationStatus.pending;
  moderation_note = "";
}

unfoldable pub require_new_tags : Option (List ℕ) → Action (Unit {0})
require_new_tags none = pure tt
require_new_tags (some ids) = require_tags ids

abbrev pub type_of : UpdateDiscussionDto → RevisionType
type_of dto = or_else dto.revision_type RevisionType.semantic

unfoldable pub stage : UpdateDiscussionDto → Option (List ℕ) → ℕ → Discussion → Action (Unit {0})
stage dto tags editor post = do
  require_new_tags tags
  modify (save_post (staged dto tags post))
  let r = staged_revision dto tags post
  modify (
      add_revision
        (revision_of post.id (post.content_version + 1) r.title r.content (type_of dto) editor))

-- `post.acceptedAnswerId = null; post.acceptedCommentId = null`, each with `post.status = OPEN`
abbrev pub unsolved : Discussion → Discussion
unsolved p =
    if is_some p.accepted_answer_id || is_some p.accepted_comment_id
    then record p {
      accepted_answer_id = none;
      accepted_comment_id = none;
      status = PostStatus.opened;
    }
    else p

-- The post object after `update` assigned what was given, and after the edit of its content.
abbrev pub assigned : UpdateDiscussionDto → Option (List ℕ) → Discussion → Discussion
assigned dto tags p = record p {
  title = or_else dto.title p.title;
  content = or_else dto.content p.content;
  is_anonymous = or_else dto.is_anonymous p.is_anonymous;
  tags = or_else tags p.tags;
  media = or_else dto.media_ids p.media;
}

abbrev pub republished : Bool → Discussion → Discussion
republished approval p = unsolved (record p {
  content_version = p.content_version + 1;
  moderation_status = ModerationStatus.pending;
  visibility =
      if approval || not (is_visible p.visibility) then Visibility.held else Visibility.visible;
  pending_revision = none;
  moderation_note = "";
})

unfoldable pub publish :
    UpdateDiscussionDto → Option (List ℕ) → Bool → ℕ → Discussion → Action (Unit {0})
publish dto tags approval editor post = do
  require_new_tags tags
  modify (recount post.tags (or_else tags post.tags))
  let p = assigned dto tags post
  branch (content_changed dto post)
      (do
        modify (
            add_revision
              (revision_of p.id (p.content_version + 1) p.title p.content (type_of dto) editor))
        when (is_some post.accepted_answer_id)
            (modify (revoke_rows post.id editor RevokeReason.question_edited))
        modify (save_post (republished approval p)))
      (modify (save_post p))

unfoldable pub update : MediaReference → ℕ → GatewayUser → UpdateDiscussionDto → Action Discussion
update media id user dto = do
  editor ← authenticated user
  validate media dto.media_ids (some editor)
  let tags = distinct_tags dto.tag_ids
  transaction_with_rooms (do
    post ← lock_post id
    require_manager post.author_id user
    require_open post
    approval ← requires_approval post.room_id (record user { id = some post.author_id })
    throw_if (is_some post.pending_revision && not (is_some dto.expected_version)) conflict
    throw_if (is_stale dto.expected_version post.content_version) conflict
    branch
        (content_changed dto post
          && ((approval || is_some post.pending_revision) && is_visible post.visibility))
        (stage dto tags editor post) (publish dto tags approval editor post))
  find_one id user false
