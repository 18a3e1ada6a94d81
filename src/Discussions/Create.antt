-- ===== src/Discussions/Create.antt =====
-- Reading, creating and deleting a post: `findOne`, `create` and `remove`.
use aca_social.Base.{
  ℕ, ◌+◌, Bool, true, false, not, Option, none, some, List, [], ◌∷◌, ◌++◌, ◌==◌, if◌then◌else◌,
  String, or_else, find?, update as update_rows,
}
use aca_social.Store.{
  GatewayUser, Discussion, DiscussionRevision, RoomAcademicBinding, PostType, PostStatus,
  RevisionType, ModerationStatus, Visibility, Db, post_is, discussion_created, discussion_deleted,
  Action, bad_request, not_found, pure, fetch, lift, throw_if, modify, when, new_id, transaction,
  ◌>>=◌, ◌>>◌,
}
use aca_social.Outbox.{emit}
use aca_social.Policy.{authenticated, require_readable, require_manager, lock_post}
use aca_social.Media.{MediaReference, validate}
use aca_social.Tags.{distinct, require_tags, recount}
use aca_social.Rooms.{AcademicReference, AcademicContext, PostingContext, assert_can_post}
use aca_social.Votes.{enter_room}
use aca_social.Acceptance.{save_post}

pub record CreateDiscussionDto : Type 0 where
  pub room_id : ℕ
  pub curriculum_course_id : Option ℕ
  pub title : String
  pub content : String
  pub post_type : PostType
  pub tag_ids : Option (List ℕ)
  pub media_ids : Option (List ℕ)
  pub is_anonymous : Option Bool

-- `increment({ id }, 'viewCount', 1)`
abbrev pub count_view : ℕ → Db → Db
count_view id db = record db {
  discussions =
      update_rows (λ d. d.id == id) (λ d. record d { view_count = d.view_count + 1 })
        db.discussions;
}

-- `findOne`, without the presentation of what it read.
unfoldable pub find_one : ℕ → GatewayUser → Bool → Action Discussion
find_one id user counts = do
  post ← fetch (λ db. find? (post_is id) db.discussions) not_found
  require_readable post user
  enter_room post.room_id user
  when counts (modify (count_view id))
  pure post

unfoldable pub context_of : AcademicReference → Option ℕ → Action (Option AcademicContext)
context_of academic none = pure none
context_of academic (some id) = do c ← lift (academic.context id); pure (some c)

-- `selectedContext && binding?.majorId && selectedContext.majorId !== binding.majorId`
abbrev pub wrong_major : Option AcademicContext → Option RoomAcademicBinding → Bool
wrong_major (some c) (some b) = not (c.major_id == b.major_id)
wrong_major _ _ = false

abbrev pub differs : ℕ → Option ℕ → Bool
differs id none = false
differs id (some other) = not (id == other)

abbrev pub wrong_course : Option AcademicContext → Option RoomAcademicBinding → Bool
wrong_course (some c) (some b) = differs c.curriculum_course_id b.curriculum_course_id
wrong_course _ _ = false

-- `selectedContext?.x ?? binding?.x ?? null`
abbrev pub chosen :
    (AcademicContext → ℕ)
    → (RoomAcademicBinding → Option ℕ)
    → Option AcademicContext
    → Option RoomAcademicBinding
    → Option ℕ
chosen f g (some c) b = some (f c)
chosen f g none none = none
chosen f g none (some b) = g b

abbrev pub new_post :
    ℕ → ℕ → CreateDiscussionDto → List ℕ → Option AcademicContext → PostingContext → Discussion
new_post id author dto tags context room = record {
  id = id;
  room_id = some dto.room_id;
  major_id = chosen (λ c. c.major_id) (λ b. some b.major_id) context room.binding;
  curriculum_id = chosen (λ c. c.curriculum_id) (λ b. b.curriculum_id) context room.binding;
  course_id = chosen (λ c. c.course_id) (λ b. b.course_id) context room.binding;
  curriculum_course_id =
      chosen (λ c. c.curriculum_course_id) (λ b. b.curriculum_course_id) context room.binding;
  title = dto.title;
  content = dto.content;
  post_type = dto.post_type;
  status = PostStatus.opened;
  author_id = author;
  is_anonymous = or_else dto.is_anonymous false;
  upvote_count = 0;
  downvote_count = 0;
  comment_count = 0;
  answer_count = 0;
  view_count = 0;
  accepted_comment_id = none;
  accepted_answer_id = none;
  content_version = 1;
  moderation_status = ModerationStatus.pending;
  visibility = if room.requires_approval then Visibility.held else Visibility.visible;
  moderation_note = "";
  pending_revision = none;
  tags = tags;
  media = or_else dto.media_ids [];
  deleted = false;
}

abbrev pub revision_of : ℕ → ℕ → String → String → RevisionType → ℕ → DiscussionRevision
revision_of post version title content type editor = record {
  discussion_id = post;
  content_version = version;
  title = title;
  content = content;
  revision_type = type;
  edited_by = editor;
}

abbrev pub add_post : Discussion → Db → Db
add_post d db = record db { discussions = db.discussions ++ d ∷ [] }

abbrev pub add_revision : DiscussionRevision → Db → Db
add_revision r db = record db { discussion_revisions = db.discussion_revisions ++ r ∷ [] }

unfoldable pub create :
    MediaReference → AcademicReference → GatewayUser → CreateDiscussionDto → Action Discussion
create media academic user dto = do
  author ← authenticated user
  validate media dto.media_ids (some author)
  context ← context_of academic dto.curriculum_course_id
  room ← assert_can_post dto.room_id user
  throw_if (wrong_major context room.binding) bad_request
  throw_if (wrong_course context room.binding) bad_request
  id ← transaction (do
    let tags = distinct [] (or_else dto.tag_ids [])
    require_tags tags
    id ← new_id
    modify (add_post (new_post id author dto tags context room))
    modify (recount [] tags)
    modify (add_revision (revision_of id 1 dto.title dto.content RevisionType.semantic author))
    emit (discussion_created id author)
    pure id)
  find_one id user false

unfoldable pub remove : ℕ → GatewayUser → Action (Unit {0})
remove id user = do
  authenticated user
  transaction (do
    post ← lock_post id
    require_manager post.author_id user
    modify (save_post (record post { deleted = true }))
    emit (discussion_deleted id post.room_id)
    modify (recount post.tags []))
