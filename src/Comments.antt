-- ===== src/Comments.antt =====
-- services/discussion-service/src/comments/comments.service.ts: comments on a post, which a question
-- may accept as its answer too.
use aca_social.Base.{
  ℕ, ◌+◌, ◌-◌, Bool, true, false, not, ◌&&◌, Option, none, some, [], ◌∷◌, ◌++◌, ◌==◌, if◌then◌else◌,
  String, str_eq, is_id, is_some, or_else, find?, replace, update as update_rows,
}
use aca_social.Store.{
  GatewayUser, Discussion, Comment, PostStatus, ModerationStatus, Visibility, Db, comment_is,
  comment_created, Action, bad_request, pure, gets, throw_if, modify, when, new_id, transaction,
  transaction_with_rooms, ◌>>=◌, ◌>>◌,
}
use aca_social.Outbox.{emit}
use aca_social.Policy.{
  authenticated, require_open, require_approved, require_manager, lock_post, lock_comment_post,
}
use aca_social.Mentions.{Identity, emit_mentions}
use aca_social.Acceptance.{save_post}
use aca_social.Answers.{post_in_room, named}

pub record CreateCommentDto : Type 0 where
  pub content : String
  pub parent_comment_id : Option ℕ
  pub is_anonymous : Option Bool

pub record UpdateCommentDto : Type 0 where
  pub content : Option String
  pub is_anonymous : Option Bool

abbrev pub parent_comment : Option ℕ → Db → Option Comment
parent_comment none db = none
parent_comment (some id) db = find? (comment_is id) db.comments

abbrev pub is_in_post : ℕ → Option Comment → Bool
is_in_post post none = false
is_in_post post (some c) = c.discussion_id == post

abbrev pub comment_id : Option Comment → Option ℕ
comment_id none = none
comment_id (some c) = some c.id

abbrev pub author_or : Option Comment → ℕ → ℕ
author_or none author = author
author_or (some c) _ = c.author_id

abbrev pub new_comment : ℕ → ℕ → ℕ → Option Comment → CreateCommentDto → Comment
new_comment id post author parent dto = record {
  id = id;
  discussion_id = post;
  author_id = author;
  content = dto.content;
  parent_comment_id = comment_id parent;
  is_anonymous = or_else dto.is_anonymous false;
  upvote_count = 0;
  downvote_count = 0;
  moderation_status = ModerationStatus.approved;
  visibility = Visibility.visible;
  deleted = false;
}

abbrev pub add_comment : Comment → Db → Db
add_comment c db = record db { comments = db.comments ++ c ∷ [] }

abbrev pub save_comment : Comment → Db → Db
save_comment c db = record db { comments = replace (comment_is c.id) c db.comments }

-- `increment(Discussion, { id }, 'commentCount', 1)`
unfoldable pub count_comment : ℕ → Db → Db
count_comment post db = record db {
  discussions =
      update_rows (λ d. d.id == post) (λ d. record d { comment_count = d.comment_count + 1 })
        db.discussions;
}

unfoldable pub create : Identity → ℕ → GatewayUser → CreateCommentDto → Action Comment
create identity post_id user dto = do
  author ← authenticated user
  transaction_with_rooms (do
    post ← lock_post post_id
    require_open post
    require_approved post
    post_in_room post.room_id user
    parent ← gets (parent_comment dto.parent_comment_id)
    throw_if (is_some dto.parent_comment_id && not (is_in_post post_id parent)) bad_request
    id ← new_id
    let comment = new_comment id post_id author parent dto
    modify (add_comment comment)
    modify (count_comment post_id)
    let recipient = author_or parent post.author_id
    when (not (recipient == author))
        (emit (comment_created id post_id recipient (named comment.is_anonymous author)))
    emit_mentions identity comment.content author id post_id
    pure comment)

abbrev pub changes_content : Option String → String → Bool
changes_content none old = false
changes_content (some new) old = not (str_eq new old)

-- The comment object after `update` assigned its fields.
abbrev pub edited : UpdateCommentDto → Comment → Comment
edited dto c =
    let c' =
      if changes_content dto.content c.content
      then record c {
        content = or_else dto.content c.content;
        moderation_status = ModerationStatus.approved;
        visibility = Visibility.visible;
      }
      else c in
    record c' { is_anonymous = or_else dto.is_anonymous c.is_anonymous }

abbrev pub not_accepted : Discussion → Discussion
not_accepted p = record p { accepted_comment_id = none; status = PostStatus.opened }

unfoldable pub update : ℕ → GatewayUser → UpdateCommentDto → Action Comment
update id user dto = do
  authenticated user
  transaction (do
    (post, comment) ← lock_comment_post id
    require_open post
    require_manager comment.author_id user
    when (changes_content dto.content comment.content && is_id post.accepted_comment_id id)
        (modify (save_post (not_accepted post)))
    modify (save_comment (edited dto comment))
    pure (edited dto comment))

-- The post object after `remove` counted the comment off and took its acceptance back.
abbrev pub without_comment : ℕ → Discussion → Discussion
without_comment id p =
    let p' = record p { comment_count = p.comment_count - 1 } in
    if is_id p.accepted_comment_id id then not_accepted p' else p'

unfoldable pub remove : ℕ → GatewayUser → Action (Unit {0})
remove id user = do
  authenticated user
  transaction (do
    (post, comment) ← lock_comment_post id
    require_open post
    require_manager comment.author_id user
    modify (save_comment (record comment { deleted = true }))
    modify (save_post (without_comment id post)))
