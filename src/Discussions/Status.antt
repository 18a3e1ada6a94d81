-- ===== src/Discussions/Status.antt =====
-- The status of a post, and the comment that a question accepts: `acceptAnswer`,
-- `removeAcceptedAnswer` and `setStatus`.
use aca_social.Base.{
  ℕ, Bool, true, false, not, ◌&&◌, ◌||◌, some, ◌==◌, if◌then◌else◌, is_id, is_some, find?,
}
use aca_social.Store.{
  GatewayUser, Discussion, PostStatus, is_staff, is_question, is_solved, comment_is,
  comment_accepted, Action, bad_request, forbidden, not_found, fetch, throw_if, modify, when,
  transaction, ◌>>=◌, ◌>>◌,
}
use aca_social.Outbox.{emit}
use aca_social.Policy.{authenticated, require_open, require_approved, lock_post}
use aca_social.Acceptance.{save_post}
use aca_social.Comments.{not_accepted}
use aca_social.Discussions.Create.{find_one}

unfoldable pub require_question_owner : Discussion → GatewayUser → Action (Unit {0})
require_question_owner post user = do
  throw_if (not (is_question post.post_type)) bad_request
  throw_if (not (is_id user.id post.author_id)) forbidden

abbrev pub solved_by_comment : ℕ → Discussion → Discussion
solved_by_comment comment p = record p {
  accepted_comment_id = some comment;
  status = PostStatus.solved;
}

-- `acceptAnswer`
unfoldable pub accept_comment : ℕ → GatewayUser → ℕ → Action Discussion
accept_comment id user comment_id = do
  authenticated user
  transaction (do
    post ← lock_post id
    require_approved post
    require_question_owner post user
    require_open post
    answer ← fetch (λ db. find? (comment_is comment_id) db.comments) not_found
    throw_if (not (answer.discussion_id == id) || is_some answer.parent_comment_id) bad_request
    throw_if (answer.author_id == post.author_id) bad_request
    when (not (is_id post.accepted_comment_id answer.id)) (do
      modify (save_post (solved_by_comment answer.id post))
      emit (comment_accepted answer.id id answer.author_id)))
  find_one id user false

-- `removeAcceptedAnswer`
unfoldable pub remove_accepted_comment : ℕ → GatewayUser → Action Discussion
remove_accepted_comment id user = do
  authenticated user
  transaction (do
    post ← lock_post id
    require_question_owner post user
    require_open post
    modify (save_post (not_accepted post)))
  find_one id user false

abbrev pub is_opened : PostStatus → Bool
is_opened PostStatus.opened = true
is_opened _ = false

-- A post that is reopened is solved if a comment is accepted.
abbrev pub status_set : PostStatus → Discussion → Discussion
status_set status p = record p {
  status = if is_opened status && is_some p.accepted_comment_id then PostStatus.solved else status;
}

unfoldable pub set_status : ℕ → GatewayUser → PostStatus → Action Discussion
set_status id user status = do
  authenticated user
  throw_if (is_solved status) bad_request
  throw_if (not (is_staff user.role)) forbidden
  transaction (do post ← lock_post id; modify (save_post (status_set status post)))
  find_one id user false
