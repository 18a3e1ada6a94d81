-- ===== src/Policy.antt =====
-- services/discussion-service/src/common/content-policy.ts: who may read, change and answer a post,
-- and the locks that every mutation takes first.
pub mod Checks
use aca_social.Base.{
  ℕ, Bool, true, false, not, ◌&&◌, ◌||◌, Option, none, some, ◌==◌, is_id, is_some, find?,
}
use aca_social.Store.{
  GatewayUser, Discussion, Comment, ModerationStatus, Visibility, is_staff, is_published,
  is_visible, is_closed, post_is, comment_is, Action, Error, unauthorized, forbidden, bad_request,
  not_found, pure, gets, or_throw, fetch, throw_if, ◌>>=◌, ◌>>◌,
}

unfoldable pub authenticated : GatewayUser → Action ℕ
authenticated user = or_throw user.id unauthorized

unfoldable pub approved : ModerationStatus → Visibility → Bool
approved status visibility = is_published status && is_visible visibility

-- `content.authorId !== user.id`: a guest has no identifier, so it is no author.
unfoldable pub require_readable : Discussion → GatewayUser → Action (Unit {0})
require_readable post user =
    throw_if
      (not (approved post.moderation_status post.visibility)
        && (not (is_staff user.role) && not (is_id user.id post.author_id)))
      not_found

unfoldable pub require_approved : Discussion → Action (Unit {0})
require_approved post = throw_if (not (approved post.moderation_status post.visibility)) bad_request

unfoldable pub can_manage : ℕ → GatewayUser → Bool
can_manage author user = is_some user.id && (is_id user.id author || is_staff user.role)

unfoldable pub require_manager : ℕ → GatewayUser → Action (Unit {0})
require_manager author user = do
  authenticated user
  throw_if (not (can_manage author user)) forbidden

unfoldable pub require_open : Discussion → Action (Unit {0})
require_open post = throw_if (is_closed post.status) bad_request

-- The row is locked until the transaction ends; transactions are modelled one after another.
unfoldable pub lock_post : ℕ → Action Discussion
lock_post id = fetch (λ db. find? (post_is id) db.discussions) not_found

-- The comment is read again after its post is locked.
unfoldable pub lock_comment_post : ℕ → Action (Discussion × Comment)
lock_comment_post id = do
  found ← fetch (λ db. find? (comment_is id) db.comments) not_found
  post ← lock_post found.discussion_id
  comment ← fetch (λ db. find? (comment_is id) db.comments) not_found
  pure (post, comment)
