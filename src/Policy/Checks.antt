-- ===== src/Policy/Checks.antt =====
-- What the checks of content-policy.ts establish. They write nothing.
use aca_social.Base.{ℕ, ◌≡◌, refl, true, false, some, arith, find?}
use aca_social.Store.{
  GatewayUser, Db, Discussion, Comment, is_closed, post_is, comment_is, Checks, check-Ends,
  check_then-Ends, fetch-Ends, pure-Ends, last_throw_if-Ends, last_or_throw-Ends, last_fetch-Ends,
}
use aca_social.Policy.{
  authenticated, approved, require_approved, can_manage, require_manager, require_open, lock_post,
  lock_comment_post,
}

pub authenticated-Checks :
    (user : GatewayUser) (db : Db) → Checks (λ a. user.id ≡ some a) db (authenticated user db)
unfolding authenticated
authenticated-Checks user db = last_or_throw-Ends _ _ _ refl (λ a e. (refl, e))

pub require_open-Checks :
    (post : Discussion) (db : Db)
    → Checks (λ _. is_closed post.status ≡ false) db (require_open post db)
unfolding require_open
require_open-Checks post db = last_throw_if-Ends _ _ _ refl (λ e. (refl, e))

pub require_approved-Checks :
    (post : Discussion) (db : Db)
    → Checks
        (λ _. approved post.moderation_status post.visibility ≡ true)
        db
        (require_approved post db)
unfolding require_approved
require_approved-Checks post db = last_throw_if-Ends _ _ _ refl (λ e. (refl, ground arith))

pub require_manager-Checks :
    (author : ℕ) (user : GatewayUser) (db : Db)
    → Checks (λ _. can_manage author user ≡ true) db (require_manager author user db)
unfolding require_manager
require_manager-Checks author user db =
    check_then-Ends _ _ _ _ (authenticated-Checks user db) (λ e. refl)
      λ a _. last_throw_if-Ends _ _ _ refl (λ e. (refl, ground arith))

pub lock_post-Checks :
    (id : ℕ) (db : Db)
    → Checks (λ post. find? (post_is id) db.discussions ≡ some post) db (lock_post id db)
unfolding lock_post
lock_post-Checks id db = last_fetch-Ends _ _ _ refl (λ post e. (refl, e))

abbrev pub LockedComment : ℕ → Db → Discussion × Comment → Type 0
LockedComment id db (post, comment) =
    (find? (comment_is id) db.comments ≡ some comment)
    × (find? (post_is comment.discussion_id) db.discussions ≡ some post)

pub lock_comment_post-Checks :
    (id : ℕ) (db : Db) → Checks (LockedComment id db) db (lock_comment_post id db)
unfolding lock_comment_post
lock_comment_post-Checks id db = fetch-Ends _ _ _ _ refl λ c found.
    check-Ends _ _ _ _ (lock_post-Checks c.discussion_id db) (λ e. refl)
      λ post locked. fetch-Ends _ _ _ _ refl λ c' found'. pure-Ends _ _ (refl, (found', cc))
