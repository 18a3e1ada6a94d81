-- ===== src/Votes/Voting.antt =====
-- What setting a vote checks, and what it writes.
use aca_social.Base.{ℕ, ◌≡◌, refl, true, false, Option, none, some, ◌==◌, arith, find?}
use aca_social.Store.{
  GatewayUser, Db, Discussion, Comment, Answer, TargetType, VoteType, Error, Result, ok, err,
  is_closed, post_is, comment_is, answer_is, Ends, Checks, check-Ends, check_then-Ends, gets-Ends,
  fetch-Ends, throw_if-Ends, modify-Ends, pure-Ends, transaction-Ends,
}
use aca_social.Policy.{approved}
use aca_social.Policy.Checks.{
  authenticated-Checks, require_open-Checks, require_approved-Checks, lock_post-Checks,
  lock_comment_post-Checks,
}
use aca_social.Rooms.Checks.{Enters, find_one-Checks}
use aca_social.Votes.{
  VoteResult, lock_target, enter_room, save_vote, save_counts, set_vote, votes_on,
}

-- The target is there, with its author, on a post that is there.
abbrev pub Locks : TargetType → ℕ → Db → Discussion × ℕ → Type 0
Locks TargetType.discussion id db (post, author) =
    (find? (post_is id) db.discussions ≡ some post) × (post.author_id ≡ author)
Locks TargetType.comment id db (post, author) =
    (c : Comment) × (find? (comment_is id) db.comments ≡ some c)
    × (find? (post_is c.discussion_id) db.discussions ≡ some post)
    × (c.author_id ≡ author)
Locks TargetType.answer id db (post, author) =
    (a : Answer) × (find? (answer_is id) db.answers ≡ some a)
    × (find? (post_is a.discussion_id) db.discussions ≡ some post)
    × (a.author_id ≡ author)

lock_target-Checks :
    (type : TargetType) (id : ℕ) (db : Db) → Checks (Locks type id db) db (lock_target type id db)
unfolding lock_target
lock_target-Checks TargetType.discussion id db =
    check-Ends _ _ _ _ (lock_post-Checks id db) (λ e. refl)
      λ post found. pure-Ends _ _ (refl, (found, refl))
lock_target-Checks TargetType.comment id db =
    check-Ends _ _ _ _ (lock_comment_post-Checks id db) (λ e. refl)
      λ (post, c) (found, locked). pure-Ends _ _ (refl, (c, found, locked, refl))
lock_target-Checks TargetType.answer id db = fetch-Ends _ _ _ _ refl λ a found.
    check-Ends _ _ _ _ (lock_post-Checks a.discussion_id db) (λ e. refl)
      λ post locked.
        fetch-Ends _ _ _ _ refl λ a' found'. pure-Ends _ _ (refl, (a, found, locked, ground arith))

-- The user may read the room of the post, when it has one.
abbrev pub EntersAny : Option ℕ → GatewayUser → Db → Type 0
EntersAny none user db = Unit
EntersAny (some room) user db = Enters room user db

enter_room-Checks :
    (room : Option ℕ) (user : GatewayUser) (db : Db)
    → Checks (λ _. EntersAny room user db) db (enter_room room user db)
unfolding enter_room
enter_room-Checks none user db = pure-Ends _ _ (refl, tt)
enter_room-Checks (some room) user db =
    check_then-Ends _ _ _ _ (find_one-Checks room user db) (λ e. refl)
      λ _ enters. pure-Ends _ _ (refl, enters)

-- All that the service checks before a vote of `actor` is written.
pub record MayVote (type : TargetType) (id : ℕ) (user : GatewayUser) (actor : ℕ) (db : Db)
    : Type 0 where
  pub post : Discussion
  pub author : ℕ
  pub signed_in : user.id ≡ some actor
  pub locked : Locks type id db (post, author)
  pub is_open : is_closed post.status ≡ false
  pub is_approved : approved post.moderation_status post.visibility ≡ true
  pub enters : EntersAny post.room_id user db
  pub not_own : (author == actor) ≡ false

pub set_vote-Ends :
    {P : Result VoteResult → Db → Type 0} (type : TargetType) (id : ℕ) (user : GatewayUser)
    (vote : Option VoteType) (db : Db)
    → ((e : Error) → P (err e) db)
    → ((actor : ℕ)
        → MayVote type id user actor db
        → let db' = save_vote actor type id vote db in
          P
            (ok (record {
              vote_type = vote;
              upvote_count = votes_on VoteType.upvote type id db';
              downvote_count = votes_on VoteType.downvote type id db';
            }))
            (save_counts type id db'))
    → Ends P (set_vote type id user vote db)
unfolding set_vote
set_vote-Ends type id user vote db thrown saved =
    check-Ends _ _ _ _ (authenticated-Checks user db) thrown λ actor signed_in.
      transaction-Ends _ _ thrown (
        check-Ends _ _ _ _ (lock_target-Checks type id db) (λ e. tt)
          λ (post, author) locked.
            check_then-Ends _ _ _ _ (require_open-Checks post db) (λ e. tt)
              λ _ open_post.
                check_then-Ends _ _ _ _ (require_approved-Checks post db) (λ e. tt)
                  λ _ is_approved.
                    check_then-Ends _ _ _ _ (enter_room-Checks post.room_id user db) (λ e. tt)
                      λ _ enters. throw_if-Ends _ _ _ _ tt λ not_own. modify-Ends _ _ _ (
                        gets-Ends _ _ _ (
                          gets-Ends _ _ _ (
                            modify-Ends _ _ _ (
                              pure-Ends _ _ (
                                saved actor (record {
                                  post = post;
                                  author = author;
                                  signed_in = signed_in;
                                  locked = locked;
                                  is_open = open_post;
                                  is_approved = is_approved;
                                  enters = enters;
                                  not_own = not_own;
                                })))))))
