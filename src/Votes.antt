-- ===== src/Votes.antt =====
-- services/discussion-service/src/votes/votes.service.ts: casting and clearing a vote, and the
-- counters that are cached on its target.
pub mod Voting
pub mod Counters
pub mod OneVote
use aca_social.Base.{
  ℕ, Bool, true, false, ◌&&◌, Option, none, some, [], ◌∷◌, ◌++◌, List, ◌==◌, if◌then◌else◌, is_some,
  find?, replace, count, delete, update,
}
use aca_social.Store.{
  GatewayUser, Discussion, Comment, Answer, Vote, TargetType, VoteType, same_target, same_vote, Db,
  answer_is, Action, bad_request, pure, gets, fetch, throw_if, modify, transaction, ◌>>=◌, ◌>>◌,
}
use aca_social.Policy.{authenticated, require_open, require_approved, lock_post, lock_comment_post}
use aca_social.Rooms.{find_one}

-- The post to lock, and the author of what is voted on.
unfoldable pub lock_target : TargetType → ℕ → Action (Discussion × ℕ)
lock_target TargetType.discussion id = do post ← lock_post id; pure (post, post.author_id)
lock_target TargetType.comment id = do
  (post, comment) ← lock_comment_post id
  pure (post, comment.author_id)
lock_target TargetType.answer id = do
  found ← fetch (λ db. find? (answer_is id) db.answers) bad_request
  post ← lock_post found.discussion_id
  locked ← fetch (λ db. find? (answer_is id) db.answers) bad_request
  pure (post, locked.author_id)

-- `if (post.roomId) await this.rooms.findOne(post.roomId, user)`
unfoldable pub enter_room : Option ℕ → GatewayUser → Action (Unit {0})
enter_room none user = pure tt
enter_room (some room) user = do find_one room user; pure tt

-- `{ userId, targetType, targetId }`
abbrev pub vote_of : ℕ → TargetType → ℕ → Vote → Bool
vote_of user type id v =
    (v.user_id == user) && (same_target v.target_type type && (v.target_id == id))

-- `vote_type = $1 AND target_type = $3 AND target_id = $4`
abbrev pub vote_for : VoteType → TargetType → ℕ → Vote → Bool
vote_for vote type id v =
    same_vote v.vote_type vote && (same_target v.target_type type && (v.target_id == id))

abbrev pub new_vote : ℕ → TargetType → ℕ → VoteType → Vote
new_vote user type id vote = record {
  user_id = user;
  target_type = type;
  target_id = id;
  vote_type = vote;
}

-- `save` of the row of the key, or `delete`
unfoldable pub put_vote : ℕ → TargetType → ℕ → Option VoteType → List Vote → List Vote
put_vote user type id none votes = delete (vote_of user type id) votes
put_vote user type id (some vote) votes =
    if is_some (find? (vote_of user type id) votes)
    then replace (vote_of user type id) (new_vote user type id vote) votes
    else votes ++ new_vote user type id vote ∷ []

-- `update(…, targetId, { upvoteCount, downvoteCount })`, on the table of the target's type
unfoldable pub set_counts : TargetType → ℕ → ℕ → ℕ → Db → Db
set_counts TargetType.discussion id up down db = record db {
  discussions =
      update (λ d. d.id == id) (λ d. record d { upvote_count = up; downvote_count = down })
        db.discussions;
}
set_counts TargetType.comment id up down db = record db {
  comments =
      update (λ c. c.id == id) (λ c. record c { upvote_count = up; downvote_count = down })
        db.comments;
}
set_counts TargetType.answer id up down db = record db {
  answers =
      update (λ a. a.id == id) (λ a. record a { upvote_count = up; downvote_count = down })
        db.answers;
}

abbrev pub votes_on : VoteType → TargetType → ℕ → Db → ℕ
votes_on vote type id db = count (vote_for vote type id) db.votes

pub record VoteResult : Type 0 where
  pub vote_type : Option VoteType
  pub upvote_count : ℕ
  pub downvote_count : ℕ

-- The rows that a vote writes: the vote, and then the counters, which are counted anew.
unfoldable pub save_vote : ℕ → TargetType → ℕ → Option VoteType → Db → Db
save_vote user type id vote db = record db { votes = put_vote user type id vote db.votes }

abbrev pub save_counts : TargetType → ℕ → Db → Db
save_counts type id db =
    set_counts type id (votes_on VoteType.upvote type id db) (votes_on VoteType.downvote type id db)
      db

unfoldable pub set_vote : TargetType → ℕ → GatewayUser → Option VoteType → Action VoteResult
set_vote type id user vote = do
  user_id ← authenticated user
  transaction (do
    (post, author) ← lock_target type id
    require_open post
    require_approved post
    enter_room post.room_id user
    throw_if (author == user_id) bad_request
    modify (save_vote user_id type id vote)
    up ← gets (votes_on VoteType.upvote type id)
    down ← gets (votes_on VoteType.downvote type id)
    modify (set_counts type id up down)
    pure (record { vote_type = vote; upvote_count = up; downvote_count = down }))

unfoldable pub cast_vote : TargetType → ℕ → GatewayUser → VoteType → Action VoteResult
cast_vote type id user vote = set_vote type id user (some vote)

unfoldable pub remove_vote : TargetType → ℕ → GatewayUser → Action VoteResult
remove_vote type id user = set_vote type id user none
