-- ===== src/Votes/Counters.antt =====
-- The cached counters agree with the votes.
use aca_social.Base.{
  ℕ, ◌≡◌, Bool, false, ◌&&◌, Option, none, some, List, All, ◌==◌, arith, find?, count, Option-cases,
  inl, inr, find?-satisfies, count-replace, count-append, count-delete_other, All-map, All-update,
}
use aca_social.Store.{
  GatewayUser, Db, Vote, TargetType, VoteType, Discussion, Comment, Answer, same_target, Ends,
}
use aca_social.Votes.Voting.{set_vote-Ends}
use aca_social.Votes.{
  vote_of, vote_for, new_vote, put_vote, set_counts, save_vote, save_counts, set_vote,
}

-- The counters `up` and `down` are the numbers of the votes on the target.
abbrev pub Counted : List Vote → TargetType → ℕ → ℕ → ℕ → Type 0
Counted votes type id up down =
    (up ≡ count (vote_for VoteType.upvote type id) votes)
    × (down ≡ count (vote_for VoteType.downvote type id) votes)

abbrev pub PostCounted : List Vote → Discussion → Type 0
PostCounted votes d = Counted votes TargetType.discussion d.id d.upvote_count d.downvote_count

abbrev pub CommentCounted : List Vote → Comment → Type 0
CommentCounted votes c = Counted votes TargetType.comment c.id c.upvote_count c.downvote_count

abbrev pub AnswerCounted : List Vote → Answer → Type 0
AnswerCounted votes a = Counted votes TargetType.answer a.id a.upvote_count a.downvote_count

-- Every post, comment and answer, a deleted one too, shows the numbers of its votes.
pub record AllCounted (db : Db) : Type 0 where
  pub posts : All (PostCounted db.votes) db.discussions
  pub comments : All (CommentCounted db.votes) db.comments
  pub answers : All (AnswerCounted db.votes) db.answers

abbrev is_target : TargetType → ℕ → TargetType → ℕ → Bool
is_target type id type' id' = same_target type type' && (id == id')

-- A vote on one target leaves the votes on the others.
count-put_vote_other :
    (user id id' : ℕ) (type type' : TargetType) (vote : Option VoteType) (kind : VoteType)
    (votes : List Vote)
    → is_target type id type' id' ≡ false
    → count (vote_for kind type' id') (put_vote user type id vote votes)
      ≡ count (vote_for kind type' id') votes
unfolding put_vote
count-put_vote_other user id id' type type' none kind votes other =
    count-delete_other (vote_of user type id) (vote_for kind type' id') votes (λ v h. ground arith)
count-put_vote_other user id id' type type' (some vote) kind votes other =
    elim (Option-cases (find? (vote_of user type id) votes)) [
      | inl absent ↦
          ground (arith, count-append (vote_for kind type' id') (new_vote user type id vote) votes)
      | inr (old, found) ↦ ground (
        arith,
        find?-satisfies (vote_of user type id) votes old found,
        count-replace (vote_of user type id) (vote_for kind type' id') (new_vote user type id vote)
            votes old found,
      )
    ]

Counted-put_vote_other :
    (user id id' : ℕ) (type type' : TargetType) (vote : Option VoteType) (votes : List Vote)
    (up down : ℕ)
    → is_target type id type' id' ≡ false
    → Counted votes type' id' up down
    → Counted (put_vote user type id vote votes) type' id' up down
Counted-put_vote_other user id id' type type' vote votes up down other (u, d) = (
  ground (arith, count-put_vote_other user id id' type type' vote VoteType.upvote votes other),
  ground (arith, count-put_vote_other user id id' type type' vote VoteType.downvote votes other),
)

-- The counters that are written are right for the target, and the others still are.
recounted :
    (user id : ℕ) (type : TargetType) (vote : Option VoteType) (db : Db)
    → AllCounted db
    → AllCounted (save_counts type id (save_vote user type id vote db))
unfolding set_counts save_vote
recounted user id TargetType.discussion vote db all = record {
  posts =
      All-update (λ d. d.id == id) _ db.discussions (λ d is c. ground arith)
        (λ d not_it c.
          Counted-put_vote_other user id d.id TargetType.discussion TargetType.discussion vote
            db.votes _ _ (ground arith) c)
        all.posts;
  comments =
      All-map db.comments
        (λ x c.
          Counted-put_vote_other user id x.id TargetType.discussion TargetType.comment vote db.votes
            _ _ (ground arith) c)
        all.comments;
  answers =
      All-map db.answers
        (λ x c.
          Counted-put_vote_other user id x.id TargetType.discussion TargetType.answer vote db.votes
            _ _ (ground arith) c)
        all.answers;
}
recounted user id TargetType.comment vote db all = record {
  posts =
      All-map db.discussions
        (λ x c.
          Counted-put_vote_other user id x.id TargetType.comment TargetType.discussion vote db.votes
            _ _ (ground arith) c)
        all.posts;
  comments =
      All-update (λ x. x.id == id) _ db.comments (λ x is c. ground arith)
        (λ x not_it c.
          Counted-put_vote_other user id x.id TargetType.comment TargetType.comment vote db.votes _
            _ (ground arith) c)
        all.comments;
  answers =
      All-map db.answers
        (λ x c.
          Counted-put_vote_other user id x.id TargetType.comment TargetType.answer vote db.votes _ _
            (ground arith) c)
        all.answers;
}
recounted user id TargetType.answer vote db all = record {
  posts =
      All-map db.discussions
        (λ x c.
          Counted-put_vote_other user id x.id TargetType.answer TargetType.discussion vote db.votes
            _ _ (ground arith) c)
        all.posts;
  comments =
      All-map db.comments
        (λ x c.
          Counted-put_vote_other user id x.id TargetType.answer TargetType.comment vote db.votes _ _
            (ground arith) c)
        all.comments;
  answers =
      All-update (λ x. x.id == id) _ db.answers (λ x is c. ground arith)
        (λ x not_it c.
          Counted-put_vote_other user id x.id TargetType.answer TargetType.answer vote db.votes _ _
            (ground arith) c)
        all.answers;
}

-- Setting, changing or clearing a vote keeps the counters of every post, comment and answer equal
-- to the numbers of the upvotes and downvotes that are stored for it.
pub set_vote-AllCounted :
    (type : TargetType) (id : ℕ) (user : GatewayUser) (vote : Option VoteType) (db : Db)
    → AllCounted db
    → AllCounted (set_vote type id user vote db).1
set_vote-AllCounted type id user vote db all =
    let ends : Ends (λ _ db'. AllCounted db') (set_vote type id user vote db) =
      set_vote-Ends type id user vote db (λ e. all)
        (λ actor may. recounted actor id type vote db all) in
    ends.holds
