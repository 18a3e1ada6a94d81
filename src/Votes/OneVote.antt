-- ===== src/Votes/OneVote.antt =====
-- A user has at most one vote on a target, the one that was set last.
use aca_social.Base.{
  ℕ, ◌≤◌, ◌≡◌, refl, Option, none, some, List, arith, Bool-cases, find?, count, Option-cases, inl,
  inr, find?-satisfies, find?-replace, find?-append, find?-delete, count-replace, count-append,
  count_zero, count-delete_le, count-eq,
}
use aca_social.Store.{GatewayUser, Db, Vote, TargetType, VoteType, Result, ok, err, Ends}
use aca_social.Votes.{
  VoteResult, vote_of, new_vote, put_vote, set_counts, votes_on, save_vote, save_counts, set_vote,
}
use aca_social.Votes.Voting.{MayVote, set_vote-Ends}

-- The unique key of the table of votes.
abbrev pub IsOneVote : ℕ → TargetType → ℕ → List Vote → Type 0
IsOneVote user type id votes = count (vote_of user type id) votes ≤ 1

abbrev stored : ℕ → TargetType → ℕ → Option VoteType → Option Vote
stored user type id none = none
stored user type id (some vote) = some (new_vote user type id vote)

find?-put_vote :
    (user id : ℕ) (type : TargetType) (vote : Option VoteType) (votes : List Vote)
    → find? (vote_of user type id) (put_vote user type id vote votes) ≡ stored user type id vote
unfolding put_vote
find?-put_vote user id type none votes = ground (arith, find?-delete (vote_of user type id) votes)
find?-put_vote user id type (some vote) votes =
    elim (Option-cases (find? (vote_of user type id) votes)) [
      | inl absent ↦
          ground
            (arith, find?-append (vote_of user type id) (new_vote user type id vote) votes absent)
      | inr (old, found) ↦
          ground (
            arith,
            find?-replace (vote_of user type id) (new_vote user type id vote) votes old found,
          )
    ]

put_vote-IsOneVote :
    (user id : ℕ) (type : TargetType) (vote : Option VoteType) (votes : List Vote) (user' id' : ℕ)
    (type' : TargetType)
    → IsOneVote user' type' id' votes
    → IsOneVote user' type' id' (put_vote user type id vote votes)
unfolding put_vote
put_vote-IsOneVote user id type none votes user' id' type' one =
    omega (arith, count-delete_le (vote_of user type id) (vote_of user' type' id') votes)
put_vote-IsOneVote user id type (some vote) votes user' id' type' one =
    elim (Option-cases (find? (vote_of user type id) votes)) [
      | inl absent ↦ elim (Bool-cases (vote_of user' type' id' (new_vote user type id vote))) [
        | inl key ↦ ground (
          arith,
          count-append (vote_of user' type' id') (new_vote user type id vote) votes,
          count_zero (vote_of user type id) votes absent,
          count-eq (vote_of user' type' id') (vote_of user type id) votes (λ v. ground arith),
        )
        | inr other ↦
            ground
              (arith, count-append (vote_of user' type' id') (new_vote user type id vote) votes)
      ]
      | inr (old, found) ↦ ground (
        arith,
        find?-satisfies (vote_of user type id) votes old found,
        count-replace (vote_of user type id) (vote_of user' type' id') (new_vote user type id vote)
            votes old found,
      )
    ]

-- After a vote is set: it is the one vote of the user on the target, the answer repeats it with the
-- numbers of votes, and the target is open, approved and not the user's own.
abbrev pub Sets :
    TargetType → ℕ → GatewayUser → Option VoteType → Db → Result VoteResult → Db → Type 0
Sets type id user vote db (err e) db' = db' ≡ db
Sets type id user vote db (ok r) db' =
    (actor : ℕ) × MayVote type id user actor db
    × (find? (vote_of actor type id) db'.votes ≡ stored actor type id vote)
    × (r.vote_type ≡ vote)
    × (r.upvote_count ≡ votes_on VoteType.upvote type id db')
    × (r.downvote_count ≡ votes_on VoteType.downvote type id db')

votes-save_counts :
    (type : TargetType) (id : ℕ) (db : Db) → (save_counts type id db).votes ≡ db.votes
unfolding set_counts
votes-save_counts TargetType.discussion id db = refl
votes-save_counts TargetType.comment id db = refl
votes-save_counts TargetType.answer id db = refl

-- A call that returns was allowed, and stores exactly the vote that it was asked to store (or no
-- vote, when it was asked to clear it); it returns the numbers of votes that are then stored. A
-- call that throws changes nothing.
pub set_vote-Sets :
    (type : TargetType) (id : ℕ) (user : GatewayUser) (vote : Option VoteType) (db : Db)
    → let (r, db') = set_vote type id user vote db in Sets type id user vote db r db'
unfolding save_vote
set_vote-Sets type id user vote db =
    let ends : Ends (Sets type id user vote db) (set_vote type id user vote db) =
      set_vote-Ends type id user vote db (λ e. refl)
        (λ actor may.
          let same = votes-save_counts type id (save_vote actor type id vote db) in
          rw same ((actor, may, find?-put_vote actor id type vote db.votes, refl, refl, refl))) in
    ends.holds

-- Whatever vote is set by whoever, a user that had at most one vote on a target has at most one.
pub set_vote-IsOneVote :
    (type : TargetType) (id : ℕ) (user : GatewayUser) (vote : Option VoteType) (db : Db) (user' : ℕ)
    (type' : TargetType) (id' : ℕ)
    → IsOneVote user' type' id' db.votes
    → IsOneVote user' type' id' (set_vote type id user vote db).1.votes
unfolding save_vote
set_vote-IsOneVote type id user vote db user' type' id' one =
    let ends : Ends (λ _ db'. IsOneVote user' type' id' db'.votes) (set_vote type id user vote db) =
      set_vote-Ends type id user vote db (λ e. one)
        (λ actor may.
          let same = votes-save_counts type id (save_vote actor type id vote db) in
          rw same (put_vote-IsOneVote actor id type vote db.votes user' id' type' one)) in
    ends.holds
