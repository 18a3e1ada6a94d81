-- ===== src/Tests/Runs.antt =====
-- Runs of the methods on the sample database.
use aca_social.Base.{◌≡◌, refl, none, some, [], ◌∷◌, find?, replace, count, update as update_rows}
use aca_social.Store.{
  Db, PostStatus, TargetType, VoteType, ok, err, bad_request, forbidden, post_is, steps,
}
use aca_social.Policy.{
  authenticated, require_open, require_approved, approved, lock_post, require_readable,
}
use aca_social.Rooms.{find_one}
use aca_social.Acceptance.{revoke_rows, revoke_acceptance}
use aca_social.Answers.{can_accept, remove_acceptance}
use aca_social.Discussions.{find_one as find_post, set_status}
use aca_social.Votes.{lock_target, enter_room, put_vote, save_vote, set_vote}
use aca_social.Tests.Sample.{question, sample, user, staff}

abbrev status_of : Db → PostStatus
status_of db = elim (find? (post_is 5) db.discussions) [
  | none ↦ PostStatus.opened
  | some q ↦ q.status
]

abbrev closed : Db
closed = record sample {
  discussions = record question { accepted_answer_id = some 7; status = PostStatus.closed } ∷ [];
}

-- A student whose question a moderator closed takes its accepted answer back: the question is open
-- again, though `setStatus` opens a question for staff only.
takes_back_reopens : status_of (remove_acceptance 5 (user 10) closed).1 ≡ PostStatus.opened
unfolding remove_acceptance authenticated steps find? replace lock_post can_accept revoke_acceptance
    revoke_rows update_rows
takes_back_reopens = refl

student_reopens : (set_status 5 (user 10) PostStatus.opened closed).0 ≡ err forbidden
unfolding set_status authenticated steps
student_reopens = refl

-- Staff open a closed question that has an accepted answer: it is open, not solved.
reopened_unsolved : status_of (set_status 5 staff PostStatus.opened closed).1 ≡ PostStatus.opened
unfolding set_status authenticated steps find? replace lock_post find_post require_readable approved
    enter_room find_one
reopened_unsolved = refl

own_answer :
    (set_vote TargetType.answer 7 (user 11) (some VoteType.upvote) sample).0 ≡ err bad_request
unfolding set_vote authenticated steps find? lock_target lock_post require_open require_approved
    approved enter_room find_one
own_answer = refl

upvoted :
    (set_vote TargetType.answer 7 (user 10) (some VoteType.upvote) sample).0
    ≡ ok (record { vote_type = some VoteType.upvote; upvote_count = 1; downvote_count = 0 })
unfolding set_vote authenticated steps find? lock_target lock_post require_open require_approved
    approved enter_room find_one save_vote put_vote count
upvoted = refl
