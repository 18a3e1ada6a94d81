-- ===== src/Tests/Examples.antt =====
-- The theorems at concrete inputs.
use aca_social.Base.{
  ℕ, List, ◌≡◌, refl, true, false, none, some, [], ◌∷◌, ◌≤◌, arith, inr, find?, count,
}
use aca_social.Store.{
  TargetType, VoteType, MemberRole, MemberStatus, RoomMembership, PostPermission, err, not_found,
  Ends, is_active, membership_of, Decision, ok, steps,
}
use aca_social.Policy.{authenticated}
use aca_social.Rooms.{
  UpdateMembershipDto, assert_can_post, update_membership, insert_or_ignore, post_permission,
  has_expired, AcademicReference, PostingContext,
}
use aca_social.Rooms.Owners.{IsOwned, active_owners, update_membership-keeps_owner}
use aca_social.Rooms.Posting.{assert_can_post_agrees, assert_can_post_needs_member}
use aca_social.Rooms.Lifecycle.{Call, run, run-IsOwned}
use aca_social.Votes.Counters.{AllCounted, set_vote-AllCounted}
use aca_social.Votes.OneVote.{Sets, IsOneVote, set_vote-Sets, set_vote-IsOneVote}
use aca_social.Votes.{set_vote}
use aca_social.Answers.{AcceptAnswerDto}
use aca_social.Answers.Accepting.{AllAgree, run-AllAgree}
use aca_social.Answers.Accepting
use aca_social.Moderation.{ReviewContentDto, review}
use aca_social.Moderation.Review.{Reviewed, review-Reviewed}
use aca_social.Moderation.Publishing.{
  Turns, Publishes, Withholds, review-Publishes, review-Withholds,
}
use aca_social.Media.{MediaReference, MediaResponse}
use aca_social.Tests.Sample.{room, sample, user, staff}

abbrev demote : UpdateMembershipDto
demote = record { post_permission = none; role = MemberRole.member; status = MemberStatus.active }

sample_owned : 1 ≤ active_owners 1 sample
unfolding count
sample_owned = omega arith

-- The only owner tries to step down.
update_membership-keeps_owner_example :
    1 ≤ active_owners 1 (update_membership 1 10 demote (user 10) sample).1
update_membership-keeps_owner_example =
    update_membership-keeps_owner 1 1 10 demote (user 10) sample sample_owned

abbrev no_academic : AcademicReference
no_academic = record { context = λ id. err not_found; major = λ id. err not_found }

abbrev calls : List Call
calls =
    Call.joins 1 (user 13)
    ∷ Call.changes_member 1 13 (record demote { role = MemberRole.owner }) (user 10)
    ∷ Call.changes_member 1 10 demote (user 10)
    ∷ Call.changes_member 1 13 demote (user 13)
    ∷ []

-- The owner hands the room over to a new member, who then tries to step down.
run-IsOwned_example : IsOwned 1 (run no_academic calls sample)
run-IsOwned_example = run-IsOwned 1 no_academic calls sample (inr sample_owned)

abbrev context : PostingContext
context = record { room = room; binding = none; requires_approval = true }

sample_posts : (assert_can_post 1 (user 11) sample).0 ≡ ok context
unfolding assert_can_post authenticated steps find? insert_or_ignore post_permission
sample_posts = refl

assert_can_post_agrees_example :
    (actor : ℕ) × (some 11 ≡ some actor)
    × (post_permission 100 room
          (find? (membership_of 1 actor) (assert_can_post 1 (user 11) sample).1.memberships)
        ≡ PostPermission.approval)
unfolding assert_can_post authenticated steps find? insert_or_ignore post_permission
assert_can_post_agrees_example = assert_can_post_agrees 1 (user 11) sample context sample_posts

assert_can_post_needs_member_example :
    let db' = (assert_can_post 1 (user 11) sample).1 in
    (actor : ℕ) × (m : RoomMembership) × (some 11 ≡ some actor)
    × (find? (membership_of 1 actor) db'.memberships ≡ some m)
    × (is_active m.status ≡ true)
    × (has_expired db'.clock m.expires_at ≡ false)
assert_can_post_needs_member_example =
    assert_can_post_needs_member 1 (user 11) sample context sample_posts refl

sample_counted : AllCounted sample
unfolding count
sample_counted = record {
  posts = ((refl, refl), tt);
  comments = ((refl, refl), tt);
  answers = ((refl, refl), ((refl, refl), tt));
}

set_vote-AllCounted_example :
    AllCounted (set_vote TargetType.answer 7 (user 10) (some VoteType.upvote) sample).1
set_vote-AllCounted_example =
    set_vote-AllCounted TargetType.answer 7 (user 10) (some VoteType.upvote) sample sample_counted

set_vote-Sets_example :
    let (r, db') = set_vote TargetType.answer 7 (user 10) (some VoteType.upvote) sample in
    Sets TargetType.answer 7 (user 10) (some VoteType.upvote) sample r db'
set_vote-Sets_example = set_vote-Sets TargetType.answer 7 (user 10) (some VoteType.upvote) sample

sample_voted : IsOneVote 10 TargetType.answer 7 sample.votes
unfolding count
sample_voted = omega arith

set_vote-IsOneVote_example :
    IsOneVote 10 TargetType.answer 7
      (set_vote TargetType.answer 7 (user 10) (some VoteType.upvote) sample).1.votes
set_vote-IsOneVote_example =
    set_vote-IsOneVote TargetType.answer 7 (user 10) (some VoteType.upvote) sample 10
      TargetType.answer 7 sample_voted

sample_agrees : AllAgree sample
unfolding find? count
sample_agrees post d is = ground arith

abbrev accepting : ℕ → AcceptAnswerDto
accepting id = record { answer_id = id; expected_question_version = 1; expected_answer_version = 1 }

abbrev answer_calls : List Accepting.Call
answer_calls =
    Accepting.Call.accepts 5 (accepting 7) (user 10)
    ∷ Accepting.Call.accepts 5 (accepting 6) (user 10)
    ∷ Accepting.Call.removes 6 (user 12)
    ∷ []

-- The asker accepts one answer, then the other, which its author removes.
run-AllAgree_example : AllAgree (Accepting.run answer_calls sample)
run-AllAgree_example = run-AllAgree answer_calls sample sample_agrees

abbrev no_media : MediaReference
no_media id = MediaResponse.missing

abbrev decision : Decision → ReviewContentDto
decision d = record {
  expected_moderation_status = none;
  decision = d;
  expected_version = 1;
  expected_content = "why";
  note = some "off topic";
}

review-Reviewed_example :
    Ends
      (Reviewed 5 (decision Decision.allow) staff sample)
      (review no_media 5 (decision Decision.allow) staff sample)
review-Reviewed_example = review-Reviewed no_media 5 (decision Decision.allow) staff sample

review-Publishes_example :
    let (r, db') = review no_media 5 (decision Decision.allow) staff sample in
    Turns 5 (Publishes "why") sample r db'
review-Publishes_example = review-Publishes no_media 5 (decision Decision.allow) staff sample refl

review-Withholds_example :
    let (r, db') = review no_media 5 (decision Decision.hide) staff sample in
    Turns 5 Withholds sample r db'
review-Withholds_example = review-Withholds no_media 5 (decision Decision.hide) staff sample refl
