-- ===== src/Answers.antt =====
-- services/discussion-service/src/answers/answers.service.ts: the answers to a question, and which
-- one is accepted.
pub mod Accepting
use aca_social.Base.{
  ℕ, ◌+◌, ◌-◌, Bool, true, false, not, ◌&&◌, ◌||◌, Option, none, some, [], ◌∷◌, ◌++◌, List, ◌==◌,
  if◌then◌else◌, String, str_eq, is_id, is_some, or_else, find?, replace,
}
use aca_social.Store.{
  GatewayUser, Discussion, Answer, AnswerRevision, AnswerAcceptance, RevisionType, RevokeReason,
  PostStatus, ModerationStatus, Visibility, Db, is_admin, is_question, answer_is, answer_created,
  answer_accepted, answer_deleted, Action, bad_request, conflict, forbidden, not_found, pure, gets,
  fetch, throw_if, modify, when, new_id, transaction, transaction_with_rooms, ◌>>=◌, ◌>>◌,
}
use aca_social.Outbox.{emit}
use aca_social.Policy.{authenticated, require_open, require_approved, require_manager, lock_post}
use aca_social.Rooms.{assert_can_post}
use aca_social.Mentions.{Identity, emit_mentions}
use aca_social.Acceptance.{save_post, without_acceptance, revoke_acceptance}

pub record CreateAnswerDto : Type 0 where
  pub content : String
  pub is_anonymous : Option Bool

pub record UpdateAnswerDto : Type 0 where
  pub content : String
  pub expected_version : ℕ
  pub revision_type : RevisionType

pub record AcceptAnswerDto : Type 0 where
  pub answer_id : ℕ
  pub expected_question_version : ℕ
  pub expected_answer_version : ℕ

abbrev pub new_answer : ℕ → ℕ → ℕ → CreateAnswerDto → Answer
new_answer id question author dto = record {
  id = id;
  discussion_id = question;
  author_id = author;
  content = dto.content;
  is_anonymous = or_else dto.is_anonymous false;
  content_version = 1;
  moderation_status = ModerationStatus.approved;
  visibility = Visibility.visible;
  upvote_count = 0;
  downvote_count = 0;
  deleted = false;
}

abbrev pub answer_revision : Answer → RevisionType → ℕ → AnswerRevision
answer_revision a type editor = record {
  answer_id = a.id;
  content_version = a.content_version;
  content = a.content;
  revision_type = type;
  edited_by = editor;
}

abbrev pub add_answer : Answer → Db → Db
add_answer a db = record db { answers = db.answers ++ a ∷ [] }

abbrev pub save_answer : Answer → Db → Db
save_answer a db = record db { answers = replace (answer_is a.id) a db.answers }

abbrev pub add_answer_revision : AnswerRevision → Db → Db
add_answer_revision r db = record db { answer_revisions = db.answer_revisions ++ r ∷ [] }

-- `if (post.roomId) await this.rooms.assertCanPost(post.roomId, user)`
unfoldable pub post_in_room : Option ℕ → GatewayUser → Action (Unit {0})
post_in_room none user = pure tt
post_in_room (some room) user = do assert_can_post room user; pure tt

-- The author is named in the event unless the content is anonymous.
abbrev pub named : Bool → ℕ → Option ℕ
named anonymous author = if anonymous then none else some author

unfoldable pub create : Identity → ℕ → CreateAnswerDto → GatewayUser → Action Answer
create identity question_id dto user = do
  author ← authenticated user
  id ← transaction_with_rooms (do
    question ← lock_post question_id
    require_open question
    require_approved question
    throw_if (not (is_question question.post_type)) bad_request
    post_in_room question.room_id user
    id ← new_id
    let answer = new_answer id question_id author dto
    modify (add_answer answer)
    modify (add_answer_revision (answer_revision answer RevisionType.semantic author))
    modify (save_post (record question { answer_count = question.answer_count + 1 }))
    when (not (question.author_id == author))
        (emit (answer_created id question_id question.author_id (named answer.is_anonymous author)))
    emit_mentions identity answer.content author id question_id
    pure id)
  fetch (λ db. find? (answer_is id) db.answers) not_found

-- `lockAnswerAndQuestion`
unfoldable pub lock_answer_and_question : ℕ → Action (Answer × Discussion)
lock_answer_and_question id = do
  existing ← fetch (λ db. find? (answer_is id) db.answers) not_found
  question ← lock_post existing.discussion_id
  answer ← fetch (λ db. find? (answer_is id) db.answers) not_found
  pure (answer, question)

abbrev pub is_semantic : RevisionType → Bool
is_semantic RevisionType.semantic = true
is_semantic _ = false

abbrev pub edited : UpdateAnswerDto → Answer → Answer
edited dto a = record a {
  content = dto.content;
  content_version = a.content_version + 1;
  moderation_status = ModerationStatus.approved;
  visibility = Visibility.visible;
}

-- The writes of `update`, once its checks passed.
unfoldable pub save_edit : UpdateAnswerDto → ℕ → Answer → Discussion → Action (Unit {0})
save_edit dto actor answer question = do
  modify (save_answer (edited dto answer))
  modify (add_answer_revision (answer_revision (edited dto answer) dto.revision_type actor))
  when (is_semantic dto.revision_type && is_id question.accepted_answer_id answer.id)
      (modify (revoke_acceptance question actor RevokeReason.answer_edited))

unfoldable pub update : ℕ → UpdateAnswerDto → GatewayUser → Action Answer
update id dto user = do
  actor ← authenticated user
  transaction (do
    (answer, question) ← lock_answer_and_question id
    require_manager answer.author_id user
    require_open question
    throw_if (not (answer.content_version == dto.expected_version)) conflict
    when (not (str_eq answer.content dto.content)) (save_edit dto actor answer question))
  fetch (λ db. find? (answer_is id) db.answers) not_found

-- The question object after `remove` took its acceptance back, if the answer was the accepted one.
abbrev pub without_answer : ℕ → Discussion → Discussion
without_answer id q = if is_id q.accepted_answer_id id then without_acceptance q else q

unfoldable pub remove : ℕ → GatewayUser → Action (Unit {0})
remove id user = do
  actor ← authenticated user
  transaction (do
    (answer, question) ← lock_answer_and_question id
    require_manager answer.author_id user
    require_open question
    when (is_id question.accepted_answer_id answer.id)
        (modify (revoke_acceptance question actor RevokeReason.answer_deleted))
    modify (save_answer (record answer { deleted = true }))
    let q = without_answer answer.id question
    modify (save_post (record q { answer_count = q.answer_count - 1 }))
    emit (answer_deleted id question.id))

unfoldable pub can_accept : Discussion → GatewayUser → Bool
can_accept question user =
    is_some user.id && (is_id user.id question.author_id || is_admin user.role)

abbrev pub new_acceptance : Discussion → Answer → ℕ → AnswerAcceptance
new_acceptance q a actor = record {
  discussion_id = q.id;
  answer_id = a.id;
  question_version = q.content_version;
  answer_version = a.content_version;
  accepted_by = actor;
  revoked = none;
}

abbrev pub add_acceptance : AnswerAcceptance → Db → Db
add_acceptance a db = record db { acceptances = db.acceptances ++ a ∷ [] }

abbrev pub solved_by : ℕ → Discussion → Discussion
solved_by answer q = record q {
  accepted_answer_id = some answer;
  accepted_comment_id = none;
  status = PostStatus.solved;
}

-- The writes of `accept`: the old acceptance is taken back, and the new one made.
unfoldable pub save_acceptance : Discussion → Answer → ℕ → Db → Db
save_acceptance question answer actor db =
    let q = without_acceptance question in
    save_post (solved_by answer.id q) (
      add_acceptance (new_acceptance q answer actor)
        (revoke_acceptance question actor RevokeReason.replaced db))

unfoldable pub accept : ℕ → AcceptAnswerDto → GatewayUser → Action Answer
accept question_id dto user = do
  actor ← authenticated user
  transaction (do
    question ← lock_post question_id
    require_open question
    throw_if (not (is_question question.post_type)) bad_request
    throw_if (not (can_accept question user)) forbidden
    require_approved question
    answer ← fetch (λ db. find? (answer_is dto.answer_id) db.answers) bad_request
    throw_if (not (answer.discussion_id == question.id)) bad_request
    throw_if (answer.author_id == actor) bad_request
    throw_if
        (not (question.content_version == dto.expected_question_version)
          || not (answer.content_version == dto.expected_answer_version))
        conflict
    modify (save_acceptance question answer actor)
    emit (answer_accepted answer.id answer.content_version question.id answer.author_id actor))
  fetch (λ db. find? (answer_is dto.answer_id) db.answers) not_found

unfoldable pub remove_acceptance : ℕ → GatewayUser → Action (Unit {0})
remove_acceptance question_id user = do
  actor ← authenticated user
  transaction (do
    question ← lock_post question_id
    throw_if (not (can_accept question user)) forbidden
    modify (revoke_acceptance question actor RevokeReason.author_revoked))
