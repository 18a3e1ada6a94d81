-- ===== src/Store/Schema.antt =====
-- The tables, the clock that `new Date()` and `now()` read, and the supply of fresh identifiers
-- that stands for the generated uuids.
use aca_social.Base.{ℕ, Bool, not, ◌&&◌, List, ◌==◌, is_some}
use aca_social.Store.Rows.{
  Room, RoomAcademicBinding, RoomMembership, RoomRule, PolicyAudit, Discussion, DiscussionRevision,
  Answer, AnswerRevision, AnswerAcceptance, Comment, Vote, Tag, ModerationReview, OutboxRow,
}

pub record Db : Type 0 where
  pub clock : ℕ
  pub next_id : ℕ
  pub rooms : List Room
  pub bindings : List RoomAcademicBinding
  pub memberships : List RoomMembership
  pub rules : List RoomRule
  pub audits : List PolicyAudit
  pub discussions : List Discussion
  pub discussion_revisions : List DiscussionRevision
  pub answers : List Answer
  pub answer_revisions : List AnswerRevision
  pub acceptances : List AnswerAcceptance
  pub comments : List Comment
  pub votes : List Vote
  pub tags : List Tag
  pub reviews : List ModerationReview
  pub outbox : List OutboxRow

-- The `where` clauses of the queries. A query does not see soft-deleted rows.
abbrev pub room_is : ℕ → Room → Bool
room_is id r = r.id == id

abbrev pub binding_of : ℕ → RoomAcademicBinding → Bool
binding_of id b = b.room_id == id

abbrev pub membership_of : ℕ → ℕ → RoomMembership → Bool
membership_of room user m = (m.room_id == room) && (m.user_id == user)

abbrev pub post_is : ℕ → Discussion → Bool
post_is id d = (d.id == id) && not d.deleted

abbrev pub answer_is : ℕ → Answer → Bool
answer_is id a = (a.id == id) && not a.deleted

abbrev pub comment_is : ℕ → Comment → Bool
comment_is id c = (c.id == id) && not c.deleted

abbrev pub tag_is : ℕ → Tag → Bool
tag_is id t = t.id == id

-- `{ discussionId, revokedAt: IsNull() }`
abbrev pub live_acceptance_of : ℕ → AnswerAcceptance → Bool
live_acceptance_of post a = (a.discussion_id == post) && not (is_some a.revoked)
