-- ===== src/Store/Rows.antt =====
-- The entities. Identifiers are uuids that the code only compares, so they are numbers; instants
-- are numbers; a nullable column is an `Option`. A membership is identified by its room and user,
-- and a vote by its user and target, which the schema declares unique, in place of their `id`.
use aca_social.Base.{ℕ, Bool, Option, List, String}
use aca_social.Store.Enums.{
  Role, RoomType, RoomVisibility, PostingPolicy, RoomStatus, ReviewPolicy, MembershipPolicy,
  PostPermission, MemberRole, MemberStatus, PostType, PostStatus, ModerationStatus, Visibility,
  TargetType, VoteType, RevisionType, Decision, TagStatus,
}

pub record GatewayUser : Type 0 where
  pub id : Option ℕ
  pub role : Option Role

pub record Room : Type 0 where
  pub id : ℕ
  pub slug : String
  pub name : String
  pub description : String
  pub room_type : RoomType
  pub parent_room_id : Option ℕ
  pub visibility : RoomVisibility
  pub membership_policy : MembershipPolicy
  pub posting_policy : PostingPolicy
  pub review_policy : ReviewPolicy
  pub policy_locked : Bool
  pub status : RoomStatus
  pub created_by : ℕ
  pub start_at : Option ℕ
  pub end_at : Option ℕ
  pub rules_version : ℕ

pub record RoomAcademicBinding : Type 0 where
  pub room_id : ℕ
  pub major_id : ℕ
  pub curriculum_id : Option ℕ
  pub course_id : Option ℕ
  pub curriculum_course_id : Option ℕ

pub record RoomMembership : Type 0 where
  pub room_id : ℕ
  pub user_id : ℕ
  pub role : MemberRole
  pub status : MemberStatus
  pub post_permission : PostPermission
  pub assigned_by : Option ℕ
  pub expires_at : Option ℕ

pub data Severity : Type 0 where
  low medium high : Severity

pub record RoomRule : Type 0 where
  pub id : ℕ
  pub room_id : ℕ
  pub rule_code : String
  pub title : String
  pub description : String
  pub severity : Severity
  pub version : ℕ
  pub active : Bool

-- A row of `room_policy_audits`: what was set, on a membership or on the room.
pub data PolicyChange : Type 0 where
  membership_change : MemberRole → MemberStatus → Option PostPermission → PolicyChange
  policy_change : ReviewPolicy → Option Bool → PolicyChange

pub record PolicyAudit : Type 0 where
  pub room_id : ℕ
  pub actor_id : ℕ
  pub member_id : Option ℕ
  pub before : PolicyChange
  pub after : PolicyChange

pub record PendingRevision : Type 0 where
  pub title : String
  pub content : String
  pub is_anonymous : Bool
  pub tag_ids : List ℕ
  pub media_ids : List ℕ

-- `tags` and `media` are the rows of the join tables, `media` in `sortOrder`; `deleted` stands for
-- `deletedAt`, which is only tested.
pub record Discussion : Type 0 where
  pub id : ℕ
  pub room_id : Option ℕ
  pub major_id : Option ℕ
  pub curriculum_id : Option ℕ
  pub course_id : Option ℕ
  pub curriculum_course_id : Option ℕ
  pub title : String
  pub content : String
  pub post_type : PostType
  pub status : PostStatus
  pub author_id : ℕ
  pub is_anonymous : Bool
  pub upvote_count : ℕ
  pub downvote_count : ℕ
  pub comment_count : ℕ
  pub answer_count : ℕ
  pub view_count : ℕ
  pub accepted_comment_id : Option ℕ
  pub accepted_answer_id : Option ℕ
  pub content_version : ℕ
  pub moderation_status : ModerationStatus
  pub visibility : Visibility
  pub moderation_note : String
  pub pending_revision : Option PendingRevision
  pub tags : List ℕ
  pub media : List ℕ
  pub deleted : Bool

pub record DiscussionRevision : Type 0 where
  pub discussion_id : ℕ
  pub content_version : ℕ
  pub title : String
  pub content : String
  pub revision_type : RevisionType
  pub edited_by : ℕ

pub record Answer : Type 0 where
  pub id : ℕ
  pub discussion_id : ℕ
  pub author_id : ℕ
  pub content : String
  pub is_anonymous : Bool
  pub content_version : ℕ
  pub moderation_status : ModerationStatus
  pub visibility : Visibility
  pub upvote_count : ℕ
  pub downvote_count : ℕ
  pub deleted : Bool

pub record AnswerRevision : Type 0 where
  pub answer_id : ℕ
  pub content_version : ℕ
  pub content : String
  pub revision_type : RevisionType
  pub edited_by : ℕ

pub data RevokeReason : Type 0 where
  replaced answer_edited answer_deleted author_revoked question_edited moderation_hidden :
      RevokeReason

-- `revoked` holds `revokedAt`, `revokedBy` and `revokeReason`, which are null or set together.
pub record AnswerAcceptance : Type 0 where
  pub discussion_id : ℕ
  pub answer_id : ℕ
  pub question_version : ℕ
  pub answer_version : ℕ
  pub accepted_by : ℕ
  pub revoked : Option (ℕ × ℕ × RevokeReason)

pub record Comment : Type 0 where
  pub id : ℕ
  pub discussion_id : ℕ
  pub author_id : ℕ
  pub content : String
  pub parent_comment_id : Option ℕ
  pub is_anonymous : Bool
  pub upvote_count : ℕ
  pub downvote_count : ℕ
  pub moderation_status : ModerationStatus
  pub visibility : Visibility
  pub deleted : Bool

pub record Vote : Type 0 where
  pub user_id : ℕ
  pub target_type : TargetType
  pub target_id : ℕ
  pub vote_type : VoteType

pub record Tag : Type 0 where
  pub id : ℕ
  pub name : String
  pub slug : String
  pub description : Option String
  pub usage_count : ℕ
  pub status : TagStatus
  pub merged_into_tag_id : Option ℕ

pub record ModerationReview : Type 0 where
  pub entity_id : ℕ
  pub content_version : ℕ
  pub decision : Decision
  pub note : String
  pub reviewer_id : ℕ

-- The events that the services put into the outbox, with the identifiers of their payloads.
pub data Event : Type 0 where
  room_created : (room_id : ℕ) → RoomType → Event
  room_rules_changed : (room_id rules_version : ℕ) → Event
  discussion_created : (discussion_id recipient_id : ℕ) → Event
  discussion_deleted : (discussion_id : ℕ) (room_id : Option ℕ) → Event
  answer_deleted : (answer_id discussion_id : ℕ) → Event
  answer_created : (answer_id discussion_id recipient_id : ℕ) (actor_id : Option ℕ) → Event
  answer_accepted : (answer_id answer_version discussion_id recipient_id actor_id : ℕ) → Event
  comment_accepted : (comment_id discussion_id recipient_id : ℕ) → Event
  comment_created : (comment_id discussion_id recipient_id : ℕ) (actor_id : Option ℕ) → Event
  mention_created : (entity_id discussion_id recipient_id actor_id : ℕ) → Event

-- A row of `discussion_outbox`.
pub record OutboxRow : Type 0 where
  pub id : ℕ
  pub event : Event
  pub created_at : ℕ
  pub delivered_at : Option ℕ
  pub attempts : ℕ
  pub next_attempt_at : ℕ
