-- ===== src/Store/Enums.antt =====
-- The enumerations of the entities of services/discussion-service/src, and the tests on them that
-- the services write as `===` and `includes`.
use aca_social.Base.{Bool, true, false, Option, some}

-- The role that the gateway forwards in `X-User-Role`.
pub data Role : Type 0 where
  student teacher moderator admin : Role

pub data RoomType : Type 0 where
  major course event forum : RoomType

pub data RoomVisibility : Type 0 where
  public restricted private : RoomVisibility

pub data PostingPolicy : Type 0 where
  anyone members approved_contributors : PostingPolicy

pub data RoomStatus : Type 0 where
  draft active read_only archived : RoomStatus

pub data ReviewPolicy : Type 0 where
  direct approval : ReviewPolicy

pub data MembershipPolicy : Type 0 where
  open_to_all approval invite_only : MembershipPolicy

pub data PostPermission : Type 0 where
  inherit direct approval blocked : PostPermission

pub data MemberRole : Type 0 where
  owner moderator contributor member : MemberRole

pub data MemberStatus : Type 0 where
  pending active muted banned left : MemberStatus

pub data PostType : Type 0 where
  question discussion : PostType

pub data PostStatus : Type 0 where
  opened solved closed : PostStatus

pub data ModerationStatus : Type 0 where
  pending approved hidden : ModerationStatus

pub data Visibility : Type 0 where
  visible held hidden : Visibility

pub data TargetType : Type 0 where
  discussion comment answer : TargetType

pub data VoteType : Type 0 where
  upvote downvote : VoteType

pub data RevisionType : Type 0 where
  editorial semantic : RevisionType

pub data Decision : Type 0 where
  allow hide hold : Decision

pub data TagStatus : Type 0 where
  active inactive merged : TagStatus

-- `['admin', 'moderator'].includes(user.role ?? '')`
abbrev pub is_staff : Option Role → Bool
is_staff (some Role.admin) = true
is_staff (some Role.moderator) = true
is_staff _ = false

abbrev pub is_admin : Option Role → Bool
is_admin (some Role.admin) = true
is_admin _ = false

abbrev pub is_owner : MemberRole → Bool
is_owner MemberRole.owner = true
is_owner _ = false

abbrev pub is_active : MemberStatus → Bool
is_active MemberStatus.active = true
is_active _ = false

-- `['owner', 'moderator'].includes(role)`
abbrev pub is_room_manager : MemberRole → Bool
is_room_manager MemberRole.owner = true
is_room_manager MemberRole.moderator = true
is_room_manager _ = false

abbrev pub is_contributor : MemberRole → Bool
is_contributor MemberRole.member = false
is_contributor _ = true

abbrev pub is_visible : Visibility → Bool
is_visible Visibility.visible = true
is_visible _ = false

abbrev pub is_pending : ModerationStatus → Bool
is_pending ModerationStatus.pending = true
is_pending _ = false

-- `['pending', 'approved'].includes(moderationStatus)`
abbrev pub is_published : ModerationStatus → Bool
is_published ModerationStatus.hidden = false
is_published _ = true

abbrev pub is_closed : PostStatus → Bool
is_closed PostStatus.closed = true
is_closed _ = false

abbrev pub is_solved : PostStatus → Bool
is_solved PostStatus.solved = true
is_solved _ = false

abbrev pub is_question : PostType → Bool
is_question PostType.question = true
is_question _ = false

abbrev pub is_active_tag : TagStatus → Bool
is_active_tag TagStatus.active = true
is_active_tag _ = false

abbrev pub same_moderation : ModerationStatus → ModerationStatus → Bool
same_moderation ModerationStatus.pending ModerationStatus.pending = true
same_moderation ModerationStatus.approved ModerationStatus.approved = true
same_moderation ModerationStatus.hidden ModerationStatus.hidden = true
same_moderation _ _ = false

abbrev pub same_permission : PostPermission → PostPermission → Bool
same_permission PostPermission.inherit PostPermission.inherit = true
same_permission PostPermission.direct PostPermission.direct = true
same_permission PostPermission.approval PostPermission.approval = true
same_permission PostPermission.blocked PostPermission.blocked = true
same_permission _ _ = false

abbrev pub same_target : TargetType → TargetType → Bool
same_target TargetType.discussion TargetType.discussion = true
same_target TargetType.comment TargetType.comment = true
same_target TargetType.answer TargetType.answer = true
same_target _ _ = false

abbrev pub same_vote : VoteType → VoteType → Bool
same_vote VoteType.upvote VoteType.upvote = true
same_vote VoteType.downvote VoteType.downvote = true
same_vote _ _ = false
