-- ===== src/Tests/Sample.antt =====
-- A room with an owner (10) and a member (11), a question of the owner with two answers, one of
-- them of the member, and a comment.
use aca_social.Base.{ℕ, false, none, some, [], ◌∷◌}
use aca_social.Store.{
  Db, GatewayUser, Role, Room, RoomType, RoomVisibility, MembershipPolicy, PostingPolicy,
  ReviewPolicy, RoomStatus, RoomMembership, MemberRole, MemberStatus, PostPermission, Discussion,
  PostType, PostStatus, ModerationStatus, Visibility, Answer, Comment,
}

abbrev pub room : Room
room = record {
  id = 1;
  slug = "math";
  name = "Math";
  description = "";
  room_type = RoomType.forum;
  parent_room_id = none;
  visibility = RoomVisibility.public;
  membership_policy = MembershipPolicy.open_to_all;
  posting_policy = PostingPolicy.members;
  review_policy = ReviewPolicy.approval;
  policy_locked = false;
  status = RoomStatus.active;
  created_by = 10;
  start_at = none;
  end_at = none;
  rules_version = 1;
}

abbrev pub membership : ℕ → MemberRole → RoomMembership
membership user role = record {
  room_id = 1;
  user_id = user;
  role = role;
  status = MemberStatus.active;
  post_permission = PostPermission.inherit;
  assigned_by = none;
  expires_at = none;
}

abbrev pub question : Discussion
question = record {
  id = 5;
  room_id = some 1;
  major_id = none;
  curriculum_id = none;
  course_id = none;
  curriculum_course_id = none;
  title = "limits";
  content = "why";
  post_type = PostType.question;
  status = PostStatus.opened;
  author_id = 10;
  is_anonymous = false;
  upvote_count = 0;
  downvote_count = 0;
  comment_count = 1;
  answer_count = 2;
  view_count = 0;
  accepted_comment_id = none;
  accepted_answer_id = none;
  content_version = 1;
  moderation_status = ModerationStatus.pending;
  visibility = Visibility.visible;
  moderation_note = "";
  pending_revision = none;
  tags = [];
  media = [];
  deleted = false;
}

abbrev pub answer : ℕ → ℕ → Answer
answer id author = record {
  id = id;
  discussion_id = 5;
  author_id = author;
  content = "so";
  is_anonymous = false;
  content_version = 1;
  moderation_status = ModerationStatus.approved;
  visibility = Visibility.visible;
  upvote_count = 0;
  downvote_count = 0;
  deleted = false;
}

abbrev pub comment : Comment
comment = record {
  id = 8;
  discussion_id = 5;
  author_id = 11;
  content = "hm";
  parent_comment_id = none;
  is_anonymous = false;
  upvote_count = 0;
  downvote_count = 0;
  moderation_status = ModerationStatus.approved;
  visibility = Visibility.visible;
  deleted = false;
}

abbrev pub sample : Db
sample = record {
  clock = 100;
  next_id = 50;
  rooms = room ∷ [];
  bindings = [];
  memberships = membership 10 MemberRole.owner ∷ membership 11 MemberRole.member ∷ [];
  rules = [];
  audits = [];
  discussions = question ∷ [];
  discussion_revisions = [];
  answers = answer 6 12 ∷ answer 7 11 ∷ [];
  answer_revisions = [];
  acceptances = [];
  comments = comment ∷ [];
  votes = [];
  tags = [];
  reviews = [];
  outbox = [];
}

abbrev pub user : ℕ → GatewayUser
user id = record { id = some id; role = some Role.student }

abbrev pub staff : GatewayUser
staff = record { id = some 20; role = some Role.moderator }
