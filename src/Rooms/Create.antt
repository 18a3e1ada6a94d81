-- ===== src/Rooms/Create.antt =====
-- Creating a room: `create`.
use aca_social.Base.{
  ℕ, Bool, true, false, not, ◌&&◌, ◌||◌, Option, none, some, [], ◌∷◌, ◌++◌, ◌==◌, leb, ltb,
  if◌then◌else◌, String, str_eq, is_id, is_some, or_else, find?, any,
}
use aca_social.Store.{
  GatewayUser, Room, RoomAcademicBinding, RoomMembership, RoomType, RoomVisibility,
  MembershipPolicy, PostingPolicy, ReviewPolicy, RoomStatus, MemberRole, MemberStatus,
  PostPermission, Db, room_created, is_admin, room_is, binding_of, Result, Action, forbidden,
  bad_request, conflict, pure, gets, or_throw, lift, throw_if, modify, when, branch, new_id,
  transaction, ◌>>=◌, ◌>>◌,
}
use aca_social.Outbox.{emit}
use aca_social.Policy.{authenticated}
use aca_social.Rooms.Permission.{require_room_manager}
use aca_social.Rooms.Access.{find_one}

pub record AcademicContext : Type 0 where
  pub curriculum_course_id : ℕ
  pub major_id : ℕ
  pub curriculum_id : ℕ
  pub course_id : ℕ

-- common/academic-reference.service.ts: what the academic service answers, and the exception that
-- the client makes of a refusal.
pub record AcademicReference : Type 0 where
  pub context : ℕ → Result AcademicContext
  pub major : ℕ → Result (Unit {0})

pub record CreateRoomDto : Type 0 where
  pub slug : String
  pub name : String
  pub description : Option String
  pub room_type : RoomType
  pub parent_room_id : Option ℕ
  pub major_id : Option ℕ
  pub curriculum_course_id : Option ℕ
  pub visibility : Option RoomVisibility
  pub posting_policy : Option PostingPolicy
  pub membership_policy : Option MembershipPolicy
  pub review_policy : Option ReviewPolicy
  pub start_at : Option ℕ
  pub end_at : Option ℕ

abbrev pub is_major : RoomType → Bool
is_major RoomType.major = true
is_major _ = false

abbrev pub is_course : RoomType → Bool
is_course RoomType.course = true
is_course _ = false

abbrev pub is_event : RoomType → Bool
is_event RoomType.event = true
is_event _ = false

-- `dto.startAt && dto.endAt && dto.endAt <= dto.startAt`
abbrev pub ends_early : Option ℕ → Option ℕ → Bool
ends_early (some start) (some end_at) = leb end_at start
ends_early _ _ = false

abbrev pub is_major_room : Option Room → Bool
is_major_room none = false
is_major_room (some r) = is_major r.room_type

abbrev parent_room : Option ℕ → Db → Option Room
parent_room none db = none
parent_room (some id) db = find? (room_is id) db.rooms

-- `if ([EVENT, FORUM].includes(roomType) && parent) await this.requireRoomManager(parent.id, user)`
unfoldable pub require_parent_manager : RoomType → Option Room → GatewayUser → Action (Unit {0})
require_parent_manager type none user = pure tt
require_parent_manager type (some parent) user =
    when (not (is_major type || is_course type)) (require_room_manager parent.id user)

abbrev pub has_major : ℕ → Option RoomAcademicBinding → Bool
has_major major none = false
has_major major (some b) = b.major_id == major

-- The academic context of a course room. A course room has a parent by the check before, so the
-- exception for a missing parent is never thrown.
unfoldable pub course_context :
    AcademicReference → CreateRoomDto → Option Room → Action (Option AcademicContext)
course_context academic dto parent =
    branch (is_course dto.room_type)
      (do
        id ← or_throw dto.curriculum_course_id bad_request
        context ← lift (academic.context id)
        parent_room ← or_throw parent bad_request
        binding ← gets (λ db. find? (binding_of parent_room.id) db.bindings)
        throw_if (not (has_major context.major_id binding)) bad_request
        pure (some context))
      (pure none)

-- The binding's room has the type: the inner join on `rooms`.
abbrev pub bound_to : (RoomType → Bool) → Db → RoomAcademicBinding → Bool
bound_to test db b = any (λ r. (r.id == b.room_id) && test r.room_type) db.rooms

abbrev pub has_major_room : Db → ℕ → Bool
has_major_room db major = any (λ b. (b.major_id == major) && bound_to is_major db b) db.bindings

abbrev pub has_course_room : Db → Option ℕ → Bool
has_course_room db none = false
has_course_room db (some id) =
    any (λ b. is_id b.curriculum_course_id id && bound_to is_course db b) db.bindings

-- A major room names an active major that has no room yet.
unfoldable pub check_major : AcademicReference → CreateRoomDto → Action (Unit {0})
check_major academic dto =
    branch (is_major dto.room_type)
      (do
        id ← or_throw dto.major_id bad_request
        lift (academic.major id)
        taken ← gets (λ db. has_major_room db id)
        throw_if taken conflict)
      (pure tt)

unfoldable pub check_course : CreateRoomDto → Action (Unit {0})
check_course dto = do
  taken ← gets (λ db. has_course_room db dto.curriculum_course_id)
  throw_if (is_course dto.room_type && taken) conflict

-- `dto.startAt && dto.startAt > new Date()`
abbrev pub starts_later : ℕ → Option ℕ → Bool
starts_later now none = false
starts_later now (some at) = ltb now at

abbrev pub new_room : ℕ → ℕ → ℕ → CreateRoomDto → Room
new_room id now actor dto = record {
  id = id;
  slug = dto.slug;
  name = dto.name;
  description = or_else dto.description "";
  room_type = dto.room_type;
  parent_room_id = dto.parent_room_id;
  visibility = or_else dto.visibility RoomVisibility.public;
  membership_policy = or_else dto.membership_policy MembershipPolicy.open_to_all;
  posting_policy = or_else dto.posting_policy PostingPolicy.anyone;
  review_policy = or_else dto.review_policy ReviewPolicy.direct;
  policy_locked = false;
  status =
      if is_event dto.room_type && starts_later now dto.start_at
      then RoomStatus.draft
      else RoomStatus.active;
  created_by = actor;
  start_at = dto.start_at;
  end_at = dto.end_at;
  rules_version = 1;
}

abbrev of_major : ℕ → Option ℕ → Option RoomAcademicBinding
of_major id none = none
of_major id (some major) = some (record {
  room_id = id;
  major_id = major;
  curriculum_id = none;
  course_id = none;
  curriculum_course_id = none;
})

abbrev of_context : ℕ → AcademicContext → RoomAcademicBinding
of_context id c = record {
  room_id = id;
  major_id = c.major_id;
  curriculum_id = some c.curriculum_id;
  course_id = some c.course_id;
  curriculum_course_id = some c.curriculum_course_id;
}

abbrev inherited : ℕ → Option Room → Db → Option RoomAcademicBinding
inherited id none db = none
inherited id (some parent) db = elim (find? (binding_of parent.id) db.bindings) [
  | none ↦ none
  | some b ↦ some (record b { room_id = id })
]

abbrev of_course : ℕ → Option AcademicContext → Option Room → Db → Option RoomAcademicBinding
of_course id (some c) parent db = some (of_context id c)
of_course id none parent db = inherited id parent db

-- The binding of the new room: the major's, the course's, or the parent's.
unfoldable pub new_binding :
    ℕ → CreateRoomDto → Option AcademicContext → Option Room → Db → Option RoomAcademicBinding
new_binding id dto context parent db =
    if is_major dto.room_type then of_major id dto.major_id else of_course id context parent db

abbrev pub add_binding : Option RoomAcademicBinding → Db → Db
add_binding none db = db
add_binding (some b) db = record db { bindings = db.bindings ++ b ∷ [] }

abbrev pub add_room : Room → Db → Db
add_room r db = record db { rooms = db.rooms ++ r ∷ [] }

abbrev pub first_owner : ℕ → ℕ → RoomMembership
first_owner room actor = record {
  room_id = room;
  user_id = actor;
  role = MemberRole.owner;
  status = MemberStatus.active;
  post_permission = PostPermission.inherit;
  assigned_by = some actor;
  expires_at = none;
}

abbrev pub add_membership : RoomMembership → Db → Db
add_membership m db = record db { memberships = db.memberships ++ m ∷ [] }

-- The callback of the transaction. The slug is unique: a second room with it is the error 23505,
-- which the caller turns into a conflict.
unfoldable pub insert_room : CreateRoomDto → ℕ → Option AcademicContext → Option Room → Action ℕ
insert_room dto actor context parent = do
  taken ← gets (λ db. any (λ r. str_eq r.slug dto.slug) db.rooms)
  throw_if taken conflict
  id ← new_id
  now ← gets (λ db. db.clock)
  modify (add_room (new_room id now actor dto))
  binding ← gets (new_binding id dto context parent)
  modify (add_binding binding)
  modify (add_membership (first_owner id actor))
  emit (room_created id dto.room_type)
  pure id

unfoldable pub create :
    AcademicReference → CreateRoomDto → GatewayUser → Action (Room × Option RoomAcademicBinding)
create academic dto user = do
  actor ← authenticated user
  throw_if ((is_major dto.room_type || is_course dto.room_type) && not (is_admin user.role))
      forbidden
  throw_if (ends_early dto.start_at dto.end_at) bad_request
  parent ← gets (parent_room dto.parent_room_id)
  throw_if (is_some dto.parent_room_id && not (is_some parent)) bad_request
  throw_if (is_course dto.room_type && not (is_major_room parent)) bad_request
  require_parent_manager dto.room_type parent user
  context ← course_context academic dto parent
  check_major academic dto
  check_course dto
  id ← transaction (insert_room dto actor context parent)
  find_one id user
