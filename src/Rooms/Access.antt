-- ===== src/Rooms/Access.antt =====
-- Reading a room and posting in it: `findOne` and `assertCanPost`.
use aca_social.Base.{
  ℕ, Bool, true, false, not, ◌&&◌, ◌||◌, Option, none, some, [], ◌∷◌, ◌++◌, if◌then◌else◌, is_some,
  find?,
}
use aca_social.Store.{
  GatewayUser, Room, RoomMembership, RoomAcademicBinding, RoomStatus, RoomVisibility, PostingPolicy,
  MembershipPolicy, MemberRole, MemberStatus, PostPermission, Db, is_staff, is_active,
  is_contributor, room_is, binding_of, membership_of, Action, forbidden, not_found, pure, gets,
  fetch, throw_if, modify, when, ◌>>=◌, ◌>>◌,
}
use aca_social.Policy.{authenticated}
use aca_social.Rooms.Permission.{has_expired, is_silenced, is_blocked, post_permission}

abbrev pub is_private : RoomVisibility → Bool
is_private RoomVisibility.private = true
is_private _ = false

abbrev pub is_public : RoomVisibility → Bool
is_public RoomVisibility.public = true
is_public _ = false

abbrev pub is_open_to_all : MembershipPolicy → Bool
is_open_to_all MembershipPolicy.open_to_all = true
is_open_to_all _ = false

abbrev pub is_members : PostingPolicy → Bool
is_members PostingPolicy.members = true
is_members _ = false

abbrev pub is_approved_contributors : PostingPolicy → Bool
is_approved_contributors PostingPolicy.approved_contributors = true
is_approved_contributors _ = false

abbrev pub is_active_room : RoomStatus → Bool
is_active_room RoomStatus.active = true
is_active_room _ = false

-- `membership?.status === 'active'`
abbrev pub is_member : Option RoomMembership → Bool
is_member none = false
is_member (some m) = is_active m.status

-- The membership of a user that may be absent, or a guest's.
abbrev pub membership : Db → ℕ → Option ℕ → Option RoomMembership
membership db room none = none
membership db room (some user) = find? (membership_of room user) db.memberships

-- `RoomsService.findOne`, by the identifier: the other services call it for its check.
unfoldable pub find_one : ℕ → GatewayUser → Action (Room × Option RoomAcademicBinding)
find_one id user = do
  room ← fetch (λ db. find? (room_is id) db.rooms) not_found
  m ← gets (λ db. membership db id user.id)
  throw_if (is_private room.visibility && (not (is_staff user.role) && not (is_member m))) not_found
  binding ← gets (λ db. find? (binding_of id) db.bindings)
  pure (room, binding)

abbrev pub new_member : ℕ → ℕ → MemberStatus → RoomMembership
new_member room user status = record {
  room_id = room;
  user_id = user;
  role = MemberRole.member;
  status = status;
  post_permission = PostPermission.inherit;
  assigned_by = none;
  expires_at = none;
}

-- `insert … orIgnore()`
unfoldable pub insert_or_ignore : RoomMembership → Db → Db
insert_or_ignore m db =
    if is_some (find? (membership_of m.room_id m.user_id) db.memberships)
    then db
    else record db { memberships = db.memberships ++ m ∷ [] }

-- The condition under which a visitor becomes a member by posting.
abbrev pub joins_by_posting : Room → Option RoomMembership → Bool
joins_by_posting room m =
    not (is_some m)
    && (is_public room.visibility
        && (is_open_to_all room.membership_policy && is_members room.posting_policy))

-- `membership?.postPermission === 'blocked' || status === 'banned' || status === 'muted'`
abbrev pub is_barred : Option RoomMembership → Bool
is_barred none = false
is_barred (some m) = is_blocked m.post_permission || is_silenced m.status

abbrev pub membership_expired : ℕ → Option RoomMembership → Bool
membership_expired now none = false
membership_expired now (some m) = has_expired now m.expires_at

abbrev pub is_approved_member : Option RoomMembership → Bool
is_approved_member none = false
is_approved_member (some m) = is_active m.status && is_contributor m.role

abbrev pub is_approval : PostPermission → Bool
is_approval PostPermission.approval = true
is_approval _ = false

pub record PostingContext : Type 0 where
  pub room : Room
  pub binding : Option RoomAcademicBinding
  pub requires_approval : Bool

unfoldable pub assert_can_post : ℕ → GatewayUser → Action PostingContext
assert_can_post room_id user = do
  actor ← authenticated user
  room ← fetch (λ db. find? (room_is room_id) db.rooms) not_found
  throw_if (not (is_active_room room.status)) forbidden
  found ← gets (λ db. find? (membership_of room_id actor) db.memberships)
  when (joins_by_posting room found)
      (modify (insert_or_ignore (new_member room_id actor MemberStatus.active)))
  m ← gets (λ db. find? (membership_of room_id actor) db.memberships)
  now ← gets (λ db. db.clock)
  throw_if (membership_expired now m) forbidden
  throw_if (is_barred m) forbidden
  throw_if (is_private room.visibility && not (is_member m)) forbidden
  throw_if (is_members room.posting_policy && not (is_member m)) forbidden
  throw_if (is_approved_contributors room.posting_policy && not (is_approved_member m)) forbidden
  binding ← gets (λ db. find? (binding_of room_id) db.bindings)
  pure (record {
    room = room;
    binding = binding;
    requires_approval = is_approval (post_permission now room m);
  })
