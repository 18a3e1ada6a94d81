-- ===== src/Rooms/Permission.antt =====
-- What a member may do in a room: `postPermission`, `requireRoomManager`, `requirePolicyOwner` and
-- `managedRoomIds`. `new Date()` and `CURRENT_TIMESTAMP` read the database's clock.
use aca_social.Base.{
  ℕ, Bool, true, false, not, ◌&&◌, ◌||◌, Option, none, some, List, map, ◌==◌, leb, if◌then◌else◌,
  find?, select,
}
use aca_social.Store.{
  GatewayUser, Room, RoomMembership, MemberStatus, ReviewPolicy, PostPermission, is_staff, is_admin,
  is_owner, is_active, is_room_manager, membership_of, Action, forbidden, gets, throw_if, ◌>>=◌,
}
use aca_social.Policy.{authenticated}

-- `expiresAt && expiresAt <= new Date()`
abbrev pub has_expired : ℕ → Option ℕ → Bool
has_expired now none = false
has_expired now (some at) = leb at now

-- `['banned', 'muted'].includes(status)`
abbrev pub is_silenced : MemberStatus → Bool
is_silenced MemberStatus.banned = true
is_silenced MemberStatus.muted = true
is_silenced _ = false

abbrev review_permission : ReviewPolicy → PostPermission
review_permission ReviewPolicy.approval = PostPermission.approval
review_permission ReviewPolicy.direct = PostPermission.direct

abbrev pub is_blocked : PostPermission → Bool
is_blocked PostPermission.blocked = true
is_blocked _ = false

abbrev pub is_inherit : PostPermission → Bool
is_inherit PostPermission.inherit = true
is_inherit _ = false

unfoldable pub post_permission : ℕ → Room → Option RoomMembership → PostPermission
post_permission now room none = review_permission room.review_policy
post_permission now room (some m) =
    if is_silenced m.status || has_expired now m.expires_at
    then PostPermission.blocked
    else if is_blocked m.post_permission
    then PostPermission.blocked
    else if is_active m.status && not (is_inherit m.post_permission)
    then m.post_permission
    else review_permission room.review_policy

-- The test that `requireRoomManager` makes on the active membership.
abbrev pub manages : ℕ → Option RoomMembership → Bool
manages now none = false
manages now (some m) =
    is_active m.status && (not (has_expired now m.expires_at) && is_room_manager m.role)

unfoldable pub require_room_manager : ℕ → GatewayUser → Action (Unit {0})
require_room_manager room_id user = do
  actor ← authenticated user
  membership ← gets (λ db. find? (membership_of room_id actor) db.memberships)
  now ← gets (λ db. db.clock)
  throw_if (not (is_staff user.role) && not (manages now membership)) forbidden

abbrev pub owns : ℕ → Option RoomMembership → Bool
owns now none = false
owns now (some m) = is_active m.status && (not (has_expired now m.expires_at) && is_owner m.role)

unfoldable pub require_policy_owner : ℕ → GatewayUser → Action (Unit {0})
require_policy_owner room_id user = do
  actor ← authenticated user
  membership ← gets (λ db. find? (membership_of room_id actor) db.memberships)
  now ← gets (λ db. db.clock)
  throw_if (not (is_admin user.role) && not (owns now membership)) forbidden

-- The `where` of `managedRoomIds`.
abbrev pub managed_by : ℕ → ℕ → RoomMembership → Bool
managed_by now actor m = (m.user_id == actor) && manages now (some m)

unfoldable pub managed_room_ids : GatewayUser → Action (List ℕ)
managed_room_ids user = do
  actor ← authenticated user
  gets (λ db. map (λ m. m.room_id) (select (managed_by db.clock actor) db.memberships))
