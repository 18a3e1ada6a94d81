-- ===== src/Rooms/Members.antt =====
-- Joining a room and changing a membership: `join` and `updateMembership`.
use aca_social.Base.{
  ℕ, Bool, true, false, not, ◌&&◌, ◌||◌, Option, none, some, [], ◌∷◌, ◌++◌, ◌==◌, leb,
  if◌then◌else◌, is_some, find?, replace, count,
}
use aca_social.Store.{
  GatewayUser, Room, RoomMembership, MembershipPolicy, MemberRole, MemberStatus, PostPermission,
  PolicyAudit, membership_change, Db, is_admin, is_owner, is_active, same_permission, room_is,
  membership_of, Action, forbidden, not_found, conflict, pure, throw, gets, fetch, throw_if, modify,
  when, transaction, ◌>>=◌, ◌>>◌,
}
use aca_social.Policy.{authenticated}
use aca_social.Rooms.Permission.{owns, require_room_manager, require_policy_owner}
use aca_social.Rooms.Access.{new_member}

-- `save`: the row of this room and user is written over, or added.
unfoldable pub save_membership : RoomMembership → Db → Db
save_membership m db =
    let key = membership_of m.room_id m.user_id in
    record db {
      memberships =
          if is_some (find? key db.memberships)
          then replace key m db.memberships
          else db.memberships ++ m ∷ [];
    }

abbrev pub is_invite_only : MembershipPolicy → Bool
is_invite_only MembershipPolicy.invite_only = true
is_invite_only _ = false

abbrev pub status_on_join : MembershipPolicy → MemberStatus
status_on_join MembershipPolicy.approval = MemberStatus.pending
status_on_join _ = MemberStatus.active

-- What `join` does with the membership that it found, by its status.
unfoldable pub rejoin : Room → RoomMembership → MemberStatus → Action RoomMembership
rejoin room m MemberStatus.banned = throw forbidden
rejoin room m MemberStatus.left = do
  let m' = record m {
    role = MemberRole.member;
    status = status_on_join room.membership_policy;
    assigned_by = none;
    expires_at = none;
  }
  modify (save_membership m')
  pure m'
rejoin room m _ = pure m

unfoldable pub join_as : ℕ → Room → ℕ → Option RoomMembership → Action RoomMembership
join_as id room actor none = do
  let m = new_member id actor (status_on_join room.membership_policy)
  modify (save_membership m)
  pure m
join_as id room actor (some m) = rejoin room m m.status

unfoldable pub join : ℕ → GatewayUser → Action RoomMembership
join id user = do
  actor ← authenticated user
  room ← fetch (λ db. find? (room_is id) db.rooms) not_found
  throw_if (is_invite_only room.membership_policy) forbidden
  existing ← gets (λ db. find? (membership_of id actor) db.memberships)
  join_as id room actor existing

pub record UpdateMembershipDto : Type 0 where
  pub post_permission : Option PostPermission
  pub role : MemberRole
  pub status : MemberStatus

abbrev pub active_owner_of : ℕ → RoomMembership → Bool
active_owner_of room m = (m.room_id == room) && (is_owner m.role && is_active m.status)

-- `dto.postPermission !== undefined && dto.postPermission !== membership.postPermission`
abbrev pub changes_permission : Option PostPermission → PostPermission → Bool
changes_permission none old = false
changes_permission (some new) old = not (same_permission new old)

abbrev pub permission_after : Option PostPermission → PostPermission → PostPermission
permission_after none old = old
permission_after (some new) old = new

abbrev pub change_member : UpdateMembershipDto → ℕ → RoomMembership → RoomMembership
change_member dto actor m = record m {
  role = dto.role;
  status = dto.status;
  assigned_by = some actor;
  post_permission = permission_after dto.post_permission m.post_permission;
}

abbrev pub membership_audit : ℕ → ℕ → UpdateMembershipDto → RoomMembership → PolicyAudit
membership_audit actor member dto m = record {
  room_id = m.room_id;
  actor_id = actor;
  member_id = some member;
  before = membership_change m.role m.status (some m.post_permission);
  after = membership_change dto.role dto.status dto.post_permission;
}

abbrev pub save_change : ℕ → ℕ → UpdateMembershipDto → ℕ → RoomMembership → Db → Db
save_change room member dto actor m db = record db {
  memberships = replace (membership_of room member) (change_member dto actor m) db.memberships;
  audits = db.audits ++ membership_audit actor member dto m ∷ [];
}

-- The change takes the owner role away, or leaves the owner inactive.
abbrev pub demotes_owner : UpdateMembershipDto → RoomMembership → Bool
demotes_owner dto m =
    is_owner m.role && (is_active m.status && not (is_owner dto.role && is_active dto.status))

unfoldable pub update_membership : ℕ → ℕ → UpdateMembershipDto → GatewayUser → Action RoomMembership
update_membership room_id member_id dto user = do
  actor ← authenticated user
  require_room_manager room_id user
  when (is_some dto.post_permission) (require_policy_owner room_id user)
  transaction (do
    room ← fetch (λ db. find? (room_is room_id) db.rooms) not_found
    m ← fetch (λ db. find? (membership_of room_id member_id) db.memberships) not_found
    own ← gets (λ db. find? (membership_of room_id actor) db.memberships)
    now ← gets (λ db. db.clock)
    throw_if
        ((is_owner m.role || (is_owner dto.role || is_some dto.post_permission))
          && not (is_admin user.role || owns now own))
        forbidden
    owners ← gets (λ db. count (active_owner_of room_id) db.memberships)
    throw_if (demotes_owner dto m && leb owners 1) conflict
    throw_if
        (room.policy_locked
          && (not (is_admin user.role) && changes_permission dto.post_permission m.post_permission))
        forbidden
    modify (save_change room_id member_id dto actor m)
    pure (change_member dto actor m))
