-- ===== src/Rooms/Govern.antt =====
-- Rules, status and policy of a room: `addRule`, `updateStatus` and `updatePolicy`.
use aca_social.Base.{
  ℕ, ◌+◌, Bool, true, false, not, ◌&&◌, ◌||◌, Option, none, some, [], ◌∷◌, ◌++◌, ◌==◌, String,
  str_eq, is_some, or_else, find?, replace,
}
use aca_social.Store.{
  GatewayUser, Room, RoomRule, Severity, RoomStatus, ReviewPolicy, PolicyAudit, policy_change, Db,
  room_rules_changed, is_admin, room_is, Action, forbidden, not_found, pure, gets, fetch, throw_if,
  modify, transaction, new_id, ◌>>=◌, ◌>>◌,
}
use aca_social.Policy.{authenticated}
use aca_social.Outbox.{emit}
use aca_social.Rooms.Permission.{require_room_manager, require_policy_owner}

abbrev pub save_room : Room → Db → Db
save_room r db = record db { rooms = replace (room_is r.id) r db.rooms }

unfoldable pub update_status : ℕ → RoomStatus → GatewayUser → Action Room
update_status room_id status user = do
  require_room_manager room_id user
  room ← fetch (λ db. find? (room_is room_id) db.rooms) not_found
  let room' = record room { status = status }
  modify (save_room room')
  pure room'

pub record UpdateRoomPolicyDto : Type 0 where
  pub review_policy : ReviewPolicy
  pub policy_locked : Option Bool

abbrev pub change_policy : UpdateRoomPolicyDto → Room → Room
change_policy dto room = record room {
  review_policy = dto.review_policy;
  policy_locked = or_else dto.policy_locked room.policy_locked;
}

abbrev pub policy_audit : ℕ → UpdateRoomPolicyDto → Room → PolicyAudit
policy_audit actor dto room = record {
  room_id = room.id;
  actor_id = actor;
  member_id = none;
  before = policy_change room.review_policy (some room.policy_locked);
  after = policy_change dto.review_policy dto.policy_locked;
}

abbrev pub add_audit : PolicyAudit → Db → Db
add_audit a db = record db { audits = db.audits ++ a ∷ [] }

unfoldable pub update_policy : ℕ → UpdateRoomPolicyDto → GatewayUser → Action Room
update_policy room_id dto user = do
  actor ← authenticated user
  require_policy_owner room_id user
  transaction (do
    room ← fetch (λ db. find? (room_is room_id) db.rooms) not_found
    throw_if (not (is_admin user.role) && (room.policy_locked || is_some dto.policy_locked))
        forbidden
    modify (add_audit (policy_audit actor dto room))
    modify (save_room (change_policy dto room))
    pure (change_policy dto room))

pub record CreateRoomRuleDto : Type 0 where
  pub rule_code : String
  pub title : String
  pub description : String
  pub severity : Severity

-- `{ roomId, ruleCode, active: true }`
abbrev pub active_rule : ℕ → String → RoomRule → Bool
active_rule room rule_code r = (r.room_id == room) && (str_eq r.rule_code rule_code && r.active)

abbrev pub version_of : Option RoomRule → ℕ
version_of none = 0
version_of (some r) = r.version

abbrev pub new_rule : ℕ → ℕ → ℕ → CreateRoomRuleDto → RoomRule
new_rule id room version dto = record {
  id = id;
  room_id = room;
  rule_code = dto.rule_code;
  title = dto.title;
  description = dto.description;
  severity = dto.severity;
  version = version;
  active = true;
}

-- `previous.active = false`
abbrev pub retire_rule : ℕ → String → Option RoomRule → Db → Db
retire_rule room rule_code none db = db
retire_rule room rule_code (some r) db = record db {
  rules = replace (active_rule room rule_code) (record r { active = false }) db.rules;
}

abbrev pub add_rule_row : RoomRule → Db → Db
add_rule_row r db = record db { rules = db.rules ++ r ∷ [] }

unfoldable pub add_rule : ℕ → CreateRoomRuleDto → GatewayUser → Action RoomRule
add_rule room_id dto user = do
  require_room_manager room_id user
  transaction (do
    room ← fetch (λ db. find? (room_is room_id) db.rooms) not_found
    previous ← gets (λ db. find? (active_rule room_id dto.rule_code) db.rules)
    modify (retire_rule room_id dto.rule_code previous)
    id ← new_id
    let rule = new_rule id room_id (version_of previous + 1) dto
    modify (add_rule_row rule)
    let room' = record room { rules_version = room.rules_version + 1 }
    modify (save_room room')
    emit (room_rules_changed room_id room'.rules_version)
    pure rule)
