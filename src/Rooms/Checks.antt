-- ===== src/Rooms/Checks.antt =====
-- What the checks of RoomsService establish. They write nothing.
use aca_social.Base.{ℕ, ◌≡◌, refl, true, not, ◌||◌, some, arith, find?}
use aca_social.Store.{
  GatewayUser, Db, Room, is_staff, is_admin, membership_of, room_is, Checks, check-Ends, gets-Ends,
  fetch-Ends, throw_if-Ends, pure-Ends, last_throw_if-Ends,
}
use aca_social.Policy.Checks.{authenticated-Checks}
use aca_social.Rooms.Permission.{manages, owns, require_room_manager, require_policy_owner}
use aca_social.Rooms.Access.{is_private, is_member, membership, find_one}

-- The user is staff, or holds an active, unexpired membership that satisfies `holds`.
abbrev pub Manages : ℕ → GatewayUser → Db → Type 0
Manages room user db =
    (actor : ℕ) × (user.id ≡ some actor)
    × ((is_staff user.role || manages db.clock (find? (membership_of room actor) db.memberships))
        ≡ true)

abbrev pub Owns : ℕ → GatewayUser → Db → Type 0
Owns room user db =
    (actor : ℕ) × (user.id ≡ some actor)
    × ((is_admin user.role || owns db.clock (find? (membership_of room actor) db.memberships))
        ≡ true)

pub require_room_manager-Checks :
    (room : ℕ) (user : GatewayUser) (db : Db)
    → Checks (λ _. Manages room user db) db (require_room_manager room user db)
unfolding require_room_manager
require_room_manager-Checks room user db =
    check-Ends _ _ _ _ (authenticated-Checks user db) (λ e. refl)
      λ actor e.
        gets-Ends _ _ _
          (gets-Ends _ _ _ (last_throw_if-Ends _ _ _ refl λ t. (refl, (actor, e, ground arith))))

pub require_policy_owner-Checks :
    (room : ℕ) (user : GatewayUser) (db : Db)
    → Checks (λ _. Owns room user db) db (require_policy_owner room user db)
unfolding require_policy_owner
require_policy_owner-Checks room user db =
    check-Ends _ _ _ _ (authenticated-Checks user db) (λ e. refl)
      λ actor e.
        gets-Ends _ _ _
          (gets-Ends _ _ _ (last_throw_if-Ends _ _ _ refl λ t. (refl, (actor, e, ground arith))))

-- The room is there, and is not private, or the user is staff or an active member.
abbrev pub Enters : ℕ → GatewayUser → Db → Type 0
Enters id user db =
    (room : Room) × (find? (room_is id) db.rooms ≡ some room)
    × ((not (is_private room.visibility)
          || (is_staff user.role || is_member (membership db id user.id)))
        ≡ true)

pub find_one-Checks :
    (id : ℕ) (user : GatewayUser) (db : Db)
    → Checks (λ _. Enters id user db) db (find_one id user db)
unfolding find_one
find_one-Checks id user db = fetch-Ends _ _ _ _ refl λ room found. gets-Ends _ _ _ (
    throw_if-Ends _ _ _ _ refl
      λ t. gets-Ends _ _ _ (pure-Ends _ _ (refl, (room, found, ground arith))))
