-- ===== src/Rooms/Lifecycle.antt =====
-- A room's life: any sequence of calls of RoomsService, in any order, by any users.
use aca_social.Base.{
  ℕ, ◌+◌, ◌≤◌, ◌≡◌, ◌⊎◌, inl, inr, refl, sym, subst, Option, none, some, List, [], ◌∷◌, ◌++◌, ◌==◌,
  String, arith, find?, replace, count, find?-satisfies, find?-append_other, find?-replace_absent,
  count-append, Bool-cases,
}
use aca_social.Store.{
  Db, GatewayUser, Event, Room, RoomRule, RoomAcademicBinding, RoomMembership, RoomStatus, RoomType,
  room_is, Ends, check-Ends, check_then-Ends, gets-Ends, fetch-Ends, lift-Ends, or_throw-Ends,
  new_id-Ends, throw_if-Ends, modify-Ends, bind-Ends, pure-Ends, transaction-Ends, Checks,
  last_when-Checks, lift_then-Ends, on_ok, last_check-Ends, room_created, branch-Ends,
  last_throw_if-Ends,
}
use aca_social.Outbox.{add_event}
use aca_social.Policy.Checks.{authenticated-Checks}
use aca_social.Rooms.Checks.{
  require_room_manager-Checks, require_policy_owner-Checks, find_one-Checks,
}
use aca_social.Rooms.Access.{assert_can_post}
use aca_social.Rooms.Members.{UpdateMembershipDto, active_owner_of, join, update_membership}
use aca_social.Rooms.Govern.{
  UpdateRoomPolicyDto, CreateRoomRuleDto, change_policy, update_status, update_policy, active_rule,
  add_rule, retire_rule,
}
use aca_social.Rooms.Create.{
  AcademicReference, AcademicContext, CreateRoomDto, require_parent_manager, course_context,
  check_major, check_course, first_owner, add_room, add_binding, add_membership, new_binding,
  insert_room, create,
}
use aca_social.Rooms.Owners.{
  IsOwned, KeepsOwners, join-KeepsOwners, assert_can_post-KeepsOwners, update_membership-Ends,
  update_membership-keeps_owner,
}

-- The requests that reach RoomsService and write.
pub data Call : Type 0 where
  creates : CreateRoomDto → GatewayUser → Call
  joins : ℕ → GatewayUser → Call
  posts : ℕ → GatewayUser → Call
  changes_member : ℕ → ℕ → UpdateMembershipDto → GatewayUser → Call
  changes_status : ℕ → RoomStatus → GatewayUser → Call
  changes_policy : ℕ → UpdateRoomPolicyDto → GatewayUser → Call
  adds_rule : ℕ → CreateRoomRuleDto → GatewayUser → Call

unfoldable pub perform : AcademicReference → Call → Db → Db
perform academic (creates dto user) db = (create academic dto user db).1
perform academic (joins id user) db = (join id user db).1
perform academic (posts id user) db = (assert_can_post id user db).1
perform academic (changes_member id member dto user) db =
    (update_membership id member dto user db).1
perform academic (changes_status id status user) db = (update_status id status user db).1
perform academic (changes_policy id dto user) db = (update_policy id dto user db).1
perform academic (adds_rule id dto user) db = (add_rule id dto user db).1

unfoldable pub run : AcademicReference → List Call → Db → Db
unfolding perform
run academic [] db = db
run academic (c ∷ cs) db = run academic cs (perform academic c db)

KeepsOwners-IsOwned :
    (room : ℕ) (db db' : Db) → KeepsOwners db db' → IsOwned room db → IsOwned room db'
KeepsOwners-IsOwned room db db' (same, more) (inl e) =
    inl (subst (λ rs. find? (room_is room) rs ≡ none) (sym same) e)
KeepsOwners-IsOwned room db db' (same, more) (inr h) = inr (omega (arith, more room))

-- `IsOwned`, of the two tables alone.
abbrev IsOwnedIn : ℕ → List Room → List RoomMembership → Type 0
IsOwnedIn room rooms members =
    (find? (room_is room) rooms ≡ none) ⊎ (1 ≤ count (active_owner_of room) members)

save_room-IsOwned :
    (room id : ℕ) (r r' : Room) (rooms : List Room) (members : List RoomMembership)
    → find? (room_is id) rooms ≡ some r
    → r'.id ≡ r.id
    → IsOwnedIn room rooms members
    → IsOwnedIn room (replace (room_is r'.id) r' rooms) members
save_room-IsOwned room id r r' rooms members found same (inl e) =
    let key : id ≡ r'.id = ground (arith, find?-satisfies (room_is id) rooms r found) in
    inl (
      find?-replace_absent (room_is r'.id) (room_is room) r' rooms r
        (subst (λ k. find? (room_is k) rooms ≡ some r) key found) (ground arith) e)
save_room-IsOwned room id r r' rooms members found same (inr h) = inr h

update_status-Ends :
    (room id : ℕ) (status : RoomStatus) (user : GatewayUser) (db : Db)
    → IsOwned room db
    → Ends (λ _ db'. IsOwned room db') (update_status id status user db)
unfolding update_status
update_status-Ends room id status user db has =
    check_then-Ends _ _ _ _ (require_room_manager-Checks id user db) (λ e. has)
      λ _ _. fetch-Ends _ _ _ _ has λ r found.
        modify-Ends _ _ _ (pure-Ends _ _ (save_room-IsOwned room id r _ _ _ found refl has))

update_policy-Ends :
    (room id : ℕ) (dto : UpdateRoomPolicyDto) (user : GatewayUser) (db : Db)
    → IsOwned room db
    → Ends (λ _ db'. IsOwned room db') (update_policy id dto user db)
unfolding update_policy
update_policy-Ends room id dto user db has =
    check-Ends _ _ _ _ (authenticated-Checks user db) (λ e. has)
      λ actor _.
        check_then-Ends _ _ _ _ (require_policy_owner-Checks id user db) (λ e. has)
          λ _ _.
            transaction-Ends _ _ (λ e. has)
              (fetch-Ends _ _ _ _ tt λ r found. throw_if-Ends _ _ _ _ tt λ _. modify-Ends _ _ _ (
                modify-Ends _ _ _ (
                  pure-Ends _ _
                    (save_room-IsOwned room id r (change_policy dto r) _ _ found refl has))))

retire_rule_same :
    (id : ℕ) (code : String) (r : Option RoomRule) (db : Db)
    → ((retire_rule id code r db).rooms ≡ db.rooms)
      × ((retire_rule id code r db).memberships ≡ db.memberships)
retire_rule_same id code none db = (refl, refl)
retire_rule_same id code (some r) db = (refl, refl)

add_rule-Ends :
    (room id : ℕ) (dto : CreateRoomRuleDto) (user : GatewayUser) (db : Db)
    → IsOwned room db
    → Ends (λ _ db'. IsOwned room db') (add_rule id dto user db)
unfolding add_rule
add_rule-Ends room id dto user db has =
    check_then-Ends _ _ _ _ (require_room_manager-Checks id user db) (λ e. has)
      λ _ _.
        transaction-Ends _ _ (λ e. has)
          (fetch-Ends _ _ _ _ tt λ r found. gets-Ends _ _ _ (
            modify-Ends _ _ _ (
              new_id-Ends _ _ (
                modify-Ends _ _ _ (
                  modify-Ends _ _ _ (
                    modify-Ends _ _ _ (
                      pure-Ends _ _ (
                        let (a, b) =
                          retire_rule_same id dto.rule_code
                            (find? (active_rule id dto.rule_code) db.rules) db in
                        rw (a, b)
                          (save_room-IsOwned room id r
                            (record r { rules_version = r.rules_version + 1 }) _ _ found refl
                            has)))))))))

-- The rows that creating a room adds: the new room, its binding and its owner.
created-IsOwned :
    (room actor : ℕ) (r : Room) (rooms : List Room) (members : List RoomMembership)
    → IsOwnedIn room rooms members
    → IsOwnedIn room (rooms ++ r ∷ []) (members ++ first_owner r.id actor ∷ [])
created-IsOwned room actor r rooms members has = elim (Bool-cases (r.id == room)) [
  | inl new ↦
      inr (ground (arith, count-append (active_owner_of room) (first_owner r.id actor) members))
  | inr old ↦ ground (
    arith,
    find?-append_other (room_is room) r rooms old,
    count-append (active_owner_of room) (first_owner r.id actor) members,
  )
]

inserted-IsOwned :
    (room actor : ℕ) (r : Room) (b : Option RoomAcademicBinding) (event : Event) (db : Db)
    → IsOwned room db
    → IsOwned room
        (add_event event (add_membership (first_owner r.id actor) (add_binding b (add_room r db))))
inserted-IsOwned room actor r none event db has = created-IsOwned room actor r _ _ has
inserted-IsOwned room actor r (some b) event db has = created-IsOwned room actor r _ _ has

insert_room-Ends :
    (room : ℕ) (dto : CreateRoomDto) (actor : ℕ) (context : Option AcademicContext)
    (parent : Option Room) (db : Db)
    → IsOwned room db
    → Ends (λ _ db'. IsOwned room db') (insert_room dto actor context parent db)
unfolding insert_room
insert_room-Ends room dto actor context parent db has = gets-Ends _ _ _ (
    throw_if-Ends _ _ _ _ has λ free. new_id-Ends _ _ (
      gets-Ends _ _ _ (
        modify-Ends _ _ _ (
          gets-Ends _ _ _ (
            modify-Ends _ _ _ (
              modify-Ends _ _ _ (
                modify-Ends _ _ _ (
                  pure-Ends _ _ (
                    inserted-IsOwned room actor _ (new_binding _ dto context parent _)
                      (room_created db.next_id dto.room_type) _ has)))))))))

require_parent_manager-Checks :
    (type : RoomType) (parent : Option Room) (user : GatewayUser) (db : Db)
    → Checks (λ _. Unit) db (require_parent_manager type parent user db)
unfolding require_parent_manager
require_parent_manager-Checks type none user db = pure-Ends _ _ (refl, tt)
require_parent_manager-Checks type (some parent) user db =
    last_when-Checks _ _ _ (require_room_manager-Checks parent.id user db)

course_context-Checks :
    (academic : AcademicReference) (dto : CreateRoomDto) (parent : Option Room) (db : Db)
    → Checks (λ _. Unit) db (course_context academic dto parent db)
unfolding course_context
course_context-Checks academic dto parent db =
    branch-Ends _ _ _ _
      (λ _. or_throw-Ends _ _ _ _ refl λ id _.
        lift-Ends _ _ _ (λ e. refl)
          λ c _.
            or_throw-Ends _ _ _ _ refl
              λ r _. gets-Ends _ _ _ (throw_if-Ends _ _ _ _ refl λ _. pure-Ends _ _ (refl, tt)))
      (λ _. pure-Ends _ _ (refl, tt))

check_major-Checks :
    (academic : AcademicReference) (dto : CreateRoomDto) (db : Db)
    → Checks (λ _. Unit) db (check_major academic dto db)
unfolding check_major
check_major-Checks academic dto db =
    branch-Ends _ _ _ _
      (λ _. or_throw-Ends _ _ _ _ refl λ id _.
        lift_then-Ends _ _ _ (λ e. refl)
          λ c _. gets-Ends _ _ _ (last_throw_if-Ends _ _ _ refl λ _. (refl, tt)))
      (λ _. pure-Ends _ _ (refl, tt))

check_course-Checks : (dto : CreateRoomDto) (db : Db) → Checks (λ _. Unit) db (check_course dto db)
unfolding check_course
check_course-Checks dto db = gets-Ends _ _ _ (last_throw_if-Ends _ _ _ refl λ _. (refl, tt))

create-Ends :
    (room : ℕ) (academic : AcademicReference) (dto : CreateRoomDto) (user : GatewayUser) (db : Db)
    → IsOwned room db
    → Ends (λ _ db'. IsOwned room db') (create academic dto user db)
unfolding create
create-Ends room academic dto user db has =
    check-Ends _ _ _ _ (authenticated-Checks user db) (λ e. has)
      λ actor _. throw_if-Ends _ _ _ _ has λ _. throw_if-Ends _ _ _ _ has λ _. gets-Ends _ _ _ (
        throw_if-Ends _ _ _ _ has λ _. throw_if-Ends _ _ _ _ has λ _.
          check_then-Ends _ _ _ _ (require_parent_manager-Checks _ _ user db) (λ e. has)
            λ _ _.
              check-Ends _ _ _ _ (course_context-Checks academic dto _ db) (λ e. has)
                λ context _.
                  check_then-Ends _ _ _ _ (check_major-Checks academic dto db) (λ e. has)
                    λ _ _.
                      check_then-Ends _ _ _ _ (check_course-Checks dto db) (λ e. has)
                        λ _ _.
                          bind-Ends (λ _ db'. IsOwned room db') _ _ _
                            (transaction-Ends _ _ (λ e. has)
                              (on_ok (insert_room-Ends room dto actor context _ db has)))
                            (λ e db' h. h)
                            (λ id db' h. last_check-Ends (find_one-Checks id user db') h))

update_membership-IsOwned :
    (room id member : ℕ) (dto : UpdateMembershipDto) (user : GatewayUser) (db : Db)
    → IsOwned room db
    → IsOwned room (update_membership id member dto user db).1
update_membership-IsOwned room id member dto user db (inl e) =
    (update_membership-Ends (IsOwned room) id member dto user db (inl e) λ actor m _ _. inl e).holds
update_membership-IsOwned room id member dto user db (inr h) =
    inr (update_membership-keeps_owner room id member dto user db h)

perform-IsOwned :
    (room : ℕ) (academic : AcademicReference) (c : Call) (db : Db)
    → IsOwned room db
    → IsOwned room (perform academic c db)
unfolding perform
perform-IsOwned room academic (creates dto user) db h =
    (create-Ends room academic dto user db h).holds
perform-IsOwned room academic (joins id user) db h =
    KeepsOwners-IsOwned room db (join id user db).1 (join-KeepsOwners id user db) h
perform-IsOwned room academic (posts id user) db h =
    KeepsOwners-IsOwned room db (assert_can_post id user db).1
      (assert_can_post-KeepsOwners id user db) h
perform-IsOwned room academic (changes_member id member dto user) db h =
    update_membership-IsOwned room id member dto user db h
perform-IsOwned room academic (changes_status id status user) db h =
    (update_status-Ends room id status user db h).holds
perform-IsOwned room academic (changes_policy id dto user) db h =
    (update_policy-Ends room id dto user db h).holds
perform-IsOwned room academic (adds_rule id dto user) db h =
    (add_rule-Ends room id dto user db h).holds

-- Whatever calls are made, in any order and by any users, from a database in which a room is absent
-- or has an active owner: afterwards too, the room is absent or has an active owner.
pub run-IsOwned :
    (room : ℕ) (academic : AcademicReference) (cs : List Call) (db : Db)
    → IsOwned room db
    → IsOwned room (run academic cs db)
unfolding run
run-IsOwned room academic [] db h = h
run-IsOwned room academic (c ∷ cs) db h =
    run-IsOwned room academic cs (perform academic c db) (perform-IsOwned room academic c db h)
