-- ===== src/Rooms/Owners.antt =====
-- Every room keeps an active owner, through every method of RoomsService.
use aca_social.Base.{
  ℕ, ◌≤◌, ◌≡◌, ◌⊎◌, inl, inr, refl, sym, subst, subst₂, true, false, Option, none, some, arith,
  find?, count, find?-satisfies, count-replace, count-append_le, Option-cases,
}
use aca_social.Store.{
  Db, GatewayUser, Room, RoomMembership, MemberStatus, Result, ok, err, room_is, is_active,
  membership_of, Ends, check-Ends, check_then-Ends, check_when-Ends, gets-Ends, fetch-Ends,
  throw_if-Ends, modify-Ends, pure-Ends, throw-Ends, transaction-Ends,
}
use aca_social.Policy.Checks.{authenticated-Checks}
use aca_social.Rooms.Checks.{require_room_manager-Checks, require_policy_owner-Checks}
use aca_social.Rooms.Access.{new_member, insert_or_ignore, assert_can_post, PostingContext}
use aca_social.Rooms.Posting.{Posting, Joins, assert_can_post-Ends}
use aca_social.Rooms.Members.{
  UpdateMembershipDto, active_owner_of, save_membership, rejoin, join_as, join, change_member,
  save_change, demotes_owner, update_membership,
}

abbrev pub active_owners : ℕ → Db → ℕ
active_owners room db = count (active_owner_of room) db.memberships

-- There is no such room, or it has an active owner.
abbrev pub IsOwned : ℕ → Db → Type 0
IsOwned room db = (find? (room_is room) db.rooms ≡ none) ⊎ (1 ≤ active_owners room db)

save_change-owners :
    (room target member actor : ℕ) (dto : UpdateMembershipDto) (m : RoomMembership) (db : Db)
    → find? (membership_of target member) db.memberships ≡ some m
    → 1 ≤ active_owners room db
    → (demotes_owner dto m ≡ true → 2 ≤ active_owners target db)
    → 1 ≤ active_owners room (save_change target member dto actor m db)
save_change-owners room target member actor dto m db found has safe = ground (
  arith,
  find?-satisfies (membership_of target member) db.memberships m found,
  count-replace (membership_of target member) (active_owner_of room) (change_member dto actor m)
      db.memberships m found,
)

-- What holds before a change of a membership, and of the change itself, holds after the call.
pub update_membership-Ends :
    (I : Db → Type 0) (target member : ℕ) (dto : UpdateMembershipDto) (user : GatewayUser) (db : Db)
    → I db
    → ((actor : ℕ) (m : RoomMembership)
        → find? (membership_of target member) db.memberships ≡ some m
        → (demotes_owner dto m ≡ true → 2 ≤ active_owners target db)
        → I (save_change target member dto actor m db))
    → Ends (λ _ db'. I db') (update_membership target member dto user db)
unfolding update_membership
update_membership-Ends I target member dto user db has keep =
    check-Ends _ _ _ _ (authenticated-Checks user db) (λ e. has)
      λ actor _.
        check_then-Ends _ _ _ _ (require_room_manager-Checks target user db) (λ e. has)
          λ _ _.
            check_when-Ends _ _ _ _ _ (require_policy_owner-Checks target user db) (λ e. has)
              λ _.
                transaction-Ends _ _ (λ e. has)
                  (fetch-Ends _ _ _ _ tt λ r _. fetch-Ends _ _ _ _ tt λ m found. gets-Ends _ _ _ (
                    gets-Ends _ _ _ (
                      throw_if-Ends _ _ _ _ tt λ _. gets-Ends _ _ _ (
                        throw_if-Ends _ _ _ _ tt λ safe. throw_if-Ends _ _ _ _ tt λ _.
                          modify-Ends _ _ _ (pure-Ends _ _ (keep actor m found (ground arith)))))))

-- A change of a membership, whoever makes it and whether or not it is refused, leaves every room
-- that had an active owner with one.
pub update_membership-keeps_owner :
    (room target member : ℕ) (dto : UpdateMembershipDto) (user : GatewayUser) (db : Db)
    → 1 ≤ active_owners room db
    → 1 ≤ active_owners room (update_membership target member dto user db).1
update_membership-keeps_owner room target member dto user db has =
    (update_membership-Ends (λ d. 1 ≤ active_owners room d) target member dto user db has
      λ actor m found safe.
        save_change-owners room target member actor dto m db found has safe).holds

-- The rooms are the same, and no room lost an active owner.
abbrev pub KeepsOwners : Db → Db → Type 0
KeepsOwners db db' =
    (db'.rooms ≡ db.rooms) × ((room : ℕ) → active_owners room db ≤ active_owners room db')

insert_or_ignore-KeepsOwners :
    (m : RoomMembership) (db : Db) → KeepsOwners db (insert_or_ignore m db)
unfolding insert_or_ignore
insert_or_ignore-KeepsOwners m db =
    (ground arith, λ room. ground (arith, count-append_le (active_owner_of room) m db.memberships))

pub Joins-KeepsOwners : (id : ℕ) (db db' : Db) → Joins id db db' → KeepsOwners db db'
Joins-KeepsOwners id db db' (inl same) =
    subst (KeepsOwners db) (sym same) (refl, λ room. omega arith)
Joins-KeepsOwners id db db' (inr (actor, same)) =
    subst (KeepsOwners db) (sym same)
      (insert_or_ignore-KeepsOwners (new_member id actor MemberStatus.active) db)

Posting-KeepsOwners :
    (id : ℕ) (user : GatewayUser) (db db' : Db) (r : Result PostingContext)
    → Posting id user db r db'
    → KeepsOwners db db'
Posting-KeepsOwners id user db db' (ok c) h = Joins-KeepsOwners id db db' h.0
Posting-KeepsOwners id user db db' (err e) h = Joins-KeepsOwners id db db' h

pub assert_can_post-KeepsOwners :
    (id : ℕ) (user : GatewayUser) (db : Db) → KeepsOwners db (assert_can_post id user db).1
assert_can_post-KeepsOwners id user db =
    Posting-KeepsOwners id user db _ _ (assert_can_post-Ends id user db).holds

-- A membership that joins anew: none was there, or the member had left.
save_membership-KeepsOwners :
    (m : RoomMembership) (db : Db)
    → ((old : RoomMembership)
        → find? (membership_of m.room_id m.user_id) db.memberships ≡ some old
        → is_active old.status ≡ false)
    → KeepsOwners db (save_membership m db)
unfolding save_membership
save_membership-KeepsOwners m db stale =
    let key = membership_of m.room_id m.user_id in
    elim (Option-cases (find? key db.memberships)) [
      | inl absent ↦ (
        ground arith,
        λ room. ground (arith, count-append_le (active_owner_of room) m db.memberships),
      )
      | inr (old, found) ↦ (
        ground arith,
        λ room. ground (
          arith,
          stale old found,
          count-replace key (active_owner_of room) m db.memberships old found,
        ),
      )
    ]

membership_of-eq :
    (room user : ℕ) (m : RoomMembership)
    → membership_of room user m ≡ true
    → (m.room_id ≡ room) × (m.user_id ≡ user)
membership_of-eq room user m h = ground arith

same : (db : Db) → KeepsOwners db db
same db = (refl, λ room. omega arith)

rejoin-Ends :
    (room : Room) (m : RoomMembership) (db : Db) (status : MemberStatus)
    → m.status ≡ status
    → find? (membership_of m.room_id m.user_id) db.memberships ≡ some m
    → Ends (λ _ db'. KeepsOwners db db') (rejoin room m status db)
unfolding rejoin
rejoin-Ends room m db MemberStatus.left is found =
    modify-Ends _ _ _ (pure-Ends _ _ (save_membership-KeepsOwners _ db λ old same. ground arith))
rejoin-Ends room m db MemberStatus.banned is found = throw-Ends _ _ (same db)
rejoin-Ends room m db _ is found = pure-Ends _ _ (same db)

join_as-Ends :
    (id : ℕ) (room : Room) (actor : ℕ) (m : Option RoomMembership) (db : Db)
    → find? (membership_of id actor) db.memberships ≡ m
    → Ends (λ _ db'. KeepsOwners db db') (join_as id room actor m db)
unfolding join_as
join_as-Ends id room actor none db found =
    modify-Ends _ _ _ (pure-Ends _ _ (save_membership-KeepsOwners _ db λ old same. absurd (cc)))
join_as-Ends id room actor (some m) db found =
    let (r, u) = membership_of-eq id actor m (find?-satisfies _ _ m found) in
    rejoin-Ends room m db m.status refl
      (subst₂ (λ a b. find? (membership_of a b) db.memberships ≡ some m) (sym r) (sym u) found)

join-Ends :
    (id : ℕ) (user : GatewayUser) (db : Db) → Ends (λ _ db'. KeepsOwners db db') (join id user db)
unfolding join
join-Ends id user db =
    check-Ends _ _ _ _ (authenticated-Checks user db) (λ e. same db)
      λ actor _. fetch-Ends _ _ _ _ (same db) λ room _.
        throw_if-Ends _ _ _ _ (same db) λ _. gets-Ends _ _ _ (join_as-Ends id room actor _ db refl)

pub join-KeepsOwners : (id : ℕ) (user : GatewayUser) (db : Db) → KeepsOwners db (join id user db).1
join-KeepsOwners id user db = (join-Ends id user db).holds
