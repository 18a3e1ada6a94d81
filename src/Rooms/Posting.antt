-- ===== src/Rooms/Posting.antt =====
-- Who may post: what `assertCanPost` grants, what it writes, and how it agrees with the permission
-- that `list` shows.
use aca_social.Base.{
  ℕ, ◌≡◌, ◌⊎◌, inl, inr, refl, sym, ap, ◌∙◌, true, false, not, ◌&&◌, ◌||◌, Option, none, some,
  arith, if◌then◌else◌, find?, Bool-cases,
}
use aca_social.Store.{
  GatewayUser, Db, Room, RoomMembership, MemberStatus, PostPermission, Result, ok, err, is_active,
  room_is, membership_of, Ends, Ends-ok, check-Ends, gets-Ends, fetch-Ends, throw_if-Ends,
  when-Ends, pure-Ends,
}
use aca_social.Policy.Checks.{authenticated-Checks}
use aca_social.Rooms.Permission.{has_expired, post_permission}
use aca_social.Rooms.Access.{
  PostingContext, new_member, insert_or_ignore, joins_by_posting, is_active_room, is_private,
  is_members, is_approved_contributors, is_member, is_barred, is_approved_member, is_approval,
  membership_expired, assert_can_post,
}

-- The database after the visitor was made a member, where the room lets posting do that.
abbrev pub joined : ℕ → ℕ → Room → Db → Db
joined id actor room db =
    if joins_by_posting room (find? (membership_of id actor) db.memberships)
    then insert_or_ignore (new_member id actor MemberStatus.active) db
    else db

-- The database is the same but for a membership that was added.
abbrev pub Joins : ℕ → Db → Db → Type 0
Joins id db db' =
    (db' ≡ db)
    ⊎ ((actor : ℕ) × (db' ≡ insert_or_ignore (new_member id actor MemberStatus.active) db))

-- What the checks on the membership establish.
abbrev pub Allowed : ℕ → Room → Option RoomMembership → Type 0
Allowed now room m =
    (membership_expired now m ≡ false)
    × (is_barred m ≡ false)
    × ((is_private room.visibility && not (is_member m)) ≡ false)
    × ((is_members room.posting_policy && not (is_member m)) ≡ false)
    × ((is_approved_contributors room.posting_policy && not (is_approved_member m)) ≡ false)

abbrev pub CanPost : ℕ → GatewayUser → Db → PostingContext → Db → Type 0
CanPost id user db c db' =
    (actor : ℕ) × (user.id ≡ some actor)
    × (find? (room_is id) db.rooms ≡ some c.room)
    × (is_active_room c.room.status ≡ true)
    × Allowed db'.clock c.room (find? (membership_of id actor) db'.memberships)
    × (c.requires_approval
        ≡ is_approval
            (post_permission db'.clock c.room (find? (membership_of id actor) db'.memberships)))

abbrev pub Posting : ℕ → GatewayUser → Db → Result PostingContext → Db → Type 0
Posting id user db (ok c) db' = Joins id db db' × CanPost id user db c db'
Posting id user db (err e) db' = Joins id db db'

joined-Joins : (id actor : ℕ) (room : Room) (db : Db) → Joins id db (joined id actor room db)
joined-Joins id actor room db =
    elim (Bool-cases (joins_by_posting room (find? (membership_of id actor) db.memberships))) [
      | inl e ↦ inr (actor, ground arith)
      | inr e ↦ inl (ground arith)
    ]

pub assert_can_post-Ends :
    (id : ℕ) (user : GatewayUser) (db : Db) → Ends (Posting id user db) (assert_can_post id user db)
unfolding assert_can_post
assert_can_post-Ends id user db =
    check-Ends _ _ _ _ (authenticated-Checks user db) (λ e. inl refl)
      λ actor is. fetch-Ends _ _ _ _ (inl refl) λ room found.
        throw_if-Ends _ _ _ _ (inl refl) λ active. gets-Ends _ _ _ (
          when-Ends _ _ _ _ (
            let j = joined-Joins id actor room db in
            gets-Ends _ _ _ (
              gets-Ends _ _ _ (
                throw_if-Ends _ _ _ _ j λ unexpired. throw_if-Ends _ _ _ _ j λ unbarred.
                  throw_if-Ends _ _ _ _ j λ a. throw_if-Ends _ _ _ _ j λ b.
                    throw_if-Ends _ _ _ _ j λ c. gets-Ends _ _ _ (
                      pure-Ends _ _ (
                        j,
                        (actor, is, found, ground arith, (unexpired, unbarred, a, b, c), refl),
                      ))))))

permission_of_Allowed :
    (now : ℕ) (room : Room) (m : Option RoomMembership)
    → Allowed now room m
    → post_permission now room m ≡ (
        if is_approval (post_permission now room m)
        then PostPermission.approval
        else PostPermission.direct)
unfolding post_permission
permission_of_Allowed now room none h = ground arith
permission_of_Allowed now room (some m) h = ground arith

-- Whoever may post has, on the membership that the call leaves, the permission that the room list
-- shows: it is `approval` exactly when the post is to be held, and otherwise `direct`, never
-- `blocked`.
pub assert_can_post_agrees :
    (id : ℕ) (user : GatewayUser) (db : Db) (c : PostingContext)
    → (assert_can_post id user db).0 ≡ ok c
    → let db' = (assert_can_post id user db).1 in
      (actor : ℕ) × (user.id ≡ some actor)
      × (post_permission db'.clock c.room (find? (membership_of id actor) db'.memberships)
          ≡ (if c.requires_approval then PostPermission.approval else PostPermission.direct))
assert_can_post_agrees id user db c e =
    let (_, (actor, is, found, active, allowed, same)) =
      Ends-ok (assert_can_post-Ends id user db) e in
    (
      actor,
      is,
      (permission_of_Allowed _ c.room _ allowed
          ∙ ap (λ b. if b then PostPermission.approval else PostPermission.direct) (sym same)),
    )

member_of_Allowed :
    (now : ℕ) (room : Room) (m : Option RoomMembership)
    → Allowed now room m
    → (is_private room.visibility || is_members room.posting_policy) ≡ true
    → (x : RoomMembership) × (m ≡ some x)
      × (is_active x.status ≡ true)
      × (has_expired now x.expires_at ≡ false)
member_of_Allowed now room none h closed = absurd (ground arith)
member_of_Allowed now room (some m) h closed = (m, refl, ground arith, ground arith)

-- In a private room, and in one where only members post, whoever may post is an active member
-- whose membership has not expired, whatever the role that the gateway forwards.
pub assert_can_post_needs_member :
    (id : ℕ) (user : GatewayUser) (db : Db) (c : PostingContext)
    → (assert_can_post id user db).0 ≡ ok c
    → (is_private c.room.visibility || is_members c.room.posting_policy) ≡ true
    → let db' = (assert_can_post id user db).1 in
      (actor : ℕ) × (m : RoomMembership) × (user.id ≡ some actor)
      × (find? (membership_of id actor) db'.memberships ≡ some m)
      × (is_active m.status ≡ true)
      × (has_expired db'.clock m.expires_at ≡ false)
assert_can_post_needs_member id user db c e closed =
    let (_, (actor, is, found, active, allowed, same)) =
      Ends-ok (assert_can_post-Ends id user db) e in
    let (m, found', is_in, unexpired) = member_of_Allowed _ c.room _ allowed closed in
    (actor, m, is, found', is_in, unexpired)
