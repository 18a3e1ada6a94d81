-- ===== src/Moderation/Review.antt =====
-- What a review of a post checks, and what readers are shown after it.
use aca_social.Base.{
  ℕ, ◌≡◌, ◌⊎◌, inl, inr, refl, sym, ◌∙◌, subst, Bool, true, false, ◌&&◌, Option, none, some, List,
  [], ◌∷◌, String, arith, is_id, if◌then◌else◌, includes, find?, any, select, map, replace,
}
use aca_social.Store.{
  GatewayUser, Db, Discussion, PendingRevision, RevokeReason, last_throw_if-Ends, RoomMembership,
  Decision, ModerationStatus, Result, ok, err, is_staff, post_is, Ends, Checks, check-Ends,
  check_then-Ends, gets-Ends, throw_if-Ends, last_gets-Ends, last_modify-Ends, modify-Ends,
  bind_then-Ends, when-Ends, branch-Ends, pure-Ends, lift_then-Ends, transaction-Ends,
}
use aca_social.Policy.Checks.{authenticated-Checks, lock_post-Checks}
use aca_social.Rooms.{managed_by, managed_room_ids}
use aca_social.Media.{MediaReference, validate}
use aca_social.Tags.{require_tags, recount}
use aca_social.Acceptance.{revoke_rows}
use aca_social.Acceptance.Saving.{find?-save_post}
use aca_social.Moderation.{
  ReviewContentDto, is_allow, note_of, scope, in_scope, draft_of, is_outdated, with_draft, decided,
  reviewed, apply_tags, check_allowed, review,
}

-- `null` is returned to staff only, and the list is that of the rooms the user manages.
abbrev Scopes : GatewayUser → Db → Option (List ℕ) → Type 0
Scopes user db none = is_staff user.role ≡ true
Scopes user db (some ids) =
    (actor : ℕ) × (user.id ≡ some actor)
    × (ids ≡ map (λ m. m.room_id) (select (managed_by db.clock actor) db.memberships))

managed_room_ids-Checks :
    (user : GatewayUser) (db : Db)
    → Checks (λ ids. Scopes user db (some ids)) db (managed_room_ids user db)
unfolding managed_room_ids
managed_room_ids-Checks user db =
    check-Ends _ _ _ _ (authenticated-Checks user db) (λ e. refl)
      λ actor signed_in. last_gets-Ends _ _ (refl, (actor, signed_in, refl))

scope-Checks : (user : GatewayUser) (db : Db) → Checks (Scopes user db) db (scope user db)
unfolding scope
scope-Checks user db =
    check_then-Ends _ _ _ _ (authenticated-Checks user db) (λ e. refl)
      λ _ _.
        branch-Ends _ _ _ _ (λ staff. pure-Ends _ _ (refl, staff))
          (λ _.
            check-Ends _ _ _ _ (managed_room_ids-Checks user db) (λ e. refl)
              λ ids managed. throw_if-Ends _ _ _ _ refl λ _. pure-Ends _ _ (refl, managed))

-- The user is staff, or holds a membership that manages the room of the post.
abbrev pub MayReview : GatewayUser → Option ℕ → Db → Type 0
MayReview user room db =
    (is_staff user.role ≡ true)
    ⊎ ((actor : ℕ) × (user.id ≡ some actor)
        × (any (λ m. managed_by db.clock actor m && is_id room m.room_id) db.memberships ≡ true))

in_scope-any :
    (now actor room : ℕ) (ms : List RoomMembership)
    → includes (map (λ m. m.room_id) (select (managed_by now actor) ms)) room ≡ true
    → any (λ m. managed_by now actor m && is_id (some room) m.room_id) ms ≡ true
unfolding select any
in_scope-any now actor room [] h = cc
in_scope-any now actor room (m ∷ ms) h = ground (arith, in_scope-any now actor room ms)

Scopes-MayReview :
    (user : GatewayUser) (room : Option ℕ) (db : Db) (rooms : Option (List ℕ))
    → Scopes user db rooms
    → in_scope rooms room ≡ true
    → MayReview user room db
Scopes-MayReview user room db none staff ok_scope = inl staff
Scopes-MayReview user none db (some ids) managed ok_scope = absurd (cc)
Scopes-MayReview user (some room) db (some ids) (actor, signed_in, ids_are) ok_scope = inr (
  actor,
  signed_in,
  in_scope-any db.clock actor room db.memberships
      (subst (λ is. includes is room ≡ true) ids_are ok_scope),
)

-- Only the counters of tags change.
abbrev SamePosts : Db → Db → Type 0
SamePosts db db' = db'.discussions ≡ db.discussions

-- The reviewer may review the post, the post was as the reviewer was shown it, and it is stored as
-- decided.
abbrev pub Reviewed :
    ℕ → ReviewContentDto → GatewayUser → Db → Result ModerationStatus → Db → Type 0
Reviewed id dto user db (err e) db' = db' ≡ db
Reviewed id dto user db (ok status) db' =
    (post : Discussion) × (find? (post_is id) db.discussions ≡ some post)
    × MayReview user post.room_id db
    × (is_outdated dto post ≡ false)
    × (find? (post_is id) db'.discussions ≡ some (reviewed dto.decision (note_of dto.note) post))
    × (status ≡ (reviewed dto.decision (note_of dto.note) post).moderation_status)

apply_tags-Ends :
    (r : Option PendingRevision) (p : Discussion) (db : Db)
    → Ends (λ _ db'. SamePosts db db') (apply_tags r p db)
unfolding apply_tags require_tags recount
apply_tags-Ends none p db = pure-Ends _ _ refl
apply_tags-Ends (some r) p db =
    check_then-Ends (λ _. Unit) _ _ _
      (gets-Ends _ _ _ (last_throw_if-Ends _ _ _ refl λ _. (refl, tt))) (λ e. refl)
      (λ _ _. last_modify-Ends _ _ refl)

check_allowed-Ends :
    (media : MediaReference) (decision : Decision) (p : Discussion) (db : Db)
    → Ends (λ _ db'. SamePosts db db') (check_allowed media decision p db)
unfolding check_allowed validate
check_allowed-Ends media decision p db =
    branch-Ends _ _ _ _
      (λ _. lift_then-Ends _ _ _ (λ e. refl) λ _ _. apply_tags-Ends (draft_of p) p db)
      (λ _. pure-Ends _ _ refl)

SamePosts-if :
    (b : Bool) (id actor : ℕ) (reason : RevokeReason) (db : Db)
    → SamePosts db (if b then revoke_rows id actor reason db else db)
unfolding revoke_rows
SamePosts-if true id actor reason db = refl
SamePosts-if false id actor reason db = refl

-- The row of the post stays the row it was.
abbrev SameRow : Discussion → Discussion → Type 0
SameRow p q = (q.id ≡ p.id) × (q.deleted ≡ p.deleted)

SameRow-if :
    (b : Bool) (p q r : Discussion) → SameRow p q → SameRow p r → SameRow p (if b then q else r)
SameRow-if true p q r h g = h
SameRow-if false p q r h g = g

SameRow-with_draft : (r : Option PendingRevision) (p : Discussion) → SameRow p (with_draft r p)
SameRow-with_draft none p = (refl, refl)
SameRow-with_draft (some r) p = (refl, refl)

decided-SameRow : (decision : Decision) (p : Discussion) → SameRow p (decided decision p)
unfolding decided
decided-SameRow decision p =
    SameRow-if (is_allow decision) p _ _
      (let (same_id, same_deleted) = SameRow-with_draft (draft_of p) p in (same_id, same_deleted))
      (SameRow-if _ p _ _ (refl, refl) (refl, refl))

reviewed-id :
    (decision : Decision) (note : String) (p : Discussion) → SameRow p (reviewed decision note p)
unfolding reviewed
reviewed-id decision note p =
    let (same_id, same_deleted) = decided-SameRow decision p in
    SameRow-if _ p _ _ (same_id, same_deleted) (same_id, same_deleted)

saved_review :
    (id : ℕ) (decision : Decision) (note : String) (p : Discussion) (posts posts' : List Discussion)
    → find? (post_is id) posts ≡ some p
    → posts' ≡ posts
    → find?
        (post_is id)
        (replace (post_is (reviewed decision note p).id) (reviewed decision note p) posts')
      ≡ some (reviewed decision note p)
saved_review id decision note p posts posts' found same =
    let (same_id, same_deleted) = reviewed-id decision note p in
    find?-save_post id p _ posts' (subst (λ ps. find? (post_is id) ps ≡ some p) (sym same) found)
      same_id same_deleted

-- A review that returns was made by staff or by a manager of the room of the post, on the version,
-- status and text that the reviewer was shown, and the post is then stored as decided. A review
-- that throws writes nothing.
pub review-Reviewed :
    (media : MediaReference) (id : ℕ) (dto : ReviewContentDto) (user : GatewayUser) (db : Db)
    → Ends (Reviewed id dto user db) (review media id dto user db)
unfolding review
review-Reviewed media id dto user db =
    check-Ends _ _ _ _ (authenticated-Checks user db) (λ e. refl)
      λ actor _.
        check-Ends _ _ _ _ (scope-Checks user db) (λ e. refl)
          λ rooms scopes. throw_if-Ends _ _ _ _ refl λ _.
            transaction-Ends _ _ (λ e. refl)
              (check-Ends _ _ _ _ (lock_post-Checks id db) (λ e. tt)
                λ post found. throw_if-Ends _ _ _ _ tt λ scoped.
                  throw_if-Ends _ _ _ _ tt λ outdated.
                    bind_then-Ends (λ _ db'. SamePosts db db') _ _ _
                      (check_allowed-Ends media dto.decision post db) (λ e db' _. tt)
                      (λ _ db' same. when-Ends _ _ _ _ (
                        modify-Ends _ _ _ (
                          modify-Ends _ _ _ (
                            pure-Ends _ _ (
                              post,
                              found,
                              Scopes-MayReview user post.room_id db rooms scopes (ground arith),
                              outdated,
                              saved_review id dto.decision (note_of dto.note) post db.discussions _
                                  found (SamePosts-if _ id actor _ db' ∙ same),
                              refl,
                            ))))))
