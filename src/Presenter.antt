-- ===== src/Presenter.antt =====
-- services/discussion-service/src/common/content-presenter.ts: posts, answers and comments as a reader
-- is shown them.
pub mod Anonymity
use aca_social.Base.{
  ℕ, Bool, true, false, not, ◌&&◌, ◌||◌, Option, none, some, List, [], ◌∷◌, ◌==◌, if◌then◌else◌,
  String, find?, select, map, includes, is_id, is_some,
}
use aca_social.Store.{
  GatewayUser, PendingRevision, Vote, VoteType, TargetType, ModerationStatus, Visibility, is_staff,
  is_published, is_visible,
}
use aca_social.Policy.{can_manage}
use aca_social.Votes.{vote_of}

-- The fields of an item that `many` reads or writes over. Items without a moderation status or
-- visibility have none.
pub record Item : Type 0 where
  pub id : ℕ
  pub author_id : ℕ
  pub is_anonymous : Bool
  pub deleted : Bool
  pub moderation_status : Option ModerationStatus
  pub visibility : Option Visibility
  pub pending_revision : Option PendingRevision
  pub moderation_note : Option String
  pub content : String

pub record Profile : Type 0 where
  pub id : ℕ
  pub full_name : String

pub record View : Type 0 where
  pub id : ℕ
  pub author_id : Option ℕ
  pub author : Option Profile
  pub is_anonymous : Bool
  pub deleted : Bool
  pub moderation_status : Option ModerationStatus
  pub visibility : Option Visibility
  pub pending_revision : Option PendingRevision
  pub moderation_note : Option String
  pub content : String
  pub is_mine : Bool
  pub can_manage : Bool
  pub can_vote : Bool
  pub my_vote : Option VoteType

-- What the identity service answers to the identifiers it is asked for; no profiles if it fails.
abbrev pub Profiles : Type 0
Profiles = List ℕ → List Profile

abbrev pub is_hidden : Item → Bool
is_hidden i = i.is_anonymous || i.deleted

-- `[...new Set(ids)]`
unfoldable pub distinct : List ℕ → List ℕ
distinct [] = []
distinct (x ∷ xs) = x ∷ select (λ y. not (x == y)) (distinct xs)

abbrev pub author_ids : List Item → List ℕ
author_ids items = distinct (map (λ i. i.author_id) (select (λ i. not (is_hidden i)) items))

abbrev pub is_nil : List ℕ → Bool
is_nil [] = true
is_nil (_ ∷ _) = false

-- The request is made only if there is somebody to ask for.
unfoldable pub profiles_of : Profiles → List ℕ → List Profile
profiles_of profiles ids = if is_nil ids then [] else profiles ids

-- The votes of the reader on the items.
abbrev pub own_votes : Option ℕ → TargetType → List Vote → List Vote
own_votes none type votes = []
own_votes (some user) type votes = select (λ v. vote_of user type v.target_id v) votes

abbrev pub on_target : ℕ → Vote → Bool
on_target id v = v.target_id == id

abbrev pub vote_type_of : Option Vote → Option VoteType
vote_type_of none = none
vote_type_of (some v) = some v.vote_type

abbrev pub is_reviewed : Option ModerationStatus → Bool
is_reviewed none = false
is_reviewed (some s) = is_published s

abbrev pub is_shown : Option Visibility → Bool
is_shown none = false
is_shown (some v) = is_visible v

abbrev pub is_discussion : TargetType → Bool
is_discussion TargetType.discussion = true
is_discussion _ = false

abbrev pub deleted_text : String
deleted_text = "[Bình luận đã xóa]"

-- The view of one item.
unfoldable pub present : List Vote → List Profile → GatewayUser → TargetType → Item → View
present votes profiles user type i =
    let is_mine = is_id user.id i.author_id in
    record {
      id = i.id;
      author_id = if is_hidden i then none else some i.author_id;
      author = if is_hidden i then none else find? (λ p. p.id == i.author_id) profiles;
      is_anonymous = i.deleted || i.is_anonymous;
      deleted = i.deleted;
      moderation_status = i.moderation_status;
      visibility = i.visibility;
      pending_revision = if is_mine then i.pending_revision else none;
      moderation_note = if is_mine || is_staff user.role then i.moderation_note else none;
      content = if i.deleted then deleted_text else i.content;
      is_mine = is_mine;
      can_manage = not i.deleted && can_manage i.author_id user;
      can_vote =
          (not (is_discussion type) || (is_reviewed i.moderation_status && is_shown i.visibility))
          && (is_some user.id && (not is_mine && not i.deleted));
      my_vote = vote_type_of (find? (on_target i.id) votes);
    }

-- `many`, on the stored votes
unfoldable pub many : Profiles → List Vote → GatewayUser → TargetType → List Item → List View
many profiles votes user type items =
    map (present (own_votes user.id type votes) (profiles_of profiles (author_ids items)) user type)
      items
