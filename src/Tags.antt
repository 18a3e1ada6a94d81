-- ===== src/Tags.antt =====
-- The tags of posts: the checks and counters of discussions.service.ts.
pub mod Admin
pub mod Slugs
pub mod Merging
use aca_social.Base.{
  ℕ, ◌+◌, ◌-◌, Bool, true, false, not, ◌&&◌, Option, none, some, List, [], ◌∷◌, if◌then◌else◌,
  includes, find?, update as update_rows,
}
use aca_social.Store.{Db, Tag, is_active_tag, tag_is, Action, bad_request, gets, throw_if, ◌>>=◌}

-- `[...new Set(ids)]`
unfoldable pub distinct : List ℕ → List ℕ → List ℕ
distinct seen [] = []
distinct seen (x ∷ xs) =
    let rest = distinct (x ∷ seen) xs in
    let skipped = distinct seen xs in if includes seen x then skipped else x ∷ rest

abbrev pub is_active : Option Tag → Bool
is_active none = false
is_active (some t) = is_active_tag t.status

-- The identifiers are distinct, so the query finds as many tags as there are identifiers exactly
-- when each is there.
unfoldable pub all_active : List ℕ → Db → Bool
all_active [] db = true
all_active (id ∷ ids) db = is_active (find? (tag_is id) db.tags) && all_active ids db

-- `DiscussionsService.tags`
unfoldable pub require_tags : List ℕ → Action (Unit {0})
require_tags ids = do active ← gets (all_active ids); throw_if (not active) bad_request

-- `tagCounts`, by 1 and by -1: a counter stops at 0. The rows are updated in the order of their
-- identifiers, which changes nothing, since they are different rows.
unfoldable pub count_up : List ℕ → List Tag → List Tag
count_up [] tags = tags
count_up (id ∷ ids) tags =
    count_up ids (update_rows (tag_is id) (λ t. record t { usage_count = t.usage_count + 1 }) tags)

unfoldable pub count_down : List ℕ → List Tag → List Tag
count_down [] tags = tags
count_down (id ∷ ids) tags =
    count_down ids
      (update_rows (tag_is id) (λ t. record t { usage_count = t.usage_count - 1 }) tags)

-- The identifiers of the first list that are not in the second.
unfoldable pub without : List ℕ → List ℕ → List ℕ
without [] ids = []
without (x ∷ xs) ids = let rest = without xs ids in if includes ids x then rest else x ∷ rest

-- A post's tags change from `old` to `new`.
unfoldable pub recount : List ℕ → List ℕ → Db → Db
recount old new db = record db {
  tags = count_up (without new old) (count_down (without old new) db.tags);
}
