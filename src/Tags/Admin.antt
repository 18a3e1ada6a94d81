-- ===== src/Tags/Admin.antt =====
-- services/discussion-service/src/tags/tags.service.ts: what administrators do with tags.
use Prim.Native.Char.{code}
use aca_social.Base.{
  ℕ, Bool, true, false, not, ◌&&◌, ◌||◌, Option, none, some, List, [], ◌∷◌, ◌++◌, ◌==◌, leb,
  if◌then◌else◌, String, str_eq, find?, replace, count, delete, any, map, includes, or_else,
}
use aca_social.Mentions.{codes}
use aca_social.Store.{
  Db, Tag, TagStatus, Discussion, tag_is, Action, bad_request, not_found, conflict, pure, gets,
  fetch, throw_if, modify, new_id, transaction, is_active_tag, ◌>>=◌, ◌>>◌,
}

-- `[a-z0-9]`, of a character code
abbrev pub is_slug_char : ℕ → Bool
is_slug_char c = (leb 97 c && leb c 122) || (leb 48 c && leb c 57)

abbrev pub starts_dash : List ℕ → Bool
starts_dash [] = false
starts_dash (c ∷ cs) = c == 45

-- `replace(/[^a-z0-9]+/g, '-')`
unfoldable pub dash_runs : List ℕ → List ℕ
dash_runs [] = []
dash_runs (c ∷ cs) =
    let rest = dash_runs cs in
    if is_slug_char c then c ∷ rest else if starts_dash rest then rest else 45 ∷ rest

-- `replace(/^-+/, '')`
unfoldable pub trim_start : List ℕ → List ℕ
trim_start [] = []
trim_start (c ∷ cs) = let rest = trim_start cs in if c == 45 then rest else c ∷ cs

abbrev pub is_nil : List ℕ → Bool
is_nil [] = true
is_nil (_ ∷ _) = false

-- `replace(/-+$/, '')`
unfoldable pub trim_end : List ℕ → List ℕ
trim_end [] = []
trim_end (c ∷ cs) = let rest = trim_end cs in if is_nil rest && (c == 45) then [] else c ∷ rest

-- The last steps of `generateSlug`, on the text in lower case and without accents.
unfoldable pub slug_of : List ℕ → List ℕ
slug_of text = trim_end (trim_start (dash_runs text))

-- `replace(/đ/g, 'd')`, `replace(/\+/g, 'p')` and `replace(/#/g, 'sharp')`, of one character
abbrev pub spelled : ℕ → List ℕ
spelled c =
    if c == 273
    then 100 ∷ []
    else if c == 43
    then 112 ∷ []
    else if c == 35
    then 115 ∷ 104 ∷ 97 ∷ 114 ∷ 112 ∷ []
    else c ∷ []

unfoldable pub spell : List ℕ → List ℕ
spell [] = []
spell (c ∷ cs) = spelled c ++ spell cs

-- `[\u0300-\u036f]`
abbrev pub is_mark : ℕ → Bool
is_mark c = leb 768 c && leb c 879

-- What JavaScript knows of Unicode: `toLowerCase` and `normalize('NFD')`
pub record Unicode : Type 0 where
  pub lower : List ℕ → List ℕ
  pub nfd : List ℕ → List ℕ

unfoldable pub generate_slug : Unicode → List ℕ → List ℕ
generate_slug unicode text = slug_of (delete is_mark (unicode.nfd (spell (unicode.lower text))))

abbrev alphabet : String
alphabet = "abcdefghijklmnopqrstuvwxyz0123456789-"

-- The character of the alphabet that has the code, before a text.
unfoldable pub write_char : String → ℕ → String → String
write_char String.[] n text = text
write_char (String.◌∷◌ c cs) n text =
    let later = write_char cs n text in if code c == n then String.◌∷◌ c text else later

-- The text of a slug.
unfoldable pub slug_text : List ℕ → String
slug_text [] = ""
slug_text (c ∷ cs) = write_char alphabet c (slug_text cs)

-- `/^[a-z0-9]+(?:-[a-z0-9]+)*$/`, at the start of a word or inside one
unfoldable pub matches : Bool → List ℕ → Bool
matches at_start [] = not at_start
matches at_start (c ∷ cs) =
    let inside = matches false cs in
    let next_word = matches true cs in
    if is_slug_char c then inside else (c == 45) && (not at_start && next_word)

abbrev pub is_slug : List ℕ → Bool
is_slug slug = matches true slug

pub record CreateTagDto : Type 0 where
  pub name : String
  pub slug : Option String
  pub description : Option String

pub record UpdateTagDto : Type 0 where
  pub name : Option String
  pub slug : Option String
  pub description : Option String

-- The unique columns.
abbrev pub collides : Tag → Tag → Bool
collides a b = not (b.id == a.id) && (str_eq b.name a.name || str_eq b.slug a.slug)

-- `dto.slug || this.generateSlug(dto.name)`
unfoldable pub slug_for : Unicode → CreateTagDto → String
slug_for unicode dto =
    if is_nil (codes (or_else dto.slug ""))
    then slug_text (generate_slug unicode (codes dto.name))
    else or_else dto.slug ""

abbrev pub new_tag : ℕ → String → CreateTagDto → Tag
new_tag id slug dto = record {
  id = id;
  name = dto.name;
  slug = slug;
  description = dto.description;
  usage_count = 0;
  status = TagStatus.active;
  merged_into_tag_id = none;
}

unfoldable pub create : Unicode → CreateTagDto → Action Tag
create unicode dto = do
  let slug = slug_for unicode dto
  throw_if (not (is_slug (codes slug))) bad_request
  id ← new_id
  taken ← gets (λ db. any (collides (new_tag id slug dto)) db.tags)
  throw_if taken conflict
  modify (λ db. record db { tags = db.tags ++ new_tag id slug dto ∷ [] })
  pure (new_tag id slug dto)

unfoldable pub save_tag : Tag → Db → Db
save_tag t db = record db { tags = replace (tag_is t.id) t db.tags }

abbrev pub changes_slug : Option String → String → Bool
changes_slug none slug = false
changes_slug (some new) slug = not (str_eq new slug)

abbrev pub or_keep : Option String → Option String → Option String
or_keep none old = old
or_keep (some new) old = some new

abbrev pub edited : UpdateTagDto → Tag → Tag
edited dto t = record t {
  name = or_else dto.name t.name;
  description = or_keep dto.description t.description;
}

unfoldable pub update : ℕ → UpdateTagDto → Action Tag
update id dto = transaction (do
  tag ← fetch (λ db. find? (tag_is id) db.tags) not_found
  throw_if (changes_slug dto.slug tag.slug) bad_request
  taken ← gets (λ db. any (collides (edited dto tag)) db.tags)
  throw_if taken conflict
  modify (save_tag (edited dto tag))
  pure (edited dto tag))

abbrev pub without_tag : ℕ → List ℕ → List ℕ
without_tag id ids = delete (λ x. x == id) ids

-- `DELETE FROM discussion_tags WHERE tag_id = $1`
abbrev pub untag : ℕ → Discussion → Discussion
untag id p = record p { tags = without_tag id p.tags }

abbrev pub uses : ℕ → Discussion → Bool
uses id p = includes p.tags id

unfoldable pub remove : ℕ → Action (Unit {0})
remove id = transaction (do
  fetch (λ db. find? (tag_is id) db.tags) not_found
  used ← gets (λ db. any (λ p. uses id p && not p.deleted) db.discussions)
  throw_if used bad_request
  modify (λ db. record db {
    discussions = map (untag id) db.discussions;
    tags = delete (tag_is id) db.tags;
  }))

abbrev pub is_merged : TagStatus → Bool
is_merged TagStatus.merged = true
is_merged _ = false

unfoldable pub set_status : ℕ → TagStatus → Action Tag
set_status id status = do
  tag ← fetch (λ db. find? (tag_is id) db.tags) not_found
  throw_if (is_merged tag.status) bad_request
  modify (save_tag (record tag { status = status }))
  pure (record tag { status = status })

-- `INSERT … SELECT … ON CONFLICT DO NOTHING`
abbrev pub also_tag : ℕ → ℕ → Discussion → Discussion
also_tag source target p =
    if uses source p && not (uses target p) then record p { tags = p.tags ++ target ∷ [] } else p

abbrev pub merged_source : ℕ → Tag → Tag
merged_source target t = record t {
  status = TagStatus.merged;
  merged_into_tag_id = some target;
  usage_count = 0;
}

-- The counter of the target is the number of its rows.
abbrev pub counted_target : ℕ → Tag → Db → Tag
counted_target target t db = record t { usage_count = count (uses target) db.discussions }

unfoldable pub move_tag : ℕ → ℕ → Db → Db
move_tag source target db = record db {
  discussions = map (λ p. untag source (also_tag source target p)) db.discussions;
}

unfoldable pub merge : ℕ → ℕ → Action (Tag × Tag)
merge source_id target_id = do
  throw_if (source_id == target_id) bad_request
  transaction (do
    source ← fetch (λ db. find? (tag_is source_id) db.tags) not_found
    target ← fetch (λ db. find? (tag_is target_id) db.tags) not_found
    throw_if (is_merged source.status || not (is_active_tag target.status)) bad_request
    modify (move_tag source_id target_id)
    modify (save_tag (merged_source target_id source))
    counted ← gets (counted_target target_id target)
    modify (save_tag counted)
    pure (merged_source target_id source, counted))
