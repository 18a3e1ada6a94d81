-- ===== src/Academic/Catalogs.antt =====
-- The majors, courses and topics themselves, and the context that the discussion service asks for.
use aca_social.Base.{
  ℕ, ◌+◌, Bool, false, not, ◌&&◌, ◌||◌, Option, none, some, List, [], ◌∷◌, ◌++◌, is_id, String,
  str_eq, find?, replace, any, select, or_else, is_some,
}
use aca_social.Service.{
  Run, pure, gets, fetch, throw_if, modify, when, ◌>>=◌, ◌>>◌, not_found, conflict, bad_request,
  internal,
}
use aca_social.Academic.{
  Catalog, CatalogStatus, Topic, CourseTopic, Catalogue, is_active, is_current, catalog_is,
  curriculum_is, topic_is, course_of, topic_of, is_active_topic, exists,
}

pub data Kind : Type 0 where
  majors courses : Kind

pub record CatalogDto : Type 0 where
  pub code : String
  pub name : String
  pub description : Option String
  pub status : Option CatalogStatus

pub record UpdateCatalogDto : Type 0 where
  pub name : Option String
  pub description : Option String
  pub status : Option CatalogStatus

-- The repository of the kind.
abbrev pub rows_of : Kind → Catalogue → List Catalog
rows_of Kind.majors db = db.majors
rows_of Kind.courses db = db.courses

abbrev pub with_rows : Kind → List Catalog → Catalogue → Catalogue
with_rows Kind.majors rows db = record db { majors = rows }
with_rows Kind.courses rows db = record db { courses = rows }

abbrev pub new_catalog : ℕ → CatalogDto → Catalog
new_catalog id dto = record {
  id = id;
  code = dto.code;
  name = dto.name;
  description = or_else dto.description "";
  status = or_else dto.status CatalogStatus.active;
}

unfoldable pub create_catalog : Kind → CatalogDto → Run Catalogue (Unit {0})
create_catalog kind dto = do
  taken ← gets (λ db. any (λ c. str_eq c.code dto.code) (rows_of kind db))
  throw_if taken conflict
  modify (λ db.
      with_rows kind (rows_of kind db ++ new_catalog db.next_id dto ∷ [])
        (record db { next_id = db.next_id + 1 }))

-- `Object.assign(item, dto)`
abbrev pub assign : UpdateCatalogDto → Catalog → Catalog
assign dto c = record c {
  name = or_else dto.name c.name;
  description = or_else dto.description c.description;
  status = or_else dto.status c.status;
}

unfoldable pub update_catalog : Kind → ℕ → UpdateCatalogDto → Run Catalogue (Unit {0})
update_catalog kind id dto = do
  item ← fetch (λ db. find? (catalog_is id) (rows_of kind db)) not_found
  modify (λ db. with_rows kind (replace (catalog_is id) (assign dto item) (rows_of kind db)) db)

-- `parentTopicId` is there or not, and then null or an identifier.
pub record UpdateTopicDto : Type 0 where
  pub catalog : UpdateCatalogDto
  pub parent_topic_id : Option (Option ℕ)

abbrev pub asked_parent : Option (Option ℕ) → Option ℕ
asked_parent none = none
asked_parent (some p) = p

abbrev pub has_topic : Option ℕ → Catalogue → Bool
has_topic none db = false
has_topic (some id) db = any (topic_is id) db.topics

abbrev pub assign_topic : UpdateTopicDto → Topic → Topic
assign_topic dto t = record t {
  name = or_else dto.catalog.name t.name;
  description = or_else dto.catalog.description t.description;
  status = or_else dto.catalog.status t.status;
  parent_topic_id = or_else dto.parent_topic_id t.parent_topic_id;
}

unfoldable pub update_topic : ℕ → UpdateTopicDto → Run Catalogue (Unit {0})
update_topic id dto = do
  topic ← fetch (λ db. find? (topic_is id) db.topics) not_found
  throw_if (is_id (asked_parent dto.parent_topic_id) id) bad_request
  when (is_some (asked_parent dto.parent_topic_id))
      (exists (has_topic (asked_parent dto.parent_topic_id)))
  modify (λ db. record db { topics = replace (topic_is id) (assign_topic dto topic) db.topics })

pub record TopicDto : Type 0 where
  pub code : String
  pub name : String
  pub description : Option String
  pub parent_topic_id : Option ℕ
  pub status : Option CatalogStatus

abbrev pub new_topic : ℕ → TopicDto → Topic
new_topic id dto = record {
  id = id;
  code = dto.code;
  name = dto.name;
  description = or_else dto.description "";
  parent_topic_id = dto.parent_topic_id;
  status = or_else dto.status CatalogStatus.active;
}

-- The unique code is left to the database.
unfoldable pub create_topic : TopicDto → Run Catalogue (Unit {0})
create_topic dto = do
  when (is_some dto.parent_topic_id) (exists (has_topic dto.parent_topic_id))
  taken ← gets (λ db. any (λ t. str_eq t.code dto.code) db.topics)
  throw_if taken internal
  modify (λ db. record db {
    next_id = db.next_id + 1;
    topics = db.topics ++ new_topic db.next_id dto ∷ [];
  })

-- What `context` answers; the names of the rows are left out.
pub record Context : Type 0 where
  pub curriculum_course_id : ℕ
  pub major_id : ℕ
  pub curriculum_id : ℕ
  pub course_id : ℕ
  pub allowed_topics : List CourseTopic

-- Foreign keys make the joined rows exist.
unfoldable pub context : ℕ → Run Catalogue Context
context id = do
  item ← fetch (λ db. find? (course_of id) db.curriculum_courses) not_found
  course ← fetch (λ db. find? (catalog_is item.course_id) db.courses) internal
  curriculum ← fetch (λ db. find? (curriculum_is item.curriculum_id) db.curricula) internal
  major ← fetch (λ db. find? (catalog_is curriculum.major_id) db.majors) internal
  throw_if
      (not (is_active course.status)
        || (not (is_current curriculum.status) || not (is_active major.status)))
      not_found
  topics ← gets (λ db.
      select
        (λ t. topic_of item.course_id t && is_active_topic (find? (topic_is t.topic_id) db.topics))
        db.course_topics)
  pure (record {
    curriculum_course_id = item.id;
    major_id = curriculum.major_id;
    curriculum_id = item.curriculum_id;
    course_id = item.course_id;
    allowed_topics = topics;
  })

unfoldable pub find_major : ℕ → Run Catalogue Catalog
find_major id = do
  major ← fetch (λ db. find? (catalog_is id) db.majors) not_found
  throw_if (not (is_active major.status)) not_found
  pure major
