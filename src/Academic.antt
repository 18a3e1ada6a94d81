-- ===== src/Academic.antt =====
-- services/academic-service/src: the catalogue of majors, courses, curricula and topics
-- (academic.service.ts, entities.ts, access.ts).
pub mod Catalogs
pub mod StatusCalls
pub mod Curricula
pub mod Overlapping
pub mod CourseTopics
use aca_social.Base.{
  ℕ, ◌+◌, Bool, true, false, not, ◌&&◌, ◌||◌, Option, none, some, List, [], ◌∷◌, ◌++◌, ◌==◌, is_id,
  if◌then◌else◌, String, str_eq, find?, replace, delete, any, map, includes, length, select,
  or_else, is_some,
}
use aca_social.Service.{
  Result, Run, pure, gets, or_throw, fetch, throw_if, modify, when, transaction, ◌>>=◌, ◌>>◌,
  unauthorized, forbidden, not_found, conflict, bad_request, internal,
}
use aca_social.Store.{Role, is_admin}

pub data CatalogStatus : Type 0 where
  active inactive : CatalogStatus

pub data CurriculumStatus : Type 0 where
  draft active retired : CurriculumStatus

-- Majors and courses have the same columns here.
pub record Catalog : Type 0 where
  pub id : ℕ
  pub code : String
  pub name : String
  pub description : String
  pub status : CatalogStatus

pub record Curriculum : Type 0 where
  pub id : ℕ
  pub major_id : ℕ
  pub version : String
  pub effective_year : ℕ
  pub status : CurriculumStatus

pub data CourseType : Type 0 where
  required elective : CourseType

pub record CurriculumCourse : Type 0 where
  pub id : ℕ
  pub curriculum_id : ℕ
  pub course_id : ℕ
  pub course_type : CourseType
  pub recommended_semester : Option ℕ
  pub display_order : ℕ

pub record Topic : Type 0 where
  pub id : ℕ
  pub code : String
  pub name : String
  pub description : String
  pub parent_topic_id : Option ℕ
  pub status : CatalogStatus

-- A weight is counted in thousandths.
pub record CourseTopic : Type 0 where
  pub course_id : ℕ
  pub topic_id : ℕ
  pub relevance_weight : ℕ

pub record Catalogue : Type 0 where
  pub next_id : ℕ
  pub majors : List Catalog
  pub courses : List Catalog
  pub curricula : List Curriculum
  pub curriculum_courses : List CurriculumCourse
  pub topics : List Topic
  pub course_topics : List CourseTopic

abbrev pub is_active : CatalogStatus → Bool
is_active CatalogStatus.active = true
is_active _ = false

abbrev pub is_current : CurriculumStatus → Bool
is_current CurriculumStatus.active = true
is_current _ = false

abbrev pub catalog_is : ℕ → Catalog → Bool
catalog_is id c = c.id == id

abbrev pub curriculum_is : ℕ → Curriculum → Bool
curriculum_is id c = c.id == id

abbrev pub topic_is : ℕ → Topic → Bool
topic_is id t = t.id == id

abbrev pub course_of : ℕ → CurriculumCourse → Bool
course_of id c = c.id == id

abbrev pub current_of : ℕ → Curriculum → Bool
current_of major c = (c.major_id == major) && is_current c.status

-- `requireAdmin`
unfoldable pub require_admin : {S : Type 0} → Option ℕ → Option Role → Run S ℕ
require_admin user role = do
  id ← or_throw user unauthorized
  throw_if (not (is_admin role)) forbidden
  pure id

-- `exists`
unfoldable pub exists : (Catalogue → Bool) → Run Catalogue (Unit {0})
exists test = do found ← gets test; throw_if (not found) not_found

unfoldable pub save_curriculum : Curriculum → Catalogue → Catalogue
save_curriculum c db = record db { curricula = replace (curriculum_is c.id) c db.curricula }

abbrev pub is_other : ℕ → Option Curriculum → Bool
is_other id none = false
is_other id (some c) = not (c.id == id)

unfoldable pub check_current : ℕ → ℕ → Run Catalogue (Unit {0})
check_current id major = do
  other ← gets (λ db. find? (current_of major) db.curricula)
  throw_if (is_other id other) conflict

-- `updateCurriculumStatus` up to its write: the curriculum, once the checks are passed.
unfoldable pub check_status : ℕ → CurriculumStatus → Run Catalogue Curriculum
check_status id status = do
  curriculum ← fetch (λ db. find? (curriculum_is id) db.curricula) not_found
  when (is_current status) (check_current id curriculum.major_id)
  pure curriculum

-- Its write.
unfoldable pub save_status : Curriculum → CurriculumStatus → Catalogue → Catalogue
save_status curriculum status db = save_curriculum (record curriculum { status = status }) db

-- `updateCurriculumStatus` without another call in between.
unfoldable pub update_curriculum_status : ℕ → CurriculumStatus → Run Catalogue (Unit {0})
update_curriculum_status id status = do
  curriculum ← check_status id status
  modify (save_status curriculum status)

pub record CurriculumDto : Type 0 where
  pub major_id : ℕ
  pub version : String
  pub effective_year : ℕ
  pub status : Option CurriculumStatus

abbrev pub new_curriculum : ℕ → CurriculumDto → Curriculum
new_curriculum id dto = record {
  id = id;
  major_id = dto.major_id;
  version = dto.version;
  effective_year = dto.effective_year;
  status = or_else dto.status CurriculumStatus.draft;
}

unfoldable pub create_curriculum : CurriculumDto → Run Catalogue (Unit {0})
create_curriculum dto = do
  exists (λ db. any (catalog_is dto.major_id) db.majors)
  modify (λ db. record db {
    next_id = db.next_id + 1;
    curricula = db.curricula ++ new_curriculum db.next_id dto ∷ [];
  })

pub record CurriculumCourseDto : Type 0 where
  pub curriculum_id : ℕ
  pub course_id : ℕ
  pub course_type : CourseType
  pub recommended_semester : Option ℕ
  pub display_order : Option ℕ

abbrev pub same_course : CurriculumCourseDto → CurriculumCourse → Bool
same_course dto c = (c.curriculum_id == dto.curriculum_id) && (c.course_id == dto.course_id)

abbrev pub new_course : ℕ → CurriculumCourseDto → CurriculumCourse
new_course id dto = record {
  id = id;
  curriculum_id = dto.curriculum_id;
  course_id = dto.course_id;
  course_type = dto.course_type;
  recommended_semester = dto.recommended_semester;
  display_order = or_else dto.display_order 0;
}

unfoldable pub add_curriculum_course : CurriculumCourseDto → Run Catalogue (Unit {0})
add_curriculum_course dto = do
  exists (λ db. any (curriculum_is dto.curriculum_id) db.curricula)
  exists (λ db. any (catalog_is dto.course_id) db.courses)
  taken ← gets (λ db. any (same_course dto) db.curriculum_courses)
  throw_if taken conflict
  modify (λ db. record db {
    next_id = db.next_id + 1;
    curriculum_courses = db.curriculum_courses ++ new_course db.next_id dto ∷ [];
  })

pub record CourseTopicItemDto : Type 0 where
  pub topic_id : ℕ
  pub relevance_weight : Option ℕ

-- `new Set(ids).size !== ids.length`
unfoldable pub has_duplicate : List ℕ → Bool
has_duplicate [] = false
has_duplicate (x ∷ xs) = includes xs x || has_duplicate xs

abbrev pub is_active_topic : Option Topic → Bool
is_active_topic none = false
is_active_topic (some t) = is_active t.status

-- Each topic is there, and active.
unfoldable pub all_active : List ℕ → Catalogue → Bool
all_active [] db = true
all_active (id ∷ ids) db = is_active_topic (find? (topic_is id) db.topics) && all_active ids db

abbrev pub ids_of : List CourseTopicItemDto → List ℕ
ids_of items = map (λ i. i.topic_id) items

abbrev pub topic_of : ℕ → CourseTopic → Bool
topic_of course t = t.course_id == course

abbrev pub new_course_topic : ℕ → CourseTopicItemDto → CourseTopic
new_course_topic course i = record {
  course_id = course;
  topic_id = i.topic_id;
  relevance_weight = or_else i.relevance_weight 1000;
}

unfoldable pub set_course_topics : ℕ → List CourseTopicItemDto → Run Catalogue (List CourseTopic)
set_course_topics course items = do
  exists (λ db. any (catalog_is course) db.courses)
  throw_if (has_duplicate (ids_of items)) bad_request
  topics ← gets (all_active (ids_of items))
  throw_if (not topics) bad_request
  transaction (do
    modify (λ db. record db { course_topics = delete (topic_of course) db.course_topics })
    modify (λ db. record db {
      course_topics = db.course_topics ++ map (new_course_topic course) items;
    })
    gets (λ db. select (topic_of course) db.course_topics))
