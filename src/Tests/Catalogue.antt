-- ===== src/Tests/Catalogue.antt =====
-- The theorems on the academic catalogue at concrete inputs.
use aca_social.Base.{
  ℕ, ◌≡◌, refl, none, some, List, [], ◌∷◌, arith, count, find?, any, replace, delete,
}
use aca_social.Service.{
  err, conflict, pure, gets, or_throw, fetch, throw_if, modify, when, ◌>>=◌, ◌>>◌,
}
use aca_social.Academic.{
  Catalog, CatalogStatus, Curriculum, CurriculumStatus, CurriculumDto, Topic, CourseTopicItemDto,
  Catalogue, update_curriculum_status, check_current, create_curriculum, exists, set_course_topics,
  current_of, check_status, save_status, save_curriculum,
}
use aca_social.Academic.StatusCalls.{Step, run, step, checked, saved, idle}
use aca_social.Academic.Curricula.{HasOneCurrent, IsKeyed}
use aca_social.Academic.Overlapping.{IsApart, run-HasOneCurrent}
use aca_social.Academic.CourseTopics.{Sets, set_course_topics-Sets}

abbrev catalog : ℕ → Catalog
catalog id = record {
  id = id;
  code = "C";
  name = "n";
  description = "";
  status = CatalogStatus.active;
}

abbrev curriculum : ℕ → CurriculumStatus → Curriculum
curriculum id status = record {
  id = id;
  major_id = 1;
  version = "v";
  effective_year = 2024;
  status = status;
}

abbrev topic : ℕ → Topic
topic id = record {
  id = id;
  code = "T";
  name = "t";
  description = "";
  parent_topic_id = none;
  status = CatalogStatus.active;
}

abbrev catalogue : Catalogue
catalogue = record {
  next_id = 40;
  majors = catalog 1 ∷ [];
  courses = catalog 2 ∷ [];
  curricula = curriculum 10 CurriculumStatus.active ∷ curriculum 11 CurriculumStatus.draft ∷ [];
  curriculum_courses = [];
  topics = topic 20 ∷ topic 21 ∷ [];
  course_topics = record { course_id = 3; topic_id = 20; relevance_weight = 1000 } ∷ [];
}

catalogue-HasOneCurrent : HasOneCurrent catalogue
unfolding count
catalogue-HasOneCurrent major = ground arith

catalogue-IsKeyed : IsKeyed catalogue
unfolding count
catalogue-IsKeyed id = ground arith

-- One curriculum is retired, and then another one is activated.
abbrev apart : List Step
apart =
    Step.checks 1 10 CurriculumStatus.retired
    ∷ Step.saves 1
    ∷ Step.checks 2 11 CurriculumStatus.active
    ∷ Step.saves 2
    ∷ []

apart-IsApart : IsApart apart (idle catalogue)
unfolding any find? step checked saved check_status check_current fetch or_throw gets when throw_if
    pure ◌>>=◌ ◌>>◌ save_status save_curriculum replace delete
apart-IsApart = (refl, (refl, (refl, (refl, tt))))

run-HasOneCurrent_example :
    let db' = (run apart (idle catalogue)).catalogue in HasOneCurrent db' × IsKeyed db'
run-HasOneCurrent_example =
    run-HasOneCurrent apart catalogue catalogue-HasOneCurrent catalogue-IsKeyed apart-IsApart

abbrev drafts : Catalogue
drafts = record catalogue {
  curricula = curriculum 11 CurriculumStatus.draft ∷ curriculum 12 CurriculumStatus.draft ∷ [];
}

-- Two calls that overlap activate two curricula of a major.
both_active :
    let steps =
      Step.checks 1 11 CurriculumStatus.active
      ∷ Step.checks 2 12 CurriculumStatus.active
      ∷ Step.saves 1
      ∷ Step.saves 2
      ∷ [] in
    count (current_of 1) (run steps (idle drafts)).catalogue.curricula ≡ 2
unfolding any find? run step checked saved check_status check_current fetch or_throw gets when
    throw_if pure ◌>>=◌ ◌>>◌ save_status save_curriculum replace delete count
both_active = refl

second_refused : (update_curriculum_status 11 CurriculumStatus.active catalogue).0 ≡ err conflict
unfolding update_curriculum_status check_status check_current fetch or_throw gets when throw_if
    ◌>>=◌ ◌>>◌ find?
second_refused = refl

abbrev second : CurriculumDto
second = record {
  major_id = 1;
  version = "v2";
  effective_year = 2025;
  status = some CurriculumStatus.active;
}

-- A curriculum that is created as active is a second one.
second_created : count (current_of 1) (create_curriculum second catalogue).1.curricula ≡ 2
unfolding create_curriculum exists gets throw_if modify ◌>>=◌ ◌>>◌ any count
second_created = refl

abbrev item : ℕ → CourseTopicItemDto
item id = record { topic_id = id; relevance_weight = none }

set_course_topics-Sets_example :
    let (r, db') = set_course_topics 2 (item 20 ∷ item 21 ∷ []) catalogue in
    Sets 2 (item 20 ∷ item 21 ∷ []) catalogue r db'
set_course_topics-Sets_example = set_course_topics-Sets 2 (item 20 ∷ item 21 ∷ []) catalogue
