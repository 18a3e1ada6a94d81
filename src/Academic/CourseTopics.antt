-- ===== src/Academic/CourseTopics.antt =====
-- Setting the topics of a course, and what the context shows of them.
use aca_social.Base.{
  ℕ, ◌≡◌, refl, ◌∙◌, ap, Bool, true, false, List, [], ◌∷◌, ◌++◌, ◌==◌, arith, delete, select, map,
  any,
}
use aca_social.Service.{
  Result, ok, err, Ends, Checks, check_then-Ends, gets-Ends, last_throw_if-Ends, throw_if-Ends,
  transaction-Ends, modify-Ends, last_gets-Ends,
}
use aca_social.Academic.{
  Catalogue, CourseTopic, CourseTopicItemDto, catalog_is, exists, has_duplicate, ids_of, all_active,
  topic_of, new_course_topic, set_course_topics,
}

exists-Checks :
    (test : Catalogue → Bool) (db : Catalogue) → Checks (λ _. test db ≡ true) db (exists test db)
unfolding exists
exists-Checks test db =
    gets-Ends _ _ _ (last_throw_if-Ends _ _ _ refl λ found. (refl, ground arith))

select-append :
    (p : CourseTopic → Bool) (xs ys : List CourseTopic)
    → select p (xs ++ ys) ≡ select p xs ++ select p ys
unfolding select
select-append p [] ys = refl
select-append p (x ∷ xs) ys = ground (arith, select-append p xs ys)

select-delete : (p : CourseTopic → Bool) (xs : List CourseTopic) → select p (delete p xs) ≡ []
unfolding select delete
select-delete p [] = refl
select-delete p (x ∷ xs) = ground (arith, select-delete p xs)

select-delete_other :
    (k course : ℕ) (xs : List CourseTopic)
    → (k == course) ≡ false
    → select (topic_of k) (delete (topic_of course) xs) ≡ select (topic_of k) xs
unfolding select delete
select-delete_other k course [] other = refl
select-delete_other k course (x ∷ xs) other = ground (arith, select-delete_other k course xs other)

select-new :
    (course : ℕ) (items : List CourseTopicItemDto)
    → select (topic_of course) (map (new_course_topic course) items)
      ≡ map (new_course_topic course) items
unfolding select
select-new course [] = refl
select-new course (i ∷ is) = ground (arith, select-new course is)

select-new_other :
    (k course : ℕ) (items : List CourseTopicItemDto)
    → (k == course) ≡ false
    → select (topic_of k) (map (new_course_topic course) items) ≡ []
unfolding select
select-new_other k course [] other = refl
select-new_other k course (i ∷ is) other = ground (arith, select-new_other k course is other)

append_nil : (xs : List CourseTopic) → xs ++ [] ≡ xs
append_nil [] = refl
append_nil (x ∷ xs) = ap (λ r. x ∷ r) (append_nil xs)

abbrev pub Sets :
    ℕ → List CourseTopicItemDto → Catalogue → Result (List CourseTopic) → Catalogue → Type 0
Sets course items db (err e) db' = db' ≡ db
Sets course items db (ok rows) db' =
    (any (catalog_is course) db.courses ≡ true)
    × (has_duplicate (ids_of items) ≡ false)
    × (all_active (ids_of items) db ≡ true)
    × (rows ≡ map (new_course_topic course) items)
    × (select (topic_of course) db'.course_topics ≡ map (new_course_topic course) items)
    × ((k : ℕ)
        → (k == course) ≡ false
        → select (topic_of k) db'.course_topics ≡ select (topic_of k) db.course_topics)

-- Setting the topics of a course needs the course, and distinct active topics. The course has exactly
-- these topics afterwards, and the other courses theirs. A call that throws writes nothing.
pub set_course_topics-Sets :
    (course : ℕ) (items : List CourseTopicItemDto) (db : Catalogue)
    → let (r, db') = set_course_topics course items db in Sets course items db r db'
unfolding set_course_topics
set_course_topics-Sets course items db =
    let kept = delete (topic_of course) db.course_topics in
    let new = map (new_course_topic course) items in
    let own : select (topic_of course) (kept ++ new) ≡ new =
      select-append (topic_of course) kept new
      ∙ ap (λ xs. xs ++ select (topic_of course) new)
          (select-delete (topic_of course) db.course_topics)
      ∙ select-new course items in
    let others : (k : ℕ)
        → (k == course) ≡ false
        → select (topic_of k) (kept ++ new) ≡ select (topic_of k) db.course_topics =
      λ k other.
        select-append (topic_of k) kept new
        ∙ ap (λ ys. select (topic_of k) kept ++ ys) (select-new_other k course items other)
        ∙ append_nil (select (topic_of k) kept)
        ∙ select-delete_other k course db.course_topics other in
    let ends : Ends (Sets course items db) (set_course_topics course items db) =
      check_then-Ends _ _ _ _ (exists-Checks _ db) (λ _. refl)
        λ _ there. throw_if-Ends _ _ _ _ refl λ distinct. gets-Ends _ _ _ (
          throw_if-Ends _ _ _ _ refl λ active.
            transaction-Ends _ _ (λ e. refl)
              (modify-Ends _ _ _ (
                modify-Ends _ _ _
                  (last_gets-Ends _ _ (there, distinct, ground arith, own, own, others))))) in
    ends.holds
