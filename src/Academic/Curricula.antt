-- ===== src/Academic/Curricula.antt =====
-- services/academic-service/src/academic.service.ts: what the checks of updateCurriculumStatus establish.
use aca_social.Base.{
  ℕ, ◌≤◌, Bool, List, [], ◌∷◌, ◌≡◌, refl, sym, subst, true, false, some, arith, find?, replace,
  count, find?-satisfies, count-replace, count_zero, count_pos, ==_iff, Option-cases, Bool-cases,
  inl, inr,
}
use aca_social.Service.{Checks, gets-Ends, last_throw_if-Ends}
use aca_social.Academic.{
  Curriculum, CurriculumStatus, Catalogue, curriculum_is, current_of, is_current, is_other,
  check_current,
}

abbrev pub HasOneCurrent : Catalogue → Type 0
HasOneCurrent db = (major : ℕ) → count (current_of major) db.curricula ≤ 1

-- Identifiers are unique.
abbrev pub IsKeyed : Catalogue → Type 0
IsKeyed db = (id : ℕ) → count (curriculum_is id) db.curricula ≤ 1

-- The row that is found by a test is found by its identifier.
keyed_row :
    (p : Curriculum → Bool) (id : ℕ) (cs : List Curriculum) (c : Curriculum)
    → find? p cs ≡ some c
    → c.id ≡ id
    → count (curriculum_is id) cs ≤ 1
    → find? (curriculum_is id) cs ≡ some c
unfolding find? count
keyed_row p id [] c found same keyed = cc
keyed_row p id (d ∷ cs) c found same keyed =
    ground (arith, keyed_row p id cs c, count_pos (curriculum_is id) cs c)

-- No other curriculum of the major is active.
abbrev pub IsAlone : ℕ → ℕ → Catalogue → Type 0
IsAlone id major db = is_other id (find? (current_of major) db.curricula) ≡ false

pub check_current-Checks :
    (id major : ℕ) (db : Catalogue)
    → Checks (λ _. IsAlone id major db) db (check_current id major db)
unfolding check_current
check_current-Checks id major db =
    gets-Ends _ _ _ (last_throw_if-Ends _ _ _ refl λ alone. (refl, alone))

pub saved_count :
    (id major : ℕ) (status : CurriculumStatus) (c : Curriculum) (db : Catalogue)
    → HasOneCurrent db
    → IsKeyed db
    → find? (curriculum_is id) db.curricula ≡ some c
    → (is_current status ≡ true → IsAlone id c.major_id db)
    → count
        (current_of major)
        (replace (curriculum_is c.id) (record c { status = status }) db.curricula)
      ≤ 1
saved_count id major status c db one keyed found alone =
    let same : c.id ≡ id =
      (==_iff c.id id).0 (find?-satisfies (curriculum_is id) db.curricula c found) in
    let own = subst (λ k. find? (curriculum_is k) db.curricula ≡ some c) (sym same) found in
    let counted =
      count-replace (curriculum_is c.id) (current_of major) (record c { status = status })
        db.curricula c own in
    let before = one major in
    elim (Bool-cases (current_of major (record c { status = status }))) [
      | inr not_current ↦ ground (arith, counted, before)
      | inl current ↦
          let of_major : c.major_id ≡ major = ground arith in
          let asked : is_current status ≡ true = ground arith in
          let free = subst (λ m. IsAlone id m db) of_major (alone asked) in
          elim (Option-cases (find? (current_of major) db.curricula)) [
            | inl none_current ↦
                let nothing = count_zero (current_of major) db.curricula none_current in
                ground (arith, counted, nothing)
            | inr (d, is_d) ↦
                let same_d : d.id ≡ id = ground (arith, free) in
                let row_d = keyed_row (current_of major) id db.curricula d is_d same_d (keyed id) in
                let equal : d ≡ c = cc (row_d, found) in
                let was : current_of major c ≡ true =
                  subst (λ x. current_of major x ≡ true) equal
                    (find?-satisfies (current_of major) db.curricula d is_d) in
                ground (arith, counted, before, was)
          ]
    ]
