-- ===== src/Academic/Overlapping.antt =====
-- Which overlapping calls of updateCurriculumStatus leave a major at most one active curriculum.
use aca_social.Base.{
  ℕ, ◌≤◌, ◌≡◌, refl, sym, subst, ap, ◌∙◌, true, false, Option, none, some, List, [], ◌∷◌, All, ◌==◌,
  arith, find?, count, any, find?-satisfies, find?-replace_other, count-replace, ==_iff, Bool-cases,
  inl, inr, count_none, count-delete_found, count-delete_le, All-find?, All-delete,
}
use aca_social.Service.{
  Result, ok, err, Checks, Established, fetch-Ends, check_when-Ends, pure-Ends, modify, ◌>>=◌,
}
use aca_social.Academic.{
  Curriculum, CurriculumStatus, Catalogue, curriculum_is, current_of, is_current, is_other,
  save_curriculum, check_status, save_status, update_curriculum_status,
}
use aca_social.Academic.StatusCalls.{
  Waiting, Calls, Step, is_call, on_major, checked, saved, step, run, idle, is_waited_for, overlaps,
}
use aca_social.Academic.Curricula.{
  HasOneCurrent, IsKeyed, IsAlone, check_current-Checks, saved_count,
}

-- What the checks of a call found.
abbrev Passed : Catalogue → Waiting → Type 0
Passed db w =
    (find? (curriculum_is w.row.id) db.curricula ≡ some w.row)
    × (is_current w.status ≡ true → IsAlone w.row.id w.row.major_id db)

check_status-Checks :
    (id : ℕ) (status : CurriculumStatus) (db : Catalogue)
    → Checks
        (λ c.
          (find? (curriculum_is id) db.curricula ≡ some c)
          × (is_current status ≡ true → IsAlone id c.major_id db))
        db
        (check_status id status db)
unfolding check_status
check_status-Checks id status db = fetch-Ends _ _ _ _ refl λ c found.
    check_when-Ends _ _ _ _ _ (check_current-Checks id c.major_id db) (λ _. refl)
      λ alone. pure-Ends _ _ (refl, (found, alone))

-- What holds of the catalogue and of the calls that wait, of which there is at most one for a major.
pub record IsSound (s : Calls) : Type 0 where
  pub one_current : HasOneCurrent s.catalogue
  pub keyed : IsKeyed s.catalogue
  pub passed : All (Passed s.catalogue) s.waiting
  pub one_call : (major : ℕ) → count (on_major major) s.waiting ≤ 1

-- No step starts a call while another one on the same major waits.
abbrev pub IsApart : List Step → Calls → Type 0
IsApart [] s = Unit
IsApart (t ∷ ts) s = (overlaps t s ≡ false) × IsApart ts (step t s)

checked-IsSound :
    (n id : ℕ) (status : CurriculumStatus) (r : Result Curriculum) (s : Calls) (db : Catalogue)
    → Established
        (λ c.
          (find? (curriculum_is id) s.catalogue.curricula ≡ some c)
          × (is_current status ≡ true → IsAlone id c.major_id s.catalogue))
        s.catalogue
        r
        db
    → overlaps (Step.checks n id status) s ≡ false
    → IsSound s
    → IsSound (checked n status r s)
unfolding checked count
checked-IsSound n id status (err e) s db h apart sound = sound
checked-IsSound n id status (ok c) s db (_, (found, alone)) apart sound =
    let same : id ≡ c.id =
      sym ((==_iff c.id id).0 (find?-satisfies (curriculum_is id) s.catalogue.curricula c found)) in
    let w : Waiting = record { call = n; row = c; status = status } in
    let free : any (on_major c.major_id) s.waiting ≡ false =
      subst (λ o. is_waited_for o s.waiting ≡ false) found apart in
    let nobody = count_none (on_major c.major_id) s.waiting free in
    let facts : Passed s.catalogue w = (
      subst (λ k. find? (curriculum_is k) s.catalogue.curricula ≡ some c) same found,
      λ current. subst (λ k. IsAlone k c.major_id s.catalogue) same (alone current),
    ) in
    record {
      one_current = sound.one_current;
      keyed = sound.keyed;
      passed = (facts, sound.passed);
      one_call = λ major. elim (Bool-cases (on_major major w)) [
        | inr other ↦ let before = sound.one_call major in rw other (omega (arith, before))
        | inl own ↦
            let is : c.major_id ≡ major = (==_iff c.major_id major).0 own in
            let none_there = subst (λ m. count (on_major m) s.waiting ≡ 0) is nobody in
            rw own (omega (arith, none_there))
      ];
    }

-- Two calls that found rows of different majors found different rows.
other_row :
    (db : Catalogue) (v w : Waiting)
    → on_major w.row.major_id v ≡ false
    → Passed db v
    → Passed db w
    → curriculum_is v.row.id w.row ≡ false
other_row db v w differ (found_v, _) (found_w, _) = elim (Bool-cases (w.row.id == v.row.id)) [
  | inr other ↦ other
  | inl same ↦
      let equal : w.row.id ≡ v.row.id = (==_iff w.row.id v.row.id).0 same in
      let found : find? (curriculum_is v.row.id) db.curricula ≡ some w.row =
        subst (λ k. find? (curriculum_is k) db.curricula ≡ some w.row) equal found_w in
      let rows : v.row ≡ w.row = cc (found, found_v) in
      let majors : v.row.major_id ≡ w.row.major_id = ap (λ c. c.major_id) rows in
      absurd (ground (arith, majors, differ))
]

save_status-Passed :
    (db : Catalogue) (v w : Waiting)
    → on_major w.row.major_id v ≡ false
    → Passed db w
    → Passed db v
    → Passed (save_status w.row w.status db) v
unfolding save_status save_curriculum
save_status-Passed db v w differ found (found_v, alone) =
    let row = other_row db v w differ (found_v, alone) found in
    let own_major : (w.row.major_id == v.row.major_id) ≡ false = ground (arith, differ) in
    let before : current_of v.row.major_id w.row ≡ false = ground arith in
    let after : current_of v.row.major_id (record w.row { status = w.status }) ≡ false =
      ground arith in
    (
      find?-replace_other (curriculum_is w.row.id) (curriculum_is v.row.id) _ db.curricula w.row
            found.0 row row
          ∙ found_v,
      λ current.
          ap (is_other v.row.id) (
            find?-replace_other (curriculum_is w.row.id) (current_of v.row.major_id) _ db.curricula
              w.row found.0 before after)
          ∙ alone current,
    )

save_status-IsKeyed :
    (c : Curriculum) (status : CurriculumStatus) (db : Catalogue)
    → find? (curriculum_is c.id) db.curricula ≡ some c
    → IsKeyed db
    → IsKeyed (save_status c status db)
unfolding save_status save_curriculum
save_status-IsKeyed c status db found keyed id =
    let counted =
      count-replace (curriculum_is c.id) (curriculum_is id) (record c { status = status })
        db.curricula c found in
    let before = keyed id in omega (arith, counted, before)

saved-IsSound :
    (n : ℕ) (o : Option Waiting) (s : Calls)
    → find? (is_call n) s.waiting ≡ o
    → IsSound s
    → IsSound (saved n o s)
unfolding saved save_status save_curriculum
saved-IsSound n none s found sound = sound
saved-IsSound n (some w) s found sound =
    let fact = All-find? (Passed s.catalogue) (is_call n) s.waiting w found sound.passed in
    let fewer =
      count-delete_found (is_call n) (on_major w.row.major_id) s.waiting w found (ground arith) in
    let most = sound.one_call w.row.major_id in
    record {
      one_current = λ major.
          saved_count w.row.id major w.status w.row s.catalogue sound.one_current sound.keyed fact.0
            fact.1;
      keyed = save_status-IsKeyed w.row w.status s.catalogue fact.0 sound.keyed;
      passed =
          All-delete (is_call n) (on_major w.row.major_id) (on_major w.row.major_id) false s.waiting
            (λ v differ _ passed_v. save_status-Passed s.catalogue v w differ fact passed_v)
            (omega (arith, fewer, most)) (λ e. absurd (cc)) sound.passed;
      one_call = λ major.
          let before = sound.one_call major in
          let less = count-delete_le (is_call n) (on_major major) s.waiting in
          omega (arith, before, less);
    }

step-IsSound : (t : Step) (s : Calls) → overlaps t s ≡ false → IsSound s → IsSound (step t s)
unfolding step
step-IsSound (Step.checks n id status) s apart sound =
    let ends = check_status-Checks id status s.catalogue in
    checked-IsSound n id status _ s _ ends.holds apart sound
step-IsSound (Step.saves n) s apart sound = saved-IsSound n _ s refl sound

run-IsSound : (ts : List Step) (s : Calls) → IsApart ts s → IsSound s → IsSound (run ts s)
unfolding run
run-IsSound [] s apart sound = sound
run-IsSound (t ∷ ts) s (first, rest) sound =
    run-IsSound ts (step t s) rest (step-IsSound t s first sound)

-- Where every major has at most one active curriculum and identifiers are unique, both hold after
-- any steps of calls of updateCurriculumStatus, of which calls on curricula of different majors
-- overlap in any way, provided that no call starts while another one on the same major has passed
-- its checks and not yet written: the method itself does not exclude that.
pub run-HasOneCurrent :
    (ts : List Step) (db : Catalogue)
    → HasOneCurrent db
    → IsKeyed db
    → IsApart ts (idle db)
    → let db' = (run ts (idle db)).catalogue in HasOneCurrent db' × IsKeyed db'
unfolding count
run-HasOneCurrent ts db one keyed apart =
    let sound : IsSound (idle db) = record {
      one_current = one;
      keyed = keyed;
      passed = tt;
      one_call = λ major. omega arith;
    } in
    let after = run-IsSound ts (idle db) apart sound in (after.one_current, after.keyed)

check_status_keeps :
    (id : ℕ) (status : CurriculumStatus) (db : Catalogue) → (check_status id status db).1 ≡ db
check_status_keeps id status db =
    unchanged _ (check_status id status db).0 _ (check_status-Checks id status db).holds
  where
    unchanged :
        (Q : Curriculum → Type 0) (r : Result Curriculum) (db' : Catalogue)
        → Established Q db r db'
        → db' ≡ db
    unchanged Q (ok c) db' h = h.0
    unchanged Q (err e) db' h = h

alone :
    (n : ℕ) (status : CurriculumStatus) (db db' : Catalogue) (r : Result Curriculum)
    → db' ≡ db
    → (step (Step.saves n) (checked n status r (idle db))).catalogue
      ≡ (((λ _. (r, db')) >>= λ c. modify (save_status c status)) db).1
unfolding ◌>>=◌ step checked saved find? modify
alone n status db db' (err e) same = sym same
alone n status db db' (ok c) same =
    let own : (n == n) ≡ true = ground arith in rw own (ap (save_status c status) (sym same))

-- A call that no other one interrupts is `update_curriculum_status`.
run_alone :
    (n id : ℕ) (status : CurriculumStatus) (db : Catalogue)
    → (run (Step.checks n id status ∷ Step.saves n ∷ []) (idle db)).catalogue
      ≡ (update_curriculum_status id status db).1
unfolding run step update_curriculum_status ◌>>=◌
run_alone n id status db =
    alone n status db (check_status id status db).1 (check_status id status db).0
      (check_status_keeps id status db)
