-- ===== src/Answers/Accepting.antt =====
-- The methods of AnswersService keep the accepted answers and the acceptances in agreement.
use aca_social.Base.{
  ℕ, ◌-◌, ◌≡◌, refl, Bool, true, false, none, some, List, [], ◌∷◌, ◌++◌, arith, find?, is_some,
  if◌then◌else◌, count-append,
}
use aca_social.Store.{
  GatewayUser, Db, Discussion, Answer, RevokeReason, PostStatus, post_is, answer_is,
  live_acceptance_of, Ends, Checks, check-Ends, check_then-Ends, fetch-Ends, throw_if-Ends,
  modify-Ends, when-Ends, bind_then-Ends, pure-Ends, last_modify-Ends, last_when-Ends,
  last_fetch-Ends, transaction-Ends, on_ok,
}
use aca_social.Policy.Checks.{
  authenticated-Checks, require_open-Checks, require_approved-Checks, require_manager-Checks,
  lock_post-Checks,
}
use aca_social.Acceptance.{save_post, without_acceptance, revoke_acceptance}
use aca_social.Acceptance.Saving.{saved_key}
use aca_social.Acceptance.Agreement.{
  Agrees, Tracks, save-Agrees, save-Tracks, revoke_acceptance-Tracks,
}
use aca_social.Answers.{
  UpdateAnswerDto, AcceptAnswerDto, lock_answer_and_question, save_edit, update, remove,
  new_acceptance, solved_by, save_acceptance, accept, remove_acceptance,
}

-- Every question of the database agrees.
abbrev pub AllAgree : Db → Type 0
AllAgree db = (post : ℕ) → Agrees post db.discussions db.acceptances

abbrev LockedAnswer : ℕ → Db → Answer × Discussion → Type 0
LockedAnswer id db (answer, question) =
    (find? (answer_is id) db.answers ≡ some answer)
    × (find? (post_is answer.discussion_id) db.discussions ≡ some question)

lock_answer_and_question-Checks :
    (id : ℕ) (db : Db) → Checks (LockedAnswer id db) db (lock_answer_and_question id db)
unfolding lock_answer_and_question
lock_answer_and_question-Checks id db = fetch-Ends _ _ _ _ refl λ a found.
    check-Ends _ _ _ _ (lock_post-Checks a.discussion_id db) (λ e. refl)
      λ question locked. fetch-Ends _ _ _ _ refl λ a' found'. pure-Ends _ _ (refl, (found', cc))

remove_acceptance-Ends :
    (question_id : ℕ) (user : GatewayUser) (db : Db)
    → AllAgree db
    → Ends (λ _ db'. AllAgree db') (remove_acceptance question_id user db)
unfolding remove_acceptance
remove_acceptance-Ends question_id user db agrees =
    check-Ends _ _ _ _ (authenticated-Checks user db) (λ e. agrees)
      λ actor _.
        transaction-Ends _ _ (λ e. agrees)
          (check-Ends _ _ _ _ (lock_post-Checks question_id db) (λ e. tt)
            λ question found. throw_if-Ends _ _ _ _ tt λ _. last_modify-Ends _ _ (
              (revoke_acceptance-Tracks question_id question db
                (record { found = found; agrees = agrees }) actor
                RevokeReason.author_revoked).agrees))

edit-Ends :
    (dto : UpdateAnswerDto) (actor id : ℕ) (answer : Answer) (question : Discussion) (db : Db)
    → Tracks id question db.discussions db.acceptances
    → Ends (λ _ db'. AllAgree db') (save_edit dto actor answer question db)
unfolding save_edit
edit-Ends dto actor id answer question db tracked = modify-Ends _ _ _ (
    modify-Ends _ _ _ (
      last_when-Ends _ _ _
        (λ accepted. last_modify-Ends _ _ (
          (revoke_acceptance-Tracks id question _ tracked actor RevokeReason.answer_edited).agrees))
        (λ _. tracked.agrees)))

update-Ends :
    (id : ℕ) (dto : UpdateAnswerDto) (user : GatewayUser) (db : Db)
    → AllAgree db
    → Ends (λ _ db'. AllAgree db') (update id dto user db)
unfolding update
update-Ends id dto user db agrees =
    check-Ends _ _ _ _ (authenticated-Checks user db) (λ e. agrees)
      λ actor _.
        bind_then-Ends (λ _ db'. AllAgree db') _ _ _
          (transaction-Ends _ _ (λ e. agrees)
            (check-Ends _ _ _ _ (lock_answer_and_question-Checks id db) (λ e. tt)
              λ (answer, question) (_, locked).
                check_then-Ends _ _ _ _ (require_manager-Checks answer.author_id user db) (λ e. tt)
                  λ _ _.
                    check_then-Ends _ _ _ _ (require_open-Checks question db) (λ e. tt)
                      λ _ _. throw_if-Ends _ _ _ _ tt λ _.
                        last_when-Ends _ _ _
                          (λ _. on_ok (
                            edit-Ends dto actor answer.discussion_id answer question db
                              (record { found = locked; agrees = agrees })))
                          (λ _. agrees)))
          (λ e db' h. h) (λ _ db' h. last_fetch-Ends _ _ _ h (λ a _. h))

-- The question that `remove` saves, once its acceptance may have been taken back.
removed-Tracks :
    (id actor : ℕ) (q : Discussion) (db : Db) (b : Bool) (count_of : Discussion → ℕ)
    → Tracks id q db.discussions db.acceptances
    → let q' = if b then without_acceptance q else q in
      let db' = if b then revoke_acceptance q actor RevokeReason.answer_deleted db else db in
      Tracks id
        (record q' { answer_count = count_of q' })
        (save_post (record q' { answer_count = count_of q' }) db').discussions
        db'.acceptances
removed-Tracks id actor q db true count_of tracked =
    save-Tracks id (without_acceptance q) (revoke_acceptance q actor RevokeReason.answer_deleted db)
      (revoke_acceptance-Tracks id q db tracked actor RevokeReason.answer_deleted) _ refl refl refl
removed-Tracks id actor q db false count_of tracked = save-Tracks id q db tracked _ refl refl refl

remove-Ends :
    (id : ℕ) (user : GatewayUser) (db : Db)
    → AllAgree db
    → Ends (λ _ db'. AllAgree db') (remove id user db)
unfolding remove
remove-Ends id user db agrees =
    check-Ends _ _ _ _ (authenticated-Checks user db) (λ e. agrees)
      λ actor _.
        transaction-Ends _ _ (λ e. agrees)
          (check-Ends _ _ _ _ (lock_answer_and_question-Checks id db) (λ e. tt)
            λ (answer, question) (_, locked).
              check_then-Ends _ _ _ _ (require_manager-Checks answer.author_id user db) (λ e. tt)
                λ _ _.
                  check_then-Ends _ _ _ _ (require_open-Checks question db) (λ e. tt)
                    λ _ _. when-Ends _ _ _ _ (
                      modify-Ends _ _ _ (
                        modify-Ends _ _ _ (
                          last_modify-Ends _ _ (
                            (removed-Tracks answer.discussion_id actor question db _
                              (λ q. q.answer_count - 1)
                              (record { found = locked; agrees = agrees })).agrees)))))

unaccepted : (q : Discussion) → is_some (without_acceptance q).accepted_answer_id ≡ false
unaccepted q = lacks (is_some q.accepted_answer_id) refl
  where
    lacks :
        (b : Bool)
        → is_some q.accepted_answer_id ≡ b
        → let q' =
            if b then record q { accepted_answer_id = none; status = PostStatus.opened } else q in
          is_some q'.accepted_answer_id ≡ false
    lacks true e = refl
    lacks false e = e

save_acceptance-AllAgree :
    (id actor : ℕ) (q : Discussion) (answer : Answer) (db : Db)
    → Tracks id q db.discussions db.acceptances
    → AllAgree (save_acceptance q answer actor db)
unfolding save_acceptance
save_acceptance-AllAgree id actor q answer db tracked post =
    let old = revoke_acceptance-Tracks id q db tracked actor RevokeReason.replaced in
    let db' = revoke_acceptance q actor RevokeReason.replaced db in
    let row = new_acceptance (without_acceptance q) answer actor in
    let key =
      saved_key id (without_acceptance q) (without_acceptance q) db'.discussions old.found refl in
    save-Agrees id post (without_acceptance q) (solved_by answer.id (without_acceptance q))
      db'.discussions db'.acceptances (db'.acceptances ++ row ∷ []) old.found refl refl
      (ground (
        arith,
        count-append (live_acceptance_of id) row db'.acceptances,
        old.agrees id _ old.found,
        unaccepted q,
        key,
      ))
      (λ other differs.
        ground (arith, count-append (live_acceptance_of other) row db'.acceptances, key))
      (old.agrees post)

accept-Ends :
    (id : ℕ) (dto : AcceptAnswerDto) (user : GatewayUser) (db : Db)
    → AllAgree db
    → Ends (λ _ db'. AllAgree db') (accept id dto user db)
unfolding accept
accept-Ends id dto user db agrees =
    check-Ends _ _ _ _ (authenticated-Checks user db) (λ e. agrees)
      λ actor _.
        bind_then-Ends (λ _ db'. AllAgree db') _ _ _
          (transaction-Ends _ _ (λ e. agrees)
            (check-Ends _ _ _ _ (lock_post-Checks id db) (λ e. tt)
              λ question found.
                check_then-Ends _ _ _ _ (require_open-Checks question db) (λ e. tt)
                  λ _ _. throw_if-Ends _ _ _ _ tt λ _. throw_if-Ends _ _ _ _ tt λ _.
                    check_then-Ends _ _ _ _ (require_approved-Checks question db) (λ e. tt)
                      λ _ _. fetch-Ends _ _ _ _ tt λ answer _. throw_if-Ends _ _ _ _ tt λ _.
                        throw_if-Ends _ _ _ _ tt λ _. throw_if-Ends _ _ _ _ tt λ _.
                          modify-Ends _ _ _ (
                            last_modify-Ends _ _ (
                              save_acceptance-AllAgree id actor question answer db
                                (record { found = found; agrees = agrees })))))
          (λ e db' h. h) (λ _ db' h. last_fetch-Ends _ _ _ h (λ a _. h))

-- The requests that change which answer of a question is accepted.
pub data Call : Type 0 where
  accepts : ℕ → AcceptAnswerDto → GatewayUser → Call
  edits : ℕ → UpdateAnswerDto → GatewayUser → Call
  removes : ℕ → GatewayUser → Call
  takes_back : ℕ → GatewayUser → Call

unfoldable pub perform : Call → Db → Db
perform (accepts id dto user) db = (accept id dto user db).1
perform (edits id dto user) db = (update id dto user db).1
perform (removes id user) db = (remove id user db).1
perform (takes_back id user) db = (remove_acceptance id user db).1

unfoldable pub run : List Call → Db → Db
unfolding perform
run [] db = db
run (c ∷ cs) db = run cs (perform c db)

perform-AllAgree : (c : Call) (db : Db) → AllAgree db → AllAgree (perform c db)
unfolding perform
perform-AllAgree (accepts id dto user) db h = (accept-Ends id dto user db h).holds
perform-AllAgree (edits id dto user) db h = (update-Ends id dto user db h).holds
perform-AllAgree (removes id user) db h = (remove-Ends id user db h).holds
perform-AllAgree (takes_back id user) db h = (remove_acceptance-Ends id user db h).holds

-- Whatever answers are accepted, edited, removed or no longer accepted, in any order and by any
-- users, from a database in which they agree: a question that shows an accepted answer has exactly
-- one acceptance that is not revoked, and one that shows none has none.
pub run-AllAgree : (cs : List Call) (db : Db) → AllAgree db → AllAgree (run cs db)
unfolding run
run-AllAgree [] db h = h
run-AllAgree (c ∷ cs) db h = run-AllAgree cs (perform c db) (perform-AllAgree c db h)
