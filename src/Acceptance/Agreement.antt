-- ===== src/Acceptance/Agreement.antt =====
-- The accepted answer of a question and the rows of its acceptances agree.
use aca_social.Base.{
  ℕ, ◌≡◌, refl, sym, ap, ◌∙◌, subst, Bool, true, false, Option, none, some, List, ◌==◌, arith, bit,
  find?, replace, count, is_some, if◌then◌else◌, Bool-cases, inl, inr, ==_iff, count-update_none,
  count-update_same,
}
use aca_social.Store.{
  Db, Discussion, AnswerAcceptance, RevokeReason, PostStatus, post_is, live_acceptance_of,
}
use aca_social.Acceptance.{save_post, revoke_rows, without_acceptance, revoke_acceptance}
use aca_social.Acceptance.Saving.{saved_key, find?-save_post, find?-save_post_other}

-- A question has one acceptance that is not revoked if it shows an accepted answer, and none
-- otherwise.
abbrev pub Agrees : ℕ → List Discussion → List AnswerAcceptance → Type 0
Agrees post posts accs =
    (d : Discussion)
    → find? (post_is post) posts ≡ some d
    → count (live_acceptance_of post) accs ≡ bit (is_some d.accepted_answer_id)

-- Every question agrees, and the one of the identifier is `q`.
pub record Tracks (id : ℕ) (q : Discussion) (posts : List Discussion) (accs : List AnswerAcceptance)
    : Type 0 where
  pub found : find? (post_is id) posts ≡ some q
  pub agrees : (post : ℕ) → Agrees post posts accs

-- `find` and `live` stand for the search for a post and the number of its acceptances.
agrees_found :
    (lookup : ℕ → Option Discussion) (live : ℕ → ℕ) (id post : ℕ) (p d : Discussion)
    → post ≡ id
    → lookup id ≡ some p
    → live id ≡ bit (is_some p.accepted_answer_id)
    → lookup post ≡ some d
    → live post ≡ bit (is_some d.accepted_answer_id)
agrees_found lookup live id post p d same found agrees is = let same_post : p ≡ d = cc in cc

-- A question is saved, and the acceptances change, for that question only.
pub save-Agrees :
    (id post : ℕ) (p p' : Discussion) (posts : List Discussion) (accs accs' : List AnswerAcceptance)
    → find? (post_is id) posts ≡ some p
    → p'.id ≡ p.id
    → p'.deleted ≡ p.deleted
    → count (live_acceptance_of id) accs' ≡ bit (is_some p'.accepted_answer_id)
    → ((other : ℕ)
        → (other == id) ≡ false
        → count (live_acceptance_of other) accs' ≡ count (live_acceptance_of other) accs)
    → Agrees post posts accs
    → Agrees post (replace (post_is p'.id) p' posts) accs'
save-Agrees id post p p' posts accs accs' found same_id same_deleted new others agrees d is =
    elim (Bool-cases (post == id)) [
      | inl same ↦
          let post_id = (==_iff post id).0 same in
          let saved = find?-save_post id p p' posts found same_id same_deleted in
          agrees_found (λ k. find? (post_is k) (replace (post_is p'.id) p' posts))
            (λ k. count (live_acceptance_of k) accs') id post p' d post_id saved new is
      | inr differs ↦
          others post differs
          ∙ agrees d (sym (find?-save_post_other id p p' posts found same_id post differs) ∙ is)
    ]

pub revoke_rows-live :
    (id actor : ℕ) (reason : RevokeReason) (db : Db)
    → count (live_acceptance_of id) (revoke_rows id actor reason db).acceptances ≡ 0
unfolding revoke_rows
revoke_rows-live id actor reason db =
    count-update_none (live_acceptance_of id) _ db.acceptances (λ a. ground arith)

pub revoke_rows-other :
    (id actor : ℕ) (reason : RevokeReason) (db : Db) (other : ℕ)
    → (other == id) ≡ false
    → count (live_acceptance_of other) (revoke_rows id actor reason db).acceptances
      ≡ count (live_acceptance_of other) db.acceptances
unfolding revoke_rows
revoke_rows-other id actor reason db other differs =
    count-update_same (live_acceptance_of id) (live_acceptance_of other) _ db.acceptances
      (λ a h. ground arith)

-- The bookkeeping of one question, `q`, in a method that saves it several times.
module _ (id : ℕ) (q : Discussion) (db : Db)
    (tracked : Tracks id q db.discussions db.acceptances) where
  pub save-Tracks :
      (q' : Discussion)
      → q'.id ≡ q.id
      → q'.deleted ≡ q.deleted
      → q'.accepted_answer_id ≡ q.accepted_answer_id
      → Tracks id q' (save_post q' db).discussions db.acceptances
  save-Tracks q' same_id same_deleted same_accepted = record {
    found = find?-save_post id q q' db.discussions tracked.found same_id same_deleted;
    agrees = λ post.
        save-Agrees id post q q' db.discussions db.acceptances db.acceptances tracked.found same_id
          same_deleted
          (subst (λ a. count (live_acceptance_of id) db.acceptances ≡ bit (is_some a))
            (sym same_accepted) (tracked.agrees id q tracked.found))
          (λ other differs. refl) (tracked.agrees post);
  }

  -- Taking back the acceptance and saving the question without one.
  pub revoke_rows-Tracks :
      (q' : Discussion) (actor : ℕ) (reason : RevokeReason)
      → q'.id ≡ q.id
      → q'.deleted ≡ q.deleted
      → q'.accepted_answer_id ≡ none
      → let db' = revoke_rows q.id actor reason db in
        Tracks id q' (save_post q' db').discussions db'.acceptances
  unfolding revoke_rows
  revoke_rows-Tracks q' actor reason same_id same_deleted unaccepted =
      let rows : ℕ → List AnswerAcceptance = λ k. (revoke_rows k actor reason db).acceptances in
      let key = saved_key id q q db.discussions tracked.found refl in
      record {
        found = find?-save_post id q q' db.discussions tracked.found same_id same_deleted;
        agrees = λ post.
            save-Agrees id post q q' db.discussions db.acceptances (rows q.id) tracked.found same_id
              same_deleted
              (subst (λ k. count (live_acceptance_of id) (rows k) ≡ 0) (sym key)
                  (revoke_rows-live id actor reason db)
                ∙ sym (ap (λ a. bit (is_some a)) unaccepted))
              (λ other differs.
                subst
                  (λ k.
                    count (live_acceptance_of other) (rows k)
                    ≡ count (live_acceptance_of other) db.acceptances)
                  (sym key) (revoke_rows-other id actor reason db other differs))
              (tracked.agrees post);
      }

  pub revoke_acceptance-Tracks :
      (actor : ℕ) (reason : RevokeReason)
      → let db' = revoke_acceptance q actor reason db in
        Tracks id (without_acceptance q) db'.discussions db'.acceptances
  unfolding revoke_acceptance
  revoke_acceptance-Tracks actor reason = revoked (is_some q.accepted_answer_id) refl
    where
      revoked :
          (b : Bool)
          → is_some q.accepted_answer_id ≡ b
          → let q' =
              if b then record q { accepted_answer_id = none; status = PostStatus.opened } else q in
            let db' = if b then save_post q' (revoke_rows q.id actor reason db) else db in
            Tracks id q' db'.discussions db'.acceptances
      revoked true e = revoke_rows-Tracks _ actor reason refl refl refl
      revoked false e = tracked
