-- ===== src/Acceptance.antt =====
-- The acceptance of an answer, which answers.service.ts, discussions.service.ts and
-- moderation.service.ts all take back.
pub mod Saving
pub mod Agreement
use aca_social.Base.{
  ℕ, Bool, true, false, Option, none, some, ◌==◌, if◌then◌else◌, is_some, find?, replace, update,
}
use aca_social.Store.{
  Db, Discussion, AnswerAcceptance, RevokeReason, PostStatus, post_is, live_acceptance_of, Action,
  modify,
}

-- `save` of a post that was found
abbrev pub save_post : Discussion → Db → Db
save_post d db = record db { discussions = replace (post_is d.id) d db.discussions }

-- `update(AnswerAcceptance, { discussionId, revokedAt: IsNull() }, { revokedAt, revokedBy, … })`
unfoldable pub revoke_rows : ℕ → ℕ → RevokeReason → Db → Db
revoke_rows post actor reason db = record db {
  acceptances =
      update (live_acceptance_of post) (λ a. record a { revoked = some (db.clock, actor, reason) })
        db.acceptances;
}

-- What `revokeAcceptance` makes of the question object that its caller goes on to use.
abbrev pub without_acceptance : Discussion → Discussion
without_acceptance q =
    if is_some q.accepted_answer_id
    then record q { accepted_answer_id = none; status = PostStatus.opened }
    else q

-- `revokeAcceptance`
unfoldable pub revoke_acceptance : Discussion → ℕ → RevokeReason → Db → Db
revoke_acceptance q actor reason db =
    if is_some q.accepted_answer_id
    then save_post (without_acceptance q) (revoke_rows q.id actor reason db)
    else db
