-- ===== src/Moderation/Publishing.antt =====
-- What readers are shown of a post after its review.
use aca_social.Base.{
  ◌∙◌, sym, subst, if-true, if-false, Bool-cases, inl, inr, ◌==◌, ℕ, ◌≡◌, refl, Bool, true, false,
  not, ◌&&◌, ◌||◌, Option, none, some, String, arith, str_eq, if◌then◌else◌, is_some, find?,
}
use aca_social.Store.{
  GatewayUser, Db, Discussion, Decision, ModerationStatus, Result, ok, err, Visibility, is_visible,
  is_published, same_moderation, post_is, PendingRevision,
}
use aca_social.Policy.{approved}
use aca_social.Media.{MediaReference}
use aca_social.Moderation.{
  ReviewContentDto, content_or, is_allow, note_of, draft_of, shown_content, with_draft, is_outdated,
  decided, reviewed, review,
}
use aca_social.Moderation.Review.{Reviewed, review-Reviewed}

-- What a reader who is neither staff nor the author sees of a post.
abbrev pub public_view : Discussion → Option (String × String)
public_view p =
    if approved p.moderation_status p.visibility then some (p.title, p.content) else none

-- The post that is found by its identifier before a call and the one after it are so related,
-- whenever the call returned; if it threw, it wrote nothing.
abbrev pub Turns :
    {A : Type 0} → ℕ → (Discussion → Discussion → Type 0) → Db → Result A → Db → Type 0
Turns id R db (err e) db' = db' ≡ db
Turns id R db (ok a) db' =
    (p : Discussion) × (q : Discussion) × (find? (post_is id) db.discussions ≡ some p)
    × (find? (post_is id) db'.discussions ≡ some q)
    × R p q

content-with_draft :
    (r : Option PendingRevision) (p : Discussion) (content : String)
    → str_eq (content_or r p.content) content ≡ true
    → str_eq (with_draft r p).content content ≡ true
content-with_draft none p content h = h
content-with_draft (some r) p content h = h

-- The reader is shown the text that the reviewer was shown.
abbrev pub Publishes : String → Discussion → Discussion → Type 0
Publishes content p q =
    (public_view q ≡ some (q.title, q.content)) × (str_eq q.content content ≡ true)

-- The same text is shown to the same readers.
abbrev SameText : Discussion → Discussion → Type 0
SameText p q =
    (q.title ≡ p.title)
    × (q.content ≡ p.content)
    × (q.moderation_status ≡ p.moderation_status)
    × (q.visibility ≡ p.visibility)

SameText-if :
    (b : Bool) (p q r : Discussion) → SameText p q → SameText p r → SameText p (if b then q else r)
SameText-if true p q r h g = h
SameText-if false p q r h g = g

reviewed-SameText :
    (decision : Decision) (note : String) (p : Discussion)
    → SameText (decided decision p) (reviewed decision note p)
unfolding reviewed
reviewed-SameText decision note p =
    SameText-if _ (decided decision p) _ _ (refl, refl, refl, refl) (refl, refl, refl, refl)

public_view-SameText : (p q : Discussion) → SameText p q → public_view q ≡ public_view p
public_view-SameText p q (t, c, s, v) = ground arith

Publishes-SameText :
    (content : String) (p q r : Discussion)
    → SameText q r
    → Publishes content p q
    → Publishes content p r
Publishes-SameText content p q r (t, c, s, v) (view, same) = (ground arith, ground arith)

shown_as_expected :
    (dto : ReviewContentDto) (p : Discussion)
    → is_outdated dto p ≡ false
    → str_eq (shown_content p) dto.expected_content ≡ true
shown_as_expected dto p h =
    last (same_moderation p.moderation_status _) (p.content_version == dto.expected_version) _ h
  where
    last : (a b c : Bool) → (not a || (not b || not c)) ≡ false → c ≡ true
    last a b c h = ground arith

decided-Publishes :
    (decision : Decision) (p : Discussion) (content : String)
    → is_allow decision ≡ true
    → str_eq (shown_content p) content ≡ true
    → Publishes content p (decided decision p)
unfolding decided approved
decided-Publishes decision p content allow shown =
    let allowed = if-true (is_allow decision) _ _ allow in
    subst (Publishes content p) (sym allowed)
      (refl, content-with_draft (draft_of p) p content shown)

Reviewed-Turns :
    (R : Discussion → Discussion → Type 0) (id : ℕ) (dto : ReviewContentDto) (user : GatewayUser)
    (db : Db) (r : Result ModerationStatus) (db' : Db)
    → ((p : Discussion)
        → is_outdated dto p ≡ false
        → R p (reviewed dto.decision (note_of dto.note) p))
    → Reviewed id dto user db r db'
    → Turns id R db r db'
Reviewed-Turns R id dto user db (err e) db' h same = same
Reviewed-Turns R id dto user db (ok status) db' h (p, found, may, current, saved, _) =
    (p, reviewed dto.decision (note_of dto.note) p, found, saved, h p current)

-- A review that allows a post and returns shows every reader the text that the reviewer was shown
-- (`expectedContent`), be it the pending revision or the post itself. A review that throws, be it
-- for an outdated version, status or text, writes nothing.
pub review-Publishes :
    (media : MediaReference) (id : ℕ) (dto : ReviewContentDto) (user : GatewayUser) (db : Db)
    → is_allow dto.decision ≡ true
    → let (r, db') = review media id dto user db in
      Turns id (Publishes dto.expected_content) db r db'
review-Publishes media id dto user db allow =
    Reviewed-Turns _ id dto user db _ _
      (λ p current.
        Publishes-SameText dto.expected_content p (decided dto.decision p)
          (reviewed dto.decision (note_of dto.note) p)
          (reviewed-SameText dto.decision (note_of dto.note) p)
          (decided-Publishes dto.decision p dto.expected_content allow
            (shown_as_expected dto p current)))
      (review-Reviewed media id dto user db).holds

-- A visible post with a pending revision is shown as it was before, and any other is not shown.
abbrev pub Withholds : Discussion → Discussion → Type 0
Withholds p q =
    public_view q
    ≡ (if is_some (draft_of p) && is_visible p.visibility then some (p.title, p.content) else none)

visible_view :
    (v : Visibility) (status : ModerationStatus) (text : String × String) (more : Bool)
    → more && is_visible v ≡ true
    → is_published status ≡ true
    → (if approved status v then some text else none) ≡ some text
unfolding approved
visible_view v status text more h e = ground arith

decided-Withholds :
    (decision : Decision) (p : Discussion)
    → is_allow decision ≡ false
    → Withholds p (decided decision p)
unfolding decided approved
decided-Withholds decision p reject =
    let rejected = if-false (is_allow decision) _ _ reject in
    let drafted = is_some (draft_of p) && is_visible p.visibility in
    subst (Withholds p) (sym rejected) (elim (Bool-cases drafted) [
      | inl keeps ↦ subst (Withholds p) (sym (if-true drafted _ _ keeps)) (
          visible_view p.visibility ModerationStatus.approved (p.title, p.content) _ keeps refl
          ∙ sym (if-true drafted _ _ keeps))
      | inr hides ↦
          subst (Withholds p) (sym (if-false drafted _ _ hides)) (sym (if-false drafted _ _ hides))
    ])

-- A review that rejects a post or asks for changes, and returns: a visible post with a pending
-- revision is shown with the text it had before, and any other post is not shown.
pub review-Withholds :
    (media : MediaReference) (id : ℕ) (dto : ReviewContentDto) (user : GatewayUser) (db : Db)
    → is_allow dto.decision ≡ false
    → let (r, db') = review media id dto user db in Turns id Withholds db r db'
review-Withholds media id dto user db reject =
    Reviewed-Turns _ id dto user db _ _
      (λ p current.
        public_view-SameText (decided dto.decision p) (reviewed dto.decision (note_of dto.note) p)
          (reviewed-SameText dto.decision (note_of dto.note) p)
        ∙ decided-Withholds dto.decision p reject)
      (review-Reviewed media id dto user db).holds
