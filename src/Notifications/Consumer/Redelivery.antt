-- ===== src/Notifications/Consumer/Redelivery.antt =====
-- Redelivery of a message until the identity service answers.
use aca_social.Base.{
  ℕ, ◌≡◌, refl, ◌∙◌, ap, Bool, true, false, some, List, [], ◌∷◌, ◌++◌, String, str_eq, arith,
  includes, any, is_some, Option-cases, Bool-cases, inl, inr,
}
use aca_social.Notifications.{
  Field, DomainEvent, Notification, Tables, Directory, Outcome, Actor, notified, or_field, is_valid,
  notification_of, resolve_actor, claim, process_new, process_valid, process_identified,
  process_event,
}
use aca_social.Notifications.Consumer.{
  JsMsg, Verdict, subject_of, verdict_of, process, consume, settle, redeliver,
}

-- The identity service answers what the event needs.
abbrev pub answers : DomainEvent → Directory → Bool
answers e directory = is_some (resolve_actor directory e)

-- A message for a recipient, with an event that was not processed yet.
pub record IsNew (m : JsMsg) (e : DomainEvent) (id : ℕ) (recipient : String) (db : Tables)
    : Type 0 where
  pub parsed : m.event ≡ some e
  pub valid : is_valid e ≡ true
  pub named : str_eq m.subject (subject_of e) ≡ true
  pub identified : e.event_id ≡ some id
  pub addressed : or_field e.recipient_id e.receiver_id ≡ Field.text recipient
  pub unseen : includes db.inbox_events id ≡ false

-- The tables with the notification of the event.
abbrev pub with_notification : ℕ → Notification → Tables → Tables
with_notification id n db = record {
  inbox_events = id ∷ db.inbox_events;
  notifications = db.notifications ++ n ∷ [];
}

module _ (m : JsMsg) (e : DomainEvent) (id : ℕ) (recipient : String) (db : Tables)
    (new : IsNew m e id recipient db) where
  consume-new :
      (d : Directory)
      → consume d m db ≡ (let (o, db') = process_new d e id recipient db in (verdict_of o, db'))
  unfolding consume process process_event process_identified process_valid
  consume-new d =
      rw (new.parsed, new.valid, new.named, new.identified, new.addressed, new.unseen) refl

  process_new-unanswered :
      (d : Directory) → answers e d ≡ false → process_new d e id recipient db ≡ (Outcome.failed, db)
  unfolding process_new
  process_new-unanswered d silent = elim (Option-cases (resolve_actor d e)) [
    | inl unknown ↦ rw (process_new, unknown) refl
    | inr (a, is) ↦ absurd (ground arith)
  ]

  process_new-answered :
      (d : Directory)
      → answers e d ≡ true
      → (a : Actor) × (process_new d e id recipient db ≡ (
        notified (notification_of e recipient a),
        with_notification id (notification_of e recipient a) db,
      ))
  unfolding process_new claim
  process_new-answered d answered = elim (Option-cases (resolve_actor d e)) [
    | inl unknown ↦ absurd (ground arith)
    | inr (a, is) ↦ (a, rw (process_new, is, claim, new.unseen) refl)
  ]

  -- A message for a recipient is acknowledged, with one notification of its event, as soon as the
  -- identity service answers at one of its deliveries; the deliveries before that change nothing.
  pub redeliver-acknowledges :
      (ds : List Directory)
      → any (answers e) ds ≡ true
      → (a : Actor) × (redeliver ds m db
          ≡ (Verdict.ack, with_notification id (notification_of e recipient a) db))
  unfolding any redeliver
  redeliver-acknowledges [] answered = absurd (cc)
  redeliver-acknowledges (d ∷ ds) answered = elim (Bool-cases (answers e d)) [
    | inl now ↦
        let (a, processed) = process_new-answered d now in
        (
          a,
          ap (λ x. settle x λ db'. redeliver ds m db')
              (consume-new d ∙ ap (λ x. (verdict_of x.0, x.1)) processed),
        )
    | inr silent ↦
        let failed = process_new-unanswered d silent in
        let (a, later) = redeliver-acknowledges ds (rw silent at answered) in
        (
          a,
          ap (λ x. settle x λ db'. redeliver ds m db')
                (consume-new d ∙ ap (λ x. (verdict_of x.0, x.1)) failed)
              ∙ later,
        )
  ]
