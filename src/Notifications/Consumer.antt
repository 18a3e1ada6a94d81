-- ===== src/Notifications/Consumer.antt =====
-- services/notification-service/src/notifications/nats.consumer.ts: a message is acknowledged when its
-- event was processed, terminated when it is invalid, and asked for again when processing fails.
pub mod Redelivery
use aca_social.Base.{
  ℕ, Bool, true, false, not, ◌||◌, Option, none, some, List, [], ◌∷◌, String, str_eq, if◌then◌else◌,
}
use aca_social.Notifications.{
  Field, DomainEvent, Notification, Tables, Directory, Outcome, notified, ignored, invalid,
  is_valid, process_event, text_of,
}

-- A message of the stream; `event` is none if its data is no JSON.
pub record JsMsg : Type 0 where
  pub subject : String
  pub event : Option DomainEvent

pub data Verdict : Type 0 where
  ack term nak : Verdict

abbrev pub concat : String → String → String
concat String.[] t = t
concat (String.◌∷◌ c s) t = String.◌∷◌ c (concat s t)

abbrev pub subject_of : DomainEvent → String
subject_of e = concat "ac.social." (text_of e.event_type)

abbrev pub verdict_of : Outcome → Verdict
verdict_of invalid = Verdict.term
verdict_of Outcome.failed = Verdict.nak
verdict_of _ = Verdict.ack

unfoldable pub process : Directory → DomainEvent → Tables → Verdict × Tables
process directory e db = let (o, db') = process_event directory e db in (verdict_of o, db')

-- The body of the loop of `consume`.
unfoldable pub consume : Directory → JsMsg → Tables → Verdict × Tables
consume directory m db = elim m.event [
  | none ↦ (Verdict.term, db)
  | some e ↦
      if not (is_valid e) || not (str_eq m.subject (subject_of e))
      then (Verdict.term, db)
      else process directory e db
]

-- A message is delivered again unless it is acknowledged or terminated.
abbrev pub settle : Verdict × Tables → (Tables → Verdict × Tables) → Verdict × Tables
settle (Verdict.ack, db) again = (Verdict.ack, db)
settle (Verdict.term, db) again = (Verdict.term, db)
settle (Verdict.nak, db) again = again db

-- The deliveries of a message, with what the identity service answers at each.
unfoldable pub redeliver : List Directory → JsMsg → Tables → Verdict × Tables
redeliver [] m db = (Verdict.nak, db)
redeliver (d ∷ ds) m db = settle (consume d m db) λ db'. redeliver ds m db'
