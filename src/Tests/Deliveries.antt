-- ===== src/Tests/Deliveries.antt =====
-- The theorems on the outbox and the consumer of its messages at concrete inputs.
use aca_social.Base.{
  ℕ, ◌-◌, ◌≤◌, ◌≡◌, refl, List, ◌==◌, if◌then◌else◌, true, false, none, some, [], ◌∷◌, arith, count,
  map, any, All,
}
use aca_social.Store.{OutboxRow, discussion_deleted}
use aca_social.Outbox.Worker.{Sent, Broker, Post, message_of, is_due, deliver, batch_size}
use aca_social.Outbox.Batch.{IsKeyed}
use aca_social.Outbox.Delivery.{deliver-due}
use aca_social.Outbox.Rounds.{Round, rounds, of_row, IsAccounted, rounds-IsKept}
use aca_social.Outbox.Draining.{IsReady, is_pending, working_rounds, working_rounds-deliver}
use aca_social.Notifications.{
  Field, DomainEvent, Tables, Display, Directory, Actor, notification_of, resolve_actor,
  resolve_comment,
}
use aca_social.Notifications.Consumer.{JsMsg, Verdict, redeliver}
use aca_social.Notifications.Consumer.Redelivery.{
  IsNew, answers, with_notification, redeliver-acknowledges,
}
use aca_social.Moderation.{trim, trim_start, trim_end}

abbrev row : ℕ → ℕ → OutboxRow
row id time = record {
  id = id;
  event = discussion_deleted id none;
  created_at = time;
  delivered_at = none;
  attempts = 0;
  next_attempt_at = time;
}

-- The younger row stands first.
abbrev post : Post
post = record { outbox = row 1 30 ∷ row 2 20 ∷ []; stream = [] }

-- A broker that answers for the second row only.
abbrev flaky : Broker
flaky r = if r.id == 2 then Sent.acknowledged else Sent.unanswered

post-IsKeyed : IsKeyed post.outbox
post-IsKeyed = ((refl, tt), (tt, tt))

post-IsAccounted : IsAccounted post
post-IsAccounted = ((λ h. absurd (cc)), ((λ h. absurd (cc)), tt))

post-IsReady : IsReady 40 post.outbox
post-IsReady = ((λ h. omega arith), ((λ h. omega arith), tt))

two_rows : count is_pending post.outbox ≤ 20
unfolding count
two_rows = omega arith

deliver-due_example :
    count (is_due 40) (deliver true flaky 40 post).outbox
    ≡ count (is_due 40) post.outbox - batch_size
deliver-due_example = deliver-due flaky 40 post post-IsKeyed

abbrev bad_rounds : List Round
bad_rounds =
    record { commits = false; broker = flaky; now = 40 }
    ∷ record { commits = true; broker = flaky; now = 41 }
    ∷ []

rounds-IsKept_example :
    (map message_of (rounds bad_rounds post).outbox ≡ map message_of post.outbox)
    × IsAccounted (rounds bad_rounds post)
rounds-IsKept_example = rounds-IsKept bad_rounds post post-IsAccounted

working_rounds-deliver_example :
    let p' = rounds (working_rounds (45 ∷ [])) post in
    (count is_pending p'.outbox ≡ 0) × All (λ r. any (of_row r.id) p'.stream ≡ true) p'.outbox
working_rounds-deliver_example =
    working_rounds-deliver 40 (45 ∷ []) post post-IsKeyed post-IsAccounted post-IsReady
      (omega arith, tt) two_rows

abbrev event : DomainEvent
event = record {
  event_id = some 90;
  event_type = Field.text "comment.created";
  has_data = true;
  recipient_id = Field.text "u10";
  receiver_id = Field.missing;
  actor_id = Field.text "u11";
  sender_id = Field.missing;
  actor_name = Field.missing;
  is_anonymous = some false;
}

abbrev message : JsMsg
message = record { subject = "ac.social.comment.created"; event = some event }

abbrev silent : Directory
silent id = Display.failed

abbrev naming : Directory
naming id = Display.profile (Field.text "An")

abbrev tables : Tables
tables = record { inbox_events = []; notifications = [] }

message-IsNew : IsNew message event 90 "u10" tables
unfolding trim trim_start trim_end
message-IsNew = record {
  parsed = refl;
  valid = refl;
  named = refl;
  identified = refl;
  addressed = refl;
  unseen = refl;
}

answered : any (answers event) (silent ∷ naming ∷ []) ≡ true
unfolding any resolve_actor resolve_comment trim trim_start trim_end
answered = refl

redeliver-acknowledges_example :
    (a : Actor) × (redeliver (silent ∷ naming ∷ []) message tables
      ≡ (Verdict.ack, with_notification 90 (notification_of event "u10" a) tables))
redeliver-acknowledges_example =
    redeliver-acknowledges message event 90 "u10" tables message-IsNew (silent ∷ naming ∷ [])
      answered
