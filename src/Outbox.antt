-- ===== src/Outbox.antt =====
-- services/discussion-service/src/events/outbox.service.ts: the row of an event is written in the
-- transaction of the change that it reports.
pub mod Worker
pub mod Batch
pub mod Writing
pub mod Delivery
pub mod Rounds
pub mod Draining
use aca_social.Base.{ℕ, ◌+◌, none, [], ◌∷◌, ◌++◌}
use aca_social.Store.{Db, Event, OutboxRow, Action, modify}

abbrev pub new_row : ℕ → ℕ → Event → OutboxRow
new_row id now event = record {
  id = id;
  event = event;
  created_at = now;
  delivered_at = none;
  attempts = 0;
  next_attempt_at = now;
}

-- `OutboxService.event`, with the column defaults of the table.
abbrev pub add_event : Event → Db → Db
add_event event db = record db {
  next_id = db.next_id + 1;
  outbox = db.outbox ++ new_row db.next_id db.clock event ∷ [];
}

abbrev pub emit : Event → Action (Unit {0})
emit event = modify (add_event event)
