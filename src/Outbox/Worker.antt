-- ===== src/Outbox/Worker.antt =====
-- services/discussion-service/src/events/outbox.worker.ts: a round of deliveries is a transaction that
-- publishes the rows that are due, oldest first and at most twenty.
use aca_social.Base.{
  ℕ, zero, suc, ◌+◌, Bool, not, ◌&&◌, some, List, [], ◌∷◌, ◌++◌, ◌==◌, leb, if◌then◌else◌, select,
  update, is_some,
}
use aca_social.Store.{Event, OutboxRow}

-- What became of a publication: the broker stored the message and said so, stored it but the answer
-- was lost, or did not store it. The client throws in the last two cases.
pub data Sent : Type 0 where
  acknowledged unanswered refused : Sent

abbrev pub Broker : Type 0
Broker = OutboxRow → Sent

-- A message of the stream, with the identifier and the event of its row.
pub record Message : Type 0 where
  pub id : ℕ
  pub event : Event

abbrev pub message_of : OutboxRow → Message
message_of row = record { id = row.id; event = row.event }

-- The table `discussion_outbox`, and the stream of the broker.
pub record Post : Type 0 where
  pub outbox : List OutboxRow
  pub stream : List Message

abbrev pub row_is : ℕ → OutboxRow → Bool
row_is id row = row.id == id

-- `delivered_at IS NULL AND next_attempt_at <= now()`
abbrev pub is_due : ℕ → OutboxRow → Bool
is_due now row = not (is_some row.delivered_at) && leb row.next_attempt_at now

-- `ORDER BY created_at`
unfoldable pub insert_by_age : OutboxRow → List OutboxRow → List OutboxRow
insert_by_age row [] = row ∷ []
insert_by_age row (r ∷ rs) =
    let rest = insert_by_age row rs in
    if leb row.created_at r.created_at then row ∷ r ∷ rs else r ∷ rest

unfoldable pub by_age : List OutboxRow → List OutboxRow
by_age [] = []
by_age (r ∷ rs) = insert_by_age r (by_age rs)

-- `LIMIT n`
unfoldable pub limit : ℕ → List OutboxRow → List OutboxRow
limit zero rows = []
limit (suc n) [] = []
limit (suc n) (r ∷ rs) = r ∷ limit n rs

abbrev pub batch_size : ℕ
batch_size = 20

unfoldable pub due_rows : ℕ → List OutboxRow → List OutboxRow
due_rows now rows = limit batch_size (by_age (select (is_due now) rows))

abbrev pub delivered : ℕ → OutboxRow → OutboxRow
delivered now row = record row { delivered_at = some now }

-- Times are in milliseconds.
abbrev pub postponed : ℕ → OutboxRow → OutboxRow
postponed now row = record row { attempts = row.attempts + 1; next_attempt_at = now + 5000 }

-- The row after a publication, which throws unless it is acknowledged.
abbrev pub written : Sent → ℕ → OutboxRow → OutboxRow
written Sent.acknowledged now row = delivered now row
written _ now row = postponed now row

-- The stream after it.
abbrev pub stored : Sent → Message → List Message → List Message
stored Sent.refused m stream = stream
stored _ m stream = stream ++ m ∷ []

-- One turn of the loop.
unfoldable pub deliver_row : Sent → ℕ → OutboxRow → Post → Post
deliver_row sent now row p = record {
  outbox = update (row_is row.id) (written sent now) p.outbox;
  stream = stored sent (message_of row) p.stream;
}

unfoldable pub deliver_rows : Broker → ℕ → List OutboxRow → Post → Post
deliver_rows broker now [] p = p
deliver_rows broker now (r ∷ rs) p = deliver_rows broker now rs (deliver_row (broker r) now r p)

-- `deliver`. What was published stays published if the transaction does not commit.
unfoldable pub deliver : Bool → Broker → ℕ → Post → Post
deliver commits broker now p =
    let p' = deliver_rows broker now (due_rows now p.outbox) p in
    if commits then p' else record p { stream = p'.stream }
