-- ===== src/Outbox/Draining.antt =====
-- With a broker that acknowledges, every event is delivered.
use aca_social.Base.{
  ℕ, ◌*◌, ◌≤◌, ◌≡◌, refl, Bool, true, not, List, [], ◌∷◌, arith, count, any, is_some, length, All,
  All-update,
}
use aca_social.Store.{OutboxRow}
use aca_social.Outbox.Worker.{
  Sent, Broker, Message, Post, row_is, is_due, delivered, deliver_row, deliver_rows, deliver,
  batch_size,
}
use aca_social.Outbox.Batch.{IsKeyed}
use aca_social.Outbox.Writing.{written-IsKeyed}
use aca_social.Outbox.Delivery.{IsTaken, deliver-count}
use aca_social.Outbox.Rounds.{Round, rounds, of_row, IsPublished, IsAccounted, rounds-IsKept}

abbrev pub working : Broker
working row = Sent.acknowledged

-- Committed rounds at these times.
abbrev pub working_rounds : List ℕ → List Round
working_rounds [] = []
working_rounds (t ∷ ts) = record { commits = true; broker = working; now = t } ∷ working_rounds ts

abbrev pub is_pending : OutboxRow → Bool
is_pending r = not (is_some r.delivered_at)

-- The rows that are not delivered are due at this time.
abbrev pub IsReady : ℕ → List OutboxRow → Type 0
IsReady time rows = All (λ r. is_pending r ≡ true → r.next_attempt_at ≤ time) rows

pending_due :
    (time now : ℕ) (rows : List OutboxRow)
    → IsReady time rows
    → time ≤ now
    → count (is_due now) rows ≡ count is_pending rows
unfolding count
pending_due time now [] ready later = refl
pending_due time now (r ∷ rs) ready later =
    ground (arith, ready.0, pending_due time now rs ready.1 later)

deliver_rows-IsReady :
    (time now : ℕ) (rs : List OutboxRow) (p : Post)
    → IsReady time p.outbox
    → IsReady time (deliver_rows working now rs p).outbox
unfolding deliver_rows deliver_row
deliver_rows-IsReady time now [] p ready = ready
deliver_rows-IsReady time now (r ∷ rs) p ready =
    deliver_rows-IsReady time now rs _ (
      All-update (row_is r.id) (delivered now) p.outbox (λ x _ _ is. absurd (cc)) (λ x _ h. h)
        ready)

deliver_rows-IsKeyed :
    (now : ℕ) (rs : List OutboxRow) (p : Post)
    → IsKeyed p.outbox
    → IsKeyed (deliver_rows working now rs p).outbox
unfolding deliver_rows deliver_row
deliver_rows-IsKeyed now [] p keyed = keyed
deliver_rows-IsKeyed now (r ∷ rs) p keyed =
    deliver_rows-IsKeyed now rs _ (written-IsKeyed Sent.acknowledged now r.id p.outbox keyed)

working-pending : (now : ℕ) → IsTaken now working is_pending
working-pending now r due = (ground arith, refl)

drained :
    (time : ℕ) (ts : List ℕ) (p : Post)
    → IsKeyed p.outbox
    → IsReady time p.outbox
    → All (λ t. time ≤ t) ts
    → count is_pending p.outbox ≤ batch_size * length ts
    → count is_pending (rounds (working_rounds ts) p).outbox ≡ 0
unfolding rounds deliver
drained time [] p keyed ready later few = omega arith
drained time (t ∷ ts) p keyed ready later few =
    let counted = deliver-count working t is_pending p keyed (working-pending t) in
    let all_due = pending_due time t p.outbox ready later.0 in
    drained time ts (deliver true working t p) (deliver_rows-IsKeyed t _ p keyed)
      (deliver_rows-IsReady time t _ p ready) later.1 (ground (arith, counted, all_due))

all_published :
    (stream : List Message) (rows : List OutboxRow)
    → count is_pending rows ≡ 0
    → All (IsPublished stream) rows
    → All (λ r. any (of_row r.id) stream ≡ true) rows
unfolding count
all_published stream [] none_left h = tt
all_published stream (r ∷ rs) none_left h =
    (h.0 (ground arith), all_published stream rs (ground arith) h.1)

-- Every event is delivered. From a time at which all rows that are not delivered are due, enough
-- committed rounds of twenty rows with a broker that acknowledges leave no row that is not delivered,
-- and the message of every row in the stream.
pub working_rounds-deliver :
    (time : ℕ) (ts : List ℕ) (p : Post)
    → IsKeyed p.outbox
    → IsAccounted p
    → IsReady time p.outbox
    → All (λ t. time ≤ t) ts
    → count is_pending p.outbox ≤ batch_size * length ts
    → let p' = rounds (working_rounds ts) p in
      (count is_pending p'.outbox ≡ 0) × All (λ r. any (of_row r.id) p'.stream ≡ true) p'.outbox
working_rounds-deliver time ts p keyed accounted ready later few =
    let none_left = drained time ts p keyed ready later few in
    let (_, kept) = rounds-IsKept (working_rounds ts) p accounted in
    (none_left, all_published _ _ none_left kept)
