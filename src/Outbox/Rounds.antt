-- ===== src/Outbox/Rounds.antt =====
-- What the rounds of deliveries achieve: no event is lost, and with a working broker every event is
-- delivered.
use aca_social.Base.{
  ℕ, ◌≡◌, refl, ◌∙◌, Bool, true, false, List, [], ◌∷◌, ◌++◌, ◌==◌, arith, map, any, is_some, All,
  All-map, All-update,
}
use aca_social.Store.{OutboxRow}
use aca_social.Outbox.Worker.{
  Sent, Broker, Message, Post, message_of, row_is, written, stored, deliver_row, deliver_rows,
  deliver,
}
use aca_social.Outbox.Writing.{map-update}

-- The rounds, one after another.
pub record Round : Type 0 where
  pub commits : Bool
  pub broker : Broker
  pub now : ℕ

unfoldable pub rounds : List Round → Post → Post
rounds [] p = p
rounds (r ∷ rs) p = rounds rs (deliver r.commits r.broker r.now p)

abbrev pub of_row : ℕ → Message → Bool
of_row id m = m.id == id

-- The message of every row that is marked as delivered is in the stream.
abbrev pub IsPublished : List Message → OutboxRow → Type 0
IsPublished stream r = is_some r.delivered_at ≡ true → any (of_row r.id) stream ≡ true

abbrev pub IsAccounted : Post → Type 0
IsAccounted p = All (IsPublished p.stream) p.outbox

any-append :
    (q : Message → Bool) (m : Message) (ms : List Message)
    → any q ms ≡ true
    → any q (ms ++ m ∷ []) ≡ true
unfolding any
any-append q m [] h = absurd (cc)
any-append q m (x ∷ xs) h = ground (arith, any-append q m xs)

any-appended :
    (q : Message → Bool) (m : Message) (ms : List Message)
    → q m ≡ true
    → any q (ms ++ m ∷ []) ≡ true
unfolding any
any-appended q m [] h = ground arith
any-appended q m (x ∷ xs) h = ground (arith, any-appended q m xs h)

stored-any :
    (s : Sent) (q : Message → Bool) (m : Message) (ms : List Message)
    → any q ms ≡ true
    → any q (stored s m ms) ≡ true
stored-any Sent.acknowledged q m ms h = any-append q m ms h
stored-any Sent.unanswered q m ms h = any-append q m ms h
stored-any Sent.refused q m ms h = h

written-IsPublished :
    (s : Sent) (now : ℕ) (row x : OutboxRow) (ms : List Message)
    → row_is row.id x ≡ true
    → IsPublished ms x
    → IsPublished (stored s (message_of row) ms) (written s now x)
written-IsPublished Sent.acknowledged now row x ms same h _ =
    any-appended (of_row x.id) (message_of row) ms (ground arith)
written-IsPublished Sent.unanswered now row x ms same h is =
    any-append (of_row x.id) (message_of row) ms (h is)
written-IsPublished Sent.refused now row x ms same h is = h is

deliver_row-IsAccounted :
    (s : Sent) (now : ℕ) (row : OutboxRow) (p : Post)
    → IsAccounted p
    → IsAccounted (deliver_row s now row p)
unfolding deliver_row
deliver_row-IsAccounted s now row p h =
    All-update (row_is row.id) (written s now) p.outbox
      (λ x same published. written-IsPublished s now row x p.stream same published)
      (λ x other published is. stored-any s (of_row x.id) (message_of row) p.stream (published is))
      h

deliver_rows-IsAccounted :
    (broker : Broker) (now : ℕ) (rs : List OutboxRow) (p : Post)
    → IsAccounted p
    → IsAccounted (deliver_rows broker now rs p)
unfolding deliver_rows
deliver_rows-IsAccounted broker now [] p h = h
deliver_rows-IsAccounted broker now (r ∷ rs) p h =
    deliver_rows-IsAccounted broker now rs _ (deliver_row-IsAccounted (broker r) now r p h)

deliver_rows-any :
    (broker : Broker) (now : ℕ) (rs : List OutboxRow) (p : Post) (q : Message → Bool)
    → any q p.stream ≡ true
    → any q (deliver_rows broker now rs p).stream ≡ true
unfolding deliver_rows deliver_row
deliver_rows-any broker now [] p q h = h
deliver_rows-any broker now (r ∷ rs) p q h =
    deliver_rows-any broker now rs _ q (stored-any (broker r) q (message_of r) p.stream h)

deliver_rows-map :
    (broker : Broker) (now : ℕ) (rs : List OutboxRow) (p : Post)
    → map message_of (deliver_rows broker now rs p).outbox ≡ map message_of p.outbox
unfolding deliver_rows deliver_row
deliver_rows-map broker now [] p = refl
deliver_rows-map broker now (r ∷ rs) p =
    deliver_rows-map broker now rs _ ∙ map-update (broker r) now r.id p.outbox

-- What holds before a round holds after it.
abbrev IsKept : Post → Post → Type 0
IsKept p p' = (map message_of p'.outbox ≡ map message_of p.outbox) × IsAccounted p'

deliver-IsKept :
    (commits : Bool) (broker : Broker) (now : ℕ) (p : Post)
    → IsAccounted p
    → IsKept p (deliver commits broker now p)
unfolding deliver
deliver-IsKept true broker now p h =
    (deliver_rows-map broker now _ p, deliver_rows-IsAccounted broker now _ p h)
deliver-IsKept false broker now p h = (
  refl,
  All-map p.outbox (λ r published is. deliver_rows-any broker now _ p (of_row r.id) (published is))
      h,
)

-- No event is lost. Whatever the broker does in any rounds, and whether or not they commit, the table
-- keeps its rows with their events, and the message of every row that is marked as delivered is in
-- the stream.
pub rounds-IsKept :
    (rs : List Round) (p : Post)
    → IsAccounted p
    → (map message_of (rounds rs p).outbox ≡ map message_of p.outbox) × IsAccounted (rounds rs p)
unfolding rounds
rounds-IsKept [] p h = (refl, h)
rounds-IsKept (r ∷ rs) p h =
    let (same, accounted) = deliver-IsKept r.commits r.broker r.now p h in
    let (later, kept) = rounds-IsKept rs (deliver r.commits r.broker r.now p) accounted in
    (later ∙ same, kept)
