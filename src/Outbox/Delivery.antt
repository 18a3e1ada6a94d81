-- ===== src/Outbox/Delivery.antt =====
-- How many rows a round takes.
use aca_social.Base.{
  ℕ, ◌+◌, ◌-◌, ◌≡◌, refl, sym, ◌∙◌, ap, Bool, true, false, List, [], ◌∷◌, ◌==◌, arith, update,
  count, length, All, find?-update_other,
}
use aca_social.Store.{OutboxRow}
use aca_social.Outbox.Worker.{
  Sent, Broker, Post, row_is, is_due, due_rows, written, deliver_row, deliver_rows, deliver,
  batch_size,
}
use aca_social.Outbox.Batch.{IsKeyed, IsRow, IsBatch, due_rows-IsBatch, at_most, length-due_rows}
use aca_social.Outbox.Writing.{id-written, written-IsKeyed, count-written}

found_after :
    (s : Sent) (now : ℕ) (r : OutboxRow) (rows rs : List OutboxRow)
    → All (λ x. (r.id == x.id) ≡ false) rs
    → All (IsRow rows) rs
    → All (IsRow (update (row_is r.id) (written s now) rows)) rs
found_after s now r rows [] other found = tt
found_after s now r rows (x ∷ xs) other found = (
  find?-update_other (row_is r.id) (row_is x.id) (written s now) rows
        (λ y h. ground (arith, other.0)) (λ y h. ground (arith, other.0, id-written s now y))
      ∙ found.0,
  found_after s now r rows xs other.1 found.1,
)

-- A test that due rows pass, and rows that were written fail.
abbrev pub IsTaken : ℕ → Broker → (OutboxRow → Bool) → Type 0
IsTaken now broker q =
    (r : OutboxRow) → is_due now r ≡ true → (q r ≡ true) × (q (written (broker r) now r) ≡ false)

deliver_rows-count :
    (broker : Broker) (now : ℕ) (q : OutboxRow → Bool) (rs : List OutboxRow) (p : Post)
    → IsKeyed p.outbox
    → IsBatch now p.outbox rs
    → IsTaken now broker q
    → count q (deliver_rows broker now rs p).outbox + length rs ≡ count q p.outbox
unfolding deliver_rows deliver_row
deliver_rows-count broker now q [] p keyed batch ends = omega arith
deliver_rows-count broker now q (r ∷ rs) p keyed batch ends =
    let s = broker r in
    let (passes, fails) = ends r batch.due.0 in
    let one = count-written s now q r p.outbox keyed batch.found.0 passes fails in
    let rest =
      deliver_rows-count broker now q rs (deliver_row s now r p)
        (written-IsKeyed s now r.id p.outbox keyed)
        (record {
          keyed = batch.keyed.1;
          found = found_after s now r p.outbox rs batch.keyed.0 batch.found.1;
          due = batch.due.1;
        })
        ends in
    omega (arith, one, rest)

pub deliver-count :
    (broker : Broker) (now : ℕ) (q : OutboxRow → Bool) (p : Post)
    → IsKeyed p.outbox
    → IsTaken now broker q
    → count q (deliver true broker now p).outbox + at_most batch_size (count (is_due now) p.outbox)
      ≡ count q p.outbox
unfolding deliver
deliver-count broker now q p keyed ends =
    ap (λ k. count q (deliver_rows broker now (due_rows now p.outbox) p).outbox + k)
      (sym (length-due_rows now p.outbox))
    ∙ deliver_rows-count broker now q _ p keyed (due_rows-IsBatch now p.outbox keyed) ends

written-is_due : (s : Sent) (now : ℕ) (r : OutboxRow) → is_due now (written s now r) ≡ false
written-is_due Sent.acknowledged now r = refl
written-is_due Sent.unanswered now r = ground arith
written-is_due Sent.refused now r = ground arith

-- A committed round takes twenty of the rows that are due, or all of them, whatever the broker does
-- with their messages.
pub deliver-due :
    (broker : Broker) (now : ℕ) (p : Post)
    → IsKeyed p.outbox
    → count (is_due now) (deliver true broker now p).outbox
      ≡ count (is_due now) p.outbox - batch_size
deliver-due broker now p keyed =
    let counted =
      deliver-count broker now (is_due now) p keyed
        λ r due. (due, written-is_due (broker r) now r) in
    ground (arith, counted)
