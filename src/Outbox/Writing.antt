-- ===== src/Outbox/Writing.antt =====
-- How the table changes when a row is written after its publication.
use aca_social.Base.{
  ℕ, ◌+◌, ◌≡◌, refl, ◌∙◌, ap, Bool, true, false, some, List, [], ◌∷◌, ◌==◌, arith, if◌then◌else◌,
  find?, update, count, map, All, All-map, update-absent, All-update,
}
use aca_social.Store.{OutboxRow}
use aca_social.Outbox.Worker.{Sent, message_of, row_is, written}
use aca_social.Outbox.Batch.{IsKeyed, IsRow}

-- Writing a row keeps its identifier and its event.
message_of-written :
    (s : Sent) (now : ℕ) (r : OutboxRow) → message_of (written s now r) ≡ message_of r
message_of-written Sent.acknowledged now r = refl
message_of-written Sent.unanswered now r = refl
message_of-written Sent.refused now r = refl

pub map-update :
    (s : Sent) (now id : ℕ) (rs : List OutboxRow)
    → map message_of (update (row_is id) (written s now) rs) ≡ map message_of rs
unfolding update
map-update s now id [] = refl
map-update s now id (r ∷ rs) =
    written_head (row_is id r) ∙ ap (λ ms. message_of r ∷ ms) (map-update s now id rs)
  where
    written_head :
        (b : Bool)
        → message_of (if b then written s now r else r)
            ∷ map message_of (update (row_is id) (written s now) rs)
          ≡ message_of r ∷ map message_of (update (row_is id) (written s now) rs)
    written_head true =
        ap (λ m. m ∷ map message_of (update (row_is id) (written s now) rs))
          (message_of-written s now r)
    written_head false = refl

pub id-written : (s : Sent) (now : ℕ) (r : OutboxRow) → (written s now r).id ≡ r.id
id-written s now r = ap (λ m. m.id) (message_of-written s now r)

pub written-IsKeyed :
    (s : Sent) (now id : ℕ) (rs : List OutboxRow)
    → IsKeyed rs
    → IsKeyed (update (row_is id) (written s now) rs)
unfolding update
written-IsKeyed s now id [] keyed = tt
written-IsKeyed s now id (r ∷ rs) keyed =
    (new_head (row_is id r) refl, written-IsKeyed s now id rs keyed.1)
  where
    others :
        (a : ℕ) → a ≡ r.id → All (λ x. (a == x.id) ≡ false) (update (row_is id) (written s now) rs)
    others a same =
        All-update (row_is id) (written s now) rs (λ x _ h. ground (arith, id-written s now x))
          (λ x _ h. ground arith) keyed.0

    new_head :
        (b : Bool)
        → row_is id r ≡ b
        → All
            (λ x. ((if b then written s now r else r).id == x.id) ≡ false)
            (update (row_is id) (written s now) rs)
    new_head true e = others _ (id-written s now r)
    new_head false e = others r.id refl

-- Writing over a row that passed a test, with one that does not.
pub count-written :
    (s : Sent) (now : ℕ) (q : OutboxRow → Bool) (r : OutboxRow) (rs : List OutboxRow)
    → IsKeyed rs
    → IsRow rs r
    → q r ≡ true
    → q (written s now r) ≡ false
    → count q (update (row_is r.id) (written s now) rs) + 1 ≡ count q rs
unfolding find? update count
count-written s now q r [] keyed row passes fails = absurd (cc)
count-written s now q r (x ∷ xs) keyed row passes fails =
    split (row_is r.id x) refl row λ later. count-written s now q r xs keyed.1 later passes fails
  where
    split :
        (b : Bool)
        → row_is r.id x ≡ b
        → (if b then some x else find? (row_is r.id) xs) ≡ some r
        → (IsRow xs r → count q (update (row_is r.id) (written s now) xs) + 1 ≡ count q xs)
        → count q ((if b then written s now x else x) ∷ update (row_is r.id) (written s now) xs) + 1
          ≡ count q (x ∷ xs)
    split true e is rest =
        let same : x ≡ r = cc in
        let absent : All (λ y. row_is r.id y ≡ false) xs =
          All-map xs (λ y h. ground arith) keyed.0 in
        let kept = update-absent (row_is r.id) (written s now) xs absent in
        rw (same, kept, passes, fails) (omega arith)
    split false e is rest = omega (arith, rest is)
