-- ===== src/Outbox/Batch.antt =====
-- The rows that a round takes: they are rows of the table, due, and no row twice.
use aca_social.Base.{
  ℕ, zero, suc, ◌+◌, ◌≡◌, refl, ◌∙◌, ap, Bool, true, false, some, List, [], ◌∷◌, ◌==◌, leb, arith,
  if◌then◌else◌, find?, select, count, length, All, All-select, All_satisfies,
}
use aca_social.Store.{OutboxRow}
use aca_social.Outbox.Worker.{row_is, is_due, insert_by_age, by_age, limit, due_rows, batch_size}

-- The primary key: no two rows have the same identifier.
abbrev pub IsKeyed : List OutboxRow → Type 0
IsKeyed [] = Unit
IsKeyed (r ∷ rs) = All (λ x. (r.id == x.id) ≡ false) rs × IsKeyed rs

module _ (P : OutboxRow → Type 0) where
  insert_by_age-All :
      (r : OutboxRow) (rs : List OutboxRow) → P r → All P rs → All P (insert_by_age r rs)
  unfolding insert_by_age
  insert_by_age-All r [] first rest = (first, tt)
  insert_by_age-All r (x ∷ xs) first rest =
      placed (leb r.created_at x.created_at) (insert_by_age-All r xs first rest.1)
    where
      placed :
          (b : Bool)
          → All P (insert_by_age r xs)
          → All P (if b then r ∷ x ∷ xs else x ∷ insert_by_age r xs)
      placed true later = (first, rest)
      placed false later = (rest.0, later)

  by_age-All : (rs : List OutboxRow) → All P rs → All P (by_age rs)
  unfolding by_age
  by_age-All [] a = tt
  by_age-All (r ∷ rs) a = insert_by_age-All r (by_age rs) a.0 (by_age-All rs a.1)

  limit-All : (n : ℕ) (rs : List OutboxRow) → All P rs → All P (limit n rs)
  unfolding limit
  limit-All zero rs a = tt
  limit-All (suc n) [] a = tt
  limit-All (suc n) (r ∷ rs) a = (a.0, limit-All n rs a.1)

same_sym : (a b : ℕ) → (a == b) ≡ false → (b == a) ≡ false
same_sym a b h = ground arith

insert_by_age-IsKeyed :
    (r : OutboxRow) (rs : List OutboxRow)
    → All (λ x. (r.id == x.id) ≡ false) rs
    → IsKeyed rs
    → IsKeyed (insert_by_age r rs)
unfolding insert_by_age
insert_by_age-IsKeyed r [] new keyed = (tt, tt)
insert_by_age-IsKeyed r (x ∷ xs) new keyed =
    placed (leb r.created_at x.created_at) (insert_by_age-IsKeyed r xs new.1 keyed.1)
  where
    placed :
        (b : Bool)
        → IsKeyed (insert_by_age r xs)
        → IsKeyed (if b then r ∷ x ∷ xs else x ∷ insert_by_age r xs)
    placed true later = (new, keyed)
    placed false later = (insert_by_age-All _ r xs (same_sym r.id x.id new.0) keyed.0, later)

by_age-IsKeyed : (rs : List OutboxRow) → IsKeyed rs → IsKeyed (by_age rs)
unfolding by_age
by_age-IsKeyed [] keyed = tt
by_age-IsKeyed (r ∷ rs) keyed =
    insert_by_age-IsKeyed r (by_age rs) (by_age-All _ rs keyed.0) (by_age-IsKeyed rs keyed.1)

limit-IsKeyed : (n : ℕ) (rs : List OutboxRow) → IsKeyed rs → IsKeyed (limit n rs)
unfolding limit
limit-IsKeyed zero rs keyed = tt
limit-IsKeyed (suc n) [] keyed = tt
limit-IsKeyed (suc n) (r ∷ rs) keyed = (limit-All _ n rs keyed.0, limit-IsKeyed n rs keyed.1)

select-IsKeyed : (p : OutboxRow → Bool) (rs : List OutboxRow) → IsKeyed rs → IsKeyed (select p rs)
unfolding select
select-IsKeyed p [] keyed = tt
select-IsKeyed p (r ∷ rs) keyed =
    kept (p r) (select-IsKeyed p rs keyed.1) (All-select _ p rs keyed.0)
  where
    kept :
        (b : Bool)
        → IsKeyed (select p rs)
        → All (λ x. (r.id == x.id) ≡ false) (select p rs)
        → let rest = select p rs in IsKeyed (if b then r ∷ rest else rest)
    kept true rest new = (new, rest)
    kept false rest new = rest

-- By its identifier a row is found.
abbrev pub IsRow : List OutboxRow → OutboxRow → Type 0
IsRow rows r = find? (row_is r.id) rows ≡ some r

all_rows : (rs : List OutboxRow) → IsKeyed rs → All (IsRow rs) rs
unfolding find?
all_rows [] keyed = tt
all_rows (r ∷ rs) keyed = (ground arith, behind r rs rs keyed.0 (all_rows rs keyed.1))
  where
    behind :
        (r : OutboxRow) (rs xs : List OutboxRow)
        → All (λ x. (r.id == x.id) ≡ false) xs
        → All (IsRow rs) xs
        → All (IsRow (r ∷ rs)) xs
    behind r rs [] new found = tt
    behind r rs (x ∷ xs) new found = ((rw new.0 found.0), behind r rs xs new.1 found.1)

-- What is known of the rows of a round.
pub record IsBatch (now : ℕ) (rows batch : List OutboxRow) : Type 0 where
  pub keyed : IsKeyed batch
  pub found : All (IsRow rows) batch
  pub due : All (λ r. is_due now r ≡ true) batch

pub due_rows-IsBatch :
    (now : ℕ) (rows : List OutboxRow) → IsKeyed rows → IsBatch now rows (due_rows now rows)
unfolding due_rows
due_rows-IsBatch now rows keyed = record {
  keyed = limit-IsKeyed batch_size _ (by_age-IsKeyed _ (select-IsKeyed (is_due now) rows keyed));
  found =
      limit-All _ batch_size _
        (by_age-All _ _ (All-select _ (is_due now) rows (all_rows rows keyed)));
  due = limit-All _ batch_size _ (by_age-All _ _ (All_satisfies _ (is_due now) rows λ r h. h));
}

length-insert_by_age :
    (r : OutboxRow) (rs : List OutboxRow) → length (insert_by_age r rs) ≡ length rs + 1
unfolding insert_by_age
length-insert_by_age r [] = refl
length-insert_by_age r (x ∷ xs) = ground (arith, length-insert_by_age r xs)

length-by_age : (rs : List OutboxRow) → length (by_age rs) ≡ length rs
unfolding by_age
length-by_age [] = refl
length-by_age (r ∷ rs) = omega (arith, length-insert_by_age r (by_age rs), length-by_age rs)

length-select : (p : OutboxRow → Bool) (rs : List OutboxRow) → length (select p rs) ≡ count p rs
unfolding select count
length-select p [] = refl
length-select p (r ∷ rs) = ground (arith, length-select p rs)

-- `min n k`
abbrev pub at_most : ℕ → ℕ → ℕ
at_most n k = if leb k n then k else n

length-limit : (n : ℕ) (rs : List OutboxRow) → length (limit n rs) ≡ at_most n (length rs)
unfolding limit
length-limit zero rs = ground arith
length-limit (suc n) [] = ground arith
length-limit (suc n) (r ∷ rs) = ground (arith, length-limit n rs)

pub length-due_rows :
    (now : ℕ) (rows : List OutboxRow)
    → length (due_rows now rows) ≡ at_most batch_size (count (is_due now) rows)
unfolding due_rows
length-due_rows now rows =
    length-limit batch_size _
    ∙ ap (at_most batch_size) (length-by_age _ ∙ length-select (is_due now) rows)
