-- ===== src/Store/Monad.antt =====
-- The methods of services/discussion-service: their state is `Db`.
use aca_social.Base.{ℕ, ◌+◌}
use aca_social.Service.{
  ok, err, Run, pure, throw, gets, or_throw, fetch, lift, ◌>>=◌, ◌>>◌, throw_if, modify, when,
  branch, transaction,
}
use aca_social.Store.Schema.{Db}

abbrev pub Action : Type 0 → Type 0
Action A = Run Db A

-- The same around a callback that calls `RoomsService`. That service has a connection of its own,
-- so the membership that `assertCanPost` inserts is committed whatever the transaction does.
unfoldable pub transaction_with_rooms : {A : Type 0} → Action A → Action A
transaction_with_rooms m db =
    let (r, db') = m db in
    elim r [ ok a ↦ (ok a, db') | err e ↦ (err e, record db { memberships = db'.memberships }) ]

-- A generated uuid.
unfoldable pub new_id : Action ℕ
new_id db = (ok db.next_id, record db { next_id = db.next_id + 1 })

unfoldable pub steps : Unit {0}
unfolding pure throw gets or_throw fetch lift new_id ◌>>=◌ ◌>>◌ throw_if modify when branch
    transaction transaction_with_rooms
steps = tt
