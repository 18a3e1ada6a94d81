-- ===== src/Store/Rules.antt =====
-- Rules for the steps of the discussion service.
use aca_social.Base.{ℕ, ◌+◌}
use aca_social.Service.{Result, ok, err, Ends, ◌>>=◌}
use aca_social.Store.Schema.{Db}
use aca_social.Store.Monad.{Action, new_id, transaction_with_rooms}

-- What a transaction that calls `RoomsService` leaves of the run of its callback.
abbrev pub Kept : {A : Type 0} → (Result A → Db → Type 0) → Db → Result A → Db → Type 0
Kept P db (ok a) db' = P (ok a) db'
Kept P db (err e) db' = P (err e) (record db { memberships = db'.memberships })

module _ {A : Type 0} {P : Result A → Db → Type 0} where
  kept :
      (db db' : Db) (r : Result A)
      → Kept P db r db'
      → Ends P (elim r [
        | ok a ↦ (ok a, db')
        | err e ↦ (err e, record db { memberships = db'.memberships })
      ])
  kept db db' (ok a) h = record { holds = h }
  kept db db' (err e) h = record { holds = h }

  pub transaction_with_rooms-Ends :
      (m : Action A) (db : Db) → Ends (Kept P db) (m db) → Ends P (transaction_with_rooms m db)
  unfolding transaction_with_rooms
  transaction_with_rooms-Ends m db h = kept db (m db).1 (m db).0 h.holds

module _ {B : Type 0} {P : Result B → Db → Type 0} where
  pub new_id-Ends :
      (k : ℕ → Action B) (db : Db)
      → Ends P (k db.next_id (record db { next_id = db.next_id + 1 }))
      → Ends P ((new_id >>= k) db)
  unfolding new_id ◌>>=◌
  new_id-Ends k db h = h
