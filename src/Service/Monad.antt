-- ===== src/Service/Monad.antt =====
-- A service method: it reads and writes its database, and returns or throws. What was written
-- before a throw stays written, unless a transaction takes it back.
use aca_social.Base.{Bool, true, false, Option, none, some}

-- The exceptions of `@nestjs/common` that the services throw, without their messages; `internal` is
-- any other throw, which the server answers with status 500.
pub data Error : Type 0 where
  unauthorized forbidden bad_request conflict not_found unavailable too_many_requests internal :
      Error

pub data Result {ℓ} (A : Type ℓ) : Type ℓ where
  ok : A → Result A
  err : Error → Result A

-- A method on the state `S`, that returns an `A`.
abbrev pub Run : Type 0 → Type 0 → Type 0
Run S A = S → Result A × S

-- The steps are shut: a proof goes through a method by their rules (Service/Rules.antt), and a test
-- opens them all by the line `unfolding steps`.
module _ {S A : Type 0} where
  unfoldable pub pure : A → Run S A
  pure a db = (ok a, db)

  unfoldable pub throw : Error → Run S A
  throw e db = (err e, db)

  unfoldable pub gets : (S → A) → Run S A
  gets f db = (ok (f db), db)

  unfoldable pub or_throw : Option A → Error → Run S A
  or_throw none e db = (err e, db)
  or_throw (some a) e db = (ok a, db)

  -- `const row = await find(…); if (!row) throw e`
  unfoldable pub fetch : (S → Option A) → Error → Run S A
  unfolding or_throw
  fetch f e db = or_throw (f db) e db

infixl 5 ◌>>=◌ ◌>>◌
unfoldable pub ◌>>=◌ : {S A B : Type 0} → Run S A → (A → Run S B) → Run S B
◌>>=◌ m f db = let (r, db') = m db in elim r [ ok a ↦ f a db' | err e ↦ (err e, db') ]

unfoldable pub ◌>>◌ : {S A B : Type 0} → Run S A → Run S B → Run S B
unfolding ◌>>=◌
m >> k = m >>= λ _. k

-- `if (test) throw e`
unfoldable pub throw_if : {S : Type 0} → Bool → Error → Run S (Unit {0})
throw_if true e db = (err e, db)
throw_if false e db = (ok tt, db)

unfoldable pub modify : {S : Type 0} → (S → S) → Run S (Unit {0})
modify f db = (ok tt, f db)

-- `if (test) await m`
unfoldable pub when : {S : Type 0} → Bool → Run S (Unit {0}) → Run S (Unit {0})
unfolding pure
when true m = m
when false m = pure tt

-- `if (test) { m } else { k }`
unfoldable pub branch : {S A : Type 0} → Bool → Run S A → Run S A → Run S A
branch true m k = m
branch false m k = k

-- `db.transaction(…)`: a throw takes back what the callback wrote.
unfoldable pub transaction : {S A : Type 0} → Run S A → Run S A
transaction m db = let (r, db') = m db in elim r [ ok a ↦ (ok a, db') | err e ↦ (err e, db) ]

-- The answer of another service: a value or the exception that the client throws for it.
unfoldable pub lift : {S A : Type 0} → Result A → Run S A
lift r db = (r, db)
