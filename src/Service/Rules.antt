-- ===== src/Service/Rules.antt =====
-- Rules for the steps: how a method ends, from how its steps end.
use aca_social.Base.{◌≡◌, refl, sym, subst, Bool, true, false, Option, none, some, if◌then◌else◌}
use aca_social.Service.Monad.{
  Error, Result, ok, err, Run, pure, throw, gets, or_throw, fetch, lift, ◌>>=◌, ◌>>◌, throw_if,
  modify, when, transaction,
}

-- The run `x` returned or threw, and left the database, such that `P` holds.
pub record Ends {S A : Type 0} (P : Result A → S → Type 0) (x : Result A × S) : Type 0 where
  pub holds : P x.0 x.1

-- What a check establishes if it passes; it writes nothing.
abbrev pub Established : {S A : Type 0} → (A → Type 0) → S → Result A → S → Type 0
Established Q db (ok a) db' = (db' ≡ db) × Q a
Established Q db (err _) db' = db' ≡ db

abbrev pub Checks : {S A : Type 0} → (A → Type 0) → S → Result A × S → Type 0
Checks Q db x = Ends (Established Q db) x

-- What a transaction leaves of a callback that returned.
abbrev pub OnOk : {S A : Type 0} → (Result A → S → Type 0) → Result A → S → Type 0
OnOk P (ok a) db = P (ok a) db
OnOk P (err e) db = Unit

module _ {S A : Type 0} {P : Result A → S → Type 0} where
  pub pure-Ends : (a : A) (db : S) → P (ok a) db → Ends P (pure a db)
  unfolding pure
  pure-Ends a db h = record { holds = h }

  pub throw-Ends : (e : Error) (db : S) → P (err e) db → Ends P (throw e db)
  unfolding throw
  throw-Ends e db h = record { holds = h }

  transacted :
      (db db' : S) (r : Result A)
      → ((e : Error) → P (err e) db)
      → OnOk P r db'
      → Ends P (elim r [ ok a ↦ (ok a, db') | err e ↦ (err e, db) ])
  transacted db db' (ok a) thrown h = record { holds = h }
  transacted db db' (err e) thrown h = record { holds = thrown e }

  pub transaction-Ends :
      (m : Run S A) (db : S)
      → ((e : Error) → P (err e) db)
      → Ends (OnOk P) (m db)
      → Ends P (transaction m db)
  unfolding transaction
  transaction-Ends m db thrown h = transacted db (m db).1 (m db).0 thrown h.holds

module _ {S A B : Type 0} {P : Result B → S → Type 0} where
  pub gets-Ends :
      (f : S → A) (k : A → Run S B) (db : S) → Ends P (k (f db) db) → Ends P ((gets f >>= k) db)
  unfolding gets ◌>>=◌
  gets-Ends f k db h = h

  pub or_throw-Ends :
      (o : Option A) (e : Error) (k : A → Run S B) (db : S)
      → P (err e) db
      → ((a : A) → o ≡ some a → Ends P (k a db))
      → Ends P ((or_throw o e >>= k) db)
  unfolding or_throw ◌>>=◌
  or_throw-Ends none e k db thrown h = record { holds = thrown }
  or_throw-Ends (some a) e k db thrown h = h a refl

  pub fetch-Ends :
      (f : S → Option A) (e : Error) (k : A → Run S B) (db : S)
      → P (err e) db
      → ((a : A) → f db ≡ some a → Ends P (k a db))
      → Ends P ((fetch f e >>= k) db)
  unfolding fetch ◌>>=◌
  fetch-Ends f e k db thrown h = unfold ◌>>=◌ in or_throw-Ends (f db) e k db thrown h

  or_throw_or-Ends :
      (o : Option A) (e : Error) (k : A → Run S B) (db : S)
      → (o ≡ none → P (err e) db)
      → ((a : A) → o ≡ some a → Ends P (k a db))
      → Ends P ((or_throw o e >>= k) db)
  unfolding or_throw ◌>>=◌
  or_throw_or-Ends none e k db missing h = record { holds = missing refl }
  or_throw_or-Ends (some a) e k db missing h = h a refl

  -- The same, where it matters that there is no row.
  pub fetch_or-Ends :
      (f : S → Option A) (e : Error) (k : A → Run S B) (db : S)
      → (f db ≡ none → P (err e) db)
      → ((a : A) → f db ≡ some a → Ends P (k a db))
      → Ends P ((fetch f e >>= k) db)
  unfolding fetch ◌>>=◌
  fetch_or-Ends f e k db missing h = unfold ◌>>=◌ in or_throw_or-Ends (f db) e k db missing h

  -- A query whose row is known.
  pub fetch_found-Ends :
      (f : S → Option A) (e : Error) (k : A → Run S B) (db : S) (a : A)
      → f db ≡ some a
      → Ends P (k a db)
      → Ends P ((fetch f e >>= k) db)
  fetch_found-Ends f e k db a found h =
      fetch_or-Ends f e k db (λ gone. absurd (cc (gone, found)))
        λ b is. let same : b ≡ a = cc (is, found) in subst (λ r. Ends P (k r db)) (sym same) h

  pub lift-Ends :
      (r : Result A) (k : A → Run S B) (db : S)
      → ((e : Error) → P (err e) db)
      → ((a : A) → r ≡ ok a → Ends P (k a db))
      → Ends P ((lift r >>= k) db)
  unfolding lift ◌>>=◌
  lift-Ends (ok a) k db thrown h = h a refl
  lift-Ends (err e) k db thrown h = record { holds = thrown e }

  bound :
      (Q : Result A → S → Type 0) (r : Result A) (db' : S) (k : A → Run S B)
      → Q r db'
      → ((e : Error) → Q (err e) db' → P (err e) db')
      → ((a : A) → Q (ok a) db' → Ends P (k a db'))
      → Ends P (elim r [ ok a ↦ k a db' | err e ↦ (err e, db') ])
  bound Q (ok a) db' k q thrown h = h a q
  bound Q (err e) db' k q thrown h = record { holds = thrown e q }

  pub bind-Ends :
      (Q : Result A → S → Type 0) (m : Run S A) (k : A → Run S B) (db : S)
      → Ends Q (m db)
      → ((e : Error) (db' : S) → Q (err e) db' → P (err e) db')
      → ((a : A) (db' : S) → Q (ok a) db' → Ends P (k a db'))
      → Ends P ((m >>= k) db)
  unfolding ◌>>=◌
  bind-Ends Q m k db q thrown h =
      bound Q (m db).0 (m db).1 k q.holds (λ e. thrown e (m db).1) (λ a. h a (m db).1)

  -- After a check the database is the one before it.
  pub check-Ends :
      (Q : A → Type 0) (m : Run S A) (k : A → Run S B) (db : S)
      → Checks Q db (m db)
      → ((e : Error) → P (err e) db)
      → ((a : A) → Q a → Ends P (k a db))
      → Ends P ((m >>= k) db)
  check-Ends Q m k db q thrown h =
      bind-Ends (Established Q db) m k db q (λ e db' same. subst (P (err e)) (sym same) (thrown e))
        (λ a db' (same, fact). subst (λ d. Ends P (k a d)) (sym same) (h a fact))

module _ {S B : Type 0} {P : Result B → S → Type 0} where
  pub throw_if-Ends :
      (b : Bool) (e : Error) (k : Run S B) (db : S)
      → P (err e) db
      → (b ≡ false → Ends P (k db))
      → Ends P ((throw_if b e >> k) db)
  unfolding throw_if ◌>>◌
  throw_if-Ends true e k db thrown h = record { holds = thrown }
  throw_if-Ends false e k db thrown h = h refl

  -- A test that is known to fail.
  pub passed-Ends :
      (b : Bool) (e : Error) (k : Run S B) (db : S)
      → b ≡ false
      → Ends P (k db)
      → Ends P ((throw_if b e >> k) db)
  unfolding throw_if ◌>>◌
  passed-Ends true e k db fails h = absurd (cc)
  passed-Ends false e k db fails h = h

  pub lift_then-Ends :
      {A : Type 0} (r : Result A) (k : Run S B) (db : S)
      → ((e : Error) → P (err e) db)
      → ((a : A) → r ≡ ok a → Ends P (k db))
      → Ends P ((lift r >> k) db)
  unfolding ◌>>◌
  lift_then-Ends r k db thrown h = lift-Ends r (λ _. k) db thrown h

  pub lift_ok-Ends :
      {A : Type 0} (a : A) (k : Run S B) (db : S) → Ends P (k db) → Ends P ((lift (ok a) >> k) db)
  unfolding lift ◌>>=◌ ◌>>◌
  lift_ok-Ends a k db h = h

  pub modify-Ends :
      (f : S → S) (k : Run S B) (db : S) → Ends P (k (f db)) → Ends P ((modify f >> k) db)
  unfolding modify ◌>>◌
  modify-Ends f k db h = h

  pub when-Ends :
      (b : Bool) (f : S → S) (k : Run S B) (db : S)
      → Ends P (k (if b then f db else db))
      → Ends P ((when b (modify f) >> k) db)
  unfolding modify when ◌>>◌
  when-Ends true f k db h = h
  when-Ends false f k db h = h

  pub check_then-Ends :
      {A : Type 0} (Q : A → Type 0) (m : Run S A) (k : Run S B) (db : S)
      → Checks Q db (m db)
      → ((e : Error) → P (err e) db)
      → ((a : A) → Q a → Ends P (k db))
      → Ends P ((m >> k) db)
  unfolding ◌>>◌
  check_then-Ends Q m k db q thrown h = check-Ends Q m (λ _. k) db q thrown h

  pub bind_then-Ends :
      {A : Type 0} (Q : Result A → S → Type 0) (m : Run S A) (k : Run S B) (db : S)
      → Ends Q (m db)
      → ((e : Error) (db' : S) → Q (err e) db' → P (err e) db')
      → ((a : A) (db' : S) → Q (ok a) db' → Ends P (k db'))
      → Ends P ((m >> k) db)
  unfolding ◌>>◌
  bind_then-Ends Q m k db q thrown h = bind-Ends Q m (λ _. k) db q thrown h

  -- `if (test) await check`
  pub check_when-Ends :
      (Q : Unit {0} → Type 0) (b : Bool) (m : Run S (Unit {0})) (k : Run S B) (db : S)
      → Checks Q db (m db)
      → ((e : Error) → P (err e) db)
      → ((b ≡ true → Q tt) → Ends P (k db))
      → Ends P ((when b m >> k) db)
  unfolding when
  check_when-Ends Q true m k db q thrown h =
      check_then-Ends Q m k db q thrown (λ _ fact. h (λ _. fact))
  check_when-Ends Q false m k db q thrown h =
      check_then-Ends (λ _. Unit) (pure tt) k db (pure-Ends tt db (refl, tt)) thrown
        (λ _ _. h (λ t. absurd (cc)))
