-- ===== src/Service/Endings.antt =====
-- Rules for the last step of a method, and for what is known of a run.
use aca_social.Base.{◌≡◌, refl, sym, subst, Bool, true, false, Option, none, some}
use aca_social.Service.Monad.{
  Error, Result, ok, err, Run, pure, gets, or_throw, fetch, throw_if, modify, when, branch,
}
use aca_social.Service.Rules.{Ends, Established, Checks, OnOk, pure-Ends}

-- A check at the end of a method.
pub last_throw_if-Ends :
    {S : Type 0} {P : Result (Unit {0}) → S → Type 0} (b : Bool) (e : Error) (db : S)
    → P (err e) db
    → (b ≡ false → P (ok tt) db)
    → Ends P (throw_if b e db)
unfolding throw_if
last_throw_if-Ends true e db thrown h = record { holds = thrown }
last_throw_if-Ends false e db thrown h = record { holds = h refl }

-- A query at the end of a method.
pub last_or_throw-Ends :
    {S A : Type 0} {P : Result A → S → Type 0} (o : Option A) (e : Error) (db : S)
    → P (err e) db
    → ((a : A) → o ≡ some a → P (ok a) db)
    → Ends P (or_throw o e db)
unfolding or_throw
last_or_throw-Ends none e db thrown h = record { holds = thrown }
last_or_throw-Ends (some a) e db thrown h = record { holds = h a refl }

pub last_fetch-Ends :
    {S A : Type 0} {P : Result A → S → Type 0} (f : S → Option A) (e : Error) (db : S)
    → P (err e) db
    → ((a : A) → f db ≡ some a → P (ok a) db)
    → Ends P (fetch f e db)
unfolding fetch
last_fetch-Ends f e db = last_or_throw-Ends (f db) e db

pub last_gets-Ends :
    {S A : Type 0} {P : Result A → S → Type 0} (f : S → A) (db : S)
    → P (ok (f db)) db
    → Ends P (gets f db)
unfolding gets
last_gets-Ends f db h = record { holds = h }

pub last_modify-Ends :
    {S : Type 0} {P : Result (Unit {0}) → S → Type 0} (f : S → S) (db : S)
    → P (ok tt) (f db)
    → Ends P (modify f db)
unfolding modify
last_modify-Ends f db h = record { holds = h }

pub last_when-Ends :
    {S : Type 0} {P : Result (Unit {0}) → S → Type 0} (b : Bool) (m : Run S (Unit {0})) (db : S)
    → (b ≡ true → Ends P (m db))
    → (b ≡ false → P (ok tt) db)
    → Ends P (when b m db)
unfolding when pure
last_when-Ends true m db h g = h refl
last_when-Ends false m db h g = record { holds = g refl }

-- What is known of a run that returned `a`.
pub Ends-ok :
    {S A : Type 0} {P : Result A → S → Type 0} {x : Result A × S} {a : A}
    → Ends P x
    → x.0 ≡ ok a
    → P (ok a) x.1
Ends-ok {P} {x} h e = subst (λ r. P r x.1) e h.holds

-- A branch between two methods.
pub branch-Ends :
    {S A : Type 0} {P : Result A → S → Type 0} (b : Bool) (m k : Run S A) (db : S)
    → (b ≡ true → Ends P (m db))
    → (b ≡ false → Ends P (k db))
    → Ends P (branch b m k db)
unfolding branch
branch-Ends true m k db h g = h refl
branch-Ends false m k db h g = g refl

-- A check at the end of a method that establishes nothing of its own.
pub last_when-Checks :
    {S : Type 0} {Q : Unit {0} → Type 0} (b : Bool) (m : Run S (Unit {0})) (db : S)
    → Checks Q db (m db)
    → Checks (λ _. Unit) db (when b m db)
unfolding when
last_when-Checks {S} {Q} true m db q = weaken (m db).0 (m db).1 q.holds
  where
    weaken :
        (r : Result (Unit {0})) (db' : S) → Established Q db r db' → Checks (λ _. Unit) db (r, db')
    weaken (ok a) db' h = record { holds = (h.0, tt) }
    weaken (err e) db' h = record { holds = h }
last_when-Checks false m db q = pure-Ends tt db (refl, tt)

module _ {S A : Type 0} where
  -- The invariant that a callback keeps is kept by its transaction.
  pub on_ok :
      {I : S → Type 0} {x : Result A × S} → Ends (λ _ db'. I db') x → Ends (OnOk (λ _ db'. I db')) x
  on_ok {I} {x} h = record { holds = go x.0 h.holds }
    where
      go : (r : Result A) → I x.1 → OnOk (λ _ db'. I db') r x.1
      go (ok a) i = i
      go (err e) i = tt

  pub last_check-Ends :
      {Q : A → Type 0} {I : S → Type 0} {db : S} {x : Result A × S}
      → Checks Q db x
      → I db
      → Ends (λ _ db'. I db') x
  last_check-Ends {Q} {I} {db} {x} h i = record { holds = go x.0 h.holds }
    where
      go : (r : Result A) → Established Q db r x.1 → I x.1
      go (ok a) f = subst I (sym f.0) i
      go (err e) f = subst I (sym f) i
