-- ===== src/Identity/Users/RoleCalls.antt =====
-- Overlapping transactions of changeRole, services/identity-service/src/users/users.service.ts. A
-- transaction locks the row of its user until it has committed, and it counts the admins without a
-- lock, in what the others have committed.
use aca_social.Base.{
  ℕ, Bool, false, not, ◌&&◌, Option, none, some, List, [], ◌∷◌, ◌==◌, if◌then◌else◌, find?, delete,
  any,
}
use aca_social.Store.{Role}
use aca_social.Identity.Users.{
  User, Accounts, Decision, is_admin_role, user_is, decide_role, save_role,
}

-- A transaction that is to change the role, and has not committed yet.
pub record Pending : Type 0 where
  pub call : ℕ
  pub row : User
  pub role : Role
  pub actor : ℕ

pub record Transactions : Type 0 where
  pub accounts : Accounts
  pub pending : List Pending

-- A transaction, with its number, the user, the role and the actor, locks the row and does its
-- checks; or it writes and commits.
pub data Step : Type 0 where
  checks : ℕ → ℕ → Role → ℕ → Step
  commits : ℕ → Step

abbrev pub is_call : ℕ → Pending → Bool
is_call n t = t.call == n

abbrev pub locks : ℕ → Pending → Bool
locks user t = t.row.id == user

-- It takes the role of an admin away.
abbrev pub demotes : Pending → Bool
demotes t = is_admin_role t.row.role && not (is_admin_role t.role)

unfoldable pub after_decision : Pending → Decision → Transactions → Transactions
after_decision t Decision.refused s = s
after_decision t Decision.unchanged s = s
after_decision t Decision.changed s = record s { pending = t ∷ s.pending }

unfoldable pub found : ℕ → Role → ℕ → Option User → Transactions → Transactions
found n role actor none s = s
found n role actor (some u) s =
    let t : Pending = record { call = n; row = u; role = role; actor = actor } in
    after_decision t (decide_role role actor u s.accounts.users) s

unfoldable pub committed : ℕ → Option Pending → Transactions → Transactions
committed n none s = s
committed n (some t) s = record s {
  accounts = save_role t.role t.actor t.row s.accounts;
  pending = delete (is_call n) s.pending;
}

-- While the row is locked, a transaction that asks for it waits: it does nothing.
unfoldable pub step : Step → Transactions → Transactions
step (Step.checks n id role actor) s =
    if any (locks id) s.pending
    then s
    else found n role actor (find? (user_is id) s.accounts.users) s
step (Step.commits n) s = committed n (find? (is_call n) s.pending) s

unfoldable pub run : List Step → Transactions → Transactions
run [] s = s
run (t ∷ ts) s = run ts (step t s)

abbrev pub idle : Accounts → Transactions
idle db = record { accounts = db; pending = [] }

abbrev pub is_demotion : Role → Option User → Bool
is_demotion role none = false
is_demotion role (some u) = is_admin_role u.role && not (is_admin_role role)

-- The step starts the demotion of an admin while another one is pending.
abbrev pub overlaps : Step → Transactions → Bool
overlaps (Step.commits n) s = false
overlaps (Step.checks n id role actor) s =
    is_demotion role (find? (user_is id) s.accounts.users) && any demotes s.pending
