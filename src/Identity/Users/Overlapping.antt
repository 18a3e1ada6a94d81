-- ===== src/Identity/Users/Overlapping.antt =====
-- Which overlapping transactions of changeRole leave an admin.
use aca_social.Base.{
  ℕ, ◌≤◌, ◌≡◌, refl, sym, subst, ◌∙◌, Bool, true, false, not, ◌&&◌, Option, none, some, List, [],
  ◌∷◌, All, ◌==◌, arith, find?, replace, count, any, find?-replace_other, count-replace, ==_iff,
  Bool-cases, inl, inr, count_none, count-delete_found, count-delete_le, All-find?, All-delete, leb,
  if◌then◌else◌,
}
use aca_social.Store.{Role}
use aca_social.Identity.Users.{
  User, Accounts, Decision, is_admin_role, same_role, user_is, admin_row, with_role, decide_role,
  save_role, decided_role, change_found, change_option, change_role,
}
use aca_social.Identity.Users.RoleCalls.{
  Pending, Transactions, Step, is_call, locks, demotes, after_decision, found, committed, step, run,
  idle, is_demotion, overlaps,
}
use aca_social.Identity.Users.Admins.{admins, found_by_id}

-- What a pending transaction relies on: its row is the one it read, and a demotion leaves an admin.
abbrev Held : Accounts → Pending → Type 0
Held db t =
    (find? (user_is t.row.id) db.users ≡ some t.row)
    × (t.row.deleted ≡ false)
    × (demotes t ≡ true → 2 ≤ admins db)

pub record IsSound (s : Transactions) : Type 0 where
  pub has_admin : 1 ≤ admins s.accounts
  pub held : All (Held s.accounts) s.pending
  pub one_demotion : count demotes s.pending ≤ 1
  pub one_lock : (user : ℕ) → count (locks user) s.pending ≤ 1

-- No step starts the demotion of an admin while another one is pending.
abbrev pub IsApart : List Step → Transactions → Type 0
IsApart [] s = Unit
IsApart (t ∷ ts) s = (overlaps t s ≡ false) × IsApart ts (step t s)

-- A change that demotes an admin counted at least two.
changed_leaves :
    (role : Role) (actor : ℕ) (u : User) (users : List User)
    → decide_role role actor u users ≡ Decision.changed
    → (is_admin_role u.role && not (is_admin_role role)) ≡ true
    → 2 ≤ count admin_row users
unfolding decide_role
changed_leaves role actor u users h demoted =
    go ((u.id == actor) && not (is_admin_role role)) (same_role u.role role)
      (is_admin_role u.role && (not (is_admin_role role) && leb (count admin_row users) 1)) refl h
  where
    go :
        (a b c : Bool)
        → (is_admin_role u.role && (not (is_admin_role role) && leb (count admin_row users) 1)) ≡ c
        → (if a
            then Decision.refused
            else if b
            then Decision.unchanged
            else if c
            then Decision.refused
            else Decision.changed)
          ≡ Decision.changed
        → 2 ≤ count admin_row users
    go true b c e h = absurd (cc)
    go false true c e h = absurd (cc)
    go false false true e h = absurd (cc)
    go false false false e h = ground (arith, e, demoted)

-- A transaction that starts to wait for its commit.
started :
    (t : Pending) (s : Transactions)
    → Held s.accounts t
    → any (locks t.row.id) s.pending ≡ false
    → (demotes t ≡ true → any demotes s.pending ≡ false)
    → IsSound s
    → IsSound (record s { pending = t ∷ s.pending })
unfolding count
started t s facts free alone sound = record {
  has_admin = sound.has_admin;
  held = (facts, sound.held);
  one_demotion = elim (Bool-cases (demotes t)) [
    | inr other ↦ let before = sound.one_demotion in rw other (omega (arith, before))
    | inl own ↦
        let nobody = count_none demotes s.pending (alone own) in rw own (omega (arith, nobody))
  ];
  one_lock = λ user. elim (Bool-cases (locks user t)) [
    | inr other ↦ let before = sound.one_lock user in rw other (omega (arith, before))
    | inl own ↦
        let is : t.row.id ≡ user = (==_iff t.row.id user).0 own in
        let nobody =
          subst (λ k. count (locks k) s.pending ≡ 0) is
            (count_none (locks t.row.id) s.pending free) in
        rw own (omega (arith, nobody))
  ];
}

after_decision-IsSound :
    (t : Pending) (d : Decision) (s : Transactions)
    → (d ≡ Decision.changed → Held s.accounts t)
    → any (locks t.row.id) s.pending ≡ false
    → (demotes t ≡ true → any demotes s.pending ≡ false)
    → IsSound s
    → IsSound (after_decision t d s)
unfolding after_decision
after_decision-IsSound t Decision.refused s facts free alone sound = sound
after_decision-IsSound t Decision.unchanged s facts free alone sound = sound
after_decision-IsSound t Decision.changed s facts free alone sound =
    started t s (facts refl) free alone sound

found-IsSound :
    (n id : ℕ) (role : Role) (actor : ℕ) (o : Option User) (s : Transactions)
    → find? (user_is id) s.accounts.users ≡ o
    → any (locks id) s.pending ≡ false
    → (is_demotion role o && any demotes s.pending) ≡ false
    → IsSound s
    → IsSound (found n role actor o s)
unfolding found
found-IsSound n id role actor none s is free apart sound = sound
found-IsSound n id role actor (some u) s is free apart sound =
    let (own, present, same) = found_by_id id u s.accounts.users is in
    after_decision-IsSound _ (decide_role role actor u s.accounts.users) s
      (λ changes.
        (own, present, λ demoted. changed_leaves role actor u s.accounts.users changes demoted))
      (subst (λ k. any (locks k) s.pending ≡ false) (sym same) free)
      (λ demoted. ground (arith, demoted, apart)) sound

-- Another row than the one that is written is found as before.
kept_row :
    (t v : Pending) (db : Accounts)
    → locks t.row.id v ≡ false
    → find? (user_is t.row.id) db.users ≡ some t.row
    → find? (user_is v.row.id) (save_role t.role t.actor t.row db).users
      ≡ find? (user_is v.row.id) db.users
unfolding save_role
kept_row t v db other row =
    let apart : (t.row.id == v.row.id) ≡ false = ground (arith, other) in
    let before : user_is v.row.id t.row ≡ false = ground arith in
    let after : user_is v.row.id (with_role t.role db.clock t.row) ≡ false = ground arith in
    find?-replace_other (user_is t.row.id) (user_is v.row.id) _ db.users t.row row before after

-- How many admins there are after the write.
admins-save_role :
    (t : Pending) (db : Accounts)
    → Held db t
    → 1 ≤ admins db
    → (1 ≤ admins (save_role t.role t.actor t.row db))
      × (demotes t ≡ false → admins db ≤ admins (save_role t.role t.actor t.row db))
unfolding save_role
admins-save_role t db (row, present, leaves) has =
    let counted =
      count-replace (user_is t.row.id) admin_row (with_role t.role db.clock t.row) db.users t.row
        row in
    let kept : demotes t ≡ false
        → count admin_row db.users
          ≤ count admin_row
              (replace (user_is t.row.id) (with_role t.role db.clock t.row) db.users) =
      λ promotes. ground (arith, counted, promotes, present) in
    (
      elim (Bool-cases (demotes t)) [
        | inl demoted ↦ let two = leaves demoted in ground (arith, counted, two)
        | inr promotes ↦ let more = kept promotes in omega (arith, more, has)
      ],
      kept,
    )

committed-IsSound :
    (n : ℕ) (o : Option Pending) (s : Transactions)
    → find? (is_call n) s.pending ≡ o
    → IsSound s
    → IsSound (committed n o s)
unfolding committed
committed-IsSound n none s is sound = sound
committed-IsSound n (some t) s is sound =
    let fact = All-find? (Held s.accounts) (is_call n) s.pending t is sound.held in
    let db' = save_role t.role t.actor t.row s.accounts in
    let (has, more) = admins-save_role t s.accounts fact sound.has_admin in
    let locked = sound.one_lock t.row.id in
    let fewer_locks =
      count-delete_found (is_call n) (locks t.row.id) s.pending t is (ground arith) in
    let most = sound.one_demotion in
    let no_more = count-delete_le (is_call n) demotes s.pending in
    record {
      has_admin = has;
      held =
          All-delete (is_call n) (locks t.row.id) demotes (demotes t) s.pending
            (λ v other demotes_none (row, present, leaves). (
              kept_row t v s.accounts other fact.0 ∙ row,
              present,
              λ demoted. elim (Bool-cases (demotes t)) [
                | inl own ↦ let never = demotes_none own in absurd (cc)
                | inr promotes ↦
                    let two = leaves demoted in
                    let grown = more promotes in omega (arith, two, grown)
              ],
            ))
            (omega (arith, locked, fewer_locks))
            (λ own.
              let fewer = count-delete_found (is_call n) demotes s.pending t is own in
              omega (arith, fewer, most))
            sound.held;
      one_demotion = omega (arith, most, no_more);
      one_lock = λ user.
          let before = sound.one_lock user in
          let less = count-delete_le (is_call n) (locks user) s.pending in
          omega (arith, before, less);
    }

step-IsSound : (t : Step) (s : Transactions) → overlaps t s ≡ false → IsSound s → IsSound (step t s)
unfolding step
step-IsSound (Step.checks n id role actor) s apart sound =
    elim (Bool-cases (any (locks id) s.pending)) [
      | inl busy ↦ rw busy sound
      | inr free ↦ rw free (found-IsSound n id role actor _ s refl free apart sound)
    ]
step-IsSound (Step.commits n) s apart sound = committed-IsSound n _ s refl sound

run-IsSound : (ts : List Step) (s : Transactions) → IsApart ts s → IsSound s → IsSound (run ts s)
unfolding run
run-IsSound [] s apart sound = sound
run-IsSound (t ∷ ts) s (first, rest) sound =
    run-IsSound ts (step t s) rest (step-IsSound t s first sound)

-- Where there is an admin, there is one after any steps of transactions of changeRole that overlap
-- in any way, provided that none starts to demote an admin while another one that demotes an admin
-- has counted the admins and not yet committed: the row locks alone do not exclude that.
pub run-keeps_admin :
    (ts : List Step) (db : Accounts)
    → 1 ≤ admins db
    → IsApart ts (idle db)
    → 1 ≤ admins (run ts (idle db)).accounts
unfolding count
run-keeps_admin ts db has apart =
    let sound : IsSound (idle db) = record {
      has_admin = has;
      held = tt;
      one_demotion = omega arith;
      one_lock = λ user. omega arith;
    } in
    let after = run-IsSound ts (idle db) apart sound in after.has_admin

alone :
    (n : ℕ) (role : Role) (actor : ℕ) (o : Option User) (db : Accounts)
    → (step (Step.commits n) (found n role actor o (idle db))).accounts
      ≡ (change_option role actor o db).1
unfolding step found committed find? change_option change_found after_decision decided_role
alone n role actor none db = refl
alone n role actor (some u) db = decide (decide_role role actor u db.users)
  where
    decide :
        (d : Decision)
        → let t : Pending = record { call = n; row = u; role = role; actor = actor } in
          let s = after_decision t d (idle db) in
          (committed n (find? (is_call n) s.pending) s).accounts
          ≡ (decided_role role actor u d db).1
    decide Decision.refused = refl
    decide Decision.unchanged = refl
    decide Decision.changed = let own : (n == n) ≡ true = ground arith in rw own refl

-- A transaction that no other one interrupts is `change_role`.
run_alone :
    (n id : ℕ) (role : Role) (actor : ℕ) (db : Accounts)
    → (run (Step.checks n id role actor ∷ Step.commits n ∷ []) (idle db)).accounts
      ≡ (change_role id role actor db).1
unfolding run step any change_role
run_alone n id role actor db = alone n role actor (find? (user_is id) db.users) db
