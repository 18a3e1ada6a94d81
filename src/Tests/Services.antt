-- ===== src/Tests/Services.antt =====
-- The theorems on the identity and notification services at concrete inputs.
use aca_social.Base.{
  ℕ, arith, ◌≤◌, count, find?, update, replace, delete, any, ◌≡◌, refl, true, false, none, some,
  List, [], ◌∷◌, ◌++◌,
}
use aca_social.Store.{Role, forbidden, err, ok}
use aca_social.Identity.Redis.{Entry}
use aca_social.Identity.Otp.{create_otp, verify_otp, verify_stored, count_failure, lock, use_code}
use aca_social.Identity.Otp.Lockout.{Attempt, attempts, answer_after, verify_otp-answer}
use aca_social.Identity.Otp.Once.{Event, run, verify_otp_once}
use aca_social.Identity.Users.{
  User, Privacy, Accounts, change_role, change_option, change_found, delete_account, decide_role,
  decided_role, save_role,
}
use aca_social.Identity.Users.RoleCalls
use aca_social.Identity.Users.RoleCalls.{idle}
use aca_social.Identity.Users.Admins.{admins, Changes, change_role-Changes}
use aca_social.Identity.Users.Overlapping.{IsApart, run-keeps_admin}
use aca_social.Notifications.{
  Field, DomainEvent, Notification, Tables, Display, Directory, notified, process_event,
  process_identified, process_valid, process_new, claim, resolve_actor, resolve_comment,
}
use aca_social.Notifications.Inbox.{deliver, Adds, process_event_once, process_event-Adds}
use aca_social.Moderation.{trim, trim_start, trim_end}
use aca_social.Tests.MemoryRedis.{Values, memory}

abbrev empty : Values
empty k = Entry.absent

-- Wrong codes, ten seconds apart.
abbrev wrong : List ℕ → List Attempt
wrong [] = []
wrong (c ∷ cs) = record { after = 10; code = c } ∷ wrong cs

-- Five wrong codes, and then the right one.
verify_otp-answer_example :
    (verify_otp memory 1 7 (
      memory.wait 20
        (attempts memory 1 (wrong (1 ∷ 2 ∷ 3 ∷ 4 ∷ 5 ∷ [])) (create_otp memory 1 7 600 empty)))).0
    ≡ answer_after 5
verify_otp-answer_example =
    verify_otp-answer memory 1 7 600 20 (wrong (1 ∷ 2 ∷ 3 ∷ 4 ∷ 5 ∷ [])) empty
      (refl, (refl, (refl, (refl, (refl, tt))))) (omega arith) (omega arith)

abbrev slowly : List Attempt
slowly = wrong (1 ∷ 2 ∷ 3 ∷ 4 ∷ []) ++ record { after = 300; code = 5 } ∷ []

-- The counter of a code that lives 600 seconds is forgotten after 300 seconds without an attempt: the
-- right code is accepted after five wrong ones.
sixth_accepted :
    (verify_otp memory 1 7 (attempts memory 1 slowly (create_otp memory 1 7 600 empty))).0 ≡ ok true
unfolding verify_otp verify_stored create_otp attempts count_failure lock use_code
sixth_accepted = refl

-- Once the lock is over, there is no code left to be tried.
lock_over :
    (verify_otp memory 1 7 (
      memory.wait 300
        (attempts memory 1 (wrong (1 ∷ 2 ∷ 3 ∷ 4 ∷ 5 ∷ [])) (create_otp memory 1 7 600 empty)))).0
    ≡ ok false
unfolding verify_otp verify_stored create_otp attempts count_failure lock
lock_over = refl

accepted : (verify_otp memory 1 7 (create_otp memory 1 7 300 empty)).0 ≡ ok true
unfolding verify_otp verify_stored create_otp
accepted = refl

-- A wrong and the right code are tried again, a code is created for another key, and it is used.
abbrev events : List Event
events =
    Event.tried 1 8
    ∷ Event.passed 20
    ∷ Event.created 2 7 300
    ∷ Event.tried 2 7
    ∷ Event.tried 1 7
    ∷ []

verify_otp_once_example :
    let later = run memory events (verify_otp memory 1 7 (create_otp memory 1 7 300 empty)).1 in
    verify_otp memory 1 7 later ≡ (ok false, later)
verify_otp_once_example =
    verify_otp_once memory 1 7 7 events (create_otp memory 1 7 300 empty) accepted
      (refl, (refl, (refl, (refl, (refl, tt)))))

abbrev commented : DomainEvent
commented = record {
  event_id = some 90;
  event_type = Field.text "comment.created";
  has_data = true;
  recipient_id = Field.text "u10";
  receiver_id = Field.missing;
  actor_id = Field.text "u11";
  sender_id = Field.missing;
  actor_name = Field.missing;
  is_anonymous = some true;
}

abbrev unknown : Directory
unknown id = Display.failed

abbrev tables : Tables
tables = record { inbox_events = []; notifications = [] }

abbrev notification : Notification
notification = record {
  recipient_id = "u10";
  actor_id = none;
  actor_name = Field.missing;
  notification_type = "comment.created";
}

first : (process_event unknown commented tables).0 ≡ notified notification
unfolding process_event process_identified process_valid process_new claim resolve_actor
    resolve_comment trim trim_start trim_end
first = refl

process_event_once_example :
    let db' = deliver ((unknown, commented) ∷ []) (process_event unknown commented tables).1 in
    (process_event unknown commented db').1 ≡ db'
process_event_once_example =
    process_event_once unknown unknown commented tables notification ((unknown, commented) ∷ [])
      first

process_event-Adds_example :
    let (o, db') = process_event unknown commented tables in Adds commented tables o db'
process_event-Adds_example = process_event-Adds unknown commented tables

abbrev account : ℕ → Role → User
account id role = record {
  id = id;
  username = none;
  full_name = "";
  date_of_birth = none;
  email = "";
  password_hash = "";
  avatar_url = none;
  privacy = Privacy.public;
  is_verified = true;
  role = role;
  last_login_at = none;
  password_changed_at = none;
  deleted = false;
}

abbrev accounts : Accounts
accounts = record {
  clock = 100;
  next_id = 4;
  users = account 1 Role.admin ∷ account 2 Role.admin ∷ account 3 Role.student ∷ [];
  refresh_tokens = record { token_hash = ""; expires_at = 200; user_id = 2; revoked = false } ∷ [];
  role_audits = [];
  blacklist = [];
}

two_admins : 1 ≤ admins accounts
unfolding count
two_admins = omega arith

-- Admin 1 demotes admin 2, while a third user becomes a moderator.
abbrev changes : List RoleCalls.Step
changes =
    RoleCalls.Step.checks 1 2 Role.teacher 1
    ∷ RoleCalls.Step.checks 2 3 Role.moderator 1
    ∷ RoleCalls.Step.commits 2
    ∷ RoleCalls.Step.commits 1
    ∷ []

changes-IsApart : IsApart changes (idle accounts)
unfolding RoleCalls.step RoleCalls.found RoleCalls.committed RoleCalls.after_decision decide_role
    save_role find? replace update delete any count
changes-IsApart = (refl, (refl, (refl, (refl, tt))))

run-keeps_admin_example : 1 ≤ admins (RoleCalls.run changes (idle accounts)).accounts
run-keeps_admin_example = run-keeps_admin changes accounts two_admins changes-IsApart

-- Two admins who demote each other leave none.
nobody_left :
    let steps =
      RoleCalls.Step.checks 1 2 Role.teacher 1
      ∷ RoleCalls.Step.checks 2 1 Role.teacher 2
      ∷ RoleCalls.Step.commits 1
      ∷ RoleCalls.Step.commits 2
      ∷ [] in
    admins (RoleCalls.run steps (idle accounts)).accounts ≡ 0
unfolding RoleCalls.run RoleCalls.step RoleCalls.found RoleCalls.committed RoleCalls.after_decision
    decide_role save_role find? replace update delete any count
nobody_left = refl

change_role-Changes_example :
    let (r, db') = change_role 2 Role.teacher 1 accounts in Changes 2 Role.teacher 1 accounts r db'
change_role-Changes_example = change_role-Changes 2 Role.teacher 1 accounts

abbrev one_admin : Accounts
one_admin = record accounts { users = account 1 Role.admin ∷ account 3 Role.student ∷ [] }

-- The only admin deletes the own account: no admin is left.
last_admin_leaves : (admins one_admin ≡ 1) × (admins (delete_account true 1 7 one_admin).1 ≡ 0)
unfolding count delete_account update
last_admin_leaves = (refl, refl)

demoted_last_admin : (change_role 1 Role.teacher 3 one_admin).0 ≡ err forbidden
unfolding change_role change_option change_found decide_role decided_role find? count
demoted_last_admin = refl
