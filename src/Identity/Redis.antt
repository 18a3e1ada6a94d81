-- ===== src/Identity/Redis.antt =====
-- What services/identity-service/src/otp/otp.service.ts uses of Redis: the commands, as functions on
-- the state of the server, and what Redis documents of them, the times to live of keys included.
use aca_social.Base.{
  ℕ, ◌+◌, ◌-◌, ◌≡◌, ◌≤◌, Bool, false, Option, none, some, ◌==◌, ltb, if◌then◌else◌,
}

-- The keys: `otp:<key>`, `otp_fail:<key>` and `otp_lock:<key>`
pub data Key : Type 0 where
  otp otp_fail otp_lock : ℕ → Key

abbrev pub same_key : Key → Key → Bool
same_key (Key.otp a) (Key.otp b) = a == b
same_key (Key.otp_fail a) (Key.otp_fail b) = a == b
same_key (Key.otp_lock a) (Key.otp_lock b) = a == b
same_key _ _ = false

-- What a key holds: nothing, a value that stays, or a value and the seconds that it has left.
pub data Entry : Type 0 where
  absent : Entry
  lasting : ℕ → Entry
  expiring : ℕ → ℕ → Entry

abbrev pub value : Entry → Option ℕ
value Entry.absent = none
value (Entry.lasting v) = some v
value (Entry.expiring v seconds) = some v

-- An entry after some seconds.
abbrev pub aged : ℕ → Entry → Entry
aged t Entry.absent = Entry.absent
aged t (Entry.lasting v) = Entry.lasting v
aged t (Entry.expiring v seconds) =
    if ltb t seconds then Entry.expiring v (seconds - t) else Entry.absent

-- INCR starts at 0 and keeps the time to live.
abbrev pub incremented : Entry → Entry
incremented Entry.absent = Entry.lasting 1
incremented (Entry.lasting v) = Entry.lasting (v + 1)
incremented (Entry.expiring v seconds) = Entry.expiring (v + 1) seconds

-- EXPIRE gives a key that is there a new time to live.
abbrev pub renewed : ℕ → Entry → Entry
renewed ttl Entry.absent = Entry.absent
renewed ttl (Entry.lasting v) = Entry.expiring v ttl
renewed ttl (Entry.expiring v seconds) = Entry.expiring v ttl

-- `entry` is what GET and TTL tell of a key, and `wait` the passing of seconds. GET, EXISTS and the
-- number that INCR answers are read off the entry.
pub record Redis (S : Type 0) : Type 0 where
  pub entry : Key → S → Entry
  pub wait : ℕ → S → S
  pub set_ex : Key → ℕ → ℕ → S → S
  pub del : Key → S → S
  pub incr : Key → S → S
  pub expire : Key → ℕ → S → S
  pub entry_wait : (k : Key) (t : ℕ) (s : S) → entry k (wait t s) ≡ aged t (entry k s)
  pub entry_set :
      (k : Key) (v ttl : ℕ) (s : S) → 1 ≤ ttl → entry k (set_ex k v ttl s) ≡ Entry.expiring v ttl
  pub entry_set_other :
      (k k' : Key) (v ttl : ℕ) (s : S)
      → same_key k k' ≡ false
      → entry k' (set_ex k v ttl s) ≡ entry k' s
  pub entry_del : (k : Key) (s : S) → entry k (del k s) ≡ Entry.absent
  pub entry_del_other :
      (k k' : Key) (s : S) → same_key k k' ≡ false → entry k' (del k s) ≡ entry k' s
  pub entry_incr : (k : Key) (s : S) → entry k (incr k s) ≡ incremented (entry k s)
  pub entry_incr_other :
      (k k' : Key) (s : S) → same_key k k' ≡ false → entry k' (incr k s) ≡ entry k' s
  pub entry_expire :
      (k : Key) (ttl : ℕ) (s : S) → 1 ≤ ttl → entry k (expire k ttl s) ≡ renewed ttl (entry k s)
  pub entry_expire_other :
      (k k' : Key) (ttl : ℕ) (s : S)
      → same_key k k' ≡ false
      → entry k' (expire k ttl s) ≡ entry k' s

-- GET
abbrev pub get : {S : Type 0} → Redis S → Key → S → Option ℕ
get redis k s = value (redis.entry k s)
