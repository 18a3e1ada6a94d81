-- ===== src/Identity/Otp.antt =====
-- services/identity-service/src/otp/otp.service.ts: one-time codes, which wrong attempts lock. Each
-- method runs at one moment; the seconds between two calls are `wait` of Redis.
pub mod Lockout
pub mod Once
use aca_social.Base.{
  ℕ, Bool, true, false, Option, none, some, ◌==◌, leb, if◌then◌else◌, is_some, or_else,
}
use aca_social.Store.{Result, ok, err, too_many_requests}
use aca_social.Identity.Redis.{Key, Redis, get}

abbrev pub max_attempts : ℕ
max_attempts = 5

abbrev pub lockout_seconds : ℕ
lockout_seconds = 300

module _ {S : Type 0} (redis : Redis S) where
  -- `createOtp`, with the generated code as an argument
  unfoldable pub create_otp : ℕ → ℕ → ℕ → S → S
  create_otp key code ttl s =
      redis.del (Key.otp_lock key)
        (redis.del (Key.otp_fail key) (redis.set_ex (Key.otp key) code ttl s))

  -- The pipeline that locks the key.
  unfoldable pub lock : ℕ → S → S
  lock key s =
      redis.del (Key.otp_fail key)
        (redis.del (Key.otp key) (redis.set_ex (Key.otp_lock key) 1 lockout_seconds s))

  -- A wrong code is counted.
  unfoldable pub count_failure : ℕ → S → Result Bool × S
  unfolding lock
  count_failure key s =
      let counted = redis.incr (Key.otp_fail key) s in
      let fails = or_else (get redis (Key.otp_fail key) counted) 0 in
      let s' = redis.expire (Key.otp_fail key) lockout_seconds counted in
      if leb max_attempts fails then (err too_many_requests, lock key s') else (ok false, s')

  -- The code is right, and cannot be used again.
  unfoldable pub use_code : ℕ → S → S
  use_code key s = redis.del (Key.otp_fail key) (redis.del (Key.otp key) s)

  -- `verifyOtp` with the stored code
  unfoldable pub verify_stored : ℕ → ℕ → Option ℕ → S → Result Bool × S
  verify_stored key code none s = (ok false, s)
  verify_stored key code (some stored) s =
      if stored == code then (ok true, use_code key s) else count_failure key s

  unfoldable pub verify_otp : ℕ → ℕ → S → Result Bool × S
  verify_otp key code s =
      if is_some (get redis (Key.otp_lock key) s)
      then (err too_many_requests, s)
      else verify_stored key code (get redis (Key.otp key) s) s
