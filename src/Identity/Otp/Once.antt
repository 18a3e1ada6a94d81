-- ===== src/Identity/Otp/Once.antt =====
-- services/identity-service/src/otp/otp.service.ts: what follows the use of a code.
use aca_social.Base.{
  ℕ, ◌≡◌, ◌≢◌, refl, ◌∙◌, ap, sym, subst, Option-cases, Bool, true, false, Option, none, some, List,
  [], ◌∷◌, All, ◌==◌, leb, if◌then◌else◌, or_else, Bool-cases, inl, inr, ==_iff,
}
use aca_social.Store.{Result, ok, err, too_many_requests}
use aca_social.Identity.Redis.{Key, Entry, Redis, value, get, same_key, aged}
use aca_social.Identity.Otp.{
  max_attempts, lockout_seconds, create_otp, lock, count_failure, use_code, verify_stored,
  verify_otp,
}

-- What happens to the codes: seconds pass, or a method is called.
pub data Event : Type 0 where
  passed : ℕ → Event
  created : ℕ → ℕ → ℕ → Event
  tried : ℕ → ℕ → Event

-- No code is created for the key.
abbrev pub creates : ℕ → Event → Bool
creates key (Event.created k code ttl) = k == key
creates key _ = false

module _ {S : Type 0} (redis : Redis S) where
  unfoldable pub step : Event → S → S
  step (Event.passed t) s = redis.wait t s
  step (Event.created key code ttl) s = create_otp redis key code ttl s
  step (Event.tried key code) s = (verify_otp redis key code s).1

  unfoldable pub run : List Event → S → S
  run [] s = s
  run (e ∷ es) s = run es (step e s)

  -- There is neither a code nor a lock.
  record IsSpent (key : ℕ) (s : S) : Type 0 where
    no_code : redis.entry (Key.otp key) s ≡ Entry.absent
    no_lock : redis.entry (Key.otp_lock key) s ≡ Entry.absent

  count_failure-refuses : (key : ℕ) (s : S) → (count_failure redis key s).0 ≢ ok true
  unfolding count_failure
  count_failure-refuses key s h =
      counted
        (leb max_attempts
          (or_else (get redis (Key.otp_fail key) (redis.incr (Key.otp_fail key) s)) 0))
        _ _ h
    where
      counted :
          (b : Bool) (x y : S)
          → let r : Result Bool × S = if b then (err too_many_requests, x) else (ok false, y) in
            r.0 ≢ ok true
      counted true x y e = absurd (cc)
      counted false x y e = absurd (cc)

  verify_stored-accepted :
      (key c : ℕ) (o : Option ℕ) (s : S)
      → (verify_stored redis key c o s).0 ≡ ok true
      → (verify_stored redis key c o s).1 ≡ use_code redis key s
  unfolding verify_stored
  verify_stored-accepted key c none s h = absurd (cc)
  verify_stored-accepted key c (some stored) s h = accepted (stored == c) h
    where
      accepted :
          (b : Bool)
          → (if b then (ok true, use_code redis key s) else count_failure redis key s).0 ≡ ok true
          → (if b then (ok true, use_code redis key s) else count_failure redis key s).1
            ≡ use_code redis key s
      accepted true e = refl
      accepted false e = absurd (count_failure-refuses key s e)

  value-none : (e : Entry) → value e ≡ none → e ≡ Entry.absent
  value-none Entry.absent h = refl
  value-none (Entry.lasting v) h = absurd (cc)
  value-none (Entry.expiring v seconds) h = absurd (cc)

  use_code-IsSpent :
      (key : ℕ) (s : S)
      → redis.entry (Key.otp_lock key) s ≡ Entry.absent
      → IsSpent key (use_code redis key s)
  unfolding use_code
  use_code-IsSpent key s unlocked = record {
    no_code =
        redis.entry_del_other (Key.otp_fail key) (Key.otp key) _ refl
        ∙ redis.entry_del (Key.otp key) s;
    no_lock =
        redis.entry_del_other (Key.otp_fail key) (Key.otp_lock key) _ refl
        ∙ redis.entry_del_other (Key.otp key) (Key.otp_lock key) s refl
        ∙ unlocked;
  }

  -- An accepted code was not locked, and is gone.
  verify_otp-IsSpent :
      (key c : ℕ) (s : S)
      → (verify_otp redis key c s).0 ≡ ok true
      → IsSpent key (verify_otp redis key c s).1
  unfolding verify_otp
  verify_otp-IsSpent key c s h = elim (Option-cases (get redis (Key.otp_lock key) s)) [
    | inl unlocked ↦
        let gone = verify_stored-accepted key c _ s (rw unlocked at h) in
        rw (unlocked, gone) (use_code-IsSpent key s (value-none _ unlocked))
    | inr (_, locked) ↦ absurd (cc)
  ]

  spent_refused :
      (key code : ℕ) (s : S) → IsSpent key s → verify_otp redis key code s ≡ (ok false, s)
  unfolding verify_otp verify_stored
  spent_refused key code s h = rw (h.no_lock, h.no_code) refl

  -- A method that is called for one key leaves every key that is not its own.
  Leaves : ℕ → (S → S) → Type 0
  Leaves key f =
      (k : Key) (s : S)
      → same_key (Key.otp key) k ≡ false
      → same_key (Key.otp_fail key) k ≡ false
      → same_key (Key.otp_lock key) k ≡ false
      → redis.entry k (f s) ≡ redis.entry k s

  lock-Leaves : (key : ℕ) → Leaves key (lock redis key)
  unfolding lock Leaves
  lock-Leaves key k s code fail locked =
      redis.entry_del_other _ k _ fail
      ∙ redis.entry_del_other _ k _ code
      ∙ redis.entry_set_other _ k _ _ s locked

  create_otp-Leaves : (key c ttl : ℕ) → Leaves key (create_otp redis key c ttl)
  unfolding create_otp Leaves
  create_otp-Leaves key c ttl k s code fail locked =
      redis.entry_del_other _ k _ locked
      ∙ redis.entry_del_other _ k _ fail
      ∙ redis.entry_set_other _ k _ _ s code

  use_code-Leaves : (key : ℕ) → Leaves key (use_code redis key)
  unfolding use_code Leaves
  use_code-Leaves key k s code fail locked =
      redis.entry_del_other _ k _ fail ∙ redis.entry_del_other _ k s code

  count_failure-Leaves : (key : ℕ) → Leaves key (λ s. (count_failure redis key s).1)
  unfolding count_failure Leaves
  count_failure-Leaves key k s code fail locked =
      let counted = redis.incr (Key.otp_fail key) s in
      let s' = redis.expire (Key.otp_fail key) lockout_seconds counted in
      let before =
        redis.entry_expire_other _ k lockout_seconds counted fail
        ∙ redis.entry_incr_other _ k s fail in
      chosen (leb max_attempts (or_else (get redis (Key.otp_fail key) counted) 0)) s'
        (lock redis key s') before (lock-Leaves key k s' code fail locked ∙ before)
    where
      chosen :
          (b : Bool) (x y : S)
          → redis.entry k x ≡ redis.entry k s
          → redis.entry k y ≡ redis.entry k s
          → let r : Result Bool × S = if b then (err too_many_requests, y) else (ok false, x) in
            redis.entry k r.1 ≡ redis.entry k s
      chosen true x y left right = right
      chosen false x y left right = left

  verify_stored-Leaves :
      (key c : ℕ) (o : Option ℕ) → Leaves key (λ s. (verify_stored redis key c o s).1)
  unfolding verify_stored Leaves
  verify_stored-Leaves key c none k s code fail locked = refl
  verify_stored-Leaves key c (some stored) k s code fail locked = elim (Bool-cases (stored == c)) [
    | inl same ↦ rw same (use_code-Leaves key k s code fail locked)
    | inr other ↦ rw other (count_failure-Leaves key k s code fail locked)
  ]

  verify_otp-Leaves : (key c : ℕ) → Leaves key (λ s. (verify_otp redis key c s).1)
  unfolding verify_otp Leaves
  verify_otp-Leaves key c k s code fail locked =
      elim (Option-cases (get redis (Key.otp_lock key) s)) [
        | inl free ↦ rw free (verify_stored-Leaves key c _ k s code fail locked)
        | inr (_, taken) ↦ rw taken refl
      ]

  Leaves-IsSpent :
      (other key : ℕ) (f : S → S) (s : S)
      → Leaves other f
      → (other == key) ≡ false
      → IsSpent key s
      → IsSpent key (f s)
  unfolding Leaves
  Leaves-IsSpent other key f s leaves differ h = record {
    no_code = leaves (Key.otp key) s differ refl refl ∙ h.no_code;
    no_lock = leaves (Key.otp_lock key) s refl refl differ ∙ h.no_lock;
  }

  tried-IsSpent :
      (key other code : ℕ) (s : S) → IsSpent key s → IsSpent key (verify_otp redis other code s).1
  tried-IsSpent key other code s h = elim (Bool-cases (other == key)) [
    | inl same ↦
        let equal : key ≡ other = sym ((==_iff other key).0 same) in
        let unchanged = ap (λ x. x.1) (spent_refused key code s h) in
        subst (λ k. IsSpent key (verify_otp redis k code s).1) equal
          (subst (IsSpent key) (sym unchanged) h)
    | inr differ ↦
        Leaves-IsSpent other key (λ s. (verify_otp redis other code s).1) s
          (verify_otp-Leaves other code) differ h
  ]

  step-IsSpent :
      (key : ℕ) (e : Event) (s : S) → creates key e ≡ false → IsSpent key s → IsSpent key (step e s)
  unfolding step
  step-IsSpent key (Event.passed t) s quiet h = record {
    no_code = redis.entry_wait _ t s ∙ ap (aged t) h.no_code;
    no_lock = redis.entry_wait _ t s ∙ ap (aged t) h.no_lock;
  }
  step-IsSpent key (Event.created k code ttl) s quiet h =
      Leaves-IsSpent k key (create_otp redis k code ttl) s (create_otp-Leaves k code ttl) quiet h
  step-IsSpent key (Event.tried k code) s quiet h = tried-IsSpent key k code s h

  run-IsSpent :
      (key : ℕ) (es : List Event) (s : S)
      → All (λ e. creates key e ≡ false) es
      → IsSpent key s
      → IsSpent key (run es s)
  unfolding run
  run-IsSpent key [] s quiet h = h
  run-IsSpent key (e ∷ es) s (first, rest) h =
      run-IsSpent key es (step e s) rest (step-IsSpent key e s first h)

  -- Once a code is accepted, no attempt for its key is accepted until a new code is created for it:
  -- after any passing of time, any attempts for any keys, and codes created for other keys, every
  -- code is answered with false, and the attempt changes nothing. The calls do not overlap.
  pub verify_otp_once :
      (key c code : ℕ) (es : List Event) (s : S)
      → (verify_otp redis key c s).0 ≡ ok true
      → All (λ e. creates key e ≡ false) es
      → let later = run es (verify_otp redis key c s).1 in
        verify_otp redis key code later ≡ (ok false, later)
  verify_otp_once key c code es s accepted quiet =
      spent_refused key code _ (run-IsSpent key es _ quiet (verify_otp-IsSpent key c s accepted))
