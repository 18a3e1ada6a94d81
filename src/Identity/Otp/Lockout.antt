-- ===== src/Identity/Otp/Lockout.antt =====
-- How often a code can be tried.
use aca_social.Base.{
  ℕ, zero, suc, ◌+◌, ◌-◌, ◌≤◌, ◌<◌, ◌≡◌, refl, Bool, true, false, List, [], ◌∷◌, length, All, ◌==◌,
  ltb, leb, arith, ap, sym, subst, ◌∙◌, if◌then◌else◌, or_else, Bool-cases, inl, inr,
}
use aca_social.Store.{Result, ok, err, too_many_requests}
use aca_social.Identity.Redis.{Key, Entry, Redis, value, aged, incremented, renewed}
use aca_social.Identity.Otp.{
  max_attempts, lockout_seconds, create_otp, lock, count_failure, verify_stored, verify_otp,
}

-- A code that is tried some seconds after the call before it.
pub record Attempt : Type 0 where
  pub after : ℕ
  pub code : ℕ

-- How long the attempts take together.
abbrev pub waited : List Attempt → ℕ
waited [] = 0
waited (a ∷ tries) = a.after + waited tries

one_more :
    (n : ℕ) (a : Attempt) (tries : List Attempt) → n + 1 + length tries ≡ n + length (a ∷ tries)
one_more n a tries = omega arith

-- What the right code is answered after `n` wrong ones.
abbrev pub answer_after : ℕ → Result Bool
answer_after n = if ltb n max_attempts then ok true else err too_many_requests

refused_after :
    (n : ℕ) (a : Attempt) (tries : List Attempt)
    → ltb (n + 1) max_attempts ≡ false
    → answer_after (n + length (a ∷ tries)) ≡ err too_many_requests
refused_after n a tries h = ground arith

-- The counter after `n` wrong attempts.
abbrev counter : ℕ → ℕ → Entry
counter zero seconds = Entry.absent
counter (suc n) seconds = Entry.expiring (suc n) seconds

aged_expiring :
    (t v seconds : ℕ)
    → t < seconds
    → aged t (Entry.expiring v seconds) ≡ Entry.expiring v (seconds - t)
aged_expiring t v seconds h = ground arith

aged-counter :
    (t n seconds : ℕ) → t < seconds → aged t (counter n seconds) ≡ counter n (seconds - t)
aged-counter t zero seconds h = refl
aged-counter t (suc n) seconds h = aged_expiring t (suc n) seconds h

incremented-value : (n seconds : ℕ) → or_else (value (incremented (counter n seconds))) 0 ≡ n + 1
incremented-value zero seconds = refl
incremented-value (suc n) seconds = refl

next_counter : (ttl n : ℕ) → counter (n + 1) ttl ≡ Entry.expiring (n + 1) ttl
next_counter ttl n =
    let next : suc n ≡ n + 1 = omega arith in
    subst (λ k. counter k ttl ≡ Entry.expiring k ttl) next refl

renewed-counter :
    (ttl n seconds : ℕ) → renewed ttl (incremented (counter n seconds)) ≡ counter (n + 1) ttl
renewed-counter ttl zero seconds = refl
renewed-counter ttl (suc n) seconds = sym (next_counter ttl (suc n))

module _ {S : Type 0} (redis : Redis S) where
  -- One attempt after another.
  unfoldable pub attempts : ℕ → List Attempt → S → S
  attempts key [] s = s
  attempts key (a ∷ tries) s =
      attempts key tries (verify_otp redis key a.code (redis.wait a.after s)).1

  -- The key is not locked, `c` is its code for `left` seconds, and `n` attempts were wrong, which is
  -- known for `known` seconds.
  record IsCounting (key c n left known : ℕ) (s : S) : Type 0 where
    unlocked : redis.entry (Key.otp_lock key) s ≡ Entry.absent
    code_is : redis.entry (Key.otp key) s ≡ Entry.expiring c left
    wrong : redis.entry (Key.otp_fail key) s ≡ counter n known

  abbrev IsLocked : ℕ → ℕ → S → Type 0
  IsLocked key left s = redis.entry (Key.otp_lock key) s ≡ Entry.expiring 1 left

  wait-IsCounting :
      (key c n left known t : ℕ) (s : S)
      → t < left
      → t < known
      → IsCounting key c n left known s
      → IsCounting key c n (left - t) (known - t) (redis.wait t s)
  wait-IsCounting key c n left known t s code_stays counter_stays h = record {
    unlocked = redis.entry_wait _ t s ∙ ap (aged t) h.unlocked;
    code_is = redis.entry_wait _ t s ∙ ap (aged t) h.code_is ∙ aged_expiring t c left code_stays;
    wrong = redis.entry_wait _ t s ∙ ap (aged t) h.wrong ∙ aged-counter t n known counter_stays;
  }

  wait-IsLocked :
      (key left t : ℕ) (s : S)
      → t < left
      → IsLocked key left s
      → IsLocked key (left - t) (redis.wait t s)
  wait-IsLocked key left t s stays h =
      redis.entry_wait _ t s ∙ ap (aged t) h ∙ aged_expiring t 1 left stays

  create_otp-IsCounting :
      (key c ttl known : ℕ) (s : S)
      → 1 ≤ ttl
      → IsCounting key c 0 ttl known (create_otp redis key c ttl s)
  unfolding create_otp
  create_otp-IsCounting key c ttl known s lives =
      let stored = redis.set_ex (Key.otp key) c ttl s in
      let reset = redis.del (Key.otp_fail key) stored in
      record {
        unlocked = redis.entry_del (Key.otp_lock key) reset;
        code_is =
            redis.entry_del_other (Key.otp_lock key) (Key.otp key) reset refl
            ∙ redis.entry_del_other (Key.otp_fail key) (Key.otp key) stored refl
            ∙ redis.entry_set (Key.otp key) c ttl s lives;
        wrong =
            redis.entry_del_other (Key.otp_lock key) (Key.otp_fail key) reset refl
            ∙ redis.entry_del (Key.otp_fail key) stored;
      }

  verify_otp-wrong :
      (key c code n left known : ℕ) (s : S)
      → (c == code) ≡ false
      → IsCounting key c n left known s
      → verify_otp redis key code s ≡ count_failure redis key s
  unfolding verify_otp verify_stored
  verify_otp-wrong key c code n left known s differs h = rw (h.unlocked, h.code_is, differs) refl

  verify_otp-right :
      (key c n left known : ℕ) (s : S)
      → IsCounting key c n left known s
      → (verify_otp redis key c s).0 ≡ ok true
  unfolding verify_otp verify_stored
  verify_otp-right key c n left known s h =
      let same : (c == c) ≡ true = ground arith in rw (h.unlocked, h.code_is, same) refl

  -- INCR answers the number of wrong attempts, this one included.
  count_failure_number :
      (key c n left known : ℕ) (s : S)
      → IsCounting key c n left known s
      → or_else (value (redis.entry (Key.otp_fail key) (redis.incr (Key.otp_fail key) s))) 0 ≡ n + 1
  count_failure_number key c n left known s h =
      ap (λ e. or_else (value e) 0) (redis.entry_incr (Key.otp_fail key) s ∙ ap incremented h.wrong)
      ∙ incremented-value n known

  count_failure-IsCounting :
      (key c n left known : ℕ) (s : S)
      → ltb (n + 1) max_attempts ≡ true
      → IsCounting key c n left known s
      → IsCounting key c (n + 1) left lockout_seconds (count_failure redis key s).1
  unfolding count_failure
  count_failure-IsCounting key c n left known s few h =
      let number = count_failure_number key c n left known s h in
      let below : leb max_attempts (n + 1) ≡ false = ground arith in
      rw (number, below)
        (record {
          unlocked =
              redis.entry_expire_other _ (Key.otp_lock key) _ _ refl
              ∙ redis.entry_incr_other (Key.otp_fail key) (Key.otp_lock key) s refl
              ∙ h.unlocked;
          code_is =
              redis.entry_expire_other _ (Key.otp key) _ _ refl
              ∙ redis.entry_incr_other (Key.otp_fail key) (Key.otp key) s refl
              ∙ h.code_is;
          wrong =
              redis.entry_expire (Key.otp_fail key) lockout_seconds _ (omega arith)
              ∙ ap (renewed lockout_seconds)
                  (redis.entry_incr (Key.otp_fail key) s ∙ ap incremented h.wrong)
              ∙ renewed-counter lockout_seconds n known;
        })

  count_failure-IsLocked :
      (key c n left known : ℕ) (s : S)
      → ltb (n + 1) max_attempts ≡ false
      → IsCounting key c n left known s
      → IsLocked key lockout_seconds (count_failure redis key s).1
  unfolding count_failure lock
  count_failure-IsLocked key c n left known s many h =
      let number = count_failure_number key c n left known s h in
      let reached : leb max_attempts (n + 1) ≡ true = ground arith in
      rw (number, reached)
        (redis.entry_del_other (Key.otp_fail key) (Key.otp_lock key) _ refl
          ∙ redis.entry_del_other (Key.otp key) (Key.otp_lock key) _ refl
          ∙ redis.entry_set (Key.otp_lock key) 1 lockout_seconds _ (omega arith))

  verify_otp-IsLocked :
      (key code left : ℕ) (s : S)
      → IsLocked key left s
      → verify_otp redis key code s ≡ (err too_many_requests, s)
  unfolding verify_otp
  verify_otp-IsLocked key code left s h = rw h refl

  attempts-IsLocked :
      (key code left t : ℕ) (tries : List Attempt) (s : S)
      → waited tries + t < left
      → IsLocked key left s
      → (verify_otp redis key code (redis.wait t (attempts key tries s))).0 ≡ err too_many_requests
  unfolding attempts
  attempts-IsLocked key code left t [] s soon h =
      ap (λ x. x.0)
        (verify_otp-IsLocked key code (left - t) _ (wait-IsLocked key left t s (omega arith) h))
  attempts-IsLocked key code left t (a ∷ tries) s soon h =
      let still = wait-IsLocked key left a.after s (omega arith) h in
      rw (verify_otp-IsLocked key a.code (left - a.after) _ still)
        (attempts-IsLocked key code (left - a.after) t tries _ (omega arith) still)

  attempts-answer :
      (key c n left known t : ℕ) (tries : List Attempt) (s : S)
      → ltb n max_attempts ≡ true
      → All (λ a. (c == a.code) ≡ false) tries
      → waited tries + t < left
      → waited tries + t < known
      → known ≤ lockout_seconds
      → IsCounting key c n left known s
      → (verify_otp redis key c (redis.wait t (attempts key tries s))).0
        ≡ answer_after (n + length tries)
  unfolding attempts
  attempts-answer key c n left known t [] s few differ lives stays short h =
      let allowed : answer_after (n + 0) ≡ ok true = ground arith in
      let later = wait-IsCounting key c n left known t s (omega arith) (omega arith) h in
      verify_otp-right key c n (left - t) (known - t) _ later ∙ sym allowed
  attempts-answer key c n left known t (a ∷ tries) s few (differs, others) lives stays short h =
      let later = wait-IsCounting key c n left known a.after s (omega arith) (omega arith) h in
      let left' = left - a.after in
      let known' = known - a.after in
      rw (verify_otp-wrong key c a.code n left' known' _ differs later)
        (elim (Bool-cases (ltb (n + 1) max_attempts)) [
          | inl more ↦
              attempts-answer key c (n + 1) left' lockout_seconds t tries _ more others
                (omega arith) (omega arith) (omega arith)
                (count_failure-IsCounting key c n left' known' _ more later)
              ∙ ap answer_after (one_more n a tries)
          | inr last ↦
              attempts-IsLocked key c lockout_seconds t tries _ (omega arith)
                (count_failure-IsLocked key c n left' known' _ last later)
              ∙ sym (refused_after n a tries last)
        ])

  -- After a code is created, and tried with any wrong codes at any times, the right one is accepted
  -- if fewer than five were tried, and otherwise refused as too many requests, provided that it is
  -- tried less than 300 seconds after its creation, while it lives, and that the calls for the key do
  -- not overlap.
  pub verify_otp-answer :
      (key c ttl t : ℕ) (tries : List Attempt) (s : S)
      → All (λ a. (c == a.code) ≡ false) tries
      → waited tries + t < ttl
      → waited tries + t < lockout_seconds
      → (verify_otp redis key c
          (redis.wait t (attempts key tries (create_otp redis key c ttl s)))).0
        ≡ answer_after (length tries)
  verify_otp-answer key c ttl t tries s differ lives stays =
      attempts-answer key c 0 ttl lockout_seconds t tries _ refl differ lives stays (omega arith)
        (create_otp-IsCounting key c ttl lockout_seconds s (omega arith))
      ∙ ap answer_after (omega arith)
