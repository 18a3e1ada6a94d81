-- ===== src/Tests/MemoryRedis.antt =====
-- Redis as a function from keys to entries, which shows that its laws can hold.
use aca_social.Base.{◌≡◌, refl, true, false, arith, if◌then◌else◌, if-true, if-false}
use aca_social.Identity.Redis.{Key, Entry, Redis, same_key, aged, incremented, renewed}

abbrev pub Values : Type 0
Values = Key → Entry

abbrev pub put : Key → Entry → Values → Values
put k v s k' = if same_key k k' then v else s k'

same_key_refl : (k : Key) → same_key k k ≡ true
same_key_refl (Key.otp a) = ground arith
same_key_refl (Key.otp_fail a) = ground arith
same_key_refl (Key.otp_lock a) = ground arith

pub put_same : (k : Key) (v : Entry) (s : Values) → put k v s k ≡ v
put_same k v s = if-true (same_key k k) v (s k) (same_key_refl k)

pub put_other : (k k' : Key) (v : Entry) (s : Values) → same_key k k' ≡ false → put k v s k' ≡ s k'
put_other k k' v s h = if-false (same_key k k') v (s k') h

abbrev pub memory : Redis Values
memory = record {
  entry = λ k s. s k;
  wait = λ t s k. aged t (s k);
  set_ex = λ k v ttl s. put k (Entry.expiring v ttl) s;
  del = λ k s. put k Entry.absent s;
  incr = λ k s. put k (incremented (s k)) s;
  expire = λ k ttl s. put k (renewed ttl (s k)) s;
  entry_wait = λ k t s. refl;
  entry_set = λ k v ttl s h. put_same k _ s;
  entry_set_other = λ k k' v ttl s h. put_other k k' _ s h;
  entry_del = λ k s. put_same k Entry.absent s;
  entry_del_other = λ k k' s h. put_other k k' _ s h;
  entry_incr = λ k s. put_same k _ s;
  entry_incr_other = λ k k' s h. put_other k k' _ s h;
  entry_expire = λ k ttl s h. put_same k _ s;
  entry_expire_other = λ k k' ttl s h. put_other k k' _ s h;
}
