-- ===== src/Storage/Store/Keeps.antt =====
-- The operations on one key, and loading, keep the invariant.
use byo_redis.Prelude.{
  ℕ, suc, ◌+◌, ◌≤◌, ◌≡◌, refl, ap, Option, none, some, List, [], ◌∷◌, arith, ℤ, is_nonpos, if_cases,
  length,
}
use byo_redis.Text.{Bytes}
use byo_redis.Dict
use byo_redis.Dict.{Dict, bytes_eq, Distinct}
use byo_redis.Storage.Types.{RedisValue, bytes, deque, dict, KeyEntry, copy, copy_value}
use byo_redis.Storage.Expiry.{Clock, is_expired}
use byo_redis.Storage.Store.{
  Store, touch, forget, copy_all, enumerate_keys, load_entries, delete_found, next_clock, delete,
  expire_found, expire, pexpire_found, pexpire_at, ttl_found, ttl,
}
use byo_redis.Storage.Valid.{
  IsTyped, IsValid, Found, touch-Found, forget-IsValid, store_entry-IsValid,
}

delete_found-IsValid :
    (now : ℕ) (key : Bytes) (found : Option KeyEntry) {s : Store}
    → IsValid s
    → IsValid (delete_found now key found s).1
unfolding delete_found
delete_found-IsValid now key none h = h
delete_found-IsValid now key (some e) {s} h =
    if_cases (λ (p : ℕ × Store). IsValid p.1) (is_expired e.expire_at_ms now)
      {x = (0, forget key s)} (λ _. forget-IsValid key h) (λ _. forget-IsValid key h)

-- DEL of any keys keeps a store valid.
pub delete-IsValid :
    (clock : Clock) (keys : List Bytes) {s : Store} → IsValid s → IsValid (delete clock keys s).1
unfolding delete
delete-IsValid clock [] h = h
delete-IsValid clock (key ∷ keys) {s} h =
    delete-IsValid (next_clock clock (Dict.get s.entries key)) keys
      (delete_found-IsValid (clock 0) key (Dict.get s.entries key) h)

module _ (clock : Clock) (key : Bytes) where
  expire_found-IsValid :
      (seconds : ℤ) (p : Option KeyEntry × Store)
      → Found key p
      → IsValid (expire_found clock key seconds p.0 p.1).1
  unfolding expire_found
  expire_found-IsValid seconds (none, s) h = h
  expire_found-IsValid seconds (some e, s) h =
      if_cases (λ (p : ℕ × Store). IsValid p.1) (is_nonpos seconds) {x = (1, forget key s)}
        (λ _. forget-IsValid key h.0) (λ _. store_entry-IsValid key _ h.2 h.1 h.0)

  -- EXPIRE, with any number of seconds, keeps a store valid.
  pub expire-IsValid :
      (seconds : ℤ) {s : Store} → IsValid s → IsValid (expire clock key seconds s).1
  unfolding expire
  expire-IsValid seconds {s} h =
      expire_found-IsValid seconds (touch clock key s) (touch-Found clock key h)

  pexpire_found-IsValid :
      (at : Option ℕ) (p : Option KeyEntry × Store)
      → Found key p
      → IsValid (pexpire_found key at p.0 p.1)
  unfolding pexpire_found
  pexpire_found-IsValid at (none, s) h = h
  pexpire_found-IsValid at (some e, s) h = store_entry-IsValid key _ h.2 h.1 h.0

  pub pexpire_at-IsValid :
      (at : Option ℕ) {s : Store} → IsValid s → IsValid (pexpire_at clock key at s)
  unfolding pexpire_at
  pexpire_at-IsValid at {s} h =
      pexpire_found-IsValid at (touch clock key s) (touch-Found clock key h)

  ttl_found-IsValid :
      (found : Option KeyEntry) {s : Store} → IsValid s → IsValid (ttl_found clock key found s).1
  unfolding ttl_found
  ttl_found-IsValid none h = h
  ttl_found-IsValid (some e) {s} h =
      if_cases (λ (p : ℤ × Store). IsValid p.1) (is_expired e.expire_at_ms (clock 0))
        (λ _. forget-IsValid key h) (λ _. h)

  pub ttl-IsValid : {s : Store} → IsValid s → IsValid (ttl clock key s).1
  unfolding ttl
  ttl-IsValid {s} h = ttl_found-IsValid (Dict.get s.entries key) h

-- A dictionary that can be loaded: no key twice, and each value of its type's class.
pub record IsLoadable (d : Dict Bytes KeyEntry) : Type 0 where
  pub distinct : Distinct d
  pub typed : (k : Bytes) (e : KeyEntry) → Dict.get d k ≡ some e → IsTyped e

copy_value-eq : (v : RedisValue) → copy_value v ≡ v
unfolding copy_value
copy_value-eq (bytes b) = refl
copy_value-eq (deque items) = refl
copy_value-eq (dict mapping) = refl

-- A copy of an entry is equal to it.
pub copy-eq : (e : KeyEntry) → copy e ≡ e
unfolding copy
copy-eq e = ap (λ v. record e { value = v }) (copy_value-eq e.value)

copy_all-eq : (d : Dict Bytes KeyEntry) → copy_all d ≡ d
unfolding copy_all
copy_all-eq [] = refl
copy_all-eq ((k, e) ∷ d) = λ i. (k, copy-eq e i) ∷ copy_all-eq d i

has-enumerate_keys :
    (i : ℕ) (d : Dict Bytes KeyEntry) (k : Bytes) → Dict.has (enumerate_keys i d) k ≡ Dict.has d k
unfolding enumerate_keys Dict.has
has-enumerate_keys i [] k = refl
has-enumerate_keys i ((j, e) ∷ d) k = ground (arith, has-enumerate_keys (suc i) d k)

enumerate_keys-le :
    (i n : ℕ) (d : Dict Bytes KeyEntry) (k : Bytes)
    → Dict.get (enumerate_keys i d) k ≡ some n
    → n ≤ i + length (enumerate_keys i d)
unfolding enumerate_keys Dict.get
enumerate_keys-le i n [] k e = absurd (cc)
enumerate_keys-le i n ((j, x) ∷ d) k e = ground (arith, enumerate_keys-le (suc i) n d k)

pub load_entries-eq : (d : Dict Bytes KeyEntry) (s : Store) → (load_entries d s).entries ≡ d
unfolding load_entries
load_entries-eq d s = copy_all-eq d

pub load_entries-IsValid :
    (d : Dict Bytes KeyEntry) (s : Store) → IsLoadable d → IsValid (load_entries d s)
unfolding load_entries
load_entries-IsValid d s h = rw (copy_all-eq d) (record {
  distinct = h.distinct;
  tracked = has-enumerate_keys 0 d;
  recent = λ k n e. omega (arith, enumerate_keys-le 0 n d k e);
  typed = h.typed;
})
