-- ===== src/Storage/Values/Keeps.antt =====
-- The operations on strings, lists and hashes keep the invariant, whether they return or raise, and
-- no `assert isinstance` fails.
use byo_redis.Prelude.{
  ℕ, ◌≡◌, refl, true, Option, none, some, List, [], ◌∷◌, ℤ, is_nonpos, if_cases, Result, ok, raise,
}
use byo_redis.Text.{Bytes}
use byo_redis.Dict
use byo_redis.Dict.{Dict, bytes_eq, Distinct}
use byo_redis.Dict.Laws.{put-Distinct, has-put, beq_refl}
use byo_redis.Storage.Types.{
  RedisType, string, list, hash, RedisValue, bytes, deque, dict, KeyEntry, is_type,
}
use byo_redis.Storage.Expiry.{Clock}
use byo_redis.Storage.Store.{
  StoreError, wrong_type, Store, touch, touch_access, forget, store_entry,
}
use byo_redis.Storage.Valid.{
  IsTyped, IsValid, Found, touch-Found, forget-IsValid, write-IsValid, store_entry-IsValid,
}
use byo_redis.Storage.Values.{
  as_string, as_deque, as_dict, set_string, write_string, string_found, get_string, push_value,
  push_found, lpush, split_last, put_front, pop_value, pop_found, rpop, set_fields, hset_value,
  hset_found, hset, fields_found, hgetall,
}

write_string-IsValid :
    (key value : Bytes) (at : Option ℕ) {s : Store}
    → IsValid s
    → IsValid (write_string key value at s)
unfolding write_string
write_string-IsValid key value at h = write-IsValid key _ tt h

-- SET, with or without an expiry, keeps a store valid.
pub set_string-IsValid :
    (clock : Clock) (key value : Bytes) (ex : Option ℤ) {s : Store}
    → IsValid s
    → IsValid (set_string clock key value ex s)
unfolding set_string
set_string-IsValid clock key value none h = write_string-IsValid key value none h
set_string-IsValid clock key value (some seconds) {s} h =
    if_cases IsValid (is_nonpos seconds) {x = forget key s} (λ _. forget-IsValid key h)
      (λ _. write_string-IsValid key value _ h)

-- The result of an operation and the store that it leaves.
abbrev pub Keeps : {A : Type 0} → Result StoreError A × Store → Type 0
Keeps (ok a, s) = IsValid s
Keeps (raise e, s) = IsValid s × (e ≡ wrong_type)

-- An entry by its fields.
abbrev entry_of : RedisType → RedisValue → Option ℕ → KeyEntry
entry_of t v at = record { type = t; value = v; expire_at_ms = at }

module _ (key : Bytes) {s : Store} where
  string-Keeps :
      (t : RedisType) (v : RedisValue) (at : Option ℕ)
      → Found key (some (entry_of t v at), s)
      → Keeps (string_found (some (entry_of t v at)), s)
  unfolding string_found is_type as_string
  string-Keeps string (bytes b) at h = h.0
  string-Keeps string (deque items) at h = absurd h.2
  string-Keeps string (dict mapping) at h = absurd h.2
  string-Keeps list v at h = (h.0, refl)
  string-Keeps hash v at h = (h.0, refl)

  fields-Keeps :
      (t : RedisType) (v : RedisValue) (at : Option ℕ)
      → Found key (some (entry_of t v at), s)
      → Keeps (fields_found (some (entry_of t v at)), s)
  unfolding fields_found as_dict is_type
  fields-Keeps hash (dict mapping) at h = h.0
  fields-Keeps hash (deque items) at h = absurd h.2
  fields-Keeps hash (bytes b) at h = absurd h.2
  fields-Keeps list v at h = (h.0, refl)
  fields-Keeps string v at h = (h.0, refl)

  push-Keeps :
      (elements : List Bytes) (t : RedisType) (v : RedisValue) (at : Option ℕ)
      → Found key (some (entry_of t v at), s)
      → Keeps (push_found key elements (some (entry_of t v at)) s)
  unfolding push_found push_value as_deque is_type
  push-Keeps elements list (deque dq) at h = store_entry-IsValid key _ tt h.1 h.0
  push-Keeps elements list (bytes b) at h = absurd h.2
  push-Keeps elements list (dict mapping) at h = absurd h.2
  push-Keeps elements string v at h = (h.0, refl)
  push-Keeps elements hash v at h = (h.0, refl)

  put_front-IsValid :
      (front : List Bytes) (at : Option ℕ) (v : RedisValue)
      → Dict.has s.entries key ≡ true
      → IsValid s
      → IsValid (put_front key (entry_of list v at) front s)
  unfolding put_front
  put_front-IsValid [] at v there h = forget-IsValid key h
  put_front-IsValid (x ∷ front) at v there h = store_entry-IsValid key _ tt there h

  pop-Keeps :
      (t : RedisType) (v : RedisValue) (at : Option ℕ)
      → Found key (some (entry_of t v at), s)
      → Keeps (pop_found key (some (entry_of t v at)) s)
  unfolding pop_found pop_value as_deque is_type
  pop-Keeps list (deque []) at h = forget-IsValid key h.0
  pop-Keeps list (deque (x ∷ rest)) at h =
      put_front-IsValid (split_last x rest).0 at (deque (x ∷ rest)) h.1 h.0
  pop-Keeps list (bytes b) at h = absurd h.2
  pop-Keeps list (dict mapping) at h = absurd h.2
  pop-Keeps string v at h = (h.0, refl)
  pop-Keeps hash v at h = (h.0, refl)

set_fields-Distinct :
    (items : List (Bytes × Bytes)) (mapping : Dict Bytes Bytes)
    → Distinct mapping
    → Distinct (set_fields items mapping).1
unfolding set_fields
set_fields-Distinct [] mapping h = h
set_fields-Distinct ((field, value) ∷ items) mapping h =
    set_fields-Distinct items (Dict.put field value mapping) (put-Distinct field value mapping h)

module _ (key : Bytes) (items : List (Bytes × Bytes)) {s : Store} where
  hset-Keeps-some :
      (t : RedisType) (v : RedisValue) (at : Option ℕ)
      → Found key (some (entry_of t v at), s)
      → Keeps (hset_found key items (some (entry_of t v at)) s)
  unfolding hset_found hset_value as_dict is_type
  hset-Keeps-some hash (dict mapping) at h =
      store_entry-IsValid key _ (set_fields-Distinct items mapping h.2) h.1 h.0
  hset-Keeps-some hash (deque dq) at h = absurd h.2
  hset-Keeps-some hash (bytes b) at h = absurd h.2
  hset-Keeps-some list v at h = (h.0, refl)
  hset-Keeps-some string v at h = (h.0, refl)

-- A key that was just written is there.
has-write :
    (key : Bytes) (entry : KeyEntry) (s : Store)
    → Dict.has (touch_access key (store_entry key entry s)).entries key ≡ true
unfolding touch_access store_entry
has-write key entry s = rw (has-put key key entry s.entries, beq_refl key)

-- Over a new entry another one is written.
rewrite-IsValid :
    (key : Bytes) (a b : KeyEntry) {s : Store}
    → IsTyped a
    → IsTyped b
    → IsValid s
    → IsValid (store_entry key b (touch_access key (store_entry key a s)))
rewrite-IsValid key a b {s} ta tb h =
    store_entry-IsValid key b tb (has-write key a s) (write-IsValid key a ta h)

module _ (key : Bytes) where
  string_found-Keeps : (p : Option KeyEntry × Store) → Found key p → Keeps (string_found p.0, p.1)
  string_found-Keeps (none, s) h = unfold string_found in h
  string_found-Keeps (some e, s) h = string-Keeps key e.type e.value e.expire_at_ms h

  fields_found-Keeps : (p : Option KeyEntry × Store) → Found key p → Keeps (fields_found p.0, p.1)
  fields_found-Keeps (none, s) h = unfold fields_found in h
  fields_found-Keeps (some e, s) h = fields-Keeps key e.type e.value e.expire_at_ms h

  push_found-Keeps :
      (elements : List Bytes) (p : Option KeyEntry × Store)
      → Found key p
      → Keeps (push_found key elements p.0 p.1)
  push_found-Keeps elements (none, s) h =
      unfold push_found in unfold push_value in rewrite-IsValid key _ _ tt tt h
  push_found-Keeps elements (some e, s) h = push-Keeps key elements e.type e.value e.expire_at_ms h

  pop_found-Keeps : (p : Option KeyEntry × Store) → Found key p → Keeps (pop_found key p.0 p.1)
  pop_found-Keeps (none, s) h = unfold pop_found in h
  pop_found-Keeps (some e, s) h = pop-Keeps key e.type e.value e.expire_at_ms h

  hset_found-Keeps :
      (items : List (Bytes × Bytes)) (p : Option KeyEntry × Store)
      → Found key p
      → Keeps (hset_found key items p.0 p.1)
  hset_found-Keeps items (none, s) h =
      unfold hset_found in
      unfold hset_value in rewrite-IsValid key _ _ tt (set_fields-Distinct items [] tt) h
  hset_found-Keeps items (some e, s) h = hset-Keeps-some key items e.type e.value e.expire_at_ms h

module _ (clock : Clock) (key : Bytes) {s : Store} (h : IsValid s) where
  -- GET on a valid store leaves a valid store, and raises at most WrongTypeError: no assertion fails.
  pub get_string-Keeps : Keeps (get_string clock key s)
  unfolding get_string
  get_string-Keeps = string_found-Keeps key (touch clock key s) (touch-Found clock key h)

  -- HGETALL on a valid store leaves a valid store, and raises at most WrongTypeError.
  pub hgetall-Keeps : Keeps (hgetall clock key s)
  unfolding hgetall
  hgetall-Keeps = fields_found-Keeps key (touch clock key s) (touch-Found clock key h)

  -- LPUSH on a valid store leaves a valid store, and raises at most WrongTypeError.
  pub lpush-Keeps : (elements : List Bytes) → Keeps (lpush clock key elements s)
  unfolding lpush
  lpush-Keeps elements = push_found-Keeps key elements (touch clock key s) (touch-Found clock key h)

  -- RPOP on a valid store leaves a valid store, and raises at most WrongTypeError.
  pub rpop-Keeps : Keeps (rpop clock key s)
  unfolding rpop
  rpop-Keeps = pop_found-Keeps key (touch clock key s) (touch-Found clock key h)

  -- HSET on a valid store leaves a valid store, and raises at most WrongTypeError.
  pub hset-Keeps : (items : List (Bytes × Bytes)) → Keeps (hset clock key items s)
  unfolding hset
  hset-Keeps items = hset_found-Keeps key items (touch clock key s) (touch-Found clock key h)
