-- ===== src/Storage/Values.antt =====
-- byo_redis/storage/store.py: the operations on strings, lists and hashes.
pub mod Keeps
use byo_redis.Prelude.{
  ℕ, zero, suc, ◌+◌, ◌*◌, Bool, true, false, Option, none, some, List, [], ◌∷◌, ◌++◌, length,
  if◌then◌else◌, ℤ, pos, negsuc, is_nonpos, pos_part, Result, ok, raise,
}
use byo_redis.Text.{Bytes}
use byo_redis.Dict
use byo_redis.Dict.{Dict, bytes_eq}
use byo_redis.Storage.Types.{
  RedisType, string, list, hash, RedisValue, bytes, deque, dict, KeyEntry, is_type,
}
use byo_redis.Storage.Expiry.{Clock}
use byo_redis.Storage.Store.{
  StoreError, wrong_type, assertion, Store, touch, touch_access, forget, store_entry,
}

abbrev string_entry : Bytes → Option ℕ → KeyEntry
string_entry value at = record { type = string; value = bytes value; expire_at_ms = at }

-- A new entry of a string.
write_string : Bytes → Bytes → Option ℕ → Store → Store
write_string key value at s = touch_access key (store_entry key (string_entry value at) s)

unfoldable pub set_string : Clock → Bytes → Bytes → Option ℤ → Store → Store
unfolding write_string touch_access store_entry forget
set_string clock key value none s = write_string key value none s
set_string clock key value (some seconds) s =
    if is_nonpos seconds
    then forget key s
    else write_string key value (some (clock 0 + pos_part seconds * 1000)) s

-- assert isinstance(value, …)
unfoldable pub as_string : RedisValue → Result StoreError Bytes
as_string (bytes b) = ok b
as_string _ = raise assertion

unfoldable pub as_deque : RedisValue → Result StoreError (List Bytes)
as_deque (deque items) = ok items
as_deque _ = raise assertion

unfoldable pub as_dict : RedisValue → Result StoreError (Dict Bytes Bytes)
as_dict (dict mapping) = ok mapping
as_dict _ = raise assertion

string_found : Option KeyEntry → Result StoreError (Option Bytes)
string_found none = ok none
string_found (some entry) =
    if is_type entry.type string
    then (elim (as_string entry.value) [ ok b ↦ ok (some b) | raise e ↦ raise e ])
    else raise wrong_type

unfoldable pub get_string : Clock → Bytes → Store → Result StoreError (Option Bytes) × Store
unfolding string_found as_string is_type touch
get_string clock key s = let (entry, s') = touch clock key s in (string_found entry, s')

-- for el in elements: dq.appendleft(el)
unfoldable pub push_left : List Bytes → List Bytes → List Bytes
push_left [] dq = dq
push_left (el ∷ elements) dq = push_left elements (el ∷ dq)

-- The deque with the elements pushed, written back under its key.
push_value :
    Bytes
    → List Bytes
    → KeyEntry
    → Result StoreError (List Bytes)
    → Store
    → Result StoreError ℕ × Store
unfolding push_left
push_value key elements entry (raise e) s = (raise e, s)
push_value key elements entry (ok dq) s =
    let dq' = push_left elements dq in
    (ok (length dq'), store_entry key (record entry { value = deque dq' }) s)

push_found : Bytes → List Bytes → Option KeyEntry → Store → Result StoreError ℕ × Store
push_found key elements none s =
    let entry : KeyEntry = record { type = list; value = deque []; expire_at_ms = none } in
    push_value key elements entry (ok []) (touch_access key (store_entry key entry s))
push_found key elements (some entry) s =
    if is_type entry.type list
    then push_value key elements entry (as_deque entry.value) s
    else (raise wrong_type, s)

unfoldable pub lpush : Clock → Bytes → List Bytes → Store → Result StoreError ℕ × Store
unfolding push_found push_value as_deque is_type touch touch_access store_entry
lpush clock key elements s = let (entry, s') = touch clock key s in push_found key elements entry s'

-- dq.pop() on a deque that is not empty: what stays, and the right end
unfoldable pub split_last : Bytes → List Bytes → List Bytes × Bytes
split_last x [] = ([], x)
split_last x (y ∷ rest) = let (front, last) = split_last y rest in (x ∷ front, last)

-- The entry with what stays of its deque; an empty one is deleted.
put_front : Bytes → KeyEntry → List Bytes → Store → Store
put_front key entry [] s = forget key s
put_front key entry (x ∷ front) s = store_entry key (record entry { value = deque (x ∷ front) }) s

pop_value :
    Bytes
    → KeyEntry
    → Result StoreError (List Bytes)
    → Store
    → Result StoreError (Option Bytes) × Store
unfolding split_last put_front
pop_value key entry (raise e) s = (raise e, s)
pop_value key entry (ok []) s = (ok none, forget key s)
pop_value key entry (ok (x ∷ rest)) s =
    let (front, last) = split_last x rest in (ok (some last), put_front key entry front s)

pop_found : Bytes → Option KeyEntry → Store → Result StoreError (Option Bytes) × Store
pop_found key none s = (ok none, s)
pop_found key (some entry) s =
    if is_type entry.type list
    then pop_value key entry (as_deque entry.value) s
    else (raise wrong_type, s)

unfoldable pub rpop : Clock → Bytes → Store → Result StoreError (Option Bytes) × Store
unfolding pop_found pop_value as_deque is_type touch forget store_entry
rpop clock key s = let (entry, s') = touch clock key s in pop_found key entry s'

-- The loop of `hset`: how many fields are new, and the mapping.
unfoldable pub set_fields : List (Bytes × Bytes) → Dict Bytes Bytes → ℕ × Dict Bytes Bytes
set_fields [] mapping = (0, mapping)
set_fields ((field, value) ∷ items) mapping =
    let (added, mapping') = set_fields items (Dict.put field value mapping) in
    ((if Dict.has mapping field then 0 else 1) + added, mapping')

hset_value :
    Bytes
    → List (Bytes × Bytes)
    → KeyEntry
    → Result StoreError (Dict Bytes Bytes)
    → Store
    → Result StoreError ℕ × Store
unfolding set_fields
hset_value key items entry (raise e) s = (raise e, s)
hset_value key items entry (ok mapping) s =
    let (added, mapping') = set_fields items mapping in
    (ok added, store_entry key (record entry { value = dict mapping' }) s)

hset_found : Bytes → List (Bytes × Bytes) → Option KeyEntry → Store → Result StoreError ℕ × Store
hset_found key items none s =
    let entry : KeyEntry = record { type = hash; value = dict []; expire_at_ms = none } in
    hset_value key items entry (ok []) (touch_access key (store_entry key entry s))
hset_found key items (some entry) s =
    if is_type entry.type hash
    then hset_value key items entry (as_dict entry.value) s
    else (raise wrong_type, s)

unfoldable pub hset : Clock → Bytes → List (Bytes × Bytes) → Store → Result StoreError ℕ × Store
unfolding hset_found hset_value as_dict is_type touch touch_access store_entry
hset clock key items s = let (entry, s') = touch clock key s in hset_found key items entry s'

-- The loop of `hgetall`.
unfoldable pub field_list : Dict Bytes Bytes → List Bytes
field_list [] = []
field_list ((field, value) ∷ mapping) = field ∷ value ∷ field_list mapping

fields_found : Option KeyEntry → Result StoreError (List Bytes)
unfolding field_list
fields_found none = ok []
fields_found (some entry) =
    if is_type entry.type hash
    then (elim (as_dict entry.value) [ ok m ↦ ok (field_list m) | raise e ↦ raise e ])
    else raise wrong_type

unfoldable pub hgetall : Clock → Bytes → Store → Result StoreError (List Bytes) × Store
unfolding fields_found as_dict is_type touch
hgetall clock key s = let (entry, s') = touch clock key s in (fields_found entry, s')
