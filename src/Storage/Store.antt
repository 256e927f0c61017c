-- ===== src/Storage/Store.antt =====
-- byo_redis/storage/store.py: the state of a `Store`, and the operations on one key. A method
-- returns its result, or the exception that it raises, with the store that it leaves.
pub mod Keeps
use byo_redis.Prelude.{
  ℕ, zero, suc, ◌+◌, ◌*◌, Bool, true, false, Option, none, some, List, [], ◌∷◌, ◌++◌, length,
  if◌then◌else◌, ℤ, pos, negsuc, is_nonpos, pos_part, Result, ok, raise,
}
use byo_redis.Text.{Bytes}
use byo_redis.Dict
use byo_redis.Dict.{Dict, bytes_eq}
use byo_redis.Storage.Types.{
  RedisType, string, list, hash, RedisValue, bytes, deque, dict, KeyEntry, is_type, copy,
}
use byo_redis.Storage.Expiry.{Clock, tick, is_expired, ttl_seconds}

-- `assertion` is the AssertionError of a failed `assert isinstance(…)`.
pub data StoreError : Type 0 where
  wrong_type memory_limit assertion : StoreError

pub data Policy : Type 0 where
  noeviction allkeys_lru volatile_ttl : Policy

pub record Store : Type 0 where
  pub entries : Dict Bytes KeyEntry
  pub maxmemory_bytes : ℕ
  pub maxmemory_policy : Policy
  pub access_clock : ℕ
  pub last_access : Dict Bytes ℕ
  pub evicted_keys : ℕ

abbrev pub new_store : ℕ → Policy → Store
new_store maxmemory_bytes policy = record {
  entries = [];
  maxmemory_bytes = maxmemory_bytes;
  maxmemory_policy = policy;
  access_clock = 0;
  last_access = [];
  evicted_keys = 0;
}

-- `_touch_access`
unfoldable pub touch_access : Bytes → Store → Store
touch_access key s =
    let now = suc s.access_clock in
    record s { access_clock = now; last_access = Dict.put key now s.last_access }

-- del self._entries[key]; self._last_access.pop(key, None)
unfoldable pub forget : Bytes → Store → Store
forget key s = record s {
  entries = Dict.pop key s.entries;
  last_access = Dict.pop key s.last_access;
}

-- A write to the entry that stands under a key.
unfoldable pub store_entry : Bytes → KeyEntry → Store → Store
store_entry key entry s = record s { entries = Dict.put key entry s.entries }

touch_found : ℕ → Bytes → Option KeyEntry → Store → Option KeyEntry × Store
touch_found now key none s = (none, s)
touch_found now key (some entry) s =
    if is_expired entry.expire_at_ms now
    then (none, forget key s)
    else (some entry, touch_access key s)

-- `_touch`
unfoldable pub touch : Clock → Bytes → Store → Option KeyEntry × Store
unfolding touch_found touch_access forget is_expired
touch clock key s = touch_found (clock 0) key (Dict.get s.entries key) s

unfoldable pub clear : Store → Store
clear s = record s { entries = []; last_access = [] }

copy_all : Dict Bytes KeyEntry → Dict Bytes KeyEntry
copy_all [] = []
copy_all ((k, v) ∷ d) = (k, copy v) ∷ copy_all d

-- {key: index for index, key in enumerate(…)}
enumerate_keys : ℕ → Dict Bytes KeyEntry → Dict Bytes ℕ
enumerate_keys i [] = []
enumerate_keys i ((k, v) ∷ d) = (k, i) ∷ enumerate_keys (suc i) d

unfoldable pub load_entries : Dict Bytes KeyEntry → Store → Store
unfolding copy_all enumerate_keys copy
load_entries entries s =
    let index = enumerate_keys 0 (copy_all entries) in
    record s { entries = copy_all entries; last_access = index; access_clock = length index }

delete_found : ℕ → Bytes → Option KeyEntry → Store → ℕ × Store
delete_found now key none s = (0, s)
delete_found now key (some entry) s =
    if is_expired entry.expire_at_ms now then (0, forget key s) else (1, forget key s)

-- The clock is read for each key that is there.
next_clock : Clock → Option KeyEntry → Clock
next_clock clock none = clock
next_clock clock (some entry) = tick clock

unfoldable pub delete : Clock → List Bytes → Store → ℕ × Store
unfolding delete_found next_clock forget is_expired
delete clock [] s = (0, s)
delete clock (key ∷ keys) s =
    let found = Dict.get s.entries key in
    let (one, s') = delete_found (clock 0) key found s in
    let (rest, s'') = delete (next_clock clock found) keys s' in (one + rest, s'')

exists_found : Option KeyEntry → Bool
exists_found none = false
exists_found (some entry) = true

unfoldable pub exists : Clock → Bytes → Store → Bool × Store
unfolding exists_found touch
exists clock key s = let (entry, s') = touch clock key s in (exists_found entry, s')

unfoldable pub get_entry : Clock → Bytes → Store → Option KeyEntry × Store
unfolding touch
get_entry clock key s = touch clock key s

unfoldable pub set_entry : Bytes → KeyEntry → Store → Store
unfolding touch_access store_entry
set_entry key entry s = touch_access key (store_entry key entry s)

expire_found : Clock → Bytes → ℤ → Option KeyEntry → Store → ℕ × Store
expire_found clock key seconds none s = (0, s)
expire_found clock key seconds (some entry) s = if is_nonpos seconds then (1, forget key s) else (
  1,
  store_entry key (record entry { expire_at_ms = some (clock 1 + pos_part seconds * 1000) }) s,
)

unfoldable pub expire : Clock → Bytes → ℤ → Store → ℕ × Store
unfolding expire_found touch forget store_entry
expire clock key seconds s =
    let (entry, s') = touch clock key s in expire_found clock key seconds entry s'

pexpire_found : Bytes → Option ℕ → Option KeyEntry → Store → Store
pexpire_found key at none s = s
pexpire_found key at (some entry) s = store_entry key (record entry { expire_at_ms = at }) s

unfoldable pub pexpire_at : Clock → Bytes → Option ℕ → Store → Store
unfolding pexpire_found touch store_entry
pexpire_at clock key at s = let (entry, s') = touch clock key s in pexpire_found key at entry s'

ttl_found : Clock → Bytes → Option KeyEntry → Store → ℤ × Store
ttl_found clock key none s = (negsuc 1, s)
ttl_found clock key (some entry) s =
    if is_expired entry.expire_at_ms (clock 0)
    then (negsuc 1, forget key s)
    else (ttl_seconds entry.expire_at_ms (clock 1), s)

unfoldable pub ttl : Clock → Bytes → Store → ℤ × Store
unfolding ttl_found forget is_expired ttl_seconds
ttl clock key s = ttl_found clock key (Dict.get s.entries key) s

type_found : Option KeyEntry → Option RedisType
type_found none = none
type_found (some entry) = some entry.type

unfoldable pub type_of : Clock → Bytes → Store → Option RedisType × Store
unfolding type_found touch
type_of clock key s = let (entry, s') = touch clock key s in (type_found entry, s')
