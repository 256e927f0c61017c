-- ===== src/Storage/Sweep.antt =====
-- byo_redis/storage/store.py: the operations that go through the whole keyspace.
pub mod Keeps
use byo_redis.Prelude.{
  ℕ, zero, suc, ◌+◌, ◌-◌, ◌/◌, Bool, true, false, Option, none, some, List, [], ◌∷◌, length, leb,
  ◌==◌, if◌then◌else◌,
}
use byo_redis.Text.{Bytes}
use byo_redis.Dict
use byo_redis.Dict.{Dict, bytes_eq}
use byo_redis.Storage.Types.{KeyEntry, copy}
use byo_redis.Storage.Expiry.{Clock, tick, is_expired}
use byo_redis.Storage.Store.{Store, forget}

-- The keys that have expired.
unfoldable pub expired_keys : ℕ → Dict Bytes KeyEntry → List Bytes
expired_keys now [] = []
expired_keys now ((key, entry) ∷ d) =
    let rest = expired_keys now d in if is_expired entry.expire_at_ms now then key ∷ rest else rest

unfoldable pub forget_all : List Bytes → Store → Store
forget_all [] s = s
forget_all (key ∷ keys) s = forget_all keys (forget key s)

-- `_purge_expired_all_lazy_touch`
unfoldable pub purge : Clock → Store → Store
unfolding expired_keys forget_all forget is_expired
purge clock s = forget_all (expired_keys (clock 0) s.entries) s

-- `__len__` and `dbsize`
unfoldable pub dbsize : Clock → Store → ℕ × Store
unfolding purge
dbsize clock s = let s' = purge clock s in (length s'.entries, s')

-- The items that `iter_entries` yields.
unfoldable pub live_items : ℕ → Dict Bytes KeyEntry → Dict Bytes KeyEntry
live_items now [] = []
live_items now ((key, entry) ∷ d) =
    let rest = live_items now d in
    if is_expired entry.expire_at_ms now then rest else (key, copy entry) ∷ rest

-- `snapshot`: copies of the live entries; `iter_entries` deletes the others at its end
unfoldable pub snapshot : Clock → Store → Dict Bytes KeyEntry × Store
unfolding live_items purge copy
snapshot clock s = (live_items (clock 0) s.entries, purge clock s)

-- The loop of `active_expire_cycle` over a sample.
pub expire_sample : ℕ → List Bytes → Store → ℕ × Store
expire_sample now [] s = (0, s)
expire_sample now (key ∷ sample) s =
    let expired : Bool = elim (Dict.get s.entries key) [
      | none ↦ false
      | some entry ↦ is_expired entry.expire_at_ms now
    ] in
    let (deleted, s') = expire_sample now sample (if expired then forget key s else s) in
    ((if expired then 1 else 0) + deleted, s')

-- `random_sample` is `random.sample`.
unfoldable pub active_expire_cycle : (List Bytes → ℕ → List Bytes) → Clock → ℕ → Store → ℕ × Store
unfolding expire_sample forget is_expired
active_expire_cycle random_sample clock sample_size s =
    let keys = Dict.keys s.entries in
    let sample = if leb (length keys) sample_size then keys else random_sample keys sample_size in
    expire_sample (clock 0) sample s

-- `keys`: every key is in the sample
unfoldable pub live_keys : (List Bytes → ℕ → List Bytes) → Clock → Store → List Bytes × Store
unfolding active_expire_cycle
live_keys random_sample clock s =
    let size = length s.entries in
    let (deleted, s') = active_expire_cycle random_sample clock (if size == 0 then 1 else size) s in
    (Dict.keys s'.entries, s')

-- The remaining milliseconds of the keys that have a limit.
ttl_values : ℕ → Dict Bytes KeyEntry → List ℕ
ttl_values now [] = []
ttl_values now ((key, entry) ∷ d) = elim entry.expire_at_ms [
  | none ↦ ttl_values now d
  | some at ↦ (at - now) ∷ ttl_values now d
]

sum : List ℕ → ℕ
sum [] = 0
sum (x ∷ xs) = x + sum xs

-- The keys, the keys with a limit, and the average remaining time.
unfoldable pub keyspace_stats : Clock → Store → (ℕ × ℕ × ℕ) × Store
unfolding purge ttl_values sum
keyspace_stats clock s =
    let s' = purge clock s in
    let values = ttl_values (clock 1) s'.entries in
    let count = length values in
    ((length s'.entries, count, (if count == 0 then 0 else sum values / count)), s')
