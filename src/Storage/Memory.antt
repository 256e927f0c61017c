-- ===== src/Storage/Memory.antt =====
-- byo_redis/storage/store.py: `memory_usage` and `enforce_memory_limit`.
pub mod Eviction
use byo_redis.Prelude.{
  ℕ, zero, suc, ◌+◌, Bool, true, false, not, ◌||◌, Option, none, some, List, [], ◌∷◌, ◌++◌, length,
  ltb, ◌==◌, if◌then◌else◌, Result, ok, raise, ◌>>=◌,
}
use byo_redis.Text.{Bytes}
use byo_redis.Dict
use byo_redis.Dict.{Dict, bytes_eq}
use byo_redis.Storage.Types.{RedisType, string, list, hash, KeyEntry}
use byo_redis.Storage.Expiry.{Clock, tick}
use byo_redis.Storage.Store.{
  StoreError, memory_limit, Policy, noeviction, allkeys_lru, volatile_ttl, Store, forget,
}
use byo_redis.Storage.Values.{as_string, as_deque, as_dict}
use byo_redis.Storage.Sweep.{purge}

items_size : List Bytes → ℕ
items_size [] = 0
items_size (item ∷ items) = length item + 16 + items_size items

fields_size : Dict Bytes Bytes → ℕ
fields_size [] = 0
fields_size ((field, value) ∷ mapping) = length field + length value + 32 + fields_size mapping

pub value_size : KeyEntry → Result StoreError ℕ
unfolding items_size fields_size as_string as_deque as_dict
value_size entry = elim entry.type [
  | string ↦ do b ← as_string entry.value; ok (length b)
  | list ↦ do items ← as_deque entry.value; ok (items_size items)
  | hash ↦ do mapping ← as_dict entry.value; ok (fields_size mapping)
]

pub entries_size : Dict Bytes KeyEntry → Result StoreError ℕ
unfolding value_size
entries_size [] = ok 0
entries_size ((key, entry) ∷ d) = do
  n ← value_size entry
  total ← entries_size d
  ok (length key + 64 + n + total)

unfoldable pub memory_usage : Clock → Store → Result StoreError ℕ × Store
unfolding entries_size purge
memory_usage clock s = let s' = purge clock s in (entries_size s'.entries, s')

-- The keys that the policy may evict.
pub candidates : Policy → Dict Bytes KeyEntry → List Bytes
candidates policy [] = []
candidates policy ((key, entry) ∷ d) =
    let rest = candidates policy d in
    let limited : Bool = elim entry.expire_at_ms [ none ↦ false | some at ↦ true ] in
    let any : Bool = elim policy [ volatile_ttl ↦ false | _ ↦ true ] in
    if any || limited then key ∷ rest else rest

-- min(key ∷ keys, key=rank): the first of the least
unfoldable pub min_by : (Bytes → ℕ) → Bytes → List Bytes → Bytes
min_by rank best [] = best
min_by rank best (key ∷ keys) = min_by rank (if ltb (rank key) (rank best) then key else best) keys

-- self._entries[item].expire_at_ms or 0
pub expiry_rank : Store → Bytes → ℕ
expiry_rank s key = elim (Dict.get s.entries key) [
  | none ↦ 0
  | some entry ↦ elim entry.expire_at_ms [ none ↦ 0 | some at ↦ at ]
]

pub access_rank : Store → Bytes → ℕ
access_rank s key = elim (Dict.get s.last_access key) [ none ↦ 0 | some at ↦ at ]

-- The key to evict, if the policy has one.
pub victim_of : Policy → List Bytes → Store → Option Bytes
unfolding min_by expiry_rank access_rank
victim_of policy [] s = none
victim_of volatile_ttl (key ∷ keys) s = some (min_by (expiry_rank s) key keys)
victim_of allkeys_lru (key ∷ keys) s = some (min_by (access_rank s) key keys)
victim_of noeviction (key ∷ keys) s = none

unfoldable pub victim : Store → Option Bytes
unfolding victim_of candidates
victim s = victim_of s.maxmemory_policy (candidates s.maxmemory_policy s.entries) s

unfoldable pub evict : Bytes → Store → Store
unfolding forget
evict key s = let s' = forget key s in record s' { evicted_keys = suc s'.evicted_keys }

abbrev pub Evicted : Type 0
Evicted = Result StoreError (List Bytes) × Store

-- One round: stop within the limit, or evict a key and go on.
pub evict_round :
    (List Bytes → Store → Evicted)
    → List Bytes
    → Result StoreError ℕ
    → Option Bytes
    → Store
    → Evicted
unfolding evict
evict_round again evicted (raise e) key s = (raise e, s)
evict_round again evicted (ok used) key s =
    if ltb s.maxmemory_bytes used
    then (elim key [
      | none ↦ (raise memory_limit, s)
      | some k ↦ again (evicted ++ k ∷ []) (evict k s)
    ])
    else (ok evicted, s)

-- The loop. Each round but the last takes an entry off, so that more rounds than entries are enough;
-- if they ran out, it would raise.
pub evict_loop : ℕ → Clock → List Bytes → Store → Evicted
unfolding evict_round victim memory_usage
evict_loop zero clock evicted s = (raise memory_limit, s)
evict_loop (suc rounds) clock evicted s =
    let (used, s') = memory_usage clock s in
    evict_round (evict_loop rounds (tick clock)) evicted used (victim s') s'

unfoldable pub enforce_memory_limit : Clock → Store → Evicted
unfolding evict_loop
enforce_memory_limit clock s =
    if s.maxmemory_bytes == 0 then (ok [], s) else evict_loop (suc (length s.entries)) clock [] s
