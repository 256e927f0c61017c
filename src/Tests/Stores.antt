-- ===== src/Tests/Stores.antt =====
-- The theorems on the store at concrete inputs.
use byo_redis.Prelude.{ℕ, ◌≤◌, ◌<◌, ◌≡◌, refl, [], ◌∷◌, length, arith, pos, some, none, true}
use byo_redis.Text.{codes}
use byo_redis.Dict
use byo_redis.Dict.{bytes_eq}
use byo_redis.Storage.Expiry.{Clock}
use byo_redis.Storage.Store.{Store, Policy, new_store, noeviction, allkeys_lru, delete, expire}
use byo_redis.Storage.Store.Keeps.{delete-IsValid, expire-IsValid}
use byo_redis.Storage.Values.{set_string, lpush, rpop, hset}
use byo_redis.Storage.Values.Keeps.{Keeps, set_string-IsValid, lpush-Keeps, rpop-Keeps, hset-Keeps}
use byo_redis.Storage.Sweep.{purge, dbsize, snapshot, live_items}
use byo_redis.Storage.Sweep.Keeps.{purge-live_items, dbsize-live_items, get-snapshot}
use byo_redis.Storage.Memory.{enforce_memory_limit, victim, access_rank}
use byo_redis.Storage.Memory.Eviction.{Settled, enforce_memory_limit-Settled, victim-lru}
use byo_redis.Storage.Valid.{IsValid}
use byo_redis.Storage.View.{view}

abbrev pub clock : Clock
clock i = 1000

new_store-IsValid : (limit : ℕ) (policy : Policy) → IsValid (new_store limit policy)
unfolding Dict.has Dict.get
new_store-IsValid limit policy = record {
  distinct = tt;
  tracked = λ k. refl;
  recent = λ k n e. absurd (cc e);
  typed = λ k x e. absurd (cc e);
}

-- One key that expires, and then one that does not.
unfoldable pub stored : ℕ → Store
unfolding set_string
stored limit =
    set_string clock (codes "j") (codes "w") none
      (set_string clock (codes "k") (codes "v") (some (pos 5)) (new_store limit allkeys_lru))

pub stored-IsValid : (limit : ℕ) → IsValid (stored limit)
unfolding stored
stored-IsValid limit = set_string-IsValid clock (codes "j") (codes "w") none (
    set_string-IsValid clock (codes "k") (codes "v") (some (pos 5))
      (new_store-IsValid limit allkeys_lru))

-- A key that expires, in a store of at most ten bytes that evicts nothing.
unfoldable pub full : Store
unfolding set_string
full = set_string clock (codes "k") (codes "v") (some (pos 5)) (new_store 10 noeviction)

pub full-IsValid : IsValid full
unfolding full
full-IsValid =
    set_string-IsValid clock (codes "k") (codes "v") (some (pos 5))
      (new_store-IsValid 10 noeviction)

set_string-IsValid_example :
    IsValid (set_string clock (codes "k") (codes "x") (some (pos 9)) (stored 0))
set_string-IsValid_example =
    set_string-IsValid clock (codes "k") (codes "x") (some (pos 9)) (stored-IsValid 0)

lpush-Keeps_example : Keeps (lpush clock (codes "l") (codes "a" ∷ []) (stored 0))
lpush-Keeps_example = lpush-Keeps clock (codes "l") (stored-IsValid 0) (codes "a" ∷ [])

rpop-Keeps_example : Keeps (rpop clock (codes "k") (stored 0))
rpop-Keeps_example = rpop-Keeps clock (codes "k") (stored-IsValid 0)

hset-Keeps_example : Keeps (hset clock (codes "h") ((codes "f", codes "a") ∷ []) (stored 0))
hset-Keeps_example = hset-Keeps clock (codes "h") (stored-IsValid 0) ((codes "f", codes "a") ∷ [])

delete-IsValid_example : IsValid (delete clock (codes "k" ∷ codes "x" ∷ []) (stored 0)).1
delete-IsValid_example = delete-IsValid clock (codes "k" ∷ codes "x" ∷ []) (stored-IsValid 0)

expire-IsValid_example : IsValid (expire clock (codes "j") (pos 3) (stored 0)).1
expire-IsValid_example = expire-IsValid clock (codes "j") (pos 3) (stored-IsValid 0)

purge-live_items_example : (purge clock (stored 0)).entries ≡ live_items 1000 (stored 0).entries
purge-live_items_example = purge-live_items clock (stored 0) (stored-IsValid 0)

dbsize-live_items_example :
    (dbsize clock (stored 0)).0 ≡ length (live_items 1000 (stored 0).entries)
dbsize-live_items_example = dbsize-live_items clock (stored 0) (stored-IsValid 0)

get-snapshot_example :
    Dict.get (snapshot clock (stored 0)).0 (codes "k") ≡ view 1000 (stored 0) (codes "k")
get-snapshot_example = get-snapshot clock (stored 0) (codes "k") (stored-IsValid 0)

limit_holds : 0 < (stored 10).maxmemory_bytes
unfolding stored set_string
limit_holds = omega arith

enforce_memory_limit-Settled_example :
    Settled (stored 10).maxmemory_bytes (enforce_memory_limit clock (stored 10))
enforce_memory_limit-Settled_example =
    enforce_memory_limit-Settled clock (stored 10) (stored-IsValid 10) limit_holds

oldest : victim (stored 10) ≡ some (codes "k")
unfolding stored set_string victim Dict.put Dict.get
oldest = refl

j_there : Dict.has (stored 10).entries (codes "j") ≡ true
unfolding stored set_string Dict.has Dict.put
j_there = refl

lru_chosen : (stored 10).maxmemory_policy ≡ allkeys_lru
unfolding stored set_string
lru_chosen = refl

victim-lru_example :
    (Dict.has (stored 10).entries (codes "k") ≡ true)
    × (access_rank (stored 10) (codes "k") ≤ access_rank (stored 10) (codes "j"))
victim-lru_example = victim-lru (stored 10) (codes "k") (codes "j") lru_chosen oldest j_there
