-- ===== src/Storage/Memory/Eviction.antt =====
-- What `enforce_memory_limit` leaves, and which key it evicts.
use byo_redis.Prelude.{
  ℕ, zero, suc, ◌+◌, ◌≤◌, ◌<◌, ◌≡◌, refl, ◌∙◌, subst, Bool, true, false, Option, none, some, List,
  [], ◌∷◌, ◌++◌, arith, Bool-cases, Option-cases, inl, inr, length, if◌then◌else◌, ltb, ltb→lt,
  le_of_not_ltb, ok, raise, ◌==◌,
}
use byo_redis.Text.{Bytes, text_eq, text_eq_iff}
use byo_redis.Dict
use byo_redis.Dict.{Dict, bytes_eq, Distinct}
use byo_redis.Dict.Laws.{length-pop, get_of_not-has}
use byo_redis.Storage.Types.{
  RedisType, string, list, hash, RedisValue, bytes, deque, dict, KeyEntry,
}
use byo_redis.Storage.Expiry.{Clock, tick}
use byo_redis.Storage.Store.{
  memory_limit, Policy, noeviction, allkeys_lru, volatile_ttl, Store, forget,
}
use byo_redis.Storage.Valid.{IsTyped, IsValid, forget-IsValid}
use byo_redis.Storage.Sweep.{purge, forget_all, expired_keys, live_items}
use byo_redis.Storage.Sweep.Keeps.{purge-IsValid, purge-live_items}
use byo_redis.Storage.Memory.{
  value_size, entries_size, memory_usage, candidates, min_by, expiry_rank, access_rank, victim_of,
  victim, evict, Evicted, evict_round, evict_loop, enforce_memory_limit,
}

-- j in ks
abbrev pub contains : List Bytes → Bytes → Bool
contains [] j = false
contains (k ∷ ks) j = if text_eq k j then true else contains ks j

-- An entry of its type's class has a size.
value_size-total :
    (t : RedisType) (v : RedisValue) (at : Option ℕ)
    → IsTyped (record { type = t; value = v; expire_at_ms = at })
    → (n : ℕ) × (value_size (record { type = t; value = v; expire_at_ms = at }) ≡ ok n)
unfolding value_size
value_size-total string (bytes b) at h = (_, refl)
value_size-total list (deque items) at h = (_, refl)
value_size-total hash (dict mapping) at h = (_, refl)
value_size-total string (deque items) at h = absurd h
value_size-total string (dict m) at h = absurd h
value_size-total list (bytes b) at h = absurd h
value_size-total list (dict m) at h = absurd h
value_size-total hash (bytes b) at h = absurd h
value_size-total hash (deque items) at h = absurd h

get-tail :
    (k j : Bytes) (e x : KeyEntry) (d : Dict Bytes KeyEntry)
    → Dict.has d k ≡ false
    → Dict.get d j ≡ some x
    → Dict.get ((k, e) ∷ d) j ≡ some x
unfolding Dict.get
get-tail k j e x d h r = ground (arith, text_eq_iff k j, get_of_not-has k d h)

get-head : (k : Bytes) (e : KeyEntry) (d : Dict Bytes KeyEntry) → Dict.get ((k, e) ∷ d) k ≡ some e
unfolding Dict.get
get-head k e d = ground (arith, text_eq_iff k k)

pub entries_size-total :
    (d : Dict Bytes KeyEntry)
    → Distinct d
    → ((k : Bytes) (e : KeyEntry) → Dict.get d k ≡ some e → IsTyped e)
    → (n : ℕ) × (entries_size d ≡ ok n)
unfolding entries_size
entries_size-total [] h t = (0, refl)
entries_size-total ((k, e) ∷ d) h t =
    let (n, p) = value_size-total e.type e.value e.expire_at_ms (t k e (get-head k e d)) in
    let (total, q) = entries_size-total d h.1 (λ j x r. t j x (get-tail k j e x d h.0 r)) in
    (length k + 64 + n + total, rw (p, q))

-- The keys that may be evicted are keys of the dictionary.
candidates-has :
    (policy : Policy) (d : Dict Bytes KeyEntry) (k : Bytes)
    → contains (candidates policy d) k ≡ true
    → Dict.has d k ≡ true
unfolding candidates Dict.has
candidates-has policy [] k h = absurd (ground arith)
candidates-has policy ((j, e) ∷ d) k h = ground (arith, candidates-has policy d k)

min_by-contains :
    (rank : Bytes → ℕ) (best : Bytes) (ks : List Bytes)
    → contains (best ∷ ks) (min_by rank best ks) ≡ true
unfolding min_by
min_by-contains rank best [] = ground (arith, text_eq_iff best best)
min_by-contains rank best (k ∷ ks) =
    ground (arith, min_by-contains rank k ks, min_by-contains rank best ks)

-- Nothing ranks below the choice.
pub min_by-le :
    (rank : Bytes → ℕ) (best : Bytes) (ks : List Bytes) (j : Bytes)
    → contains (best ∷ ks) j ≡ true
    → rank (min_by rank best ks) ≤ rank j
unfolding min_by
min_by-le rank best [] j h = ground (arith, text_eq_iff best j)
min_by-le rank best (k ∷ ks) j h = ground (
  arith,
  text_eq_iff best j,
  text_eq_iff k j,
  text_eq_iff k k,
  text_eq_iff best best,
  min_by-le rank k ks j,
  min_by-le rank k ks k,
  min_by-le rank best ks j,
  min_by-le rank best ks best,
)

victim_of-contains :
    (policy : Policy) (ks : List Bytes) (s : Store) (k : Bytes)
    → victim_of policy ks s ≡ some k
    → contains ks k ≡ true
unfolding victim_of
victim_of-contains noeviction [] s k h = absurd (cc)
victim_of-contains allkeys_lru [] s k h = absurd (cc)
victim_of-contains volatile_ttl [] s k h = absurd (cc)
victim_of-contains noeviction (j ∷ js) s k h = absurd (cc)
victim_of-contains allkeys_lru (j ∷ js) s k h = ground (arith, min_by-contains (access_rank s) j js)
victim_of-contains volatile_ttl (j ∷ js) s k h =
    ground (arith, min_by-contains (expiry_rank s) j js)

victim-has : (s : Store) (k : Bytes) → victim s ≡ some k → Dict.has s.entries k ≡ true
unfolding victim
victim-has s k h =
    candidates-has s.maxmemory_policy s.entries k
      (victim_of-contains s.maxmemory_policy (candidates s.maxmemory_policy s.entries) s k h)

-- How the loop ends: within the limit, or above it with no key that may be evicted.
abbrev pub Settled : ℕ → Evicted → Type 0
Settled limit (ok evicted, s) =
    IsValid s
    × (s.maxmemory_bytes ≡ limit)
    × ((used : ℕ) × (entries_size s.entries ≡ ok used) × (used ≤ limit))
Settled limit (raise e, s) =
    IsValid s
    × (s.maxmemory_bytes ≡ limit)
    × (e ≡ memory_limit)
    × (victim s ≡ none)
    × ((used : ℕ) × (entries_size s.entries ≡ ok used) × (limit < used))

evict-IsValid : (k : Bytes) {s : Store} → IsValid s → IsValid (evict k s)
unfolding evict
evict-IsValid k {s} h =
    let f = forget-IsValid k h in
    record { distinct = f.distinct; tracked = f.tracked; recent = f.recent; typed = f.typed }

length-evict :
    (k : Bytes) (s : Store)
    → IsValid s
    → victim s ≡ some k
    → length (evict k s).entries + 1 ≡ length s.entries
unfolding evict
length-evict k s h v = length-pop k s.entries h.distinct (victim-has s k v)

module _ (limit : ℕ) where
  round-Settled :
      (again : List Bytes → Store → Evicted) (evicted : List Bytes) (s : Store)
      → IsValid s
      → s.maxmemory_bytes ≡ limit
      → ((acc : List Bytes) (k : Bytes) → victim s ≡ some k → Settled limit (again acc (evict k s)))
      → Settled limit (evict_round again evicted (entries_size s.entries) (victim s) s)
  unfolding evict_round
  round-Settled again evicted s h m ih =
      let (used, p) = entries_size-total s.entries h.distinct h.typed in
      rw p (elim (Bool-cases (ltb s.maxmemory_bytes used)) [
        | inr fits ↦ rw fits (h, m, (used, p, omega (arith, le_of_not_ltb _ _ fits)))
        | inl over ↦ rw over (elim (Option-cases (victim s)) [
          | inl stuck ↦ rw stuck (h, m, refl, stuck, (used, p, omega (arith, ltb→lt _ _ over)))
          | inr (k, chosen) ↦ rw chosen (ih (evicted ++ k ∷ []) k chosen)
        ])
      ])

limit-forget_all :
    (ks : List Bytes) (s : Store) → (forget_all ks s).maxmemory_bytes ≡ s.maxmemory_bytes
unfolding forget_all forget
limit-forget_all [] s = refl
limit-forget_all (k ∷ ks) s = limit-forget_all ks (forget k s)

limit-purge : (clock : Clock) (s : Store) → (purge clock s).maxmemory_bytes ≡ s.maxmemory_bytes
unfolding purge
limit-purge clock s = limit-forget_all (expired_keys (clock 0) s.entries) s

length-live_items : (now : ℕ) (d : Dict Bytes KeyEntry) → length (live_items now d) ≤ length d
unfolding live_items
length-live_items now [] = omega arith
length-live_items now ((k, e) ∷ d) = ground (arith, length-live_items now d)

length-purge :
    (clock : Clock) (s : Store) → IsValid s → length (purge clock s).entries ≤ length s.entries
length-purge clock s h = rw (purge-live_items clock s h) (length-live_items (clock 0) s.entries)

limit-evict : (k : Bytes) (s : Store) → (evict k s).maxmemory_bytes ≡ s.maxmemory_bytes
unfolding evict forget
limit-evict k s = refl

evict_loop-Settled :
    (limit rounds : ℕ) (clock : Clock) (acc : List Bytes) (s : Store)
    → IsValid s
    → s.maxmemory_bytes ≡ limit
    → length s.entries < rounds
    → Settled limit (evict_loop rounds clock acc s)
unfolding evict_loop memory_usage
evict_loop-Settled limit zero clock acc s h m lt = absurd (omega arith)
evict_loop-Settled limit (suc rounds) clock acc s h m lt =
    let s' = purge clock s in
    let valid : IsValid s' = purge-IsValid clock h in
    round-Settled limit (evict_loop rounds (tick clock)) acc s' valid (limit-purge clock s ∙ m)
      (λ acc' k v.
        evict_loop-Settled limit rounds (tick clock) acc' (evict k s') (evict-IsValid k valid)
          (limit-evict k s' ∙ limit-purge clock s ∙ m)
          (omega (arith, length-evict k s' valid v, length-purge clock s h)))

-- On a valid store with a limit set, `enforce_memory_limit` ends: it returns with the memory in use within the limit,
-- or raises MemoryLimitError, only that, with the memory above the limit and no key that the policy
-- may evict. Either way the store stays valid.
pub enforce_memory_limit-Settled :
    (clock : Clock) (s : Store)
    → IsValid s
    → 0 < s.maxmemory_bytes
    → Settled s.maxmemory_bytes (enforce_memory_limit clock s)
unfolding enforce_memory_limit
enforce_memory_limit-Settled clock s h positive = elim (Bool-cases (s.maxmemory_bytes == 0)) [
  | inl e ↦ absurd (ground arith)
  | inr e ↦ rw e (
      evict_loop-Settled s.maxmemory_bytes (suc (length s.entries)) clock [] s h refl (omega arith))
]

candidates-lru :
    (d : Dict Bytes KeyEntry) (j : Bytes)
    → Dict.has d j ≡ true
    → contains (candidates allkeys_lru d) j ≡ true
unfolding candidates Dict.has
candidates-lru [] j h = h
candidates-lru ((k, e) ∷ d) j h = ground (arith, candidates-lru d j)

victim_of-lru :
    (ks : List Bytes) (s : Store) (k j : Bytes)
    → victim_of allkeys_lru ks s ≡ some k
    → contains ks j ≡ true
    → access_rank s k ≤ access_rank s j
unfolding victim_of
victim_of-lru [] s k j v h = absurd (cc)
victim_of-lru (i ∷ is) s k j v h =
    let best : min_by (access_rank s) i is ≡ k = cc in
    subst (λ x. access_rank s x ≤ access_rank s j) best (min_by-le (access_rank s) i is j h)

-- Under allkeys-lru the key to evict is one that is there, and no key that is there was accessed
-- before it.
pub victim-lru :
    (s : Store) (k j : Bytes)
    → s.maxmemory_policy ≡ allkeys_lru
    → victim s ≡ some k
    → Dict.has s.entries j ≡ true
    → (Dict.has s.entries k ≡ true) × (access_rank s k ≤ access_rank s j)
unfolding victim
victim-lru s k j lru v h =
    let chosen : victim_of allkeys_lru (candidates allkeys_lru s.entries) s ≡ some k =
      subst (λ p. victim_of p (candidates p s.entries) s ≡ some k) lru v in
    (
      victim-has s k v,
      victim_of-lru (candidates allkeys_lru s.entries) s k j chosen (candidates-lru s.entries j h),
    )
