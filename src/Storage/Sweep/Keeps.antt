-- ===== src/Storage/Sweep/Keeps.antt =====
-- What the operations on the whole keyspace do to what can be read.
use byo_redis.Prelude.{
  ℕ, ◌≡◌, refl, ap, ◌∙◌, subst, Bool, true, false, Option, none, some, List, [], ◌∷◌, arith,
  if_cases, Bool-cases, inl, inr, length, if◌then◌else◌, leb,
}
use byo_redis.Text.{Bytes, text_eq, text_eq_iff}
use byo_redis.Dict
use byo_redis.Dict.{Dict, bytes_eq, Distinct}
use byo_redis.Storage.View.{live, view}
use byo_redis.Dict.Laws.{pop_absent, get_of_not-has}
use byo_redis.Storage.Types.{KeyEntry}
use byo_redis.Storage.Expiry.{Clock, is_expired}
use byo_redis.Storage.Store.{Store, forget}
use byo_redis.Storage.Store.Keeps.{IsLoadable, copy-eq}
use byo_redis.Storage.Valid.{IsTyped, IsValid, forget-IsValid}
use byo_redis.Storage.Sweep.{
  expired_keys, forget_all, purge, dbsize, live_items, snapshot, expire_sample, active_expire_cycle,
  keyspace_stats,
}

forget_all-IsValid : (keys : List Bytes) {s : Store} → IsValid s → IsValid (forget_all keys s)
unfolding forget_all
forget_all-IsValid [] h = h
forget_all-IsValid (k ∷ ks) h = forget_all-IsValid ks (forget-IsValid k h)

pub purge-IsValid : (clock : Clock) {s : Store} → IsValid s → IsValid (purge clock s)
unfolding purge
purge-IsValid clock {s} h = forget_all-IsValid (expired_keys (clock 0) s.entries) h

expire_sample-IsValid :
    (now : ℕ) (sample : List Bytes) {s : Store} → IsValid s → IsValid (expire_sample now sample s).1
unfolding expire_sample
expire_sample-IsValid now [] h = h
expire_sample-IsValid now (k ∷ ks) {s} h =
    expire_sample-IsValid now ks
      (if_cases IsValid _ {x = forget k s} {y = s} (λ _. forget-IsValid k h) (λ _. h))

pub active_expire_cycle-IsValid :
    (random_sample : List Bytes → ℕ → List Bytes) (clock : Clock) (size : ℕ) {s : Store}
    → IsValid s
    → IsValid (active_expire_cycle random_sample clock size s).1
unfolding active_expire_cycle
active_expire_cycle-IsValid random_sample clock size {s} h =
    expire_sample-IsValid (clock 0)
      (if leb (length (Dict.keys s.entries)) size
        then Dict.keys s.entries
        else random_sample (Dict.keys s.entries) size)
      h

-- The items of a snapshot: the live ones, in order, with no key twice.
module _ (now : ℕ) where
  live_items-has :
      (d : Dict Bytes KeyEntry) (k : Bytes)
      → Dict.has d k ≡ false
      → Dict.has (live_items now d) k ≡ false
  unfolding live_items Dict.has
  live_items-has [] k h = refl
  live_items-has ((j, e) ∷ d) k h = ground (arith, live_items-has d k)

  pub live_items-Distinct : (d : Dict Bytes KeyEntry) → Distinct d → Distinct (live_items now d)
  unfolding live_items
  live_items-Distinct [] h = tt
  live_items-Distinct ((j, e) ∷ d) h =
      ground (arith, live_items-has d j h.0, live_items-Distinct d h.1)

  pub get-live_items :
      (d : Dict Bytes KeyEntry) (k : Bytes)
      → Distinct d
      → Dict.get (live_items now d) k ≡ live now (Dict.get d k)
  unfolding live_items Dict.get
  get-live_items [] k h = refl
  get-live_items ((j, e) ∷ d) k h = ground (
    arith,
    text_eq_iff j k,
    copy-eq e,
    get-live_items d k h.1,
    live_items-has d j h.0,
    get_of_not-has j (live_items now d),
  )

  -- Deleting the expired keys of a dictionary one by one leaves the live items.
  pop_all : List Bytes → Dict Bytes KeyEntry → Dict Bytes KeyEntry
  pop_all [] d = d
  pop_all (k ∷ ks) d = pop_all ks (Dict.pop k d)

  contains : List Bytes → Bytes → Bool
  contains [] j = false
  contains (k ∷ ks) j = if text_eq k j then true else contains ks j

  contains-expired_keys :
      (d : Dict Bytes KeyEntry) (j : Bytes)
      → Dict.has d j ≡ false
      → contains (expired_keys now d) j ≡ false
  unfolding contains expired_keys Dict.has
  contains-expired_keys [] j h = refl
  contains-expired_keys ((k, e) ∷ d) j h = ground (arith, contains-expired_keys d j)

  pop_all-cons :
      (ks : List Bytes) (j : Bytes) (e : KeyEntry) (d : Dict Bytes KeyEntry)
      → contains ks j ≡ false
      → pop_all ks ((j, e) ∷ d) ≡ (j, e) ∷ pop_all ks d
  unfolding pop_all contains Dict.pop
  pop_all-cons [] j e d h = refl
  pop_all-cons (k ∷ ks) j e d h =
      ground (arith, text_eq_iff k j, text_eq_iff j k, pop_all-cons ks j e (Dict.pop k d))

  pop_all-head :
      (ks : List Bytes) (j : Bytes) (e : KeyEntry) (d : Dict Bytes KeyEntry)
      → Dict.has d j ≡ false
      → pop_all (j ∷ ks) ((j, e) ∷ d) ≡ pop_all ks d
  unfolding pop_all Dict.pop
  pop_all-head ks j e d h = ground (arith, text_eq_iff j j, pop_absent j d h)

  pop_all-expired_keys :
      (d : Dict Bytes KeyEntry) → Distinct d → pop_all (expired_keys now d) d ≡ live_items now d
  unfolding expired_keys live_items
  pop_all-expired_keys [] h = unfold pop_all in refl
  pop_all-expired_keys ((j, e) ∷ d) h = elim (Bool-cases (is_expired e.expire_at_ms now)) [
    | inl late ↦ rw late (pop_all-head (expired_keys now d) j e d h.0 ∙ pop_all-expired_keys d h.1)
    | inr here ↦
        rw (here, copy-eq e)
          (pop_all-cons (expired_keys now d) j e d (contains-expired_keys d j h.0)
            ∙ ap (◌∷◌ (j, e)) (pop_all-expired_keys d h.1))
  ]

  entries-forget_all :
      (ks : List Bytes) (s : Store) → (forget_all ks s).entries ≡ pop_all ks s.entries
  unfolding forget_all pop_all forget
  entries-forget_all [] s = refl
  entries-forget_all (k ∷ ks) s = entries-forget_all ks (forget k s)

-- After a purge of a valid store exactly the live entries are there, in the order that they had.
pub purge-live_items :
    (clock : Clock) (s : Store)
    → IsValid s
    → (purge clock s).entries ≡ live_items (clock 0) s.entries
unfolding purge
purge-live_items clock s h =
    entries-forget_all (clock 0) (expired_keys (clock 0) s.entries) s
    ∙ pop_all-expired_keys (clock 0) s.entries h.distinct

-- On a valid store `dbsize` is the number of the entries that have not expired.
pub dbsize-live_items :
    (clock : Clock) (s : Store)
    → IsValid s
    → (dbsize clock s).0 ≡ length (live_items (clock 0) s.entries)
unfolding dbsize
dbsize-live_items clock s h = ap length (purge-live_items clock s h)

live-IsTyped :
    (now : ℕ) (o : Option KeyEntry) (e : KeyEntry)
    → ((x : KeyEntry) → o ≡ some x → IsTyped x)
    → live now o ≡ some e
    → IsTyped e
live-IsTyped now none e h p = absurd (cc)
live-IsTyped now (some x) e h p = let same : x ≡ e = ground arith in subst IsTyped same (h x refl)

-- A snapshot of a valid store can be loaded again: no key stands twice in it and each value has the
-- class of its type. The store that it leaves is valid.
pub snapshot-IsLoadable :
    (clock : Clock) (s : Store)
    → IsValid s
    → IsLoadable (snapshot clock s).0 × IsValid (snapshot clock s).1
unfolding snapshot
snapshot-IsLoadable clock s h = (
  record {
    distinct = live_items-Distinct (clock 0) s.entries h.distinct;
    typed = λ k e p.
        live-IsTyped (clock 0) (Dict.get s.entries k) e (h.typed k)
          (rw (get-live_items (clock 0) s.entries k h.distinct) at p);
  },
  purge-IsValid clock h,
)

-- Under each key a snapshot holds what a client can see there at the time of the snapshot.
pub get-snapshot :
    (clock : Clock) (s : Store) (k : Bytes)
    → IsValid s
    → Dict.get (snapshot clock s).0 k ≡ view (clock 0) s k
unfolding snapshot
get-snapshot clock s k h = get-live_items (clock 0) s.entries k h.distinct

pub dbsize-IsValid : (clock : Clock) {s : Store} → IsValid s → IsValid (dbsize clock s).1
unfolding dbsize
dbsize-IsValid clock h = purge-IsValid clock h

pub keyspace_stats-IsValid :
    (clock : Clock) {s : Store} → IsValid s → IsValid (keyspace_stats clock s).1
unfolding keyspace_stats
keyspace_stats-IsValid clock h = purge-IsValid clock h
