-- ===== src/Storage/Valid.antt =====
-- The invariant of a `Store`, and the four ways in which the operations change it.
use byo_redis.Prelude.{
  ℕ, suc, ◌≤◌, ◌≡◌, true, Option, none, some, arith, Bool-cases, inl, inr, Option-cases, subst,
}
use byo_redis.Text.{Bytes, text_eq, text_eq_iff}
use byo_redis.Dict
use byo_redis.Dict.{Dict, bytes_eq, Distinct}
use byo_redis.Dict.Laws.{get-put, get-pop, has-put, has-pop, put-Distinct, pop-Distinct, has_of_get}
use byo_redis.Storage.Types.{
  RedisType, string, list, hash, RedisValue, bytes, deque, dict, KeyEntry,
}
use byo_redis.Storage.Expiry.{Clock, is_expired}
use byo_redis.Storage.Store.{Store, touch, touch_access, forget, store_entry}

-- The type that an entry names is the class of its value.
abbrev pub MatchesType : RedisType → RedisValue → Type 0
MatchesType string (bytes b) = Unit
MatchesType list (deque items) = Unit
MatchesType hash (dict mapping) = Distinct mapping
MatchesType _ _ = ⊥

abbrev pub IsTyped : KeyEntry → Type 0
IsTyped e = MatchesType e.type e.value

pub record IsValid (s : Store) : Type 0 where
  pub distinct : Distinct s.entries
  -- the access times are kept for exactly the keys that are there
  pub tracked : (k : Bytes) → Dict.has s.last_access k ≡ Dict.has s.entries k
  -- no access lies in the future
  pub recent : (k : Bytes) (n : ℕ) → Dict.get s.last_access k ≡ some n → n ≤ s.access_clock
  pub typed : (k : Bytes) (e : KeyEntry) → Dict.get s.entries k ≡ some e → IsTyped e

pub forget-IsValid : (key : Bytes) {s : Store} → IsValid s → IsValid (forget key s)
unfolding forget
forget-IsValid key {s} h = record {
  distinct = pop-Distinct key s.entries h.distinct;
  tracked = λ k. rw (has-pop key k s.last_access, has-pop key k s.entries, h.tracked k);
  recent = λ k n. ground (arith, get-pop key k s.last_access, h.recent k n);
  typed = λ k e. ground (arith, get-pop key k s.entries, h.typed k e);
}

pub IsTyped-put :
    (key k : Bytes) (entry e : KeyEntry) (d : Dict Bytes KeyEntry)
    → IsTyped entry
    → (Dict.get d k ≡ some e → IsTyped e)
    → Dict.get (Dict.put key entry d) k ≡ some e
    → IsTyped e
IsTyped-put key k entry e d typed old p = elim (Bool-cases (text_eq key k)) [
  | inl same ↦
      let here : some entry ≡ some e = (rw (get-put key k entry d, same) at p) in
      let same_entry : entry ≡ e = cc here in subst IsTyped same_entry typed
  | inr other ↦
      let there : Dict.get d k ≡ some e = (rw (get-put key k entry d, other) at p) in old there
]

-- A write of a new entry, or over an old one.
pub write-IsValid :
    (key : Bytes) (entry : KeyEntry) {s : Store}
    → IsTyped entry
    → IsValid s
    → IsValid (touch_access key (store_entry key entry s))
unfolding touch_access store_entry
write-IsValid key entry {s} typed h = record {
  distinct = put-Distinct key entry s.entries h.distinct;
  tracked = λ k. rw (
    has-put key k (suc s.access_clock) s.last_access,
    has-put key k entry s.entries,
    h.tracked k,
  );
  recent = λ k n. ground (arith, get-put key k (suc s.access_clock) s.last_access, h.recent k n);
  typed = λ k e p. IsTyped-put key k entry e s.entries typed (h.typed k e) p;
}

-- A write to the entry of a key that is there.
pub store_entry-IsValid :
    (key : Bytes) (entry : KeyEntry) {s : Store}
    → IsTyped entry
    → Dict.has s.entries key ≡ true
    → IsValid s
    → IsValid (store_entry key entry s)
unfolding store_entry
store_entry-IsValid key entry {s} typed there h = record {
  distinct = put-Distinct key entry s.entries h.distinct;
  tracked =
      λ k. rw (has-put key k entry s.entries) (ground (arith, h.tracked k, text_eq_iff key k));
  recent = h.recent;
  typed = λ k e p. IsTyped-put key k entry e s.entries typed (h.typed k e) p;
}

pub touch_access-IsValid :
    (key : Bytes) {s : Store}
    → Dict.has s.entries key ≡ true
    → IsValid s
    → IsValid (touch_access key s)
unfolding touch_access
touch_access-IsValid key {s} there h = record {
  distinct = h.distinct;
  tracked = λ k.
      rw (has-put key k (suc s.access_clock) s.last_access)
        (ground (arith, h.tracked k, text_eq_iff key k));
  recent = λ k n. ground (arith, get-put key k (suc s.access_clock) s.last_access, h.recent k n);
  typed = h.typed;
}

-- What `touch` finds is there, before and after, and has the class of its type.
abbrev pub Found : Bytes → Option KeyEntry × Store → Type 0
Found key (none, s') = IsValid s'
Found key (some e, s') =
    IsValid s' × (Dict.has s'.entries key ≡ true) × IsTyped e × (Dict.get s'.entries key ≡ some e)

pub touch-Found :
    (clock : Clock) (key : Bytes) {s : Store} → IsValid s → Found key (touch clock key s)
unfolding touch
touch-Found clock key {s} h = elim (Option-cases (Dict.get s.entries key)) [
  | inl absent ↦ rw absent h
  | inr (e, here) ↦ elim (Bool-cases (is_expired e.expire_at_ms (clock 0))) [
    | inl late ↦ rw (here, late) (forget-IsValid key h)
    | inr live ↦
        let there : Dict.has s.entries key ≡ true = has_of_get key e s.entries here in
        rw (here, live) (touch_access-IsValid key there h, there, h.typed key e here, here)
  ]
]
