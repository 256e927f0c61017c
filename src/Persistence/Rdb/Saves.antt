-- ===== src/Persistence/Rdb/Saves.antt =====
-- When a snapshot can be written, when not, and what a server that restarts from it shows.
use byo_redis.Prelude.{
  ℕ, ◌^◌, ◌≤◌, ◌<◌, ◌≡◌, ◌≢◌, refl, subst, Option, none, some, List, [], ◌∷◌, ◌++◌, length, Result,
  ok, ◌>>=◌, All, arith, Bool-cases, inl, inr, ltb, ltb→lt, Result-cases,
}
use byo_redis.Text.{Bytes, text_eq}
use byo_redis.Dict
use byo_redis.Dict.{Dict, bytes_eq}
use byo_redis.Storage.Types.{
  RedisType, string, list, hash, RedisValue, bytes, deque, dict, KeyEntry,
}
use byo_redis.Storage.Expiry.{Clock}
use byo_redis.Storage.Store.{Store}
use byo_redis.Storage.Store.Keeps.{load_entries-eq, IsLoadable}
use byo_redis.Storage.Sweep.{live_items, snapshot}
use byo_redis.Storage.Sweep.Keeps.{get-live_items, get-snapshot, snapshot-IsLoadable}
use byo_redis.Storage.Valid.{IsTyped, MatchesType, IsValid}
use byo_redis.Storage.View.{live, view}
use byo_redis.Persistence.Rdb.{
  RdbError, u32, magic, version, footer, pack_u32, pack_expire, pack_bytes, pack_items, pack_fields,
  pack_value, pack_entry, pack_entries, dump_rdb_entries, dump_rdb_bytes, load_rdb_bytes,
  load_rdb_into,
}
use byo_redis.Persistence.Rdb.Crc32.{crc32, crc32-lt}
use byo_redis.Persistence.Rdb.RoundTrip.{load_rdb_bytes-dump_rdb_entries}

abbrev Succeeds : Result RdbError Bytes → Type 0
Succeeds r = (bs : Bytes) × (r ≡ ok bs)

seq :
    (r : Result RdbError Bytes) (f : Bytes → Result RdbError Bytes)
    → Succeeds r
    → ((a : Bytes) → Succeeds (f a))
    → Succeeds (r >>= f)
seq r f (a, p) k = rw p (k a)

-- The four-byte counts and lengths of a snapshot.
abbrev pub FitsSize : Bytes → Type 0
FitsSize b = length b < 2 ^ 32

abbrev pub FitsPair : Bytes × Bytes → Type 0
FitsPair (f, v) = FitsSize f × FitsSize v

abbrev pub FitsPayload : RedisValue → Type 0
FitsPayload (bytes b) = FitsSize b
FitsPayload (deque xs) = (length xs < 2 ^ 32) × All FitsSize xs
FitsPayload (dict m) = (length m < 2 ^ 32) × All FitsPair m

abbrev pub FitsExpire : Option ℕ → Type 0
FitsExpire none = Unit
FitsExpire (some at) = at < 2 ^ 63

-- An entry that has room in the fields of a record of a snapshot.
abbrev pub FitsRecord : Bytes × KeyEntry → Type 0
FitsRecord (key, e) = FitsSize key × FitsExpire e.expire_at_ms × FitsPayload e.value × IsTyped e

pack_u32-Succeeds : (n : ℕ) → n < 2 ^ 32 → Succeeds (pack_u32 n)
unfolding pack_u32
pack_u32-Succeeds n h = elim (Bool-cases (ltb n (2 ^ 32))) [
  | inl e ↦ rw e (u32 n, refl)
  | inr e ↦ absurd (ground arith)
]

pack_expire-Succeeds : (at : Option ℕ) → FitsExpire at → Succeeds (pack_expire at)
unfolding pack_expire
pack_expire-Succeeds none h = (_, refl)
pack_expire-Succeeds (some at) h = elim (Bool-cases (ltb at (2 ^ 63))) [
  | inl e ↦ rw e (_, refl)
  | inr e ↦ absurd (ground arith)
]

pack_bytes-Succeeds : (b : Bytes) → FitsSize b → Succeeds (pack_bytes b)
unfolding pack_bytes
pack_bytes-Succeeds b h =
    seq (pack_u32 (length b)) _ (pack_u32-Succeeds (length b) h) (λ a. (_, refl))

pack_items-Succeeds : (xs : List Bytes) → All FitsSize xs → Succeeds (pack_items xs)
unfolding pack_items
pack_items-Succeeds [] h = (_, refl)
pack_items-Succeeds (x ∷ xs) h =
    seq (pack_bytes x) _ (pack_bytes-Succeeds x h.0)
      (λ a. seq (pack_items xs) _ (pack_items-Succeeds xs h.1) (λ b. (_, refl)))

pack_fields-Succeeds : (m : Dict Bytes Bytes) → All FitsPair m → Succeeds (pack_fields m)
unfolding pack_fields
pack_fields-Succeeds [] h = (_, refl)
pack_fields-Succeeds ((f, v) ∷ m) h = seq (pack_bytes f) _ (pack_bytes-Succeeds f h.0.0) (λ a.
    seq (pack_bytes v) _ (pack_bytes-Succeeds v h.0.1)
      (λ b. seq (pack_fields m) _ (pack_fields-Succeeds m h.1) (λ c. (_, refl))))

pack_value-Succeeds :
    (t : RedisType) (v : RedisValue) → MatchesType t v → FitsPayload v → Succeeds (pack_value t v)
unfolding pack_value
pack_value-Succeeds string (bytes b) m h = pack_bytes-Succeeds b h
pack_value-Succeeds list (deque xs) m h =
    seq (pack_u32 (length xs)) _ (pack_u32-Succeeds (length xs) h.0)
      (λ a. seq (pack_items xs) _ (pack_items-Succeeds xs h.1) (λ b. (_, refl)))
pack_value-Succeeds hash (dict d) m h =
    seq (pack_u32 (length d)) _ (pack_u32-Succeeds (length d) h.0)
      (λ a. seq (pack_fields d) _ (pack_fields-Succeeds d h.1) (λ b. (_, refl)))
pack_value-Succeeds string (deque xs) m h = absurd m
pack_value-Succeeds string (dict d) m h = absurd m
pack_value-Succeeds list (bytes b) m h = absurd m
pack_value-Succeeds list (dict d) m h = absurd m
pack_value-Succeeds hash (bytes b) m h = absurd m
pack_value-Succeeds hash (deque xs) m h = absurd m

pack_entries-Succeeds : (d : Dict Bytes KeyEntry) → All FitsRecord d → Succeeds (pack_entries d)
unfolding pack_entries pack_entry
pack_entries-Succeeds [] h = (_, refl)
pack_entries-Succeeds ((key, e) ∷ d) ((k, at, v, typed), rest) =
    seq (pack_entry key e) _
      (seq (pack_bytes key) _ (pack_bytes-Succeeds key k) (λ a.
        seq (pack_expire e.expire_at_ms) _ (pack_expire-Succeeds e.expire_at_ms at) (λ b.
          seq (pack_value e.type e.value) _ (pack_value-Succeeds e.type e.value typed v)
            (λ c. (_, refl)))))
      (λ a. seq (pack_entries d) _ (pack_entries-Succeeds d rest) (λ b. (_, refl)))

-- A snapshot of well-typed entries that fit the fields of their records, fewer than 2 ^ 32 of them, is written.
pub dump_rdb_entries-Succeeds :
    (d : Dict Bytes KeyEntry)
    → length d < 2 ^ 32
    → All FitsRecord d
    → (bs : Bytes) × (dump_rdb_entries d ≡ ok bs)
unfolding dump_rdb_entries
dump_rdb_entries-Succeeds d n h = seq (pack_u32 (length d)) _ (pack_u32-Succeeds (length d) n) (λ a.
    seq (pack_entries d) _ (pack_entries-Succeeds d h) (λ b.
      let body : Bytes = magic ++ (u32 version ++ (a ++ b)) in
      seq (pack_u32 (crc32 body)) (λ c. ok (body ++ (c ++ footer)))
        (pack_u32-Succeeds (crc32 body) (crc32-lt body)) (λ c. (_, refl))))

FitsExpire-of_ok :
    (f : Bytes → Result RdbError Bytes) (at : Option ℕ) (bs : Bytes)
    → (pack_expire at >>= f) ≡ ok bs
    → FitsExpire at
unfolding pack_expire
FitsExpire-of_ok f none bs h = tt
FitsExpire-of_ok f (some at) bs h = elim (Bool-cases (ltb at (2 ^ 63))) [
  | inl small ↦ ltb→lt at (2 ^ 63) small
  | inr big ↦ absurd (cc (rw big at h))
]

pack_entry-FitsExpire :
    (key : Bytes) (e : KeyEntry) (bs : Bytes) → pack_entry key e ≡ ok bs → FitsExpire e.expire_at_ms
unfolding pack_entry
pack_entry-FitsExpire key e bs h = elim (Result-cases (pack_bytes key)) [
  | inr (x, failed) ↦ absurd (cc (rw failed at h))
  | inl (a, packed) ↦ FitsExpire-of_ok _ e.expire_at_ms bs (rw packed at h)
]

pack_entries-FitsExpire :
    (d : Dict Bytes KeyEntry) (bs key : Bytes) (e : KeyEntry)
    → pack_entries d ≡ ok bs
    → Dict.get d key ≡ some e
    → FitsExpire e.expire_at_ms
unfolding pack_entries Dict.get
pack_entries-FitsExpire [] bs key e h p = absurd (cc p)
pack_entries-FitsExpire ((k, x) ∷ d) bs key e h p = elim (Result-cases (pack_entry k x)) [
  | inr (_, failed) ↦ absurd (cc (rw failed at h))
  | inl (a, packed) ↦ elim (Result-cases (pack_entries d)) [
    | inr (_, failed) ↦ absurd (cc (rw (packed, failed) at h))
    | inl (b, rest) ↦ elim (Bool-cases (text_eq k key)) [
      | inl same ↦
          let here : some x ≡ some e = (rw same at p) in
          let entry : x ≡ e = cc here in
          subst (λ (y : KeyEntry). FitsExpire y.expire_at_ms) entry
            (pack_entry-FitsExpire k x a packed)
      | inr other ↦ pack_entries-FitsExpire d b key e rest (rw other at p)
    ]
  ]
]

live-twice : (now : ℕ) (o : Option KeyEntry) → live now (live now o) ≡ live now o
live-twice now none = refl
live-twice now (some e) = ground arith

-- No snapshot is written while an entry has an expiry time of 2 ^ 63 ms or more.
pub dump_rdb_entries-expire_overflow :
    (d : Dict Bytes KeyEntry) (key bs : Bytes) (e : KeyEntry) (at : ℕ)
    → Dict.get d key ≡ some e
    → e.expire_at_ms ≡ some at
    → 2 ^ 63 ≤ at
    → dump_rdb_entries d ≢ ok bs
unfolding dump_rdb_entries
dump_rdb_entries-expire_overflow d key bs e at p q big h =
    elim (Result-cases (pack_u32 (length d))) [
      | inr (_, failed) ↦ absurd (cc (rw failed at h))
      | inl (n, packed) ↦ elim (Result-cases (pack_entries d)) [
        | inr (_, failed) ↦ absurd (cc (rw (packed, failed) at h))
        | inl (b, records) ↦
            let fits : at < 2 ^ 63 = (rw q at (pack_entries-FitsExpire d b key e records p)) in
            absurd (omega arith)
      ]
    ]

load_rdb_into-ok :
    (max : ℕ) (clock : Clock) (content : Bytes) (s : Store) (d : Dict Bytes KeyEntry)
    → load_rdb_bytes max clock content ≡ ok d
    → (load_rdb_into max clock content s).1.entries ≡ d
unfolding load_rdb_into
load_rdb_into-ok max clock content s d h = rw (load_rdb_into, h) (load_entries-eq d s)

-- A server with a valid store that has written a snapshot, and starts again from the file within the
-- limit on its size, shows under every key what it showed when it wrote, but for what has expired
-- until then.
pub load_rdb_into-dump_rdb_bytes :
    (max : ℕ) (clock later : Clock) (s fresh : Store) (bs key : Bytes)
    → IsValid s
    → (dump_rdb_bytes clock s).0 ≡ ok bs
    → length bs ≤ max
    → view (later 0) (load_rdb_into max later bs fresh).1 key
      ≡ live (later 0) (view (clock 0) s key)
unfolding dump_rdb_bytes
load_rdb_into-dump_rdb_bytes max clock later s fresh bs key h dumped fits =
    let entries : Dict Bytes KeyEntry = (snapshot clock s).0 in
    let loadable : IsLoadable entries = (snapshot-IsLoadable clock s h).0 in
    rw
      (
        load_rdb_into-ok max later bs fresh (live_items (later 0) entries)
            (load_rdb_bytes-dump_rdb_entries max later entries bs loadable dumped fits),
        get-live_items (later 0) entries key loadable.distinct,
        get-snapshot clock s key h,
      )
      (live-twice (later 0) (view (clock 0) s key))
