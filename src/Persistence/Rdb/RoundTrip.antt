-- ===== src/Persistence/Rdb/RoundTrip.antt =====
-- A snapshot that was written is loaded again: `load_rdb_bytes` after `dump_rdb_bytes`.
use byo_redis.Prelude.{
  ℕ, suc, ◌-◌, ◌^◌, ◌≤◌, ◌<◌, ◌≡◌, refl, ap, ◌∙◌, true, false, some, [], ◌∷◌, ◌++◌, length,
  length-append, take, take_append, Result, ok, raise, ◌>>=◌, append_assoc, All, arith, Bool-cases,
  inl, inr, if◌then◌else◌, ltb, ltb→lt, Result-cases, ==_iff,
}
use byo_redis.Text.{Bytes, text_eq, text_eq_iff}
use byo_redis.Dict
use byo_redis.Dict.{Dict, bytes_eq, Distinct}
use byo_redis.Dict.Laws.{beq_refl, has_of_get}
use byo_redis.Dict.Load.{put_all, put_all-nil}
use byo_redis.Storage.Types.{KeyEntry}
use byo_redis.Storage.Expiry.{Clock, is_expired}
use byo_redis.Storage.Store.Keeps.{IsLoadable, copy-eq}
use byo_redis.Storage.Sweep.{live_items}
use byo_redis.Storage.Sweep.Keeps.{live_items-Distinct}
use byo_redis.Storage.Valid.{IsTyped}
use byo_redis.Persistence.Rdb.{
  RdbError, u32, magic, footer, version, pack_u32, pack_entry, pack_entries, dump_rdb_entries,
  read_exact, read_entry, read_entries, compare_sum, check_sum, compare_footer, check_footer,
  read_rdb, load_rdb_bytes,
}
use byo_redis.Persistence.Rdb.Crc32.{crc32, crc32-lt}
use byo_redis.Persistence.Rdb.Numbers.{ReadsBack, read_exact-append, read_u32-u32, little-u32}
use byo_redis.Persistence.Rdb.Blobs.{read_entry-pack_entry}

entries-ReadsBack :
    (now n : ℕ) (key : Bytes) (e : KeyEntry) (acc all : Dict Bytes KeyEntry)
    (r t : Result RdbError Bytes)
    → ReadsBack read_entry (key, e) r
    → ReadsBack
        (read_entries now n (if is_expired e.expire_at_ms now then acc else Dict.put key e acc))
        all
        t
    → ReadsBack (read_entries now (suc n) acc) all (r >>= λ a. t >>= λ b. ok (a ++ b))
unfolding read_entries
entries-ReadsBack now n key e acc all (raise x) t h k = tt
entries-ReadsBack now n key e acc all (ok a) (raise x) h k = tt
entries-ReadsBack now n key e acc all (ok a) (ok b) h k =
    λ rest. rw (append_assoc, h (b ++ rest)) (k rest)

put_all-skip :
    (now : ℕ) (key : Bytes) (e : KeyEntry) (d acc : Dict Bytes KeyEntry)
    → put_all (live_items now ((key, e) ∷ d)) acc
      ≡ put_all
          (live_items now d)
          (if is_expired e.expire_at_ms now then acc else Dict.put key e acc)
unfolding live_items
put_all-skip now key e d acc = elim (Bool-cases (is_expired e.expire_at_ms now)) [
  | inl late ↦ rw late refl
  | inr here ↦ rw (here, copy-eq e) refl
]

read_entries-pack_entries :
    (now : ℕ) (d acc : Dict Bytes KeyEntry)
    → All (λ (p : Bytes × KeyEntry). IsTyped p.1) d
    → ReadsBack (read_entries now (length d) acc) (put_all (live_items now d) acc) (pack_entries d)
unfolding read_entries pack_entries
read_entries-pack_entries now [] acc h = unfold live_items in (λ rest. refl)
read_entries-pack_entries now ((key, e) ∷ d) acc h = rw (put_all-skip now key e d acc) (
    entries-ReadsBack now (length d) key e acc
      (put_all (live_items now d)
        (if is_expired e.expire_at_ms now then acc else Dict.put key e acc))
      (pack_entry key e) (pack_entries d) (read_entry-pack_entry key e h.0)
      (read_entries-pack_entries now d
        (if is_expired e.expire_at_ms now then acc else Dict.put key e acc) h.1))

IsTyped-All :
    (d : Dict Bytes KeyEntry)
    → Distinct d
    → ((k : Bytes) (e : KeyEntry) → Dict.get d k ≡ some e → IsTyped e)
    → All (λ (p : Bytes × KeyEntry). IsTyped p.1) d
unfolding Dict.get
IsTyped-All [] h typed = tt
IsTyped-All ((key, e) ∷ d) h typed = (
  typed key e (rw (beq_refl key) refl),
  IsTyped-All d h.1 (λ k x p. typed k x (elim (Bool-cases (text_eq key k)) [
    | inl same ↦
        let equal : key ≡ k = (text_eq_iff key k).0 same in
        let there : Dict.has d key ≡ true = (rw equal (has_of_get k x d p)) in
        absurd (cc (there, h.0))
    | inr other ↦ rw other p
  ])),
)

-- The loader's steps over the parts of a file.
module _ (count : ℕ) (records : Bytes) where
  abbrev body : Bytes
  body = magic ++ (u32 version ++ (u32 count ++ records))

  abbrev file : Bytes
  file = body ++ (u32 (crc32 body) ++ footer)

  check_sum-crc32 :
      (rest : Bytes)
      → check_sum version (body ++ (u32 (crc32 body) ++ rest)) (u32 (crc32 body) ++ rest)
        ≡ ok (tt, rest)
  unfolding check_sum compare_sum crc32
  check_sum-crc32 rest =
      let sum : Bytes = u32 (crc32 body) ++ rest in
      let front : take (length (body ++ sum) - length sum) (body ++ sum) ≡ body =
        ap (λ n. take n (body ++ sum)) {y = length body} (omega (arith, length-append body sum))
        ∙ take_append body sum in
      rw
        (
          read_exact-append (u32 (crc32 body)) rest,
          front,
          little-u32 (crc32 body) (crc32-lt body),
          (==_iff (crc32 body) (crc32 body)).1 refl,
        )
        refl

  check_footer-footer : check_footer footer ≡ ok tt
  unfolding check_footer read_exact compare_footer
  check_footer-footer = refl

  read_rdb-file :
      (now : ℕ) (entries : Dict Bytes KeyEntry)
      → count < 2 ^ 32
      → ((rest : Bytes) → read_entries now count [] (records ++ rest) ≡ ok (entries, rest))
      → read_rdb now file ≡ ok entries
  unfolding read_rdb
  read_rdb-file now entries small h =
      let sum : Bytes = u32 (crc32 body) ++ footer in
      rw
        (
          read_exact-append magic (u32 version ++ (u32 count ++ (records ++ sum))),
          read_u32-u32 version (u32 count ++ (records ++ sum)) (omega arith),
          read_u32-u32 count (records ++ sum) small,
          h sum,
        )
        (ap (λ r. r >>= λ x. check_footer x.1 >>= λ _. ok entries) (check_sum-crc32 footer)
          ∙ ap (λ r. r >>= λ _. ok entries) check_footer-footer)

ltb_of_lt : (a b : ℕ) → a < b → ltb a b ≡ true
ltb_of_lt a b h = ground arith

-- What `dump_rdb_entries` has written when it returns.
dump_rdb_entries-file :
    (entries : Dict Bytes KeyEntry) (bs : Bytes)
    → dump_rdb_entries entries ≡ ok bs
    → (records : Bytes) × (pack_entries entries ≡ ok records)
      × (length entries < 2 ^ 32)
      × (bs ≡ file (length entries) records)
unfolding dump_rdb_entries pack_u32
dump_rdb_entries-file entries bs h = elim (Bool-cases (ltb (length entries) (2 ^ 32))) [
  | inr big ↦ absurd (cc (rw big at h))
  | inl small ↦ elim (Result-cases (pack_entries entries)) [
    | inr (e, failed) ↦ absurd (cc (rw (small, failed) at h))
    | inl (records, packed) ↦
        let sum_fits : ltb (crc32 (body (length entries) records)) (2 ^ 32) ≡ true =
          ltb_of_lt _ _ (crc32-lt (body (length entries) records)) in
        let written : ok (file (length entries) records) ≡ ok bs =
          (rw (small, packed, sum_fits) at h) in
        let same : bs ≡ file (length entries) records = cc written in
        (records, packed, ltb→lt (length entries) (2 ^ 32) small, same)
  ]
]

leb_file : (count : ℕ) (records : Bytes) → 12 ≤ length (file count records)
leb_file count records = omega arith

-- Loadable entries that a snapshot was written from are loaded again, when the file is within the limit:
-- in their order, but for those that have expired at the time of the loading.
pub load_rdb_bytes-dump_rdb_entries :
    (max : ℕ) (clock : Clock) (entries : Dict Bytes KeyEntry) (bs : Bytes)
    → IsLoadable entries
    → dump_rdb_entries entries ≡ ok bs
    → length bs ≤ max
    → load_rdb_bytes max clock bs ≡ ok (live_items (clock 0) entries)
unfolding load_rdb_bytes
load_rdb_bytes-dump_rdb_entries max clock entries bs h dumped fits =
    let (records, packed, small, shape) = dump_rdb_entries-file entries bs dumped in
    let long : 12 ≤ length bs = (rw shape (leb_file (length entries) records)) in
    let not_big : ltb max (length bs) ≡ false = ground arith in
    let not_short : ltb (length bs) 12 ≡ false = ground arith in
    let read : (rest : Bytes)
        → read_entries (clock 0) (length entries) [] (records ++ rest)
          ≡ ok (put_all (live_items (clock 0) entries) [], rest) =
      (rw packed at (
        read_entries-pack_entries (clock 0) entries [] (IsTyped-All entries h.distinct h.typed))) in
    let live_again : put_all (live_items (clock 0) entries) [] ≡ live_items (clock 0) entries =
      put_all-nil _ (live_items-Distinct (clock 0) entries h.distinct) in
    rw (not_big, not_short, shape)
      (read_rdb-file (length entries) records (clock 0) (live_items (clock 0) entries) small
        (rw live_again at read))
