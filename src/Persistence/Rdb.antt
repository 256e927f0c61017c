-- ===== src/Persistence/Rdb.antt =====
-- byo_redis/persistence/rdb.py: the BYOR snapshot format. An offset in the buffer is the suffix that
-- starts there.
pub mod Crc32
pub mod Numbers
pub mod Blobs
pub mod RoundTrip
pub mod Saves
pub mod Reads
use byo_redis.Prelude.{
  ℕ, zero, suc, ◌+◌, ◌-◌, ◌*◌, ◌/◌, ◌%◌, ◌^◌, ◌≡◌, refl, Bool, true, false, not, ◌||◌, ◌&&◌, Option,
  none, some, List, [], ◌∷◌, ◌++◌, ltb, leb, ◌==◌, if◌then◌else◌, length, take, drop, ℤ, pos,
  negsuc, Result, ok, raise, ◌>>=◌, result_map,
}
use byo_redis.Text.{Bytes, codes, text_eq}
use byo_redis.Dict
use byo_redis.Dict.{Dict, bytes_eq}
use byo_redis.Storage.Types.{
  RedisType, string, list, hash, RedisValue, bytes, deque, dict, KeyEntry,
}
use byo_redis.Storage.Expiry.{Clock, is_expired}
use byo_redis.Storage.Store.{Store, load_entries}
use byo_redis.Storage.Sweep.{snapshot}
use byo_redis.Persistence.Rdb.Crc32.{crc32}

-- The messages of `RdbError`, and two exceptions that are none: `struct.error` of a number that does
-- not fit its field, and the AssertionError of `assert isinstance`.
pub data RdbError : Type 0 where
  unexpected_eof too_short bad_magic checksum_mismatch missing_footer trailing_bytes : RdbError
  exceeds_limit unsupported_version unknown_type : ℕ → RdbError
  struct_error assertion : RdbError

abbrev pub magic : Bytes
magic = codes "BYOR"

abbrev pub footer : Bytes
footer = codes "EOF\n"

abbrev pub version : ℕ
version = 2

abbrev pub legacy_version : ℕ
legacy_version = 1

-- Four bytes, the least first.
abbrev pub u32 : ℕ → Bytes
u32 n = (n % 256) ∷ (n / 256 % 256) ∷ (n / 65536 % 256) ∷ (n / 16777216 % 256) ∷ []

-- struct.pack("<I", n)
unfoldable pub pack_u32 : ℕ → Result RdbError Bytes
pack_u32 n = if ltb n (2 ^ 32) then ok (u32 n) else raise struct_error

-- struct.pack("<q", …) of an expiry time, or of -1 for none
unfoldable pub pack_expire : Option ℕ → Result RdbError Bytes
pack_expire none = ok (u32 (2 ^ 32 - 1) ++ u32 (2 ^ 32 - 1))
pack_expire (some at) =
    if ltb at (2 ^ 63) then ok (u32 (at % 2 ^ 32) ++ u32 (at / 2 ^ 32)) else raise struct_error

unfoldable pub pack_bytes : Bytes → Result RdbError Bytes
pack_bytes b = do size ← pack_u32 (length b); ok (size ++ b)

unfoldable pub pack_items : List Bytes → Result RdbError Bytes
unfolding pack_bytes
pack_items [] = ok []
pack_items (x ∷ xs) = do a ← pack_bytes x; b ← pack_items xs; ok (a ++ b)

unfoldable pub pack_fields : Dict Bytes Bytes → Result RdbError Bytes
unfolding pack_bytes
pack_fields [] = ok []
pack_fields ((f, v) ∷ m) = do
  a ← pack_bytes f
  b ← pack_bytes v
  c ← pack_fields m
  ok (a ++ (b ++ c))

unfoldable pub type_id : RedisType → ℕ
type_id string = 1
type_id list = 2
type_id hash = 3

-- The payload that the type of the entry asks for.
unfoldable pub pack_value : RedisType → RedisValue → Result RdbError Bytes
unfolding pack_bytes pack_items pack_fields pack_u32
pack_value string (bytes b) = pack_bytes b
pack_value list (deque items) = do n ← pack_u32 (length items); b ← pack_items items; ok (n ++ b)
pack_value hash (dict m) = do n ← pack_u32 (length m); b ← pack_fields m; ok (n ++ b)
pack_value _ _ = raise assertion

unfoldable pub pack_entry : Bytes → KeyEntry → Result RdbError Bytes
unfolding pack_bytes pack_expire pack_value type_id
pack_entry key e = do
  k ← pack_bytes key
  at ← pack_expire e.expire_at_ms
  v ← pack_value e.type e.value
  ok (k ++ type_id e.type ∷ (at ++ v))

unfoldable pub pack_entries : Dict Bytes KeyEntry → Result RdbError Bytes
unfolding pack_entry
pack_entries [] = ok []
pack_entries ((k, e) ∷ d) = do a ← pack_entry k e; b ← pack_entries d; ok (a ++ b)

unfoldable pub dump_rdb_entries : Dict Bytes KeyEntry → Result RdbError Bytes
unfolding pack_entries pack_u32 crc32
dump_rdb_entries entries = do
  count ← pack_u32 (length entries)
  records ← pack_entries entries
  let body = magic ++ (u32 version ++ (count ++ records))
  checksum ← pack_u32 (crc32 body)
  ok (body ++ (checksum ++ footer))

unfoldable pub dump_rdb_bytes : Clock → Store → Result RdbError Bytes × Store
unfolding dump_rdb_entries snapshot
dump_rdb_bytes clock s = let (entries, s') = snapshot clock s in (dump_rdb_entries entries, s')

-- What is read off the front of a buffer, and what is left.
abbrev pub Read : Type 0 → Type 0
Read A = Result RdbError (A × Bytes)

unfoldable pub read_exact : ℕ → Bytes → Read Bytes
read_exact n buf = if ltb (length buf) n then raise unexpected_eof else ok (take n buf, drop n buf)

-- The number that bytes spell, the least first.
abbrev pub little : Bytes → ℕ
little [] = 0
little (b ∷ bs) = b + 256 * little bs

unfoldable pub read_u32 : Bytes → Read ℕ
unfolding read_exact
read_u32 buf = do (raw, rest) ← read_exact 4 buf; ok (little raw, rest)

unfoldable pub read_i64 : Bytes → Read ℤ
unfolding read_exact
read_i64 buf = do
  (raw, rest) ← read_exact 8 buf
  let n = little raw
  ok ((if ltb n (2 ^ 63) then pos n else negsuc (2 ^ 64 - n - 1)), rest)

unfoldable pub read_blob : Bytes → Read Bytes
unfolding read_u32
read_blob buf = do (n, rest) ← read_u32 buf; read_exact n rest

-- for _i in range(n): items.append(item)
unfoldable pub read_items : ℕ → Bytes → Read (List Bytes)
unfolding read_blob
read_items zero buf = ok ([], buf)
read_items (suc n) buf = do
  (item, rest) ← read_blob buf
  (items, rest') ← read_items n rest
  ok (item ∷ items, rest')

-- for _i in range(n): mapping[field] = value
unfoldable pub read_fields : ℕ → Dict Bytes Bytes → Bytes → Read (Dict Bytes Bytes)
unfolding read_blob
read_fields zero mapping buf = ok (mapping, buf)
read_fields (suc n) mapping buf = do
  (field, rest) ← read_blob buf
  (value, rest') ← read_blob rest
  read_fields n (Dict.put field value mapping) rest'

-- None if expire_at < 0 else expire_at
unfoldable pub expiry_of : ℤ → Option ℕ
expiry_of (pos n) = some n
expiry_of (negsuc n) = none

unfoldable pub read_value : ℕ → Option ℕ → Bytes → Read KeyEntry
unfolding read_blob read_u32 read_items read_fields
read_value id at buf =
    if id == 1
    then (do
      (b, rest) ← read_blob buf
      ok (record { type = string; value = bytes b; expire_at_ms = at }, rest))
    else if id == 2
    then (do
      (n, rest) ← read_u32 buf
      (items, rest') ← read_items n rest
      ok (record { type = list; value = deque items; expire_at_ms = at }, rest'))
    else if id == 3
    then (do
      (n, rest) ← read_u32 buf
      (mapping, rest') ← read_fields n [] rest
      ok (record { type = hash; value = dict mapping; expire_at_ms = at }, rest'))
    else raise (unknown_type id)

unfoldable pub read_entry : Bytes → Read (Bytes × KeyEntry)
unfolding read_blob read_i64 read_value expiry_of
read_entry buf = do
  (key, r1) ← read_blob buf
  (id, r2) ← read_exact 1 r1
  (at, r3) ← read_i64 r2
  (entry, r4) ← read_value (little id) (expiry_of at) r3
  ok ((key, entry), r4)

-- The loop over the records; what has expired is skipped.
unfoldable pub read_entries : ℕ → ℕ → Dict Bytes KeyEntry → Bytes → Read (Dict Bytes KeyEntry)
unfolding read_entry is_expired
read_entries now zero entries buf = ok (entries, buf)
read_entries now (suc n) entries buf = do
  (item, rest) ← read_entry buf
  read_entries now n
      (if is_expired item.1.expire_at_ms now then entries else Dict.put item.0 item.1 entries) rest

-- The computed checksum against the four bytes of the file.
unfoldable pub compare_sum : ℕ → Bytes → Bytes → Read (Unit {0})
compare_sum actual raw rest =
    if actual == little raw then ok (tt, rest) else raise checksum_mismatch

-- The checksum of version 2, over the bytes before it.
unfoldable pub check_sum : ℕ → Bytes → Bytes → Read (Unit {0})
unfolding read_exact crc32 compare_sum
check_sum v whole buf = if ltb v 2 then ok (tt, buf) else (do
  (raw, rest) ← read_exact 4 buf
  compare_sum (crc32 (take (length whole - length buf) whole)) raw rest)

-- The last bytes read, and what is behind them.
unfoldable pub compare_footer : Bytes → Bytes → Result RdbError (Unit {0})
compare_footer raw rest =
    if not (text_eq raw footer)
    then raise missing_footer
    else if not (length rest == 0)
    then raise trailing_bytes
    else ok tt

unfoldable pub check_footer : Bytes → Result RdbError (Unit {0})
unfolding read_exact compare_footer
check_footer buf = do (raw, rest) ← read_exact (length footer) buf; compare_footer raw rest

-- The body of the loader, behind its two tests of the size.
unfoldable pub read_rdb : ℕ → Bytes → Result RdbError (Dict Bytes KeyEntry)
unfolding read_u32 read_entries check_sum check_footer
read_rdb now buf = do
  (m, r1) ← read_exact 4 buf
  if not (text_eq m magic) then raise bad_magic else do
    (v, r2) ← read_u32 r1
    if not (v == legacy_version || v == version) then raise (unsupported_version v) else do
      (count, r3) ← read_u32 r2
      (entries, r4) ← read_entries now count [] r3
      (_, r5) ← check_sum v buf r4
      _ ← check_footer r5
      ok entries

unfoldable pub load_rdb_bytes : ℕ → Clock → Bytes → Result RdbError (Dict Bytes KeyEntry)
unfolding read_rdb
load_rdb_bytes max_file_bytes clock buf =
    if ltb max_file_bytes (length buf)
    then raise (exceeds_limit (length buf))
    else if ltb (length buf) 12
    then raise too_short
    else read_rdb (clock 0) buf

-- `load_rdb_into`, on the content of the file
unfoldable pub load_rdb_into : ℕ → Clock → Bytes → Store → Result RdbError ℕ × Store
unfolding load_rdb_bytes load_entries
load_rdb_into max_file_bytes clock content s = elim (load_rdb_bytes max_file_bytes clock content) [
  | ok entries ↦ (ok (length entries), load_entries entries s)
  | raise e ↦ (raise e, s)
]
