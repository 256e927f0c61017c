-- ===== src/Persistence/Rdb/Blobs.antt =====
-- Blobs, payloads and records of a snapshot are read back as they were written.
use byo_redis.Prelude.{
  ℕ, suc, ◌≡◌, refl, subst, Option, none, some, List, [], ◌∷◌, ◌++◌, length, Result, ok, raise,
  ◌>>=◌, append_assoc,
}
use byo_redis.Text.{Bytes}
use byo_redis.Dict
use byo_redis.Dict.{Dict, bytes_eq, Distinct}
use byo_redis.Dict.Load.{put_all, put_all-nil}
use byo_redis.Storage.Types.{
  RedisType, string, list, hash, RedisValue, bytes, deque, dict, KeyEntry,
}
use byo_redis.Storage.Valid.{MatchesType, IsTyped}
use byo_redis.Persistence.Rdb.{
  RdbError, pack_u32, pack_bytes, pack_items, pack_fields, type_id, pack_value, pack_entry,
  pack_expire, little, read_u32, read_blob, read_items, read_fields, read_value, read_i64,
  read_entry, expiry_of,
}
use byo_redis.Persistence.Rdb.Numbers.{
  ReadsBack, read_exact-append, read_u32-pack_u32, expire_number, read_i64-pack_expire,
}

blob-ReadsBack :
    (b : Bytes) (r : Result RdbError Bytes)
    → ReadsBack read_u32 (length b) r
    → ReadsBack read_blob b (r >>= λ size. ok (size ++ b))
unfolding read_blob
blob-ReadsBack b (raise e) h = tt
blob-ReadsBack b (ok size) h =
    λ rest. rw (append_assoc, h (b ++ rest), read_exact-append b rest) refl

pub read_blob-pack_bytes : (b : Bytes) → ReadsBack read_blob b (pack_bytes b)
unfolding pack_bytes
read_blob-pack_bytes b = blob-ReadsBack b (pack_u32 (length b)) (read_u32-pack_u32 (length b))

items-ReadsBack :
    (n : ℕ) (x : Bytes) (xs : List Bytes) (r t : Result RdbError Bytes)
    → ReadsBack read_blob x r
    → ReadsBack (read_items n) xs t
    → ReadsBack (read_items (suc n)) (x ∷ xs) (r >>= λ a. t >>= λ b. ok (a ++ b))
unfolding read_items
items-ReadsBack n x xs (raise e) t h k = tt
items-ReadsBack n x xs (ok a) (raise e) h k = tt
items-ReadsBack n x xs (ok a) (ok b) h k = λ rest. rw (append_assoc, h (b ++ rest), k rest) refl

read_items-pack_items : (xs : List Bytes) → ReadsBack (read_items (length xs)) xs (pack_items xs)
unfolding read_items pack_items
read_items-pack_items [] = λ rest. refl
read_items-pack_items (x ∷ xs) =
    items-ReadsBack (length xs) x xs (pack_bytes x) (pack_items xs) (read_blob-pack_bytes x)
      (read_items-pack_items xs)

fields-ReadsBack :
    (n : ℕ) (f v : Bytes) (acc all : Dict Bytes Bytes) (r s t : Result RdbError Bytes)
    → ReadsBack read_blob f r
    → ReadsBack read_blob v s
    → ReadsBack (read_fields n (Dict.put f v acc)) all t
    → ReadsBack (read_fields (suc n) acc) all (r >>= λ a. s >>= λ b. t >>= λ c. ok (a ++ (b ++ c)))
unfolding read_fields
fields-ReadsBack n f v acc all (raise e) s t h k m = tt
fields-ReadsBack n f v acc all (ok a) (raise e) t h k m = tt
fields-ReadsBack n f v acc all (ok a) (ok b) (raise e) h k m = tt
fields-ReadsBack n f v acc all (ok a) (ok b) (ok c) h k m =
    λ rest. rw (append_assoc, h ((b ++ c) ++ rest), append_assoc, k (c ++ rest)) (m rest)

read_fields-pack_fields :
    (m acc : Dict Bytes Bytes)
    → ReadsBack (read_fields (length m) acc) (put_all m acc) (pack_fields m)
unfolding read_fields pack_fields
read_fields-pack_fields [] acc = λ rest. refl
read_fields-pack_fields ((f, v) ∷ m) acc =
    fields-ReadsBack (length m) f v acc (put_all m (Dict.put f v acc)) (pack_bytes f) (pack_bytes v)
      (pack_fields m) (read_blob-pack_bytes f) (read_blob-pack_bytes v)
      (read_fields-pack_fields m (Dict.put f v acc))

abbrev entry_of : RedisType → RedisValue → Option ℕ → KeyEntry
entry_of type value at = record { type = type; value = value; expire_at_ms = at }

module _ (at : Option ℕ) where
  string-ReadsBack :
      (b : Bytes) (r : Result RdbError Bytes)
      → ReadsBack read_blob b r
      → ReadsBack (read_value 1 at) (entry_of string (bytes b) at) r
  unfolding read_value
  string-ReadsBack b (raise e) h = tt
  string-ReadsBack b (ok a) h = λ rest. rw (h rest) refl

  list-ReadsBack :
      (xs : List Bytes) (r t : Result RdbError Bytes)
      → ReadsBack read_u32 (length xs) r
      → ReadsBack (read_items (length xs)) xs t
      → ReadsBack
          (read_value 2 at)
          (entry_of list (deque xs) at)
          (r >>= λ n. t >>= λ b. ok (n ++ b))
  unfolding read_value
  list-ReadsBack xs (raise e) t h k = tt
  list-ReadsBack xs (ok n) (raise e) h k = tt
  list-ReadsBack xs (ok n) (ok b) h k = λ rest. rw (append_assoc, h (b ++ rest), k rest) refl

  hash-ReadsBack :
      (m : Dict Bytes Bytes) (r t : Result RdbError Bytes)
      → ReadsBack read_u32 (length m) r
      → ReadsBack (read_fields (length m) []) m t
      → ReadsBack (read_value 3 at) (entry_of hash (dict m) at) (r >>= λ n. t >>= λ b. ok (n ++ b))
  unfolding read_value
  hash-ReadsBack m (raise e) t h k = tt
  hash-ReadsBack m (ok n) (raise e) h k = tt
  hash-ReadsBack m (ok n) (ok b) h k = λ rest. rw (append_assoc, h (b ++ rest), k rest) refl

  read_value-pack_value :
      (type : RedisType) (value : RedisValue)
      → MatchesType type value
      → ReadsBack (read_value (type_id type) at) (entry_of type value at) (pack_value type value)
  unfolding pack_value type_id
  read_value-pack_value string (bytes b) h =
      string-ReadsBack b (pack_bytes b) (read_blob-pack_bytes b)
  read_value-pack_value list (deque xs) h =
      list-ReadsBack xs (pack_u32 (length xs)) (pack_items xs) (read_u32-pack_u32 (length xs))
        (read_items-pack_items xs)
  read_value-pack_value hash (dict m) h =
      hash-ReadsBack m (pack_u32 (length m)) (pack_fields m) (read_u32-pack_u32 (length m)) (
        subst (λ d. ReadsBack (read_fields (length m) []) d (pack_fields m)) (put_all-nil m h)
          (read_fields-pack_fields m []))
  read_value-pack_value string (deque xs) h = absurd h
  read_value-pack_value string (dict m) h = absurd h
  read_value-pack_value list (bytes b) h = absurd h
  read_value-pack_value list (dict m) h = absurd h
  read_value-pack_value hash (bytes b) h = absurd h
  read_value-pack_value hash (deque xs) h = absurd h

little-type_id : (t : RedisType) → little (type_id t ∷ []) ≡ type_id t
unfolding type_id
little-type_id string = refl
little-type_id list = refl
little-type_id hash = refl

expiry_of-expire_number : (at : Option ℕ) → expiry_of (expire_number at) ≡ at
unfolding expiry_of
expiry_of-expire_number none = refl
expiry_of-expire_number (some at) = refl

entry-ReadsBack :
    (key : Bytes) (e : KeyEntry) (r s t : Result RdbError Bytes)
    → ReadsBack read_blob key r
    → ReadsBack read_i64 (expire_number e.expire_at_ms) s
    → ReadsBack (read_value (type_id e.type) e.expire_at_ms) e t
    → ReadsBack read_entry
        (key, e)
        (r >>= λ k. s >>= λ at. t >>= λ v. ok (k ++ type_id e.type ∷ (at ++ v)))
unfolding read_entry
entry-ReadsBack key e (raise x) s t h k m = tt
entry-ReadsBack key e (ok a) (raise x) t h k m = tt
entry-ReadsBack key e (ok a) (ok b) (raise x) h k m = tt
entry-ReadsBack key e (ok a) (ok b) (ok c) h k m = λ rest.
    rw
      (
        append_assoc,
        h (type_id e.type ∷ ((b ++ c) ++ rest)),
        read_exact-append (type_id e.type ∷ []) ((b ++ c) ++ rest),
        append_assoc,
        k (c ++ rest),
        little-type_id e.type,
        expiry_of-expire_number e.expire_at_ms,
        m rest,
      )
      refl

pub read_entry-pack_entry :
    (key : Bytes) (e : KeyEntry) → IsTyped e → ReadsBack read_entry (key, e) (pack_entry key e)
unfolding pack_entry
read_entry-pack_entry key e h =
    entry-ReadsBack key e (pack_bytes key) (pack_expire e.expire_at_ms) (pack_value e.type e.value)
      (read_blob-pack_bytes key) (read_i64-pack_expire e.expire_at_ms)
      (read_value-pack_value e.expire_at_ms e.type e.value h)
