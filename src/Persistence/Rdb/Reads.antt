-- ===== src/Persistence/Rdb/Reads.antt =====
-- byo_redis/persistence/rdb.py, load_rdb_bytes on a file of any content.
use byo_redis.Prelude.{
  ℕ, zero, suc, Bool, true, false, not, ◌||◌, Option, List, [], if◌then◌else◌, Bool-cases,
  Result-cases, inl, inr, Result, ok, raise, ◌>>=◌, ltb, length, ◌==◌,
}
use byo_redis.Text.{Bytes, text_eq}
use byo_redis.Dict
use byo_redis.Dict.{Dict, bytes_eq}
use byo_redis.Dict.Laws.{put-Distinct}
use byo_redis.Storage.Types.{string, list, hash, bytes, deque, dict, KeyEntry}
use byo_redis.Storage.Expiry.{Clock, is_expired}
use byo_redis.Storage.Valid.{IsTyped, IsTyped-put}
use byo_redis.Storage.Store.Keeps.{IsLoadable}
use byo_redis.Persistence.Rdb.{
  RdbError, read_blob, read_u32, read_exact, read_i64, read_items, read_fields, little, expiry_of,
  magic, version, legacy_version, check_sum, check_footer, read_value, read_entry, read_entries,
  read_rdb, load_rdb_bytes,
}

-- What holds of a result, if there is one.
abbrev pub Gives {ℓ} : {A : Type ℓ} → (A → Type 0) → Result RdbError A → Type 0
Gives P (ok a) = P a
Gives P (raise e) = Unit

abbrev ReadTyped : KeyEntry × Bytes → Type 0
ReadTyped r = IsTyped r.0

abbrev ItemTyped : (Bytes × KeyEntry) × Bytes → Type 0
ItemTyped r = IsTyped r.0.1

abbrev ReadLoadable : Dict Bytes KeyEntry × Bytes → Type 0
ReadLoadable r = IsLoadable r.0

string_value :
    (at : Option ℕ) (r : Result RdbError (Bytes × Bytes))
    → Gives ReadTyped
        (r >>= λ b. ok (record { type = string; value = bytes b.0; expire_at_ms = at }, b.1))
string_value at (ok b) = tt
string_value at (raise e) = tt

list_value :
    (at : Option ℕ) (r : Result RdbError (List Bytes × Bytes))
    → Gives ReadTyped
        (r >>= λ b. ok (record { type = list; value = deque b.0; expire_at_ms = at }, b.1))
list_value at (ok b) = tt
list_value at (raise e) = tt

abbrev FieldsDistinct : Dict Bytes Bytes × Bytes → Type 0
FieldsDistinct r = Dict.Distinct r.0

read_fields-Distinct :
    (n : ℕ) (d : Dict Bytes Bytes) (buf : Bytes)
    → Dict.Distinct d
    → Gives FieldsDistinct (read_fields n d buf)
unfolding read_fields
read_fields-Distinct zero d buf h = h
read_fields-Distinct (suc n) d buf h = elim (Result-cases (read_blob buf)) [
  | inr (x, e) ↦ rw e tt
  | inl (f, e) ↦ rw e (elim (Result-cases (read_blob f.1)) [
    | inr (x, e2) ↦ rw e2 tt
    | inl (v, e2) ↦
        rw e2 (read_fields-Distinct n (Dict.put f.0 v.0 d) v.1 (put-Distinct f.0 v.0 d h))
  ])
]

hash_value :
    (at : Option ℕ) (r : Result RdbError (Dict Bytes Bytes × Bytes))
    → Gives FieldsDistinct r
    → Gives ReadTyped
        (r >>= λ b. ok (record { type = hash; value = dict b.0; expire_at_ms = at }, b.1))
hash_value at (ok b) h = h
hash_value at (raise e) h = tt

read_value-Typed : (id : ℕ) (at : Option ℕ) (buf : Bytes) → Gives ReadTyped (read_value id at buf)
unfolding read_value
read_value-Typed id at buf = elim (Bool-cases (id == 1)) [
  | inl e ↦ rw e (string_value at (read_blob buf))
  | inr e ↦ rw e (elim (Bool-cases (id == 2)) [
    | inl e2 ↦ rw e2 (elim (Result-cases (read_u32 buf)) [
      | inl (n, f) ↦ rw f (list_value at (read_items n.0 n.1))
      | inr (x, f) ↦ rw f tt
    ])
    | inr e2 ↦ rw e2 (elim (Bool-cases (id == 3)) [
      | inl e3 ↦ rw e3 (elim (Result-cases (read_u32 buf)) [
        | inl (n, f) ↦
            rw f (hash_value at (read_fields n.0 [] n.1) (read_fields-Distinct n.0 [] n.1 tt))
        | inr (x, f) ↦ rw f tt
      ])
      | inr e3 ↦ rw e3 tt
    ])
  ])
]

with_key :
    (key : Bytes) (r : Result RdbError (KeyEntry × Bytes))
    → Gives ReadTyped r
    → Gives ItemTyped (r >>= λ v. ok ((key, v.0), v.1))
with_key key (ok v) h = h
with_key key (raise e) h = tt

read_entry-Typed : (buf : Bytes) → Gives ItemTyped (read_entry buf)
unfolding read_entry
read_entry-Typed buf = elim (Result-cases (read_blob buf)) [
  | inr (x, e) ↦ rw e tt
  | inl (k, e) ↦ rw e (elim (Result-cases (read_exact 1 k.1)) [
    | inr (x, e2) ↦ rw e2 tt
    | inl (i, e2) ↦ rw e2 (elim (Result-cases (read_i64 i.1)) [
      | inr (x, e3) ↦ rw e3 tt
      | inl (a, e3) ↦ rw e3 (with_key k.0 _ (read_value-Typed (little i.0) (expiry_of a.0) a.1))
    ])
  ])
]

nothing-IsLoadable : IsLoadable []
unfolding Dict.get
nothing-IsLoadable = record { distinct = tt; typed = λ k e h. absurd (cc (h)) }

put-IsLoadable :
    (key : Bytes) (entry : KeyEntry) (d : Dict Bytes KeyEntry)
    → IsTyped entry
    → IsLoadable d
    → IsLoadable (Dict.put key entry d)
put-IsLoadable key entry d typed h = record {
  distinct = put-Distinct key entry d h.distinct;
  typed = λ k e p. IsTyped-put key k entry e d typed (h.typed k e) p;
}

kept-IsLoadable :
    (expired : Bool) (key : Bytes) (entry : KeyEntry) (d : Dict Bytes KeyEntry)
    → IsTyped entry
    → IsLoadable d
    → IsLoadable (if expired then d else Dict.put key entry d)
kept-IsLoadable true key entry d typed h = h
kept-IsLoadable false key entry d typed h = put-IsLoadable key entry d typed h

read_entries-Loadable :
    (now n : ℕ) (d : Dict Bytes KeyEntry) (buf : Bytes)
    → IsLoadable d
    → Gives ReadLoadable (read_entries now n d buf)
unfolding read_entries
read_entries-Loadable now zero d buf h = h
read_entries-Loadable now (suc n) d buf h = elim (Result-cases (read_entry buf)) [
  | inr (x, e) ↦ rw e tt
  | inl (item, e) ↦
      let typed : IsTyped item.0.1 = (rw e at (read_entry-Typed buf)) in
      rw e (
        read_entries-Loadable now n _ item.1
          (kept-IsLoadable (is_expired item.0.1.expire_at_ms now) item.0.0 item.0.1 d typed h))
]

-- Behind the records
checked-Loadable :
    (d : Dict Bytes KeyEntry) (a : Result RdbError (Unit {0} × Bytes))
    (f : Bytes → Result RdbError (Unit {0}))
    → IsLoadable d
    → Gives IsLoadable (a >>= λ r. f r.1 >>= λ _. ok d)
checked-Loadable d (raise e) f h = tt
checked-Loadable d (ok r) f h = elim (Result-cases (f r.1)) [
  | inr (x, e) ↦ rw e tt
  | inl (u, e) ↦ rw e h
]

read_rdb-Loadable : (now : ℕ) (buf : Bytes) → Gives IsLoadable (read_rdb now buf)
unfolding read_rdb
read_rdb-Loadable now buf = elim (Result-cases (read_exact 4 buf)) [
  | inr (x, e) ↦ rw e tt
  | inl (m, e) ↦ rw e (elim (Bool-cases (not (text_eq m.0 magic))) [
    | inl bad ↦ rw bad tt
    | inr good ↦ rw good (elim (Result-cases (read_u32 m.1)) [
      | inr (x, e2) ↦ rw e2 tt
      | inl (v, e2) ↦ rw e2 (elim (Bool-cases (not (v.0 == legacy_version || v.0 == version))) [
        | inl bad ↦ rw bad tt
        | inr good2 ↦ rw good2 (elim (Result-cases (read_u32 v.1)) [
          | inr (x, e3) ↦ rw e3 tt
          | inl (c, e3) ↦ rw e3 (elim (Result-cases (read_entries now c.0 [] c.1)) [
            | inr (x, e4) ↦ rw e4 tt
            | inl (d, e4) ↦
                let loadable : IsLoadable d.0 =
                  (rw e4 at (read_entries-Loadable now c.0 [] c.1 nothing-IsLoadable)) in
                rw e4 (checked-Loadable d.0 (check_sum v.0 buf d.1) check_footer loadable)
          ])
        ])
      ])
    ])
  ])
]

-- Whatever bytes a snapshot's file holds: if they are loaded, the entries have no key twice, and each value
-- is of its type's class, with no field twice.
pub load_rdb_bytes-Loadable :
    (max : ℕ) (clock : Clock) (buf : Bytes) → Gives IsLoadable (load_rdb_bytes max clock buf)
unfolding load_rdb_bytes
load_rdb_bytes-Loadable max clock buf = elim (Bool-cases (ltb max (length buf))) [
  | inl big ↦ rw big tt
  | inr fits ↦ rw fits (elim (Bool-cases (ltb (length buf) 12)) [
    | inl short ↦ rw short tt
    | inr long ↦ rw long (read_rdb-Loadable (clock 0) buf)
  ])
]
