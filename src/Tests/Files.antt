-- ===== src/Tests/Files.antt =====
-- The theorems on the snapshot and the log at concrete inputs.
use byo_redis.Prelude.{
  ℕ, zero, suc, ◌^◌, ◌<◌, ◌≡◌, ◌≢◌, refl, ap, List, [], ◌∷◌, ◌++◌, length, length-append, map,
  arith, Option, some, ok, raise,
}
use byo_redis.Text.{Bytes, codes}
use byo_redis.Text.Decimal.{decimal_ℕ}
use byo_redis.Dict
use byo_redis.Dict.{Dict, bytes_eq}
use byo_redis.Protocol.Encoder.{encode_command}
use byo_redis.Protocol.Parser.{buffer_exceeds}
use byo_redis.Protocol.Parser.Feed.{concat}
use byo_redis.Storage.Expiry.{Clock}
use byo_redis.Storage.Types.{KeyEntry, string, bytes}
use byo_redis.Storage.Values.{set_string}
use byo_redis.Storage.Sweep.{snapshot, live_items}
use byo_redis.Storage.Sweep.Keeps.{snapshot-IsLoadable}
use byo_redis.Storage.View.{live, view}
use byo_redis.Persistence.Rdb.{dump_rdb_entries, dump_rdb_bytes, load_rdb_bytes, load_rdb_into}
use byo_redis.Persistence.Rdb.RoundTrip.{load_rdb_bytes-dump_rdb_entries}
use byo_redis.Persistence.Rdb.Saves.{
  dump_rdb_entries-Succeeds, dump_rdb_entries-expire_overflow, load_rdb_into-dump_rdb_bytes,
}
use byo_redis.Persistence.Aof.{append, read_commands, protocol}
use byo_redis.Persistence.Aof.Reads.{
  append_all, ready, read_commands-torn, read_commands-append_all_oversize,
  read_commands-append_all,
}
use byo_redis.Tests.Stores.{clock, stored, stored-IsValid}

-- The snapshot of the store of the tests.
abbrev pub entries : Dict Bytes KeyEntry
entries = (snapshot clock (stored 0)).0

-- Each byte of the file, as the code writes it.
abbrev pub file : Bytes
file =
    codes "BYOR"
    ++ (2
        ∷ 0
        ∷ 0
        ∷ 0
        ∷ 2
        ∷ 0
        ∷ 0
        ∷ 0
        ∷ 1
        ∷ 0
        ∷ 0
        ∷ 0
        ∷ 107
        ∷ 1
        ∷ 112
        ∷ 23
        ∷ 0
        ∷ 0
        ∷ 0
        ∷ 0
        ∷ 0
        ∷ 0
        ∷ 1
        ∷ 0
        ∷ 0
        ∷ 0
        ∷ 118
        ∷ 1
        ∷ 0
        ∷ 0
        ∷ 0
        ∷ 106
        ∷ 1
        ∷ 255
        ∷ 255
        ∷ 255
        ∷ 255
        ∷ 255
        ∷ 255
        ∷ 255
        ∷ 255
        ∷ 1
        ∷ 0
        ∷ 0
        ∷ 0
        ∷ 119
        ∷ 152
        ∷ 157
        ∷ 251
        ∷ 233
        ∷ codes "EOF\n")

pub dumped : dump_rdb_entries entries ≡ ok file
unfolding stored set_string Dict.put Dict.get snapshot dump_rdb_entries
dumped = refl

-- At the later time the key with a limit of five seconds has expired.
abbrev later : Clock
later i = 9000

load_rdb_bytes-dump_rdb_entries_example :
    load_rdb_bytes 1000 later file ≡ ok (live_items 9000 entries)
load_rdb_bytes-dump_rdb_entries_example =
    load_rdb_bytes-dump_rdb_entries 1000 later entries file
      (snapshot-IsLoadable clock (stored 0) (stored-IsValid 0)).0 dumped (omega arith)

dumped_store : (dump_rdb_bytes clock (stored 0)).0 ≡ ok file
unfolding dump_rdb_bytes
dumped_store = dumped

load_rdb_into-dump_rdb_bytes_example :
    view 9000 (load_rdb_into 1000 later file (stored 0)).1 (codes "j")
    ≡ live 9000 (view 1000 (stored 0) (codes "j"))
load_rdb_into-dump_rdb_bytes_example =
    load_rdb_into-dump_rdb_bytes 1000 clock later (stored 0) (stored 0) file (codes "j")
      (stored-IsValid 0) dumped_store (omega arith)

abbrev entry_at : Option ℕ → KeyEntry
entry_at at = record { type = string; value = bytes (codes "v"); expire_at_ms = at }

dump_rdb_entries-Succeeds_example :
    (bs : Bytes) × (dump_rdb_entries ((codes "k", entry_at (some 5)) ∷ []) ≡ ok bs)
dump_rdb_entries-Succeeds_example =
    dump_rdb_entries-Succeeds ((codes "k", entry_at (some 5)) ∷ []) (omega arith)
      ((omega arith, omega arith, omega arith, tt), tt)

far_there :
    Dict.get ((codes "k", entry_at (some (2 ^ 63))) ∷ []) (codes "k")
    ≡ some (entry_at (some (2 ^ 63)))
unfolding Dict.get
far_there = refl

dump_rdb_entries-expire_overflow_example :
    dump_rdb_entries ((codes "k", entry_at (some (2 ^ 63))) ∷ []) ≢ ok []
dump_rdb_entries-expire_overflow_example =
    dump_rdb_entries-expire_overflow ((codes "k", entry_at (some (2 ^ 63))) ∷ []) (codes "k") []
      (entry_at (some (2 ^ 63))) (2 ^ 63) far_there refl (omega arith)

abbrev set_k : List Bytes
set_k = codes "SET" ∷ codes "k" ∷ codes "v" ∷ []

abbrev get_k : List Bytes
get_k = codes "GET" ∷ codes "k" ∷ []

torn_get : encode_command get_k ≡ codes "*2\r\n$3\r\nGE" ++ codes "T\r\n$1\r\nk\r\n"
unfolding encode_command decimal_ℕ
torn_get = refl

read_commands-torn_example :
    read_commands 1024 1000 (concat (map encode_command (set_k ∷ [])) ++ codes "*2\r\n$3\r\nGE")
    ≡ ok (set_k ∷ [])
unfolding encode_command decimal_ℕ
read_commands-torn_example =
    read_commands-torn 1024 1000 (set_k ∷ []) get_k (codes "*2\r\n$3\r\nGE")
      (codes "T\r\n$1\r\nk\r\n") (omega arith)
      ((omega arith, (omega arith, (omega arith, (omega arith, tt)))), tt) (tt, tt)
      (omega arith, (omega arith, (omega arith, tt))) torn_get (omega arith) (omega arith)
      (omega arith)

read_commands-append_all_example :
    read_commands 1024 1000 (append_all (set_k ∷ get_k ∷ []) (ready [])).file
    ≡ ok (set_k ∷ get_k ∷ [])
unfolding encode_command decimal_ℕ append
read_commands-append_all_example =
    read_commands-append_all 1024 1000 (set_k ∷ get_k ∷ []) (omega arith)
      (
        (omega arith, (omega arith, (omega arith, (omega arith, tt)))),
        ((omega arith, (omega arith, (omega arith, tt))), tt),
      )
      (tt, (tt, tt)) (omega arith) (omega arith)

zeros : ℕ → Bytes
zeros zero = []
zeros (suc n) = 0 ∷ zeros n

length-zeros : (n : ℕ) → length (zeros n) ≡ n
unfolding zeros
length-zeros zero = refl
length-zeros (suc n) = ap suc (length-zeros n)

-- A command with a large value, and the log that holds it
abbrev large : List (List Bytes)
large = (codes "SET" ∷ codes "k" ∷ zeros 32_000_000 ∷ []) ∷ []

length-large : 32_000_000 < length (concat (map concat large))
length-large = omega (
  arith,
  length-zeros 32_000_000,
  length-append (zeros 32_000_000) [],
  length-append (zeros 32_000_000 ++ []) [],
)

read_commands-append_all_oversize_example :
    read_commands 1024
      (length (append_all large (ready [])).file)
      (append_all large (ready [])).file
    ≡ raise (protocol (buffer_exceeds 32_000_000))
read_commands-append_all_oversize_example =
    read_commands-append_all_oversize 1024 (length (append_all large (ready [])).file) large
      length-large (omega arith)
