-- ===== src/Tests/Replicas.antt =====
-- The theorems on the replica's side at concrete inputs.
use byo_redis.Prelude.{
  ◌≡◌, refl, List, [], ◌∷◌, ◌++◌, map, All, arith, Result, ok, raise, none, pos, ◌<◌, inl,
}
use byo_redis.Text.{Bytes, Str, codes}
use byo_redis.Text.Decimal.{decimal, decimal_ℕ}
use byo_redis.Text.Utf8.{IsScalar, encode, decode}
use byo_redis.Dict.{Dict, bytes_eq}
use byo_redis.Protocol.Encoder.{str, encode_simple_string, encode_command, has_newline, crlf}
use byo_redis.Protocol.Parser.{
  default_limits, new_parser, feed, drain_all, bulk_exceeds, missing_trailer,
}
use byo_redis.Protocol.Parser.Feed.{concat}
use byo_redis.Storage.Types.{KeyEntry}
use byo_redis.Storage.Expiry.{Clock}
use byo_redis.Storage.Sweep.{live_items}
use byo_redis.Storage.Sweep.Keeps.{snapshot-IsLoadable}
use byo_redis.Replication.Sync.{resync_payload}
use byo_redis.Replication.Replica.{
  ReplicaError, ReplicaClient, Wire, malformed, read_one, read_rdb_bulk, greet, start, applied,
  read_loop, session,
}
use byo_redis.Replication.Replica.Stream.{apply_all, closed, read_loop-encode_command}
use byo_redis.Replication.Replica.Joins.{IsPayload, session-payload}
use byo_redis.Replication.Replica.Gaps.{read_rdb_bulk-lost, read_one-oversize, read_one-untrailed}
use byo_redis.Tests.Stores.{clock, stored, stored-IsValid}
use byo_redis.Tests.Files.{entries, file, dumped}
use byo_redis.Tests.Protocols.{usable}

-- The commands that were applied, and the entries that were loaded.
abbrev Seen : Type 0
Seen = List (List Bytes) × Dict Bytes KeyEntry

abbrev note : List Bytes → Seen → Result ReplicaError (Unit {0}) × Seen
note argv (seen, loaded) = (ok tt, (seen ++ argv ∷ [], loaded))

abbrev cmds : List (List Bytes)
cmds = (codes "SET" ∷ codes "k" ∷ codes "v" ∷ []) ∷ (codes "DEL" ∷ codes "k" ∷ []) ∷ []

-- Two commands in three reads
abbrev chunks : List Bytes
chunks =
    codes "*3\r\n$3\r\nSE"
    ∷ codes "T\r\n$1\r\nk\r\n$1\r\nv\r\n*2\r"
    ∷ codes "\n$3\r\nDEL\r\n$1\r\nk\r\n"
    ∷ []

stream : concat chunks ≡ concat (map encode_command cmds)
unfolding encode_command decimal_ℕ
stream = refl

read_loop-encode_command_example :
    read_loop note (new_parser default_limits) chunks ([], [])
    ≡ applied note (apply_all note cmds ([], [])) (closed note)
unfolding encode_command decimal_ℕ
read_loop-encode_command_example =
    read_loop-encode_command note default_limits cmds chunks ([], []) usable
      (
        ((omega arith, (omega arith, (omega arith, (omega arith, tt)))), omega arith, omega arith),
        (((omega arith, (omega arith, (omega arith, tt))), omega arith, omega arith), tt),
      )
      ((omega arith, omega arith), ((omega arith, omega arith), ((omega arith, omega arith), tt)))
      stream

abbrev client : ReplicaClient
client = record {
  listening_port = pos 6380;
  max_bulk_len = 16_777_216;
  snapshot_max_bytes = 1_073_741_824;
  masterauth = none;
}

abbrev line : Str
line = codes "FULLRESYNC 0 7"

abbrev header : Bytes
header = codes "+FULLRESYNC 0 7\r\n"

coded : encode_simple_string (str line) ≡ ok header
unfolding encode_simple_string has_newline encode
coded = refl

scalars_of_ascii : (s : Str) → All (λ c. c < 0x80) s → All IsScalar s
scalars_of_ascii [] h = tt
scalars_of_ascii (c ∷ s) h = (inl (omega (arith, h.0)), scalars_of_ascii s h.1)

sample-IsPayload : IsPayload default_limits 1_073_741_824 entries line header file
sample-IsPayload = record {
  loadable = (snapshot-IsLoadable clock (stored 0) (stored-IsValid 0)).0;
  dumped = dumped;
  encoded = coded;
  full = refl;
  scalars = scalars_of_ascii line (omega arith);
  room = omega arith;
  bulk_len = omega arith;
  snapshot_len = omega arith;
  word = omega arith;
}

-- What the master writes for a full resync, in two reads
abbrev parts : List Bytes
parts = (header ++ codes "$5") ∷ (codes "8\r\n" ++ file) ∷ []

payload_parts : concat parts ≡ resync_payload header file
unfolding resync_payload decimal_ℕ
payload_parts = refl

abbrev incoming : List Bytes
incoming = codes "+PONG\r\n" ∷ codes "+OK\r\n" ∷ codes "+OK\r\n" ∷ (parts ++ chunks)

abbrev greeted : Wire
greeted = record {
  parser = new_parser default_limits;
  incoming = parts ++ chunks;
  outgoing =
      encode_command (codes "PING" ∷ [])
      ∷ encode_command (codes "REPLCONF" ∷ codes "listening-port" ∷ codes "6380" ∷ [])
      ∷ encode_command (codes "REPLCONF" ∷ codes "capa" ∷ codes "eof" ∷ [])
      ∷ [];
}

greeting : greet client (start client incoming) ≡ ok greeted
unfolding greet feed drain_all decimal decode
greeting = refl

later : Clock
later i = 9000

session-payload_example :
    session note client later (λ d s. (s.0, d)) incoming ([], [])
    ≡ applied note (apply_all note cmds ([], live_items (later 0) entries)) (closed note)
unfolding encode_command decimal_ℕ
session-payload_example =
    session-payload note client later (λ d s. (s.0, d)) ([], []) default_limits entries line header
      file incoming parts chunks greeted cmds usable sample-IsPayload greeting refl refl
      payload_parts ((omega arith, omega arith), ((omega arith, omega arith), tt)) stream
      ((omega arith, omega arith), ((omega arith, omega arith), ((omega arith, omega arith), tt)))
      (
        ((omega arith, (omega arith, (omega arith, (omega arith, tt)))), omega arith, omega arith),
        (((omega arith, (omega arith, (omega arith, tt))), omega arith, omega arith), tt),
      )

-- The parser holds the first bytes of the header; the second read brings two commands too.
abbrev last_read : Bytes
last_read = file ++ concat (map encode_command cmds)

read_rdb_bulk-lost_example :
    read_rdb_bulk 1000
      (record { buf = codes "$5"; limits = default_limits })
      (codes "8\r\n" ∷ last_read ∷ codes "*1" ∷ [])
    ≡ ok (file, new_parser default_limits, codes "*1" ∷ [])
unfolding encode_command decimal_ℕ
read_rdb_bulk-lost_example =
    read_rdb_bulk-lost default_limits 1000 file cmds (codes "$5") (codes "8\r\n" ∷ []) last_read
      (codes "*1" ∷ []) usable (omega arith) (omega arith)
      (
        (omega arith, (omega arith, (omega arith, (omega arith, tt)))),
        ((omega arith, (omega arith, (omega arith, tt))), tt),
      )
      (omega arith) ((omega arith, omega arith), ((omega arith, omega arith), tt)) (omega arith)
      refl

read_one-oversize_example :
    read_one
      (new_parser default_limits)
      ((header ++ b'$' ∷ (decimal_ℕ 20_000_000 ++ crlf ++ codes "BYOR")) ∷ [])
    ≡ raise (malformed (bulk_exceeds 20_000_000))
unfolding decimal_ℕ
read_one-oversize_example =
    read_one-oversize default_limits line header 20_000_000 (codes "BYOR") [] coded
      (scalars_of_ascii line (omega arith)) (omega arith) (omega arith) (omega arith)

read_one-untrailed_example :
    read_one (new_parser default_limits) ((resync_payload header file ++ codes "*1\r\n") ∷ [])
    ≡ raise (malformed missing_trailer)
unfolding resync_payload decimal_ℕ
read_one-untrailed_example =
    read_one-untrailed default_limits line header file b'*' b'1' (codes "\r\n") [] coded
      (scalars_of_ascii line (omega arith)) (omega arith) (omega arith) (λ e. omega (arith, e))
      (omega arith)
