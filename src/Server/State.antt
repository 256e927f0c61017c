-- ===== src/Server/State.antt =====
-- byo_redis/server.py: the state of the server, the arguments of a command, authentication.
use byo_redis.Prelude.{
  ℕ, suc, ◌+◌, Bool, true, false, not, ◌||◌, Option, none, some, List, [], ◌∷◌, ◌==◌, if◌then◌else◌,
  Result, ok, raise, ◌>>=◌,
}
use byo_redis.Text.{Bytes, Str, codes, text_eq, upper}
use byo_redis.Text.Utf8.{encode}
use byo_redis.Dict
use byo_redis.Dict.{Dict, bytes_eq, nat_eq}
use byo_redis.Config.{Config}
use byo_redis.Protocol.Object.{Object, Objects, null, bulk, text, array, nil, cons, simple}
use byo_redis.Protocol.Parser.{ProtocolError, expected_array, bad_argument}
use byo_redis.Storage.Expiry.{Clock}
use byo_redis.Storage.Store.{Store}
use byo_redis.Commands.Base.{Reply, value, error, arity}
use byo_redis.Persistence.Aof.{AofLog, Outcome}
use byo_redis.Replication.Master.{MasterReplication}

-- `writers` holds the numbers of the open connections; `rdb_file` is what stands at `rdb_path`;
-- `link_status` is that of the replica client, if there is one; a task is running or not.
pub record Server : Type 0 where
  pub config : Config
  pub store : Store
  pub aof : AofLog
  pub master : MasterReplication
  pub authenticated_connections : List ℕ
  pub authentication_failures : Dict ℕ ℕ
  pub writers : List ℕ
  pub conn_seq : ℕ
  pub client_count : ℕ
  pub total_connections_received : ℕ
  pub rejected_connections : ℕ
  pub total_commands_processed : ℕ
  pub total_commands_failed : ℕ
  pub last_save_time : ℕ
  pub bgsave_running : Bool
  pub aof_rewrite_running : Bool
  pub rdb_file : Bytes
  pub link_status : Option Str

-- Where a command comes from.
pub record Origin : Type 0 where
  pub connection_id : ℕ
  pub is_replica_client : Bool
  pub is_loading : Bool

-- The file of a snapshot can be written; or its directory cannot be made, or the file not be written,
-- with what str() of the OSError says.
pub data Disk : Type 0 where
  works : Disk
  no_directory no_file : Str → Disk

-- The world during a command: the times that its parts read, what becomes of the items that it
-- appends to the log, in order, and which replicas' transports fail; int(time.time()); what INFO reads
-- off the clock and the log's writer; what becomes of writing the snapshot's file.
pub record World : Type 0 where
  pub before : Clock
  pub during : Clock
  pub after : Clock
  pub outcomes : ℕ → Outcome
  pub fails : ℕ → Bool
  pub wall_time : ℕ
  pub uptime_seconds : ℕ
  pub aof_pending_commands : ℕ
  pub aof_last_fsync_time : ℕ
  pub disk : Disk

-- What a client gets: bytes, nothing, or an exception that ends its connection.
pub data Answer : Type 0 where
  replied : Bytes → Answer
  no_reply escapes : Answer

unfoldable pub argument : Object → Result ProtocolError Bytes
argument (bulk b) = ok b
argument (text s) = ok (encode s)
argument null = ok []
argument _ = raise bad_argument

unfoldable pub arguments : Objects → Result ProtocolError (List Bytes)
unfolding argument
arguments nil = ok []
arguments (cons x xs) = argument x >>= λ a. arguments xs >>= λ as'. ok (a ∷ as')

unfoldable pub normalize_argv : Object → Result ProtocolError (List Bytes)
unfolding arguments
normalize_argv (array items) = arguments items
normalize_argv _ = raise expected_array

abbrev pub contains : List ℕ → ℕ → Bool
contains [] n = false
contains (m ∷ ms) n = m == n || contains ms n

abbrev pub is_some {ℓ} : {A : Type ℓ} → Option A → Bool
is_some none = false
is_some (some a) = true

-- argv[0].upper() if argv else b""
unfoldable pub command_name : List Bytes → Bytes
command_name [] = []
command_name (name ∷ args) = upper name

unfoldable pub count_failure : Server → Server
count_failure s = record s { total_commands_failed = suc s.total_commands_failed }

-- dict.get(key, 0)
abbrev pub failures_of : Option ℕ → ℕ
failures_of none = 0
failures_of (some n) = n

unfoldable pub authenticate : ℕ → Bytes → Server → Bool × Server
authenticate id password s = elim s.config.requirepass [
  | none ↦ (false, s)
  | some configured ↦
      if text_eq (encode configured) password
      then (
        true,
        record s {
          authenticated_connections = id ∷ s.authenticated_connections;
          authentication_failures = Dict.pop id s.authentication_failures;
        },
      )
      else (
        false,
        record s {
          authentication_failures =
              Dict.put id (failures_of (Dict.get s.authentication_failures id) + 1)
                s.authentication_failures;
        },
      )
]

-- connection_cmds.py
unfoldable pub cmd_auth : ℕ → List Bytes → Server → Reply × Server
unfolding authenticate arity
cmd_auth id (name ∷ password ∷ []) s =
    let (accepted, s') = authenticate id password s in
    if not (is_some s.config.requirepass)
    then (error (codes "ERR AUTH called without any password configured"), s)
    else if accepted
    then (value (simple (codes "OK")), s')
    else (error (codes "WRONGPASS invalid username-password pair"), s')
cmd_auth id _ s = (arity (codes "auth"), s)
