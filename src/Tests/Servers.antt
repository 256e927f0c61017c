-- ===== src/Tests/Servers.antt =====
-- The theorems on the server and the replication at concrete inputs.
use byo_redis.Prelude.{◌≡◌, refl, List, [], ◌∷◌, ◌++◌, map, true, false, Option, some, none, raise}
use byo_redis.Text.{Bytes, Str, codes, upper}
use byo_redis.Dict
use byo_redis.Protocol.Object.{simple}
use byo_redis.Protocol.Encoder.{encode_command, encode_value}
use byo_redis.Protocol.Parser.Feed.{concat}
use byo_redis.Commands.Base.{is_write, value}
use byo_redis.Persistence.Aof.{AppendError, written}
use byo_redis.Persistence.Aof.Reads.{ready}
use byo_redis.Replication.Master.{ReplicaLink, syncing, new_link, send, offer, flush}
use byo_redis.Replication.Master.Order.{
  run-payloads, IsOrderly, Step, propagates, flushes, step, run, payloads,
}
use byo_redis.Replication.Master.Resync.{full_resync-payloads}
use byo_redis.Server.State.{Server, Origin, World, works, Answer, command_name}
use byo_redis.Server.Rollback.{Undone, cleaned, run_command-Undone}
use byo_redis.Storage.Memory.{enforce_memory_limit}
use byo_redis.Storage.Sweep.{snapshot}
use byo_redis.Storage.Store.{memory_limit}
use byo_redis.Commands.Registry.{find_handler}
use byo_redis.Server.Execute.{dispatch, run_command, encoded, deletions, finish, execute}
use byo_redis.Server.Guards.{SameData, execute-unauthenticated, finish-file}
use byo_redis.Storage.Valid.{IsValid}
use byo_redis.Server.Loading.{load_persistence}
use byo_redis.Server.Loading.Restarts.{load_persistence-IsValid}
use byo_redis.Server.Valid.{Safe, reply_to, execute-IsSafe}
use byo_redis.Tests.Configs.{defaults}
use byo_redis.Tests.Stores.{clock, stored, stored-IsValid, full, full-IsValid}

abbrev before : List Step
before = propagates false 5 (codes "a") ∷ []

abbrev after : List Step
after = flushes 5 ∷ flushes 5 ∷ propagates false 9 (codes "b") ∷ []

abbrev synced : ReplicaLink
synced = run 100 10 after (send (codes "snapshot") (run 100 10 before (new_link 7 0 syncing)))

synced_up : synced.alive ≡ true
unfolding step offer flush new_link
synced_up = refl

full_resync-payloads_example :
    synced.sent ++ synced.backlog ≡ codes "snapshot" ∷ (payloads before ++ payloads after)
full_resync-payloads_example =
    full_resync-payloads 100 10 7 0 (codes "snapshot") before after (tt, tt) synced_up

abbrev pub os_text : AppendError → Str
os_text e = codes "No space left on device"

abbrev pub server : Option Str → Server
server password = record {
  config = record defaults { requirepass = password };
  store = stored 0;
  aof = ready [];
  master = record {
    backlog_max_bytes = 100;
    pending_max_commands = 10;
    replid = codes "0";
    offset = 0;
    replicas = [];
  };
  authenticated_connections = [];
  authentication_failures = [];
  writers = 1 ∷ [];
  conn_seq = 1;
  client_count = 1;
  total_connections_received = 1;
  rejected_connections = 0;
  total_commands_processed = 0;
  total_commands_failed = 0;
  last_save_time = 0;
  bgsave_running = false;
  aof_rewrite_running = false;
  rdb_file = [];
  link_status = none;
}

abbrev client : Origin
client = record { connection_id = 1; is_replica_client = false; is_loading = false }

abbrev pub world : World
world = record {
  before = clock;
  during = clock;
  after = clock;
  outcomes = λ i. written;
  fails = λ id. false;
  wall_time = 0;
  uptime_seconds = 0;
  aof_pending_commands = 0;
  aof_last_fsync_time = 0;
  disk = works;
}

execute-unauthenticated_example :
    SameData
      (server (some (codes "secret")))
      (execute os_text world client
        (codes "del" ∷ codes "k" ∷ [])
        (server (some (codes "secret")))).1
execute-unauthenticated_example =
    execute-unauthenticated os_text world client (codes "del" ∷ codes "k" ∷ [])
      (server (some (codes "secret"))) refl refl refl refl

execute-IsSafe_example :
    Safe
      (reply_to os_text world client (codes "del" ∷ codes "k" ∷ []) (server none))
      (execute os_text world client (codes "del" ∷ codes "k" ∷ []) (server none))
execute-IsSafe_example =
    execute-IsSafe os_text world client (codes "del" ∷ codes "k" ∷ []) (server none)
      (stored-IsValid 0)

-- A log of one command
abbrev log : Bytes
log = codes "*2\r\n$3\r\nDEL\r\n$1\r\nk\r\n"

load_persistence-IsValid_example :
    IsValid (load_persistence os_text (λ i. world) clock 1024 1000 log [] (server none)).1.store
load_persistence-IsValid_example =
    load_persistence-IsValid os_text (λ i. world) clock 1024 1000 log [] (server none)
      (stored-IsValid 0)

del_writes : is_write (command_name (codes "del" ∷ codes "k" ∷ [])) ≡ true
unfolding is_write command_name upper
del_writes = refl

abbrev deleted : Answer × Server
deleted =
    finish os_text world client (codes "del" ∷ codes "k" ∷ []) (codes "j" ∷ [])
      (simple (codes "OK")) (server none)

finish-file_example :
    (deleted.1.aof.file
      ≡ []
        ++ concat (
            map encode_command
              ((codes "del" ∷ codes "k" ∷ []) ∷ deletions os_text (codes "j" ∷ []))))
    × (deleted.0 ≡ encoded os_text (encode_value (simple (codes "OK"))))
    × (deleted.1.store ≡ (server none).store)
finish-file_example =
    finish-file os_text world client (codes "del" ∷ codes "k" ∷ []) (codes "j" ∷ [])
      (simple (codes "OK")) (server none) [] del_writes refl refl refl (λ i. refl) refl

abbrev pushed : ReplicaLink
pushed = run 100 10 after (new_link 7 0 syncing)

pushed_up : pushed.alive ≡ true
unfolding step offer flush new_link
pushed_up = refl

start-IsOrderly : IsOrderly (new_link 7 0 syncing).state (new_link 7 0 syncing).backlog
unfolding new_link
start-IsOrderly = tt

run-payloads_example :
    pushed.sent ++ pushed.backlog
    ≡ ((new_link 7 0 syncing).sent ++ (new_link 7 0 syncing).backlog) ++ payloads after
run-payloads_example = run-payloads 100 10 after (new_link 7 0 syncing) start-IsOrderly pushed_up

abbrev full_server : Server
full_server = record (server none) { store = full }

abbrev set_j : List Bytes
set_j = codes "SET" ∷ codes "j" ∷ codes "w" ∷ []

is_over :
    ((dispatch os_text world client set_j (cleaned os_text world full_server)).0
      ≡ value (simple (codes "OK")))
    × ((enforce_memory_limit clock
          (dispatch os_text world client set_j (cleaned os_text world full_server)).1.store).0
        ≡ raise memory_limit)
unfolding dispatch full snapshot enforce_memory_limit find_handler is_write Dict.get upper Dict.put
is_over = (refl, refl)

run_command-Undone_example :
    Undone 1000 full_server
      (dispatch os_text world client set_j (cleaned os_text world full_server)).1
      (run_command os_text world client set_j full_server)
unfolding is_write command_name upper
run_command-Undone_example =
    run_command-Undone os_text world client set_j (simple (codes "OK")) full_server full-IsValid
      refl is_over.0 is_over.1
