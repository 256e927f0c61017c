-- ===== src/Server/Admins.antt =====
-- byo_redis/commands/server_cmds.py and cmd_psync of repl_cmds.py, with the methods of RedisServer that
-- they call: the handlers that work on the server.
use byo_redis.Prelude.{
  ℕ, Bool, true, false, not, ◌||◌, Option, none, some, List, [], ◌∷◌, ◌++◌, if◌then◌else◌, ℤ, pos,
  Result, ok, raise,
}
use byo_redis.Text.{Bytes, Str, codes, text_eq, upper, lower}
use byo_redis.Text.Decimal.{decimal, decimal_ℕ, fits_digits}
use byo_redis.Text.Utf8.{encode, decode}
use byo_redis.Config.{Config}
use byo_redis.Protocol.Object.{bulk, array, bulks, simple}
use byo_redis.Storage.Expiry.{tick}
use byo_redis.Storage.Store.{StoreError, Policy, noeviction, allkeys_lru, volatile_ttl}
use byo_redis.Storage.Sweep.{keyspace_stats, snapshot}
use byo_redis.Storage.Memory.{memory_usage}
use byo_redis.Commands.Base.{Reply, value, error, crash, silent, arity}
use byo_redis.Commands.Registry.{Admin, info, save, bgsave, bgrewriteaof, config, psync}
use byo_redis.Persistence.Aof.{AofLog, AofError, healthy, rewrite_payload}
use byo_redis.Persistence.Rdb.{RdbError, dump_rdb_bytes}
use byo_redis.Replication.Master.{connected_replicas}
use byo_redis.Replication.Sync.{full_resync}
use byo_redis.Server.State.{Server, World, Disk, works, no_directory, no_file, contains}

-- "\r\n".join(lines) + "\r\n"
unfoldable pub joined : List Str → Str
joined [] = []
joined (l ∷ ls) = l ++ (codes "\r\n" ++ joined ls)

abbrev pub policy_name : Policy → Str
policy_name noeviction = codes "noeviction"
policy_name allkeys_lru = codes "allkeys-lru"
policy_name volatile_ttl = codes "volatile-ttl"

abbrev flag : Bool → Str
flag true = codes "1"
flag false = codes "0"

-- x or ''
abbrev master_host : Option (Str × ℤ) → Str
master_host none = []
master_host (some (host, port)) = host

-- x or 0
abbrev master_port : Option (Str × ℤ) → ℤ
master_port none = pos 0
master_port (some (host, port)) = port

abbrev status_name : Option Str → Str
status_name none = codes "down"
status_name (some status) = status

unfoldable pub server_lines : World → ℕ → Server → List Str
server_lines w used s =
    codes "# Server"
    ∷ codes "redis_version:0.2.2"
    ∷ codes "redis_mode:standalone"
    ∷ (codes "tcp_port:" ++ decimal s.config.port)
    ∷ (codes "uptime_in_seconds:" ++ decimal_ℕ w.uptime_seconds)
    ∷ (codes "total_connections_received:" ++ decimal_ℕ s.total_connections_received)
    ∷ (codes "rejected_connections:" ++ decimal_ℕ s.rejected_connections)
    ∷ (codes "total_commands_processed:" ++ decimal_ℕ s.total_commands_processed)
    ∷ (codes "total_commands_failed:" ++ decimal_ℕ s.total_commands_failed)
    ∷ (codes "used_memory:" ++ decimal_ℕ used)
    ∷ (codes "maxmemory:" ++ decimal s.config.maxmemory_bytes)
    ∷ (codes "maxmemory_policy:" ++ policy_name s.config.maxmemory_policy)
    ∷ (codes "evicted_keys:" ++ decimal_ℕ s.store.evicted_keys)
    ∷ []
    ∷ codes "# Clients"
    ∷ (codes "connected_clients:" ++ decimal_ℕ s.client_count)
    ∷ (codes "maxclients:" ++ decimal s.config.max_clients)
    ∷ []
    ∷ codes "# Replication"
    ∷ (codes "role:" ++ (if s.config.is_replica then codes "slave" else codes "master"))
    ∷ []

unfoldable pub replication_lines : Server → List Str
unfolding connected_replicas
replication_lines s =
    if s.config.is_replica
    then ((codes "master_host:" ++ master_host s.config.replicaof)
        ∷ (codes "master_port:" ++ decimal (master_port s.config.replicaof))
        ∷ (codes "master_link_status:" ++ status_name s.link_status)
        ∷ [])
    else (codes "connected_slaves:" ++ decimal_ℕ (connected_replicas s.master)) ∷ []

-- The f-string raises ValueError, which is `none`, on an average of more digits than Python writes.
unfoldable pub keyspace_lines : World → ℕ × ℕ × ℕ → Server → Option (List Str)
unfolding healthy fits_digits
keyspace_lines w (keys, expires, avg_ttl) s =
    if fits_digits avg_ttl
    then some (
        []
        ∷ codes "# Keyspace"
        ∷ (codes "db0:keys="
            ++ (decimal_ℕ keys
                ++ (codes ",expires="
                    ++ (decimal_ℕ expires ++ (codes ",avg_ttl=" ++ decimal_ℕ avg_ttl)))))
        ∷ []
        ∷ codes "# Persistence"
        ∷ (codes "aof_enabled:" ++ flag s.config.aof_enabled)
        ∷ (codes "aof_pending_commands:" ++ decimal_ℕ w.aof_pending_commands)
        ∷ (codes "aof_healthy:" ++ flag (healthy s.aof))
        ∷ (codes "aof_last_fsync_time:" ++ decimal_ℕ w.aof_last_fsync_time)
        ∷ (codes "aof_rewrite_in_progress:" ++ flag s.aof_rewrite_running)
        ∷ (codes "rdb_last_save_time:" ++ decimal_ℕ s.last_save_time)
        ∷ [])
    else none

abbrev pub info_text : List Str → Option (List Str) → Reply
info_text before none = crash
info_text before (some lines) = value (bulk (encode (joined (before ++ lines))))

unfoldable pub info_reply : World → ℕ × ℕ × ℕ → Result StoreError ℕ → Server → Reply
unfolding joined server_lines replication_lines keyspace_lines
info_reply w stats (raise e) s = crash
info_reply w stats (ok used) s =
    info_text (server_lines w used s ++ replication_lines s) (keyspace_lines w stats s)

-- The section is read and then makes no difference.
unfoldable pub info_lines : World → Server → Reply × Server
unfolding info_reply keyspace_stats memory_usage
info_lines w s =
    let (stats, store) = keyspace_stats w.during s.store in
    let (used, store') = memory_usage (tick (tick w.during)) store in
    let s' : Server = record s { store = store' } in (info_reply w stats used s', s')

unfoldable pub cmd_info : World → List Bytes → Server → Reply × Server
unfolding info_lines arity
cmd_info w (name ∷ section ∷ more ∷ rest) s = (arity (codes "info"), s)
cmd_info w argv s = info_lines w s

-- The file is replaced as a whole, or not at all. An OSError has a text, another exception has none.
unfoldable pub write_snapshot :
    World → Disk → Result RdbError Bytes → Server → Result (Option Str) (Unit {0}) × Server
write_snapshot w works (ok payload) s =
    (ok tt, record s { rdb_file = payload; last_save_time = w.wall_time })
write_snapshot w (no_directory text) (ok payload) s = (raise (some text), s)
write_snapshot w (no_file text) (ok payload) s = (raise (some text), s)
write_snapshot w disk (raise e) s = (raise none, s)

-- `dump_rdb`: the directory first, then the snapshot and its encoding, then the file
unfoldable pub dump_rdb : World → Disk → Server → Result (Option Str) (Unit {0}) × Server
unfolding write_snapshot dump_rdb_bytes
dump_rdb w (no_directory text) s = (raise (some text), s)
dump_rdb w disk s =
    let (payload, store) = dump_rdb_bytes w.during s.store in
    write_snapshot w disk payload (record s { store = store })

unfoldable pub save_rdb_sync : World → Server → Result (Option Str) (Unit {0}) × Server
unfolding dump_rdb
save_rdb_sync w s = dump_rdb w w.disk s

unfoldable pub save_reply : Result (Option Str) (Unit {0}) → Reply
save_reply (ok _) = value (simple (codes "OK"))
save_reply (raise (some text)) = error (codes "ERR SAVE failed: " ++ text)
save_reply (raise none) = crash

unfoldable pub cmd_save : World → List Bytes → Server → Reply × Server
unfolding save_rdb_sync save_reply arity
cmd_save w (name ∷ []) s = let (r, s') = save_rdb_sync w s in (save_reply r, s')
cmd_save w _ s = (arity (codes "save"), s)

-- `schedule_bgsave`
unfoldable pub cmd_bgsave : List Bytes → Server → Reply × Server
unfolding arity
cmd_bgsave (name ∷ []) s =
    if s.bgsave_running
    then (error (codes "ERR Background save already in progress"), s)
    else (value (simple (codes "Background saving started")), record s { bgsave_running = true })
cmd_bgsave _ s = (arity (codes "bgsave"), s)

-- `_bgsave_worker`: a failure is only logged. `between` is what other tasks do to the server until the
-- snapshot that was taken has been written.
unfoldable pub bgsave_worker : World → (Server → Server) → Server → Server
unfolding write_snapshot dump_rdb_bytes
bgsave_worker w between s =
    let (payload, store) = dump_rdb_bytes w.during s.store in
    record ((write_snapshot w w.disk payload (between (record s { store = store }))).1) {
      bgsave_running = false;
    }

-- `schedule_aof_rewrite`
unfoldable pub cmd_bgrewriteaof : List Bytes → Server → Reply × Server
unfolding arity
cmd_bgrewriteaof (name ∷ []) s =
    if not s.config.aof_enabled
    then (error (codes "ERR AOF is disabled"), s)
    else if s.aof_rewrite_running
    then (error (codes "ERR Background append only file rewriting already in progress"), s)
    else (
      value (simple (codes "Background append only file rewriting started")),
      record s { aof_rewrite_running = true },
    )
cmd_bgrewriteaof _ s = (arity (codes "bgrewriteaof"), s)

-- `AOFLog.rewrite`: the file is replaced as a whole, or not at all.
unfoldable pub replace_log : Disk → Result AofError Bytes → AofLog → AofLog
replace_log works (ok payload) log =
    if log.enabled then record log { file = payload; opened = true } else log
replace_log disk payload log = log

-- `_aof_rewrite_worker`: a failure is only logged.
unfoldable pub aof_rewrite_worker : World → Server → Server
unfolding snapshot rewrite_payload replace_log
aof_rewrite_worker w s =
    let (entries, store) = snapshot w.before s.store in
    record s {
      store = store;
      aof = replace_log w.disk (rewrite_payload w.during entries) s.aof;
      aof_rewrite_running = false;
    }

unfoldable pub config_pairs : Str → Config → List Bytes
config_pairs pattern c =
    (if text_eq pattern (codes "*") || text_eq pattern (codes "dir")
      then codes "dir" ∷ encode c.dir ∷ []
      else [])
    ++ (if text_eq pattern (codes "*") || text_eq pattern (codes "dbfilename")
        then codes "dbfilename" ∷ encode c.dbfilename ∷ []
        else [])

-- sub.decode() raises UnicodeDecodeError unless encoding gives the bytes back.
unfoldable pub config_other : Bytes → Reply
config_other sub =
    if text_eq (encode (decode sub)) sub
    then error (
        codes "ERR Unknown subcommand or wrong number of arguments for 'config|"
        ++ (decode sub ++ codes "'"))
    else crash

unfoldable pub config_sub : Bytes → List Bytes → Config → Reply
unfolding config_pairs config_other arity
config_sub sub args c =
    if text_eq sub (codes "GET")
    then (elim args [
      | [] ↦ arity (codes "config|get")
      | (pattern ∷ more) ↦ elim more [
        | [] ↦ value (array (bulks (config_pairs (lower (decode pattern)) c)))
        | (_ ∷ _) ↦ arity (codes "config|get")
      ]
    ])
    else if text_eq sub (codes "SET")
    then error (codes "ERR CONFIG SET not supported in BYO-Redis v0.2.2")
    else config_other sub

unfoldable pub cmd_config : List Bytes → Server → Reply × Server
unfolding config_sub arity
cmd_config (name ∷ sub ∷ args) s = (config_sub (upper sub) args s.config, s)
cmd_config _ s = (arity (codes "config"), s)

-- `handle_psync`
unfoldable pub cmd_psync : World → ℕ → List Bytes → Server → Reply × Server
unfolding full_resync arity
cmd_psync w id (name ∷ replid ∷ offset ∷ []) s =
    let (done, store, master) = full_resync (w.fails id) w.during id s.store s.master in
    if contains s.writers id
    then ((if done then silent else crash), record s { store = store; master = master })
    else (error (codes "ERR PSYNC requires active connection"), s)
cmd_psync w id _ s = (arity (codes "psync"), s)

unfoldable pub admin_command : Admin → World → ℕ → List Bytes → Server → Reply × Server
unfolding cmd_info cmd_save cmd_bgsave cmd_bgrewriteaof cmd_config cmd_psync
admin_command info w id argv s = cmd_info w argv s
admin_command save w id argv s = cmd_save w argv s
admin_command bgsave w id argv s = cmd_bgsave argv s
admin_command bgrewriteaof w id argv s = cmd_bgrewriteaof argv s
admin_command config w id argv s = cmd_config argv s
admin_command psync w id argv s = cmd_psync w id argv s
