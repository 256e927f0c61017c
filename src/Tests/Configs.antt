-- ===== src/Tests/Configs.antt =====
-- The theorem on the configuration at a concrete one.
use byo_redis.Prelude.{ℕ, ◌*◌, ◌^◌, ◌≡◌, ◌≢◌, refl, true, false, some, none, [], pos, ok}
use byo_redis.Text.{codes}
use byo_redis.Storage.Store.{noeviction}
use byo_redis.Config.{
  Config, config_from_args, config_from_args-IsSound, Seconds, finite, IsTimeout, IsBetween,
  IsAtLeast, is_given,
}

abbrev pub seconds : ℕ → Seconds
seconds n = finite (pos (n * 2 ^ 1074))

-- The defaults of the command line.
abbrev pub defaults : Config
defaults = record {
  host = codes "127.0.0.1";
  port = pos 6379;
  dir = codes "/data";
  dbfilename = codes "dump.rdb";
  aof_enabled = true;
  aof_filename = codes "appendonly.aof";
  aof_fsync = codes "everysec";
  is_replica = false;
  replicaof = none;
  log_level = codes "info";
  rdb_save_seconds = pos 0;
  proto_max_bulk_len = pos 16777216;
  proto_max_array_len = pos 1024;
  max_array_depth = pos 16;
  max_buffer_bytes = pos 32000000;
  partial_timeout = seconds 30;
  client_idle_timeout = seconds 300;
  max_clients = pos 1000;
  max_auth_failures = pos 5;
  aof_queue_max_commands = pos 10000;
  aof_enqueue_timeout = seconds 5;
  replica_backlog_max_bytes = pos 67108864;
  replica_pending_max_commands = pos 10000;
  persistence_max_load_bytes = pos 1073741824;
  maxmemory_bytes = pos 0;
  maxmemory_policy = noeviction;
  requirepass = some (codes "secret");
  masterauth = none;
  allow_unprotected_non_loopback = false;
}

accepted : config_from_args defaults ≡ ok defaults
unfolding config_from_args
accepted = refl

config_from_args-IsSound_example :
    IsBetween 1 65535 (pos 6379)
    × IsAtLeast 1024 (pos 16777216)
    × IsAtLeast 1 (pos 1024)
    × IsAtLeast 1 (pos 16)
    × IsAtLeast 0 (pos 0)
    × IsAtLeast 1024 (pos 32000000)
    × IsTimeout defaults.partial_timeout
    × IsTimeout defaults.client_idle_timeout
    × IsAtLeast 1 (pos 1000)
    × IsAtLeast 1 (pos 5)
    × IsAtLeast 1 (pos 10000)
    × IsTimeout defaults.aof_enqueue_timeout
    × IsAtLeast 1024 (pos 67108864)
    × IsAtLeast 1 (pos 10000)
    × IsAtLeast 1024 (pos 1073741824)
    × IsAtLeast 0 (pos 0)
    × (defaults.requirepass ≢ some [])
    × (defaults.masterauth ≢ some [])
    × (false ≡ is_given defaults.replicaof)
config_from_args-IsSound_example = config_from_args-IsSound defaults defaults accepted
