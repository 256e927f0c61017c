-- ===== src/Server/Loading.antt =====
-- byo_redis/server.py, _load_persistence, and replay_aof of byo_redis/persistence/aof.py: the log is
-- replayed if there is one, else the snapshot is loaded. A file that is not there counts as empty.
pub mod Restarts
use byo_redis.Prelude.{
  ℕ, suc, ◌&&◌, not, true, List, [], ◌∷◌, ◌==◌, if◌then◌else◌, length, Result, ok, raise,
}
use byo_redis.Text.{Bytes, Str}
use byo_redis.Storage.Expiry.{Clock}
use byo_redis.Storage.Store.{Store}
use byo_redis.Persistence.Aof.{AppendError, AofError, read_commands}
use byo_redis.Persistence.Rdb.{RdbError, load_rdb_into}
use byo_redis.Server.State.{Server, Origin, World}
use byo_redis.Server.Execute.{execute}

pub data LoadError : Type 0 where
  bad_log : AofError → LoadError
  bad_snapshot : RdbError → LoadError

-- execute(argv, is_loading=True, is_replica_client=True)
abbrev pub loader : Origin
loader = record { connection_id = 0; is_replica_client = true; is_loading = true }

module _ (os_text : AppendError → Str) where
  -- The loop of `replay_aof`; the world of each command is its own.
  unfoldable pub replay : (ℕ → World) → List (List Bytes) → Server → Server
  unfolding execute
  replay worlds [] s = s
  replay worlds (argv ∷ more) s =
      replay (λ i. worlds (suc i)) more (execute os_text (worlds 0) loader argv s).1

  unfoldable pub replay_log :
      (ℕ → World)
      → Result AofError (List (List Bytes))
      → Server
      → Result LoadError (Unit {0}) × Server
  unfolding replay
  replay_log worlds (ok commands) s = (ok tt, replay worlds commands s)
  replay_log worlds (raise e) s = (raise (bad_log e), s)

  unfoldable pub load_snapshot :
      Result RdbError ℕ × Store → Server → Result LoadError (Unit {0}) × Server
  load_snapshot (ok n, store) s = (ok tt, record s { store = store })
  load_snapshot (raise e, store) s = (raise (bad_snapshot e), record s { store = store })

  unfoldable pub load_persistence :
      (ℕ → World) → Clock → ℕ → ℕ → Bytes → Bytes → Server → Result LoadError (Unit {0}) × Server
  unfolding replay_log load_snapshot
  load_persistence worlds clock max_bulk_len max_load_bytes log snapshot s =
      if s.config.aof_enabled && not (length log == 0)
      then replay_log worlds (read_commands max_bulk_len max_load_bytes log) s
      else if not (length snapshot == 0)
      then load_snapshot (load_rdb_into max_load_bytes clock snapshot s.store) s
      else (ok tt, s)
