-- ===== src/Server/Loading/Restarts.antt =====
-- byo_redis/server.py, _load_persistence: the store that the server starts with.
use byo_redis.Prelude.{
  ℕ, suc, not, ◌&&◌, List, [], ◌∷◌, ◌==◌, if_cases, Result, ok, raise, length, Result-cases, inl,
  inr,
}
use byo_redis.Text.{Bytes, Str}
use byo_redis.Storage.Expiry.{Clock}
use byo_redis.Storage.Store.{Store}
use byo_redis.Storage.Store.Keeps.{IsLoadable, load_entries-IsValid}
use byo_redis.Storage.Valid.{IsValid}
use byo_redis.Persistence.Aof.{AppendError, AofError, read_commands}
use byo_redis.Persistence.Rdb.{RdbError, load_rdb_into, load_rdb_bytes}
use byo_redis.Persistence.Rdb.Reads.{load_rdb_bytes-Loadable}
use byo_redis.Server.State.{Server, World}
use byo_redis.Server.Valid.{execute-IsSafe}
use byo_redis.Server.Loading.{
  LoadError, loader, replay, replay_log, load_snapshot, load_persistence,
}

load_rdb_into-IsValid :
    (max : ℕ) (clock : Clock) (content : Bytes) (s : Store)
    → IsValid s
    → IsValid (load_rdb_into max clock content s).1
unfolding load_rdb_into
load_rdb_into-IsValid max clock content s h =
    elim (Result-cases (load_rdb_bytes max clock content)) [
      | inr (x, e) ↦ rw (load_rdb_into, e) h
      | inl (entries, e) ↦
          let loadable : IsLoadable entries =
            (rw e at (load_rdb_bytes-Loadable max clock content)) in
          rw (load_rdb_into, e) (load_entries-IsValid entries s loadable)
    ]

module _ (os_text : AppendError → Str) where
  replay-IsValid :
      (worlds : ℕ → World) (commands : List (List Bytes)) (s : Server)
      → IsValid s.store
      → IsValid (replay os_text worlds commands s).store
  unfolding replay
  replay-IsValid worlds [] s h = h
  replay-IsValid worlds (argv ∷ more) s h =
      replay-IsValid (λ i. worlds (suc i)) more _
        (execute-IsSafe os_text (worlds 0) loader argv s h).1

  replay_log-IsValid :
      (worlds : ℕ → World) (r : Result AofError (List (List Bytes))) (s : Server)
      → IsValid s.store
      → IsValid (replay_log os_text worlds r s).1.store
  unfolding replay_log
  replay_log-IsValid worlds (ok commands) s h = replay-IsValid worlds commands s h
  replay_log-IsValid worlds (raise e) s h = h

  load_snapshot-IsValid :
      (p : Result RdbError ℕ × Store) (s : Server)
      → IsValid p.1
      → IsValid (load_snapshot os_text p s).1.store
  unfolding load_snapshot
  load_snapshot-IsValid (ok n, store) s h = h
  load_snapshot-IsValid (raise e, store) s h = h

  -- Whatever bytes the log and the snapshot hold, damaged or made up, and whatever the limits are: the
  -- server starts with a valid store, or stops with an error and the store is valid all the same, when it was
  -- before.
  pub load_persistence-IsValid :
      (worlds : ℕ → World) (clock : Clock) (max_bulk_len max_load_bytes : ℕ) (log snapshot : Bytes)
      (s : Server)
      → IsValid s.store
      → IsValid
          (load_persistence os_text worlds clock max_bulk_len max_load_bytes log snapshot s).1.store
  unfolding load_persistence
  load_persistence-IsValid worlds clock max_bulk_len max_load_bytes log snapshot s h =
      if_cases (λ (r : Result LoadError (Unit {0}) × Server). IsValid r.1.store)
        (s.config.aof_enabled && not (length log == 0))
        {x = replay_log os_text worlds (read_commands max_bulk_len max_load_bytes log) s}
        (λ _. replay_log-IsValid worlds (read_commands max_bulk_len max_load_bytes log) s h)
        (λ _.
          if_cases (λ (r : Result LoadError (Unit {0}) × Server). IsValid r.1.store)
            (not (length snapshot == 0))
            {x = load_snapshot os_text (load_rdb_into max_load_bytes clock snapshot s.store) s}
            {y = (ok tt, s)}
            (λ _.
              load_snapshot-IsValid _ s
                (load_rdb_into-IsValid max_load_bytes clock snapshot s.store h))
            (λ _. h))
