-- ===== src/Server/Frame.antt =====
-- byo_redis/server.py: what no command changes of the connections, but for AUTH, which may add the one
-- that it came from to those that are authenticated.
pub mod Runs
use byo_redis.Prelude.{
  ℕ, suc, ◌≡◌, refl, sym, subst, Bool, true, false, not, ◌&&◌, Option, none, some, List, [], ◌∷◌,
  if◌then◌else◌, if_cases, Result, ok, raise, All,
}
use byo_redis.Text.{Bytes, Str, text_eq}
use byo_redis.Text.Utf8.{encode}
use byo_redis.Dict.{Dict}
use byo_redis.Protocol.Object.{Object}
use byo_redis.Protocol.Encoder.{encode_value}
use byo_redis.Storage.Types.{KeyEntry}
use byo_redis.Storage.Store.{memory_limit, wrong_type, assertion}
use byo_redis.Storage.Sweep.{snapshot}
use byo_redis.Storage.Memory.{Evicted, enforce_memory_limit}
use byo_redis.Commands.Base.{Reply, value, error, crash, silent, is_write}
use byo_redis.Commands.Registry.{
  Admin, info, save, bgsave, bgrewriteaof, config, psync, Handler, plain, on_store, auth, admin,
  find_handler,
}
use byo_redis.Persistence.Aof.{AppendError, append}
use byo_redis.Persistence.Rdb.{RdbError, dump_rdb_bytes}
use byo_redis.Server.State.{
  Server, Origin, World, Disk, works, no_directory, no_file, Answer, is_some, contains,
  command_name, count_failure, authenticate, cmd_auth,
}
use byo_redis.Server.Admins.{
  info_lines, cmd_info, write_snapshot, dump_rdb, save_rdb_sync, cmd_save, cmd_bgsave,
  cmd_bgrewriteaof, cmd_config, cmd_psync, admin_command,
}
use byo_redis.Server.Execute.{
  call, call_found, dispatch, encoded, append_failed, proceed, record_all, log_only, deletions,
  finish, after_limit, after_dispatch, needs_auth, log_is_down, run_command, execute,
}

-- Since the server was in state `base`, the connection `id` has only run commands.
module _ (base : Server) (id : ℕ) where
  abbrev pub Kept : Server → Type 1
  Kept s =
      (s.config ≡ base.config)
      × (s.client_count ≡ base.client_count)
      × (s.conn_seq ≡ base.conn_seq)
      × ((P : ℕ → Type 0)
          → P id
          → All P base.authenticated_connections
          → All P s.authenticated_connections)

  abbrev pub KeptBy {ℓ} : {A : Type ℓ} → A × Server → Type 1
  KeptBy (a, s) = Kept s

  cmd_info-Kept : (w : World) (argv : List Bytes) (s : Server) → Kept s → KeptBy (cmd_info w argv s)
  unfolding cmd_info info_lines
  cmd_info-Kept w [] s h = h
  cmd_info-Kept w (name ∷ []) s h = h
  cmd_info-Kept w (name ∷ section ∷ []) s h = h
  cmd_info-Kept w (name ∷ section ∷ more ∷ rest) s h = h

  write_snapshot-Kept :
      (w : World) (disk : Disk) (payload : Result RdbError Bytes) (s : Server)
      → Kept s
      → KeptBy (write_snapshot w disk payload s)
  unfolding write_snapshot
  write_snapshot-Kept w works (ok payload) s h = h
  write_snapshot-Kept w (no_directory text) (ok payload) s h = h
  write_snapshot-Kept w (no_file text) (ok payload) s h = h
  write_snapshot-Kept w works (raise e) s h = h
  write_snapshot-Kept w (no_directory text) (raise e) s h = h
  write_snapshot-Kept w (no_file text) (raise e) s h = h

  dump_rdb-Kept : (w : World) (disk : Disk) (s : Server) → Kept s → KeptBy (dump_rdb w disk s)
  unfolding dump_rdb
  dump_rdb-Kept w works s h =
      write_snapshot-Kept w works _ (record s { store = (dump_rdb_bytes w.during s.store).1 }) h
  dump_rdb-Kept w (no_directory text) s h = h
  dump_rdb-Kept w (no_file text) s h =
      write_snapshot-Kept w (no_file text) _
        (record s { store = (dump_rdb_bytes w.during s.store).1 }) h

  cmd_save-Kept : (w : World) (argv : List Bytes) (s : Server) → Kept s → KeptBy (cmd_save w argv s)
  unfolding cmd_save save_rdb_sync
  cmd_save-Kept w [] s h = h
  cmd_save-Kept w (name ∷ []) s h = dump_rdb-Kept w w.disk s h
  cmd_save-Kept w (name ∷ x ∷ xs) s h = h

  cmd_bgsave-Kept : (argv : List Bytes) (s : Server) → Kept s → KeptBy (cmd_bgsave argv s)
  unfolding cmd_bgsave
  cmd_bgsave-Kept [] s h = h
  cmd_bgsave-Kept (name ∷ []) s h =
      if_cases (λ (r : Reply × Server). KeptBy r) s.bgsave_running (λ _. h) (λ _. h)
  cmd_bgsave-Kept (name ∷ x ∷ xs) s h = h

  cmd_bgrewriteaof-Kept :
      (argv : List Bytes) (s : Server) → Kept s → KeptBy (cmd_bgrewriteaof argv s)
  unfolding cmd_bgrewriteaof
  cmd_bgrewriteaof-Kept [] s h = h
  cmd_bgrewriteaof-Kept (name ∷ []) s h =
      if_cases (λ (r : Reply × Server). KeptBy r) (not s.config.aof_enabled) (λ _. h)
        (λ _. if_cases (λ (r : Reply × Server). KeptBy r) s.aof_rewrite_running (λ _. h) (λ _. h))
  cmd_bgrewriteaof-Kept (name ∷ x ∷ xs) s h = h

  cmd_config-Kept : (argv : List Bytes) (s : Server) → Kept s → KeptBy (cmd_config argv s)
  unfolding cmd_config
  cmd_config-Kept [] s h = h
  cmd_config-Kept (name ∷ []) s h = h
  cmd_config-Kept (name ∷ sub ∷ args) s h = h

  cmd_psync-Kept :
      (w : World) (argv : List Bytes) (s : Server) → Kept s → KeptBy (cmd_psync w id argv s)
  unfolding cmd_psync
  cmd_psync-Kept w [] s h = h
  cmd_psync-Kept w (name ∷ []) s h = h
  cmd_psync-Kept w (name ∷ replid ∷ []) s h = h
  cmd_psync-Kept w (name ∷ replid ∷ offset ∷ []) s h =
      if_cases (λ (r : Reply × Server). KeptBy r) (contains s.writers id) (λ _. h) (λ _. h)
  cmd_psync-Kept w (name ∷ replid ∷ offset ∷ x ∷ xs) s h = h

  pub admin_command-Kept :
      (a : Admin) (w : World) (argv : List Bytes) (s : Server)
      → Kept s
      → KeptBy (admin_command a w id argv s)
  unfolding admin_command
  admin_command-Kept info w argv s h = cmd_info-Kept w argv s h
  admin_command-Kept save w argv s h = cmd_save-Kept w argv s h
  admin_command-Kept bgsave w argv s h = cmd_bgsave-Kept argv s h
  admin_command-Kept bgrewriteaof w argv s h = cmd_bgrewriteaof-Kept argv s h
  admin_command-Kept config w argv s h = cmd_config-Kept argv s h
  admin_command-Kept psync w argv s h = cmd_psync-Kept w argv s h

  authenticate-Kept :
      (password : Bytes) (s : Server) (o : Option Str)
      → s.config.requirepass ≡ o
      → Kept s
      → KeptBy (authenticate id password s)
  unfolding authenticate
  authenticate-Kept password s none e h = rw e (rw e at h)
  authenticate-Kept password s (some configured) e h =
      let k = (rw e at h) in
      rw e (
        if_cases (λ (r : Bool × Server). KeptBy r) (text_eq (encode configured) password)
          (λ _. (k.0, k.1, k.2, λ P here all. (here, k.3 P here all))) (λ _. k))

  pub cmd_auth-Kept : (argv : List Bytes) (s : Server) → Kept s → KeptBy (cmd_auth id argv s)
  unfolding cmd_auth
  cmd_auth-Kept [] s h = h
  cmd_auth-Kept (name ∷ []) s h = h
  cmd_auth-Kept (name ∷ password ∷ []) s h =
      let kept = authenticate-Kept password s s.config.requirepass refl h in
      if_cases (λ (r : Reply × Server). KeptBy r) (not (is_some s.config.requirepass)) (λ _. h)
        (λ _.
          if_cases (λ (r : Reply × Server). KeptBy r) (authenticate id password s).0 (λ _. kept)
            (λ _. kept))
  cmd_auth-Kept (name ∷ password ∷ x ∷ xs) s h = h
