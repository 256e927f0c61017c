-- ===== src/Server/Keeps.antt =====
-- The handlers of Server/Admins and AUTH on a valid store.
use byo_redis.Prelude.{
  ℕ, ◌≡◌, refl, subst, sym, Bool, true, false, not, Option, none, some, List, [], ◌∷◌, ◌++◌,
  if◌then◌else◌, if_cases, inl, Result, ok, raise,
}
use byo_redis.Text.{Bytes, Str, codes, text_eq, upper, lower}
use byo_redis.Text.Utf8.{decode, encode}
use byo_redis.Dict.{bytes_eq}
use byo_redis.Config.{Config}
use byo_redis.Protocol.Object.{simple}
use byo_redis.Protocol.Encoder.{encode_value, encode_simple_string, has_newline}
use byo_redis.Storage.Expiry.{Clock, tick}
use byo_redis.Storage.Store.{Store, StoreError}
use byo_redis.Storage.Sweep.{snapshot}
use byo_redis.Storage.Sweep.Keeps.{snapshot-IsLoadable, purge-IsValid, keyspace_stats-IsValid}
use byo_redis.Storage.Memory.{memory_usage}
use byo_redis.Storage.Valid.{IsValid}
use byo_redis.Commands.Base.{Reply, value, error, crash, silent, arity}
use byo_redis.Commands.Answers.{Answers, IsEncodable, bulk-Answers, bulks-Answers, ok-Answers}
use byo_redis.Commands.Registry.{Admin, info, save, bgsave, bgrewriteaof, config, psync}
use byo_redis.Persistence.Rdb.{RdbError, dump_rdb_bytes}
use byo_redis.Replication.Master.{MasterReplication}
use byo_redis.Replication.Sync.{full_resync}
use byo_redis.Server.State.{
  Server, World, Disk, works, no_directory, no_file, cmd_auth, contains, authenticate, is_some,
}
use byo_redis.Server.Guards.{cmd_auth-SameData}
use byo_redis.Server.Admins.{
  info_text, server_lines, replication_lines, info_reply, info_lines, cmd_info, keyspace_lines,
  write_snapshot, dump_rdb, save_rdb_sync, save_reply, cmd_save, cmd_bgsave, cmd_bgrewriteaof,
  config_pairs, config_other, config_sub, cmd_config, cmd_psync, admin_command,
}

-- A reply whose object can be encoded, if it is no long integer; an internal error is answered as such.
abbrev pub Encodes : Reply → Type 0
Encodes (value o) = IsEncodable o
Encodes (error message) = Unit
Encodes crash = Unit
Encodes silent = Unit

pub Encodes-of_Answers : (r : Reply) → Answers r → Encodes r
Encodes-of_Answers (value o) h = h
Encodes-of_Answers (error message) h = tt
Encodes-of_Answers crash h = tt
Encodes-of_Answers silent h = tt

-- What a handler gives: such a reply, and a valid store.
abbrev pub Handled : Reply × Server → Type 0
Handled (r, s) = Encodes r × IsValid s.store

info_text-Encodes : (before : List Str) (o : Option (List Str)) → Encodes (info_text before o)
info_text-Encodes before none = tt
info_text-Encodes before (some lines) = bulk-Answers _

info_reply-Encodes :
    (w : World) (stats : ℕ × ℕ × ℕ) (used : Result StoreError ℕ) (s : Server)
    → Encodes (info_reply w stats used s)
unfolding info_reply
info_reply-Encodes w stats (ok used) s =
    info_text-Encodes (server_lines w used s ++ replication_lines s) (keyspace_lines w stats s)
info_reply-Encodes w stats (raise e) s = tt

info_lines-Handled : (w : World) (s : Server) → IsValid s.store → Handled (info_lines w s)
unfolding info_lines memory_usage
info_lines-Handled w s h = (
  info_reply-Encodes w _ _ _,
  purge-IsValid (tick (tick w.during)) (keyspace_stats-IsValid w.during h),
)

cmd_info-Handled :
    (w : World) (argv : List Bytes) (s : Server) → IsValid s.store → Handled (cmd_info w argv s)
unfolding cmd_info arity
cmd_info-Handled w [] s h = info_lines-Handled w s h
cmd_info-Handled w (name ∷ []) s h = info_lines-Handled w s h
cmd_info-Handled w (name ∷ section ∷ []) s h = info_lines-Handled w s h
cmd_info-Handled w (name ∷ section ∷ more ∷ rest) s h = (tt, h)

write_snapshot-store :
    (w : World) (disk : Disk) (payload : Result RdbError Bytes) (s : Server)
    → (write_snapshot w disk payload s).1.store ≡ s.store
unfolding write_snapshot
write_snapshot-store w works (ok payload) s = refl
write_snapshot-store w (no_directory text) (ok payload) s = refl
write_snapshot-store w (no_file text) (ok payload) s = refl
write_snapshot-store w works (raise e) s = refl
write_snapshot-store w (no_directory text) (raise e) s = refl
write_snapshot-store w (no_file text) (raise e) s = refl

dump_rdb-IsValid :
    (w : World) (disk : Disk) (s : Server) → IsValid s.store → IsValid (dump_rdb w disk s).1.store
unfolding dump_rdb dump_rdb_bytes
dump_rdb-IsValid w works s h =
    rw (write_snapshot-store w works _ (record s { store = (snapshot w.during s.store).1 }))
      (snapshot-IsLoadable w.during s.store h).1
dump_rdb-IsValid w (no_directory text) s h = h
dump_rdb-IsValid w (no_file text) s h =
    rw
      (write_snapshot-store w (no_file text) _ (record s { store = (snapshot w.during s.store).1 }))
      (snapshot-IsLoadable w.during s.store h).1

pub save_rdb_sync-IsValid :
    (w : World) (s : Server) → IsValid s.store → IsValid (save_rdb_sync w s).1.store
unfolding save_rdb_sync
save_rdb_sync-IsValid w s h = dump_rdb-IsValid w w.disk s h

save_reply-Encodes : (r : Result (Option Str) (Unit {0})) → Encodes (save_reply r)
unfolding save_reply
save_reply-Encodes (ok _) = ok-Answers
save_reply-Encodes (raise (some text)) = tt
save_reply-Encodes (raise none) = tt

cmd_save-Handled :
    (w : World) (argv : List Bytes) (s : Server) → IsValid s.store → Handled (cmd_save w argv s)
unfolding cmd_save arity
cmd_save-Handled w [] s h = (tt, h)
cmd_save-Handled w (name ∷ []) s h =
    (save_reply-Encodes (save_rdb_sync w s).0, save_rdb_sync-IsValid w s h)
cmd_save-Handled w (name ∷ x ∷ xs) s h = (tt, h)

bgsave_started-Encodes : Encodes (value (simple (codes "Background saving started")))
unfolding encode_value encode_simple_string has_newline encode
bgsave_started-Encodes = inl (_, refl)

rewrite_started-Encodes :
    Encodes (value (simple (codes "Background append only file rewriting started")))
unfolding encode_value encode_simple_string has_newline encode
rewrite_started-Encodes = inl (_, refl)

cmd_bgsave-Handled :
    (argv : List Bytes) (s : Server) → IsValid s.store → Handled (cmd_bgsave argv s)
unfolding cmd_bgsave arity
cmd_bgsave-Handled [] s h = (tt, h)
cmd_bgsave-Handled (name ∷ []) s h =
    if_cases Handled s.bgsave_running (λ _. (tt, h)) (λ _. (bgsave_started-Encodes, h))
cmd_bgsave-Handled (name ∷ x ∷ xs) s h = (tt, h)

cmd_bgrewriteaof-Handled :
    (argv : List Bytes) (s : Server) → IsValid s.store → Handled (cmd_bgrewriteaof argv s)
unfolding cmd_bgrewriteaof arity
cmd_bgrewriteaof-Handled [] s h = (tt, h)
cmd_bgrewriteaof-Handled (name ∷ []) s h =
    if_cases Handled (not s.config.aof_enabled) (λ _. (tt, h))
      (λ _.
        if_cases Handled s.aof_rewrite_running (λ _. (tt, h)) (λ _. (rewrite_started-Encodes, h)))
cmd_bgrewriteaof-Handled (name ∷ x ∷ xs) s h = (tt, h)

config_other-Encodes : (sub : Bytes) → Encodes (config_other sub)
unfolding config_other
config_other-Encodes sub = if_cases Encodes (text_eq (encode (decode sub)) sub) (λ _. tt) (λ _. tt)

config_sub-Encodes :
    (sub : Bytes) (args : List Bytes) (c : Config) → Encodes (config_sub sub args c)
unfolding config_sub arity
config_sub-Encodes sub [] c =
    if_cases Encodes (text_eq sub (codes "GET")) (λ _. tt)
      (λ _. if_cases Encodes (text_eq sub (codes "SET")) (λ _. tt) (λ _. config_other-Encodes sub))
config_sub-Encodes sub (pattern ∷ []) c =
    if_cases Encodes (text_eq sub (codes "GET"))
      (λ _. bulks-Answers (config_pairs (lower (decode pattern)) c))
      (λ _. if_cases Encodes (text_eq sub (codes "SET")) (λ _. tt) (λ _. config_other-Encodes sub))
config_sub-Encodes sub (pattern ∷ x ∷ xs) c =
    if_cases Encodes (text_eq sub (codes "GET")) (λ _. tt)
      (λ _. if_cases Encodes (text_eq sub (codes "SET")) (λ _. tt) (λ _. config_other-Encodes sub))

cmd_config-Handled :
    (argv : List Bytes) (s : Server) → IsValid s.store → Handled (cmd_config argv s)
unfolding cmd_config arity
cmd_config-Handled [] s h = (tt, h)
cmd_config-Handled (name ∷ []) s h = (tt, h)
cmd_config-Handled (name ∷ sub ∷ args) s h = (config_sub-Encodes (upper sub) args s.config, h)

-- A resynchronization only takes a snapshot of the store.
pub full_resync-IsValid :
    (fails : Bool) (clock : Clock) (id : ℕ) (s : Store) (m : MasterReplication)
    → IsValid s
    → IsValid (full_resync fails clock id s m).1
unfolding full_resync
full_resync-IsValid fails clock id s m h = (snapshot-IsLoadable clock s h).1

sent-Encodes : (done : Bool) → Encodes (if done then silent else crash)
sent-Encodes true = tt
sent-Encodes false = tt

cmd_psync-Handled :
    (w : World) (id : ℕ) (argv : List Bytes) (s : Server)
    → IsValid s.store
    → Handled (cmd_psync w id argv s)
unfolding cmd_psync arity
cmd_psync-Handled w id [] s h = (tt, h)
cmd_psync-Handled w id (name ∷ []) s h = (tt, h)
cmd_psync-Handled w id (name ∷ replid ∷ []) s h = (tt, h)
cmd_psync-Handled w id (name ∷ replid ∷ offset ∷ []) s h =
    if_cases Handled (contains s.writers id)
      (λ _. (sent-Encodes _, full_resync-IsValid (w.fails id) w.during id s.store s.master h))
      (λ _. (tt, h))
cmd_psync-Handled w id (name ∷ replid ∷ offset ∷ x ∷ xs) s h = (tt, h)

cmd_auth-Encodes : (id : ℕ) (argv : List Bytes) (s : Server) → Encodes (cmd_auth id argv s).0
unfolding cmd_auth arity
cmd_auth-Encodes id [] s = tt
cmd_auth-Encodes id (name ∷ []) s = tt
cmd_auth-Encodes id (name ∷ password ∷ []) s =
    if_cases (λ (r : Reply × Server). Encodes r.0) (not (is_some s.config.requirepass)) (λ _. tt)
      (λ _.
        if_cases (λ (r : Reply × Server). Encodes r.0) (authenticate id password s).0
          (λ _. ok-Answers) (λ _. tt))
cmd_auth-Encodes id (name ∷ password ∷ x ∷ xs) s = tt

pub admin_command-Handled :
    (a : Admin) (w : World) (id : ℕ) (argv : List Bytes) (s : Server)
    → IsValid s.store
    → Handled (admin_command a w id argv s)
unfolding admin_command
admin_command-Handled info w id argv s h = cmd_info-Handled w argv s h
admin_command-Handled save w id argv s h = cmd_save-Handled w argv s h
admin_command-Handled bgsave w id argv s h = cmd_bgsave-Handled argv s h
admin_command-Handled bgrewriteaof w id argv s h = cmd_bgrewriteaof-Handled argv s h
admin_command-Handled config w id argv s h = cmd_config-Handled argv s h
admin_command-Handled psync w id argv s h = cmd_psync-Handled w id argv s h

pub cmd_auth-Handled :
    (id : ℕ) (argv : List Bytes) (s : Server) → IsValid s.store → Handled (cmd_auth id argv s)
cmd_auth-Handled id argv s h =
    (cmd_auth-Encodes id argv s, subst IsValid (sym (cmd_auth-SameData id argv s).0) h)
