-- ===== src/Server/Execute.antt =====
-- byo_redis/server.py, _execute and _execute_inner: a command from a client, from the log that is
-- replayed, or from the master. Also CommandRegistry.dispatch of byo_redis/commands/registry.py.
use byo_redis.Prelude.{
  ℕ, suc, Bool, not, ◌&&◌, Option, none, some, List, [], ◌∷◌, ◌++◌, if◌then◌else◌, Result, ok,
  raise,
}
use byo_redis.Text.{Bytes, Str, codes, text_eq, upper}
use byo_redis.Dict.{Dict, bytes_eq}
use byo_redis.Protocol.Object.{Object}
use byo_redis.Protocol.Encoder.{
  EncodeError, value_error, type_error, str, encode_error, encode_value,
}
use byo_redis.Storage.Types.{KeyEntry}
use byo_redis.Storage.Store.{memory_limit, load_entries}
use byo_redis.Storage.Sweep.{snapshot}
use byo_redis.Storage.Memory.{Evicted, enforce_memory_limit}
use byo_redis.Commands.Base.{Reply, value, error, crash, is_write, readonly_error, unknown_command}
use byo_redis.Commands.Registry.{Handler, plain, on_store, auth, admin, find_handler}
use byo_redis.Persistence.Aof.{AppendError, healthy, append}
use byo_redis.Replication.Master.{propagate}
use byo_redis.Server.State.{
  Server, Origin, World, Answer, replied, no_reply, escapes, contains, is_some, command_name,
  count_failure, cmd_auth,
}
use byo_redis.Server.Admins.{admin_command}

-- `os_text` is what str() of an OSError of the log says.
module _ (os_text : AppendError → Str) where
  unfoldable pub call : Handler → World → ℕ → List Bytes → Server → Reply × Server
  unfolding cmd_auth admin_command
  call (plain f) w id argv s = (f argv, s)
  call (on_store f) w id argv s =
      let (r, store) = f w.during argv s.store in (r, record s { store = store })
  call auth w id argv s = cmd_auth id argv s
  call (admin a) w id argv s = admin_command a w id argv s

  unfoldable pub call_found :
      Option Handler → World → Origin → Bytes → List Bytes → Server → Reply × Server
  unfolding call
  call_found none w origin name argv s = (error (unknown_command name), s)
  call_found (some h) w origin name argv s =
      if s.config.is_replica
        && is_write (upper name)
        && not origin.is_replica_client
        && not origin.is_loading
      then (error readonly_error, s)
      else call h w origin.connection_id argv s

  -- CommandRegistry.dispatch
  unfoldable pub dispatch : World → Origin → List Bytes → Server → Reply × Server
  unfolding call_found find_handler
  dispatch w origin [] s = (error (codes "ERR empty command"), s)
  dispatch w origin (name ∷ args) s = call_found (find_handler name) w origin name (name ∷ args) s

  unfoldable pub encoded : Result EncodeError Bytes → Answer
  encoded (ok b) = replied b
  encoded (raise type_error) = replied (encode_error (str (codes "ERR internal error")))
  encoded (raise value_error) = escapes

  unfoldable pub append_failed : AppendError → Server → Answer × Server
  append_failed e s = (
    replied (encode_error (str (codes "MISCONF AOF persistence failed: " ++ os_text e))),
    count_failure s,
  )

  -- Behind an `append`: what comes next, or the report of its failure.
  unfoldable pub proceed :
      Result AppendError (Unit {0}) → Answer × Server → Server → Answer × Server
  unfolding append_failed
  proceed (ok _) next logged = next
  proceed (raise e) next logged = append_failed e logged

  -- A command is logged and then propagated; where the log fails, the rest is left out. The number is
  -- that of the items logged before.
  unfoldable pub record_all : World → ℕ → List (List Bytes) → Answer → Server → Answer × Server
  unfolding proceed
  record_all w n [] answer s = (answer, s)
  record_all w n (argv ∷ more) answer s =
      let step = append (w.outcomes n) argv s.aof in
      let sent : Server = record s { aof = step.1; master = (propagate w.fails argv s.master).0 } in
      proceed step.0 (record_all w (suc n) more answer sent) (record s { aof = step.1 })

  unfoldable pub log_only : World → List Bytes → Answer → Server → Answer × Server
  unfolding proceed
  log_only w argv answer s =
      let step = append (w.outcomes 0) argv s.aof in
      let logged : Server = record s { aof = step.1 } in proceed step.0 (answer, logged) logged

  abbrev pub deletions : List Bytes → List (List Bytes)
  deletions [] = []
  deletions (key ∷ keys) = (codes "DEL" ∷ key ∷ []) ∷ deletions keys

  -- What follows a command that has returned: the log and the replicas, then the reply.
  unfoldable pub finish :
      World → Origin → List Bytes → List Bytes → Object → Server → Answer × Server
  unfolding record_all log_only encoded encode_value
  finish w origin argv evicted result s =
      let answer : Answer = encoded (encode_value result) in
      if is_write (command_name argv)
        && not origin.is_loading
        && not origin.is_replica_client
        && not s.config.is_replica
      then record_all w 0 (argv ∷ deletions evicted) answer s
      else if is_write (command_name argv) && origin.is_replica_client && not origin.is_loading
      then log_only w argv answer s
      else (answer, s)

  -- Behind `enforce_memory_limit`; a store over its limit gets back the entries from before.
  unfoldable pub after_limit :
      World → Origin → List Bytes → Dict Bytes KeyEntry → Reply → Evicted → Server → Answer × Server
  unfolding finish
  after_limit w origin argv before (value result) (ok evicted, store) s =
      finish w origin argv evicted result (record s { store = store })
  after_limit w origin argv before _ (ok evicted, store) s = (no_reply, record s { store = store })
  after_limit w origin argv before reply (raise memory_limit, store) s = (
    replied (encode_error (str (codes "OOM command not allowed when used memory > maxmemory"))),
    count_failure (record s { store = load_entries before store }),
  )
  after_limit w origin argv before reply (raise _, store) s = (escapes, record s { store = store })

  -- Behind `dispatch`.
  unfoldable pub after_dispatch :
      World → Origin → List Bytes → Dict Bytes KeyEntry → Reply → Server → Answer × Server
  unfolding after_limit
  after_dispatch w origin argv before (error message) s =
      (replied (encode_error (str message)), count_failure s)
  after_dispatch w origin argv before crash s =
      (replied (encode_error (str (codes "ERR internal error"))), count_failure s)
  after_dispatch w origin argv before reply s =
      if is_write (command_name argv)
      then after_limit w origin argv before reply (enforce_memory_limit w.after s.store) s
      else after_limit w origin argv before reply (ok [], s.store) s

  -- The first guard of `_execute_inner`
  unfoldable pub needs_auth : Origin → List Bytes → Server → Bool
  needs_auth origin argv s =
      is_some s.config.requirepass
      && not (contains s.authenticated_connections origin.connection_id)
      && not (text_eq (command_name argv) (codes "AUTH"))
      && not origin.is_loading
      && not origin.is_replica_client

  -- The second
  unfoldable pub log_is_down : Origin → List Bytes → Server → Bool
  log_is_down origin argv s =
      is_write (command_name argv)
      && s.config.aof_enabled
      && not (healthy s.aof)
      && not origin.is_loading
      && not origin.is_replica_client

  -- `_execute_inner` behind its guards
  unfoldable pub run_command : World → Origin → List Bytes → Server → Answer × Server
  unfolding dispatch after_dispatch
  run_command w origin argv s =
      let (before, cleaned) = snapshot w.before s.store in
      let start : Server =
        if is_write (command_name argv) then record s { store = cleaned } else s in
      let (reply, s') = dispatch w origin argv start in after_dispatch w origin argv before reply s'

  -- `_execute`: the write lock makes the whole of it one step.
  unfoldable pub execute : World → Origin → List Bytes → Server → Answer × Server
  unfolding needs_auth log_is_down run_command
  execute w origin argv s =
      if needs_auth origin argv s
      then (replied (encode_error (str (codes "NOAUTH Authentication required."))), count_failure s)
      else if log_is_down origin argv s
      then (
        replied (encode_error (str (codes "MISCONF AOF persistence is unhealthy"))),
        count_failure s,
      )
      else run_command w origin argv s
