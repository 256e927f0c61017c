-- ===== src/Server/Frame/Runs.antt =====
-- byo_redis/server.py, _execute: what a command that is executed leaves of the connections.
use byo_redis.Prelude.{
  ℕ, suc, ◌≡◌, sym, subst, Bool, true, false, not, ◌&&◌, Option, none, some, List, [], ◌∷◌,
  if◌then◌else◌, if_cases, Result, ok, raise,
}
use byo_redis.Text.{Bytes, Str}
use byo_redis.Dict.{Dict}
use byo_redis.Protocol.Object.{Object}
use byo_redis.Protocol.Encoder.{encode_value}
use byo_redis.Storage.Types.{KeyEntry}
use byo_redis.Storage.Store.{memory_limit, wrong_type, assertion}
use byo_redis.Storage.Sweep.{snapshot}
use byo_redis.Storage.Memory.{Evicted, enforce_memory_limit}
use byo_redis.Commands.Base.{Reply, value, error, crash, silent, is_write}
use byo_redis.Commands.Registry.{Handler, plain, on_store, auth, admin, find_handler}
use byo_redis.Persistence.Aof.{AppendError, append}
use byo_redis.Server.State.{Server, Origin, World, Answer, command_name, count_failure}
use byo_redis.Server.Execute.{
  call, call_found, dispatch, encoded, append_failed, proceed, record_all, log_only, deletions,
  finish, after_limit, after_dispatch, needs_auth, log_is_down, run_command, execute,
}
use byo_redis.Server.Frame.{Kept, KeptBy, cmd_auth-Kept, admin_command-Kept}

module _ (base : Server) (id : ℕ) (os_text : AppendError → Str) where
  call-Kept :
      (c : Handler) (w : World) (argv : List Bytes) (s : Server)
      → Kept base id s
      → KeptBy base id (call os_text c w id argv s)
  unfolding call
  call-Kept (plain f) w argv s h = h
  call-Kept (on_store f) w argv s h = h
  call-Kept auth w argv s h = cmd_auth-Kept base id argv s h
  call-Kept (admin a) w argv s h = admin_command-Kept base id a w argv s h

  call_found-Kept :
      (o : Option Handler) (w : World) (origin : Origin) (name : Bytes) (argv : List Bytes)
      (s : Server)
      → origin.connection_id ≡ id
      → Kept base id s
      → KeptBy base id (call_found os_text o w origin name argv s)
  unfolding call_found
  call_found-Kept none w origin name argv s e h = h
  call_found-Kept (some c) w origin name argv s e h =
      if_cases (λ (r : Reply × Server). KeptBy base id r) _
        {y = call os_text c w origin.connection_id argv s} (λ _. h)
        (λ _.
          subst (λ i. KeptBy base id (call os_text c w i argv s)) (sym e) (call-Kept c w argv s h))

  dispatch-Kept :
      (w : World) (origin : Origin) (argv : List Bytes) (s : Server)
      → origin.connection_id ≡ id
      → Kept base id s
      → KeptBy base id (dispatch os_text w origin argv s)
  unfolding dispatch
  dispatch-Kept w origin [] s e h = h
  dispatch-Kept w origin (name ∷ args) s e h =
      call_found-Kept (find_handler name) w origin name (name ∷ args) s e h

  proceed-Kept :
      (r : Result AppendError (Unit {0})) (next : Answer × Server) (logged : Server)
      → KeptBy base id next
      → Kept base id logged
      → KeptBy base id (proceed os_text r next logged)
  unfolding proceed append_failed count_failure
  proceed-Kept (ok _) next logged h k = h
  proceed-Kept (raise e) next logged h k = k

  record_all-Kept :
      (w : World) (n : ℕ) (items : List (List Bytes)) (answer : Answer) (s : Server)
      → Kept base id s
      → KeptBy base id (record_all os_text w n items answer s)
  unfolding record_all
  record_all-Kept w n [] answer s h = h
  record_all-Kept w n (argv ∷ more) answer s h =
      proceed-Kept (append (w.outcomes n) argv s.aof).0 _
        (record s { aof = (append (w.outcomes n) argv s.aof).1 })
        (record_all-Kept w (suc n) more answer _ h) h

  log_only-Kept :
      (w : World) (argv : List Bytes) (answer : Answer) (s : Server)
      → Kept base id s
      → KeptBy base id (log_only os_text w argv answer s)
  unfolding log_only
  log_only-Kept w argv answer s h =
      proceed-Kept (append (w.outcomes 0) argv s.aof).0
        (answer, record s { aof = (append (w.outcomes 0) argv s.aof).1 })
        (record s { aof = (append (w.outcomes 0) argv s.aof).1 }) h h

  finish-Kept :
      (w : World) (origin : Origin) (argv : List Bytes) (evicted : List Bytes) (o : Object)
      (s : Server)
      → Kept base id s
      → KeptBy base id (finish os_text w origin argv evicted o s)
  unfolding finish
  finish-Kept w origin argv evicted o s h =
      let answer : Answer = encoded os_text (encode_value o) in
      let all = record_all-Kept w 0 (argv ∷ deletions os_text evicted) answer s h in
      let logged = log_only-Kept w argv answer s h in
      if_cases (λ (r : Answer × Server). KeptBy base id r)
        (is_write (command_name argv)
          && not origin.is_loading
          && not origin.is_replica_client
          && not s.config.is_replica)
        (λ _. all)
        (λ _.
          if_cases (λ (r : Answer × Server). KeptBy base id r)
            (is_write (command_name argv) && origin.is_replica_client && not origin.is_loading)
            {y = (answer, s)} (λ _. logged) (λ _. h))

  after_limit-Kept :
      (w : World) (origin : Origin) (argv : List Bytes) (before : Dict Bytes KeyEntry)
      (reply : Reply) (p : Evicted) (s : Server)
      → Kept base id s
      → KeptBy base id (after_limit os_text w origin argv before reply p s)
  unfolding after_limit count_failure
  after_limit-Kept w origin argv before (value o) (ok evicted, store) s h =
      finish-Kept w origin argv evicted o (record s { store = store }) h
  after_limit-Kept w origin argv before (error message) (ok evicted, store) s h = h
  after_limit-Kept w origin argv before crash (ok evicted, store) s h = h
  after_limit-Kept w origin argv before silent (ok evicted, store) s h = h
  after_limit-Kept w origin argv before reply (raise memory_limit, store) s h = h
  after_limit-Kept w origin argv before reply (raise wrong_type, store) s h = h
  after_limit-Kept w origin argv before reply (raise assertion, store) s h = h

  limit-Kept :
      (w : World) (origin : Origin) (argv : List Bytes) (before : Dict Bytes KeyEntry)
      (reply : Reply) (s : Server)
      → Kept base id s
      → KeptBy base id (
          if is_write (command_name argv)
          then after_limit os_text w origin argv before reply
              (enforce_memory_limit w.after s.store)
              s
          else after_limit os_text w origin argv before reply (ok [], s.store) s)
  limit-Kept w origin argv before reply s h =
      if_cases (λ (r : Answer × Server). KeptBy base id r) (is_write (command_name argv))
        {y = after_limit os_text w origin argv before reply (ok [], s.store) s}
        (λ _.
          after_limit-Kept w origin argv before reply (enforce_memory_limit w.after s.store) s h)
        (λ _. after_limit-Kept w origin argv before reply (ok [], s.store) s h)

  after_dispatch-Kept :
      (w : World) (origin : Origin) (argv : List Bytes) (before : Dict Bytes KeyEntry)
      (reply : Reply) (s : Server)
      → Kept base id s
      → KeptBy base id (after_dispatch os_text w origin argv before reply s)
  unfolding after_dispatch count_failure
  after_dispatch-Kept w origin argv before (error message) s h = h
  after_dispatch-Kept w origin argv before crash s h = h
  after_dispatch-Kept w origin argv before (value o) s h =
      limit-Kept w origin argv before (value o) s h
  after_dispatch-Kept w origin argv before silent s h = limit-Kept w origin argv before silent s h

  start-Kept :
      (write : Bool) (s t : Server)
      → Kept base id s
      → Kept base id t
      → Kept base id (if write then t else s)
  start-Kept true s t h k = k
  start-Kept false s t h k = h

  run_command-Kept :
      (w : World) (origin : Origin) (argv : List Bytes) (s : Server)
      → origin.connection_id ≡ id
      → Kept base id s
      → KeptBy base id (run_command os_text w origin argv s)
  unfolding run_command
  run_command-Kept w origin argv s e h = after_dispatch-Kept w origin argv _ _ _ (
      dispatch-Kept w origin argv _ e (
        start-Kept (is_write (command_name argv)) s
          (record s { store = (snapshot w.before s.store).1 }) h h))

  pub execute-Kept :
      (w : World) (origin : Origin) (argv : List Bytes) (s : Server)
      → origin.connection_id ≡ id
      → Kept base id s
      → KeptBy base id (execute os_text w origin argv s)
  unfolding execute count_failure
  execute-Kept w origin argv s e h =
      if_cases (λ (r : Answer × Server). KeptBy base id r) (needs_auth os_text origin argv s)
        (λ _. h)
        (λ _.
          if_cases (λ (r : Answer × Server). KeptBy base id r) (log_is_down os_text origin argv s)
            (λ _. h) (λ _. run_command-Kept w origin argv s e h))
