-- ===== src/Server/Valid.antt =====
-- byo_redis/server.py, `_execute`: whatever command it executes, the store stays valid, and what leaves
-- it as an exception.
use byo_redis.Prelude.{
  ℕ, suc, ◌<◌, ◌≡◌, refl, Bool, true, false, not, ◌&&◌, Option, none, some, List, [], ◌∷◌,
  if◌then◌else◌, if_cases, ◌⊎◌, Bool-cases, inl, inr, Result, ok, raise, arith, ◌==◌,
}
use byo_redis.Text.{Bytes, Str}
use byo_redis.Dict.{Dict}
use byo_redis.Protocol.Object.{Object}
use byo_redis.Protocol.Encoder.{encode_value}
use byo_redis.Storage.Types.{KeyEntry}
use byo_redis.Storage.Expiry.{Clock}
use byo_redis.Storage.Store.{Store, wrong_type, memory_limit, assertion}
use byo_redis.Storage.Store.Keeps.{IsLoadable, load_entries-IsValid}
use byo_redis.Storage.Sweep.{snapshot}
use byo_redis.Storage.Sweep.Keeps.{snapshot-IsLoadable}
use byo_redis.Storage.Memory.{Evicted, enforce_memory_limit}
use byo_redis.Storage.Memory.Eviction.{Settled, enforce_memory_limit-Settled}
use byo_redis.Storage.Valid.{IsValid}
use byo_redis.Commands.Base.{Reply, value, error, crash, silent, is_write}
use byo_redis.Commands.Answers.{IsLong}
use byo_redis.Commands.Answers.Table.{IsFit, find_handler-IsFit}
use byo_redis.Commands.Registry.{Handler, plain, on_store, auth, admin, find_handler}
use byo_redis.Persistence.Aof.{AppendError, append}
use byo_redis.Server.State.{
  Server, Origin, World, Answer, replied, no_reply, escapes, command_name, count_failure,
}
use byo_redis.Server.Keeps.{
  Encodes, Encodes-of_Answers, Handled, cmd_auth-Handled, admin_command-Handled,
}
use byo_redis.Server.Execute.{
  call, call_found, dispatch, encoded, append_failed, proceed, record_all, log_only, deletions,
  finish, after_limit, after_dispatch, needs_auth, log_is_down, run_command, execute,
}

-- Not an exception.
abbrev pub IsAnswered : Answer → Type 0
IsAnswered (replied b) = Unit
IsAnswered no_reply = Unit
IsAnswered escapes = ⊥

-- The reply is an integer of more digits than Python writes.
abbrev pub IsLongReply : Reply → Type 0
IsLongReply (value o) = IsLong o
IsLongReply _ = ⊥

-- An answer, if the reply is not such an integer, and a valid store.
abbrev pub Safe : Reply → Answer × Server → Type 0
Safe r (a, s) = (IsAnswered a ⊎ IsLongReply r) × IsValid s.store

-- What `enforce_memory_limit` gives that is asked of it here.
abbrev IsLimited : Evicted → Type 0
IsLimited (ok evicted, s) = IsValid s
IsLimited (raise e, s) = (e ≡ memory_limit) × IsValid s

IsLimited-of_Settled : (limit : ℕ) (p : Evicted) → Settled limit p → IsLimited p
IsLimited-of_Settled limit (ok evicted, s) h = h.0
IsLimited-of_Settled limit (raise e, s) h = (h.2, h.0)

no_limit :
    (clock : Clock) (s : Store)
    → IsValid s
    → (s.maxmemory_bytes == 0) ≡ true
    → IsLimited (enforce_memory_limit clock s)
unfolding enforce_memory_limit
no_limit clock s h e = rw e h

positive_of_limit : (n : ℕ) → (n == 0) ≡ false → 0 < n
positive_of_limit n e = ground arith

enforce_memory_limit-IsLimited :
    (clock : Clock) (s : Store) → IsValid s → IsLimited (enforce_memory_limit clock s)
enforce_memory_limit-IsLimited clock s h = elim (Bool-cases (s.maxmemory_bytes == 0)) [
  | inl e ↦ no_limit clock s h e
  | inr e ↦
      IsLimited-of_Settled s.maxmemory_bytes _
        (enforce_memory_limit-Settled clock s h (positive_of_limit _ e))
]

module _ (os_text : AppendError → Str) where
  call-Handled :
      (c : Handler) (w : World) (id : ℕ) (argv : List Bytes) (s : Server)
      → IsFit c
      → IsValid s.store
      → Handled (call os_text c w id argv s)
  unfolding call
  call-Handled (plain f) w id argv s fit h = (Encodes-of_Answers (f argv) (fit argv), h)
  call-Handled (on_store f) w id argv s fit h =
      let served = fit w.during argv s.store h in (Encodes-of_Answers _ served.0, served.1)
  call-Handled auth w id argv s fit h = cmd_auth-Handled id argv s h
  call-Handled (admin a) w id argv s fit h = admin_command-Handled a w id argv s h

  call_found-Handled :
      (o : Option Handler) (w : World) (origin : Origin) (name : Bytes) (argv : List Bytes)
      (s : Server)
      → ((c : Handler) → o ≡ some c → IsFit c)
      → IsValid s.store
      → Handled (call_found os_text o w origin name argv s)
  unfolding call_found
  call_found-Handled none w origin name argv s fit h = (tt, h)
  call_found-Handled (some c) w origin name argv s fit h =
      if_cases Handled _ (λ _. (tt, h))
        (λ _. call-Handled c w origin.connection_id argv s (fit c refl) h)

  dispatch-Handled :
      (w : World) (origin : Origin) (argv : List Bytes) (s : Server)
      → IsValid s.store
      → Handled (dispatch os_text w origin argv s)
  unfolding dispatch
  dispatch-Handled w origin [] s h = (tt, h)
  dispatch-Handled w origin (name ∷ args) s h =
      call_found-Handled (find_handler name) w origin name (name ∷ args) s (find_handler-IsFit name)
        h

  proceed-Safe :
      (reply : Reply) (r : Result AppendError (Unit {0})) (next : Answer × Server) (logged : Server)
      → Safe reply next
      → IsValid logged.store
      → Safe reply (proceed os_text r next logged)
  unfolding proceed append_failed count_failure
  proceed-Safe reply (ok _) next logged h v = h
  proceed-Safe reply (raise e) next logged h v = (inl tt, v)

  record_all-Safe :
      (reply : Reply) (w : World) (n : ℕ) (items : List (List Bytes)) (answer : Answer) (s : Server)
      → IsAnswered answer ⊎ IsLongReply reply
      → IsValid s.store
      → Safe reply (record_all os_text w n items answer s)
  unfolding record_all
  record_all-Safe reply w n [] answer s a h = (a, h)
  record_all-Safe reply w n (argv ∷ more) answer s a h =
      proceed-Safe reply (append (w.outcomes n) argv s.aof).0 _ _
        (record_all-Safe reply w (suc n) more answer _ a h) h

  log_only-Safe :
      (reply : Reply) (w : World) (argv : List Bytes) (answer : Answer) (s : Server)
      → IsAnswered answer ⊎ IsLongReply reply
      → IsValid s.store
      → Safe reply (log_only os_text w argv answer s)
  unfolding log_only
  log_only-Safe reply w argv answer s a h =
      proceed-Safe reply (append (w.outcomes 0) argv s.aof).0 _ _ (a, h) h

  encoded-IsAnswered :
      (o : Object) → Encodes (value o) → IsAnswered (encoded os_text (encode_value o)) ⊎ IsLong o
  unfolding encoded
  encoded-IsAnswered o (inl h) = inl (rw (h.1) tt)
  encoded-IsAnswered o (inr h) = inr h

  finish-Safe :
      (w : World) (origin : Origin) (argv : List Bytes) (evicted : List Bytes) (o : Object)
      (s : Server)
      → Encodes (value o)
      → IsValid s.store
      → Safe (value o) (finish os_text w origin argv evicted o s)
  unfolding finish
  finish-Safe w origin argv evicted o s e h =
      let a = encoded-IsAnswered o e in
      let kept =
        record_all-Safe (value o) w 0 (argv ∷ deletions os_text evicted)
          (encoded os_text (encode_value o)) s a h in
      let logged = log_only-Safe (value o) w argv (encoded os_text (encode_value o)) s a h in
      if_cases (Safe (value o))
        (is_write (command_name argv)
          && not origin.is_loading
          && not origin.is_replica_client
          && not s.config.is_replica)
        (λ _. kept)
        (λ _.
          if_cases (Safe (value o))
            (is_write (command_name argv) && origin.is_replica_client && not origin.is_loading)
            (λ _. logged) (λ _. (a, h)))

  after_limit-Safe :
      (w : World) (origin : Origin) (argv : List Bytes) (before : Dict Bytes KeyEntry)
      (reply : Reply) (p : Evicted) (s : Server)
      → Encodes reply
      → IsLoadable before
      → IsLimited p
      → Safe reply (after_limit os_text w origin argv before reply p s)
  unfolding after_limit count_failure
  after_limit-Safe w origin argv before (value o) (ok evicted, store) s e l h =
      finish-Safe w origin argv evicted o (record s { store = store }) e h
  after_limit-Safe w origin argv before (error message) (ok evicted, store) s e l h = (inl tt, h)
  after_limit-Safe w origin argv before crash (ok evicted, store) s e l h = (inl tt, h)
  after_limit-Safe w origin argv before silent (ok evicted, store) s e l h = (inl tt, h)
  after_limit-Safe w origin argv before reply (raise memory_limit, store) s e l h =
      (inl tt, load_entries-IsValid before store l)
  after_limit-Safe w origin argv before reply (raise wrong_type, store) s e l h = absurd (cc (h.0))
  after_limit-Safe w origin argv before reply (raise assertion, store) s e l h = absurd (cc (h.0))

  limit-Safe :
      (w : World) (origin : Origin) (argv : List Bytes) (before : Dict Bytes KeyEntry)
      (reply : Reply) (s : Server)
      → Encodes reply
      → IsLoadable before
      → IsValid s.store
      → Safe reply (
          if is_write (command_name argv)
          then after_limit os_text w origin argv before reply
              (enforce_memory_limit w.after s.store)
              s
          else after_limit os_text w origin argv before reply (ok [], s.store) s)
  limit-Safe w origin argv before reply s e l h =
      if_cases (Safe reply) (is_write (command_name argv))
        (λ _.
          after_limit-Safe w origin argv before reply _ s e l
            (enforce_memory_limit-IsLimited w.after s.store h))
        (λ _. after_limit-Safe w origin argv before reply (ok [], s.store) s e l h)

  after_dispatch-Safe :
      (w : World) (origin : Origin) (argv : List Bytes) (before : Dict Bytes KeyEntry)
      (reply : Reply) (s : Server)
      → Handled (reply, s)
      → IsLoadable before
      → Safe reply (after_dispatch os_text w origin argv before reply s)
  unfolding after_dispatch count_failure
  after_dispatch-Safe w origin argv before (error message) s h l = (inl tt, h.1)
  after_dispatch-Safe w origin argv before crash s h l = (inl tt, h.1)
  after_dispatch-Safe w origin argv before (value o) s h l =
      limit-Safe w origin argv before (value o) s h.0 l h.1
  after_dispatch-Safe w origin argv before silent s h l =
      limit-Safe w origin argv before silent s h.0 l h.1

  -- The state in which the command is dispatched, and the reply of its handler.
  abbrev pub start_of : World → List Bytes → Server → Server
  start_of w argv s =
      if is_write (command_name argv) then record s { store = (snapshot w.before s.store).1 } else s

  abbrev pub reply_to : World → Origin → List Bytes → Server → Reply
  reply_to w origin argv s = (dispatch os_text w origin argv (start_of w argv s)).0

  start-IsValid :
      (write : Bool) (s : Server) (cleaned : Store)
      → IsValid s.store
      → IsValid cleaned
      → IsValid (if write then record s { store = cleaned } else s).store
  start-IsValid true s cleaned h k = k
  start-IsValid false s cleaned h k = h

  run_command-Safe :
      (w : World) (origin : Origin) (argv : List Bytes) (s : Server)
      → IsValid s.store
      → Safe (reply_to w origin argv s) (run_command os_text w origin argv s)
  unfolding run_command
  run_command-Safe w origin argv s h =
      let (loadable, cleaned) = snapshot-IsLoadable w.before s.store h in
      after_dispatch-Safe w origin argv (snapshot w.before s.store).0 _ _
        (dispatch-Handled w origin argv _
          (start-IsValid (is_write (command_name argv)) s (snapshot w.before s.store).1 h cleaned))
        loadable

  -- On a valid store, whatever command `_execute` is given, of whatever origin and bytes, whatever the
  -- log and the replicas' transports do and whatever the memory limit is: the store is valid again
  -- afterwards; and the command is answered or has no reply, with no exception leaving `_execute`, but
  -- where the handler's reply is an integer of more than 4300 digits.
  pub execute-IsSafe :
      (w : World) (origin : Origin) (argv : List Bytes) (s : Server)
      → IsValid s.store
      → Safe (reply_to w origin argv s) (execute os_text w origin argv s)
  unfolding execute count_failure
  execute-IsSafe w origin argv s h =
      if_cases (Safe (reply_to w origin argv s)) (needs_auth os_text origin argv s)
        (λ _. (inl tt, h))
        (λ _.
          if_cases (Safe (reply_to w origin argv s)) (log_is_down os_text origin argv s)
            (λ _. (inl tt, h)) (λ _. run_command-Safe w origin argv s h))
