-- ===== src/Server/Guards.antt =====
-- What a command that is turned away, and one that is logged, does to the server of server.py.
use byo_redis.Prelude.{
  ℕ, suc, ◌≡◌, refl, ap, sym, ◌∙◌, inl, inr, Bool, true, false, not, ◌&&◌, Option, none, some, List,
  [], ◌∷◌, ◌++◌, Bool-cases, if_cases, map, ok, append_assoc, append-nil,
}
use byo_redis.Text.{Bytes, Str, codes, text_eq, text_eq_iff, upper}
use byo_redis.Dict
use byo_redis.Dict.{Dict, bytes_eq}
use byo_redis.Storage.Types.{KeyEntry}
use byo_redis.Text.Utf8.{encode}
use byo_redis.Protocol.Encoder.{encode_command, encode_value}
use byo_redis.Protocol.Object.{Object}
use byo_redis.Protocol.Parser.Feed.{concat}
use byo_redis.Storage.Sweep.{snapshot}
use byo_redis.Commands.Base.{Reply, value, error, crash, silent, is_write}
use byo_redis.Commands.Registry.{auth, find_handler}
use byo_redis.Persistence.Aof.{AppendError, AofLog, written, append, write_item}
use byo_redis.Persistence.Aof.Reads.{ready}
use byo_redis.Replication.Master.{propagate}
use byo_redis.Server.State.{
  Server, Origin, World, Answer, contains, is_some, command_name, count_failure, authenticate,
  cmd_auth,
}
use byo_redis.Server.Execute.{
  call, call_found, dispatch, encoded, proceed, record_all, deletions, finish, after_limit,
  after_dispatch, needs_auth, log_is_down, run_command, execute,
}

-- The data and the log of two states of the server are the same, and what the replicas were sent.
abbrev pub SameData : Server → Server → Type 0
SameData s t = (t.store ≡ s.store) × (t.aof ≡ s.aof) × (t.master ≡ s.master)

SameData-trans : (s t u : Server) → SameData s t → SameData t u → SameData s u
SameData-trans s t u h k = (k.0 ∙ h.0, k.1 ∙ h.1, k.2 ∙ h.2)

authenticate-SameData :
    (id : ℕ) (password : Bytes) (s : Server) (o : Option Str)
    → s.config.requirepass ≡ o
    → SameData s (authenticate id password s).1
unfolding authenticate
authenticate-SameData id password s none e = rw e (refl, refl, refl)
authenticate-SameData id password s (some configured) e = rw e (
    if_cases (λ (r : Bool × Server). SameData s r.1) (text_eq (encode configured) password)
      (λ _. (refl, refl, refl)) (λ _. (refl, refl, refl)))

pub cmd_auth-SameData :
    (id : ℕ) (argv : List Bytes) (s : Server) → SameData s (cmd_auth id argv s).1
unfolding cmd_auth
cmd_auth-SameData id [] s = (refl, refl, refl)
cmd_auth-SameData id (name ∷ []) s = (refl, refl, refl)
cmd_auth-SameData id (name ∷ password ∷ []) s =
    let kept : SameData s (authenticate id password s).1 =
      authenticate-SameData id password s s.config.requirepass refl in
    if_cases (λ (r : Reply × Server). SameData s r.1) (not (is_some s.config.requirepass))
      (λ _. (refl, refl, refl))
      (λ _.
        if_cases (λ (r : Reply × Server). SameData s r.1) (authenticate id password s).0 (λ _. kept)
          (λ _. kept))
cmd_auth-SameData id (name ∷ password ∷ x ∷ xs) s = (refl, refl, refl)

find_handler-auth : (name : Bytes) → upper name ≡ codes "AUTH" → find_handler name ≡ some auth
unfolding find_handler Dict.get
find_handler-auth name e = rw e refl

is_write-auth : (name : Bytes) → name ≡ codes "AUTH" → is_write name ≡ false
unfolding is_write
is_write-auth name e = rw e refl

and_false : (a c : Bool) → (a && false && c) ≡ false
and_false true c = refl
and_false false c = refl

module _ (os_text : AppendError → Str) where
  dispatch-auth :
      (w : World) (origin : Origin) (name : Bytes) (args : List Bytes) (s : Server)
      → upper name ≡ codes "AUTH"
      → dispatch os_text w origin (name ∷ args) s ≡ cmd_auth origin.connection_id (name ∷ args) s
  unfolding dispatch call_found call
  dispatch-auth w origin name args s e =
      rw (find_handler-auth name e, is_write-auth (upper name) e, and_false s.config.is_replica _)
        refl

  after_dispatch-SameData :
      (w : World) (origin : Origin) (argv : List Bytes) (before : Dict Bytes KeyEntry)
      (reply : Reply) (s : Server)
      → is_write (command_name argv) ≡ false
      → SameData s (after_dispatch os_text w origin argv before reply s).1
  unfolding after_dispatch after_limit finish count_failure
  after_dispatch-SameData w origin argv before (error message) s h = (refl, refl, refl)
  after_dispatch-SameData w origin argv before crash s h = (refl, refl, refl)
  after_dispatch-SameData w origin argv before silent s h = rw h (refl, refl, refl)
  after_dispatch-SameData w origin argv before (value result) s h = rw h (refl, refl, refl)

  run_command-auth :
      (w : World) (origin : Origin) (argv : List Bytes) (s : Server)
      → text_eq (command_name argv) (codes "AUTH") ≡ true
      → SameData s (run_command os_text w origin argv s).1
  unfolding run_command command_name
  run_command-auth w origin [] s h = absurd (cc h)
  run_command-auth w origin (name ∷ args) s h =
      let e : upper name ≡ codes "AUTH" = (text_eq_iff (upper name) (codes "AUTH")).0 h in
      let reads : is_write (upper name) ≡ false = is_write-auth (upper name) e in
      rw (reads, dispatch-auth w origin name args s e)
        (SameData-trans s (cmd_auth origin.connection_id (name ∷ args) s).1
          (after_dispatch os_text w origin (name ∷ args) (snapshot w.before s.store).0
            (cmd_auth origin.connection_id (name ∷ args) s).0
            (cmd_auth origin.connection_id (name ∷ args) s).1).1
          (cmd_auth-SameData origin.connection_id (name ∷ args) s)
          (after_dispatch-SameData w origin (name ∷ args) (snapshot w.before s.store).0
            (cmd_auth origin.connection_id (name ∷ args) s).0
            (cmd_auth origin.connection_id (name ∷ args) s).1 reads))

  needs_auth_of :
      (origin : Origin) (argv : List Bytes) (s : Server)
      → is_some s.config.requirepass ≡ true
      → contains s.authenticated_connections origin.connection_id ≡ false
      → origin.is_loading ≡ false
      → origin.is_replica_client ≡ false
      → text_eq (command_name argv) (codes "AUTH") ≡ false
      → needs_auth os_text origin argv s ≡ true
  unfolding needs_auth
  needs_auth_of origin argv s p c l r other = rw (p, c, l, r, other) refl

  -- A client that has not authenticated itself, where a password is set, changes neither the data nor
  -- the log nor what the replicas are sent, whatever command it gives to `execute`.
  pub execute-unauthenticated :
      (w : World) (origin : Origin) (argv : List Bytes) (s : Server)
      → is_some s.config.requirepass ≡ true
      → contains s.authenticated_connections origin.connection_id ≡ false
      → origin.is_loading ≡ false
      → origin.is_replica_client ≡ false
      → SameData s (execute os_text w origin argv s).1
  unfolding execute count_failure
  execute-unauthenticated w origin argv s p c l r =
      elim (Bool-cases (text_eq (command_name argv) (codes "AUTH"))) [
        | inr other ↦ rw (needs_auth_of origin argv s p c l r other) (refl, refl, refl)
        | inl same ↦
            if_cases (λ (t : Answer × Server). SameData s t.1) (needs_auth os_text origin argv s)
              (λ _. (refl, refl, refl))
              (λ _.
                if_cases (λ (t : Answer × Server). SameData s t.1)
                  (log_is_down os_text origin argv s) (λ _. (refl, refl, refl))
                  (λ _. run_command-auth w origin argv s same))
      ]

  -- Logged and propagated: a run of commands whose items are all written.
  record_all-file :
      (w : World) (n : ℕ) (cmds : List (List Bytes)) (answer : Answer) (s : Server)
      (content : Bytes)
      → ((i : ℕ) → w.outcomes i ≡ written)
      → s.aof ≡ ready content
      → ((record_all os_text w n cmds answer s).1.aof
          ≡ ready (content ++ concat (map encode_command cmds)))
        × ((record_all os_text w n cmds answer s).0 ≡ answer)
        × ((record_all os_text w n cmds answer s).1.store ≡ s.store)
  unfolding record_all proceed
  record_all-file w n [] answer s content ws e =
      (e ∙ ap ready (sym (append-nil content)), refl, refl)
  record_all-file w n (c ∷ cs) answer s content ws e =
      let done : append (w.outcomes n) c s.aof ≡ (ok tt, ready (content ++ encode_command c)) =
        ap (λ o. append o c s.aof) (ws n)
        ∙ ap (append written c) e
        ∙ (unfold append write_item in refl) in
      let sent : Server = record s {
        aof = ready (content ++ encode_command c);
        master = (propagate w.fails c s.master).0;
      } in
      let rest = record_all-file w (suc n) cs answer sent (content ++ encode_command c) ws refl in
      let next : record_all os_text w n (c ∷ cs) answer s
          ≡ record_all os_text w (suc n) cs answer sent =
        ap
          (λ step.
            proceed os_text step.0
              (record_all os_text w (suc n) cs answer
                (record s { aof = step.1; master = (propagate w.fails c s.master).0 }))
              (record s { aof = step.1 }))
          done in
      rw next (rest.0 ∙ ap ready (append_assoc content (encode_command c) _), rest.1, rest.2)

  -- A write of a client to a master that has returned a result, with the log healthy and each item
  -- written, is in the log, and behind it a DEL of each key that was evicted; the reply is the result's.
  pub finish-file :
      (w : World) (origin : Origin) (argv evicted : List Bytes) (result : Object) (s : Server)
      (content : Bytes)
      → is_write (command_name argv) ≡ true
      → origin.is_loading ≡ false
      → origin.is_replica_client ≡ false
      → s.config.is_replica ≡ false
      → ((i : ℕ) → w.outcomes i ≡ written)
      → s.aof ≡ ready content
      → ((finish os_text w origin argv evicted result s).1.aof.file
          ≡ content ++ concat (map encode_command (argv ∷ deletions os_text evicted)))
        × ((finish os_text w origin argv evicted result s).0
            ≡ encoded os_text (encode_value result))
        × ((finish os_text w origin argv evicted result s).1.store ≡ s.store)
  unfolding finish
  finish-file w origin argv evicted result s content writes l r m ws e =
      let logged =
        record_all-file w 0 (argv ∷ deletions os_text evicted)
          (encoded os_text (encode_value result)) s content ws e in
      let logs : (is_write (command_name argv)
            && not origin.is_loading
            && not origin.is_replica_client
            && not s.config.is_replica)
          ≡ true =
        rw (writes, l, r, m) refl in
      rw logs (ap (λ (log : AofLog). log.file) logged.0, logged.1, logged.2)
