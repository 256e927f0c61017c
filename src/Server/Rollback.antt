-- ===== src/Server/Rollback.antt =====
-- byo_redis/server.py, `_execute_inner`: a write that takes the store over its memory limit is undone.
use byo_redis.Prelude.{ℕ, suc, ◌≡◌, refl, ap, ◌∙◌, true, List, ok, raise}
use byo_redis.Text.{Bytes, Str, codes}
use byo_redis.Dict
use byo_redis.Dict.{Dict, bytes_eq}
use byo_redis.Protocol.Object.{Object}
use byo_redis.Protocol.Encoder.{str, encode_error}
use byo_redis.Storage.Store.{memory_limit}
use byo_redis.Storage.Store.Keeps.{load_entries-eq}
use byo_redis.Storage.Sweep.{snapshot}
use byo_redis.Storage.Sweep.Keeps.{get-snapshot}
use byo_redis.Storage.Memory.{Evicted, enforce_memory_limit}
use byo_redis.Storage.View.{live, view}
use byo_redis.Storage.Valid.{IsValid}
use byo_redis.Commands.Base.{Reply, value, is_write}
use byo_redis.Persistence.Aof.{AppendError}
use byo_redis.Server.State.{Server, Origin, World, Answer, replied, command_name, count_failure}
use byo_redis.Server.Execute.{dispatch, after_limit, after_dispatch, run_command}

abbrev pub oom_reply : Answer
oom_reply =
    replied (encode_error (str (codes "OOM command not allowed when used memory > maxmemory")))

-- The reply of a refusal; a server that shows under every key what `s` showed at the time `before`, but for
-- what has expired since; and the log and the replication of `t`.
abbrev pub Undone : ℕ → Server → Server → Answer × Server → Type 0
Undone before s t (answer, u) =
    (answer ≡ oom_reply)
    × ((now : ℕ) (key : Bytes) → view now u.store key ≡ live now (view before s.store key))
    × (u.aof ≡ t.aof)
    × (u.master ≡ t.master)
    × (u.total_commands_failed ≡ suc t.total_commands_failed)

module _ (os_text : AppendError → Str) where
  after_limit-Undone :
      (w : World) (origin : Origin) (argv : List Bytes) (o : Object) (p : Evicted) (s t : Server)
      → IsValid s.store
      → p.0 ≡ raise memory_limit
      → Undone
          (w.before 0)
          s
          t
          (after_limit os_text w origin argv (snapshot w.before s.store).0 (value o) p t)
  unfolding after_limit count_failure
  after_limit-Undone w origin argv o (ok evicted, store) s t h e = absurd (cc (e))
  after_limit-Undone w origin argv o (raise x, store) s t h e =
      let same : x ≡ memory_limit = cc e in
      rw same (
        refl,
        λ now key.
            ap (λ d. live now (Dict.get d key))
              (load_entries-eq (snapshot w.before s.store).0 store)
            ∙ ap (live now) (get-snapshot w.before s.store key h),
        refl,
        refl,
        refl,
      )

  after_dispatch-Undone :
      (w : World) (origin : Origin) (argv : List Bytes) (r : Reply) (o : Object) (s t : Server)
      → IsValid s.store
      → is_write (command_name argv) ≡ true
      → r ≡ value o
      → (enforce_memory_limit w.after t.store).0 ≡ raise memory_limit
      → Undone
          (w.before 0)
          s
          t
          (after_dispatch os_text w origin argv (snapshot w.before s.store).0 r t)
  unfolding after_dispatch
  after_dispatch-Undone w origin argv r o s t h write e over =
      rw (e, write)
        (after_limit-Undone w origin argv o (enforce_memory_limit w.after t.store) s t h over)

  -- The state in which a write is dispatched: what has expired is gone.
  abbrev pub cleaned : World → Server → Server
  cleaned w s = record s { store = (snapshot w.before s.store).1 }

  -- On a valid store, behind the first guards: where the handler of a write returns a value, and the memory
  -- limit then cannot be met by evicting, the client is told so, every key shows again what it showed
  -- when the command began, but for what has expired since, nothing is logged and nothing is
  -- propagated behind the handler, and the failure is counted.
  pub run_command-Undone :
      (w : World) (origin : Origin) (argv : List Bytes) (o : Object) (s : Server)
      → IsValid s.store
      → is_write (command_name argv) ≡ true
      → (dispatch os_text w origin argv (cleaned w s)).0 ≡ value o
      → (enforce_memory_limit w.after (dispatch os_text w origin argv (cleaned w s)).1.store).0
        ≡ raise memory_limit
      → Undone
          (w.before 0)
          s
          (dispatch os_text w origin argv (cleaned w s)).1
          (run_command os_text w origin argv s)
  unfolding run_command
  run_command-Undone w origin argv o s h write returned over = rw write (
      after_dispatch-Undone w origin argv (dispatch os_text w origin argv (cleaned w s)).0 o s
        (dispatch os_text w origin argv (cleaned w s)).1 h write returned over)
