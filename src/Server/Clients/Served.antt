-- ===== src/Server/Clients/Served.antt =====
-- byo_redis/server.py, handle_client: what each step of the event loop does to the count of the
-- connections.
use byo_redis.Prelude.{
  ℕ, suc, ◌≡◌, refl, sym, ap, ◌∙◌, true, not, ◌&&◌, List, [], ◌∷◌, ◌++◌, ◌==◌, if_cases,
  Option-cases, inl, inr, Result, ok, raise,
}
use byo_redis.Text.{Bytes, Str, codes, text_eq, upper}
use byo_redis.Dict
use byo_redis.Dict.{Dict, nat_eq, Distinct}
use byo_redis.Dict.Laws.{has_of_get, put-Distinct}
use byo_redis.Protocol.Object.{Object}
use byo_redis.Protocol.Parser.{ProtocolError, RespParser, feed, buffered_size}
use byo_redis.Storage.Valid.{IsValid}
use byo_redis.Persistence.Aof.{AppendError}
use byo_redis.Config.{Config}
use byo_redis.Replication.Master.{unregister}
use byo_redis.Replication.Sync.{full_resync}
use byo_redis.Server.State.{Server, World, Answer, replied, no_reply, escapes, normalize_argv}
use byo_redis.Server.Execute.{execute}
use byo_redis.Server.Keeps.{full_resync-IsValid}
use byo_redis.Server.Valid.{execute-IsSafe}
use byo_redis.Server.Frame.{Kept}
use byo_redis.Server.Frame.Runs.{execute-Kept}
use byo_redis.Server.Clients.Counts.{
  IsCounted, length-put, All-map, has_of_has-put, has_of_put, disconnect-IsCounted,
  accept-IsCounted,
}
use byo_redis.Server.Clients.{
  Connection, Host, Event, connects, reads, handles, times_out, breaks, Next, goes_on, holds,
  closes, after_execute, psync_message, handle_argv, handle_message, settle, handle_next, received,
  receive, time_out, client_origin, psync_failed, on_connection, step, run,
}

-- What the connection `id` may have done to the server, and a valid store.
abbrev Fine : Server → ℕ → Server → Type 1
Fine base id s = Kept base id s × IsValid s.store

module _ (os_text : AppendError → Str) (protocol_text : ProtocolError → Str) (base : Server)
    (id : ℕ) where
  abbrev FineNext : List Bytes × Next × Server → Type 1
  FineNext (out, next, s) = Fine base id s

  after_execute-Fine :
      (cmd : Bytes) (p : Answer × Server)
      → Fine base id p.1
      → FineNext (after_execute os_text protocol_text id cmd p)
  unfolding after_execute
  after_execute-Fine cmd (escapes, s) h = h
  after_execute-Fine cmd (replied b, s) h = h
  after_execute-Fine cmd (no_reply, s) h = h

  psync_message-Fine :
      (w : World) (s : Server)
      → Fine base id s
      → FineNext (psync_message os_text protocol_text w id s)
  unfolding psync_message
  psync_message-Fine w s h =
      let valid = full_resync-IsValid (w.fails id) w.during id s.store s.master h.1 in
      let sent = full_resync (w.fails id) w.during id s.store s.master in
      if_cases FineNext sent.0 {x = ([], holds, record s { store = sent.1; master = sent.2 })}
        {y = (
          psync_failed ∷ [],
          closes,
          record s { store = sent.1; master = unregister id sent.2 },
        )}
        (λ _. (h.0, valid)) (λ _. (h.0, valid))

  handle_argv-Fine :
      (w : World) (r : Result ProtocolError (List Bytes)) (s : Server)
      → Fine base id s
      → FineNext (handle_argv os_text protocol_text w id r s)
  unfolding handle_argv
  handle_argv-Fine w (raise e) s h = h
  handle_argv-Fine w (ok []) s h = h
  handle_argv-Fine w (ok (name ∷ args)) s h =
      if_cases FineNext (text_eq (upper name) (codes "PSYNC") && not s.config.is_replica)
        {x = psync_message os_text protocol_text w id s}
        {y = after_execute os_text protocol_text id (upper name)
          (execute os_text w (client_origin id) (name ∷ args) s)}
        (λ _. psync_message-Fine w s h)
        (λ _.
          after_execute-Fine (upper name) (execute os_text w (client_origin id) (name ∷ args) s) (
            execute-Kept base id os_text w (client_origin id) (name ∷ args) s refl h.0,
            (execute-IsSafe os_text w (client_origin id) (name ∷ args) s h.1).1,
          ))

  handle_message-Fine :
      (w : World) (m : Object) (s : Server)
      → Fine base id s
      → FineNext (handle_message os_text protocol_text w id m s)
  unfolding handle_message
  handle_message-Fine w m s h =
      handle_argv-Fine w (normalize_argv m)
        (record s { total_commands_processed = suc s.total_commands_processed }) h

-- A connection that is there stays where it stands.
updated-IsCounted :
    (id : ℕ) (c : Connection) (s : Server) (h : Host)
    → Dict.has h.connections id ≡ true
    → IsCounted h
    → Fine h.server id s
    → IsCounted (record h { server = s; connections = Dict.put id c h.connections })
updated-IsCounted id c s h there i f = record {
  counted = f.0.1 ∙ i.counted ∙ sym (length-put id c h.connections there);
  limited = λ n e. rw (f.0.1) (i.limited n (sym (ap (λ (a : Config). a.max_clients) f.0.0) ∙ e));
  distinct = put-Distinct id c h.connections i.distinct;
  numbered = λ k e. rw (f.0.2) (i.numbered k (has_of_has-put id c h.connections k there e));
  known =
      All-map _ _ s.authenticated_connections (λ k e. has_of_put id c h.connections k e)
        (f.0.3 (λ k. Dict.has h.connections k ≡ true) there i.known);
  valid = f.1;
}

served-IsCounted :
    (id : ℕ) (s : Server) (h : Host)
    → Dict.has h.connections id ≡ true
    → IsCounted h
    → Fine h.server id s
    → IsCounted (record h { server = s })
served-IsCounted id s h there i f = record {
  counted = f.0.1 ∙ i.counted;
  limited = λ n e. rw (f.0.1) (i.limited n (sym (ap (λ (a : Config). a.max_clients) f.0.0) ∙ e));
  distinct = i.distinct;
  numbered = λ k e. rw (f.0.2) (i.numbered k e);
  known = f.0.3 (λ k. Dict.has h.connections k ≡ true) there i.known;
  valid = f.1;
}

at_connection :
    (id : ℕ) (f : Connection → Host → Host) (h : Host)
    → IsCounted h
    → ((c : Connection) → Dict.has h.connections id ≡ true → IsCounted (f c h))
    → IsCounted (on_connection (Dict.get h.connections id) f h)
at_connection id f h i k = elim (Option-cases (Dict.get h.connections id)) [
  | inl e ↦ rw e i
  | inr (c, e) ↦ rw e (k c (has_of_get id c h.connections e))
]

module _ (os_text : AppendError → Str) (protocol_text : ProtocolError → Str) where
  settle-IsCounted :
      (id : ℕ) (c : Connection) (ms : List Object) (r : List Bytes × Next × Server) (h : Host)
      → Dict.has h.connections id ≡ true
      → IsCounted h
      → FineNext os_text protocol_text h.server id r
      → IsCounted (settle os_text protocol_text id c ms r h)
  unfolding settle
  settle-IsCounted id c ms (out, goes_on, s) h there i f = updated-IsCounted id _ s h there i f
  settle-IsCounted id c ms (out, holds, s) h there i f = updated-IsCounted id _ s h there i f
  settle-IsCounted id c ms (out, closes, s) h there i f =
      disconnect-IsCounted id (c.written ++ out) (record h { server = s }) there
        (served-IsCounted id s h there i f)

  start-Fine : (id : ℕ) (h : Host) → IsCounted h → Fine h.server id h.server
  start-Fine id h i = ((refl, refl, refl, λ P here all. all), i.valid)

  handle_next-IsCounted :
      (w : World) (id : ℕ) (ms : List Object) (c : Connection) (h : Host)
      → Dict.has h.connections id ≡ true
      → IsCounted h
      → IsCounted (handle_next os_text protocol_text w id ms c h)
  handle_next-IsCounted w id [] c h there i = i
  handle_next-IsCounted w id (m ∷ ms) c h there i =
      settle-IsCounted id c ms _ h there i
        (handle_message-Fine os_text protocol_text h.server id w m h.server (start-Fine id h i))

  received-IsCounted :
      (id : ℕ) (c : Connection) (r : Result ProtocolError (List Object × RespParser)) (h : Host)
      → Dict.has h.connections id ≡ true
      → IsCounted h
      → IsCounted (received os_text protocol_text id c r h)
  unfolding received
  received-IsCounted id c (raise e) h there i = disconnect-IsCounted id _ h there i
  received-IsCounted id c (ok (ms, q)) h there i =
      updated-IsCounted id _ h.server h there i (start-Fine id h i)

  receive-IsCounted :
      (id : ℕ) (chunk : Bytes) (ms : List Object) (c : Connection) (h : Host)
      → Dict.has h.connections id ≡ true
      → IsCounted h
      → IsCounted (receive os_text protocol_text id chunk ms c h)
  unfolding receive
  receive-IsCounted id chunk (m ∷ ms) c h there i = i
  receive-IsCounted id [] [] c h there i = disconnect-IsCounted id c.written h there i
  receive-IsCounted id (b ∷ bs) [] c h there i =
      if_cases IsCounted c.became_replica (λ _. i)
        (λ _. received-IsCounted id c (feed c.parser (b ∷ bs)) h there i)

  time_out-IsCounted :
      (id : ℕ) (ms : List Object) (c : Connection) (h : Host)
      → Dict.has h.connections id ≡ true
      → IsCounted h
      → IsCounted (time_out os_text protocol_text id ms c h)
  unfolding time_out
  time_out-IsCounted id (m ∷ ms) c h there i = i
  time_out-IsCounted id [] c h there i =
      if_cases IsCounted c.became_replica (λ _. i)
        (λ _.
          if_cases IsCounted (buffered_size c.parser == 0)
            (λ _. disconnect-IsCounted id c.written h there i)
            (λ _. disconnect-IsCounted id _ h there i))

  step-IsCounted : (e : Event) (h : Host) → IsCounted h → IsCounted (step os_text protocol_text e h)
  unfolding step
  step-IsCounted connects h i = accept-IsCounted h i
  step-IsCounted (reads id chunk) h i =
      at_connection id _ h i (λ c there. receive-IsCounted id chunk c.messages c h there i)
  step-IsCounted (handles id w) h i =
      at_connection id _ h i (λ c there. handle_next-IsCounted w id c.messages c h there i)
  step-IsCounted (times_out id) h i =
      at_connection id _ h i (λ c there. time_out-IsCounted id c.messages c h there i)
  step-IsCounted (breaks id) h i =
      at_connection id _ h i (λ c there. disconnect-IsCounted id c.written h there i)

  -- Whatever the clients connect, send, or leave, in whatever order, and whatever becomes of the writes:
  -- the server counts exactly the connections that are open, never more than `max_clients`; only open
  -- connections are authenticated, their numbers are among those given out, so that a new one is not;
  -- and the store is valid.
  pub run-IsCounted :
      (es : List Event) (h : Host) → IsCounted h → IsCounted (run os_text protocol_text es h)
  unfolding run
  run-IsCounted [] h i = i
  run-IsCounted (e ∷ es) h i =
      run-IsCounted es (step os_text protocol_text e h) (step-IsCounted e h i)
