-- ===== src/Server/Clients.antt =====
-- byo_redis/server.py, handle_client and _hold_replica_connection: the connections of the clients. The
-- steps are their reads, the handling of one message, timeouts and failures, in any order.
pub mod Counts
pub mod Served
pub mod Psync
use byo_redis.Prelude.{
  ℕ, zero, suc, ◌+◌, ◌-◌, Bool, true, false, not, ◌&&◌, Option, none, some, List, [], ◌∷◌, ◌++◌,
  ◌==◌, leb, if◌then◌else◌, ℤ, pos, negsuc, Result, ok, raise,
}
use byo_redis.Text.{Bytes, Str, codes, text_eq, upper}
use byo_redis.Dict
use byo_redis.Dict.{Dict, nat_eq}
use byo_redis.Config.{Config}
use byo_redis.Protocol.Object.{Object}
use byo_redis.Protocol.Encoder.{str, encode_error}
use byo_redis.Protocol.Parser.{
  ProtocolError, Limits, frame_timed_out, RespParser, new_parser, feed, buffered_size,
}
use byo_redis.Persistence.Aof.{AppendError}
use byo_redis.Replication.Master.{unregister}
use byo_redis.Replication.Sync.{full_resync}
use byo_redis.Server.State.{
  Server, Origin, World, Answer, replied, no_reply, escapes, failures_of, normalize_argv,
}
use byo_redis.Server.Execute.{execute}

-- `messages` are those of the last read that are still to be handled; `written` is what was written to
-- the connection.
pub record Connection : Type 0 where
  pub parser : RespParser
  pub messages : List Object
  pub became_replica : Bool
  pub written : List Bytes

-- `finished` is what was written to each connection that has ended, and to each that was refused.
pub record Host : Type 0 where
  pub server : Server
  pub connections : Dict ℕ Connection
  pub finished : List (List Bytes)

pub data Event : Type 0 where
  connects : Event
  reads : ℕ → Bytes → Event
  -- The next message is handled.
  handles : ℕ → World → Event
  -- `wait_for` times out, or `remaining` is used up
  times_out : ℕ → Event
  -- ConnectionError or OSError
  breaks : ℕ → Event

-- What becomes of the loop behind a message.
pub data Next : Type 0 where
  goes_on holds closes : Next

-- _client_count >= max_clients
abbrev pub reaches : ℕ → ℤ → Bool
reaches n (pos m) = leb m n
reaches n (negsuc m) = true

-- A limit of a configuration that was accepted is not negative.
abbrev limit_of : ℤ → ℕ
limit_of (pos n) = n
limit_of (negsuc n) = 0

abbrev pub limits_of : Config → Limits
limits_of c = record {
  max_bulk_len = limit_of c.proto_max_bulk_len;
  max_buffer_bytes = limit_of c.max_buffer_bytes;
  max_array_len = limit_of c.proto_max_array_len;
  max_array_depth = limit_of c.max_array_depth;
}

abbrev pub removed : ℕ → List ℕ → List ℕ
removed n [] = []
removed n (m ∷ ms) = let rest = removed n ms in if m == n then rest else m ∷ rest

abbrev pub client_origin : ℕ → Origin
client_origin id = record { connection_id = id; is_replica_client = false; is_loading = false }

abbrev written_of : Answer → List Bytes
written_of (replied b) = b ∷ []
written_of no_reply = []
written_of escapes = []

-- The connection is taken in.
unfoldable pub taken : Server → Server
taken s = record s {
  total_connections_received = suc s.total_connections_received;
  client_count = suc s.client_count;
  conn_seq = suc s.conn_seq;
  writers = suc s.conn_seq ∷ s.writers;
}

-- Or refused
unfoldable pub refused : Server → Server
refused s = record s {
  total_connections_received = suc s.total_connections_received;
  rejected_connections = suc s.rejected_connections;
}

-- The `finally` of `handle_client`
unfoldable pub released : ℕ → Server → Server
unfolding unregister
released id s = record s {
  master = unregister id s.master;
  writers = removed id s.writers;
  authenticated_connections = removed id s.authenticated_connections;
  authentication_failures = Dict.pop id s.authentication_failures;
  client_count = s.client_count - 1;
}

abbrev too_many_clients : Bytes
too_many_clients = encode_error (str (codes "ERR max number of clients reached"))

unfoldable pub accept : Host → Host
unfolding taken refused
accept h =
    if reaches h.server.client_count h.server.config.max_clients
    then record h {
      server = refused h.server;
      finished = h.finished ++ (too_many_clients ∷ []) ∷ [];
    }
    else record {
      server = taken h.server;
      connections =
          Dict.put (suc h.server.conn_seq)
            (record {
              parser = new_parser (limits_of h.server.config);
              messages = [];
              became_replica = false;
              written = [];
            })
            h.connections;
      finished = h.finished;
    }

-- A connection ends; `out` is all that was written to it.
unfoldable pub disconnect : ℕ → List Bytes → Host → Host
unfolding released
disconnect id out h = record {
  server = released id h.server;
  connections = Dict.pop id h.connections;
  finished = h.finished ++ out ∷ [];
}

-- An event of a connection that is not there makes no difference.
abbrev pub on_connection : Option Connection → (Connection → Host → Host) → Host → Host
on_connection none f h = h
on_connection (some c) f h = f c h

abbrev pub psync_failed : Bytes
psync_failed = encode_error (str (codes "ERR PSYNC failed"))

-- `os_text` and `protocol_text` are what str() of the exceptions says.
module _ (os_text : AppendError → Str) (protocol_text : ProtocolError → Str) where
  abbrev pub protocol_error : ProtocolError → Bytes
  protocol_error e = encode_error (str (codes "ERR protocol error: " ++ protocol_text e))

  -- Behind `_execute`: too many failed attempts at AUTH, or an exception, end the connection.
  unfoldable pub after_execute : ℕ → Bytes → Answer × Server → List Bytes × Next × Server
  after_execute id cmd (escapes, s) = ([], closes, s)
  after_execute id cmd (answer, s) = (
    written_of answer,
    (if text_eq cmd (codes "AUTH")
          && reaches (failures_of (Dict.get s.authentication_failures id))
              s.config.max_auth_failures
        then closes
        else goes_on),
    s,
  )

  unfoldable pub psync_message : World → ℕ → Server → List Bytes × Next × Server
  unfolding full_resync unregister
  psync_message w id s =
      let (done, store, master) = full_resync (w.fails id) w.during id s.store s.master in
      if done
      then ([], holds, record s { store = store; master = master })
      else (psync_failed ∷ [], closes, record s { store = store; master = unregister id master })

  unfoldable pub handle_argv :
      World → ℕ → Result ProtocolError (List Bytes) → Server → List Bytes × Next × Server
  unfolding execute after_execute psync_message
  handle_argv w id (raise e) s = (protocol_error e ∷ [], goes_on, s)
  handle_argv w id (ok []) s = ([], goes_on, s)
  handle_argv w id (ok (name ∷ args)) s =
      if text_eq (upper name) (codes "PSYNC") && not s.config.is_replica
      then psync_message w id s
      else after_execute id (upper name) (execute os_text w (client_origin id) (name ∷ args) s)

  unfoldable pub handle_message : World → ℕ → Object → Server → List Bytes × Next × Server
  unfolding handle_argv normalize_argv
  handle_message w id msg s =
      handle_argv w id (normalize_argv msg)
        (record s { total_commands_processed = suc s.total_commands_processed })

  -- What a message leaves: the loop goes on with the messages `ms`, the connection is held, or is closed.
  unfoldable pub settle : ℕ → Connection → List Object → List Bytes × Next × Server → Host → Host
  unfolding disconnect
  settle id c ms (out, goes_on, s) h = record h {
    server = s;
    connections =
        Dict.put id (record c { messages = ms; written = c.written ++ out }) h.connections;
  }
  settle id c ms (out, holds, s) h = record h {
    server = s;
    connections =
        Dict.put id (record c { messages = []; became_replica = true; written = c.written ++ out })
          h.connections;
  }
  settle id c ms (out, closes, s) h = disconnect id (c.written ++ out) (record h { server = s })

  abbrev pub handle_next : World → ℕ → List Object → Connection → Host → Host
  handle_next w id [] c h = h
  handle_next w id (m ∷ ms) c h = settle id c ms (handle_message w id m h.server) h

  unfoldable pub received :
      ℕ → Connection → Result ProtocolError (List Object × RespParser) → Host → Host
  unfolding disconnect
  received id c (raise e) h = disconnect id (c.written ++ protocol_error e ∷ []) h
  received id c (ok (ms, q)) h = record h {
    connections = Dict.put id (record c { parser = q; messages = ms }) h.connections;
  }

  -- The loop reads when all messages have been handled.
  unfoldable pub receive : ℕ → Bytes → List Object → Connection → Host → Host
  unfolding feed received disconnect
  receive id chunk (m ∷ ms) c h = h
  receive id [] [] c h = disconnect id c.written h
  receive id (b ∷ bs) [] c h =
      if c.became_replica then h else received id c (feed c.parser (b ∷ bs)) h

  -- A frame that stays incomplete is an error; a connection that is only idle is closed.
  unfoldable pub time_out : ℕ → List Object → Connection → Host → Host
  unfolding disconnect buffered_size
  time_out id (m ∷ ms) c h = h
  time_out id [] c h =
      if c.became_replica
      then h
      else if buffered_size c.parser == 0
      then disconnect id c.written h
      else disconnect id (c.written ++ protocol_error frame_timed_out ∷ []) h

  unfoldable pub step : Event → Host → Host
  unfolding accept receive handle_message settle time_out disconnect
  step connects h = accept h
  step (reads id chunk) h =
      on_connection (Dict.get h.connections id) (λ c h'. receive id chunk c.messages c h') h
  step (handles id w) h =
      on_connection (Dict.get h.connections id) (λ c h'. handle_next w id c.messages c h') h
  step (times_out id) h =
      on_connection (Dict.get h.connections id) (λ c h'. time_out id c.messages c h') h
  step (breaks id) h =
      on_connection (Dict.get h.connections id) (λ c h'. disconnect id c.written h') h

  unfoldable pub run : List Event → Host → Host
  unfolding step
  run [] h = h
  run (e ∷ es) h = run es (step e h)
