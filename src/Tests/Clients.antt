-- ===== src/Tests/Clients.antt =====
-- The theorems on the connections of the clients at concrete inputs.
use byo_redis.Prelude.{◌≡◌, refl, List, [], ◌∷◌, ok, some, arith}
use byo_redis.Text.{Bytes, Str, codes, upper}
use byo_redis.Text.Decimal.{decimal_ℕ}
use byo_redis.Text.Utf8.{encode}
use byo_redis.Dict
use byo_redis.Dict.{nat_eq}
use byo_redis.Protocol.Encoder.{encode_simple_string, has_newline}
use byo_redis.Protocol.Parser.{ProtocolError}
use byo_redis.Replication.Master.{register_syncing}
use byo_redis.Replication.Sync.{resync_header, resync_payload}
use byo_redis.Server.Clients.{
  Host, Event, connects, reads, handles, times_out, breaks, holds, handle_argv, run,
}
use byo_redis.Server.Clients.Counts.{IsCounted}
use byo_redis.Server.Clients.Served.{run-IsCounted}
use byo_redis.Server.Clients.Psync.{Linked, handle_argv-psync}
use byo_redis.Tests.Files.{file, dumped}
use byo_redis.Tests.Servers.{os_text, server, world}
use byo_redis.Tests.Stores.{stored-IsValid}

abbrev protocol_text : ProtocolError → Str
protocol_text e = codes "malformed"

-- A server with no connection.
abbrev host : Host
host = record {
  server = record (server (some (codes "secret"))) { client_count = 0; conn_seq = 0; writers = [] };
  connections = [];
  finished = [];
}

host-IsCounted : IsCounted host
unfolding Dict.has
host-IsCounted = record {
  counted = refl;
  limited = λ n e. omega arith;
  distinct = tt;
  numbered = λ k e. absurd (cc (e));
  known = tt;
  valid = stored-IsValid 0;
}

-- A client that authenticates and sends half a command, one that goes, and one that is late.
abbrev events : List Event
events =
    connects
    ∷ connects
    ∷ reads 1 (codes "*2\r\n$4\r\nAUTH\r\n$6\r\nsecret\r\n*1")
    ∷ handles 1 world
    ∷ breaks 2
    ∷ times_out 1
    ∷ connects
    ∷ []

run-IsCounted_example : IsCounted (run os_text protocol_text events host)
run-IsCounted_example = run-IsCounted os_text protocol_text events host host-IsCounted

abbrev header : Bytes
header = codes "+FULLRESYNC 0 0\r\n"

coded : resync_header (register_syncing 1 (server (some (codes "secret"))).master) ≡ ok header
unfolding resync_header register_syncing encode_simple_string has_newline encode decimal_ℕ
coded = refl

psync_named : upper (codes "psync") ≡ codes "PSYNC"
unfolding upper
psync_named = refl

handle_argv-psync_example :
    ((handle_argv os_text protocol_text world 1
        (ok (codes "psync" ∷ codes "?" ∷ codes "-1" ∷ []))
        (server (some (codes "secret")))).0
      ≡ [])
    × ((handle_argv os_text protocol_text world 1
          (ok (codes "psync" ∷ codes "?" ∷ codes "-1" ∷ []))
          (server (some (codes "secret")))).1
        ≡ holds)
    × Linked
        (handle_argv os_text protocol_text world 1
          (ok (codes "psync" ∷ codes "?" ∷ codes "-1" ∷ []))
          (server (some (codes "secret")))).2.master
        1
        (resync_payload header file ∷ [])
handle_argv-psync_example =
    handle_argv-psync os_text protocol_text world 1 (codes "psync") (codes "?" ∷ codes "-1" ∷ [])
      (server (some (codes "secret"))) header file psync_named refl refl coded dumped
