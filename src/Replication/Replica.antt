-- ===== src/Replication/Replica.antt =====
-- byo_redis/replication/replica.py: ReplicaClient. The stream from the master is the list of the chunks
-- that its reads give; an empty chunk, and the end of the list, are the end of the stream.
pub mod Snapshot
pub mod Stream
pub mod Later
pub mod Session
pub mod Joins
pub mod Rest
pub mod Gaps
use byo_redis.Prelude.{
  ℕ, zero, suc, ◌+◌, ◌*◌, Bool, true, false, not, ◌&&◌, Option, none, some, List, [], ◌∷◌, ◌++◌,
  length, take, drop, ltb, ◌==◌, if◌then◌else◌, ℤ, pos, negsuc, Result, ok, raise, ◌>>=◌,
}
use byo_redis.Text.{Bytes, Str, codes, text_eq}
use byo_redis.Text.Decimal.{int, decimal}
use byo_redis.Text.Utf8.{encode}
use byo_redis.Dict.{Dict}
use byo_redis.Protocol.Object.{
  Object, Objects, null, integer, bulk, text, array, error_msg, nil, cons,
}
use byo_redis.Protocol.Encoder.{encode_command}
use byo_redis.Protocol.Parser.{
  ProtocolError, Limits, default_limits, RespParser, new_parser, Parsed, incomplete, done, fail,
  read_line, feed, reset,
}
use byo_redis.Storage.Types.{KeyEntry}
use byo_redis.Storage.Expiry.{Clock}
use byo_redis.Persistence.Rdb.{RdbError, load_rdb_bytes}

-- What ends a session: an exception, by its message.
pub data ReplicaError : Type 0 where
  malformed : ProtocolError → ReplicaError
  bad_snapshot : RdbError → ReplicaError
  closed_handshake closed_snapshot closed_stream : ReplicaError
  extra_messages : ReplicaError
  unexpected_auth unexpected_pong unexpected_ok unexpected_capa unexpected_full :
      Object → ReplicaError
  no_bulk_header : Bytes → ReplicaError
  bad_length : Bytes → ReplicaError
  null_snapshot : ReplicaError
  over_limit : ℕ → ReplicaError
  bad_element : Object → ReplicaError

pub record ReplicaClient : Type 0 where
  pub listening_port : ℤ
  pub max_bulk_len : ℕ
  pub snapshot_max_bytes : ℕ
  pub masterauth : Option Str

-- The connection: the parser, the chunks that are still to be read, and what was written.
pub record Wire : Type 0 where
  pub parser : RespParser
  pub incoming : List Bytes
  pub outgoing : List Bytes

abbrev pub Read : Type 0
Read = Result ReplicaError (Object × RespParser × List Bytes)

-- The test on the messages of a chunk in `read_one`
abbrev pub pick :
    Result ProtocolError (List Object × RespParser) → (RespParser → Read) → List Bytes → Read
pick (raise e) again cs = raise (malformed e)
pick (ok ([], p)) again cs = again p
pick (ok (m ∷ [], p)) again cs = ok (m, p, cs)
pick (ok (m ∷ n ∷ ms, p)) again cs = raise extra_messages

unfoldable pub read_one : RespParser → List Bytes → Read
unfolding feed
read_one p [] = raise closed_handshake
read_one p ([] ∷ cs) = raise closed_handshake
read_one p ((b ∷ bs) ∷ cs) = pick (feed p (b ∷ bs)) (λ q. read_one q cs) cs

-- `ensure`, on a position in the buffer: the suffix that starts there
unfoldable pub ensure : ℕ → Bytes → List Bytes → Result ReplicaError (Bytes × List Bytes)
ensure n buf [] = if ltb (length buf) n then raise closed_snapshot else ok (buf, [])
ensure n buf ([] ∷ cs) = if ltb (length buf) n then raise closed_snapshot else ok (buf, [] ∷ cs)
ensure n buf ((b ∷ bs) ∷ cs) =
    let more = ensure n (buf ++ b ∷ bs) cs in
    if ltb (length buf) n then more else ok (buf, (b ∷ bs) ∷ cs)

abbrev pub Header : Type 0
Header = Result ReplicaError (Bytes × Bytes × List Bytes)

-- `buf[1:idx]` and what follows the CR LF, where `find` has found one
abbrev pub header_of : Parsed Bytes → Header → List Bytes → Header
header_of (done line rest) again cs = ok (drop 1 line, rest, cs)
header_of incomplete again cs = again
header_of (fail e) again cs = again

-- The loop of `find`: `ensure(len(buf) + 1)` reads one chunk.
unfoldable pub read_header : Bytes → List Bytes → Header
unfolding read_line
read_header buf [] = header_of (read_line buf) (raise closed_snapshot) []
read_header buf ([] ∷ cs) = header_of (read_line buf) (raise closed_snapshot) ([] ∷ cs)
read_header buf ((b ∷ bs) ∷ cs) =
    header_of (read_line buf) (read_header (buf ++ b ∷ bs) cs) ((b ∷ bs) ∷ cs)

unfoldable pub snapshot_length : ℕ → Bytes → Option ℤ → Result ReplicaError ℕ
snapshot_length limit header none = raise (bad_length header)
snapshot_length limit header (some (negsuc n)) = raise null_snapshot
snapshot_length limit header (some (pos n)) = if ltb limit n then raise (over_limit n) else ok n

abbrev pub starts_bulk : Bytes → Bool
starts_bulk [] = false
starts_bulk (b ∷ bs) = b == b'$'

-- `_read_rdb_bulk` up to the leftover: the snapshot, the leftover, and the chunks that follow.
unfoldable pub read_snapshot :
    ℕ → Bytes → List Bytes → Result ReplicaError (Bytes × Bytes × List Bytes)
unfolding ensure read_header snapshot_length
read_snapshot limit buf cs = ensure 1 buf cs >>= λ r.
    if starts_bulk r.0
    then (read_header r.0 r.1 >>= λ h. snapshot_length limit h.0 (int h.0) >>= λ n.
        ensure n h.1 h.2 >>= λ t. ok (take n t.0, drop n t.0, t.1))
    else raise (no_bulk_header (take 20 r.0))

-- The messages that this `feed` returns are not looked at.
unfoldable pub feed_leftover : RespParser → Bytes → Result ReplicaError RespParser
unfolding feed
feed_leftover p [] = ok p
feed_leftover p (b ∷ bs) = elim (feed p (b ∷ bs)) [
  | raise e ↦ raise (malformed e)
  | ok r ↦ ok (r.1)
]

unfoldable pub read_rdb_bulk :
    ℕ → RespParser → List Bytes → Result ReplicaError (Bytes × RespParser × List Bytes)
unfolding read_snapshot feed_leftover reset
read_rdb_bulk limit p cs =
    read_snapshot limit p.buf cs >>= λ r. feed_leftover (reset p) r.1 >>= λ q. ok (r.0, q, r.2)

-- `send_cmd`, then `read_one`
unfoldable pub exchange : List Bytes → Wire → Result ReplicaError (Object × Wire)
unfolding read_one
exchange argv w = read_one w.parser w.incoming >>= λ r. ok (
  r.0,
  record { parser = r.1; incoming = r.2; outgoing = w.outgoing ++ encode_command argv ∷ [] },
)

-- x == "..." or x == b"..."
abbrev pub says : Str → Object → Bool
says word (text t) = text_eq t word
says word (bulk b) = text_eq b word
says word _ = false

unfoldable pub expect : Str → (Object → ReplicaError) → List Bytes → Wire → Result ReplicaError Wire
unfolding exchange
expect word error argv w =
    exchange argv w >>= λ r. if says word r.0 then ok (r.1) else raise (error r.0)

unfoldable pub authenticate_link : Option Str → Wire → Result ReplicaError Wire
unfolding expect
authenticate_link none w = ok w
authenticate_link (some password) w =
    expect (codes "OK") unexpected_auth (codes "AUTH" ∷ encode password ∷ []) w

-- `_handshake` up to PSYNC
unfoldable pub greet : ReplicaClient → Wire → Result ReplicaError Wire
unfolding authenticate_link expect
greet c w = authenticate_link c.masterauth w >>= λ w1.
    expect (codes "PONG") unexpected_pong (codes "PING" ∷ []) w1 >>= λ w2.
    expect (codes "OK") unexpected_ok
      (codes "REPLCONF" ∷ codes "listening-port" ∷ decimal c.listening_port ∷ []) w2
    >>= λ w3.
        expect (codes "OK") unexpected_capa (codes "REPLCONF" ∷ codes "capa" ∷ codes "eof" ∷ []) w3

-- isinstance(full, str) and full.startswith("FULLRESYNC ")
abbrev pub is_full : Object → Bool
is_full (text t) = text_eq (take 11 t) (codes "FULLRESYNC ")
is_full _ = false

unfoldable pub load_snapshot :
    ℕ
    → Clock
    → Bytes × RespParser × List Bytes
    → List Bytes
    → Result ReplicaError (Dict Bytes KeyEntry × Wire)
unfolding load_rdb_bytes
load_snapshot limit clock (rdb, q, cs) written = elim (load_rdb_bytes limit clock rdb) [
  | raise e ↦ raise (bad_snapshot e)
  | ok entries ↦ ok (entries, record { parser = q; incoming = cs; outgoing = written })
]

-- `_handshake` from PSYNC on: the entries that are loaded into the store.
unfoldable pub synchronize :
    ReplicaClient → Clock → Wire → Result ReplicaError (Dict Bytes KeyEntry × Wire)
unfolding exchange read_rdb_bulk load_snapshot
synchronize c clock w = exchange (codes "PSYNC" ∷ codes "?" ∷ codes "-1" ∷ []) w >>= λ r.
    if is_full r.0
    then (read_rdb_bulk c.snapshot_max_bytes r.1.parser r.1.incoming >>= λ t.
        load_snapshot c.snapshot_max_bytes clock t r.1.outgoing)
    else raise (unexpected_full r.0)

unfoldable pub handshake :
    ReplicaClient → Clock → Wire → Result ReplicaError (Dict Bytes KeyEntry × Wire)
unfolding greet synchronize
handshake c clock w = greet c w >>= λ w'. synchronize c clock w'

-- The connection as `_session` opens it
abbrev pub start : ReplicaClient → List Bytes → Wire
start c cs = record {
  parser = new_parser (record default_limits { max_bulk_len = c.max_bulk_len });
  incoming = cs;
  outgoing = [];
}

unfoldable pub element : Object → Result ReplicaError Bytes
element (bulk b) = ok b
element (text t) = ok (encode t)
element null = ok []
element o = raise (bad_element o)

unfoldable pub elements : Objects → Result ReplicaError (List Bytes)
unfolding element
elements nil = ok []
elements (cons x xs) = element x >>= λ a. elements xs >>= λ as'. ok (a ∷ as')

-- A command, or a message that is ignored.
unfoldable pub message_argv : Object → Result ReplicaError (Option (List Bytes))
unfolding elements
message_argv (array (cons x xs)) = elements (cons x xs) >>= λ argv. ok (some argv)
message_argv _ = ok none

-- `S` is the state that `apply_command` works on; it may raise.
module _ {S : Type 0} (apply_command : List Bytes → S → Result ReplicaError (Unit {0}) × S) where
  abbrev pub Applied : Type 0
  Applied = Result ReplicaError (Unit {0}) × S

  abbrev pub applied : Applied → (S → Applied) → Applied
  applied (ok _, s) next = next s
  applied (raise e, s) next = (raise e, s)

  abbrev pub apply_argv : Result ReplicaError (Option (List Bytes)) → S → Applied
  apply_argv (raise e) s = (raise e, s)
  apply_argv (ok none) s = (ok tt, s)
  apply_argv (ok (some argv)) s = apply_command argv s

  unfoldable pub apply_messages : List Object → S → Applied
  unfolding message_argv
  apply_messages [] s = (ok tt, s)
  apply_messages (m ∷ ms) s = applied (apply_argv (message_argv m) s) (apply_messages ms)

  -- What becomes of a chunk
  abbrev pub fed :
      Result ProtocolError (List Object × RespParser) → (RespParser → S → Applied) → S → Applied
  fed (raise e) next s = (raise (malformed e), s)
  fed (ok (ms, q)) next s = applied (apply_messages ms s) (next q)

  -- The loop of `_read_loop`, which only an exception ends, or a cancellation.
  unfoldable pub follow : RespParser → List Bytes → S → Applied
  unfolding apply_messages
  follow p [] s = (raise closed_stream, s)
  follow p ([] ∷ cs) s = (raise closed_stream, s)
  follow p ((b ∷ bs) ∷ cs) s = fed (feed p (b ∷ bs)) (λ q. follow q cs) s

  unfoldable pub read_loop : RespParser → List Bytes → S → Applied
  unfolding follow
  read_loop p cs s = fed (feed p []) (λ q. follow q cs) s

  -- `_session` on a connection; `load` is `store.load_entries`.
  unfoldable pub session :
      ReplicaClient → Clock → (Dict Bytes KeyEntry → S → S) → List Bytes → S → Applied
  unfolding handshake read_loop
  session c clock load cs s = elim (handshake c clock (start c cs)) [
    | raise e ↦ (raise e, s)
    | ok r ↦ read_loop r.1.parser r.1.incoming (load r.0 s)
  ]

-- `_run`: the waits between the sessions, in milliseconds; whether a session returned.
unfoldable pub next_backoff : ℕ → ℕ
next_backoff b = if ltb 10000 (b * 2) then 10000 else b * 2

unfoldable pub waits : ℕ → List Bool → List ℕ
unfolding next_backoff
waits b [] = []
waits b (true ∷ returned) = waits 500 returned
waits b (false ∷ returned) = b ∷ waits (next_backoff b) returned
