-- ===== src/Lib.antt =====
-- BYO-Redis, a Redis-compatible server: the core of byo_redis/ as definitions and theorems.
--
-- A client's bytes go through the parser (byo_redis/protocol/parser.py) to the server
-- (byo_redis/server.py), which checks authentication and the health of the log, dispatches the command
-- by the table of byo_redis/commands/registry.py to a handler, and the handler works on the store
-- (byo_redis/storage/store.py). A write is then held to the memory limit, logged
-- (byo_redis/persistence/aof.py), propagated to the replicas (byo_redis/replication/master.py), and its
-- result is encoded (byo_redis/protocol/encoder.py). Snapshots (byo_redis/persistence/rdb.py) serve
-- SAVE, a restart and the full synchronisation of a replica.
--
-- Files:
--   Text: bytes and text as lists of numbers; Text/Decimal is Python's int() and str() of an integer,
--     Text/Utf8 its decoding with errors="replace" and its encoding.
--   Dict: Python's dict as an association list in the order of insertion.
--   Protocol/Object, Encoder, Parser: the objects of the protocol, encode_value and its kin, RespParser.
--     An offset in the parser's buffer is the suffix that starts there. Parser/Stable, Chunks, Lines
--     and Bare carry the proofs of Parser/Feed, RoundTrip, Stream and Prefix.
--   Storage: Types and Expiry are types.py and expiry.py; Store, Values, Sweep and Memory are the methods
--     of Store in store.py; Valid is its invariant, View what a client can see of it. Keeps files show
--     what the operations keep; Memory/Eviction is about enforce_memory_limit.
--   Commands: the handlers of byo_redis/commands, file by file, and Registry their table; Answers is about
--     what they reply and leave.
--   Persistence/Rdb: rdb.py, with Crc32 for zlib.crc32; Persistence/Aof: aof.py;
--     Aof/Writer is the queue in front of the file, with its tasks, and Durable and Ends are about it.
--   Replication/Master: MasterReplication and ReplicaLink; Order and
--     Resync are about what a replica is sent while commands are propagated. Sync is full_resync when
--     none are.
--   Replication/Replica: ReplicaClient of replica.py. Stream is about the commands, Snapshot, Later and
--     Session about reading the snapshot, Joins about both; Rest and Gaps about what one read may hold
--     too much.
--   Server/State: the state of RedisServer, _normalize_argv and authenticate. Server/Admins: the handlers of
--     server_cmds.py and cmd_psync, with save_rdb_sync and the workers in the background. Server/Execute:
--     _execute and _execute_inner. Keeps, Valid, Frame, Guards and Rollback are about them. Server/Clients:
--     handle_client; Counts, Served and Psync are about it. Server/Loading: _load_persistence and replay_aof;
--     Restarts is about them.
--   Config: the validation in config_from_args; argparse itself is a library.
--   Tests: the theorems at concrete inputs.
--
-- State is passed explicitly: an operation takes the record and returns its result with the record that
-- it leaves; an exception is a value of Result, or of Reply in a handler. Every reading of the time is an
-- argument, a Clock, that gives the readings in their order. The outcome of a write to the log (whole,
-- taken in part without an exception, or OSError), the file of a snapshot and the failure of a transport
-- are arguments too, and so is the random sample of active_expire_cycle.
--
-- Bounds: the loop of feed runs on one round more than the buffer has bytes, each round but the last
-- takes a byte off; the loop of enforce_memory_limit on one round more than the store has entries, each
-- round but the last takes an entry off; the nesting of arrays on max_array_depth minus the depth.
-- Fixed-width fields of a snapshot are bytes of a number modulo 2 ^ 32 and 2 ^ 64.
--
-- A stream from a socket is the list of the chunks that its reads give. The connections of the clients are
-- a record that events change in any order: a connection comes, is read, has its next message handled, times
-- out, or breaks. A command is one step, as the write lock makes of a write.
--
-- In `append` of Persistence/Aof, which the server uses, an item of the log is one outcome; Aof/Writer has
-- the steps behind it.
--
-- Not modelled: sockets, the event loop and its clock, closing the log, argparse, logging, start and stop of
-- the server. In the rewriting of the log the division of milliseconds is exact below the overflow of floats,
-- where the code divides floats and may round a quotient beyond 2 ^ 43 down.
--
-- Python writes and reads integers of at most 4300 digits: int(), encode_integer and the average in INFO
-- have that limit; the other numbers that the server prints are read by int() or counted, and are shorter.
-- A float of seconds in the configuration is exact, as a whole number of times 2 ^ -1074.
pub mod Prelude
pub mod Text
pub mod Dict
pub mod Protocol
pub mod Storage
pub mod Commands
pub mod Persistence
pub mod Replication
pub mod Config
pub mod Server
mod Tests
