-- ===== src/Replication/Replica/Joins.antt =====
-- byo_redis/replication: a replica joins a master, from PSYNC to the stream of commands.
use byo_redis.Prelude.{
  ℕ, ◌+◌, ◌≤◌, ◌<◌, ◌^◌, ◌≡◌, refl, sym, ◌∙◌, List, [], ◌∷◌, ◌++◌, arith, length, Result, ok, All,
  map, append-nil, true,
}
use byo_redis.Text.{Bytes, Str, codes}
use byo_redis.Text.Decimal.{FitsInt-word}
use byo_redis.Text.Utf8.{IsScalar}
use byo_redis.Dict.{Dict}
use byo_redis.Protocol.Object.{text, simple}
use byo_redis.Protocol.Encoder.{str, encode_simple_string, encode_command, encode_value}
use byo_redis.Protocol.Parser.{Limits, RespParser, new_parser, done, try_parse, reset}
use byo_redis.Protocol.Parser.RoundTrip.{wire, try_parse-encode_value}
use byo_redis.Protocol.Parser.Chunks.{try_parse-nil}
use byo_redis.Protocol.Parser.Bare.{try_parse-bare}
use byo_redis.Protocol.Parser.Feed.{concat}
use byo_redis.Protocol.Parser.Stream.{IsUsable}
use byo_redis.Storage.Types.{KeyEntry}
use byo_redis.Storage.Expiry.{Clock}
use byo_redis.Storage.Store.Keeps.{IsLoadable}
use byo_redis.Storage.Sweep.{live_items}
use byo_redis.Persistence.Rdb.{dump_rdb_entries}
use byo_redis.Persistence.Rdb.RoundTrip.{load_rdb_bytes-dump_rdb_entries}
use byo_redis.Replication.Sync.{resync_payload}
use byo_redis.Replication.Replica.{
  ReplicaError, ReplicaClient, Wire, read_one, read_snapshot, feed_leftover, read_rdb_bulk,
  exchange, is_full, load_snapshot, synchronize, greet, handshake, applied, session, start,
}
use byo_redis.Replication.Replica.Stream.{
  IsChunk, read_size, IsApplicable, apply_all, closed, read_loop-encode_command,
}
use byo_redis.Replication.Replica.Snapshot.{bulk_of_snapshot, read_snapshot-Took}
use byo_redis.Replication.Replica.Later.{read_one-Later3, read_snapshot-Later3}
use byo_redis.Replication.Replica.Session.{Got, read_one-Got}

-- What the master writes first, and what of it the replica can take in: the line that says FULLRESYNC,
-- and a snapshot within the limits.
pub record IsPayload (l : Limits) (limit : ℕ) (entries : Dict Bytes KeyEntry) (line : Str)
    (header rdb : Bytes) : Type 0 where
  pub loadable : IsLoadable entries
  pub dumped : dump_rdb_entries entries ≡ ok rdb
  pub encoded : encode_simple_string (str line) ≡ ok header
  pub full : is_full (text line) ≡ true
  pub scalars : All IsScalar line
  pub room : length header + read_size ≤ l.max_buffer_bytes
  pub bulk_len : length rdb ≤ l.max_bulk_len
  pub snapshot_len : length rdb ≤ limit
  pub word : length rdb < 2 ^ 64

nothing_left :
    (left : Bytes) (cs : List Bytes)
    → left ++ concat cs ≡ []
    → All IsChunk cs
    → (left ≡ []) × (cs ≡ [])
nothing_left [] [] e h = (refl, refl)
nothing_left [] ([] ∷ cs) e h = absurd (omega (arith, h.0.0))
nothing_left [] ((b ∷ bs) ∷ cs) e h = absurd (cc (e))
nothing_left (b ∷ left) cs e h = absurd (cc (e))

-- The parser reads the line that the master writes.
module _ (l : Limits) (line : Str) (header : Bytes) (scalars : All IsScalar line)
    (coded : encode_simple_string (str line) ≡ ok header) where
  pub header-reads :
      (rest : Bytes) → try_parse l l.max_array_depth (header ++ rest) ≡ done (text line) rest
  unfolding encode_value wire
  header-reads rest = try_parse-encode_value l (simple line) header rest scalars coded

  length-header : (b : Bytes) → header ≡ b → 0 < length b
  length-header [] e =
      let whole : try_parse l l.max_array_depth [] ≡ done (text line) [] =
        (rw e at (header-reads [])) in
      absurd (cc (whole, try_parse-nil l l.max_array_depth))
  length-header (b ∷ bs) e = omega arith

module _ (l : Limits) (limit : ℕ) (entries : Dict Bytes KeyEntry) (line : Str) (header rdb : Bytes)
    (h : IsPayload l limit entries line header rdb) where
  line-Got :
      (cs : List Bytes)
      → concat cs ≡ resync_payload header rdb
      → All IsChunk cs
      → Got (read_one (new_parser l) cs) (text line) l (bulk_of_snapshot rdb)
  unfolding resync_payload
  line-Got cs e chunks =
      read_one-Got l header (bulk_of_snapshot rdb) (text line)
        (header-reads l line header h.scalars h.encoded)
        (try_parse-bare l l.max_array_depth rdb (FitsInt-word _ h.word) h.bulk_len) h.room [] cs
        (length-header l line header h.scalars h.encoded header refl) e chunks

  load_snapshot-live :
      (clock : Clock) (q : RespParser) (cs written : List Bytes)
      → load_snapshot limit clock (rdb, q, cs) written
        ≡ ok
            (live_items (clock 0) entries, record { parser = q; incoming = cs; outgoing = written })
  unfolding load_snapshot
  load_snapshot-live clock q cs written =
      rw
        (
          load_snapshot,
          load_rdb_bytes-dump_rdb_entries limit clock entries rdb h.loadable h.dumped
              h.snapshot_len,
        )
        refl

  module _ (more : List Bytes) where
    read_rdb_bulk-rest :
        (left : Bytes) (cs : List Bytes)
        → left ++ concat cs ≡ bulk_of_snapshot rdb
        → All IsChunk cs
        → read_rdb_bulk limit (record { buf = left; limits = l }) (cs ++ more)
          ≡ ok (rdb, new_parser l, more)
    unfolding read_rdb_bulk reset feed_leftover
    read_rdb_bulk-rest left cs e chunks =
        let (left', cs', read, e', chunks') =
          read_snapshot-Took limit rdb (FitsInt-word _ h.word) h.snapshot_len left cs []
            (e ∙ sym (append-nil (bulk_of_snapshot rdb))) chunks in
        let (none_left, no_chunks) = nothing_left left' cs' e' chunks' in
        let whole : read_snapshot limit left (cs ++ more) ≡ ok (rdb, left', cs' ++ more) =
          (rw read at (read_snapshot-Later3 more limit left cs)) in
        rw (whole, none_left, no_chunks) refl

    pub synchronize-payload :
        (c : ReplicaClient) (clock : Clock) (w : Wire) (cs : List Bytes)
        → c.snapshot_max_bytes ≡ limit
        → w.parser ≡ new_parser l
        → w.incoming ≡ cs ++ more
        → concat cs ≡ resync_payload header rdb
        → All IsChunk cs
        → synchronize c clock w
          ≡ ok (
            live_items (clock 0) entries,
            record {
              parser = new_parser l;
              incoming = more;
              outgoing =
                  w.outgoing ++ encode_command (codes "PSYNC" ∷ codes "?" ∷ codes "-1" ∷ []) ∷ [];
            },
          )
    unfolding synchronize exchange load_snapshot
    synchronize-payload c clock w cs el ep ei e chunks =
        let (left, cs', read, e', chunks') = line-Got cs e chunks in
        let whole : read_one (new_parser l) (cs ++ more)
            ≡ ok (text line, record { buf = left; limits = l }, cs' ++ more) =
          (rw read at (read_one-Later3 more (new_parser l) cs)) in
        rw (el, ep, ei, whole, h.full, read_rdb_bulk-rest left cs' e' chunks')
          (load_snapshot-live clock (new_parser l) more _)

handshake-ok :
    (c : ReplicaClient) (clock : Clock) (w w' : Wire)
    → greet c w ≡ ok w'
    → handshake c clock w ≡ synchronize c clock w'
unfolding handshake
handshake-ok c clock w w' e = rw e refl

module _ {S : Type 0} (apply_command : List Bytes → S → Result ReplicaError (Unit {0}) × S) where
  -- A replica whose connection has been greeted loads the live entries of the snapshot that a full resync
  -- sends, however the payload is cut into chunks, and then applies every command that comes in later
  -- chunks, however those are cut, in order and once each: when the payload and the commands fit the
  -- limits, and no command comes in the same chunk as the end of the snapshot.
  pub session-payload :
      (c : ReplicaClient) (clock : Clock) (load : Dict Bytes KeyEntry → S → S) (s : S) (l : Limits)
      (entries : Dict Bytes KeyEntry) (line : Str) (header rdb : Bytes) (all cs more : List Bytes)
      (w : Wire) (cmds : List (List Bytes))
      → IsUsable l
      → IsPayload l c.snapshot_max_bytes entries line header rdb
      → greet c (start c all) ≡ ok w
      → w.parser ≡ new_parser l
      → w.incoming ≡ cs ++ more
      → concat cs ≡ resync_payload header rdb
      → All IsChunk cs
      → concat more ≡ concat (map encode_command cmds)
      → All IsChunk more
      → All (IsApplicable l) cmds
      → session apply_command c clock load all s
        ≡ applied apply_command
            (apply_all apply_command cmds (load (live_items (clock 0) entries) s))
            (closed apply_command)
  unfolding session
  session-payload c clock load s l entries line header rdb all cs more w cmds usable h greeted ep ei
        e chunks stream later fits =
      let joined =
        handshake-ok c clock (start c all) w greeted
        ∙ synchronize-payload l c.snapshot_max_bytes entries line header rdb h more c clock w cs
            refl ep ei e chunks in
      rw (session, joined)
        (read_loop-encode_command apply_command l cmds more _ usable fits later stream)
