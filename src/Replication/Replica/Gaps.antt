-- ===== src/Replication/Replica/Gaps.antt =====
-- replica.py: payloads of a full resync that are read together with what comes before or behind them.
use byo_redis.Prelude.{
  ℕ, ◌≤◌, ◌<◌, ◌^◌, ◌≡◌, ◌≢◌, refl, sym, ap, ◌∙◌, List, [], ◌∷◌, ◌++◌, arith, length, ok, raise,
  All, map, length-append, append_assoc, append-nil, ◌⊎◌, inl, inr,
}
use byo_redis.Text.{Bytes, Str}
use byo_redis.Text.Decimal.{decimal_ℕ, FitsInt-word}
use byo_redis.Protocol.Object.{Object, text}
use byo_redis.Protocol.Encoder.{str, encode_simple_string, crlf, cr, encode_command}
use byo_redis.Protocol.Parser.{
  ProtocolError, missing_trailer, bulk_exceeds, Limits, RespParser, new_parser, done, fail,
  try_parse, feed, reset,
}
use byo_redis.Protocol.Parser.Chunks.{drain_all-round}
use byo_redis.Protocol.Parser.Bare.{try_parse-untrailed, try_parse-oversize}
use byo_redis.Text.Utf8.{IsScalar}
use byo_redis.Replication.Sync.{resync_payload}
use byo_redis.Replication.Replica.Joins.{header-reads}
use byo_redis.Protocol.Parser.Feed.{concat, feed-keep}
use byo_redis.Protocol.Parser.Stream.{FitsCommand, IsUsable, feed-encode_command}
use byo_redis.Replication.Replica.{
  malformed, pick, read_one, read_snapshot, feed_leftover, read_rdb_bulk,
}
use byo_redis.Replication.Replica.Snapshot.{bulk_of_snapshot, read_snapshot-Took}
use byo_redis.Replication.Replica.Stream.{IsChunk}
use byo_redis.Replication.Replica.Rest.{IsTail, read_snapshot-Leaves3, last_chunk}
use byo_redis.Replication.Replica.Later.{read_snapshot-Later3}

feed_leftover-back :
    (p : RespParser) (rest : Bytes) (ms : List Object)
    → feed p rest ≡ ok (ms, p)
    → feed_leftover p rest ≡ ok p
unfolding feed_leftover
feed_leftover-back p [] ms e = refl
feed_leftover-back p (b ∷ bs) ms e = rw (feed_leftover, e) refl

feed_leftover-commands :
    (l : Limits) (cmds : List (List Bytes))
    → IsUsable l
    → All (FitsCommand l) cmds
    → length (concat (map encode_command cmds)) ≤ l.max_buffer_bytes
    → feed_leftover (new_parser l) (concat (map encode_command cmds)) ≡ ok (new_parser l)
feed_leftover-commands l cmds usable fits small =
    feed_leftover-back (new_parser l) _ _ (feed-encode_command l cmds usable fits small)

concat_last :
    (before : List Bytes) (chunk : Bytes) → concat (before ++ chunk ∷ []) ≡ concat before ++ chunk
concat_last [] chunk = append-nil chunk
concat_last (b ∷ before) chunk =
    ap (λ x. b ++ x) (concat_last before chunk) ∙ sym (append_assoc b (concat before) chunk)

-- The parser holds the start `part` of a snapshot, as the read of the line before it may leave there, and the
-- reads that follow bring the rest of the snapshot. The last of these, the one that brings its end, also
-- brings the commands `lost` behind it. Then these are parsed and dropped: the snapshot is returned,
-- the parser is left empty, and the chunks behind that read are the next to be read. The snapshot and
-- the commands are within the limits.
pub read_rdb_bulk-lost :
    (l : Limits) (limit : ℕ) (rdb : Bytes) (lost : List (List Bytes)) (part : Bytes)
    (before : List Bytes) (chunk : Bytes) (cs : List Bytes)
    → IsUsable l
    → length rdb ≤ limit
    → length rdb < 2 ^ 64
    → All (FitsCommand l) lost
    → length (concat (map encode_command lost)) ≤ l.max_buffer_bytes
    → All IsChunk (before ++ chunk ∷ [])
    → length (part ++ concat before) < length (bulk_of_snapshot rdb)
    → (part ++ concat before) ++ chunk ≡ bulk_of_snapshot rdb ++ concat (map encode_command lost)
    → read_rdb_bulk limit (record { buf = part; limits = l }) (before ++ chunk ∷ cs)
      ≡ ok (rdb, new_parser l, cs)
unfolding read_rdb_bulk reset
read_rdb_bulk-lost l limit rdb lost part before chunk cs usable small word fits room chunks short
      e =
    let stream = concat (map encode_command lost) in
    let reads = before ++ chunk ∷ [] in
    let total : part ++ concat reads ≡ bulk_of_snapshot rdb ++ stream =
      ap (λ x. part ++ x) (concat_last before chunk)
      ∙ sym (append_assoc part (concat before) chunk)
      ∙ e in
    let (left, cs', read, e', chunks') =
      read_snapshot-Took limit rdb (FitsInt-word _ word) small part reads stream total chunks in
    let rest : (cs' ≡ []) ⊎ (length chunk ≤ length (concat cs')) =
      tail_is_last cs' (rw read at (read_snapshot-Leaves3 limit part reads)) in
    let longer : length stream < length chunk = omega (
      arith,
      ap length e,
      short,
      length-append (part ++ concat before) chunk,
      length-append (bulk_of_snapshot rdb) stream,
    ) in
    let (no_chunks, all_left) = behind left cs' chunk stream e' rest longer in
    let whole : read_snapshot limit part (reads ++ cs) ≡ ok (rdb, left, cs' ++ cs) =
      (rw read at (read_snapshot-Later3 cs limit part reads)) in
    rw
      (
        ← append_assoc before (chunk ∷ []) cs,
        whole,
        no_chunks,
        all_left,
        feed_leftover-commands l lost usable fits room,
      )
      refl
  where
    tail_is_last :
        (cs' : List Bytes)
        → IsTail (before ++ chunk ∷ []) cs'
        → (cs' ≡ []) ⊎ (length chunk ≤ length (concat cs'))
    tail_is_last cs' (used, u) = last_chunk used before chunk cs' u

    behind :
        (left : Bytes) (cs' : List Bytes) (chunk stream : Bytes)
        → left ++ concat cs' ≡ stream
        → (cs' ≡ []) ⊎ (length chunk ≤ length (concat cs'))
        → length stream < length chunk
        → (cs' ≡ []) × (left ≡ stream)
    behind left cs' chunk stream e (inl none_left) h =
        (none_left, sym (append-nil left) ∙ ap (λ x. left ++ concat x) (sym none_left) ∙ e)
    behind left cs' chunk stream e (inr long) h =
        absurd (omega (arith, ap length e, length-append left (concat cs'), long, h))

module _ (l : Limits) (line : Str) (header : Bytes)
    (reads : (rest : Bytes)
      → try_parse l l.max_array_depth (header ++ rest) ≡ done (text line) rest) where
  feed-refuses :
      (e : ProtocolError) (tail : Bytes)
      → try_parse l l.max_array_depth tail ≡ fail e
      → length (header ++ tail) ≤ l.max_buffer_bytes
      → feed (new_parser l) (header ++ tail) ≡ raise e
  feed-refuses e tail bad room =
      rw
        (
          feed-keep (new_parser l) (header ++ tail) (omega arith),
          drain_all-round l (header ++ tail),
          reads tail,
          drain_all-round l tail,
          bad,
        )
        refl

  read_one-refuses :
      (e : ProtocolError) (tail : Bytes) (cs : List Bytes) (chunk : Bytes)
      → header ++ tail ≡ chunk
      → 0 < length chunk
      → feed (new_parser l) (header ++ tail) ≡ raise e
      → read_one (new_parser l) (chunk ∷ cs) ≡ raise (malformed e)
  unfolding read_one
  read_one-refuses e tail cs [] same h bad = absurd (omega (arith, h))
  read_one-refuses e tail cs (b ∷ bs) same h bad =
      let bad' : feed (new_parser l) (b ∷ bs) ≡ raise e = (rw same at bad) in
      ap (λ r. pick r (λ q. read_one q cs) cs) bad'

-- Where the line that says FULLRESYNC and the start of a snapshot longer than the limit of the
-- parser come in one read, as the master writes them, the handshake ends with a protocol error.
pub read_one-oversize :
    (l : Limits) (line : Str) (header : Bytes) (n : ℕ) (start' : Bytes) (cs : List Bytes)
    → encode_simple_string (str line) ≡ ok header
    → All IsScalar line
    → l.max_bulk_len < n
    → n < 2 ^ 64
    → length (header ++ b'$' ∷ (decimal_ℕ n ++ crlf ++ start')) ≤ l.max_buffer_bytes
    → read_one (new_parser l) ((header ++ b'$' ∷ (decimal_ℕ n ++ crlf ++ start')) ∷ cs)
      ≡ raise (malformed (bulk_exceeds n))
read_one-oversize l line header n start' cs coded scalars large word room =
    let reads = header-reads l line header scalars coded in
    let tail = b'$' ∷ (decimal_ℕ n ++ crlf ++ start') in
    read_one-refuses l line header reads (bulk_exceeds n) tail cs _ refl
      (omega (arith, length-append header tail))
      (feed-refuses l line header reads (bulk_exceeds n) tail
        (try_parse-oversize l l.max_array_depth n start' (FitsInt-word n word) large) room)

-- Where the whole payload of a full resync comes in one read with at least two bytes of what follows it,
-- and these do not begin with CR, as commands do not, the handshake ends with a protocol error.
pub read_one-untrailed :
    (l : Limits) (line : Str) (header rdb : Bytes) (c d : ℕ) (rest : Bytes) (cs : List Bytes)
    → encode_simple_string (str line) ≡ ok header
    → All IsScalar line
    → length rdb ≤ l.max_bulk_len
    → length rdb < 2 ^ 64
    → c ≢ cr
    → length (resync_payload header rdb ++ c ∷ d ∷ rest) ≤ l.max_buffer_bytes
    → read_one (new_parser l) ((resync_payload header rdb ++ c ∷ d ∷ rest) ∷ cs)
      ≡ raise (malformed missing_trailer)
unfolding resync_payload
read_one-untrailed l line header rdb c d rest cs coded scalars small word other room =
    let reads = header-reads l line header scalars coded in
    let tail = b'$' ∷ (decimal_ℕ (length rdb) ++ crlf ++ (rdb ++ c ∷ d ∷ rest)) in
    let same : header ++ tail ≡ (header ++ bulk_of_snapshot rdb) ++ c ∷ d ∷ rest =
      ap (λ t. header ++ b'$' ∷ t)
        (sym (append_assoc (decimal_ℕ (length rdb) ++ crlf) rdb (c ∷ d ∷ rest)))
      ∙ sym (append_assoc header (bulk_of_snapshot rdb) (c ∷ d ∷ rest)) in
    read_one-refuses l line header reads missing_trailer tail cs _ same
      (omega (arith, ap length same, length-append header tail))
      (feed-refuses l line header reads missing_trailer tail
        (try_parse-untrailed l l.max_array_depth rdb c d rest (FitsInt-word _ word) small other)
        (rw same room))
