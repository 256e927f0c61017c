-- ===== src/Replication/Sync.antt =====
-- byo_redis/replication/master.py, full_resync, when nothing is propagated while it runs; the runs in
-- which something is are those of Replication/Master/Resync.
use byo_redis.Prelude.{ℕ, Bool, true, false, ◌∷◌, ◌++◌, length, Result, ok}
use byo_redis.Text.{Bytes, codes}
use byo_redis.Text.Decimal.{decimal_ℕ}
use byo_redis.Dict
use byo_redis.Dict.{Dict, nat_eq}
use byo_redis.Protocol.Encoder.{EncodeError, str, crlf, encode_simple_string}
use byo_redis.Storage.Expiry.{Clock}
use byo_redis.Storage.Store.{Store}
use byo_redis.Storage.Sweep.{snapshot}
use byo_redis.Persistence.Rdb.{RdbError, dump_rdb_entries}
use byo_redis.Replication.Master.{
  MasterReplication, ReplicaLink, syncing, new_link, register_syncing, unregister, send, flush,
}

-- The header, the length of the snapshot, and the snapshot, with nothing behind it.
unfoldable pub resync_payload : Bytes → Bytes → Bytes
resync_payload header rdb = header ++ (b'$' ∷ (decimal_ℕ (length rdb) ++ crlf ++ rdb))

unfoldable pub resync_header : MasterReplication → Result EncodeError Bytes
unfolding encode_simple_string
resync_header m =
    encode_simple_string
      (str (codes "FULLRESYNC " ++ (m.replid ++ (codes " " ++ decimal_ℕ m.offset))))

-- Behind the encoding: the payload is written, and the first turn of the flush loop finds no backlog.
unfoldable pub send_snapshot :
    Bool
    → ℕ
    → Result EncodeError Bytes
    → Result RdbError Bytes
    → MasterReplication
    → Bool × MasterReplication
unfolding resync_payload unregister flush new_link
send_snapshot false id (ok header) (ok rdb) m =
    let link : ReplicaLink = send (resync_payload header rdb) (new_link id m.offset syncing) in
    (true, record m { replicas = Dict.put id (flush m.offset link) m.replicas })
send_snapshot fails id header rdb m = (false, unregister id m)

-- `fails` is whether the transport raises. The result is whether the replica is live; where it is not,
-- an exception was raised.
unfoldable pub full_resync :
    Bool → Clock → ℕ → Store → MasterReplication → Bool × Store × MasterReplication
unfolding register_syncing resync_header send_snapshot snapshot dump_rdb_entries
full_resync fails clock id s m =
    let m' : MasterReplication = register_syncing id m in
    let (entries, s') = snapshot clock s in
    let (done, m'') = send_snapshot fails id (resync_header m') (dump_rdb_entries entries) m' in
    (done, s', m'')
