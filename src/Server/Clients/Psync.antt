-- ===== src/Server/Clients/Psync.antt =====
-- byo_redis/server.py, handle_client: PSYNC, which is handled before anything asks for a password.
use byo_redis.Prelude.{ℕ, ◌≡◌, refl, true, false, some, [], ◌∷◌, List, ok}
use byo_redis.Text.{Bytes, Str, codes, upper}
use byo_redis.Dict
use byo_redis.Dict.{Dict, nat_eq}
use byo_redis.Dict.Laws.{get-put, beq_refl}
use byo_redis.Protocol.Parser.{ProtocolError}
use byo_redis.Storage.Expiry.{Clock}
use byo_redis.Storage.Store.{Store}
use byo_redis.Storage.Sweep.{snapshot}
use byo_redis.Persistence.Aof.{AppendError}
use byo_redis.Persistence.Rdb.{dump_rdb_entries}
use byo_redis.Replication.Master.{
  MasterReplication, ReplicaLink, register_syncing, flush, send, new_link, syncing,
}
use byo_redis.Replication.Sync.{full_resync, send_snapshot, resync_header, resync_payload}
use byo_redis.Server.State.{Server, World}
use byo_redis.Server.Clients.{holds, handle_argv, psync_message}

-- The link of the connection, and what was written to it.
abbrev pub Linked : MasterReplication → ℕ → List Bytes → Type 0
Linked m id sent = (link : ReplicaLink) × (Dict.get m.replicas id ≡ some link) × (link.sent ≡ sent)

get-put_same :
    (id : ℕ) (link : ReplicaLink) (d : Dict ℕ ReplicaLink)
    → Dict.get (Dict.put id link d) id ≡ some link
get-put_same id link d = rw (get-put id id link d, beq_refl id) refl

send_snapshot-Linked :
    (id : ℕ) (header rdb : Bytes) (m : MasterReplication)
    → ((send_snapshot false id (ok header) (ok rdb) m).0 ≡ true)
      × Linked (send_snapshot false id (ok header) (ok rdb) m).1 id (resync_payload header rdb ∷ [])
unfolding send_snapshot flush new_link
send_snapshot-Linked id header rdb m = (
  refl,
  (
    flush m.offset (send (resync_payload header rdb) (new_link id m.offset syncing)),
    get-put_same id _ m.replicas,
    refl,
  ),
)

full_resync-Linked :
    (clock : Clock) (id : ℕ) (s : Store) (m : MasterReplication) (header rdb : Bytes)
    → resync_header (register_syncing id m) ≡ ok header
    → dump_rdb_entries (snapshot clock s).0 ≡ ok rdb
    → ((full_resync false clock id s m).0 ≡ true)
      × Linked (full_resync false clock id s m).2 id (resync_payload header rdb ∷ [])
unfolding full_resync
full_resync-Linked clock id s m header rdb eh er =
    rw (eh, er) (send_snapshot-Linked id header rdb (register_syncing id m))

module _ (os_text : AppendError → Str) (protocol_text : ProtocolError → Str) where
  -- On a master, PSYNC of any connection, whether a password is set and whether the connection has given
  -- it or not, is answered by a full resync: when the snapshot can be written and the transport works, the
  -- connection is held as a replica, to which the snapshot of the store has been written.
  pub handle_argv-psync :
      (w : World) (id : ℕ) (name : Bytes) (args : List Bytes) (s : Server) (header rdb : Bytes)
      → upper name ≡ codes "PSYNC"
      → s.config.is_replica ≡ false
      → w.fails id ≡ false
      → resync_header (register_syncing id s.master) ≡ ok header
      → dump_rdb_entries (snapshot w.during s.store).0 ≡ ok rdb
      → ((handle_argv os_text protocol_text w id (ok (name ∷ args)) s).0 ≡ [])
        × ((handle_argv os_text protocol_text w id (ok (name ∷ args)) s).1 ≡ holds)
        × Linked
            (handle_argv os_text protocol_text w id (ok (name ∷ args)) s).2.master
            id
            (resync_payload header rdb ∷ [])
  unfolding handle_argv psync_message
  handle_argv-psync w id name args s header rdb en er ef eh ed =
      let (sent, linked) = full_resync-Linked w.during id s.store s.master header rdb eh ed in
      rw (en, er, ef, sent) (refl, refl, linked)
