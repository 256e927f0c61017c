-- ===== src/Replication/Master.antt =====
-- byo_redis/replication/master.py: the links to the replicas, and what is written to each.
pub mod Order
pub mod Resync
use byo_redis.Prelude.{
  ℕ, zero, suc, ◌+◌, ◌-◌, Bool, true, false, not, ◌&&◌, Option, none, some, List, [], ◌∷◌, ◌++◌,
  ltb, leb, if◌then◌else◌, length,
}
use byo_redis.Text.{Bytes, Str}
use byo_redis.Dict
use byo_redis.Dict.{Dict, nat_eq}
use byo_redis.Protocol.Encoder.{encode_command}

pub data ReplicaState : Type 0 where
  syncing live : ReplicaState

-- `sent` is what was written to the transport, write by write; `pending` the size of the queue of
-- the drain task.
pub record ReplicaLink : Type 0 where
  pub connection_id : ℕ
  pub offset : ℕ
  pub alive : Bool
  pub state : ReplicaState
  pub backlog : List Bytes
  pub backlog_bytes : ℕ
  pub pending : ℕ
  pub sent : List Bytes

pub record MasterReplication : Type 0 where
  pub backlog_max_bytes : ℕ
  pub pending_max_commands : ℕ
  pub replid : Str
  pub offset : ℕ
  pub replicas : Dict ℕ ReplicaLink

abbrev pub is_live : ReplicaState → Bool
is_live syncing = false
is_live live = true

unfoldable pub live_count : Dict ℕ ReplicaLink → ℕ
live_count [] = 0
live_count ((k, link) ∷ d) =
    let rest = live_count d in if link.alive && is_live link.state then suc rest else rest

unfoldable pub connected_replicas : MasterReplication → ℕ
unfolding live_count
connected_replicas m = live_count m.replicas

unfoldable pub new_link : ℕ → ℕ → ReplicaState → ReplicaLink
new_link connection_id offset state = record {
  connection_id = connection_id;
  offset = offset;
  alive = true;
  state = state;
  backlog = [];
  backlog_bytes = 0;
  pending = 0;
  sent = [];
}

unfoldable pub register_syncing : ℕ → MasterReplication → MasterReplication
unfolding new_link
register_syncing id m = record m {
  replicas = Dict.put id (new_link id m.offset syncing) m.replicas;
}

unfoldable pub register : ℕ → MasterReplication → MasterReplication
unfolding new_link
register id m = record m { replicas = Dict.put id (new_link id m.offset live) m.replicas }

unfoldable pub unregister : ℕ → MasterReplication → MasterReplication
unregister id m = record m { replicas = Dict.pop id m.replicas }

-- A write to the transport.
abbrev pub send : Bytes → ReplicaLink → ReplicaLink
send payload link = record link { sent = link.sent ++ payload ∷ [] }

unfoldable pub disconnect : ReplicaLink → ReplicaLink
disconnect link = record link { alive = false }

module _ (backlog_max_bytes pending_max_commands : ℕ) where
  -- The branch of a link that is syncing.
  unfoldable pub buffer : ℕ → Bytes → ReplicaLink → ReplicaLink
  unfolding disconnect
  buffer offset payload link =
      if ltb backlog_max_bytes (link.backlog_bytes + length payload)
      then disconnect link
      else record link {
        backlog = link.backlog ++ payload ∷ [];
        backlog_bytes = link.backlog_bytes + length payload;
        offset = offset;
      }

  -- The branch of a live link; `fails` is whether the write raises.
  unfoldable pub write_through : Bool → ℕ → Bytes → ReplicaLink → ReplicaLink
  unfolding disconnect
  write_through fails offset payload link =
      if leb pending_max_commands link.pending
      then disconnect link
      else if fails
      then disconnect link
      else record link {
        sent = link.sent ++ payload ∷ [];
        offset = offset;
        pending = suc link.pending;
      }

  unfoldable pub offer_by : ReplicaState → Bool → ℕ → Bytes → ReplicaLink → ReplicaLink
  unfolding buffer write_through
  offer_by syncing fails offset payload link = buffer offset payload link
  offer_by live fails offset payload link = write_through fails offset payload link

  -- The body of the loop of `propagate`.
  unfoldable pub offer : Bool → ℕ → Bytes → ReplicaLink → ReplicaLink
  unfolding offer_by
  offer fails offset payload link =
      if link.alive then offer_by link.state fails offset payload link else link

  unfoldable pub offer_all : (ℕ → Bool) → ℕ → Bytes → Dict ℕ ReplicaLink → Dict ℕ ReplicaLink
  unfolding offer
  offer_all fails offset payload [] = []
  offer_all fails offset payload ((id, link) ∷ d) =
      (id, offer (fails id) offset payload link) ∷ offer_all fails offset payload d

unfoldable pub dead_ids : Dict ℕ ReplicaLink → List ℕ
dead_ids [] = []
dead_ids ((id, link) ∷ d) = let rest = dead_ids d in if link.alive then rest else id ∷ rest

-- `propagate`, and the links that it hands to `unregister` tasks
unfoldable pub propagate : (ℕ → Bool) → List Bytes → MasterReplication → MasterReplication × List ℕ
unfolding offer_all dead_ids
propagate fails argv m = elim m.replicas [
  | [] ↦ (m, [])
  | (_ ∷ _) ↦
      let payload : Bytes = encode_command argv in
      let offset : ℕ = m.offset + length payload in
      let after : Dict ℕ ReplicaLink =
        offer_all m.backlog_max_bytes m.pending_max_commands fails offset payload m.replicas in
      (record m { offset = offset; replicas = after }, dead_ids after)
]

-- The flush loop of `full_resync`, one turn: the backlog is written, or, if there is none, the link
-- goes live.
unfoldable pub flush : ℕ → ReplicaLink → ReplicaLink
flush offset link = elim link.backlog [
  | [] ↦ record link { state = live; offset = offset; backlog_bytes = 0 }
  | (_ ∷ _) ↦ record link { sent = link.sent ++ link.backlog; backlog = []; backlog_bytes = 0 }
]

-- `_replica_writer_loop`, one item; `fails` is whether the drain raises.
unfoldable pub drain_one : Bool → ReplicaLink → ReplicaLink
unfolding disconnect
drain_one fails link =
    let rest = record link { pending = link.pending - 1 } in if fails then disconnect rest else rest
