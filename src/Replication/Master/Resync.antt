-- ===== src/Replication/Master/Resync.antt =====
-- `full_resync` of master.py: the snapshot, the backlog, and going live.
use byo_redis.Prelude.{
  ℕ, ◌+◌, ◌≡◌, refl, ap, sym, ◌∙◌, Bool, true, List, [], ◌∷◌, ◌++◌, length, Bool-cases, inl, inr,
  ltb, if_cases, All, subst,
}
use byo_redis.Text.{Bytes}
use byo_redis.Replication.Master.{
  syncing, ReplicaLink, disconnect, buffer, offer, offer_by, send, new_link,
}
use byo_redis.Replication.Master.Order.{
  Step, propagates, flushes, drains, step, run, payloads, IsOrderly, run-down, run-payloads,
}

-- A step that `propagate` makes.
abbrev pub IsPropagation : Step → Type 0
IsPropagation (propagates fails offset payload) = Unit
IsPropagation (flushes offset) = ⊥
IsPropagation (drains fails) = ⊥

module _ (backlog_max_bytes pending_max_commands : ℕ) where
  offer-syncing :
      (fails : Bool) (offset : ℕ) (payload : Bytes) (link : ReplicaLink)
      → link.state ≡ syncing
      → ((offer backlog_max_bytes pending_max_commands fails offset payload link).sent ≡ link.sent)
        × ((offer backlog_max_bytes pending_max_commands fails offset payload link).state ≡ syncing)
  unfolding offer offer_by buffer disconnect
  offer-syncing fails offset payload link e =
      if_cases (λ (r : ReplicaLink). (r.sent ≡ link.sent) × (r.state ≡ syncing)) link.alive
        (λ _.
          subst
            (λ t.
              ((offer_by backlog_max_bytes pending_max_commands t fails offset payload link).sent
                ≡ link.sent)
              × ((offer_by backlog_max_bytes pending_max_commands t fails offset payload link).state
                  ≡ syncing))
            (sym e)
            (if_cases (λ (r : ReplicaLink). (r.sent ≡ link.sent) × (r.state ≡ syncing))
              (ltb backlog_max_bytes (link.backlog_bytes + length payload)) (λ _. (refl, e))
              (λ _. (refl, e))))
        (λ _. (refl, e))

  run-syncing :
      (ss : List Step) (link : ReplicaLink)
      → All IsPropagation ss
      → link.state ≡ syncing
      → ((run backlog_max_bytes pending_max_commands ss link).sent ≡ link.sent)
        × ((run backlog_max_bytes pending_max_commands ss link).state ≡ syncing)
  unfolding step
  run-syncing [] link h e = (refl, e)
  run-syncing (propagates fails offset payload ∷ ss) link h e =
      let first = offer-syncing fails offset payload link e in
      let rest =
        run-syncing ss (offer backlog_max_bytes pending_max_commands fails offset payload link) h.1
          first.1 in
      (rest.0 ∙ first.0, rest.1)
  run-syncing (flushes offset ∷ ss) link h e = absurd h.0
  run-syncing (drains fails ∷ ss) link h e = absurd h.0

  -- `full_resync`: a replica registers; `before` is propagated until the snapshot is written to it;
  -- then come turns of the flush loop and more propagation. While it stays connected it has been
  -- sent, or has in its backlog, the snapshot and then every command since, in order.
  pub full_resync-payloads :
      (id offset : ℕ) (snapshot : Bytes) (before after : List Step)
      → All IsPropagation before
      → (run backlog_max_bytes pending_max_commands after (
          send snapshot
            (run backlog_max_bytes pending_max_commands before (new_link id offset syncing)))).alive
        ≡ true
      → (run backlog_max_bytes pending_max_commands after (
            send snapshot (
              run backlog_max_bytes pending_max_commands before (new_link id offset syncing)))).sent
          ++ (run backlog_max_bytes pending_max_commands after (
              send snapshot (
                run backlog_max_bytes pending_max_commands before
                  (new_link id offset syncing)))).backlog
        ≡ snapshot ∷ (payloads before ++ payloads after)
  unfolding new_link
  full_resync-payloads id offset snapshot before after h a =
      let start : ReplicaLink = new_link id offset syncing in
      let mid : ReplicaLink = run backlog_max_bytes pending_max_commands before start in
      let quiet : (mid.sent ≡ []) × (mid.state ≡ syncing) = run-syncing before start h refl in
      let orderly : IsOrderly mid.state mid.backlog = rw (quiet.1) tt in
      elim (Bool-cases mid.alive) [
        | inr down ↦
            absurd (
              cc
                (a, run-down backlog_max_bytes pending_max_commands after (send snapshot mid) down))
        | inl up ↦
            let queued : mid.backlog ≡ payloads before =
              (rw (quiet.0) at
                (run-payloads backlog_max_bytes pending_max_commands before start tt up)) in
            run-payloads backlog_max_bytes pending_max_commands after (send snapshot mid) orderly a
            ∙ ap (λ t. ((t ++ snapshot ∷ []) ++ mid.backlog) ++ payloads after) quiet.0
            ∙ ap (λ t. snapshot ∷ (t ++ payloads after)) queued
      ]
