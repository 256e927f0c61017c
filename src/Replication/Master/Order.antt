-- ===== src/Replication/Master/Order.antt =====
-- Each replica receives what was propagated since it registered, in order and each command once.
use byo_redis.Prelude.{
  ℕ, ◌+◌, ◌≡◌, refl, ap, sym, ◌∙◌, Bool, true, false, List, [], ◌∷◌, ◌++◌, length, append_assoc,
  append-nil, Bool-cases, inl, inr, ltb, leb, if_cases,
}
use byo_redis.Text.{Bytes}
use byo_redis.Replication.Master.{
  ReplicaState, syncing, live, ReplicaLink, disconnect, buffer, write_through, offer, offer_by,
  flush, drain_one,
}

-- What happens to a link: a payload is propagated to it, at an offset of the master and to a writer
-- that may fail; a turn of the flush loop of `full_resync`; an item of the drain task.
pub data Step : Type 0 where
  propagates : Bool → ℕ → Bytes → Step
  flushes : ℕ → Step
  drains : Bool → Step

module _ (backlog_max_bytes pending_max_commands : ℕ) where
  unfoldable pub step : Step → ReplicaLink → ReplicaLink
  unfolding offer flush drain_one
  step (propagates fails offset payload) link =
      offer backlog_max_bytes pending_max_commands fails offset payload link
  step (flushes offset) link = flush offset link
  step (drains fails) link = drain_one fails link

  abbrev pub run : List Step → ReplicaLink → ReplicaLink
  run [] link = link
  run (s ∷ ss) link = run ss (step s link)

-- The payloads of a run, in order.
abbrev pub payloads : List Step → List Bytes
payloads [] = []
payloads (propagates fails offset payload ∷ ss) = payload ∷ payloads ss
payloads (flushes offset ∷ ss) = payloads ss
payloads (drains fails ∷ ss) = payloads ss

-- A link that is live has nothing in its backlog.
abbrev pub IsOrderly : ReplicaState → List Bytes → Type 0
IsOrderly syncing backlog = Unit
IsOrderly live [] = Unit
IsOrderly live (b ∷ bs) = ⊥

abbrev payload_of : Step → List Bytes
payload_of (propagates fails offset payload) = payload ∷ []
payload_of (flushes offset) = []
payload_of (drains fails) = []

-- What a step of a link that is still connected has done.
record Kept (s : Step) (before after : ReplicaLink) : Type 0 where
  orderly : IsOrderly after.state after.backlog
  queued : after.sent ++ after.backlog ≡ (before.sent ++ before.backlog) ++ payload_of s

IsOrderly-nil : (s : ReplicaState) → IsOrderly s []
IsOrderly-nil syncing = tt
IsOrderly-nil live = tt

orderly_empty : (backlog : List Bytes) → IsOrderly live backlog → backlog ≡ []
orderly_empty [] h = refl
orderly_empty (b ∷ bs) h = absurd h

module _ (backlog_max_bytes pending_max_commands : ℕ) where
  drain_one-Kept :
      (fails : Bool) (link : ReplicaLink)
      → IsOrderly link.state link.backlog
      → (drain_one fails link).alive ≡ true
      → Kept (drains fails) link (drain_one fails link)
  unfolding drain_one disconnect
  drain_one-Kept true link h a = absurd (cc a)
  drain_one-Kept false link h a = record { orderly = h; queued = sym (append-nil _) }

  flush-Kept :
      (offset : ℕ) (link : ReplicaLink) (backlog : List Bytes)
      → link.backlog ≡ backlog
      → Kept (flushes offset) link (flush offset link)
  unfolding flush
  flush-Kept offset link [] e = rw e (record { orderly = tt; queued = sym (append-nil _) })
  flush-Kept offset link (b ∷ bs) e =
      rw e (record { orderly = IsOrderly-nil link.state; queued = refl })

  buffer-Kept :
      (fails : Bool) (offset : ℕ) (payload : Bytes) (link : ReplicaLink)
      → link.state ≡ syncing
      → (buffer backlog_max_bytes pending_max_commands offset payload link).alive ≡ true
      → Kept
          (propagates fails offset payload)
          link
          (buffer backlog_max_bytes pending_max_commands offset payload link)
  unfolding buffer disconnect
  buffer-Kept fails offset payload link e =
      if_cases (λ r. r.alive ≡ true → Kept (propagates fails offset payload) link r)
        (ltb backlog_max_bytes (link.backlog_bytes + length payload)) (λ _ a. absurd (cc a))
        (λ _ a. record {
          orderly = rw e tt;
          queued = sym (append_assoc link.sent link.backlog (payload ∷ []));
        })

  write_through-Kept :
      (fails : Bool) (offset : ℕ) (payload : Bytes) (link : ReplicaLink)
      → link.backlog ≡ []
      → (write_through backlog_max_bytes pending_max_commands fails offset payload link).alive
        ≡ true
      → Kept
          (propagates fails offset payload)
          link
          (write_through backlog_max_bytes pending_max_commands fails offset payload link)
  unfolding write_through disconnect
  write_through-Kept fails offset payload link e =
      if_cases (λ r. r.alive ≡ true → Kept (propagates fails offset payload) link r)
        (leb pending_max_commands link.pending) (λ _ a. absurd (cc a))
        (λ _.
          if_cases (λ r. r.alive ≡ true → Kept (propagates fails offset payload) link r) fails
            (λ _ a. absurd (cc a))
            (λ _ a. record {
              orderly = rw e (IsOrderly-nil link.state);
              queued =
                  rw e (append-nil _ ∙ ap (λ t. t ++ payload ∷ []) (sym (append-nil link.sent)));
            }))

  offer_by-Kept :
      (fails : Bool) (offset : ℕ) (payload : Bytes) (link : ReplicaLink) (state : ReplicaState)
      → link.state ≡ state
      → IsOrderly state link.backlog
      → (offer_by backlog_max_bytes pending_max_commands state fails offset payload link).alive
        ≡ true
      → Kept
          (propagates fails offset payload)
          link
          (offer_by backlog_max_bytes pending_max_commands state fails offset payload link)
  unfolding offer_by
  offer_by-Kept fails offset payload link syncing e h = buffer-Kept fails offset payload link e
  offer_by-Kept fails offset payload link live e h =
      write_through-Kept fails offset payload link (orderly_empty link.backlog h)

  offer-Kept :
      (fails : Bool) (offset : ℕ) (payload : Bytes) (link : ReplicaLink)
      → IsOrderly link.state link.backlog
      → (offer backlog_max_bytes pending_max_commands fails offset payload link).alive ≡ true
      → Kept
          (propagates fails offset payload)
          link
          (offer backlog_max_bytes pending_max_commands fails offset payload link)
  unfolding offer
  offer-Kept fails offset payload link h =
      if_cases (λ r. r.alive ≡ true → Kept (propagates fails offset payload) link r) link.alive
        (λ _. offer_by-Kept fails offset payload link link.state refl h)
        (λ down a. absurd (cc (a, down)))

  step-Kept :
      (s : Step) (link : ReplicaLink)
      → IsOrderly link.state link.backlog
      → (step backlog_max_bytes pending_max_commands s link).alive ≡ true
      → Kept s link (step backlog_max_bytes pending_max_commands s link)
  unfolding step
  step-Kept (flushes offset) link h a = flush-Kept offset link link.backlog refl
  step-Kept (drains fails) link h a = drain_one-Kept fails link h a
  step-Kept (propagates fails offset payload) link h a = offer-Kept fails offset payload link h a

  -- What has been disconnected stays so.
  step-down :
      (s : Step) (link : ReplicaLink)
      → link.alive ≡ false
      → (step backlog_max_bytes pending_max_commands s link).alive ≡ false
  unfolding step offer
  step-down (propagates fails offset payload) link h = rw h refl
  step-down (flushes offset) link h = flush_down link.backlog refl
    where
      flush_down : (b : List Bytes) → link.backlog ≡ b → (flush offset link).alive ≡ false
      flush_down [] e = unfold flush in (rw e h)
      flush_down (b ∷ bs) e = unfold flush in (rw e h)
  step-down (drains fails) link h =
      unfold drain_one disconnect in
      (if_cases (λ (r : ReplicaLink). r.alive ≡ false) fails (λ _. refl) (λ _. h))

  pub run-down :
      (ss : List Step) (link : ReplicaLink)
      → link.alive ≡ false
      → (run backlog_max_bytes pending_max_commands ss link).alive ≡ false
  run-down [] link h = h
  run-down (s ∷ ss) link h = run-down ss _ (step-down s link h)

  payloads-cons : (s : Step) (ss : List Step) → payloads (s ∷ ss) ≡ payload_of s ++ payloads ss
  payloads-cons (propagates fails offset payload) ss = refl
  payloads-cons (flushes offset) ss = refl
  payloads-cons (drains fails) ss = refl

  -- While a replica stays connected, what was sent to it and what its backlog holds is what it had at
  -- the start of a run and then the payloads of the run, in order: none is lost, and none is doubled.
  pub run-payloads :
      (ss : List Step) (link : ReplicaLink)
      → IsOrderly link.state link.backlog
      → (run backlog_max_bytes pending_max_commands ss link).alive ≡ true
      → (run backlog_max_bytes pending_max_commands ss link).sent
          ++ (run backlog_max_bytes pending_max_commands ss link).backlog
        ≡ (link.sent ++ link.backlog) ++ payloads ss
  run-payloads [] link h a = sym (append-nil _)
  run-payloads (s ∷ ss) link h a =
      let next : ReplicaLink = step backlog_max_bytes pending_max_commands s link in
      elim (Bool-cases next.alive) [
        | inr down ↦ absurd (cc (a, run-down ss next down))
        | inl up ↦
            let kept : Kept s link next = step-Kept s link h up in
            run-payloads ss next kept.orderly a
            ∙ ap (λ t. t ++ payloads ss) kept.queued
            ∙ append_assoc _ (payload_of s) (payloads ss)
            ∙ ap (λ t. (link.sent ++ link.backlog) ++ t) (sym (payloads-cons s ss))
      ]
