-- ===== src/Protocol/Parser/Chunks.antt =====
-- The loop of `feed` on a buffer that grows, and what it leaves in the buffer.
use byo_redis.Prelude.{
  ℕ, zero, suc, ◌-◌, ◌≤◌, ◌<◌, ◌≡◌, refl, sym, ap, List, [], ◌∷◌, ◌++◌, arith, length, Result, ok,
  raise, result_map,
}
use byo_redis.Text.{Bytes}
use byo_redis.Protocol.Object.{Object}
use byo_redis.Protocol.Parser.{
  ProtocolError, Limits, Parsed, incomplete, done, fail, parse_value, try_parse, round, drain,
  drain_all,
}
use byo_redis.Protocol.Parser.Stable.{Stable, try_parse-Stable}

abbrev pub Drained : Type 0
Drained = Result ProtocolError (List Object × Bytes)

-- What follows the messages `ms`.
abbrev pub behind {ℓ} : {S : Type ℓ} → List Object → List Object × S → List Object × S
behind ms r = (ms ++ r.0, r.1)

module _ (l : Limits) where
  pub try_parse-nil : (levels : ℕ) → try_parse l levels [] ≡ incomplete
  unfolding try_parse parse_value
  try_parse-nil zero = refl
  try_parse-nil (suc levels) = refl

  -- A value takes at least a byte off.
  try_parse-shrinks :
      (levels : ℕ) (s : Bytes) {v : Object} {rest : Bytes}
      → try_parse l levels s ≡ done v rest
      → length rest < length s
  try_parse-shrinks levels [] e = cc (try_parse-nil levels)
  try_parse-shrinks levels (c ∷ s) {v} {rest} e =
      let h = try_parse-Stable [] l levels (c ∷ s) in
      let shorter : Stable (suc (length s) - 1) [] (done v rest)
          (try_parse l levels ((c ∷ s) ++ [])) =
        (rw e at h) in
      omega (arith, shorter.0)

  round-drain :
      (f g : ℕ) (s : Bytes) (p : Parsed Object)
      → try_parse l l.max_array_depth s ≡ p
      → length s < suc f
      → length s < suc g
      → ((rest : Bytes) → length rest < f → length rest < g → drain l f rest ≡ drain l g rest)
      → round s (drain l f) p ≡ round s (drain l g) p
  round-drain f g s incomplete e h k ih = refl
  round-drain f g s (fail x) e h k ih = refl
  round-drain f g s (done v rest) e h k ih =
      let shorter : length rest < length s = try_parse-shrinks l.max_array_depth s e in
      ap (result_map _) (ih rest (omega arith) (omega arith))

  -- With more rounds than bytes, the number of rounds does not matter.
  drain-rounds : (f g : ℕ) (s : Bytes) → length s < f → length s < g → drain l f s ≡ drain l g s
  unfolding drain
  drain-rounds zero g s h k = absurd (omega arith)
  drain-rounds (suc f) zero s h k = absurd (omega arith)
  drain-rounds (suc f) (suc g) s h k =
      round-drain f g s (try_parse l l.max_array_depth s) refl h k (drain-rounds f g)

  -- The loop, with the rounds out of sight.
  pub drain_all-round :
      (s : Bytes) → drain_all l s ≡ round s (drain_all l) (try_parse l l.max_array_depth s)
  unfolding drain_all drain
  drain_all-round s = go (try_parse l l.max_array_depth s) refl
    where
      go :
          (p : Parsed Object)
          → try_parse l l.max_array_depth s ≡ p
          → round s (drain l (length s)) p ≡ round s (λ r. drain l (suc (length r)) r) p
      go incomplete e = refl
      go (fail x) e = refl
      go (done v rest) e =
          let shorter : length rest < length s = try_parse-shrinks l.max_array_depth s e in
          ap (result_map _) (drain-rounds (length s) (suc (length rest)) rest shorter (omega arith))

result_map-id {ℓ κ} :
    {E : Type ℓ} {A : Type κ} (r : Result E (A)) (f : A → A)
    → ((a : A) → f a ≡ a)
    → result_map f r ≡ r
result_map-id (ok a) f h = ap ok (h a)
result_map-id (raise e) f h = refl

-- Go on with more bytes behind what a loop has left.
abbrev pub resume {ℓ κ} :
    {S : Type ℓ} {T : Type κ}
    → (S → Result ProtocolError (List Object × T))
    → Result ProtocolError (List Object × S)
    → Result ProtocolError (List Object × T)
resume next (ok r) = result_map (behind r.0) (next r.1)
resume next (raise e) = raise e

-- A value in front, then the loop on more bytes.
resume-cons :
    (v : Object) (next : Bytes → Drained) (r : Drained)
    → result_map (λ t. (v ∷ t.0, t.1)) (resume next r)
      ≡ resume next (result_map (λ t. (v ∷ t.0, t.1)) r)
resume-cons v next (raise e) = refl
resume-cons v next (ok t) = go (next t.1)
  where
    go :
        (q : Drained)
        → result_map (λ t. (v ∷ t.0, t.1)) (result_map (behind t.0) q)
          ≡ result_map (behind (v ∷ t.0)) q
    go (ok a) = refl
    go (raise e) = refl

module _ (l : Limits) (more : Bytes) where
  abbrev pub drain_more : Bytes → Drained
  drain_more left = drain_all l (left ++ more)

  round-append :
      (s : Bytes) (again : Bytes → Drained) (p q : Parsed Object)
      → try_parse l l.max_array_depth s ≡ p
      → try_parse l l.max_array_depth (s ++ more) ≡ q
      → Stable (length s - 1) more p q
      → ((rest : Bytes) → length rest < length s → drain_more rest ≡ resume drain_more (again rest))
      → drain_more s ≡ resume drain_more (round s again p)
  round-append s again incomplete q e e' st ih = sym (result_map-id (drain_more s) _ (λ a. refl))
  round-append s again (fail x) q e e' st ih = rw (drain_all-round l (s ++ more), e', st)
  round-append s again (done v rest) q e e' st ih =
      rw (drain_all-round l (s ++ more), e', st.1)
        (rw (ih rest (try_parse-shrinks l l.max_array_depth s e))
          (resume-cons v drain_more (again rest)))

  drain-append :
      (rounds : ℕ) (s : Bytes)
      → length s < rounds
      → drain_more s ≡ resume drain_more (drain l rounds s)
  unfolding drain
  drain-append zero s h = absurd (omega arith)
  drain-append (suc rounds) s h =
      round-append s (drain l rounds) (try_parse l l.max_array_depth s) _ refl refl
        (try_parse-Stable more l l.max_array_depth s)
        (λ rest k. drain-append rounds rest (omega arith))

  -- The loop on a buffer and more bytes, from the loop on the buffer.
  pub drain_all-append : (s : Bytes) → drain_more s ≡ resume drain_more (drain_all l s)
  unfolding drain_all
  drain_all-append s = drain-append (suc (length s)) s (omega arith)

-- What the loop leaves is no longer than the buffer, and holds no whole value.
abbrev pub Settled : Limits → ℕ → Drained → Type 0
Settled l n (ok r) = (length r.1 ≤ n) × (try_parse l l.max_array_depth r.1 ≡ incomplete)
Settled l n (raise e) = Unit

module _ (l : Limits) where
  cons-Settled :
      (k n : ℕ) (v : Object) (r : Drained)
      → k ≤ n
      → Settled l k r
      → Settled l n (result_map (λ t. (v ∷ t.0, t.1)) r)
  cons-Settled k n v (ok t) h st = (omega arith, st.1)
  cons-Settled k n v (raise e) h st = tt

  round-Settled :
      (s : Bytes) (again : Bytes → Drained) (p : Parsed Object)
      → try_parse l l.max_array_depth s ≡ p
      → ((rest : Bytes) → length rest < length s → Settled l (length rest) (again rest))
      → Settled l (length s) (round s again p)
  round-Settled s again incomplete e ih = (omega arith, e)
  round-Settled s again (fail x) e ih = tt
  round-Settled s again (done v rest) e ih =
      let shorter : length rest < length s = try_parse-shrinks l l.max_array_depth s e in
      cons-Settled _ _ v (again rest) (omega arith) (ih rest shorter)

  drain-Settled :
      (rounds : ℕ) (s : Bytes) → length s < rounds → Settled l (length s) (drain l rounds s)
  unfolding drain
  drain-Settled zero s h = absurd (omega arith)
  drain-Settled (suc rounds) s h =
      round-Settled s (drain l rounds) _ refl (λ rest k. drain-Settled rounds rest (omega arith))

  pub drain_all-Settled : (s : Bytes) → Settled l (length s) (drain_all l s)
  unfolding drain_all
  drain_all-Settled s = drain-Settled (suc (length s)) s (omega arith)
