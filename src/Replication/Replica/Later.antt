-- ===== src/Replication/Replica/Later.antt =====
-- replica.py: chunks that come later make no difference to what was read before.
use byo_redis.Prelude.{
  ℕ, ◌≡◌, refl, List, [], ◌∷◌, ◌++◌, Result, ok, raise, ◌>>=◌, Bool-cases, ltb, length, inl, inr,
  false, if◌then◌else◌, take, drop,
}
use byo_redis.Text.{Bytes}
use byo_redis.Text.Decimal.{int}
use byo_redis.Protocol.Object.{Object}
use byo_redis.Protocol.Parser.{
  ProtocolError, RespParser, Parsed, incomplete, done, fail, read_line, feed,
}
use byo_redis.Replication.Replica.{
  ReplicaError, closed_snapshot, no_bulk_header, Read, pick, read_one, ensure, Header, header_of,
  read_header, snapshot_length, starts_bulk, read_snapshot,
}

-- A result that leaves chunks leaves the chunks `more` behind them, when they come too.
abbrev pub Later2 {ℓ} :
    {A : Type ℓ}
    → List Bytes
    → Result ReplicaError (A × List Bytes)
    → Result ReplicaError (A × List Bytes)
    → Type ℓ
Later2 more (raise e) q = Unit
Later2 more (ok (a, cs)) q = q ≡ ok (a, cs ++ more)

abbrev pub Later3 {ℓ κ} :
    {A : Type ℓ} {B : Type κ}
    → List Bytes
    → Result ReplicaError (A × B × List Bytes)
    → Result ReplicaError (A × B × List Bytes)
    → Type (ℓ ⊔ κ)
Later3 more (raise e) q = Unit
Later3 more (ok (a, b, cs)) q = q ≡ ok (a, b, cs ++ more)

module _ (more : List Bytes) where
  pub ensure-enough :
      (n : ℕ) (buf : Bytes) (cs : List Bytes)
      → ltb (length buf) n ≡ false
      → ensure n buf cs ≡ ok (buf, cs)
  unfolding ensure
  ensure-enough n buf [] e = rw e refl
  ensure-enough n buf ([] ∷ cs) e = rw e refl
  ensure-enough n buf ((b ∷ bs) ∷ cs) e = rw e refl

  ensure-Later2 :
      (n : ℕ) (buf : Bytes) (cs : List Bytes)
      → Later2 more (ensure n buf cs) (ensure n buf (cs ++ more))
  unfolding ensure
  ensure-Later2 n buf [] = elim (Bool-cases (ltb (length buf) n)) [
    | inr e ↦ rw e (ensure-enough n buf more e)
    | inl e ↦ rw e tt
  ]
  ensure-Later2 n buf ([] ∷ cs) = elim (Bool-cases (ltb (length buf) n)) [
    | inr e ↦ rw e refl
    | inl e ↦ rw e tt
  ]
  ensure-Later2 n buf ((b ∷ bs) ∷ cs) = elim (Bool-cases (ltb (length buf) n)) [
    | inr e ↦ rw e refl
    | inl e ↦ rw e (ensure-Later2 n (buf ++ b ∷ bs) cs)
  ]

  pub read_header-found :
      (buf : Bytes) (cs : List Bytes) (line rest : Bytes)
      → read_line buf ≡ done line rest
      → read_header buf cs ≡ ok (drop 1 line, rest, cs)
  unfolding read_header
  read_header-found buf [] line rest e = rw e refl
  read_header-found buf ([] ∷ cs) line rest e = rw e refl
  read_header-found buf ((b ∷ bs) ∷ cs) line rest e = rw e refl

  header_of-Later3 :
      (p : Parsed Bytes) (cs : List Bytes) (again again' : Header)
      → Later3 more again again'
      → Later3 more (header_of p again cs) (header_of p again' (cs ++ more))
  header_of-Later3 incomplete cs again again' h = h
  header_of-Later3 (done line rest) cs again again' h = refl
  header_of-Later3 (fail x) cs again again' h = h

  no_chunk :
      (buf : Bytes) (p : Parsed Bytes)
      → read_line buf ≡ p
      → Later3 more (header_of p (raise closed_snapshot) []) (read_header buf more)
  no_chunk buf incomplete e = tt
  no_chunk buf (done line rest) e = read_header-found buf more line rest e
  no_chunk buf (fail x) e = tt

  read_header-Later3 :
      (buf : Bytes) (cs : List Bytes)
      → Later3 more (read_header buf cs) (read_header buf (cs ++ more))
  unfolding read_header
  read_header-Later3 buf [] = no_chunk buf (read_line buf) refl
  read_header-Later3 buf ([] ∷ cs) = header_of-Later3 (read_line buf) ([] ∷ cs) _ _ tt
  read_header-Later3 buf ((b ∷ bs) ∷ cs) =
      header_of-Later3 (read_line buf) ((b ∷ bs) ∷ cs) _ _ (read_header-Later3 (buf ++ b ∷ bs) cs)

  after_header-Later3 :
      (n : Result ReplicaError ℕ) (rest : Bytes) (cs : List Bytes)
      → Later3 more
          (n >>= λ k. ensure k rest cs >>= λ t. ok (take k t.0, drop k t.0, t.1))
          (n >>= λ k. ensure k rest (cs ++ more) >>= λ t. ok (take k t.0, drop k t.0, t.1))
  after_header-Later3 (raise e) rest cs = tt
  after_header-Later3 (ok k) rest cs =
      body (ensure k rest cs) (ensure k rest (cs ++ more)) (ensure-Later2 k rest cs)
    where
      body :
          (r q : Result ReplicaError (Bytes × List Bytes))
          → Later2 more r q
          → Later3 more
              (r >>= λ t. ok (take k t.0, drop k t.0, t.1))
              (q >>= λ t. ok (take k t.0, drop k t.0, t.1))
      body (raise e) q h = tt
      body (ok (got, cs')) q h = rw h refl

  behind_header-Later3 :
      (limit : ℕ) (r q : Header)
      → Later3 more r q
      → Later3 more
          (r >>= λ h. snapshot_length limit h.0 (int h.0) >>= λ n.
            ensure n h.1 h.2 >>= λ t. ok (take n t.0, drop n t.0, t.1))
          (q >>= λ h. snapshot_length limit h.0 (int h.0) >>= λ n.
            ensure n h.1 h.2 >>= λ t. ok (take n t.0, drop n t.0, t.1))
  behind_header-Later3 limit (raise e) q h = tt
  behind_header-Later3 limit (ok (header, rest, cs)) q h =
      rw h (after_header-Later3 (snapshot_length limit header (int header)) rest cs)

  abbrev tail_of : ℕ → Bytes × List Bytes → Header
  tail_of limit r =
      if starts_bulk r.0
      then (read_header r.0 r.1 >>= λ h. snapshot_length limit h.0 (int h.0) >>= λ n.
          ensure n h.1 h.2 >>= λ t. ok (take n t.0, drop n t.0, t.1))
      else raise (no_bulk_header (take 20 r.0))

  behind_first-Later3 :
      (limit : ℕ) (r q : Result ReplicaError (Bytes × List Bytes))
      → Later2 more r q
      → Later3 more (r >>= λ t. tail_of limit t) (q >>= λ t. tail_of limit t)
  behind_first-Later3 limit (raise e) q h = tt
  behind_first-Later3 limit (ok (got, cs)) q h = rw h (elim (Bool-cases (starts_bulk got)) [
    | inl e ↦ rw e (behind_header-Later3 limit (read_header got cs) _ (read_header-Later3 got cs))
    | inr e ↦ rw e tt
  ])

  pub read_snapshot-Later3 :
      (limit : ℕ) (buf : Bytes) (cs : List Bytes)
      → Later3 more (read_snapshot limit buf cs) (read_snapshot limit buf (cs ++ more))
  unfolding read_snapshot
  read_snapshot-Later3 limit buf cs =
      behind_first-Later3 limit (ensure 1 buf cs) _ (ensure-Later2 1 buf cs)

  pick-Later3 :
      (r : Result ProtocolError (List Object × RespParser)) (again again' : RespParser → Read)
      (cs : List Bytes)
      → ((q : RespParser) → Later3 more (again q) (again' q))
      → Later3 more (pick r again cs) (pick r again' (cs ++ more))
  pick-Later3 (raise e) again again' cs h = tt
  pick-Later3 (ok ([], p)) again again' cs h = h p
  pick-Later3 (ok (m ∷ [], p)) again again' cs h = refl
  pick-Later3 (ok (m ∷ n ∷ ms, p)) again again' cs h = tt

  pub read_one-Later3 :
      (p : RespParser) (cs : List Bytes) → Later3 more (read_one p cs) (read_one p (cs ++ more))
  unfolding read_one
  read_one-Later3 p [] = tt
  read_one-Later3 p ([] ∷ cs) = tt
  read_one-Later3 p ((b ∷ bs) ∷ cs) =
      pick-Later3 (feed p (b ∷ bs)) _ _ cs (λ q. read_one-Later3 q cs)
