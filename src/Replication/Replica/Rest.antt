-- ===== src/Replication/Replica/Rest.antt =====
-- replica.py: the chunks that a read leaves are the last of those it was given.
use byo_redis.Prelude.{
  ℕ, ◌+◌, ◌≤◌, ◌≡◌, refl, sym, ap, ◌∙◌, ◌⊎◌, inl, inr, List, [], ◌∷◌, ◌++◌, arith, Result, ok,
  raise, ◌>>=◌, if_cases, ltb, length, length-append, append_assoc, if◌then◌else◌, take, drop,
}
use byo_redis.Text.{Bytes}
use byo_redis.Text.Decimal.{int}
use byo_redis.Protocol.Parser.{Parsed, incomplete, done, fail, read_line}
use byo_redis.Protocol.Parser.Feed.{concat}
use byo_redis.Replication.Replica.{
  ReplicaError, closed_snapshot, no_bulk_header, ensure, Header, header_of, read_header,
  snapshot_length, starts_bulk, read_snapshot,
}

abbrev pub IsTail : List Bytes → List Bytes → Type 0
IsTail cs cs' = (used : List Bytes) × (cs ≡ used ++ cs')

abbrev Leaves2 : List Bytes → Result ReplicaError (Bytes × List Bytes) → Type 0
Leaves2 cs (raise e) = Unit
Leaves2 cs (ok (a, cs')) = IsTail cs cs'

abbrev pub Leaves3 : List Bytes → Header → Type 0
Leaves3 cs (raise e) = Unit
Leaves3 cs (ok (a, b, cs')) = IsTail cs cs'

IsTail-trans : (as' bs cs : List Bytes) → IsTail as' bs → IsTail bs cs → IsTail as' cs
IsTail-trans as' bs cs (u, e) (v, k) = (u ++ v, e ∙ ap (λ x. u ++ x) k ∙ sym (append_assoc u v cs))

Leaves2-cons :
    (c : Bytes) (cs : List Bytes) (r : Result ReplicaError (Bytes × List Bytes))
    → Leaves2 cs r
    → Leaves2 (c ∷ cs) r
Leaves2-cons c cs (raise e) h = tt
Leaves2-cons c cs (ok (a, cs')) (u, e) = (c ∷ u, ap (◌∷◌ c) e)

Leaves3-cons : (c : Bytes) (cs : List Bytes) (r : Header) → Leaves3 cs r → Leaves3 (c ∷ cs) r
Leaves3-cons c cs (raise e) h = tt
Leaves3-cons c cs (ok (a, b, cs')) (u, e) = (c ∷ u, ap (◌∷◌ c) e)

ensure-Leaves2 : (n : ℕ) (buf : Bytes) (cs : List Bytes) → Leaves2 cs (ensure n buf cs)
unfolding ensure
ensure-Leaves2 n buf [] =
    if_cases (Leaves2 []) (ltb (length buf) n) {x = raise closed_snapshot} {y = ok (buf, [])}
      (λ _. tt) (λ _. ([], refl))
ensure-Leaves2 n buf ([] ∷ cs) =
    if_cases (Leaves2 ([] ∷ cs)) (ltb (length buf) n) {x = raise closed_snapshot}
      {y = ok (buf, [] ∷ cs)} (λ _. tt) (λ _. ([], refl))
ensure-Leaves2 n buf ((b ∷ bs) ∷ cs) =
    if_cases (Leaves2 ((b ∷ bs) ∷ cs)) (ltb (length buf) n) {x = ensure n (buf ++ b ∷ bs) cs}
      {y = ok (buf, (b ∷ bs) ∷ cs)}
      (λ _. Leaves2-cons (b ∷ bs) cs _ (ensure-Leaves2 n (buf ++ b ∷ bs) cs)) (λ _. ([], refl))

header_of-Leaves3 :
    (p : Parsed Bytes) (again : Header) (cs : List Bytes)
    → Leaves3 cs again
    → Leaves3 cs (header_of p again cs)
header_of-Leaves3 incomplete again cs h = h
header_of-Leaves3 (done line rest) again cs h = ([], refl)
header_of-Leaves3 (fail x) again cs h = h

read_header-Leaves3 : (buf : Bytes) (cs : List Bytes) → Leaves3 cs (read_header buf cs)
unfolding read_header
read_header-Leaves3 buf [] = header_of-Leaves3 (read_line buf) _ [] tt
read_header-Leaves3 buf ([] ∷ cs) = header_of-Leaves3 (read_line buf) _ ([] ∷ cs) tt
read_header-Leaves3 buf ((b ∷ bs) ∷ cs) =
    header_of-Leaves3 (read_line buf) _ ((b ∷ bs) ∷ cs)
      (Leaves3-cons (b ∷ bs) cs _ (read_header-Leaves3 (buf ++ b ∷ bs) cs))

body-Leaves3 :
    (n : ℕ) (cs mid : List Bytes) (r : Result ReplicaError (Bytes × List Bytes))
    → IsTail cs mid
    → Leaves2 mid r
    → Leaves3 cs (r >>= λ t. ok (take n t.0, drop n t.0, t.1))
body-Leaves3 n cs mid (raise e) h k = tt
body-Leaves3 n cs mid (ok (got, cs')) h k = IsTail-trans cs mid cs' h k

after_header-Leaves3 :
    (cs mid : List Bytes) (rest : Bytes) (n : Result ReplicaError ℕ)
    → IsTail cs mid
    → Leaves3 cs (n >>= λ k. ensure k rest mid >>= λ t. ok (take k t.0, drop k t.0, t.1))
after_header-Leaves3 cs mid rest (raise e) h = tt
after_header-Leaves3 cs mid rest (ok k) h =
    body-Leaves3 k cs mid (ensure k rest mid) h (ensure-Leaves2 k rest mid)

behind_header-Leaves3 :
    (limit : ℕ) (cs mid : List Bytes) (r : Header)
    → IsTail cs mid
    → Leaves3 mid r
    → Leaves3 cs (
        r >>= λ h. snapshot_length limit h.0 (int h.0) >>= λ n.
        ensure n h.1 h.2 >>= λ t. ok (take n t.0, drop n t.0, t.1))
behind_header-Leaves3 limit cs mid (raise e) h k = tt
behind_header-Leaves3 limit cs mid (ok (header, rest, cs')) h k =
    after_header-Leaves3 cs cs' rest (snapshot_length limit header (int header))
      (IsTail-trans cs mid cs' h k)

behind_first-Leaves3 :
    (limit : ℕ) (cs : List Bytes) (r : Result ReplicaError (Bytes × List Bytes))
    → Leaves2 cs r
    → Leaves3 cs (
        r >>= λ r.
        if starts_bulk r.0
        then (read_header r.0 r.1 >>= λ h. snapshot_length limit h.0 (int h.0) >>= λ n.
            ensure n h.1 h.2 >>= λ t. ok (take n t.0, drop n t.0, t.1))
        else raise (no_bulk_header (take 20 r.0)))
behind_first-Leaves3 limit cs (raise e) h = tt
behind_first-Leaves3 limit cs (ok (got, mid)) h =
    if_cases (Leaves3 cs) (starts_bulk got)
      (λ _.
        behind_header-Leaves3 limit cs mid (read_header got mid) h (read_header-Leaves3 got mid))
      (λ _. tt)

pub read_snapshot-Leaves3 :
    (limit : ℕ) (buf : Bytes) (cs : List Bytes) → Leaves3 cs (read_snapshot limit buf cs)
unfolding read_snapshot
read_snapshot-Leaves3 limit buf cs =
    behind_first-Leaves3 limit cs (ensure 1 buf cs) (ensure-Leaves2 1 buf cs)

pub length-concat_last :
    (before : List Bytes) (chunk : Bytes)
    → length (concat (before ++ chunk ∷ [])) ≡ length (concat before) + length chunk
length-concat_last [] chunk = omega (arith, length-append chunk [])
length-concat_last (b ∷ before) chunk = omega (
  arith,
  length-concat_last before chunk,
  length-append b (concat before),
  length-append b (concat (before ++ chunk ∷ [])),
)

-- A tail that is not empty ends in the last chunk.
pub last_chunk :
    (used before : List Bytes) (chunk : Bytes) (cs : List Bytes)
    → before ++ chunk ∷ [] ≡ used ++ cs
    → (cs ≡ []) ⊎ (length chunk ≤ length (concat cs))
last_chunk [] before chunk cs e =
    inr (omega (arith, length-concat_last before chunk, ap (λ x. length (concat x)) e))
last_chunk (u ∷ us) [] chunk [] e = inl refl
last_chunk (u ∷ us) [] chunk (c ∷ cs) e =
    absurd (omega (arith, ap length e, length-append us (c ∷ cs)))
last_chunk (u ∷ us) (b ∷ before) chunk cs e = last_chunk us before chunk cs (ap (drop 1) e)
