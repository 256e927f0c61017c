-- ===== src/Replication/Replica/Snapshot.antt =====
-- replica.py, `_read_rdb_bulk`: the snapshot is read off the stream, however the stream is cut.
use byo_redis.Prelude.{
  ℕ, ◌≤◌, ◌<◌, ◌≡◌, ◌≢◌, refl, sym, ap, ◌∙◌, List, [], ◌∷◌, ◌++◌, arith, length, Result, ok, All,
  length-append, append_assoc, take, drop, take_append, drop_append, take-append_of_le,
  drop-append_of_le, Bool-cases, ltb, inl, inr, true, some, if◌then◌else◌, pos,
}
use byo_redis.Text.{Bytes}
use byo_redis.Text.Decimal.{decimal_ℕ, decimal_ℕ-All, int-decimal_ℕ, FitsInt, IsDecimal}
use byo_redis.Protocol.Encoder.{crlf, cr, lf}
use byo_redis.Protocol.Parser.{read_line}
use byo_redis.Protocol.Parser.Lines.{read_line-append}
use byo_redis.Protocol.Parser.Prefix.{cut, read_line-prefix}
use byo_redis.Protocol.Parser.Feed.{concat}
use byo_redis.Replication.Replica.{
  ReplicaError, ensure, Header, header_of, read_header, snapshot_length, starts_bulk, read_snapshot,
}
use byo_redis.Replication.Replica.Stream.{IsChunk}

-- Of the stream `total` something was taken: what is left is in the buffer and the chunks to come.
abbrev pub Took {ℓ} :
    {A : Type ℓ} → Result ReplicaError (A × Bytes × List Bytes) → A → Bytes → Type ℓ
Took r a rest =
    (left : Bytes) × (cs : List Bytes) × (r ≡ ok (a, left, cs))
    × (left ++ concat cs ≡ rest)
    × All IsChunk cs

abbrev Ensured : Result ReplicaError (Bytes × List Bytes) → ℕ → Bytes → Type 0
Ensured r n total =
    (got : Bytes) × (cs : List Bytes) × (r ≡ ok (got, cs))
    × (n ≤ length got)
    × (got ++ concat cs ≡ total)
    × All IsChunk cs

here :
    (n : ℕ) (buf : Bytes) (cs : List Bytes) (more : Result ReplicaError (Bytes × List Bytes))
    (total : Bytes)
    → buf ++ concat cs ≡ total
    → All IsChunk cs
    → (ltb (length buf) n ≡ true → Ensured more n total)
    → Ensured (if ltb (length buf) n then more else ok (buf, cs)) n total
here n buf cs more total e chunks later = elim (Bool-cases (ltb (length buf) n)) [
  | inl short ↦ rw short (later short)
  | inr long ↦ rw long (buf, cs, refl, ground arith, e, chunks)
]

ensure-Ensured :
    (n : ℕ) (buf : Bytes) (cs : List Bytes) (total : Bytes)
    → n ≤ length total
    → buf ++ concat cs ≡ total
    → All IsChunk cs
    → Ensured (ensure n buf cs) n total
unfolding ensure
ensure-Ensured n buf [] total h e chunks =
    here n buf [] _ total e chunks
      (λ short. absurd (ground (arith, ap length e, length-append buf [])))
ensure-Ensured n buf ([] ∷ cs) total h e chunks = absurd (omega (arith, chunks.0.0))
ensure-Ensured n buf ((b ∷ bs) ∷ cs) total h e chunks =
    here n buf ((b ∷ bs) ∷ cs) _ total e chunks (λ _.
      ensure-Ensured n (buf ++ b ∷ bs) cs total h (rw (append_assoc buf (b ∷ bs) (concat cs)) e)
        chunks.1)

module _ (line : Bytes) (clean : All (λ c. c ≢ cr) line) where
  -- A look for the end of the line: it is there, or there is more to come.
  header_of-Took :
      (buf : Bytes) (cs : List Bytes) (again : Header) (rest : Bytes)
      → buf ++ concat cs ≡ (line ++ cr ∷ lf ∷ []) ++ rest
      → All IsChunk cs
      → (0 < length (concat cs) → Took again (drop 1 line) rest)
      → Took (header_of (read_line buf) again cs) (drop 1 line) rest
  header_of-Took buf cs again rest e chunks later =
      elim (cut buf (concat cs) (line ++ cr ∷ lf ∷ []) rest e) [
        | inl (u, here', there) ↦
            rw (here', append_assoc line (cr ∷ lf ∷ []) u, read_line-append line u clean)
              (u, cs, refl, there, chunks)
        | inr (u, here', there, h) ↦
            rw (read_line-prefix line buf u (rw (← here') (read_line-append line [] clean)) h)
              (later (rw there (omega (arith, length-append u rest))))
      ]

  read_header-Took :
      (buf : Bytes) (cs : List Bytes) (rest : Bytes)
      → buf ++ concat cs ≡ (line ++ cr ∷ lf ∷ []) ++ rest
      → All IsChunk cs
      → Took (read_header buf cs) (drop 1 line) rest
  unfolding read_header
  read_header-Took buf [] rest e chunks =
      header_of-Took buf [] _ rest e chunks (λ h. absurd (omega (arith, h)))
  read_header-Took buf ([] ∷ cs) rest e chunks = absurd (omega (arith, chunks.0.0))
  read_header-Took buf ((b ∷ bs) ∷ cs) rest e chunks =
      header_of-Took buf ((b ∷ bs) ∷ cs) _ rest e chunks (λ _.
        read_header-Took (buf ++ b ∷ bs) cs rest (rw (append_assoc buf (b ∷ bs) (concat cs)) e)
          chunks.1)

pub clean-decimal : (ds : Bytes) → All IsDecimal ds → All (λ c. c ≢ cr) ds
clean-decimal [] h = tt
clean-decimal (d ∷ ds) h = ((λ e. omega (arith, h.0.0, e)), clean-decimal ds h.1)

-- What the master sends of a snapshot.
abbrev pub bulk_of_snapshot : Bytes → Bytes
bulk_of_snapshot rdb = b'$' ∷ (decimal_ℕ (length rdb) ++ crlf ++ rdb)

-- The body, once so many bytes are there.
body-Took :
    (rdb rest got : Bytes) (cs : List Bytes)
    → length rdb ≤ length got
    → got ++ concat cs ≡ rdb ++ rest
    → All IsChunk cs
    → Took (ok (take (length rdb) got, drop (length rdb) got, cs)) rdb rest
body-Took rdb rest got cs h e chunks =
    let body : take (length rdb) got ≡ rdb =
      sym (take-append_of_le (length rdb) got (concat cs) h)
      ∙ ap (take (length rdb)) e
      ∙ take_append rdb rest in
    let left : drop (length rdb) got ++ concat cs ≡ rest =
      sym (drop-append_of_le (length rdb) got (concat cs) h)
      ∙ ap (drop (length rdb)) e
      ∙ drop_append rdb rest in
    (drop (length rdb) got, cs, ap (λ b. ok (b, drop (length rdb) got, cs)) body, left, chunks)

module _ (limit : ℕ) (rdb : Bytes) (fits : FitsInt (length rdb)) (small : length rdb ≤ limit) where
  pub snapshot_length-ok :
      (header : Bytes) → snapshot_length limit header (some (pos (length rdb))) ≡ ok (length rdb)
  unfolding snapshot_length
  snapshot_length-ok header = ground arith

  starts_bulk-eq :
      (got t rest : Bytes) → got ++ t ≡ b'$' ∷ rest → 1 ≤ length got → starts_bulk got ≡ true
  starts_bulk-eq [] t rest e h = absurd (omega (arith, h))
  starts_bulk-eq (b ∷ got) t rest e h = let same : b ≡ b'$' = cc (e) in rw same refl

  pub read_snapshot-Took :
      (buf : Bytes) (cs : List Bytes) (rest : Bytes)
      → buf ++ concat cs ≡ bulk_of_snapshot rdb ++ rest
      → All IsChunk cs
      → Took (read_snapshot limit buf cs) rdb rest
  unfolding read_snapshot
  read_snapshot-Took buf cs rest e chunks =
      let (got, cs1, read1, long1, e1, chunks1) =
        ensure-Ensured 1 buf cs (bulk_of_snapshot rdb ++ rest) (omega arith) e chunks in
      let (left, cs2, read2, e2, chunks2) =
        read_header-Took (b'$' ∷ decimal_ℕ (length rdb))
          ((λ q. omega (arith, q)), clean-decimal _ (decimal_ℕ-All (length rdb))) got cs1
          (rdb ++ rest)
          (e1 ∙ ap (◌∷◌ b'$') (append_assoc (decimal_ℕ (length rdb) ++ crlf) rdb rest)) chunks1 in
      let (body, cs3, read3, long3, e3, chunks3) =
        ensure-Ensured (length rdb) left cs2 (rdb ++ rest) (omega (arith, length-append rdb rest))
          e2 chunks2 in
      rw
        (
          read1,
          starts_bulk-eq got (concat cs1) _ e1 long1,
          read2,
          int-decimal_ℕ (length rdb) fits,
          snapshot_length-ok,
          read3,
        )
        (body-Took rdb rest body cs3 long3 e3 chunks3)
