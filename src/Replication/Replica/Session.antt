-- ===== src/Replication/Replica/Session.antt =====
-- replica.py, `_session` against what byo_redis/replication/master.py sends: the payload of a full
-- resync, and then the commands.
use byo_redis.Prelude.{
  ◌+◌, ◌≤◌, ◌<◌, ◌≡◌, refl, ap, List, [], ◌∷◌, ◌++◌, arith, length, ok, All, length-append,
  append_assoc, append-nil, inl, inr,
}
use byo_redis.Text.{Bytes}
use byo_redis.Protocol.Object.{Object}
use byo_redis.Protocol.Parser.{Limits, incomplete, done, try_parse, feed}
use byo_redis.Protocol.Parser.Chunks.{drain_all-round}
use byo_redis.Protocol.Parser.Prefix.{
  cut, try_parse-prefix, try_parse-shorter, drain_all-incomplete,
}
use byo_redis.Protocol.Parser.Feed.{concat, feed-keep}
use byo_redis.Replication.Replica.{Read, read_one}
use byo_redis.Replication.Replica.Stream.{IsChunk, read_size}

-- A reply that was read off the stream, and what is left.
abbrev pub Got : Read → Object → Limits → Bytes → Type 0
Got r v l tail =
    (left : Bytes) × (cs : List Bytes) × (r ≡ ok (v, record { buf = left; limits = l }, cs))
    × (left ++ concat cs ≡ tail)
    × All IsChunk cs

-- `line` is a message, and `tail` begins with none that is whole.
module _ (l : Limits) (line tail : Bytes) (v : Object)
    (reads : (rest : Bytes) → try_parse l l.max_array_depth (line ++ rest) ≡ done v rest)
    (waits : try_parse l l.max_array_depth tail ≡ incomplete)
    (room : length line + read_size ≤ l.max_buffer_bytes) where
  feed-whole :
      (buf chunk u t : Bytes)
      → length buf < length line
      → IsChunk chunk
      → buf ++ chunk ≡ line ++ u
      → u ++ t ≡ tail
      → feed (record { buf = buf; limits = l }) chunk ≡ ok (v ∷ [], record { buf = u; limits = l })
  feed-whole buf chunk u t short small e left =
      rw
        (
          feed-keep (record { buf = buf; limits = l }) chunk (omega (arith, short, small.1, room)),
          e,
          drain_all-round l (line ++ u),
          reads u,
          drain_all-incomplete l u (try_parse-shorter l u t (rw left waits)),
        )
        refl

  feed-part :
      (buf chunk u : Bytes)
      → length buf < length line
      → IsChunk chunk
      → line ≡ (buf ++ chunk) ++ u
      → 0 < length u
      → feed (record { buf = buf; limits = l }) chunk
        ≡ ok ([], record { buf = buf ++ chunk; limits = l })
  feed-part buf chunk u short small e h =
      rw
        (
          feed-keep (record { buf = buf; limits = l }) chunk (omega (arith, short, small.1, room)),
          drain_all-incomplete l (buf ++ chunk)
              (try_parse-prefix l v (buf ++ chunk) u (rw (← e, ← append-nil line) (reads [])) h),
        )
        refl

  pub read_one-Got :
      (buf : Bytes) (cs : List Bytes)
      → length buf < length line
      → buf ++ concat cs ≡ line ++ tail
      → All IsChunk cs
      → Got (read_one (record { buf = buf; limits = l }) cs) v l tail
  unfolding read_one
  read_one-Got buf [] short e chunks =
      absurd (omega (arith, short, ap length e, length-append buf [], length-append line tail))
  read_one-Got buf ([] ∷ cs) short e chunks = absurd (omega (arith, chunks.0.0))
  read_one-Got buf ((b ∷ bs) ∷ cs) short e chunks =
      elim (cut (buf ++ b ∷ bs) (concat cs) line tail (rw append_assoc e)) [
        | inl (u, p, q) ↦
            rw (feed-whole buf (b ∷ bs) u (concat cs) short chunks.0 p q) (u, cs, refl, q, chunks.1)
        | inr (u, p, q, h) ↦ rw (feed-part buf (b ∷ bs) u short chunks.0 p h) (
            read_one-Got (buf ++ b ∷ bs) cs
              (omega (arith, h, ap length p, length-append (buf ++ b ∷ bs) u)) (rw append_assoc e)
              chunks.1)
      ]
