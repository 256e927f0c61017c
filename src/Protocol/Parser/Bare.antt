-- ===== src/Protocol/Parser/Bare.antt =====
-- The parser on a bulk string that has no CR LF behind it, as a snapshot in the replication stream.
use byo_redis.Prelude.{
  ℕ, zero, suc, ◌≤◌, ◌<◌, ◌≡◌, ◌≢◌, refl, ◌∙◌, ◌∷◌, ◌++◌, arith, length, length-append,
  append_assoc, drop_append,
}
use byo_redis.Text.{Bytes}
use byo_redis.Text.Decimal.{decimal_ℕ, FitsInt, int-decimal_ℕ}
use byo_redis.Protocol.Encoder.{crlf, cr}
use byo_redis.Protocol.Parser.{
  missing_trailer, bulk_exceeds, Limits, incomplete, fail, try_parse, parse_value, parse_bulk,
  bulk_of, bulk_of_length, bulk_body,
}
use byo_redis.Protocol.Parser.Lines.{read_line-decimal_ℕ}

module _ (l : Limits) where
  bare_body : (n : ℕ) (b : Bytes) → length b ≡ n → n ≤ l.max_bulk_len → bulk_body l n b ≡ incomplete
  unfolding bulk_body
  bare_body n b e small = ground arith

  untrailed_body :
      (b : Bytes) (c d : ℕ) (rest : Bytes)
      → length b ≤ l.max_bulk_len
      → c ≢ cr
      → bulk_body l (length b) (b ++ c ∷ d ∷ rest) ≡ fail missing_trailer
  unfolding bulk_body
  untrailed_body b c d rest small other =
      rw drop_append (ground (arith, length-append b (c ∷ d ∷ rest)))

  oversize_body :
      (n : ℕ) (rest : Bytes) → l.max_bulk_len < n → bulk_body l n rest ≡ fail (bulk_exceeds n)
  unfolding bulk_body
  oversize_body n rest large = ground arith

  bulk_value :
      (levels n : ℕ) (rest : Bytes)
      → FitsInt n
      → try_parse l levels (b'$' ∷ (decimal_ℕ n ++ crlf ++ rest)) ≡ bulk_body l n rest
  unfolding try_parse parse_value parse_bulk bulk_of bulk_of_length
  bulk_value zero n rest fits =
      rw (append_assoc (decimal_ℕ n) crlf rest, read_line-decimal_ℕ n rest, int-decimal_ℕ n fits)
        refl
  bulk_value (suc levels) n rest fits =
      rw (append_assoc (decimal_ℕ n) crlf rest, read_line-decimal_ℕ n rest, int-decimal_ℕ n fits)
        refl

  -- A bulk string without its trailer is incomplete.
  pub try_parse-bare :
      (levels : ℕ) (b : Bytes)
      → FitsInt (length b)
      → length b ≤ l.max_bulk_len
      → try_parse l levels (b'$' ∷ (decimal_ℕ (length b) ++ crlf ++ b)) ≡ incomplete
  try_parse-bare levels b fits small =
      bulk_value levels (length b) b fits ∙ bare_body (length b) b refl small

  -- With something else behind it, it is refused.
  pub try_parse-untrailed :
      (levels : ℕ) (b : Bytes) (c d : ℕ) (rest : Bytes)
      → FitsInt (length b)
      → length b ≤ l.max_bulk_len
      → c ≢ cr
      → try_parse l levels (b'$' ∷ (decimal_ℕ (length b) ++ crlf ++ (b ++ c ∷ d ∷ rest)))
        ≡ fail missing_trailer
  try_parse-untrailed levels b c d rest fits small other =
      bulk_value levels (length b) (b ++ c ∷ d ∷ rest) fits ∙ untrailed_body b c d rest small other

  -- So is one that is longer than the limit, as soon as its length has come.
  pub try_parse-oversize :
      (levels n : ℕ) (rest : Bytes)
      → FitsInt n
      → l.max_bulk_len < n
      → try_parse l levels (b'$' ∷ (decimal_ℕ n ++ crlf ++ rest)) ≡ fail (bulk_exceeds n)
  try_parse-oversize levels n rest fits large =
      bulk_value levels n rest fits ∙ oversize_body n rest large
