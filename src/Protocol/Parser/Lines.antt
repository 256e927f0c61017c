-- ===== src/Protocol/Parser/Lines.antt =====
-- What the encoder of each kind of line writes, the parser reads back.
use byo_redis.Prelude.{
  ℕ, zero, suc, ◌≤◌, ◌≡◌, ◌≢◌, refl, ap, ◌∙◌, [], ◌∷◌, ◌++◌, arith, length, length-append,
  append_assoc, All, take_append, drop_append, ℤ,
}
use byo_redis.Text.{Bytes}
use byo_redis.Text.Decimal.{
  decimal, decimal_ℕ, int, int-decimal, int-decimal_ℕ, FitsInt, magnitude, IsDecimal, decimal-All,
  decimal_ℕ-All,
}
use byo_redis.Text.Utf8.{decode}
use byo_redis.Protocol.Object.{Object, null, integer, bulk, text, error_msg}
use byo_redis.Protocol.Encoder.{cr, lf, crlf, encode_null_bulk, encode_bulk}
use byo_redis.Protocol.Parser.{
  Limits, Parsed, done, and_then, read_line, parse_line_value, parse_error, integer_of,
  parse_integer, bulk_body, bulk_of_length, bulk_of, parse_bulk, array_body, array_of_length,
  array_of, parse_array, try_parse,
}

read_line-cons :
    (c d : ℕ) (s : Bytes)
    → c ≢ cr
    → read_line (c ∷ d ∷ s) ≡ and_then (read_line (d ∷ s)) (λ line rest. done (c ∷ line) rest)
unfolding read_line
read_line-cons c d s h = ground arith

-- A line without CR is read up to the CR LF behind it.
pub read_line-append :
    (line rest : Bytes)
    → All (λ c. c ≢ cr) line
    → read_line (line ++ cr ∷ lf ∷ rest) ≡ done line rest
read_line-append [] rest h = unfold read_line in refl
read_line-append (c ∷ []) rest h =
    rw (read_line-cons c cr (lf ∷ rest) h.0) (unfold read_line in refl)
read_line-append (c ∷ d ∷ line) rest h =
    rw (read_line-cons c d (line ++ cr ∷ lf ∷ rest) h.0, read_line-append (d ∷ line) rest h.1)

All-ne_cr : (s : Bytes) → All IsDecimal s → All (λ c. c ≢ cr) s
All-ne_cr [] h = tt
All-ne_cr (c ∷ s) h = (omega arith, All-ne_cr s h.1)

-- A header line that holds a length.
pub read_line-decimal_ℕ :
    (n : ℕ) (rest : Bytes) → read_line (decimal_ℕ n ++ cr ∷ lf ∷ rest) ≡ done (decimal_ℕ n) rest
read_line-decimal_ℕ n rest = read_line-append _ rest (All-ne_cr _ (decimal_ℕ-All n))

module _ (l : Limits) where
  try_parse-line : (levels : ℕ) (s : Bytes) → try_parse l levels (b'+' ∷ s) ≡ parse_line_value s
  unfolding try_parse
  try_parse-line zero s = refl
  try_parse-line (suc levels) s = refl

  try_parse-error : (levels : ℕ) (s : Bytes) → try_parse l levels (b'-' ∷ s) ≡ parse_error s
  unfolding try_parse
  try_parse-error zero s = refl
  try_parse-error (suc levels) s = refl

  try_parse-integer : (levels : ℕ) (s : Bytes) → try_parse l levels (b':' ∷ s) ≡ parse_integer s
  unfolding try_parse
  try_parse-integer zero s = refl
  try_parse-integer (suc levels) s = refl

  try_parse-bulk : (levels : ℕ) (s : Bytes) → try_parse l levels (b'$' ∷ s) ≡ parse_bulk l s
  unfolding try_parse
  try_parse-bulk zero s = refl
  try_parse-bulk (suc levels) s = refl

  pub try_parse-array :
      (levels : ℕ) (s : Bytes)
      → try_parse l (suc levels) (b'*' ∷ s) ≡ parse_array l (try_parse l levels) s
  unfolding try_parse
  try_parse-array levels s = refl

  bulk_body-append :
      (b rest : Bytes)
      → length b ≤ l.max_bulk_len
      → bulk_body l (length b) (b ++ cr ∷ lf ∷ rest) ≡ done (bulk b) rest
  unfolding bulk_body
  bulk_body-append b rest h = ground (
    arith,
    length-append b (cr ∷ lf ∷ rest),
    take_append b (cr ∷ lf ∷ rest),
    drop_append b (cr ∷ lf ∷ rest),
  )

  parse_bulk-decimal_ℕ :
      (n : ℕ) (rest : Bytes)
      → FitsInt n
      → parse_bulk l (decimal_ℕ n ++ cr ∷ lf ∷ rest) ≡ bulk_body l n rest
  unfolding parse_bulk bulk_of bulk_of_length
  parse_bulk-decimal_ℕ n rest h = rw (read_line-decimal_ℕ n rest, int-decimal_ℕ n h)

  pub parse_array-decimal_ℕ :
      (item : Bytes → Parsed Object) (n : ℕ) (rest : Bytes)
      → FitsInt n
      → parse_array l item (decimal_ℕ n ++ cr ∷ lf ∷ rest) ≡ array_body l item n rest
  unfolding parse_array array_of array_of_length
  parse_array-decimal_ℕ item n rest h = rw (read_line-decimal_ℕ n rest, int-decimal_ℕ n h)

  pub bulk-RoundTrip :
      (levels : ℕ) (b rest : Bytes)
      → length b ≤ l.max_bulk_len
      → FitsInt (length b)
      → try_parse l levels (encode_bulk b ++ rest) ≡ done (bulk b) rest
  unfolding encode_bulk
  bulk-RoundTrip levels b rest h fits =
      try_parse-bulk levels _
      ∙ ap (parse_bulk l) (simp append_assoc)
      ∙ parse_bulk-decimal_ℕ (length b) (b ++ cr ∷ lf ∷ rest) fits
      ∙ bulk_body-append b rest h

  pub integer-RoundTrip :
      (levels : ℕ) (z : ℤ) (rest : Bytes)
      → FitsInt (magnitude z)
      → try_parse l levels (b':' ∷ (decimal z ++ crlf) ++ rest) ≡ done (integer z) rest
  unfolding parse_integer integer_of
  integer-RoundTrip levels z rest h = rw (
    try_parse-integer levels,
    append_assoc,
    read_line-append (decimal z) rest (All-ne_cr _ (decimal-All z)),
    int-decimal z h,
  )

  pub null-RoundTrip :
      (levels : ℕ) (rest : Bytes) → try_parse l levels (encode_null_bulk ++ rest) ≡ done null rest
  unfolding encode_null_bulk parse_bulk bulk_of bulk_of_length int read_line
  null-RoundTrip levels rest = rw (try_parse-bulk levels)

  pub line-RoundTrip :
      (levels : ℕ) (b rest : Bytes)
      → All (λ c. c ≢ cr) b
      → try_parse l levels (b'+' ∷ (b ++ crlf) ++ rest) ≡ done (text (decode b)) rest
  unfolding parse_line_value
  line-RoundTrip levels b rest h =
      rw (try_parse-line levels, append_assoc, read_line-append b rest h)

  pub error-RoundTrip :
      (levels : ℕ) (b rest : Bytes)
      → All (λ c. c ≢ cr) b
      → try_parse l levels (b'-' ∷ (b ++ crlf) ++ rest) ≡ done (error_msg (decode b)) rest
  unfolding parse_error
  error-RoundTrip levels b rest h =
      rw (try_parse-error levels, append_assoc, read_line-append b rest h)
