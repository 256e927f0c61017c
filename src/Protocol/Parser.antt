-- ===== src/Protocol/Parser.antt =====
-- byo_redis/protocol/parser.py. A position in the buffer is the suffix that starts there, so that
-- `(value, end)` is `done value rest`, and `(None, 0)` is `incomplete`.
pub mod Stable
pub mod Chunks
pub mod Feed
pub mod Lines
pub mod RoundTrip
pub mod Stream
pub mod Prefix
pub mod Bare
use byo_redis.Prelude.{
  ℕ, zero, suc, ◌+◌, ◌-◌, ◌≡◌, refl, Bool, true, false, ◌||◌, ◌&&◌, Option, none, some, List, [],
  ◌∷◌, ◌++◌, ltb, leb, ◌==◌, if◌then◌else◌, length, take, drop, ℤ, pos, negsuc, Result, ok, raise,
  result_map,
}
use byo_redis.Text.{Bytes, Str, codes, text_eq}
use byo_redis.Text.Decimal.{int}
use byo_redis.Text.Utf8.{decode}
use byo_redis.Protocol.Object.{
  Object, Objects, null, integer, bulk, text, array, error_msg, nil, cons,
}
use byo_redis.Protocol.Encoder.{cr, lf, crlf}

-- `ProtocolError`, by its message.
pub data ProtocolError : Type 0 where
  buffer_exceeds : ℕ → ProtocolError
  invalid_integer : Bytes → ProtocolError
  invalid_prefix : ℕ → ProtocolError
  invalid_bulk_header : Bytes → ProtocolError
  invalid_bulk_length : ℤ → ProtocolError
  bulk_exceeds : ℕ → ProtocolError
  missing_trailer : ProtocolError
  nesting_exceeds : ℕ → ProtocolError
  invalid_array_header : Bytes → ProtocolError
  invalid_array_length : ℤ → ProtocolError
  array_exceeds : ℕ → ProtocolError
  -- server.py, _normalize_argv
  expected_array : ProtocolError
  bad_argument : ProtocolError
  -- server.py, handle_client
  frame_timed_out : ProtocolError

-- The limits of a `RespParser`.
pub record Limits : Type 0 where
  pub max_bulk_len : ℕ
  pub max_buffer_bytes : ℕ
  pub max_array_len : ℕ
  pub max_array_depth : ℕ

-- The defaults of `RespParser.__init__`.
abbrev pub default_limits : Limits
default_limits = record {
  max_bulk_len = 16_777_216;
  max_buffer_bytes = 32_000_000;
  max_array_len = 1_024;
  max_array_depth = 64;
}

pub record RespParser : Type 0 where
  pub buf : Bytes
  pub limits : Limits

abbrev pub new_parser : Limits → RespParser
new_parser l = record { buf = []; limits = l }

pub data Parsed {ℓ} (A : Type ℓ) : Type ℓ where
  incomplete : Parsed A
  done : A → Bytes → Parsed A
  fail : ProtocolError → Parsed A

-- Go on behind a value, unless it is incomplete or malformed.
abbrev pub and_then {ℓ κ} : {A : Type ℓ} {B : Type κ} → Parsed A → (A → Bytes → Parsed B) → Parsed B
and_then incomplete f = incomplete
and_then (done a rest) f = f a rest
and_then (fail e) f = fail e

-- `_read_line`: the bytes before the first CR LF, and what follows it
unfoldable pub read_line : Bytes → Parsed Bytes
read_line [] = incomplete
read_line (c ∷ []) = incomplete
read_line (c ∷ d ∷ s) =
    let later = and_then (read_line (d ∷ s)) (λ line rest. done (c ∷ line) rest) in
    if c == cr && d == lf then done [] s else later

unfoldable pub parse_line_value : Bytes → Parsed Object
unfolding read_line
parse_line_value s = and_then (read_line s) (λ line rest. done (text (decode line)) rest)

unfoldable pub parse_error : Bytes → Parsed Object
unfolding read_line
parse_error s = and_then (read_line s) (λ line rest. done (error_msg (decode line)) rest)

-- `int(line)`, where `except ValueError` raises `e`
abbrev number_or : ProtocolError → Option ℤ → (ℤ → Parsed Object) → Parsed Object
number_or e none f = fail e
number_or e (some n) f = f n

integer_of : Bytes → Bytes → Parsed Object
integer_of line rest = number_or (invalid_integer line) (int line) (λ n. done (integer n) rest)

unfoldable pub parse_integer : Bytes → Parsed Object
unfolding read_line integer_of
parse_integer s = and_then (read_line s) integer_of

-- One round of the loop of `feed`: stop at an incomplete value, or append the value and go on.
abbrev pub round :
    Bytes
    → (Bytes → Result ProtocolError (List Object × Bytes))
    → Parsed Object
    → Result ProtocolError (List Object × Bytes)
round s again incomplete = ok ([], s)
round s again (fail e) = raise e
round s again (done v rest) = result_map (λ r. (v ∷ r.0, r.1)) (again rest)

module _ (l : Limits) where
  -- The body of a bulk string of `n` bytes.
  pub bulk_body : ℕ → Bytes → Parsed Object
  bulk_body n rest =
      if ltb l.max_bulk_len n
      then fail (bulk_exceeds n)
      else if ltb (length rest) (n + 2)
      then incomplete
      else if text_eq (take 2 (drop n rest)) crlf
      then done (bulk (take n rest)) (drop 2 (drop n rest))
      else fail missing_trailer

  pub bulk_of_length : ℤ → Bytes → Parsed Object
  bulk_of_length (pos n) rest = bulk_body n rest
  bulk_of_length (negsuc zero) rest = done null rest
  bulk_of_length (negsuc (suc n)) rest = fail (invalid_bulk_length (negsuc (suc n)))

  pub bulk_of : Bytes → Bytes → Parsed Object
  bulk_of line rest = number_or (invalid_bulk_header line) (int line) (λ n. bulk_of_length n rest)

  unfoldable pub parse_bulk : Bytes → Parsed Object
  unfolding read_line bulk_body bulk_of_length bulk_of
  parse_bulk s = and_then (read_line s) bulk_of

  module _ (item : Bytes → Parsed Object) where
    -- for _ in range(count)
    pub parse_items : ℕ → Bytes → Parsed Objects
    parse_items zero s = done nil s
    parse_items (suc n) s =
        and_then (item s)
          (λ x rest. and_then (parse_items n rest) (λ xs rest'. done (cons x xs) rest'))

    pub array_body : ℕ → Bytes → Parsed Object
    unfolding parse_items
    array_body n rest =
        if ltb l.max_array_len n
        then fail (array_exceeds n)
        else and_then (parse_items n rest) (λ items rest'. done (array items) rest')

    pub array_of_length : ℤ → Bytes → Parsed Object
    array_of_length (pos n) rest = array_body n rest
    array_of_length (negsuc zero) rest = done null rest
    array_of_length (negsuc (suc n)) rest = fail (invalid_array_length (negsuc (suc n)))

    pub array_of : Bytes → Bytes → Parsed Object
    array_of line rest =
        number_or (invalid_array_header line) (int line) (λ n. array_of_length n rest)

    -- `_parse_array` where the depth is below the limit
    unfoldable pub parse_array : Bytes → Parsed Object
    unfolding read_line array_body array_of_length array_of
    parse_array s = and_then (read_line s) array_of

  -- The choice of `_try_parse` by the prefix byte; `arrays` is `_parse_array` at this depth.
  pub parse_value : (Bytes → Parsed Object) → Bytes → Parsed Object
  unfolding parse_line_value parse_error parse_integer parse_bulk
  parse_value arrays [] = incomplete
  parse_value arrays (prefix ∷ s) =
      if prefix == b'+'
      then parse_line_value s
      else if prefix == b'-'
      then parse_error s
      else if prefix == b':'
      then parse_integer s
      else if prefix == b'$'
      then parse_bulk s
      else if prefix == b'*'
      then arrays s
      else fail (invalid_prefix prefix)

  -- `_try_parse`; `levels` is max_array_depth - depth, the levels of nesting that are left.
  unfoldable pub try_parse : ℕ → Bytes → Parsed Object
  unfolding parse_array parse_value
  try_parse zero = parse_value (λ s. fail (nesting_exceeds l.max_array_depth))
  try_parse (suc levels) = parse_value (parse_array (try_parse levels))

  -- The loop of `feed`. Every round but the last takes bytes off the buffer, so that more rounds
  -- than bytes are enough: the loop then ends by its own test.
  unfoldable pub drain : ℕ → Bytes → Result ProtocolError (List Object × Bytes)
  unfolding try_parse
  drain zero s = ok ([], s)
  drain (suc rounds) s = round s (drain rounds) (try_parse l.max_array_depth s)

  unfoldable pub drain_all : Bytes → Result ProtocolError (List Object × Bytes)
  unfolding drain
  drain_all s = drain (suc (length s)) s

-- `feed`, with the parser that it leaves. Where it raises, the connection is given up.
unfoldable pub feed : RespParser → Bytes → Result ProtocolError (List Object × RespParser)
unfolding drain_all
feed p chunk =
    let s = p.buf ++ chunk in
    if ltb p.limits.max_buffer_bytes (length p.buf + length chunk)
    then raise (buffer_exceeds p.limits.max_buffer_bytes)
    else result_map (λ r. (r.0, record p { buf = r.1 })) (drain_all p.limits s)

unfoldable pub reset : RespParser → RespParser
reset p = record p { buf = [] }

unfoldable pub buffered_size : RespParser → ℕ
buffered_size p = length p.buf
