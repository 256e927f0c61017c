-- ===== src/Protocol/Encoder.antt =====
-- byo_redis/protocol/encoder.py
use byo_redis.Prelude.{
  ℕ, Bool, false, ◌||◌, Option, none, some, List, [], ◌∷◌, ◌++◌, map, ◌==◌, if◌then◌else◌, length,
  ℤ, pos, Result, ok, raise, ◌>>=◌,
}
use byo_redis.Text.{Bytes, Str, codes}
use byo_redis.Text.Decimal.{decimal, decimal_ℕ, fits_digits, magnitude}
use byo_redis.Text.Utf8.{encode}
use byo_redis.Protocol.Object.{
  Object, Objects, null, boolean, integer, bulk, text, array, error_msg, simple, resp_error, nil,
  cons, count,
}

-- An argument `value: str | bytes`.
pub data TextArg : Type 0 where
  str : Str → TextArg
  bytes : Bytes → TextArg

pub data EncodeError : Type 0 where
  value_error type_error : EncodeError

abbrev pub cr : ℕ
cr = 13

abbrev pub lf : ℕ
lf = 10

abbrev pub crlf : Bytes
crlf = cr ∷ lf ∷ []

-- if isinstance(value, str): value = value.encode("utf-8")
unfoldable pub as_bytes : TextArg → Bytes
as_bytes (str s) = encode s
as_bytes (bytes b) = b

unfoldable pub has_newline : Bytes → Bool
has_newline [] = false
has_newline (c ∷ s) = c == cr || c == lf || has_newline s

unfoldable pub encode_simple_string : TextArg → Result EncodeError Bytes
unfolding has_newline as_bytes
encode_simple_string value =
    let b = as_bytes value in if has_newline b then raise value_error else ok (b'+' ∷ (b ++ crlf))

-- message.replace(b"\r", b" ").replace(b"\n", b" ")
unfoldable pub blank_byte : ℕ → ℕ
blank_byte c = if c == cr then b' ' else if c == lf then b' ' else c

unfoldable pub encode_error : TextArg → Bytes
unfolding blank_byte as_bytes
encode_error message = b'-' ∷ (map blank_byte (as_bytes message) ++ crlf)

-- f"{value:d}" raises ValueError on more digits than Python writes.
unfoldable pub encode_integer : ℤ → Result EncodeError Bytes
unfolding fits_digits
encode_integer value =
    if fits_digits (magnitude value) then ok (b':' ∷ (decimal value ++ crlf)) else raise value_error

unfoldable pub encode_null_bulk : Bytes
encode_null_bulk = codes "$-1" ++ crlf

-- `value` is present
unfoldable pub encode_bulk : Bytes → Bytes
encode_bulk b = b'$' ∷ (decimal_ℕ (length b) ++ crlf ++ (b ++ crlf))

unfoldable pub encode_bulk_string : Option TextArg → Bytes
unfolding encode_bulk encode_null_bulk as_bytes
encode_bulk_string none = encode_null_bulk
encode_bulk_string (some value) = encode_bulk (as_bytes value)

unfoldable mutual
  unfolding encode_simple_string encode_error encode_integer encode_null_bulk encode_bulk_string

  -- `encode_array` of a list is the case of `array`.
  pub encode_value : Object → Result EncodeError Bytes
  encode_value null = ok encode_null_bulk
  encode_value (boolean b) = encode_integer (if b then pos 1 else pos 0)
  encode_value (integer n) = encode_integer n
  encode_value (bulk b) = ok (encode_bulk_string (some (bytes b)))
  encode_value (text s) = ok (encode_bulk_string (some (str s)))
  encode_value (array items) = do
    parts ← encode_items items
    ok (b'*' ∷ (decimal_ℕ (count items) ++ crlf ++ parts))
  encode_value (simple s) = encode_simple_string (str s)
  encode_value (resp_error s) = ok (encode_error (str s))
  encode_value (error_msg s) = raise type_error

  pub encode_items : Objects → Result EncodeError Bytes
  encode_items nil = ok []
  encode_items (cons x xs) = do part ← encode_value x; parts ← encode_items xs; ok (part ++ parts)

-- encode_array(items), None included
unfoldable pub encode_array : Option Objects → Result EncodeError Bytes
unfolding encode_value
encode_array none = ok (codes "*-1" ++ crlf)
encode_array (some items) = encode_value (array items)

unfoldable pub encode_args : List Bytes → Bytes
unfolding encode_bulk_string
encode_args [] = []
encode_args (a ∷ as') = encode_bulk_string (some (bytes a)) ++ encode_args as'

unfoldable pub encode_command : List Bytes → Bytes
unfolding encode_args
encode_command argv = b'*' ∷ (decimal_ℕ (length argv) ++ crlf ++ encode_args argv)
