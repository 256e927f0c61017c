-- ===== src/Tests/Protocols.antt =====
-- The theorems on the protocol at concrete inputs.
use byo_redis.Prelude.{◌≡◌, refl, List, [], ◌∷◌, ◌++◌, arith, pos, negsuc, some, inl, ok, map}
use byo_redis.Text.Decimal.{int_max_str_digits, int, decimal, decimal_ℕ, FitsInt-word, int-decimal}
use byo_redis.Text.{Bytes, codes}
use byo_redis.Text.Utf8.{decode, encode, decode-encode}
use byo_redis.Protocol.Object.{Object, array, cons, nil, bulk, integer, null, command}
use byo_redis.Protocol.Encoder.{encode_integer, encode_value, encode_command}
use byo_redis.Protocol.Parser.{
  default_limits, new_parser, RespParser, feed, try_parse, done, incomplete, drain_all,
}
use byo_redis.Protocol.Parser.Feed.{feed-concat, feed-settled, feed_each, at_once, concat}
use byo_redis.Protocol.Parser.RoundTrip.{wire, try_parse-encode_value}
use byo_redis.Protocol.Parser.Stream.{IsUsable, feed-encode_command}

abbrev fresh : RespParser
fresh = new_parser default_limits

abbrev ping : Bytes
ping = codes "*1\r\n$4\r\nPING\r\n"

feed_ping :
    feed fresh (codes "*1\r\n$4\r\nPING\r\n*1")
    ≡ ok (command (codes "PING" ∷ []) ∷ [], record fresh { buf = codes "*1" })
unfolding feed drain_all int
feed_ping = refl

feed-concat_example :
    feed fresh (concat (codes "*1\r" ∷ codes "\n$4\r\nPI" ∷ codes "NG\r\n" ∷ []))
    ≡ at_once (feed_each fresh (codes "*1\r" ∷ codes "\n$4\r\nPI" ∷ codes "NG\r\n" ∷ []))
feed-concat_example =
    feed-concat fresh (codes "*1\r") (codes "\n$4\r\nPI" ∷ codes "NG\r\n" ∷ []) (omega arith)

feed-settled_example : try_parse default_limits 64 (codes "*1") ≡ incomplete
feed-settled_example =
    feed-settled fresh (record fresh { buf = codes "*1" }) (codes "*1\r\n$4\r\nPING\r\n*1")
      (command (codes "PING" ∷ []) ∷ []) feed_ping

abbrev reply : Object
reply = array (cons (integer (pos 7)) (cons null (cons (bulk (codes "v")) nil)))

reply_bytes : encode_value reply ≡ ok (codes "*3\r\n:7\r\n$-1\r\n$1\r\nv\r\n")
unfolding encode_value decimal_ℕ decimal encode_integer int_max_str_digits
reply_bytes = refl

try_parse-encode_value_example :
    try_parse default_limits 64 (codes "*3\r\n:7\r\n$-1\r\n$1\r\nv\r\n" ++ codes "+OK")
    ≡ done (wire reply) (codes "+OK")
try_parse-encode_value_example =
    try_parse-encode_value default_limits reply (codes "*3\r\n:7\r\n$-1\r\n$1\r\nv\r\n")
      (codes "+OK")
      (
        omega arith,
        FitsInt-word 3 (omega arith),
        (FitsInt-word 7 (omega arith), (tt, ((omega arith, FitsInt-word 1 (omega arith)), tt))),
      )
      reply_bytes

pub usable : IsUsable default_limits
usable = record { bulk_len = omega arith; array_len = omega arith; depth = omega arith }

abbrev commands : List (List Bytes)
commands = (codes "SET" ∷ codes "k" ∷ codes "v" ∷ []) ∷ (codes "GET" ∷ codes "k" ∷ []) ∷ []

feed-encode_command_example :
    feed fresh (concat (map encode_command commands)) ≡ ok (map command commands, fresh)
unfolding encode_command decimal_ℕ
feed-encode_command_example =
    feed-encode_command default_limits commands usable
      (
        (omega arith, (omega arith, (omega arith, (omega arith, tt)))),
        ((omega arith, (omega arith, (omega arith, tt))), tt),
      )
      (omega arith)

int-decimal_example : int (decimal (negsuc 41)) ≡ some (negsuc 41)
int-decimal_example = int-decimal (negsuc 41) (FitsInt-word 42 (omega arith))

decode-encode_example : decode (encode (0x4f60 ∷ 0x597d ∷ [])) ≡ 0x4f60 ∷ 0x597d ∷ []
decode-encode_example =
    decode-encode (0x4f60 ∷ 0x597d ∷ []) (inl (omega arith), (inl (omega arith), tt))
