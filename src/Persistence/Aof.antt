-- ===== src/Persistence/Aof.antt =====
-- byo_redis/persistence/aof.py: the append-only file, its loader and its rewriting.
pub mod Reads
pub mod Writer
use byo_redis.Prelude.{
  ℕ, zero, suc, ◌+◌, ◌-◌, ◌/◌, ◌*◌, ◌^◌, Bool, true, false, not, ◌||◌, ◌&&◌, Option, none, some,
  List, [], ◌∷◌, ◌++◌, ltb, leb, ◌==◌, if◌then◌else◌, length, take, map, Result, ok, raise, ◌>>=◌,
}
use byo_redis.Text.{Bytes, codes}
use byo_redis.Text.Decimal.{decimal_ℕ}
use byo_redis.Text.Utf8.{encode}
use byo_redis.Dict.{Dict}
use byo_redis.Storage.Types.{
  RedisType, string, list, hash, RedisValue, bytes, deque, dict, KeyEntry,
}
use byo_redis.Storage.Expiry.{Clock}
use byo_redis.Protocol.Object.{Object, Objects, null, bulk, text, array, nil, cons}
use byo_redis.Protocol.Encoder.{encode_command}
use byo_redis.Protocol.Parser.{ProtocolError, Limits, default_limits, RespParser, new_parser, feed}
use byo_redis.Protocol.Parser.Feed.{Fed, concat}

-- An OSError of `append`.
pub data AppendError : Type 0 where
  unhealthy write_failed queue_full : AppendError

-- The log: `opened` is whether there is a file handle, `failed` whether `_failure` is set, `file` what
-- the file holds.
pub record AofLog : Type 0 where
  pub enabled : Bool
  pub opened : Bool
  pub failed : Bool
  pub file : Bytes

-- What becomes of one item that `append` hands to the writer: it is written; only some of the
-- bytes are, which the writer does not notice; the write or the fsync fails, after some of the bytes;
-- the queue stays full until the timeout.
pub data Outcome : Type 0 where
  written : Outcome
  short fails_after : ℕ → Outcome
  times_out : Outcome

unfoldable pub healthy : AofLog → Bool
healthy log = not log.failed

-- `_writer_loop`, on one item
unfoldable pub write_item : Outcome → Bytes → AofLog → Result AppendError (Unit {0}) × AofLog
write_item written payload log = (ok tt, record log { file = log.file ++ payload })
write_item (short n) payload log = (ok tt, record log { file = log.file ++ take n payload })
write_item (fails_after n) payload log =
    (raise write_failed, record log { failed = true; file = log.file ++ take n payload })
write_item times_out payload log = (raise queue_full, log)

-- `append`, with the writer task running; returns when the item is completed.
unfoldable pub append : Outcome → List Bytes → AofLog → Result AppendError (Unit {0}) × AofLog
unfolding write_item
append outcome argv log =
    if not log.enabled || not log.opened
    then (ok tt, log)
    else if log.failed
    then (raise unhealthy, log)
    else write_item outcome (encode_command argv) log

pub data AofError : Type 0 where
  exceeds_limit : ℕ → AofError
  protocol : ProtocolError → AofError
  -- AssertionError and OverflowError, in the rewriting
  assertion overflow : AofError

-- all(isinstance(x, (bytes, bytearray)) or x is None for x in msg)
unfoldable pub all_bulk : Objects → Bool
all_bulk nil = true
all_bulk (cons (bulk b) xs) = all_bulk xs
all_bulk (cons null xs) = all_bulk xs
all_bulk (cons _ xs) = false

-- [b"" if x is None else bytes(x) for x in msg]
unfoldable pub bulk_args : Objects → List Bytes
bulk_args nil = []
bulk_args (cons (bulk b) xs) = b ∷ bulk_args xs
bulk_args (cons _ xs) = [] ∷ bulk_args xs

abbrev prepend : Bytes → Option (List Bytes) → Option (List Bytes)
prepend b none = none
prepend b (some args) = some (b ∷ args)

-- The loop over a message with other items in it, which stops at what is neither bytes nor text.
unfoldable pub text_args : Objects → Option (List Bytes)
text_args nil = some []
text_args (cons (bulk b) xs) = prepend b (text_args xs)
text_args (cons (text s) xs) = prepend (encode s) (text_args xs)
text_args (cons _ xs) = none

-- The command of a message, or none where the loop skips it.
unfoldable pub entry_args : Object → Option (List Bytes)
unfolding all_bulk bulk_args text_args
entry_args (array nil) = none
entry_args (array items) = if all_bulk items then some (bulk_args items) else text_args items
entry_args _ = none

unfoldable pub entries_args : List Object → List (List Bytes)
unfolding entry_args
entries_args [] = []
entries_args (m ∷ ms) = elim (entry_args m) [
  | none ↦ entries_args ms
  | some c ↦ c ∷ entries_args ms
]

-- The limits of the loader's parser: the defaults, but for the length of a bulk string.
abbrev pub load_limits : ℕ → Limits
load_limits max_bulk_len = record default_limits { max_bulk_len = max_bulk_len }

unfoldable pub loaded : Fed → Result AofError (List (List Bytes))
unfolding entries_args
loaded (ok (messages, p)) = ok (entries_args messages)
loaded (raise e) = raise (protocol e)

-- `read_commands`, on the content of the file; a file that is not there reads as an empty one.
unfoldable pub read_commands : ℕ → ℕ → Bytes → Result AofError (List (List Bytes))
unfolding loaded feed
read_commands max_bulk_len max_file_bytes content =
    if length content == 0
    then ok []
    else if ltb max_file_bytes (length content)
    then raise (exceeds_limit (length content))
    else loaded (feed (new_parser (load_limits max_bulk_len)) content)

unfoldable pub reversed : List Bytes → List Bytes
reversed [] = []
reversed (x ∷ xs) = reversed xs ++ x ∷ []

unfoldable pub pairs_of : Dict Bytes Bytes → List Bytes
pairs_of [] = []
pairs_of ((field, value) ∷ m) = field ∷ value ∷ pairs_of m

-- The command that writes a value again; an empty list or hash has none.
unfoldable pub value_commands : Bytes → RedisType → RedisValue → Result AofError (List (List Bytes))
unfolding reversed pairs_of
value_commands key string (bytes b) = ok ((codes "SET" ∷ key ∷ b ∷ []) ∷ [])
value_commands key list (deque []) = ok []
value_commands key list (deque (x ∷ xs)) = ok ((codes "LPUSH" ∷ key ∷ reversed (x ∷ xs)) ∷ [])
value_commands key hash (dict []) = ok []
value_commands key hash (dict (p ∷ m)) = ok ((codes "HSET" ∷ key ∷ pairs_of (p ∷ m)) ∷ [])
value_commands _ _ _ = raise assertion

-- The command that sets the expiry time again: in whole seconds, rounded up. The quotient is a float,
-- and raises OverflowError where it rounds beyond the largest.
unfoldable pub expire_commands : ℕ → Bytes → Option ℕ → Result AofError (List (List Bytes))
expire_commands now key none = ok []
expire_commands now key (some at) =
    if not (ltb now at)
    then ok []
    else if leb ((2 ^ 1024 - 2 ^ 970) * 1000) (at - now)
    then raise overflow
    else ok ((codes "EXPIRE" ∷ key ∷ decimal_ℕ ((at - now + 999) / 1000) ∷ []) ∷ [])

unfoldable pub rewrite_commands : ℕ → Dict Bytes KeyEntry → Result AofError (List (List Bytes))
unfolding value_commands expire_commands
rewrite_commands now [] = ok []
rewrite_commands now ((key, e) ∷ d) = do
  first ← value_commands key e.type e.value
  expiry ← expire_commands now key e.expire_at_ms
  rest ← rewrite_commands now d
  ok (first ++ (expiry ++ rest))

-- `_build_rewrite_payload`
unfoldable pub rewrite_payload : Clock → Dict Bytes KeyEntry → Result AofError Bytes
unfolding rewrite_commands
rewrite_payload clock entries = do
  commands ← rewrite_commands (clock 0) entries
  ok (concat (map encode_command commands))
