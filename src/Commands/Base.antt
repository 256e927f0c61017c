-- ===== src/Commands/Base.antt =====
-- byo_redis/commands/base.py: the errors that a command raises, and the commands that write.
use byo_redis.Prelude.{Bool, false, ◌||◌, List, [], ◌∷◌, ◌++◌, Result, ok, raise}
use byo_redis.Text.{Bytes, Str, codes, text_eq}
use byo_redis.Text.Utf8.{decode}
use byo_redis.Protocol.Object.{Object}
use byo_redis.Storage.Store.{StoreError, wrong_type, memory_limit, assertion, Store}
use byo_redis.Storage.Expiry.{Clock}

-- What a handler does: it returns an object, or raises `RespError`, or another exception, or returns
-- `_NO_CLIENT_REPLY`.
pub data Reply : Type 0 where
  value : Object → Reply
  error : Str → Reply
  crash : Reply
  silent : Reply

-- A handler that works on the store.
abbrev pub StoreHandler : Type 0
StoreHandler = Clock → List Bytes → Store → Reply × Store

unfoldable pub wrongtype : Str
wrongtype = codes "WRONGTYPE Operation against a key holding the wrong kind of value"

unfoldable pub wrong_arity : Str → Str
wrong_arity cmd = codes "ERR wrong number of arguments for '" ++ (cmd ++ codes "' command")

unfoldable pub unknown_command : Bytes → Str
unknown_command name = codes "ERR unknown command '" ++ (decode name ++ codes "'")

unfoldable pub readonly_error : Str
readonly_error = codes "READONLY You can't write against a read only replica."

abbrev pub write_names : List Bytes
write_names =
    codes "SET" ∷ codes "EXPIRE" ∷ codes "LPUSH" ∷ codes "RPOP" ∷ codes "HSET" ∷ codes "DEL" ∷ []

abbrev pub one_of : List Bytes → Bytes → Bool
one_of [] name = false
one_of (n ∷ ns) name = text_eq n name || one_of ns name

-- name in WRITE_COMMANDS, for a name in upper case
unfoldable pub is_write : Bytes → Bool
is_write name = one_of write_names name

-- `except WrongTypeError: raise wrongtype()`
unfoldable pub reply_of {ℓ} : {A : Type ℓ} → (A → Object) → Result StoreError A → Reply
unfolding wrongtype
reply_of f (ok a) = value (f a)
reply_of f (raise wrong_type) = error wrongtype
reply_of f (raise memory_limit) = crash
reply_of f (raise assertion) = crash

unfoldable pub arity : Str → Reply
unfolding wrong_arity
arity cmd = error (wrong_arity cmd)
