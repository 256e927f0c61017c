-- ===== src/Commands/Answers.antt =====
-- The handlers of byo_redis/commands on a valid store: each gives a reply that can be encoded, or a
-- RespError, and leaves a valid store.
pub mod Stores
pub mod Table
use byo_redis.Prelude.{
  ℕ, ◌≡◌, refl, ap, ◌∙◌, Bool, true, false, not, ◌||◌, Option, none, some, List, [], ◌∷◌,
  if◌then◌else◌, if_cases, ◌≤◌, ◌^◌, ◌⊎◌, Bool-cases, inl, inr, ℤ, pos, negsuc, is_nonpos, Result,
  ok, raise, length, ltb, ◌==◌, ◌%◌, All, subst,
}
use byo_redis.Text.{Bytes, Str, codes, text_eq, text_eq_iff, upper}
use byo_redis.Text.Decimal.{int, int_max_str_digits, magnitude, fits_digits, max_digits-le}
use byo_redis.Text.Utf8.{encode}
use byo_redis.Dict
use byo_redis.Dict.{Dict, bytes_eq}
use byo_redis.Protocol.Object.{Object, null, integer, bulk, array, bulks, simple, nil}
use byo_redis.Protocol.Encoder.{
  encode_value, encode_integer, encode_simple_string, has_newline, str,
}
use byo_redis.Protocol.Parser.Stream.{encode_value-command}
use byo_redis.Storage.Expiry.{Clock}
use byo_redis.Storage.Store.{
  StoreError, wrong_type, memory_limit, assertion, Store, expire, ttl, delete,
}
use byo_redis.Storage.Store.Keeps.{delete-IsValid, expire-IsValid, ttl-IsValid}
use byo_redis.Storage.Values.{set_string, get_string, lpush, rpop, hset, hgetall}
use byo_redis.Storage.Values.Keeps.{
  Keeps, set_string-IsValid, get_string-Keeps, hgetall-Keeps, lpush-Keeps, rpop-Keeps, hset-Keeps,
}
use byo_redis.Storage.Sweep.{dbsize}
use byo_redis.Storage.Sweep.Keeps.{dbsize-IsValid}
use byo_redis.Storage.Valid.{IsValid}
use byo_redis.Commands.Base.{Reply, value, error, crash, silent, StoreHandler, reply_of, arity}
use byo_redis.Commands.Strings.{
  set_options, set_with, bulk_or_null, cmd_set, cmd_get, expire_with, cmd_expire, cmd_ttl,
}
use byo_redis.Commands.Lists.{cmd_lpush, cmd_rpop}
use byo_redis.Commands.Hashes.{pair_up, hset_pairs, cmd_hset, cmd_hgetall}
use byo_redis.Commands.Keys.{cmd_del, cmd_dbsize}
use byo_redis.Commands.Connection.{
  cmd_ping, cmd_echo, select_index, cmd_select, cmd_command, cmd_replconf,
}
use byo_redis.Commands.Registry.{
  Handler, plain, on_store, auth, admin, default_registry, find_handler,
}

-- An integer of more digits than Python writes.
abbrev pub IsLong : Object → Type 0
IsLong (integer z) = 10 ^ int_max_str_digits ≤ magnitude z
IsLong _ = ⊥

-- An object that can be encoded, if it is not such an integer.
abbrev pub IsEncodable : Object → Type 0
IsEncodable o = ((bs : Bytes) × (encode_value o ≡ ok bs)) ⊎ IsLong o

-- No internal error: the reply is such an object, an error, or none.
abbrev pub Answers : Reply → Type 0
Answers (value o) = IsEncodable o
Answers (error message) = Unit
Answers crash = ⊥
Answers silent = Unit

-- An answer, and a valid store.
abbrev pub Serves : Reply × Store → Type 0
Serves (r, s) = Answers r × IsValid s

pub integer-Answers : (z : ℤ) → Answers (value (integer z))
unfolding encode_value encode_integer
integer-Answers z = elim (Bool-cases (fits_digits (magnitude z))) [
  | inl e ↦ inl (rw e (_, refl))
  | inr e ↦ inr (max_digits-le (magnitude z) e)
]

pub bulk_or_null-Answers : (o : Option Bytes) → Answers (value (bulk_or_null o))
unfolding encode_value
bulk_or_null-Answers none = inl (_, refl)
bulk_or_null-Answers (some b) = inl (_, refl)

pub bulk-Answers : (b : Bytes) → Answers (value (bulk b))
unfolding encode_value
bulk-Answers b = inl (_, refl)

pub bulks-Answers : (bs : List Bytes) → Answers (value (array (bulks bs)))
bulks-Answers bs = inl (_, encode_value-command bs)

-- A text of the source without CR and LF.
pub simple-Answers :
    (s : Str) → ((bs : Bytes) × (encode_simple_string (str s) ≡ ok bs)) → Answers (value (simple s))
unfolding encode_value
simple-Answers s h = inl h

pub ok-Answers : Answers (value (simple (codes "OK")))
unfolding encode_value encode_simple_string has_newline encode
ok-Answers = inl (_, refl)

pub reply_of-Serves :
    {A : Type 0} (f : A → Object) (p : Result StoreError A × Store)
    → ((a : A) → Answers (value (f a)))
    → Keeps p
    → Serves (reply_of f p.0, p.1)
unfolding reply_of
reply_of-Serves f (ok a, s) h k = (h a, k)
reply_of-Serves f (raise wrong_type, s) h k = (tt, k.0)
reply_of-Serves f (raise memory_limit, s) h k = absurd (cc (k.1))
reply_of-Serves f (raise assertion, s) h k = absurd (cc (k.1))

-- A handler of the store that serves a valid store.
abbrev pub IsSound : StoreHandler → Type 0
IsSound f = (clock : Clock) (argv : List Bytes) (s : Store) → IsValid s → Serves (f clock argv s)
