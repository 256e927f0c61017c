-- ===== src/Commands/Strings.antt =====
-- byo_redis/commands/string_cmds.py
use byo_redis.Prelude.{
  Option, none, some, List, [], ◌∷◌, if◌then◌else◌, ℤ, pos, is_nonpos, Result, ok, raise,
}
use byo_redis.Text.{Bytes, Str, codes, text_eq, upper}
use byo_redis.Text.Decimal.{int}
use byo_redis.Protocol.Object.{Object, null, integer, bulk, simple}
use byo_redis.Storage.Store.{Store, expire, ttl}
use byo_redis.Storage.Values.{set_string, get_string}
use byo_redis.Storage.Expiry.{Clock}
use byo_redis.Commands.Base.{Reply, value, error, StoreHandler, reply_of, arity}

syntax_error : Str
syntax_error = codes "ERR syntax error"

not_integer : Str
not_integer = codes "ERR value is not an integer or out of range"

invalid_expire : Str
invalid_expire = codes "ERR invalid expire time in set"

-- The seconds of an EX option, which must be positive.
ex_argument : Option ℤ → Result Str ℤ
unfolding not_integer invalid_expire
ex_argument none = raise not_integer
ex_argument (some seconds) = if is_nonpos seconds then raise invalid_expire else ok seconds

-- The loop over the options, from argv[3]; the last EX counts.
unfoldable pub set_options : Option ℤ → List Bytes → Result Str (Option ℤ)
unfolding ex_argument syntax_error
set_options ex [] = ok ex
set_options ex (opt ∷ []) = raise syntax_error
set_options ex (opt ∷ arg ∷ rest) =
    let seconds : Result Str ℤ = ex_argument (int arg) in
    let more : Result Str (Option ℤ) = elim seconds [
      | ok n ↦ set_options (some n) rest
      | raise e ↦ raise e
    ] in
    if text_eq (upper opt) (codes "EX") then more else raise syntax_error

unfoldable pub set_with : Clock → Bytes → Bytes → Result Str (Option ℤ) → Store → Reply × Store
set_with clock key val (ok ex) s = (value (simple (codes "OK")), set_string clock key val ex s)
set_with clock key val (raise e) s = (error e, s)

unfoldable pub cmd_set : StoreHandler
unfolding set_with set_options arity
cmd_set clock (name ∷ key ∷ val ∷ options) s = set_with clock key val (set_options none options) s
cmd_set clock _ s = (arity (codes "set"), s)

-- A value, or None.
abbrev pub bulk_or_null : Option Bytes → Object
bulk_or_null none = null
bulk_or_null (some b) = bulk b

unfoldable pub cmd_get : StoreHandler
unfolding reply_of arity
cmd_get clock (name ∷ key ∷ []) s =
    let (r, s') = get_string clock key s in (reply_of bulk_or_null r, s')
cmd_get clock _ s = (arity (codes "get"), s)

unfoldable pub expire_with : Clock → Bytes → Option ℤ → Store → Reply × Store
unfolding not_integer
expire_with clock key none s = (error not_integer, s)
expire_with clock key (some seconds) s =
    let (n, s') = expire clock key seconds s in (value (integer (pos n)), s')

unfoldable pub cmd_expire : StoreHandler
unfolding expire_with arity
cmd_expire clock (name ∷ key ∷ seconds ∷ []) s = expire_with clock key (int seconds) s
cmd_expire clock _ s = (arity (codes "expire"), s)

unfoldable pub cmd_ttl : StoreHandler
unfolding arity
cmd_ttl clock (name ∷ key ∷ []) s = let (n, s') = ttl clock key s in (value (integer n), s')
cmd_ttl clock _ s = (arity (codes "ttl"), s)
