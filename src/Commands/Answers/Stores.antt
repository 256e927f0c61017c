-- ===== src/Commands/Answers/Stores.antt =====
-- The handlers that work on the store alone.
use byo_redis.Prelude.{
  not, ◌||◌, Option, none, some, List, [], ◌∷◌, if_cases, ℤ, pos, Result, ok, raise, length, ltb,
  ◌==◌, ◌%◌,
}
use byo_redis.Text.{Bytes, Str}
use byo_redis.Text.Decimal.{int}
use byo_redis.Dict.{bytes_eq}
use byo_redis.Protocol.Object.{integer, array, bulks}
use byo_redis.Storage.Expiry.{Clock}
use byo_redis.Storage.Store.{Store, expire, ttl, delete}
use byo_redis.Storage.Store.Keeps.{delete-IsValid, expire-IsValid, ttl-IsValid}
use byo_redis.Storage.Values.{get_string, lpush, rpop, hset, hgetall}
use byo_redis.Storage.Values.Keeps.{
  set_string-IsValid, get_string-Keeps, hgetall-Keeps, lpush-Keeps, rpop-Keeps, hset-Keeps,
}
use byo_redis.Storage.Sweep.{dbsize}
use byo_redis.Storage.Sweep.Keeps.{dbsize-IsValid}
use byo_redis.Storage.Valid.{IsValid}
use byo_redis.Commands.Base.{arity}
use byo_redis.Commands.Strings.{
  set_options, set_with, bulk_or_null, cmd_set, cmd_get, expire_with, cmd_expire, cmd_ttl,
}
use byo_redis.Commands.Lists.{cmd_lpush, cmd_rpop}
use byo_redis.Commands.Hashes.{pair_up, hset_pairs, cmd_hset, cmd_hgetall}
use byo_redis.Commands.Keys.{cmd_del, cmd_dbsize}
use byo_redis.Commands.Answers.{
  Serves, integer-Answers, bulk_or_null-Answers, bulks-Answers, ok-Answers, reply_of-Serves,
  IsSound,
}

set_with-Serves :
    (clock : Clock) (key val : Bytes) (r : Result Str (Option ℤ)) {s : Store}
    → IsValid s
    → Serves (set_with clock key val r s)
unfolding set_with
set_with-Serves clock key val (ok ex) h = (ok-Answers, set_string-IsValid clock key val ex h)
set_with-Serves clock key val (raise e) h = (tt, h)

pub cmd_set-IsSound : IsSound cmd_set
unfolding cmd_set arity
cmd_set-IsSound clock [] s h = (tt, h)
cmd_set-IsSound clock (name ∷ []) s h = (tt, h)
cmd_set-IsSound clock (name ∷ key ∷ []) s h = (tt, h)
cmd_set-IsSound clock (name ∷ key ∷ val ∷ options) s h =
    set_with-Serves clock key val (set_options none options) h

pub cmd_get-IsSound : IsSound cmd_get
unfolding cmd_get arity
cmd_get-IsSound clock [] s h = (tt, h)
cmd_get-IsSound clock (name ∷ []) s h = (tt, h)
cmd_get-IsSound clock (name ∷ key ∷ []) s h =
    reply_of-Serves bulk_or_null (get_string clock key s) bulk_or_null-Answers
      (get_string-Keeps clock key h)
cmd_get-IsSound clock (name ∷ key ∷ x ∷ xs) s h = (tt, h)

expire_with-Serves :
    (clock : Clock) (key : Bytes) (n : Option ℤ) {s : Store}
    → IsValid s
    → Serves (expire_with clock key n s)
unfolding expire_with
expire_with-Serves clock key none h = (tt, h)
expire_with-Serves clock key (some seconds) {s} h =
    (integer-Answers (pos (expire clock key seconds s).0), expire-IsValid clock key seconds h)

pub cmd_expire-IsSound : IsSound cmd_expire
unfolding cmd_expire arity
cmd_expire-IsSound clock [] s h = (tt, h)
cmd_expire-IsSound clock (name ∷ []) s h = (tt, h)
cmd_expire-IsSound clock (name ∷ key ∷ []) s h = (tt, h)
cmd_expire-IsSound clock (name ∷ key ∷ n ∷ []) s h = expire_with-Serves clock key (int n) h
cmd_expire-IsSound clock (name ∷ key ∷ n ∷ x ∷ xs) s h = (tt, h)

pub cmd_ttl-IsSound : IsSound cmd_ttl
unfolding cmd_ttl arity
cmd_ttl-IsSound clock [] s h = (tt, h)
cmd_ttl-IsSound clock (name ∷ []) s h = (tt, h)
cmd_ttl-IsSound clock (name ∷ key ∷ []) s h =
    (integer-Answers (ttl clock key s).0, ttl-IsValid clock key h)
cmd_ttl-IsSound clock (name ∷ key ∷ x ∷ xs) s h = (tt, h)

pub cmd_lpush-IsSound : IsSound cmd_lpush
unfolding cmd_lpush arity
cmd_lpush-IsSound clock [] s h = (tt, h)
cmd_lpush-IsSound clock (name ∷ []) s h = (tt, h)
cmd_lpush-IsSound clock (name ∷ key ∷ []) s h = (tt, h)
cmd_lpush-IsSound clock (name ∷ key ∷ x ∷ xs) s h =
    reply_of-Serves (λ n. integer (pos n)) (lpush clock key (x ∷ xs) s)
      (λ n. integer-Answers (pos n)) (lpush-Keeps clock key h (x ∷ xs))

pub cmd_rpop-IsSound : IsSound cmd_rpop
unfolding cmd_rpop arity
cmd_rpop-IsSound clock [] s h = (tt, h)
cmd_rpop-IsSound clock (name ∷ []) s h = (tt, h)
cmd_rpop-IsSound clock (name ∷ key ∷ []) s h =
    reply_of-Serves bulk_or_null (rpop clock key s) bulk_or_null-Answers (rpop-Keeps clock key h)
cmd_rpop-IsSound clock (name ∷ key ∷ x ∷ xs) s h = (tt, h)

hset_pairs-Serves :
    (clock : Clock) (key : Bytes) (pairs : List Bytes) {s : Store}
    → IsValid s
    → Serves (hset_pairs clock key pairs s)
unfolding hset_pairs
hset_pairs-Serves clock key pairs {s} h =
    if_cases Serves (not (length pairs % 2 == 0)) (λ _. (tt, h))
      (λ _.
        reply_of-Serves (λ n. integer (pos n)) (hset clock key (pair_up pairs) s)
          (λ n. integer-Answers (pos n)) (hset-Keeps clock key h (pair_up pairs)))

pub cmd_hset-IsSound : IsSound cmd_hset
unfolding cmd_hset arity
cmd_hset-IsSound clock [] s h = (tt, h)
cmd_hset-IsSound clock (name ∷ []) s h = (tt, h)
cmd_hset-IsSound clock (name ∷ key ∷ pairs) s h =
    if_cases Serves
      (ltb (length (name ∷ key ∷ pairs)) 4 || not (length (name ∷ key ∷ pairs) % 2 == 0))
      (λ _. (tt, h)) (λ _. hset_pairs-Serves clock key pairs h)

pub cmd_hgetall-IsSound : IsSound cmd_hgetall
unfolding cmd_hgetall arity
cmd_hgetall-IsSound clock [] s h = (tt, h)
cmd_hgetall-IsSound clock (name ∷ []) s h = (tt, h)
cmd_hgetall-IsSound clock (name ∷ key ∷ []) s h =
    reply_of-Serves (λ items. array (bulks items)) (hgetall clock key s) bulks-Answers
      (hgetall-Keeps clock key h)
cmd_hgetall-IsSound clock (name ∷ key ∷ x ∷ xs) s h = (tt, h)

pub cmd_del-IsSound : IsSound cmd_del
unfolding cmd_del arity
cmd_del-IsSound clock [] s h = (tt, h)
cmd_del-IsSound clock (name ∷ []) s h = (tt, h)
cmd_del-IsSound clock (name ∷ key ∷ keys) s h =
    (integer-Answers (pos (delete clock (key ∷ keys) s).0), delete-IsValid clock (key ∷ keys) h)

pub cmd_dbsize-IsSound : IsSound cmd_dbsize
unfolding cmd_dbsize arity
cmd_dbsize-IsSound clock [] s h = (tt, h)
cmd_dbsize-IsSound clock (name ∷ []) s h =
    (integer-Answers (pos (dbsize clock s).0), dbsize-IsValid clock h)
cmd_dbsize-IsSound clock (name ∷ x ∷ xs) s h = (tt, h)
