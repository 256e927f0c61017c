-- ===== src/Commands/Hashes.antt =====
-- byo_redis/commands/hash_cmds.py
use byo_redis.Prelude.{◌%◌, not, ◌||◌, List, [], ◌∷◌, ltb, ◌==◌, if◌then◌else◌, length, pos}
use byo_redis.Text.{Bytes, codes}
use byo_redis.Protocol.Object.{integer, array, bulks}
use byo_redis.Storage.Values.{hset, hgetall}
use byo_redis.Storage.Store.{Store}
use byo_redis.Storage.Expiry.{Clock}
use byo_redis.Commands.Base.{Reply, error, StoreHandler, reply_of, arity, wrong_arity}

-- (pairs[i], pairs[i + 1]) for each even i
unfoldable pub pair_up : List Bytes → List (Bytes × Bytes)
pair_up (field ∷ value ∷ rest) = (field, value) ∷ pair_up rest
pair_up _ = []

unfoldable pub hset_pairs : Clock → Bytes → List Bytes → Store → Reply × Store
unfolding pair_up reply_of wrong_arity
hset_pairs clock key pairs s =
    if not (length pairs % 2 == 0)
    then (error (wrong_arity (codes "hset")), s)
    else (let (r, s') = hset clock key (pair_up pairs) s in (reply_of (λ n. integer (pos n)) r, s'))

unfoldable pub cmd_hset : StoreHandler
unfolding hset_pairs arity
cmd_hset clock (name ∷ key ∷ pairs) s =
    let argc = length (name ∷ key ∷ pairs) in
    if ltb argc 4 || not (argc % 2 == 0)
    then (arity (codes "hset"), s)
    else hset_pairs clock key pairs s
cmd_hset clock _ s = (arity (codes "hset"), s)

unfoldable pub cmd_hgetall : StoreHandler
unfolding reply_of arity
cmd_hgetall clock (name ∷ key ∷ []) s =
    let (r, s') = hgetall clock key s in (reply_of (λ items. array (bulks items)) r, s')
cmd_hgetall clock _ s = (arity (codes "hgetall"), s)
