-- ===== src/Commands/Lists.antt =====
-- byo_redis/commands/list_cmds.py
use byo_redis.Prelude.{[], ◌∷◌, pos}
use byo_redis.Text.{codes}
use byo_redis.Protocol.Object.{integer}
use byo_redis.Storage.Values.{lpush, rpop}
use byo_redis.Commands.Base.{StoreHandler, reply_of, arity}
use byo_redis.Commands.Strings.{bulk_or_null}

unfoldable pub cmd_lpush : StoreHandler
unfolding reply_of arity
cmd_lpush clock (name ∷ key ∷ element ∷ elements) s =
    let (r, s') = lpush clock key (element ∷ elements) s in (reply_of (λ n. integer (pos n)) r, s')
cmd_lpush clock _ s = (arity (codes "lpush"), s)

unfoldable pub cmd_rpop : StoreHandler
unfolding reply_of arity
cmd_rpop clock (name ∷ key ∷ []) s = let (r, s') = rpop clock key s in (reply_of bulk_or_null r, s')
cmd_rpop clock _ s = (arity (codes "rpop"), s)
