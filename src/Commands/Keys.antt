-- ===== src/Commands/Keys.antt =====
-- byo_redis/commands/server_cmds.py: DEL and DBSIZE.
use byo_redis.Prelude.{[], ◌∷◌, pos}
use byo_redis.Text.{codes}
use byo_redis.Protocol.Object.{integer}
use byo_redis.Storage.Store.{delete}
use byo_redis.Storage.Sweep.{dbsize}
use byo_redis.Commands.Base.{value, StoreHandler, arity}

unfoldable pub cmd_del : StoreHandler
unfolding arity
cmd_del clock (name ∷ key ∷ keys) s =
    let (n, s') = delete clock (key ∷ keys) s in (value (integer (pos n)), s')
cmd_del clock _ s = (arity (codes "del"), s)

unfoldable pub cmd_dbsize : StoreHandler
unfolding arity
cmd_dbsize clock (name ∷ []) s = let (n, s') = dbsize clock s in (value (integer (pos n)), s')
cmd_dbsize clock _ s = (arity (codes "dbsize"), s)
