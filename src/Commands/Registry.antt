-- ===== src/Commands/Registry.antt =====
-- byo_redis/commands/registry.py: the table of the commands.
use byo_redis.Prelude.{Option, List, [], ◌∷◌}
use byo_redis.Text.{Bytes, codes, upper}
use byo_redis.Dict
use byo_redis.Dict.{Dict, bytes_eq}
use byo_redis.Commands.Base.{Reply, StoreHandler}
use byo_redis.Commands.Strings.{cmd_set, cmd_get, cmd_expire, cmd_ttl}
use byo_redis.Commands.Lists.{cmd_lpush, cmd_rpop}
use byo_redis.Commands.Hashes.{cmd_hset, cmd_hgetall}
use byo_redis.Commands.Keys.{cmd_del, cmd_dbsize}
use byo_redis.Commands.Connection.{cmd_ping, cmd_echo, cmd_select, cmd_command, cmd_replconf}

-- The handlers that work on the server: those of server_cmds.py but DEL and DBSIZE, and PSYNC.
pub data Admin : Type 0 where
  info save bgsave bgrewriteaof config psync : Admin

-- A handler, by what it works on.
pub data Handler : Type 0 where
  plain : (List Bytes → Reply) → Handler
  on_store : StoreHandler → Handler
  auth : Handler
  admin : Admin → Handler

unfoldable pub default_registry : Dict Bytes Handler
unfolding cmd_set cmd_get cmd_expire cmd_ttl cmd_lpush cmd_rpop cmd_hset cmd_hgetall cmd_del
    cmd_dbsize cmd_ping cmd_echo cmd_select cmd_command cmd_replconf
default_registry =
    (codes "PING", plain cmd_ping)
    ∷ (codes "ECHO", plain cmd_echo)
    ∷ (codes "SELECT", plain cmd_select)
    ∷ (codes "COMMAND", plain cmd_command)
    ∷ (codes "AUTH", auth)
    ∷ (codes "SET", on_store cmd_set)
    ∷ (codes "GET", on_store cmd_get)
    ∷ (codes "EXPIRE", on_store cmd_expire)
    ∷ (codes "TTL", on_store cmd_ttl)
    ∷ (codes "LPUSH", on_store cmd_lpush)
    ∷ (codes "RPOP", on_store cmd_rpop)
    ∷ (codes "HSET", on_store cmd_hset)
    ∷ (codes "HGETALL", on_store cmd_hgetall)
    ∷ (codes "INFO", admin info)
    ∷ (codes "SAVE", admin save)
    ∷ (codes "BGSAVE", admin bgsave)
    ∷ (codes "BGREWRITEAOF", admin bgrewriteaof)
    ∷ (codes "CONFIG", admin config)
    ∷ (codes "DEL", on_store cmd_del)
    ∷ (codes "DBSIZE", on_store cmd_dbsize)
    ∷ (codes "REPLCONF", plain cmd_replconf)
    ∷ (codes "PSYNC", admin psync)
    ∷ []

-- CommandRegistry.get
unfoldable pub find_handler : Bytes → Option Handler
unfolding default_registry
find_handler name = Dict.get default_registry (upper name)
