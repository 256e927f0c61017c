-- ===== src/Commands/Connection.antt =====
-- byo_redis/commands/connection_cmds.py and repl_cmds.py: the commands that change nothing.
use byo_redis.Prelude.{Option, none, some, List, [], ◌∷◌, ◌==◌, if◌then◌else◌, ℤ, pos, negsuc}
use byo_redis.Text.{Bytes, codes}
use byo_redis.Text.Decimal.{int}
use byo_redis.Protocol.Object.{bulk, array, nil, simple}
use byo_redis.Commands.Base.{Reply, value, error, arity}

unfoldable pub cmd_ping : List Bytes → Reply
unfolding arity
cmd_ping (name ∷ []) = value (simple (codes "PONG"))
cmd_ping (name ∷ message ∷ []) = value (bulk message)
cmd_ping _ = arity (codes "ping")

unfoldable pub cmd_echo : List Bytes → Reply
unfolding arity
cmd_echo (name ∷ message ∷ []) = value (bulk message)
cmd_echo _ = arity (codes "echo")

unfoldable pub select_index : Option ℤ → Reply
select_index none = error (codes "ERR invalid DB index")
select_index (some (pos n)) =
    if n == 0 then value (simple (codes "OK")) else error (codes "ERR DB index is out of range")
select_index (some (negsuc n)) = error (codes "ERR DB index is out of range")

unfoldable pub cmd_select : List Bytes → Reply
unfolding select_index arity
cmd_select (name ∷ index ∷ []) = select_index (int index)
cmd_select _ = arity (codes "select")

unfoldable pub cmd_command : List Bytes → Reply
cmd_command argv = value (array nil)

unfoldable pub cmd_replconf : List Bytes → Reply
unfolding arity
cmd_replconf (name ∷ option ∷ options) = value (simple (codes "OK"))
cmd_replconf _ = arity (codes "replconf")
