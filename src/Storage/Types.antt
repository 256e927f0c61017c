-- ===== src/Storage/Types.antt =====
-- byo_redis/storage/types.py
use byo_redis.Prelude.{ℕ, Bool, true, false, Option, List}
use byo_redis.Text.{Bytes}
use byo_redis.Dict.{Dict}

pub data RedisType : Type 0 where
  string list hash : RedisType

-- The class of the Python object that holds a value. The left end of a deque is the head of its list.
pub data RedisValue : Type 0 where
  bytes : Bytes → RedisValue
  deque : List Bytes → RedisValue
  dict : Dict Bytes Bytes → RedisValue

pub record KeyEntry : Type 0 where
  pub type : RedisType
  pub value : RedisValue
  pub expire_at_ms : Option ℕ

-- a.type is b
unfoldable pub is_type : RedisType → RedisType → Bool
is_type string string = true
is_type list list = true
is_type hash hash = true
is_type _ _ = false

-- A copy of a value; values are immutable here, so that sharing cannot be seen.
unfoldable pub copy_value : RedisValue → RedisValue
copy_value (deque items) = deque items
copy_value (dict mapping) = dict mapping
copy_value (bytes b) = bytes b

unfoldable pub copy : KeyEntry → KeyEntry
unfolding copy_value
copy e = record { type = e.type; value = copy_value e.value; expire_at_ms = e.expire_at_ms }
