-- ===== src/Protocol/Object.antt =====
-- The Python values that cross the protocol layer: what the parser yields, and what a command
-- returns to be encoded.
use byo_redis.Prelude.{ℕ, suc, Bool, List, [], ◌∷◌, ℤ}
use byo_redis.Text.{Bytes, Str}

mutual
  pub data Object : Type 0 where
    -- None
    null : Object
    boolean : Bool → Object
    integer : ℤ → Object
    -- bytes, bytearray
    bulk : Bytes → Object
    -- str
    text : Str → Object
    array : Objects → Object
    -- protocol/parser.py, ProtocolErrorMsg: it has neither `to_resp` nor `resp`
    error_msg : Str → Object
    -- commands/connection_cmds.py, _Simple
    simple : Str → Object
    -- commands/base.py, RespError
    resp_error : Str → Object

  -- A list of objects.
  pub data Objects : Type 0 where
    nil : Objects
    cons : Object → Objects → Objects

-- len(items)
abbrev pub count : Objects → ℕ
count nil = 0
count (cons x xs) = suc (count xs)

-- A list of `bytes` as a list of objects.
abbrev pub bulks : List Bytes → Objects
bulks [] = nil
bulks (b ∷ bs) = cons (bulk b) (bulks bs)

-- A message that holds an argument vector.
abbrev pub command : List Bytes → Object
command argv = array (bulks argv)
