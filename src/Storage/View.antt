-- ===== src/Storage/View.antt =====
-- What a client can see of a `Store` at a time: the entries that have not expired.
use byo_redis.Prelude.{ℕ, Option, none, some, if◌then◌else◌}
use byo_redis.Text.{Bytes}
use byo_redis.Dict
use byo_redis.Dict.{bytes_eq}
use byo_redis.Storage.Types.{KeyEntry}
use byo_redis.Storage.Expiry.{is_expired}
use byo_redis.Storage.Store.{Store}

abbrev pub live : ℕ → Option KeyEntry → Option KeyEntry
live now none = none
live now (some e) = if is_expired e.expire_at_ms now then none else some e

abbrev pub view : ℕ → Store → Bytes → Option KeyEntry
view now s k = live now (Dict.get s.entries k)
