-- ===== src/Storage/Expiry.antt =====
-- byo_redis/storage/expiry.py. Times are milliseconds since the epoch.
use byo_redis.Prelude.{
  ℕ, suc, ◌-◌, ◌/◌, Bool, false, Option, none, some, leb, if◌then◌else◌, ℤ, pos, negsuc,
}

-- The readings of `now_ms()` in an operation, in order: `clock 0` is the first.
abbrev pub Clock : Type 0
Clock = ℕ → ℕ

-- The readings behind the first.
abbrev pub tick : Clock → Clock
tick clock i = clock (suc i)

unfoldable pub is_expired : Option ℕ → ℕ → Bool
is_expired none now = false
is_expired (some at) now = leb at now

-- A remainder of at most 0 is -2; else whole seconds, rounded down.
unfoldable pub ttl_seconds : Option ℕ → ℕ → ℤ
ttl_seconds none now = negsuc 0
ttl_seconds (some at) now = if leb at now then negsuc 1 else pos ((at - now) / 1000)
