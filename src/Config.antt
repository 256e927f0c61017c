-- ===== src/Config.antt =====
-- byo_redis/config.py: the validation of the parsed command line. Whole numbers are ℤ, as argparse
-- yields them; a float is exact; the directory is resolved already.
use byo_redis.Prelude.{
  ℕ, ◌≤◌, ◌≡◌, ◌≢◌, refl, All, leb→le, Bool, true, false, Option, none, some, List, [], ◌∷◌, leb, ℤ,
  pos, negsuc, Result, ok, raise,
}
use byo_redis.Text.{Str}
use byo_redis.Storage.Store.{Policy}

-- z >= n
abbrev pub at_least : ℕ → ℤ → Bool
at_least n (pos m) = leb n m
at_least n (negsuc m) = false

-- A whole number that is at least `lo`.
abbrev pub IsAtLeast : ℕ → ℤ → Type 0
IsAtLeast lo z = (n : ℕ) × (z ≡ pos n) × (lo ≤ n)

-- A float of seconds. Every finite float is a whole number of times 2 ^ -1074, and stands by it.
pub data Seconds : Type 0 where
  finite : ℤ → Seconds
  infinite minus_infinite nan : Seconds

-- not z <= 0
abbrev pub not_nonpositive : Seconds → Bool
not_nonpositive (finite z) = at_least 1 z
not_nonpositive infinite = true
not_nonpositive minus_infinite = false
not_nonpositive nan = true

-- A timeout that is not positive only if it is no number.
abbrev pub IsTimeout : Seconds → Type 0
IsTimeout (finite z) = IsAtLeast 1 z
IsTimeout infinite = Unit
IsTimeout minus_infinite = ⊥
IsTimeout nan = Unit

-- The fields of `Config`; `replicaof` is the pair of the host and the port.
pub record Config : Type 0 where
  pub host : Str
  pub port : ℤ
  pub dir : Str
  pub dbfilename : Str
  pub aof_enabled : Bool
  pub aof_filename : Str
  pub aof_fsync : Str
  pub is_replica : Bool
  pub replicaof : Option (Str × ℤ)
  pub log_level : Str
  pub rdb_save_seconds : ℤ
  pub proto_max_bulk_len : ℤ
  pub proto_max_array_len : ℤ
  pub max_array_depth : ℤ
  pub max_buffer_bytes : ℤ
  pub partial_timeout : Seconds
  pub client_idle_timeout : Seconds
  pub max_clients : ℤ
  pub max_auth_failures : ℤ
  pub aof_queue_max_commands : ℤ
  pub aof_enqueue_timeout : Seconds
  pub replica_backlog_max_bytes : ℤ
  pub replica_pending_max_commands : ℤ
  pub persistence_max_load_bytes : ℤ
  pub maxmemory_bytes : ℤ
  pub maxmemory_policy : Policy
  pub requirepass : Option Str
  pub masterauth : Option Str
  pub allow_unprotected_non_loopback : Bool

-- The messages of `parser.error`, by the option that is out of range.
pub data ArgError : Type 0 where
  bad_port bad_bulk_len bad_array_len bad_depth bad_save bad_buffer bad_partial bad_idle : ArgError
  bad_clients bad_auth_failures bad_queue bad_enqueue bad_backlog bad_pending bad_load : ArgError
  bad_maxmemory empty_requirepass empty_masterauth : ArgError

-- z <= n
abbrev pub at_most : ℕ → ℤ → Bool
at_most n (pos m) = leb m n
at_most n (negsuc m) = true

abbrev pub not_empty : Option Str → Bool
not_empty none = true
not_empty (some []) = false
not_empty (some (c ∷ s)) = true

abbrev pub is_given {ℓ} : {A : Type ℓ} → Option A → Bool
is_given none = false
is_given (some a) = true

-- The tests in their order, each with the error that it reports.
abbrev pub checks : Config → List (Bool × ArgError)
checks args =
    (at_least 1 args.port, bad_port)
    ∷ (at_most 65535 args.port, bad_port)
    ∷ (at_least 1024 args.proto_max_bulk_len, bad_bulk_len)
    ∷ (at_least 1 args.proto_max_array_len, bad_array_len)
    ∷ (at_least 1 args.max_array_depth, bad_depth)
    ∷ (at_least 0 args.rdb_save_seconds, bad_save)
    ∷ (at_least 1024 args.max_buffer_bytes, bad_buffer)
    ∷ (not_nonpositive args.partial_timeout, bad_partial)
    ∷ (not_nonpositive args.client_idle_timeout, bad_idle)
    ∷ (at_least 1 args.max_clients, bad_clients)
    ∷ (at_least 1 args.max_auth_failures, bad_auth_failures)
    ∷ (at_least 1 args.aof_queue_max_commands, bad_queue)
    ∷ (not_nonpositive args.aof_enqueue_timeout, bad_enqueue)
    ∷ (at_least 1024 args.replica_backlog_max_bytes, bad_backlog)
    ∷ (at_least 1 args.replica_pending_max_commands, bad_pending)
    ∷ (at_least 1024 args.persistence_max_load_bytes, bad_load)
    ∷ (at_least 0 args.maxmemory_bytes, bad_maxmemory)
    ∷ (not_empty args.requirepass, empty_requirepass)
    ∷ (not_empty args.masterauth, empty_masterauth)
    ∷ []

-- `if not …: parser.error(…)`, one after the other
unfoldable pub validate : List (Bool × ArgError) → Config → Result ArgError Config
validate [] config = ok config
validate ((true, e) ∷ rest) config = validate rest config
validate ((false, e) ∷ rest) config = raise e

-- `config_from_args`, behind `parse_args`; `args` holds the parsed options, its role unset.
unfoldable pub config_from_args : Config → Result ArgError Config
unfolding validate
config_from_args args =
    validate (checks args) (record args { is_replica = is_given args.replicaof })

validate-All :
    (cs : List (Bool × ArgError)) (config c : Config)
    → validate cs config ≡ ok c
    → All (λ (p : Bool × ArgError). p.0 ≡ true) cs × (c ≡ config)
unfolding validate
validate-All [] config c h = let same : c ≡ config = cc h in (tt, same)
validate-All ((true, e) ∷ rest) config c h =
    let more = validate-All rest config c h in ((refl, more.0), more.1)
validate-All ((false, e) ∷ rest) config c h = absurd (cc h)

not_empty-ne : (o : Option Str) → not_empty o ≡ true → o ≢ some []
not_empty-ne none h e = absurd (cc e)
not_empty-ne (some []) h e = absurd (cc h)
not_empty-ne (some (c ∷ s)) h e = absurd (cc e)

at_least-IsAtLeast : (lo : ℕ) (z : ℤ) → at_least lo z ≡ true → IsAtLeast lo z
at_least-IsAtLeast lo (pos n) h = (n, refl, leb→le lo n h)
at_least-IsAtLeast lo (negsuc n) h = absurd (cc h)

not_nonpositive-IsTimeout : (t : Seconds) → not_nonpositive t ≡ true → IsTimeout t
not_nonpositive-IsTimeout (finite z) h = at_least-IsAtLeast 1 z h
not_nonpositive-IsTimeout infinite h = tt
not_nonpositive-IsTimeout minus_infinite h = absurd (cc h)
not_nonpositive-IsTimeout nan h = tt

-- A whole number between two others.
abbrev pub IsBetween : ℕ → ℕ → ℤ → Type 0
IsBetween lo hi z = (n : ℕ) × (z ≡ pos n) × (lo ≤ n) × (n ≤ hi)

IsBetween-of_tests :
    (lo hi : ℕ) (z : ℤ) → at_least lo z ≡ true → at_most hi z ≡ true → IsBetween lo hi z
IsBetween-of_tests lo hi (pos n) h k = (n, refl, leb→le lo n h, leb→le n hi k)
IsBetween-of_tests lo hi (negsuc n) h k = absurd (cc h)

-- A configuration that `config_from_args` accepts has a port between 1 and 65535, positive limits of
-- the parser, of the connections and of the queues, buffers, a backlog and a load limit of at least
-- 1024 bytes, no negative interval or memory limit, timeouts that are positive or not a number, and
-- neither password empty; it is a replica's exactly when a master was given.
pub config_from_args-IsSound :
    (args c : Config)
    → config_from_args args ≡ ok c
    → IsBetween 1 65535 c.port
      × IsAtLeast 1024 c.proto_max_bulk_len
      × IsAtLeast 1 c.proto_max_array_len
      × IsAtLeast 1 c.max_array_depth
      × IsAtLeast 0 c.rdb_save_seconds
      × IsAtLeast 1024 c.max_buffer_bytes
      × IsTimeout c.partial_timeout
      × IsTimeout c.client_idle_timeout
      × IsAtLeast 1 c.max_clients
      × IsAtLeast 1 c.max_auth_failures
      × IsAtLeast 1 c.aof_queue_max_commands
      × IsTimeout c.aof_enqueue_timeout
      × IsAtLeast 1024 c.replica_backlog_max_bytes
      × IsAtLeast 1 c.replica_pending_max_commands
      × IsAtLeast 1024 c.persistence_max_load_bytes
      × IsAtLeast 0 c.maxmemory_bytes
      × (c.requirepass ≢ some [])
      × (c.masterauth ≢ some [])
      × (c.is_replica ≡ is_given c.replicaof)
unfolding config_from_args
config_from_args-IsSound args c h =
    let (ch, same) =
      validate-All (checks args) (record args { is_replica = is_given args.replicaof }) c h in
    rw same (
      IsBetween-of_tests 1 65535 args.port ch.0 ch.1.0,
      at_least-IsAtLeast 1024 args.proto_max_bulk_len ch.1.1.0,
      at_least-IsAtLeast 1 args.proto_max_array_len ch.1.1.1.0,
      at_least-IsAtLeast 1 args.max_array_depth ch.1.1.1.1.0,
      at_least-IsAtLeast 0 args.rdb_save_seconds ch.1.1.1.1.1.0,
      at_least-IsAtLeast 1024 args.max_buffer_bytes ch.1.1.1.1.1.1.0,
      not_nonpositive-IsTimeout args.partial_timeout ch.1.1.1.1.1.1.1.0,
      not_nonpositive-IsTimeout args.client_idle_timeout ch.1.1.1.1.1.1.1.1.0,
      at_least-IsAtLeast 1 args.max_clients ch.1.1.1.1.1.1.1.1.1.0,
      at_least-IsAtLeast 1 args.max_auth_failures ch.1.1.1.1.1.1.1.1.1.1.0,
      at_least-IsAtLeast 1 args.aof_queue_max_commands ch.1.1.1.1.1.1.1.1.1.1.1.0,
      not_nonpositive-IsTimeout args.aof_enqueue_timeout ch.1.1.1.1.1.1.1.1.1.1.1.1.0,
      at_least-IsAtLeast 1024 args.replica_backlog_max_bytes ch.1.1.1.1.1.1.1.1.1.1.1.1.1.0,
      at_least-IsAtLeast 1 args.replica_pending_max_commands ch.1.1.1.1.1.1.1.1.1.1.1.1.1.1.0,
      at_least-IsAtLeast 1024 args.persistence_max_load_bytes ch.1.1.1.1.1.1.1.1.1.1.1.1.1.1.1.0,
      at_least-IsAtLeast 0 args.maxmemory_bytes ch.1.1.1.1.1.1.1.1.1.1.1.1.1.1.1.1.0,
      not_empty-ne args.requirepass ch.1.1.1.1.1.1.1.1.1.1.1.1.1.1.1.1.1.0,
      not_empty-ne args.masterauth ch.1.1.1.1.1.1.1.1.1.1.1.1.1.1.1.1.1.1.0,
      refl,
    )
