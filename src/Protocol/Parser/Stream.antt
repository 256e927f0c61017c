-- ===== src/Protocol/Parser/Stream.antt =====
-- A stream of commands, such as the append-only file and the replication link hold: what
-- `encode_command` writes, `feed` reads back.
use byo_redis.Prelude.{
  ℕ, zero, suc, ◌≤◌, ◌<◌, ◌^◌, ◌≡◌, refl, ap, ◌∙◌, List, [], ◌∷◌, ◌++◌, arith, length, ok, map, All,
}
use byo_redis.Text.{Bytes}
use byo_redis.Text.Decimal.{FitsInt-word}
use byo_redis.Protocol.Object.{bulk, array, cons, count, bulks, command}
use byo_redis.Protocol.Encoder.{encode_value, encode_items, encode_command, encode_args}
use byo_redis.Protocol.Parser.{Limits, new_parser, done, try_parse, drain_all, feed}
use byo_redis.Protocol.Parser.Chunks.{try_parse-nil, drain_all-round}
use byo_redis.Protocol.Parser.Feed.{concat, keep, feed-keep}
use byo_redis.Protocol.Parser.RoundTrip.{
  FitsWire, FitsItems, wire, wire_items, try_parse-encode_value,
}

count-bulks : (argv : List Bytes) → count (bulks argv) ≡ length argv
count-bulks [] = refl
count-bulks (a ∷ as') = ap suc (count-bulks as')

encode_items-bulks : (argv : List Bytes) → encode_items (bulks argv) ≡ ok (encode_args argv)
unfolding encode_value encode_args
encode_items-bulks [] = refl
encode_items-bulks (a ∷ as') = rw (encode_items-bulks as')

-- `encode_command` writes what `encode_value` writes for the list of the arguments.
pub encode_value-command :
    (argv : List Bytes) → encode_value (command argv) ≡ ok (encode_command argv)
unfolding encode_value encode_command
encode_value-command argv = rw (encode_items-bulks argv, count-bulks argv)

wire_items-bulks : (argv : List Bytes) → wire_items (bulks argv) ≡ bulks argv
unfolding wire
wire_items-bulks [] = refl
wire_items-bulks (a ∷ as') = ap (cons (bulk a)) (wire_items-bulks as')

wire-command : (argv : List Bytes) → wire (command argv) ≡ command argv
unfolding wire
wire-command argv = ap array (wire_items-bulks argv)

-- The sizes of a command are within the limits of the parser.
abbrev pub FitsCommand : Limits → List Bytes → Type 0
FitsCommand l argv = (length argv ≤ l.max_array_len) × All (λ a. length a ≤ l.max_bulk_len) argv

-- Limits that admit arrays, and lengths that `int` reads.
pub record IsUsable (l : Limits) : Type 0 where
  pub bulk_len : l.max_bulk_len < 2 ^ 64
  pub array_len : l.max_array_len < 2 ^ 64
  pub depth : 0 < l.max_array_depth

module _ (l : Limits) (usable : IsUsable l) where
  FitsItems-bulks :
      (argv : List Bytes) (levels : ℕ)
      → All (λ a. length a ≤ l.max_bulk_len) argv
      → FitsItems l (bulks argv) levels
  FitsItems-bulks [] levels h = tt
  FitsItems-bulks (a ∷ as') levels h =
      let short : length a < 2 ^ 64 = omega (arith, usable.bulk_len, h.0) in
      ((h.0, FitsInt-word _ short), FitsItems-bulks as' levels h.1)

  FitsWire-command :
      (argv : List Bytes) (levels : ℕ)
      → 0 < levels
      → FitsCommand l argv
      → FitsWire l (command argv) levels
  FitsWire-command argv zero positive h = absurd (omega arith)
  FitsWire-command argv (suc levels) positive h =
      let short : length argv < 2 ^ 64 = omega (arith, usable.array_len, h.0) in
      (rw count-bulks h.0, rw count-bulks (FitsInt-word _ short), FitsItems-bulks argv levels h.1)

  pub try_parse-encode_command :
      (argv : List Bytes) (rest : Bytes)
      → FitsCommand l argv
      → try_parse l l.max_array_depth (encode_command argv ++ rest) ≡ done (command argv) rest
  try_parse-encode_command argv rest h =
      try_parse-encode_value l (command argv) (encode_command argv) rest
        (FitsWire-command argv l.max_array_depth usable.depth h) (encode_value-command argv)
      ∙ ap (λ x. done x rest) (wire-command argv)

  drain_all-commands :
      (cmds : List (List Bytes))
      → All (FitsCommand l) cmds
      → drain_all l (concat (map encode_command cmds)) ≡ ok (map command cmds, [])
  drain_all-commands [] h = rw (drain_all-round l [], try_parse-nil l l.max_array_depth)
  drain_all-commands (c ∷ cs) h = rw (
    drain_all-round l (concat (map encode_command (c ∷ cs))),
    try_parse-encode_command c (concat (map encode_command cs)) h.0,
    drain_all-commands cs h.1,
  )

-- A stream of encoded commands is read back as those commands, in order, and nothing is left in the
-- buffer, when the commands and the whole stream fit the limits of the parser.
pub feed-encode_command :
    (l : Limits) (cmds : List (List Bytes))
    → IsUsable l
    → All (FitsCommand l) cmds
    → length (concat (map encode_command cmds)) ≤ l.max_buffer_bytes
    → feed (new_parser l) (concat (map encode_command cmds)) ≡ ok (map command cmds, new_parser l)
feed-encode_command l cmds usable h fits =
    feed-keep (new_parser l) _ (omega arith)
    ∙ ap (keep (new_parser l)) (drain_all-commands l usable cmds h)
