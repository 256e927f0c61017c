-- ===== src/Persistence/Aof/Reads.antt =====
-- What the loader of aof.py reads from a log that `append` wrote: a whole one, and one that a crash
-- has cut off.
use byo_redis.Prelude.{
  ℕ, ◌+◌, ◌≤◌, ◌<◌, ◌^◌, ◌≡◌, refl, ap, sym, ◌∙◌, subst, true, false, some, List, [], ◌∷◌, ◌++◌,
  length, length-append, map, All, ok, raise, result_map, arith, append-nil, ltb, ◌==◌,
  append_assoc,
}
use byo_redis.Text.{Bytes}
use byo_redis.Protocol.Object.{Object, bulks, command}
use byo_redis.Protocol.Encoder.{encode_command, encode_args, encode_bulk, encode_bulk_string, crlf}
use byo_redis.Text.Decimal.{decimal_ℕ}
use byo_redis.Protocol.Parser.{
  Limits, RespParser, new_parser, Parsed, incomplete, done, fail, try_parse, round, drain_all, feed,
  buffer_exceeds,
}
use byo_redis.Protocol.Parser.Stable.{Stable, try_parse-Stable}
use byo_redis.Protocol.Parser.Chunks.{drain_all-round, resume, behind}
use byo_redis.Protocol.Parser.Feed.{concat, keep, feed-keep, feed-append}
use byo_redis.Protocol.Parser.Stream.{
  FitsCommand, IsUsable, try_parse-encode_command, feed-encode_command,
}
use byo_redis.Persistence.Aof.{
  AofLog, written, write_item, append, protocol, all_bulk, bulk_args, entry_args, entries_args,
  load_limits, loaded, read_commands,
}

-- A command with a name.
abbrev pub IsNamed : List Bytes → Type 0
IsNamed [] = ⊥
IsNamed (name ∷ args) = Unit

all_bulk-bulks : (argv : List Bytes) → all_bulk (bulks argv) ≡ true
unfolding all_bulk
all_bulk-bulks [] = refl
all_bulk-bulks (a ∷ argv) = all_bulk-bulks argv

bulk_args-bulks : (argv : List Bytes) → bulk_args (bulks argv) ≡ argv
unfolding bulk_args
bulk_args-bulks [] = refl
bulk_args-bulks (a ∷ argv) = ap (◌∷◌ a) (bulk_args-bulks argv)

entry_args-command : (argv : List Bytes) → IsNamed argv → entry_args (command argv) ≡ some argv
unfolding entry_args
entry_args-command [] h = absurd h
entry_args-command (a ∷ argv) h = rw (all_bulk-bulks (a ∷ argv), bulk_args-bulks (a ∷ argv)) refl

entries_args-command :
    (cmds : List (List Bytes)) → All IsNamed cmds → entries_args (map command cmds) ≡ cmds
unfolding entries_args
entries_args-command [] h = refl
entries_args-command (c ∷ cs) h =
    rw (entries_args, entry_args-command c h.0) (ap (◌∷◌ c) (entries_args-command cs h.1))

module _ (l : Limits) (usable : IsUsable l) where
  cut-incomplete :
      (n : ℕ) (c : List Bytes) (missing : Bytes) (p : Parsed Object)
      → 0 < length missing
      → Stable n missing p (done (command c) [])
      → p ≡ incomplete
  cut-incomplete n c missing incomplete h st = refl
  cut-incomplete n c missing (done v rest) h st =
      let left : [] ≡ rest ++ missing = cc (st.1) in
      absurd (omega (arith, length-append rest missing, ap length left))
  cut-incomplete n c missing (fail e) h st = absurd (cc st)

  -- A command that is cut off is not read.
  try_parse-cut :
      (c : List Bytes) (torn missing : Bytes)
      → FitsCommand l c
      → encode_command c ≡ torn ++ missing
      → 0 < length missing
      → try_parse l l.max_array_depth torn ≡ incomplete
  try_parse-cut c torn missing fits cut h =
      let whole : try_parse l l.max_array_depth (torn ++ missing) ≡ done (command c) [] =
        subst (λ s. try_parse l l.max_array_depth s ≡ done (command c) [])
          (append-nil (encode_command c) ∙ cut) (try_parse-encode_command l usable c [] fits) in
      cut-incomplete _ c missing (try_parse l l.max_array_depth torn) h
        (rw whole at (try_parse-Stable missing l l.max_array_depth torn))

  feed-cut :
      (c : List Bytes) (torn missing : Bytes)
      → FitsCommand l c
      → encode_command c ≡ torn ++ missing
      → 0 < length missing
      → length torn ≤ l.max_buffer_bytes
      → feed (new_parser l) torn ≡ ok ([], record { buf = torn; limits = l })
  feed-cut c torn missing fits cut h short =
      feed-keep (new_parser l) torn (omega arith)
      ∙ ap (keep (new_parser l)) (
          drain_all-round l torn
          ∙ ap (round torn (drain_all l)) (try_parse-cut c torn missing fits cut h))

-- The limits of the loader are usable when its one parameter is.
load_limits-IsUsable : (n : ℕ) → n < 2 ^ 64 → IsUsable (load_limits n)
load_limits-IsUsable n h = record { bulk_len = h; array_len = omega arith; depth = omega arith }

module _ (max_bulk_len max_file_bytes : ℕ) where
  read_commands-feed :
      (content : Bytes) (ms : List Object) (p : RespParser)
      → max_bulk_len < 2 ^ 64
      → length content ≤ max_file_bytes
      → feed (new_parser (load_limits max_bulk_len)) content ≡ ok (ms, p)
      → read_commands max_bulk_len max_file_bytes content ≡ ok (entries_args ms)
  unfolding read_commands loaded
  read_commands-feed [] ms p small fits fed =
      let l : Limits = load_limits max_bulk_len in
      let same : ok (ms, p) ≡ ok ([], new_parser l) =
        sym fed
        ∙ feed-encode_command l [] (load_limits-IsUsable max_bulk_len small) tt (omega arith) in
      let none_read : ms ≡ [] = cc same in rw none_read (unfold entries_args in refl)
  read_commands-feed (x ∷ xs) ms p small fits fed =
      let within : ltb max_file_bytes (length (x ∷ xs)) ≡ false = ground arith in
      let not_empty : (length (x ∷ xs) == 0) ≡ false = ground arith in
      rw (within, fed, not_empty) refl

  -- The commands of a whole log are read, in order, when the log is within the limits of the loader.
  pub read_commands-encode_command :
      (cmds : List (List Bytes))
      → max_bulk_len < 2 ^ 64
      → All (FitsCommand (load_limits max_bulk_len)) cmds
      → All IsNamed cmds
      → length (concat (map encode_command cmds)) ≤ 32_000_000
      → length (concat (map encode_command cmds)) ≤ max_file_bytes
      → read_commands max_bulk_len max_file_bytes (concat (map encode_command cmds)) ≡ ok cmds
  read_commands-encode_command cmds small fits named buffer file =
      let l : Limits = load_limits max_bulk_len in
      read_commands-feed (concat (map encode_command cmds)) _ _ small file
        (feed-encode_command l cmds (load_limits-IsUsable max_bulk_len small) fits buffer)
      ∙ ap ok (entries_args-command cmds named)

  -- A log that holds whole commands and, behind them, a command that is cut off reads as the whole
  -- commands, when each is named and fits the loader's limits, and the log too.
  pub read_commands-torn :
      (cmds : List (List Bytes)) (c : List Bytes) (torn missing : Bytes)
      → max_bulk_len < 2 ^ 64
      → All (FitsCommand (load_limits max_bulk_len)) cmds
      → All IsNamed cmds
      → FitsCommand (load_limits max_bulk_len) c
      → encode_command c ≡ torn ++ missing
      → 0 < length missing
      → length (concat (map encode_command cmds) ++ torn) ≤ 32_000_000
      → length (concat (map encode_command cmds) ++ torn) ≤ max_file_bytes
      → read_commands max_bulk_len max_file_bytes (concat (map encode_command cmds) ++ torn)
        ≡ ok cmds
  unfolding read_commands loaded
  read_commands-torn cmds c torn missing small fits named fits_c cut h buffer file =
      let l : Limits = load_limits max_bulk_len in
      let log : Bytes = concat (map encode_command cmds) in
      let usable : IsUsable l = load_limits-IsUsable max_bulk_len small in
      let size : length (log ++ torn) ≡ length log + length torn = length-append log torn in
      let fed : feed (new_parser l) (log ++ torn)
          ≡ ok (map command cmds ++ [], record { buf = torn; limits = l }) =
        feed-append (new_parser l) log torn (omega arith)
        ∙ ap (resume (λ q. feed q torn)) (feed-encode_command l cmds usable fits (omega arith))
        ∙ ap (result_map (behind (map command cmds)))
            (feed-cut l usable c torn missing fits_c cut h (omega arith)) in
      read_commands-feed (log ++ torn) _ _ small file fed
      ∙ ap ok (ap entries_args (append-nil (map command cmds)) ∙ entries_args-command cmds named)

  read_commands_too_big :
      (content : Bytes)
      → 32_000_000 < length content
      → length content ≤ max_file_bytes
      → read_commands max_bulk_len max_file_bytes content
        ≡ raise (protocol (buffer_exceeds 32_000_000))
  unfolding read_commands loaded feed
  read_commands_too_big content big fits = ground arith

-- The log after a run of appends, each of which the writer completes.
abbrev pub append_all : List (List Bytes) → AofLog → AofLog
append_all [] log = log
append_all (c ∷ cs) log = append_all cs (append written c log).1

-- A log that is enabled, open and healthy, on a file.
abbrev pub ready : Bytes → AofLog
ready content = record { enabled = true; opened = true; failed = false; file = content }

append_all-file :
    (cmds : List (List Bytes)) (content : Bytes)
    → (append_all cmds (ready content)).file ≡ content ++ concat (map encode_command cmds)
unfolding append write_item
append_all-file [] content = sym (append-nil content)
append_all-file (c ∷ cs) content =
    append_all-file cs (content ++ encode_command c) ∙ append_assoc content (encode_command c) _

-- What was appended to an empty log, each item written, is read back: the commands, in order, when
-- each is named and fits the loader's limits, and the log too.
pub read_commands-append_all :
    (max_bulk_len max_file_bytes : ℕ) (cmds : List (List Bytes))
    → max_bulk_len < 2 ^ 64
    → All (FitsCommand (load_limits max_bulk_len)) cmds
    → All IsNamed cmds
    → length (append_all cmds (ready [])).file ≤ 32_000_000
    → length (append_all cmds (ready [])).file ≤ max_file_bytes
    → read_commands max_bulk_len max_file_bytes (append_all cmds (ready [])).file ≡ ok cmds
read_commands-append_all max_bulk_len max_file_bytes cmds small fits named buffer file =
    let written_file : (append_all cmds (ready [])).file ≡ concat (map encode_command cmds) =
      append_all-file cmds [] in
    rw written_file (
      read_commands-encode_command max_bulk_len max_file_bytes cmds small fits named
        (rw written_file at buffer) (rw written_file at file))

length-encode_args : (argv : List Bytes) → length (concat argv) ≤ length (encode_args argv)
unfolding encode_args encode_bulk_string encode_bulk
length-encode_args [] = omega arith
length-encode_args (a ∷ argv) = omega (
  arith,
  length-encode_args argv,
  length-append a (concat argv),
  length-append (decimal_ℕ (length a) ++ crlf) (a ++ crlf),
  length-append a crlf,
  length-append (encode_bulk a) (encode_args argv),
)

-- A command takes at least the bytes of its arguments.
length-encode_command : (argv : List Bytes) → length (concat argv) ≤ length (encode_command argv)
unfolding encode_command
length-encode_command argv = omega (
  arith,
  length-encode_args argv,
  length-append (decimal_ℕ (length argv) ++ crlf) (encode_args argv),
)

length-encode_commands :
    (cmds : List (List Bytes))
    → length (concat (map concat cmds)) ≤ length (concat (map encode_command cmds))
length-encode_commands [] = omega arith
length-encode_commands (c ∷ cs) = omega (
  arith,
  length-encode_commands cs,
  length-encode_command c,
  length-append (concat c) (concat (map concat cs)),
  length-append (encode_command c) (concat (map encode_command cs)),
)

-- What was appended to an empty log, each item written, is refused as a whole when the arguments of its
-- commands, the names included, have more than 32,000,000 bytes together, though the log is within the
-- configured limit of a file.
pub read_commands-append_all_oversize :
    (max_bulk_len max_file_bytes : ℕ) (cmds : List (List Bytes))
    → 32_000_000 < length (concat (map concat cmds))
    → length (append_all cmds (ready [])).file ≤ max_file_bytes
    → read_commands max_bulk_len max_file_bytes (append_all cmds (ready [])).file
      ≡ raise (protocol (buffer_exceeds 32_000_000))
read_commands-append_all_oversize max_bulk_len max_file_bytes cmds big file =
    let written_file : (append_all cmds (ready [])).file ≡ concat (map encode_command cmds) =
      append_all-file cmds [] in
    rw written_file (
      read_commands_too_big max_bulk_len max_file_bytes (concat (map encode_command cmds))
        (omega (arith, big, length-encode_commands cmds)) (rw written_file at file))
