-- ===== src/Replication/Replica/Stream.antt =====
-- replica.py, `_read_loop` and `_apply_messages`: what the replica applies of the stream of commands.
use byo_redis.Prelude.{
  ℕ, ◌+◌, ◌≤◌, ◌<◌, ◌≡◌, refl, sym, ap, ◌∙◌, List, [], ◌∷◌, ◌++◌, arith, length, Result, ok, raise,
  map, All, All-split, length-append, append_assoc, subst, some,
}
use byo_redis.Text.{Bytes}
use byo_redis.Protocol.Object.{command, bulks}
use byo_redis.Protocol.Encoder.{encode_command}
use byo_redis.Protocol.Parser.{Limits, RespParser, new_parser, feed}
use byo_redis.Protocol.Parser.Chunks.{drain_all-round, try_parse-nil}
use byo_redis.Protocol.Parser.Feed.{concat, feed-keep}
use byo_redis.Protocol.Parser.Stream.{FitsCommand, IsUsable}
use byo_redis.Protocol.Parser.Prefix.{IsShort, Reads, reads}
use byo_redis.Replication.Replica.{
  ReplicaError, closed_stream, element, elements, message_argv, Applied, applied, apply_messages,
  fed, follow, read_loop,
}

-- The size of a read
abbrev pub read_size : ℕ
read_size = 65536

abbrev pub IsChunk : Bytes → Type 0
IsChunk c = (0 < length c) × (length c ≤ read_size)

-- A command that has a name, that fits the limits, and that can be buffered.
abbrev pub IsApplicable : Limits → List Bytes → Type 0
IsApplicable l argv =
    FitsCommand l argv
    × (0 < length argv)
    × (length (encode_command argv) + read_size ≤ l.max_buffer_bytes)

elements-bulks : (argv : List Bytes) → elements (bulks argv) ≡ ok argv
unfolding elements element
elements-bulks [] = refl
elements-bulks (a ∷ as') = rw (elements-bulks as') refl

message_argv-command :
    (argv : List Bytes) → 0 < length argv → message_argv (command argv) ≡ ok (some argv)
unfolding message_argv
message_argv-command [] h = absurd (omega arith)
message_argv-command (a ∷ as') h = rw (elements-bulks (a ∷ as')) refl

FitsCommand-of_IsApplicable :
    (l : Limits) (cmds : List (List Bytes)) → All (IsApplicable l) cmds → All (FitsCommand l) cmds
FitsCommand-of_IsApplicable l [] h = tt
FitsCommand-of_IsApplicable l (c ∷ cs) h = (h.0.0, FitsCommand-of_IsApplicable l cs h.1)

feed-nothing : (l : Limits) → feed (new_parser l) [] ≡ ok ([], new_parser l)
feed-nothing l =
    rw
      (
        feed-keep (new_parser l) [] (omega arith),
        drain_all-round l [],
        try_parse-nil l l.max_array_depth,
      )
      refl

encode_command-length : (c : List Bytes) → 0 < length (encode_command c)
unfolding encode_command
encode_command-length c = omega arith

start-IsShort : (l : Limits) (cmds : List (List Bytes)) → IsShort l cmds []
start-IsShort l [] = refl
start-IsShort l (c ∷ cs) = encode_command-length c

module _ {S : Type 0} (apply_command : List Bytes → S → Result ReplicaError (Unit {0}) × S) where
  -- One command after another, up to the first that raises.
  abbrev pub apply_all : List (List Bytes) → S → Applied apply_command
  apply_all [] s = (ok tt, s)
  apply_all (argv ∷ more) s = applied apply_command (apply_command argv s) (apply_all more)

  -- The end of the stream is an exception too.
  abbrev pub closed : S → Applied apply_command
  closed s = (raise closed_stream, s)

  applied_assoc :
      (r : Applied apply_command) (f g : S → Applied apply_command)
      → applied apply_command (applied apply_command r f) g
        ≡ applied apply_command r (λ s. applied apply_command (f s) g)
  applied_assoc (ok _, s) f g = refl
  applied_assoc (raise e, s) f g = refl

  applied-congr :
      (r : Applied apply_command) (f g : S → Applied apply_command)
      → ((s : S) → f s ≡ g s)
      → applied apply_command r f ≡ applied apply_command r g
  applied-congr (ok _, s) f g h = h s
  applied-congr (raise e, s) f g h = refl

  apply_messages-commands :
      (l : Limits) (cmds : List (List Bytes)) (s : S)
      → All (IsApplicable l) cmds
      → apply_messages apply_command (map command cmds) s ≡ apply_all cmds s
  unfolding apply_messages
  apply_messages-commands l [] s h = refl
  apply_messages-commands l (argv ∷ more) s h =
      rw (message_argv-command argv (h.0.1))
        (applied-congr (apply_command argv s) _ _ (λ s'. apply_messages-commands l more s' h.1))

  apply_all-append :
      (a b : List (List Bytes)) (s : S)
      → apply_all (a ++ b) s ≡ applied apply_command (apply_all a s) (apply_all b)
  apply_all-append [] b s = refl
  apply_all-append (argv ∷ a) b s =
      applied-congr (apply_command argv s) _ _ (apply_all-append a b)
      ∙ sym (applied_assoc (apply_command argv s) (apply_all a) (apply_all b))

  module _ (l : Limits) (usable : IsUsable l) where
    nothing_held :
        (cmds : List (List Bytes)) (buf : Bytes)
        → IsShort l cmds buf
        → buf ++ [] ≡ concat (map encode_command cmds)
        → cmds ≡ []
    nothing_held [] buf h e = refl
    nothing_held (c ∷ cs) buf h e = absurd (
        omega (
          arith,
          h,
          ap length e,
          length-append buf [],
          length-append (encode_command c) (concat (map encode_command cs)),
        ))

    chunk_fits :
        (c : List Bytes) (cs : List (List Bytes)) (buf chunk : Bytes)
        → IsShort l (c ∷ cs) buf
        → IsApplicable l c
        → length chunk ≤ read_size
        → length buf + length chunk ≤ l.max_buffer_bytes
    chunk_fits c cs buf chunk short fits small = omega (arith, short, fits.2, small)

    module _ (next : RespParser → S → Applied apply_command) where
      -- A chunk of the stream: what it completes is applied, and `next` goes on behind it.
      fed-Reads :
          (cmds : List (List Bytes)) (p : RespParser) (chunk t : Bytes) (s : S)
          (r : Reads l cmds (p.buf ++ chunk) t)
          → p.limits ≡ l
          → length p.buf + length chunk ≤ l.max_buffer_bytes
          → All (IsApplicable l) cmds
          → fed apply_command (feed p chunk) next s
            ≡ applied apply_command (apply_all r.before s) (next (record p { buf = r.left }))
      fed-Reads cmds p chunk t s r limits fits applicable =
          let named =
            (All-split (IsApplicable l) r.before r.after
              (subst (All (IsApplicable l)) r.split applicable)).0 in
          rw
            (
              feed-keep p chunk (rw limits fits),
              limits,
              r.read,
              apply_messages-commands l r.before s named,
            )
            refl

    pub follow-commands :
        (cmds : List (List Bytes)) (p : RespParser) (cs : List Bytes) (s : S)
        → p.limits ≡ l
        → p.buf ++ concat cs ≡ concat (map encode_command cmds)
        → IsShort l cmds p.buf
        → All (IsApplicable l) cmds
        → All IsChunk cs
        → follow apply_command p cs s ≡ applied apply_command (apply_all cmds s) closed
    unfolding follow
    follow-commands cmds p [] s limits stream short fits chunks =
        rw (nothing_held cmds p.buf short stream) refl
    follow-commands cmds p ([] ∷ cs) s limits stream short fits chunks =
        absurd (omega (arith, chunks.0.0))
    follow-commands [] p ((b ∷ bs) ∷ cs) s limits stream short fits chunks =
        absurd (omega (arith, ap length stream, length-append p.buf (concat ((b ∷ bs) ∷ cs))))
    follow-commands (c ∷ more) p ((b ∷ bs) ∷ cs) s limits stream short fits chunks =
        let r : Reads l (c ∷ more) (p.buf ++ b ∷ bs) (concat cs) =
          reads l usable (c ∷ more) (p.buf ++ b ∷ bs) (concat cs)
            (FitsCommand-of_IsApplicable l (c ∷ more) fits) (rw append_assoc stream) in
        let split =
          All-split (IsApplicable l) r.before r.after (subst (All (IsApplicable l)) r.split fits) in
        fed-Reads (λ q. follow apply_command q cs) (c ∷ more) p (b ∷ bs) (concat cs) s r limits
          (chunk_fits c more p.buf (b ∷ bs) short fits.0 chunks.0.1) fits
        ∙ applied-congr (apply_all r.before s) _ _ (λ s'.
          follow-commands r.after (record p { buf = r.left }) cs s' limits r.rest r.short split.1
            chunks.1)
        ∙ sym (applied_assoc (apply_all r.before s) (apply_all r.after) closed)
        ∙ ap (λ a. applied apply_command a closed) (sym (apply_all-append r.before r.after s))
        ∙ ap (λ a. applied apply_command (apply_all a s) closed) (sym r.split)

  -- However the stream of commands is cut into chunks of at most 65,536 bytes, and however long it is,
  -- the replica applies its commands, all of them, in order and once each, up to the first that raises,
  -- when each has a name and fits the limits of the parser, with room for a chunk in its buffer.
  pub read_loop-encode_command :
      (l : Limits) (cmds : List (List Bytes)) (cs : List Bytes) (s : S)
      → IsUsable l
      → All (IsApplicable l) cmds
      → All IsChunk cs
      → concat cs ≡ concat (map encode_command cmds)
      → read_loop apply_command (new_parser l) cs s
        ≡ applied apply_command (apply_all cmds s) closed
  unfolding read_loop
  read_loop-encode_command l cmds cs s usable fits chunks stream = rw (feed-nothing l) (
      follow-commands l usable cmds (new_parser l) cs s refl stream (start-IsShort l cmds) fits
        chunks)
