-- ===== src/Tests/Logs.antt =====
-- The theorems on the writer of the log at concrete inputs.
use byo_redis.Prelude.{ℕ, refl, List, [], ◌∷◌, map, false, arith}
use byo_redis.Text.{Bytes, codes}
use byo_redis.Persistence.Aof.Writer.{
  always, AofItem, idle, Writer, Io, whole, fails, AofEvent, submits, admits, turns, aof_run,
}
use byo_redis.Persistence.Aof.Writer.Durable.{IsDurable, aof_run-IsDurable}
use byo_redis.Persistence.Aof.Writer.Ends.{Completed, aof_run_complete}

abbrev item : ℕ → Bytes → AofItem
item n payload = record { number = n; payload = payload }

-- A log that holds a byte and has room for one item in its queue.
abbrev writer : List AofItem → Writer
writer queue = record {
  fsync_policy = always;
  queue_max_commands = 1;
  queue = queue;
  waiting = [];
  task = idle;
  ticking = false;
  failure = false;
  dirty = false;
  file = codes "x";
  synced = 1;
  acknowledged = [];
  refused = [];
}

-- The first item is written and synced, the second waits, comes in, and fails half-way.
abbrev events : List AofEvent
events =
    submits (item 1 (codes "abc"))
    ∷ submits (item 2 (codes "def"))
    ∷ turns whole
    ∷ admits
    ∷ turns whole
    ∷ turns whole
    ∷ turns whole
    ∷ turns (fails 1)
    ∷ submits (item 3 (codes "g"))
    ∷ []

aof_run-IsDurable_example : IsDurable (codes "x") (aof_run events (writer []))
aof_run-IsDurable_example =
    aof_run-IsDurable (codes "x") events (writer [])
      (tt, (tt, (tt, (tt, (tt, (tt, (tt, (tt, (tt, tt))))))))) (refl, (refl, refl))

abbrev ios : List Io
ios = whole ∷ whole ∷ whole ∷ whole ∷ fails 2 ∷ whole ∷ whole ∷ whole ∷ []

abbrev queued : Writer
queued = writer (item 1 (codes "abc") ∷ item 2 (codes "def") ∷ [])

aof_run_complete_example : Completed ios queued (aof_run (map turns ios) queued)
aof_run_complete_example = aof_run_complete ios queued (λ e. absurd (cc (e))) (omega arith)
