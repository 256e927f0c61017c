-- ===== src/Persistence/Aof/Writer/Durable.antt =====
-- byo_redis/persistence/aof.py: with `appendfsync always`, what has been acknowledged is on the disk.
use byo_redis.Prelude.{
  ℕ, ◌≤◌, ◌≡◌, refl, sym, ap, ◌∙◌, subst, true, false, ◌&&◌, List, [], ◌∷◌, ◌++◌, ltb, if_cases,
  All, arith, length, take, append_assoc, append-nil,
}
use byo_redis.Text.{Bytes}
use byo_redis.Persistence.Aof.Writer.{
  FsyncPolicy, always, AofItem, Task, idle, writing, syncing, returned, Writer, Io, whole, short,
  fails, is_everysec, stop_writer, fail_pending, acknowledge, after_write, fsync, get_item, turn,
  tick_fsync, submit, admit, give_up, AofEvent, submits, admits, gives_up, turns, ticks, aof_step,
  aof_run,
}

abbrev pub payloads : List AofItem → Bytes
payloads [] = []
payloads (i ∷ is) = i.payload ++ payloads is

payloads-append : (a b : List AofItem) → payloads (a ++ b) ≡ payloads a ++ payloads b
payloads-append [] b = refl
payloads-append (i ∷ a) b =
    ap (λ x. i.payload ++ x) (payloads-append a b)
    ∙ sym (append_assoc i.payload (payloads a) (payloads b))

abbrev IsNotShort : Io → Type 0
IsNotShort (short n) = ⊥
IsNotShort _ = Unit

-- A turn of the writer task does not write a part of a payload and return.
abbrev pub WritesWhole : AofEvent → Type 0
WritesWhole (turns io) = IsNotShort io
WritesWhole _ = Unit

-- `base` is what the file held at the start.
module _ (base : Bytes) where
  abbrev acknowledged_file : Writer → Bytes
  acknowledged_file w = base ++ payloads w.acknowledged

  -- The payloads of what was acknowledged stand in the file, in order, in the part that is synced.
  abbrev pub IsDurable : Writer → Type 0
  IsDurable w =
      (rest : Bytes) × (w.file ≡ (base ++ payloads w.acknowledged) ++ rest)
      × (length (base ++ payloads w.acknowledged) ≤ w.synced)

  abbrev SoundAt : Task → Writer → Type 0
  SoundAt idle w = (w.file ≡ acknowledged_file w) × (w.synced ≡ length (acknowledged_file w))
  SoundAt (writing i) w = (w.file ≡ acknowledged_file w) × (w.synced ≡ length (acknowledged_file w))
  SoundAt (syncing i) w =
      (w.file ≡ acknowledged_file w ++ i.payload)
      × (w.synced ≡ length (acknowledged_file w))
      × (w.dirty ≡ true)
  SoundAt returned w = IsDurable w

  abbrev pub IsSound : Writer → Type 0
  IsSound w = (w.fsync_policy ≡ always) × SoundAt w.task w

  IsDurable-at : (t : Task) (w : Writer) → SoundAt t w → IsDurable w
  IsDurable-at idle w h = ([], h.0 ∙ sym (append-nil _), omega (arith, h.1))
  IsDurable-at (writing i) w h = ([], h.0 ∙ sym (append-nil _), omega (arith, h.1))
  IsDurable-at (syncing i) w h = (i.payload, h.0, omega (arith, h.1))
  IsDurable-at returned w h = h

  get_item-IsSound :
      (q : List AofItem) (w : Writer)
      → w.task ≡ idle
      → w.fsync_policy ≡ always
      → SoundAt idle w
      → IsSound (get_item q w)
  unfolding get_item
  get_item-IsSound [] w e p h = (p, subst (λ t. SoundAt t w) (sym e) h)
  get_item-IsSound (i ∷ is) w e p h = (p, h)

  after_write-IsSound :
      (policy : FsyncPolicy) (i : AofItem) (w : Writer)
      → policy ≡ always
      → w.fsync_policy ≡ always
      → SoundAt (syncing i) w
      → IsSound (after_write policy i w)
  unfolding after_write
  after_write-IsSound policy i w e p h = rw e (p, h)

  acknowledged-append :
      (acks : List AofItem) (i : AofItem)
      → (base ++ payloads acks) ++ i.payload ≡ base ++ payloads (acks ++ i ∷ [])
  acknowledged-append acks i =
      append_assoc base (payloads acks) i.payload
      ∙ ap (λ x. base ++ (payloads acks ++ x)) (sym (append-nil i.payload))
      ∙ ap (λ x. base ++ x) (sym (payloads-append acks (i ∷ [])))

  acknowledge-IsSound :
      (i : AofItem) (w : Writer)
      → w.fsync_policy ≡ always
      → SoundAt (syncing i) w
      → IsSound (acknowledge i (fsync w))
  unfolding acknowledge fsync
  acknowledge-IsSound i w p h =
      let file : w.file ≡ base ++ payloads (w.acknowledged ++ i ∷ []) =
        h.0 ∙ acknowledged-append w.acknowledged i in
      rw h.2 (p, (file, ap length file))

  turn-IsSound :
      (io : Io) (t : Task) (w : Writer)
      → IsNotShort io
      → w.task ≡ t
      → w.fsync_policy ≡ always
      → SoundAt t w
      → IsSound (turn io t w)
  unfolding turn stop_writer fail_pending
  turn-IsSound io returned w full e p h = (p, subst (λ t. SoundAt t w) (sym e) h)
  turn-IsSound io idle w full e p h = get_item-IsSound w.queue w e p h
  turn-IsSound whole (writing i) w full e p h =
      after_write-IsSound w.fsync_policy i _ p p (ap (λ f. f ++ i.payload) h.0, h.1, refl)
  turn-IsSound (short n) (writing i) w full e p h = absurd full
  turn-IsSound (fails n) (writing i) w full e p h =
      (p, (take n i.payload, ap (λ f. f ++ take n i.payload) h.0, omega (arith, h.1)))
  turn-IsSound whole (syncing i) w full e p h = acknowledge-IsSound i w p h
  turn-IsSound (short n) (syncing i) w full e p h = absurd full
  turn-IsSound (fails n) (syncing i) w full e p h = (p, (i.payload, h.0, omega (arith, h.1)))

  tick_fsync-always : (io : Io) (w : Writer) → w.fsync_policy ≡ always → tick_fsync io w ≡ w
  unfolding tick_fsync
  tick_fsync-always whole w p =
      if_cases (λ (v : Writer). v ≡ w) (is_everysec w.fsync_policy && w.ticking) {x = fsync w}
        {y = w} (λ e. absurd (cc ((rw p at e)))) (λ _. refl)
  tick_fsync-always (short n) w p =
      if_cases (λ (v : Writer). v ≡ w) (is_everysec w.fsync_policy && w.ticking) {x = fsync w}
        {y = w} (λ e. absurd (cc ((rw p at e)))) (λ _. refl)
  tick_fsync-always (fails n) w p =
      if_cases (λ (v : Writer). v ≡ w) (is_everysec w.fsync_policy && w.ticking && w.dirty)
        {x = record (fail_pending (record w { failure = true })) { ticking = false }} {y = w}
        (λ e. absurd (cc ((rw p at e)))) (λ _. refl)

  -- The queue and the calls make no difference.
  queued-IsSound :
      (w : Writer) (q waiting : List AofItem) (refused : List ℕ)
      → IsSound w
      → IsSound (record w { queue = q; waiting = waiting; refused = refused })
  queued-IsSound w q waiting refused h = (h.0, at w.task w q waiting refused h.1)
    where
      at :
          (t : Task) (w : Writer) (q waiting : List AofItem) (refused : List ℕ)
          → SoundAt t w
          → SoundAt t (record w { queue = q; waiting = waiting; refused = refused })
      at idle w q waiting refused h = h
      at (writing i) w q waiting refused h = h
      at (syncing i) w q waiting refused h = h
      at returned w q waiting refused h = h

  submit-IsSound : (i : AofItem) (w : Writer) → IsSound w → IsSound (submit i w)
  unfolding submit
  submit-IsSound i w h =
      if_cases IsSound w.failure {x = record w { refused = w.refused ++ i.number ∷ [] }}
        (λ _. queued-IsSound w w.queue w.waiting (w.refused ++ i.number ∷ []) h)
        (λ _.
          if_cases IsSound (ltb (length w.queue) w.queue_max_commands)
            {x = record w { queue = w.queue ++ i ∷ [] }}
            {y = record w { waiting = w.waiting ++ i ∷ [] }}
            (λ _. queued-IsSound w (w.queue ++ i ∷ []) w.waiting w.refused h)
            (λ _. queued-IsSound w w.queue (w.waiting ++ i ∷ []) w.refused h))

  admit-IsSound : (is : List AofItem) (w : Writer) → IsSound w → IsSound (admit is w)
  unfolding admit
  admit-IsSound [] w h = h
  admit-IsSound (i ∷ is) w h =
      if_cases IsSound (ltb (length w.queue) w.queue_max_commands)
        {x = record w { queue = w.queue ++ i ∷ []; waiting = is }} {y = w}
        (λ _. queued-IsSound w (w.queue ++ i ∷ []) is w.refused h) (λ _. h)

  give_up-IsSound : (is : List AofItem) (w : Writer) → IsSound w → IsSound (give_up is w)
  unfolding give_up
  give_up-IsSound [] w h = h
  give_up-IsSound (i ∷ is) w h = queued-IsSound w w.queue is (w.refused ++ i.number ∷ []) h

  aof_step-IsSound :
      (e : AofEvent) (w : Writer) → WritesWhole e → IsSound w → IsSound (aof_step e w)
  unfolding aof_step
  aof_step-IsSound (turns io) w full h = turn-IsSound io w.task w full refl h.0 h.1
  aof_step-IsSound (ticks io) w full h = subst IsSound (sym (tick_fsync-always io w h.0)) h
  aof_step-IsSound (submits i) w full h = submit-IsSound i w h
  aof_step-IsSound admits w full h = admit-IsSound w.waiting w h
  aof_step-IsSound gives_up w full h = give_up-IsSound w.waiting w h

  -- With `appendfsync always`, from a file whose content is on the disk, and where no write returns
  -- with only a part of the payload written: whatever calls of append come, in whatever order the tasks
  -- run, and whatever writes and fsyncs raise OSError, the payloads of the items that have been
  -- acknowledged stand in the file behind that content, in the order in which they were acknowledged,
  -- and in the part of the file that has been through an fsync.
  pub aof_run-IsDurable :
      (es : List AofEvent) (w : Writer) → All WritesWhole es → IsSound w → IsDurable (aof_run es w)
  unfolding aof_run
  aof_run-IsDurable [] w full h = IsDurable-at w.task w h.1
  aof_run-IsDurable (e ∷ es) w full h =
      aof_run-IsDurable es (aof_step e w) full.1 (aof_step-IsSound e w full.0 h)
