-- ===== src/Persistence/Aof/Writer/Ends.antt =====
-- byo_redis/persistence/aof.py: the writer task comes to the end of its queue.
use byo_redis.Prelude.{
  ℕ, ◌+◌, ◌-◌, ◌*◌, ◌≤◌, ◌≡◌, refl, ap, sym, ◌∙◌, ◌⊎◌, inl, inr, true, false, List, [], ◌∷◌, ◌++◌,
  if_cases, arith, length, map, append_assoc, append-nil,
}
use byo_redis.Persistence.Aof.Writer.{
  FsyncPolicy, always, everysec, no, AofItem, Task, idle, writing, syncing, returned, Writer, Io,
  whole, short, fails, taken, numbers, stop_writer, fail_pending, acknowledge, after_write, fsync,
  get_item, turn, turns, aof_step, aof_run,
}

-- The turns that are still to come at most; none when all is done.
abbrev task_turns : Task → ℕ
task_turns idle = 0
task_turns (writing i) = 2
task_turns (syncing i) = 1
task_turns returned = 0

abbrev turns_left : Writer → ℕ
turns_left w = 3 * length w.queue + task_turns w.task

-- The item in progress
abbrev in_progress : Task → List AofItem
in_progress idle = []
in_progress (writing i) = i ∷ []
in_progress (syncing i) = i ∷ []
in_progress returned = []

-- The items that the writer task has not completed, in order.
abbrev pub pending_items : Writer → List AofItem
pending_items w = in_progress w.task ++ w.queue

-- A task that has returned has left nothing in the queue.
abbrev pub IsServed : Writer → Type 0
IsServed w = (w.task ≡ returned) → w.queue ≡ []

abbrev IsFailure : Io → Type 0
IsFailure (fails n) = Unit
IsFailure _ = ⊥

abbrev pub HasFailure : List Io → Type 0
HasFailure [] = ⊥
HasFailure (io ∷ ios) = IsFailure io ⊎ HasFailure ios

-- What a turn does with the items `before` it: nothing is completed, the first is acknowledged, or
-- all are refused after a failure.
data Turned (io : Io) (before : List AofItem) (w v : Writer) : Type 0 where
  keeps :
      pending_items v ≡ before
      → v.acknowledged ≡ w.acknowledged
      → v.refused ≡ w.refused
      → Turned io before w v
  acknowledges :
      (i : AofItem)
      → before ≡ i ∷ pending_items v
      → v.acknowledged ≡ w.acknowledged ++ i ∷ []
      → v.refused ≡ w.refused
      → Turned io before w v
  stops :
      IsFailure io
      → pending_items v ≡ []
      → v.acknowledged ≡ w.acknowledged
      → v.refused ≡ w.refused ++ numbers before
      → Turned io before w v

-- The turn of a task `t` with the queue `q` also brings the end nearer.
abbrev Nearer : Io → Task → Writer → Writer → Type 0
Nearer io t w v =
    (turns_left v ≤ (3 * length w.queue + task_turns t) - 1)
    × IsServed v
    × Turned io (in_progress t ++ w.queue) w v

stop_writer-Nearer :
    (io : Io) (t : Task) (item : AofItem) (w v : Writer)
    → (v.queue ≡ w.queue) × (v.acknowledged ≡ w.acknowledged) × (v.refused ≡ w.refused)
    → IsFailure io
    → 1 ≤ task_turns t
    → in_progress t ≡ item ∷ []
    → Nearer io t w (stop_writer item v)
unfolding stop_writer fail_pending
stop_writer-Nearer io t item w v same failure h e = (
  omega (arith, h),
  λ _. refl,
  stops failure refl same.1 (
      append_assoc v.refused (item.number ∷ []) (numbers v.queue)
      ∙ ap (λ q. v.refused ++ (item.number ∷ numbers q)) same.0
      ∙ ap (λ r. r ++ (item.number ∷ numbers w.queue)) same.2
      ∙ ap (λ p. w.refused ++ numbers (p ++ w.queue)) (sym e)),
)

acknowledge-Nearer :
    (io : Io) (t : Task) (item : AofItem) (w v : Writer)
    → (v.queue ≡ w.queue) × (v.acknowledged ≡ w.acknowledged) × (v.refused ≡ w.refused)
    → 1 ≤ task_turns t
    → in_progress t ≡ item ∷ []
    → Nearer io t w (acknowledge item v)
unfolding acknowledge
acknowledge-Nearer io t item w v same h e = (
  omega (arith, h, ap length same.0),
  λ r. absurd (cc (r)),
  acknowledges item (ap (λ p. p ++ w.queue) e ∙ ap (λ q. item ∷ q) (sym same.0))
      (ap (λ a. a ++ item ∷ []) same.1) same.2,
)

after_write-Nearer :
    (io : Io) (policy : FsyncPolicy) (item : AofItem) (w v : Writer)
    → (v.queue ≡ w.queue) × (v.acknowledged ≡ w.acknowledged) × (v.refused ≡ w.refused)
    → Nearer io (writing item) w (after_write policy item v)
unfolding after_write
after_write-Nearer io always item w v same = (
  omega (arith, ap length same.0),
  λ r. absurd (cc (r)),
  keeps (ap (λ q. item ∷ q) same.0) same.1 same.2,
)
after_write-Nearer io everysec item w v same =
    acknowledge-Nearer io (writing item) item w v same (omega arith) refl
after_write-Nearer io no item w v same =
    acknowledge-Nearer io (writing item) item w v same (omega arith) refl

fsync-same :
    (w : Writer)
    → ((fsync w).queue ≡ w.queue)
      × ((fsync w).acknowledged ≡ w.acknowledged)
      × ((fsync w).refused ≡ w.refused)
unfolding fsync
fsync-same w =
    if_cases
      (λ (v : Writer).
        (v.queue ≡ w.queue) × (v.acknowledged ≡ w.acknowledged) × (v.refused ≡ w.refused))
      w.dirty {x = record w { dirty = false; synced = length w.file }} {y = w}
      (λ _. (refl, refl, refl)) (λ _. (refl, refl, refl))

get_item-Nearer :
    (io : Io) (q : List AofItem) (w : Writer)
    → w.queue ≡ q
    → w.task ≡ idle
    → Nearer io idle w (get_item q w)
unfolding get_item
get_item-Nearer io [] w e t = (
  omega (arith, ap length e, ap task_turns t),
  λ _. e,
  keeps (ap (λ t. in_progress t ++ w.queue) t) refl refl,
)
get_item-Nearer io (i ∷ is) w e t =
    (omega (arith, ap length e), λ r. absurd (cc (r)), keeps (sym e) refl refl)

turn-Nearer :
    (io : Io) (t : Task) (w : Writer) → w.task ≡ t → IsServed w → Nearer io t w (turn io t w)
unfolding turn
turn-Nearer io returned w e s = (
  omega (arith, ap length (s e), ap task_turns e),
  s,
  keeps (ap (λ t. in_progress t ++ w.queue) e) refl refl,
)
turn-Nearer io idle w e s = get_item-Nearer io w.queue w refl e
turn-Nearer (fails n) (writing i) w e s =
    stop_writer-Nearer (fails n) (writing i) i w
      (record w { file = w.file ++ taken (fails n) i.payload }) (refl, refl, refl) tt (omega arith)
      refl
turn-Nearer whole (writing i) w e s =
    after_write-Nearer whole w.fsync_policy i w
      (record w { file = w.file ++ i.payload; dirty = true }) (refl, refl, refl)
turn-Nearer (short n) (writing i) w e s =
    after_write-Nearer (short n) w.fsync_policy i w
      (record w { file = w.file ++ taken (short n) i.payload; dirty = true }) (refl, refl, refl)
turn-Nearer (fails n) (syncing i) w e s =
    stop_writer-Nearer (fails n) (syncing i) i w w (refl, refl, refl) tt (omega arith) refl
turn-Nearer whole (syncing i) w e s =
    acknowledge-Nearer whole (syncing i) i w (fsync w) (fsync-same w) (omega arith) refl
turn-Nearer (short n) (syncing i) w e s =
    acknowledge-Nearer (short n) (syncing i) i w (fsync w) (fsync-same w) (omega arith) refl

task_turns-le : (t : Task) → task_turns t ≤ 2
task_turns-le idle = omega arith
task_turns-le (writing i) = omega arith
task_turns-le (syncing i) = omega arith
task_turns-le returned = omega arith

empty_of_length : (q : List AofItem) → 3 * length q ≤ 0 → q ≡ []
empty_of_length [] h = refl
empty_of_length (i ∷ q) h = absurd (omega (arith, h))

nothing_left :
    (t : Task) (q : List AofItem) → 3 * length q + task_turns t ≤ 0 → in_progress t ++ q ≡ []
nothing_left idle q h = empty_of_length q (omega (arith, h))
nothing_left (writing i) q h = absurd (omega (arith, h))
nothing_left (syncing i) q h = absurd (omega (arith, h))
nothing_left returned q h = empty_of_length q (omega (arith, h))

-- From `w` to `v`, the items of `w` are completed: the first ones are acknowledged, in order, the
-- others are refused, and there are others only if an outcome is a failure.
abbrev pub Completed : List Io → Writer → Writer → Type 0
Completed ios w v =
    (done : List AofItem) × (left : List AofItem) × (pending_items w ≡ done ++ left)
    × (v.acknowledged ≡ w.acknowledged ++ done)
    × (v.refused ≡ w.refused ++ numbers left)
    × ((left ≡ []) ⊎ HasFailure ios)
    × (pending_items v ≡ [])

both_empty : (a b : List AofItem) → [] ≡ a ++ b → (a ≡ []) × (b ≡ [])
both_empty [] b h = (refl, sym h)
both_empty (i ∷ a) b h = absurd (cc (h))

later_failure :
    (io : Io) (ios : List Io) (left : List AofItem)
    → (left ≡ []) ⊎ HasFailure ios
    → (left ≡ []) ⊎ HasFailure (io ∷ ios)
later_failure io ios left (inl e) = inl e
later_failure io ios left (inr f) = inr (inr f)

Turned-Completed :
    (io : Io) (ios : List Io) (w v final : Writer)
    → Turned io (pending_items w) w v
    → Completed ios v final
    → Completed (io ∷ ios) w final
Turned-Completed io ios w v final (keeps p a r) (done, left, e, ack, refused, why, end) = (
  done,
  left,
  sym p ∙ e,
  ack ∙ ap (λ x. x ++ done) a,
  refused ∙ ap (λ x. x ++ numbers left) r,
  later_failure io ios left why,
  end,
)
Turned-Completed io ios w v final (acknowledges i p a r) (done, left, e, ack, refused, why, end) = (
  i ∷ done,
  left,
  p ∙ ap (λ x. i ∷ x) e,
  ack ∙ ap (λ x. x ++ done) a ∙ append_assoc w.acknowledged (i ∷ []) done,
  refused ∙ ap (λ x. x ++ numbers left) r,
  later_failure io ios left why,
  end,
)
Turned-Completed io ios w v final (stops f p a r) (done, left, e, ack, refused, why, end) =
    let (d, l) = both_empty done left (sym p ∙ e) in
    (
      [],
      pending_items w,
      refl,
      ack ∙ ap (λ x. v.acknowledged ++ x) d ∙ ap (λ x. x ++ []) a,
      refused ∙ ap (λ x. v.refused ++ numbers x) l ∙ append-nil v.refused ∙ r,
      inr (inl f),
      end,
    )

turns_complete :
    (ios : List Io) (w : Writer)
    → IsServed w
    → turns_left w ≤ length ios
    → Completed ios w (aof_run (map turns ios) w)
unfolding aof_run aof_step
turns_complete [] w s h =
    let none_left : pending_items w ≡ [] = nothing_left w.task w.queue h in
    (
      [],
      [],
      none_left,
      sym (append-nil w.acknowledged),
      sym (append-nil w.refused),
      inl refl,
      none_left,
    )
turns_complete (io ∷ ios) w s h =
    let (fewer, served, turned) = turn-Nearer io w.task w refl s in
    Turned-Completed io ios w (turn io w.task w) (aof_run (map turns ios) (turn io w.task w)) turned
      (turns_complete ios (turn io w.task w) served (omega (arith, fewer, h)))

-- Whatever the outcomes of the writes and fsyncs: when the writer task gets three turns for each item in the
-- queue, and two more, and no call comes in between, no item is left in progress or in the queue. The
-- items that were are split in two: those in front are acknowledged, in order and each once, and the
-- calls of the others, by their numbers, are refused, in order and each once; there are such others only
-- if a write or an fsync raises OSError. It is required that a task that has returned had left nothing
-- in the queue.
pub aof_run_complete :
    (ios : List Io) (w : Writer)
    → IsServed w
    → 3 * length w.queue + 2 ≤ length ios
    → Completed ios w (aof_run (map turns ios) w)
aof_run_complete ios w s h = turns_complete ios w s (omega (arith, h, task_turns-le w.task))
