-- ===== src/Persistence/Aof/Writer.antt =====
-- byo_redis/persistence/aof.py: the queue in front of the file, its writer task and the periodic fsync, as
-- steps of the event loop in any order.
pub mod Durable
pub mod Ends
use byo_redis.Prelude.{
  ℕ, zero, suc, ◌+◌, Bool, true, false, not, ◌&&◌, List, [], ◌∷◌, ◌++◌, ltb, ◌==◌, if◌then◌else◌,
  length, take,
}
use byo_redis.Text.{Bytes}

pub data FsyncPolicy : Type 0 where
  always everysec no : FsyncPolicy

-- `_AofItem`: the payload, and the number of the call of `append` that awaits `completed`.
pub record AofItem : Type 0 where
  pub number : ℕ
  pub payload : Bytes

-- What the writer task is at: waiting for an item, writing one, its fsync, or it has returned.
pub data Task : Type 0 where
  idle : Task
  writing : AofItem → Task
  syncing : AofItem → Task
  returned : Task

-- `waiting` are the calls whose `put` waits for room; `acknowledged` the items whose future has a
-- result, in order, and `refused` the calls that raise OSError. `synced` is how many bytes of the
-- file have been through an fsync; `ticking` is whether the task of the periodic fsync runs.
pub record Writer : Type 0 where
  pub fsync_policy : FsyncPolicy
  pub queue_max_commands : ℕ
  pub queue : List AofItem
  pub waiting : List AofItem
  pub task : Task
  pub ticking : Bool
  pub failure : Bool
  pub dirty : Bool
  pub file : Bytes
  pub synced : ℕ
  pub acknowledged : List AofItem
  pub refused : List ℕ

-- The outcome of a write or an fsync. The write of an unbuffered file may take only some of the bytes
-- and return their number, which the code does not look at; or it raises OSError after some bytes.
pub data Io : Type 0 where
  whole : Io
  short fails : ℕ → Io

-- The bytes that a write adds to the file.
abbrev pub taken : Io → Bytes → Bytes
taken whole payload = payload
taken (short n) payload = take n payload
taken (fails n) payload = take n payload

abbrev pub numbers : List AofItem → List ℕ
numbers [] = []
numbers (i ∷ is) = i.number ∷ numbers is

-- `_fail_pending`
unfoldable pub fail_pending : Writer → Writer
fail_pending w = record w { queue = []; refused = w.refused ++ numbers w.queue }

-- The `except OSError` of `_writer_loop`
unfoldable pub stop_writer : AofItem → Writer → Writer
unfolding fail_pending
stop_writer item w =
    record (fail_pending (record w { failure = true; refused = w.refused ++ item.number ∷ [] })) {
      task = returned;
    }

unfoldable pub acknowledge : AofItem → Writer → Writer
acknowledge item w = record w { task = idle; acknowledged = w.acknowledged ++ item ∷ [] }

-- Behind `_write_sync`
unfoldable pub after_write : FsyncPolicy → AofItem → Writer → Writer
unfolding acknowledge
after_write always item w = record w { task = syncing item }
after_write _ item w = acknowledge item w

-- `_fsync_sync`, where it returns
unfoldable pub fsync : Writer → Writer
fsync w = if w.dirty then record w { dirty = false; synced = length w.file } else w

-- `queue.get()`
unfoldable pub get_item : List AofItem → Writer → Writer
get_item [] w = w
get_item (item ∷ rest) w = record w { task = writing item; queue = rest }

-- One turn of the writer task
unfoldable pub turn : Io → Task → Writer → Writer
unfolding get_item after_write stop_writer fsync acknowledge
turn io returned w = w
turn io idle w = get_item w.queue w
turn (fails n) (writing item) w =
    stop_writer item (record w { file = w.file ++ taken (fails n) item.payload })
turn io (writing item) w =
    after_write w.fsync_policy item
      (record w { file = w.file ++ taken io item.payload; dirty = true })
turn (fails n) (syncing item) w = stop_writer item w
turn io (syncing item) w = acknowledge item (fsync w)

abbrev is_everysec : FsyncPolicy → Bool
is_everysec everysec = true
is_everysec _ = false

-- One round of `_fsync_loop`
unfoldable pub tick_fsync : Io → Writer → Writer
unfolding fsync fail_pending
tick_fsync (fails n) w =
    if is_everysec w.fsync_policy && w.ticking && w.dirty
    then record (fail_pending (record w { failure = true })) { ticking = false }
    else w
tick_fsync io w = if is_everysec w.fsync_policy && w.ticking then fsync w else w

-- `append`, up to its first await
unfoldable pub submit : AofItem → Writer → Writer
submit item w =
    if w.failure
    then record w { refused = w.refused ++ item.number ∷ [] }
    else if ltb (length w.queue) w.queue_max_commands
    then record w { queue = w.queue ++ item ∷ [] }
    else record w { waiting = w.waiting ++ item ∷ [] }

-- A `put` that waits goes on when there is room.
unfoldable pub admit : List AofItem → Writer → Writer
admit [] w = w
admit (item ∷ rest) w =
    if ltb (length w.queue) w.queue_max_commands
    then record w { queue = w.queue ++ item ∷ []; waiting = rest }
    else w

-- The first of the calls that wait reaches its timeout.
unfoldable pub give_up : List AofItem → Writer → Writer
give_up [] w = w
give_up (item ∷ rest) w = record w { waiting = rest; refused = w.refused ++ item.number ∷ [] }

pub data AofEvent : Type 0 where
  submits : AofItem → AofEvent
  admits gives_up : AofEvent
  turns ticks : Io → AofEvent

unfoldable pub aof_step : AofEvent → Writer → Writer
unfolding turn tick_fsync submit admit give_up
aof_step (submits item) w = submit item w
aof_step admits w = admit w.waiting w
aof_step gives_up w = give_up w.waiting w
aof_step (turns io) w = turn io w.task w
aof_step (ticks io) w = tick_fsync io w

unfoldable pub aof_run : List AofEvent → Writer → Writer
unfolding aof_step
aof_run [] w = w
aof_run (e ∷ es) w = aof_run es (aof_step e w)
