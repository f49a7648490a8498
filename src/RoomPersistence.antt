-- ===== src/RoomPersistence.antt =====
-- apps/server/src/sync/roomPersistence.ts: the write-ahead queue of one room. `B` stands for the
-- bytes of an update and `M` for those of a marker; both are opaque to this class. The promise
-- chain is the list `chain` of tasks behind the one that `running` describes. Each `await` inside
-- a task ends one function, and its continuation is the next. Logging and metrics are left out.
pub mod System
pub mod Equations
pub mod Phase
pub mod Durable
pub mod Tasks
pub mod Answers
pub mod Acknowledged
pub mod Order
pub mod Served
pub mod Calls
pub mod Replies
pub mod Unstranded
mod Tests
use whiteboard_ai.Base.{
  ℕ, ◌+◌, ◌-◌, ◌*◌, min, Bool, true, false, ◌&&◌, Option, none, some, List, [], ◌∷◌, ◌++◌, length,
  take, drop, is_empty, is_none, ltb, leb, not, if◌then◌else◌,
}

-- An update to store, with its author (apps/server/src/persistence/repository.ts).
pub record NewUpdate (B : Type 0) : Type 0 where
  pub update : B
  pub client_id : Option ℕ
  pub user_id : Option ℕ

pub record Attribution : Type 0 where
  pub client_id : Option ℕ
  pub user_id : Option ℕ

-- A task of the chain. `last_flush` is the flush that `deactivate` awaits.
pub data Task : Type 0 where
  flush_task last_flush_task compact_task catch_up_task : Task

-- What the head of the chain waits for. The Boolean says that the task is a `last_flush_task`.
pub data Running (B M : Type 0) : Type 0 where
  idle : Running B M
  appending : List (NewUpdate B) → Option M → Bool → Running B M
  compacting : Bool → Running B M
  catching_up : Running B M

-- The calls out of the class: `onPersisted(marker)` and `content.committed(batch, firstSeq)`.
pub data Effect (B M : Type 0) : Type 0 where
  persisted : M → Effect B M
  committed : List (NewUpdate B) → ℕ → Effect B M

-- `timer` holds the delay of the armed timer; `effects` is a log, newest first.
pub record RoomPersistence (B M : Type 0) : Type 0 where
  pub pending : List (NewUpdate B)
  pub updates_since_snapshot : ℕ
  pub timer : Option ℕ
  pub chain : List Task
  pub running : Running B M
  pub retry_delay : ℕ
  pub closed : Bool
  pub disposed : Bool
  pub active : Bool
  pub effects : List (Effect B M)

pub record Options : Type 0 where
  pub flush_ms : ℕ
  pub snapshot_every : ℕ

abbrev pub max_batch : ℕ
max_batch = 500

abbrev pub retry_min_ms : ℕ
retry_min_ms = 100

abbrev pub retry_max_ms : ℕ
retry_max_ms = 5000

-- The timer after `scheduleFlush(delay)`: an armed timer stays, unless the delay is 0.
unfoldable pub arm : Bool → ℕ → Option ℕ → Option ℕ
arm closed delay timer =
    if closed then timer else if not (is_none timer) && ltb 0 delay then timer else some delay

module _ {B M : Type 0} where
  -- The constructor, with `options.active` and `options.updatesSinceSnapshot`.
  abbrev pub create : Bool → ℕ → RoomPersistence B M
  create active stored = record {
    pending = [];
    updates_since_snapshot = stored;
    timer = none;
    chain = [];
    running = idle;
    retry_delay = retry_min_ms;
    closed = false;
    disposed = false;
    active = active;
    effects = [];
  }

  abbrev pub emit : Effect B M → RoomPersistence B M → RoomPersistence B M
  emit e s = record s { effects = e ∷ s.effects }

  unfoldable pub schedule_flush : ℕ → RoomPersistence B M → RoomPersistence B M
  unfolding arm
  schedule_flush delay s = record s { timer = arm s.closed delay s.timer }

  abbrev pub enqueue_task : Task → RoomPersistence B M → RoomPersistence B M
  enqueue_task t s = record s { chain = s.chain ++ t ∷ [] }

  -- `flush()`
  abbrev pub flush : RoomPersistence B M → RoomPersistence B M
  flush s = enqueue_task flush_task s

  -- `compact()`
  abbrev pub compact : RoomPersistence B M → RoomPersistence B M
  compact s = enqueue_task compact_task s

  -- The callback of the timer.
  pub timer_fires : RoomPersistence B M → RoomPersistence B M
  timer_fires s = flush (record s { timer = none })

  pub activate : RoomPersistence B M → RoomPersistence B M
  unfolding schedule_flush
  activate s =
      if s.active
      then s
      else schedule_flush 0
          (enqueue_task catch_up_task (record s { active = true; closed = false }))

  -- `deactivate()` up to its `await this.flush()`; `finish` below is what follows.
  pub deactivate : RoomPersistence B M → RoomPersistence B M
  deactivate s = if s.active then enqueue_task last_flush_task (record s { timer = none }) else s

  -- The end of a task. After a `last_flush_task` the rest of `deactivate` runs.
  pub finish : Bool → RoomPersistence B M → RoomPersistence B M
  finish true s = record s { running = idle; active = false; pending = [] }
  finish false s = record s { running = idle }

  unfoldable pub enqueue : Options → B → Attribution → RoomPersistence B M → RoomPersistence B M
  unfolding schedule_flush
  enqueue o update author s =
      let u : NewUpdate B = record {
        update = update;
        client_id = author.client_id;
        user_id = author.user_id;
      } in
      let s' = record s { pending = s.pending ++ u ∷ [] } in
      if s.active
      then schedule_flush (if leb max_batch (length s'.pending) then 0 else o.flush_ms) s'
      else s

  -- `close(deadline)` up to its first `await`.
  pub close : RoomPersistence B M → RoomPersistence B M
  close s =
      let started =
        if s.active then s else enqueue_task catch_up_task (record s { active = true }) in
      flush (record started { closed = true; timer = none })

  -- After a flush of `close`: another round before the deadline, or the final compaction.
  pub close_round : (now deadline : ℕ) → RoomPersistence B M → RoomPersistence B M
  close_round now deadline s =
      if not (is_empty s.pending) && ltb now deadline
      then flush s
      else if ltb 0 s.updates_since_snapshot
      then compact s
      else s

  unfoldable pub dispose : RoomPersistence B M → RoomPersistence B M
  dispose s = record s { disposed = true; closed = true; active = false; timer = none }

  pub reopen : Bool → RoomPersistence B M → RoomPersistence B M
  unfolding schedule_flush
  reopen active s =
      let s' = record s { closed = false; active = active } in
      if active
      then if is_empty s'.pending then s' else schedule_flush 0 s'
      else record s' { pending = [] }

  -- `flushNow` up to the call of `repository.append`; `marker` is `content.durableMarker()` now.
  pub flush_now : M → Bool → RoomPersistence B M → RoomPersistence B M
  unfolding finish
  flush_now marker last s =
      let batch = take max_batch s.pending in
      let rest = drop max_batch s.pending in
      let cut = if is_empty rest then some marker else none in
      if s.disposed
      then finish last s
      else if is_empty s.pending
      then finish last s
      else record s { pending = rest; running = appending batch cut last }

  -- `if (durableVector) onPersisted(durableVector)`, as the log shows it.
  abbrev pub acknowledge : Option M → List (Effect B M) → List (Effect B M)
  acknowledge none es = es
  acknowledge (some marker) es = persisted marker ∷ es

  -- `if (this.pending.length > 0) this.scheduleFlush(0)`
  flush_rest : RoomPersistence B M → RoomPersistence B M
  unfolding arm
  flush_rest s = record s { timer = if is_empty s.pending then s.timer else arm s.closed 0 s.timer }

  -- `append` resolved with `firstSeq`.
  pub append_ok :
      Options → List (NewUpdate B) → Option M → Bool → ℕ → RoomPersistence B M → RoomPersistence B M
  unfolding finish flush_rest
  append_ok o batch cut last first_seq s =
      let s1 = record s {
        retry_delay = retry_min_ms;
        updates_since_snapshot = s.updates_since_snapshot + length batch;
        effects = acknowledge cut (committed batch first_seq ∷ s.effects);
      } in
      let s2 = flush_rest s1 in
      if leb o.snapshot_every s2.updates_since_snapshot
      then record s2 { running = compacting last }
      else finish last s2

  -- `append` rejected with BoardMissingError.
  pub append_missing : Bool → RoomPersistence B M → RoomPersistence B M
  unfolding finish
  append_missing last s = finish last (record s { pending = [] })

  -- `append` rejected with any other error.
  pub append_error : List (NewUpdate B) → Bool → RoomPersistence B M → RoomPersistence B M
  unfolding finish schedule_flush
  append_error batch last s =
      let delay = min retry_max_ms (s.retry_delay * 2) in
      let s1 = record s { pending = batch ++ s.pending; retry_delay = delay } in
      finish last (if s1.closed then s1 else schedule_flush delay s1)

  -- `content.compact()` resolved with `now`, or was rejected (as `false`).
  pub compact_done : Bool → Bool → RoomPersistence B M → RoomPersistence B M
  unfolding finish
  compact_done folded last s =
      finish last (if folded then record s { updates_since_snapshot = 0 } else s)

  -- `content.catchUp()` is known: `stored` is its count, or none if it was rejected and `missing`
  -- is `content.fullState()`. `marker` is `content.durableMarker()` now.
  pub catch_up_done : M → List (NewUpdate B) → Option ℕ → RoomPersistence B M → RoomPersistence B M
  unfolding finish
  catch_up_done marker missing stored s =
      let s1 : RoomPersistence B M = elim stored [
        | none ↦ s
        | some n ↦ record s { updates_since_snapshot = n }
      ] in
      if is_empty missing
      then finish false (if is_empty s1.pending then emit (persisted marker) s1 else s1)
      else finish false (record s1 { pending = missing ++ s1.pending })

  unfoldable pub snapshot_installed : ℕ → RoomPersistence B M → RoomPersistence B M
  snapshot_installed archived s = record s {
    updates_since_snapshot = s.updates_since_snapshot - archived;
  }

  -- The chain starts its next task.
  pub start : M → Task → RoomPersistence B M → RoomPersistence B M
  unfolding flush_now
  start marker flush_task s = flush_now marker false s
  start marker last_flush_task s = flush_now marker true s
  start marker compact_task s = record s { running = compacting false }
  start marker catch_up_task s = record s { running = catching_up }
