-- ===== src/RoomPersistence/Tests.antt =====
-- Runs of the write-ahead queue, and instances of its theorems. An update is a number, which is
-- also its one edit, and a marker is the list of the edits that it covers.
use whiteboard_ai.Base.{ℕ, ◌≡◌, refl, inl, true, false, ◌||◌, none, some, List, [], ◌∷◌, Memᴰ, Sub}
use whiteboard_ai.RoomPersistence
use whiteboard_ai.RoomPersistence.{
  RoomPersistence, NewUpdate, Attribution, Options, persisted, enqueue, flush_now, append_error,
  append_ok, finish, flush_task, last_flush_task, compact_task, idle, take, drop, max_batch,
}
use whiteboard_ai.RoomPersistence.System.{
  System, Step, receive, start, timer_fires, Reach, here, next, loaded,
}
use whiteboard_ai.RoomPersistence.System
use whiteboard_ai.RoomPersistence.Served.{armed, is_appending}
use whiteboard_ai.RoomPersistence.Unstranded.{pending_is_served}
use whiteboard_ai.RoomPersistence.Acknowledged.{persisted_is_stored}

abbrev edits : ℕ → List ℕ
edits b = b ∷ []

abbrev marker : List ℕ → List ℕ
marker d = d

abbrev options : Options
options = record { flush_ms = 50; snapshot_every = 100 }

abbrev nobody : Attribution
nobody = record { client_id = none; user_id = none }

-- A writer that loaded the edit 1, receives 7 and stores it.
abbrev w0 : System ℕ (List ℕ) ℕ
w0 = loaded true 1 (1 ∷ [])

abbrev batch : List (NewUpdate ℕ)
batch = record { update = 7; client_id = none; user_id = none } ∷ []

stored_run :
    (w : System ℕ (List ℕ) ℕ) × Reach edits marker options w0 w
    × (w.stored ≡ 1 ∷ 7 ∷ [])
    × Memᴰ (persisted (1 ∷ 7 ∷ [])) w.queue.effects
unfolding enqueue RoomPersistence.timer_fires RoomPersistence.start append_ok
stored_run = (
  _,
  next
      (next (next (next here (receive _ 7 nobody)) (timer_fires _ 50 refl))
        (start _ flush_task [] refl refl))
      (System.append_ok _ batch (some (1 ∷ 7 ∷ [])) false 2 refl refl),
  refl,
  Memᴰ.head refl,
)

persisted_is_stored_example : (d : List ℕ) × ((1 ∷ 7 ∷ []) ≡ d) × Sub d (stored_run.0).stored
unfolding stored_run
persisted_is_stored_example =
    persisted_is_stored edits marker options true 1 (1 ∷ []) (1 ∷ 7 ∷ []) stored_run.1
      ((((tt, tt), tt), tt), tt) stored_run.3

abbrev one_pending : RoomPersistence ℕ (List ℕ)
one_pending = record (RoomPersistence.create true 0) { pending = batch }

-- The update 7 waits for the timer.
abbrev w1 : System ℕ (List ℕ) ℕ
w1 = record w0 { queue = enqueue options 7 nobody w0.queue; doc = 1 ∷ 7 ∷ [] }

waiting : Reach edits marker options w0 w1
waiting = next here (receive w0 7 nobody)

pending_is_served_example :
    (is_appending w1.queue.running || armed w1.queue.timer w1.queue.chain) ≡ true
unfolding enqueue
pending_is_served_example =
    pending_is_served edits marker options true 1 (1 ∷ []) waiting refl refl refl

-- A room is closed while its `deactivate` still flushes. The edit 7 arrives when it is no writer any
-- more, and is not queued; the room is reopened as a writer, and the marker that follows the edit 8
-- covers 7, which the database lacks.
forgotten_edit :
    (w : System ℕ (List ℕ) ℕ) × Reach edits marker options w0 w
    × (w.stored ≡ 1 ∷ 8 ∷ [])
    × Memᴰ (persisted (1 ∷ 7 ∷ 8 ∷ [])) w.queue.effects
unfolding enqueue RoomPersistence.timer_fires RoomPersistence.start append_ok
    RoomPersistence.deactivate RoomPersistence.close RoomPersistence.close_round
    RoomPersistence.compact_done RoomPersistence.reopen flush_now finish
forgotten_edit =
    let closing = next (next here (System.deactivate w0)) (System.close _ refl (inl refl)) in
    let stopped = next closing (start _ last_flush_task (flush_task ∷ []) refl refl) in
    let missed = next stopped (receive _ 7 nobody) in
    let closed = next missed (start _ flush_task [] refl refl) in
    let compacting =
      next (next closed (System.close_round _ 0 10000 refl)) (start _ compact_task [] refl refl) in
    let compacted = next compacting (System.compact_done _ true false refl) in
    let reopened = next compacted (System.reopen _ true refl refl (refl, refl)) in
    let queued = next (next reopened (receive _ 8 nobody)) (timer_fires _ 50 refl) in
    let appending = next queued (start _ flush_task [] refl refl) in
    (
      _,
      next appending (
          System.append_ok _ (record { update = 8; client_id = none; user_id = none } ∷ [])
            (some (1 ∷ 7 ∷ 8 ∷ [])) false 2 refl refl),
      refl,
      Memᴰ.head refl,
    )
