-- ===== src/RoomPersistence/System.antt =====
-- One room's persistence beside its document, the database and the other instances: the step
-- relation of apps/server/src/sync/roomPersistence.ts as apps/server/src/sync/rooms.ts drives it.
-- `E` stands for a single edit. `edits` says which edits an update carries (an update may be a
-- merge of many), and `durable_marker` is the marker of a document that holds given edits.
use whiteboard_ai.Base.{ℕ, ◌≡◌, ◌⊎◌, Bool, true, false, Option, some, List, [], ◌∷◌, ◌++◌, Sub}
use whiteboard_ai.RoomPersistence
use whiteboard_ai.RoomPersistence.{
  RoomPersistence, NewUpdate, Attribution, Options, Task, Running, idle, appending, compacting,
  catching_up,
}

-- `doc` are the edits that the room's document holds, `stored` those that the database holds (in
-- snapshots or updates). `purged` says that the board's row is gone.
pub record System (B M E : Type 0) : Type 0 where
  pub queue : RoomPersistence B M
  pub doc : List E
  pub stored : List E
  pub purged : Bool

module _ {B E : Type 0} (edits : B → List E) where
  abbrev pub edits_of : List (NewUpdate B) → List E
  edits_of [] = []
  edits_of (u ∷ us) = edits u.update ++ edits_of us

module _ {B M : Type 0} where
  -- No task of the chain is left.
  abbrev pub AtRest : RoomPersistence B M → Type 0
  AtRest s = (s.running ≡ idle) × (s.chain ≡ [])

module _ {B M E : Type 0} where
  -- A room that was just loaded holds what the database holds.
  abbrev pub loaded : Bool → ℕ → List E → System B M E
  loaded writer count es = record {
    queue = RoomPersistence.create writer count;
    doc = es;
    stored = es;
    purged = false;
  }

module _ {B M E : Type 0} (edits : B → List E) (durable_marker : List E → M) (o : Options) where
  abbrev with_queue : System B M E → RoomPersistence B M → System B M E
  with_queue w q = record w { queue = q }

  -- What the room, the timers, the database and the other instances may do next. An update reaches
  -- the document and the queue together. `activate` and `reopen` come from rooms.ts, which waits
  -- for an earlier `deactivate` or `close` first, so they find the chain at rest; a `close` that
  -- makes a writer of a non-writer does too. `reopen` may find a writer or, where a `deactivate` ran
  -- beside the `close`, a room that is none any more. The answers of `catchUp` and of `fullState` hold what
  -- the document has beyond the database.
  pub data Step : System B M E → System B M E → Type 0 where
    receive :
        (w : System B M E) (b : B) (author : Attribution)
        → Step w (record w {
          queue = RoomPersistence.enqueue o b author w.queue;
          doc = w.doc ++ edits b;
        })
    stored_elsewhere :
        (w : System B M E) (es : List E) → Step w (record w { stored = w.stored ++ es })
    timer_fires :
        (w : System B M E) (d : ℕ)
        → w.queue.timer ≡ some d
        → Step w (with_queue w (RoomPersistence.timer_fires w.queue))
    start :
        (w : System B M E) (t : Task) (ts : List Task)
        → w.queue.running ≡ idle
        → w.queue.chain ≡ t ∷ ts
        → Step w (
            with_queue w
              (RoomPersistence.start (durable_marker w.doc) t (record w.queue { chain = ts })))
    append_ok :
        (w : System B M E) (batch : List (NewUpdate B)) (cut : Option M) (last : Bool) (first : ℕ)
        → w.queue.running ≡ appending batch cut last
        → w.purged ≡ false
        → Step w (record w {
          queue = RoomPersistence.append_ok o batch cut last first w.queue;
          stored = w.stored ++ edits_of edits batch;
        })
    append_missing :
        (w : System B M E) (batch : List (NewUpdate B)) (cut : Option M) (last : Bool)
        → w.queue.running ≡ appending batch cut last
        → Step w (record w { queue = RoomPersistence.append_missing last w.queue; purged = true })
    append_error :
        (w : System B M E) (batch : List (NewUpdate B)) (cut : Option M) (last : Bool)
        → w.queue.running ≡ appending batch cut last
        → Step w (with_queue w (RoomPersistence.append_error batch last w.queue))
    compact_done :
        (w : System B M E) (folded last : Bool)
        → w.queue.running ≡ compacting last
        → Step w (with_queue w (RoomPersistence.compact_done folded last w.queue))
    catch_up_done :
        (w : System B M E) (missing : List (NewUpdate B)) (count : Option ℕ)
        → w.queue.running ≡ catching_up
        → Sub w.doc (w.stored ++ edits_of edits missing)
        → Step w (
            with_queue w
              (RoomPersistence.catch_up_done (durable_marker w.doc) missing count w.queue))
    flush : (w : System B M E) → Step w (with_queue w (RoomPersistence.flush w.queue))
    compact : (w : System B M E) → Step w (with_queue w (RoomPersistence.compact w.queue))
    activate :
        (w : System B M E)
        → w.queue.disposed ≡ false
        → AtRest w.queue
        → Step w (with_queue w (RoomPersistence.activate w.queue))
    deactivate : (w : System B M E) → Step w (with_queue w (RoomPersistence.deactivate w.queue))
    close :
        (w : System B M E)
        → w.queue.disposed ≡ false
        → (w.queue.active ≡ true) ⊎ AtRest w.queue
        → Step w (with_queue w (RoomPersistence.close w.queue))
    close_round :
        (w : System B M E) (now deadline : ℕ)
        → w.queue.closed ≡ true
        → Step w (with_queue w (RoomPersistence.close_round now deadline w.queue))
    reopen :
        (w : System B M E) (writer : Bool)
        → w.queue.disposed ≡ false
        → w.queue.closed ≡ true
        → AtRest w.queue
        → Step w (with_queue w (RoomPersistence.reopen writer w.queue))
    dispose : (w : System B M E) → Step w (with_queue w (RoomPersistence.dispose w.queue))
    snapshot_installed :
        (w : System B M E) (archived : ℕ)
        → Step w (with_queue w (RoomPersistence.snapshot_installed archived w.queue))

  pub data Reach (w : System B M E) : System B M E → Type 0 where
    here : Reach w w
    next : {v u : System B M E} → Reach w v → Step v u → Reach w u

  -- The step does not reopen a room as a writer that has stopped to be one.
  abbrev pub ReopensWriter : {w u : System B M E} → Step w u → Type 0
  ReopensWriter (reopen w true live c rest) = w.queue.active ≡ true
  ReopensWriter _ = Unit

  -- No step of the run does.
  abbrev pub ReopensWriters : {w u : System B M E} → Reach w u → Type 0
  ReopensWriters here = Unit
  ReopensWriters (next r s) = ReopensWriters r × ReopensWriter s
