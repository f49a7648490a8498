-- ===== src/RoomPersistence/Durable.antt =====
-- What an acknowledgement of apps/server/src/sync/roomPersistence.ts promises: the invariant.
use whiteboard_ai.Base.{
  ◌≡◌, ◌⊎◌, inl, inr, ◌≢◌, Bool, true, none, some, List, [], ◌∷◌, ◌++◌, All, Sub, Sub-append_right,
  Sub-insert, Bool-cases,
}
use whiteboard_ai.RoomPersistence.{
  Attribution, Options, Task, catch_up_task, Running, idle, appending, compacting, catching_up,
  Effect, persisted, committed, enqueue, enqueue_task,
}
use whiteboard_ai.RoomPersistence.System.{System, edits_of}
use whiteboard_ai.RoomPersistence.Equations.{enqueue_active, enqueue_passive}
use whiteboard_ai.RoomPersistence.Phase.{
  Phase, Phase-enqueue_task, Phase-stored, Phase-passive, Phase-receive,
}

module _ {B M E : Type 0} (edits : B → List E) (durable_marker : List E → M) where
  -- An acknowledgement is the marker of edits that are all stored.
  abbrev pub Acked : List E → Effect B M → Type 0
  Acked stored (persisted m) = (d : List E) × (m ≡ durable_marker d) × Sub d stored
  Acked stored (committed batch first) = Unit {0}

  -- A marker cut with a batch is the marker of edits that are stored once the batch is.
  abbrev pub IsCut : Bool → Running B M → List E → Type 0
  IsCut purged (appending batch (some m) last) stored =
      (purged ≡ true)
      ⊎ ((d : List E) × (m ≡ durable_marker d) × Sub d (stored ++ edits_of edits batch))
  IsCut purged _ stored = Unit {0}

  abbrev pub PhaseOf : System B M E → Type 0
  PhaseOf w =
      Phase edits w.purged w.queue.active w.queue.disposed w.queue.running w.queue.chain
        w.queue.pending w.doc w.stored

  pub record Inv (w : System B M E) : Type 0 where
    pub phase : PhaseOf w
    pub cut : IsCut w.purged w.queue.running w.stored
    pub acked : All (Acked w.stored) w.queue.effects

  pub IsCut-stored :
      (purged : Bool) (r : Running B M) (stored es : List E)
      → IsCut purged r stored
      → IsCut purged r (stored ++ es)
  IsCut-stored g (appending b (some m) l) st es (inl e) = inl e
  IsCut-stored g (appending b (some m) l) st es (inr (d, e, s)) = inr (d, e, Sub-insert _ st es _ s)
  IsCut-stored g (appending b none l) st es c = tt
  IsCut-stored g idle st es c = tt
  IsCut-stored g (compacting l) st es c = tt
  IsCut-stored g catching_up st es c = tt

  pub All-Acked-stored :
      (stored es : List E) (fs : List (Effect B M))
      → All (Acked stored) fs
      → All (Acked (stored ++ es)) fs
  All-Acked-stored st es [] h = tt
  All-Acked-stored st es (persisted m ∷ fs) ((d, e, s), h) =
      ((d, e, Sub-append_right es s), All-Acked-stored st es fs h)
  All-Acked-stored st es (committed b f ∷ fs) (_, h) = (tt, All-Acked-stored st es fs h)

  module _ (o : Options) (w : System B M E) (v : Inv w) where
    pub receive-Inv :
        (b : B) (author : Attribution)
        → Inv (record w { queue = enqueue o b author w.queue; doc = w.doc ++ edits b })
    receive-Inv b author = elim (Bool-cases w.queue.active) [
      | inl e ↦
          rw (enqueue_active w.queue o b author e)
            (record { phase = Phase-receive edits _ e v.phase; cut = v.cut; acked = v.acked })
      | inr e ↦
          rw (enqueue_passive w.queue o b author e) (record {
            phase = Phase-passive edits (edits b) e v.phase;
            cut = v.cut;
            acked = v.acked;
          })
    ]

    pub stored_elsewhere-Inv : (es : List E) → Inv (record w { stored = w.stored ++ es })
    stored_elsewhere-Inv es = record {
      phase = Phase-stored edits es v.phase;
      cut = IsCut-stored w.purged w.queue.running w.stored es v.cut;
      acked = All-Acked-stored w.stored es w.queue.effects v.acked;
    }

    pub enqueue_task-Inv :
        (t : Task) → t ≢ catch_up_task → Inv (record w { queue = enqueue_task t w.queue })
    enqueue_task-Inv t n = record {
      phase = Phase-enqueue_task edits t n v.phase;
      cut = v.cut;
      acked = v.acked;
    }
