-- ===== src/RoomPersistence/Tasks.antt =====
-- The tasks of the chain of apps/server/src/sync/roomPersistence.ts keep the invariant of Durable.
use whiteboard_ai.Base.{
  ◌≡◌, refl, sym, ap, subst, inl, inr, ◌≢◌, ◌∙◌, Bool, true, false, none, some, List, [], ◌∷◌, ◌++◌,
  All, append-nil, take-append-drop, if◌then◌else◌, Sub, Bool-cases, is_empty, take, drop,
}
use mathlib.Core.Bool.{false≢true}
use whiteboard_ai.RoomPersistence
use whiteboard_ai.RoomPersistence.{
  RoomPersistence, NewUpdate, Options, Task, flush_task, last_flush_task, compact_task,
  catch_up_task, Running, idle, appending, compacting, catching_up, Effect, max_batch, flush_now,
  finish,
}
use whiteboard_ai.RoomPersistence.System.{System, edits_of}
use whiteboard_ai.RoomPersistence.Equations.{flush_now_disposed, flush_now_empty, flush_now_cut}
use whiteboard_ai.RoomPersistence.Phase.{
  Phase, NoCatchUp, batch_of, IsQuiet, Phase-proceed, Phase-leave, Phase-read, Phase-cut,
  Phase-covers,
}
use whiteboard_ai.RoomPersistence.Durable.{Inv, Acked, IsCut}

module _ {B M E : Type 0} (edits : B → List E) (durable_marker : List E → M) where
  pub finish-Inv :
      (last : Bool) (w : System B M E)
      → Phase {M = M} edits w.purged w.queue.active w.queue.disposed idle w.queue.chain
          w.queue.pending w.doc w.stored
      → Phase {M = M} edits w.purged false w.queue.disposed idle w.queue.chain [] w.doc w.stored
      → All (Acked edits durable_marker w.stored) w.queue.effects
      → Inv edits durable_marker (record w { queue = finish last w.queue })
  unfolding finish
  finish-Inv true w stay left h = record { phase = left; cut = tt; acked = h }
  finish-Inv false w stay left h = record { phase = stay; cut = tt; acked = h }

  -- The chain starts a task that is no catch-up.
  module _ (w : System B M E) (v : Inv edits durable_marker w) (t : Task) (ts : List Task)
      (at_idle : w.queue.running ≡ idle) (next : w.queue.chain ≡ t ∷ ts)
      (n : t ≢ catch_up_task) where
    popped : RoomPersistence B M
    popped = record w.queue { chain = ts }

    not_reading : w.queue.running ≢ catching_up
    not_reading e = subst IsQuiet (sym at_idle ∙ e) tt

    not_queued : (us : List Task) → w.queue.running ≡ idle → w.queue.chain ≢ catch_up_task ∷ us
    not_queued us _ e = n cc

    shorter : NoCatchUp w.queue.chain → NoCatchUp ts
    shorter k = (subst NoCatchUp next k).1

    same_batch :
        Sub w.doc (w.stored ++ edits_of edits (batch_of w.queue.running ++ w.queue.pending))
        → Sub w.doc (w.stored ++ edits_of edits w.queue.pending)
    same_batch =
        subst (λ x. Sub w.doc (w.stored ++ edits_of edits (batch_of x ++ w.queue.pending))) at_idle

    skip-Inv :
        (last : Bool)
        → Inv edits durable_marker
            (record w { queue = finish last (record w.queue { chain = ts }) })
    skip-Inv last =
        finish-Inv last (record w { queue = record w.queue { chain = ts } })
          (Phase-proceed edits not_reading not_queued shorter tt (λ e _. e) same_batch v.phase)
          (Phase-leave edits not_reading not_queued shorter v.phase) v.acked

    compact-Inv :
        Inv edits durable_marker
          (record w { queue = record w.queue { chain = ts; running = compacting false } })
    compact-Inv = record {
      phase = Phase-proceed edits not_reading not_queued shorter tt (λ e _. e) same_batch v.phase;
      cut = tt;
      acked = v.acked;
    }

    nonempty : is_empty w.queue.pending ≡ false → w.queue.pending ≢ []
    nonempty f e = false≢true (sym f ∙ ap is_empty e)

    -- A marker is cut only with the last pending updates.
    marker-IsCut :
        (last : Bool) (rest : List (NewUpdate B))
        → drop max_batch w.queue.pending ≡ rest
        → w.queue.disposed ≡ false
        → is_empty w.queue.pending ≡ false
        → IsCut edits durable_marker w.purged
            (appending
              (take max_batch w.queue.pending)
              (if is_empty rest then some (durable_marker w.doc) else none)
              last)
            w.stored
    marker-IsCut last (u ∷ rest) e live f = tt
    marker-IsCut last [] e live f =
        elim (Phase-covers edits not_reading not_queued live (nonempty f) v.phase) [
          | inl purged ↦ inl purged
          | inr s ↦ inr (
            w.doc,
            refl,
            subst (λ x. Sub w.doc (w.stored ++ edits_of edits x)) all_of_it (same_batch s),
          )
        ]
      where
        all_of_it : w.queue.pending ≡ take max_batch w.queue.pending
        all_of_it =
            sym (take-append-drop max_batch w.queue.pending)
            ∙ ap (λ x. take max_batch w.queue.pending ++ x) e
            ∙ append-nil _

    flush-Inv :
        (last : Bool)
        → Inv edits durable_marker (record w {
          queue = flush_now (durable_marker w.doc) last (record w.queue { chain = ts });
        })
    flush-Inv last = elim (Bool-cases w.queue.disposed) [
      | inl e ↦ rw (flush_now_disposed (record w.queue { chain = ts }) _ last e) (skip-Inv last)
      | inr e ↦ elim (Bool-cases (is_empty w.queue.pending)) [
        | inl f ↦ rw (flush_now_empty (record w.queue { chain = ts }) _ last f) (skip-Inv last)
        | inr f ↦ rw (flush_now_cut (record w.queue { chain = ts }) _ last e f) (record {
          phase =
              Phase-cut edits max_batch _ last ts at_idle shorter (λ us. not_queued us at_idle)
                (nonempty f) v.phase;
          cut = marker-IsCut last (drop max_batch w.queue.pending) refl e f;
          acked = v.acked;
        })
      ]
    ]

  -- The chain starts its next task.
  pub start-Inv :
      (w : System B M E) (t : Task) (ts : List Task)
      → Inv edits durable_marker w
      → w.queue.running ≡ idle
      → w.queue.chain ≡ t ∷ ts
      → Inv edits durable_marker (record w {
        queue = RoomPersistence.start (durable_marker w.doc) t (record w.queue { chain = ts });
      })
  unfolding RoomPersistence.start
  start-Inv w flush_task ts v i n = flush-Inv w v flush_task ts i n (λ e. cc) false
  start-Inv w last_flush_task ts v i n = flush-Inv w v last_flush_task ts i n (λ e. cc) true
  start-Inv w compact_task ts v i n = compact-Inv w v compact_task ts i n (λ e. cc)
  start-Inv w catch_up_task ts v i n = record {
    phase = Phase-read edits ts i n v.phase;
    cut = tt;
    acked = v.acked;
  }
