-- ===== src/RoomPersistence/Acknowledged.antt =====
-- The calls of apps/server/src/sync/rooms.ts into a room's persistence keep the invariant of
-- Durable, and so does every step: what the acknowledgements promise.
use whiteboard_ai.Base.{
  ℕ, ◌≡◌, refl, sym, ap, subst, ◌⊎◌, inl, inr, Bool, true, false, List, [], ◌∷◌, ◌++◌, All-mem,
  Memᴰ, Sub, Bool-cases, is_empty, ltb, ◌&&◌, not,
}
use mathlib.Core.List.Memᴰ
use whiteboard_ai.RoomPersistence
use whiteboard_ai.RoomPersistence.{
  RoomPersistence, Options, flush_task, compact_task, catch_up_task, last_flush_task, Effect,
  persisted, activate, deactivate, close, close_round, reopen, dispose, timer_fires,
  snapshot_installed, idle,
}
use whiteboard_ai.RoomPersistence.System.{
  System, Step, receive, stored_elsewhere, start, append_ok, append_missing, append_error,
  compact_done, catch_up_done, flush, compact, Reach, here, next, loaded, AtRest, ReopensWriter,
  ReopensWriters,
}
use whiteboard_ai.RoomPersistence.System
use whiteboard_ai.RoomPersistence.Equations.{
  activate_active, activate_passive, deactivate_active, deactivate_passive, close_active,
  close_passive,
}
use whiteboard_ai.RoomPersistence.Phase.{
  Phase, IsQuiet, NoCatchUp, queued, resting, writing, disposing,
}
use whiteboard_ai.RoomPersistence.Durable.{
  Inv, Acked, receive-Inv, stored_elsewhere-Inv, enqueue_task-Inv,
}
use whiteboard_ai.RoomPersistence.Tasks.{start-Inv}
use whiteboard_ai.RoomPersistence.Answers.{
  append_ok-Inv, append_missing-Inv, append_error-Inv, compact_done-Inv, catch_up_done-Inv,
}

module _ {B M E : Type 0} (edits : B → List E) (durable_marker : List E → M) where
  module _ (o : Options) (w : System B M E) (v : Inv edits durable_marker w) where
    activate-Inv : AtRest w.queue → Inv edits durable_marker (record w { queue = activate w.queue })
    activate-Inv rest = elim (Bool-cases w.queue.active) [
      | inl e ↦ rw (activate_active w.queue e) v
      | inr e ↦ rw (activate_passive w.queue e) (record {
        phase = queued [] refl rest.0 (ap (λ c. c ++ catch_up_task ∷ []) rest.1) tt;
        cut = v.cut;
        acked = v.acked;
      })
    ]

    deactivate-Inv : Inv edits durable_marker (record w { queue = deactivate w.queue })
    deactivate-Inv = elim (Bool-cases w.queue.active) [
      | inl e ↦
          let u = enqueue_task-Inv edits durable_marker o w v last_flush_task (λ x. cc) in
          rw (deactivate_active w.queue e)
            (record { phase = u.phase; cut = u.cut; acked = u.acked })
      | inr e ↦ rw (deactivate_passive w.queue e) v
    ]

    close_active-Inv :
        w.queue.active ≡ true → Inv edits durable_marker (record w { queue = close w.queue })
    close_active-Inv e =
        let u = enqueue_task-Inv edits durable_marker o w v flush_task (λ x. cc) in
        rw (close_active w.queue e) (record { phase = u.phase; cut = u.cut; acked = u.acked })

    close-Inv :
        (w.queue.active ≡ true) ⊎ AtRest w.queue
        → Inv edits durable_marker (record w { queue = close w.queue })
    close-Inv (inl e) = close_active-Inv e
    close-Inv (inr rest) = elim (Bool-cases w.queue.active) [
      | inl e ↦ close_active-Inv e
      | inr e ↦ rw (close_passive w.queue e) (record {
        phase =
            queued (flush_task ∷ []) refl rest.0
              (ap (λ c. (c ++ catch_up_task ∷ []) ++ flush_task ∷ []) rest.1) ((λ x. cc), tt);
        cut = v.cut;
        acked = v.acked;
      })
    ]

    close_round-Inv :
        (now deadline : ℕ)
        → Inv edits durable_marker (record w { queue = close_round now deadline w.queue })
    unfolding close_round
    close_round-Inv now deadline =
        elim (Bool-cases (not (is_empty w.queue.pending) && ltb now deadline)) [
          | inl e ↦ rw e (enqueue_task-Inv edits durable_marker o w v flush_task (λ x. cc))
          | inr e ↦ elim (Bool-cases (ltb 0 w.queue.updates_since_snapshot)) [
            | inl f ↦ rw (e, f) (enqueue_task-Inv edits durable_marker o w v compact_task (λ x. cc))
            | inr f ↦ rw (e, f) v
          ]
        ]

    reopen-Inv :
        (writer : Bool)
        → (writer ≡ true → w.queue.active ≡ true)
        → AtRest w.queue
        → Inv edits durable_marker (record w { queue = reopen writer w.queue })
    unfolding reopen RoomPersistence.schedule_flush
    reopen-Inv true e rest = elim (Bool-cases (is_empty w.queue.pending)) [
      | inl f ↦ rw f (record { phase = live; cut = v.cut; acked = v.acked })
      | inr f ↦ rw f (record { phase = live; cut = v.cut; acked = v.acked })
    ]
      where
        live :
            Phase edits w.purged true w.queue.disposed w.queue.running w.queue.chain w.queue.pending
              w.doc w.stored
        live =
            subst
              (λ a.
                Phase edits w.purged a w.queue.disposed w.queue.running w.queue.chain
                  w.queue.pending w.doc w.stored)
              (e refl) v.phase
    reopen-Inv false e rest = record {
      phase = resting refl refl (subst IsQuiet (sym rest.0) tt) (subst NoCatchUp (sym rest.1) tt);
      cut = v.cut;
      acked = v.acked;
    }

    dispose-Inv : Inv edits durable_marker (record w { queue = dispose w.queue })
    unfolding dispose
    dispose-Inv = record { phase = disposing refl refl; cut = v.cut; acked = v.acked }

    timer_fires-Inv : Inv edits durable_marker (record w { queue = timer_fires w.queue })
    unfolding timer_fires
    timer_fires-Inv =
        let u = enqueue_task-Inv edits durable_marker o w v flush_task (λ x. cc) in
        record { phase = u.phase; cut = u.cut; acked = u.acked }

    snapshot_installed-Inv :
        (n : ℕ) → Inv edits durable_marker (record w { queue = snapshot_installed n w.queue })
    unfolding snapshot_installed
    snapshot_installed-Inv n = record { phase = v.phase; cut = v.cut; acked = v.acked }

  Step-Inv :
      (o : Options) {w u : System B M E}
      → (s : Step edits durable_marker o w u) → ReopensWriter edits durable_marker o s
      → Inv edits durable_marker w
      → Inv edits durable_marker u
  Step-Inv o (receive w b author) a v = receive-Inv edits durable_marker o w v b author
  Step-Inv o (stored_elsewhere w es) a v = stored_elsewhere-Inv edits durable_marker o w v es
  Step-Inv o (System.timer_fires w d e) a v = timer_fires-Inv o w v
  Step-Inv o (start w t ts i n) a v = start-Inv edits durable_marker w t ts v i n
  Step-Inv o (append_ok w batch cut last first i live) a v =
      append_ok-Inv edits durable_marker w v batch cut last i o first live
  Step-Inv o (append_missing w batch cut last i) a v =
      append_missing-Inv edits durable_marker w v batch cut last i
  Step-Inv o (append_error w batch cut last i) a v =
      append_error-Inv edits durable_marker w v batch cut last i
  Step-Inv o (compact_done w folded last i) a v =
      compact_done-Inv edits durable_marker w v folded last i
  Step-Inv o (catch_up_done w missing count i s) a v =
      catch_up_done-Inv edits durable_marker w v missing count i s
  Step-Inv o (flush w) a v = enqueue_task-Inv edits durable_marker o w v flush_task (λ x. cc)
  Step-Inv o (compact w) a v = enqueue_task-Inv edits durable_marker o w v compact_task (λ x. cc)
  Step-Inv o (System.activate w live rest) a v = activate-Inv o w v rest
  Step-Inv o (System.deactivate w) a v = deactivate-Inv o w v
  Step-Inv o (System.close w live rest) a v = close-Inv o w v rest
  Step-Inv o (System.close_round w now deadline c) a v = close_round-Inv o w v now deadline
  Step-Inv o (System.reopen w true live c rest) a v = reopen-Inv o w v true (λ _. a) rest
  Step-Inv o (System.reopen w false live c rest) a v = reopen-Inv o w v false (λ f. cc) rest
  Step-Inv o (System.dispose w) a v = dispose-Inv o w v
  Step-Inv o (System.snapshot_installed w n) a v = snapshot_installed-Inv o w v n

  loaded-Inv :
      (writer : Bool) (count : ℕ) (es : List E) → Inv edits durable_marker (loaded writer count es)
  loaded-Inv true count es = record {
    phase = writing refl (λ e. cc) tt (λ a m. Memᴰ.append_left [] m);
    cut = tt;
    acked = tt;
  }
  loaded-Inv false count es = record { phase = resting refl refl tt tt; cut = tt; acked = tt }

  Reach-Inv :
      (o : Options) {w u : System B M E}
      → (r : Reach edits durable_marker o w u) → ReopensWriters edits durable_marker o r
      → Inv edits durable_marker w
      → Inv edits durable_marker u
  Reach-Inv o here a v = v
  Reach-Inv o (next r s) a v = Step-Inv o s a.1 (Reach-Inv o r a.0 v)

  -- Where no step reopens a room as a writer that a `deactivate` beside its `close` has stopped, each
  -- marker that a loaded room has sent as "persisted" is the marker of a document all of whose edits
  -- are in the database. It is assumed of Step that the answer of `catchUp` names all that the
  -- database lacks.
  pub persisted_is_stored :
      (o : Options) (writer : Bool) (count : ℕ) (es : List E) {w : System B M E} (m : M)
      → (r : Reach edits durable_marker o (loaded writer count es) w)
      → ReopensWriters edits durable_marker o r
      → Memᴰ (persisted m) w.queue.effects
      → (d : List E) × (m ≡ durable_marker d) × Sub d w.stored
  persisted_is_stored o writer count es {w} m r calm sent =
      All-mem (Acked edits durable_marker w.stored) _ _
        (Reach-Inv o r calm (loaded-Inv writer count es)).acked sent
