-- ===== src/RoomPersistence/Unstranded.antt =====
-- No pending update of apps/server/src/sync/roomPersistence.ts is left waiting for ever.
use whiteboard_ai.Base.{
  ℕ, ◌≡◌, refl, sym, ◌∙◌, inl, inr, Bool, true, false, ◌||◌, none, some, List, ◌∷◌, arith, is_empty,
  Bool-cases, if◌then◌else◌, drop, take,
}
use mathlib.Core.Bool.{false≢true}
use whiteboard_ai.RoomPersistence.{
  RoomPersistence, Options, Task, idle, flush_task, last_flush_task, compact_task, catch_up_task,
  max_batch, flush_now, start,
}
use whiteboard_ai.RoomPersistence.Equations.{flush_now_disposed, flush_now_empty, flush_now_cut}
use whiteboard_ai.RoomPersistence.System.{
  System, Step, Reach, here, next, receive, stored_elsewhere, loaded, AtRest,
}
use whiteboard_ai.RoomPersistence.System
use whiteboard_ai.RoomPersistence.Served.{Served, armed, is_flush, is_appending}
use whiteboard_ai.RoomPersistence.Calls.{
  work-appending, finish-Served, enqueue-Served, timer_fires-Served, flush-Served, compact-Served,
  activate-Served, deactivate-Served, close-Served, taken, close_round-Served, reopen-Served,
  dispose-Served, snapshot_installed-Served,
}
use whiteboard_ai.RoomPersistence.Replies.{
  append_error-Served, append_missing-Served, compact_done-Served, catch_up_done-Served,
  append_ok-Served,
}

module _ {B M : Type 0} (s : RoomPersistence B M) (v : Served s) where
  flush_now-Served :
      (marker : M) (last : Bool) (t : Task) (ts : List Task)
      → is_flush t ≡ true
      → s.running ≡ idle
      → s.chain ≡ t ∷ ts
      → Served (flush_now marker last (record s { chain = ts }))
  flush_now-Served marker last t ts h i c = elim (Bool-cases s.disposed) [
    | inl d ↦
        rw (flush_now_disposed (record s { chain = ts }) marker last d)
          (finish-Served _ v.alive last (λ a _. absurd (false≢true (sym (v.alive a) ∙ d))))
    | inr d ↦ elim (Bool-cases (is_empty s.pending)) [
      | inl e ↦
          rw (flush_now_empty (record s { chain = ts }) marker last e)
            (finish-Served _ v.alive last (λ a k. let w = taken s v t ts i c a k in ground arith))
      | inr e ↦ rw (flush_now_cut (record s { chain = ts }) marker last d e) (record {
        alive = v.alive;
        works = λ a k.
            work-appending {B = B} {M = M} s.timer t ts (take max_batch s.pending)
              (if is_empty (drop max_batch s.pending) then some marker else none) last s.pending
              (drop max_batch s.pending) (taken s v t ts i c a k);
      })
    ]
  ]

  start-Served :
      (marker : M) (t : Task) (ts : List Task)
      → s.running ≡ idle
      → s.chain ≡ t ∷ ts
      → Served (start marker t (record s { chain = ts }))
  unfolding start
  start-Served marker flush_task ts i c = flush_now-Served marker false flush_task ts refl i c
  start-Served marker last_flush_task ts i c =
      flush_now-Served marker true last_flush_task ts refl i c
  start-Served marker compact_task ts i c = record {
    alive = v.alive;
    works = λ a k. let w = taken s v compact_task ts i c a k in ground arith;
  }
  start-Served marker catch_up_task ts i c = record {
    alive = v.alive;
    works = λ a k. let w = taken s v catch_up_task ts i c a k in ground arith;
  }

module _ {B M E : Type 0} (edits : B → List E) (durable_marker : List E → M) (o : Options) where
  Step-Served :
      {w u : System B M E} → Step edits durable_marker o w u → Served w.queue → Served u.queue
  Step-Served (receive w b author) v = enqueue-Served w.queue v o b author
  Step-Served (stored_elsewhere w es) v = v
  Step-Served (System.timer_fires w d e) v = timer_fires-Served w.queue v
  Step-Served (System.start w t ts i n) v = start-Served w.queue v (durable_marker w.doc) t ts i n
  Step-Served (System.append_ok w batch cut last first i live) v =
      append_ok-Served w.queue v o batch cut last first i
  Step-Served (System.append_missing w batch cut last i) v =
      append_missing-Served w.queue v batch cut last i
  Step-Served (System.append_error w batch cut last i) v = append_error-Served w.queue v batch last
  Step-Served (System.compact_done w folded last i) v = compact_done-Served w.queue v folded last i
  Step-Served (System.catch_up_done w missing count i s) v =
      catch_up_done-Served w.queue v (durable_marker w.doc) missing count i
  Step-Served (System.flush w) v = flush-Served w.queue v
  Step-Served (System.compact w) v = compact-Served w.queue v
  Step-Served (System.activate w live rest) v = activate-Served w.queue v live
  Step-Served (System.deactivate w) v = deactivate-Served w.queue v
  Step-Served (System.close w live rest) v = close-Served w.queue v live
  Step-Served (System.close_round w now deadline c) v = close_round-Served w.queue v now deadline c
  Step-Served (System.reopen w writer live c rest) v = reopen-Served w.queue v writer live rest
  Step-Served (System.dispose w) v = dispose-Served w.queue v
  Step-Served (System.snapshot_installed w n) v = snapshot_installed-Served w.queue v n

  Reach-Served :
      {w u : System B M E} → Reach edits durable_marker o w u → Served w.queue → Served u.queue
  Reach-Served here v = v
  Reach-Served (next r s) v = Step-Served s (Reach-Served r v)

  -- In every state that a loaded room reaches, a writer that is not being closed and has pending
  -- updates is never left waiting: a batch is on its way, the timer is armed, or a flush is in the
  -- chain.
  pub pending_is_served :
      (writer : Bool) (count : ℕ) (es : List E) {w : System B M E}
      → Reach edits durable_marker o (loaded writer count es) w
      → w.queue.active ≡ true
      → w.queue.closed ≡ false
      → is_empty w.queue.pending ≡ false
      → (is_appending w.queue.running || armed w.queue.timer w.queue.chain) ≡ true
  pending_is_served writer count es r a c p =
      let k = (Reach-Served r (record { alive = λ _. refl; works = λ _ _. refl })).works a c in
      ground arith
