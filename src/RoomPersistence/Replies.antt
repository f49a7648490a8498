-- ===== src/RoomPersistence/Replies.antt =====
-- The answers that apps/server/src/sync/roomPersistence.ts awaits leave the queue served.
use whiteboard_ai.Base.{
  ℕ, ◌+◌, ◌*◌, min, ◌≡◌, refl, sym, subst, inl, inr, Bool, true, false, Option, none, some, List,
  [], ◌∷◌, ◌++◌, arith, is_empty, leb, Bool-cases, if◌then◌else◌, length,
}
use mathlib.Core.Bool.{false≢true}
use whiteboard_ai.RoomPersistence
use whiteboard_ai.RoomPersistence.{
  RoomPersistence, NewUpdate, Attribution, Options, Task, Running, idle, appending, compacting,
  catching_up, flush_task, last_flush_task, compact_task, catch_up_task, arm, max_batch,
  retry_max_ms, enqueue, activate, deactivate, close, close_round, reopen, dispose, finish,
  flush_rest, flush_now, append_ok, append_missing, append_error, compact_done, catch_up_done,
  snapshot_installed, schedule_flush, timer_fires, start,
}
use whiteboard_ai.RoomPersistence.Served.{
  Served, work, work-some, work-flush, work-compact, work-arm, armed, is_flush, is_appending,
  followed,
}
use whiteboard_ai.RoomPersistence.Calls.{finish-Served}

module _ {B M : Type 0} (s : RoomPersistence B M) (v : Served s) where
  pub append_error-Served :
      (batch : List (NewUpdate B)) (last : Bool) → Served (append_error batch last s)
  unfolding append_error schedule_flush
  append_error-Served batch last = elim (Bool-cases s.closed) [
    | inl c ↦
        rw (c, append_error)
          (finish-Served
            (record s {
              closed = true;
              pending = batch ++ s.pending;
              retry_delay = min retry_max_ms (s.retry_delay * 2);
            })
            v.alive last (λ _ k. absurd (false≢true (sym k))))
    | inr c ↦
        rw (c, append_error)
          (finish-Served
            (record s {
              closed = false;
              pending = batch ++ s.pending;
              retry_delay = min retry_max_ms (s.retry_delay * 2);
              timer = arm false (min retry_max_ms (s.retry_delay * 2)) s.timer;
            })
            v.alive last
            (λ _ _.
              work-arm {B = B} {M = M} false (min retry_max_ms (s.retry_delay * 2)) s.timer idle
                s.chain (batch ++ s.pending) refl))
  ]

  pub append_missing-Served :
      (batch : List (NewUpdate B)) (cut : Option M) (last : Bool)
      → s.running ≡ appending batch cut last
      → Served (append_missing last s)
  unfolding append_missing
  append_missing-Served batch cut last r =
      finish-Served (record s { pending = [] }) v.alive last
        (λ a c.
          let w =
            subst (λ x. work {B = B} {M = M} s.timer x s.chain s.pending ≡ true) r (v.works a c) in
          ground arith)

  after_compacting :
      (last : Bool)
      → s.running ≡ compacting last
      → s.active ≡ true
      → s.closed ≡ false
      → work {B = B} {M = M} s.timer idle s.chain s.pending ≡ true
  after_compacting last r a c =
      let w =
        subst (λ x. work {B = B} {M = M} s.timer x s.chain s.pending ≡ true) r (v.works a c) in
      ground arith

  pub compact_done-Served :
      (folded last : Bool) → s.running ≡ compacting last → Served (compact_done folded last s)
  unfolding compact_done
  compact_done-Served true last r =
      finish-Served (record s { updates_since_snapshot = 0 }) v.alive last (after_compacting last r)
  compact_done-Served false last r = finish-Served s v.alive last (after_compacting last r)

  -- After a catch-up a flush is to come, whatever is pending.
  after_catch_up :
      (p : List (NewUpdate B))
      → s.running ≡ catching_up
      → s.active ≡ true
      → s.closed ≡ false
      → work {B = B} {M = M} s.timer idle s.chain p ≡ true
  after_catch_up p r a c =
      let w =
        subst (λ x. work {B = B} {M = M} s.timer x s.chain s.pending ≡ true) r (v.works a c) in
      ground arith

  pub catch_up_done-Served :
      (marker : M) (missing : List (NewUpdate B)) (stored : Option ℕ)
      → s.running ≡ catching_up
      → Served (catch_up_done marker missing stored s)
  unfolding catch_up_done finish
  catch_up_done-Served marker [] none r = elim (Bool-cases (is_empty s.pending)) [
    | inl e ↦
        rw (e, catch_up_done)
          (record { alive = v.alive; works = λ a c. after_catch_up s.pending r a c })
    | inr e ↦
        rw (e, catch_up_done)
          (record { alive = v.alive; works = λ a c. after_catch_up s.pending r a c })
  ]
  catch_up_done-Served marker [] (some n) r = elim (Bool-cases (is_empty s.pending)) [
    | inl e ↦
        rw (e, catch_up_done)
          (record { alive = v.alive; works = λ a c. after_catch_up s.pending r a c })
    | inr e ↦
        rw (e, catch_up_done)
          (record { alive = v.alive; works = λ a c. after_catch_up s.pending r a c })
  ]
  catch_up_done-Served marker (u ∷ us) none r = record {
    alive = v.alive;
    works = λ a c. after_catch_up (u ∷ us ++ s.pending) r a c;
  }
  catch_up_done-Served marker (u ∷ us) (some n) r = record {
    alive = v.alive;
    works = λ a c. after_catch_up (u ∷ us ++ s.pending) r a c;
  }

  after_append :
      (batch : List (NewUpdate B)) (cut : Option M) (last : Bool) (r : Running B M)
      → s.running ≡ appending batch cut last
      → RoomPersistence.Served.is_catching_up r ≡ false
      → s.active ≡ true
      → s.closed ≡ false
      → work {B = B} {M = M}
          (if is_empty s.pending then s.timer else arm s.closed 0 s.timer)
          r
          s.chain
          s.pending
        ≡ true
  after_append batch cut last r busy calm a c = elim (Bool-cases (is_empty s.pending)) [
    | inl e ↦
        let w =
          subst (λ x. work {B = B} {M = M} s.timer x s.chain s.pending ≡ true) busy (v.works a c) in
        rw e (ground arith)
    | inr e ↦
        let same : (if is_empty s.pending then s.timer else arm s.closed 0 s.timer)
            ≡ arm s.closed 0 s.timer =
          rw e refl in
        rw same (work-arm s.closed 0 s.timer r s.chain s.pending c)
  ]

  pub append_ok-Served :
      (o : Options) (batch : List (NewUpdate B)) (cut : Option M) (last : Bool) (first : ℕ)
      → s.running ≡ appending batch cut last
      → Served (append_ok o batch cut last first s)
  unfolding append_ok flush_rest finish
  append_ok-Served o batch cut last first r =
      elim (Bool-cases (leb o.snapshot_every (s.updates_since_snapshot + length batch))) [
        | inl t ↦
            rw (t, append_ok)
              (record {
                alive = v.alive;
                works = λ a c. after_append batch cut last (compacting last) r refl a c;
              })
        | inr f ↦
            rw (f, append_ok)
              (finish-Served _ v.alive last (λ a c. after_append batch cut last idle r refl a c))
      ]
