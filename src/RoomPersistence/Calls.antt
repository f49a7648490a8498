-- ===== src/RoomPersistence/Calls.antt =====
-- The calls of apps/server/src/sync/roomPersistence.ts leave the queue served.
use whiteboard_ai.Base.{
  ℕ, ◌≡◌, refl, sym, subst, inl, inr, Bool, true, false, ◌&&◌, not, Option, none, List, [], ◌∷◌,
  ◌++◌, arith, is_empty, Bool-cases, ltb,
}
use mathlib.Core.Bool.{false≢true}
use whiteboard_ai.RoomPersistence
use whiteboard_ai.RoomPersistence.{
  RoomPersistence, NewUpdate, Attribution, Options, Task, Running, idle, appending, compacting,
  catching_up, flush_task, last_flush_task, compact_task, catch_up_task, arm, max_batch,
  retry_max_ms, enqueue, activate, deactivate, close, close_round, reopen, dispose, finish,
  flush_rest, flush_now, append_ok, append_missing, append_error, compact_done, catch_up_done,
  snapshot_installed, schedule_flush, timer_fires, start,
}
use whiteboard_ai.RoomPersistence.Equations.{
  enqueue_passive, activate_active, deactivate_active, deactivate_passive, close_active,
  close_passive,
}
use whiteboard_ai.RoomPersistence.System.{AtRest}
use whiteboard_ai.RoomPersistence.Served.{
  Served, work, work-flush, work-compact, work-arm, followed,
}

module _ {B M : Type 0} where
  pub work-appending :
      (timer : Option ℕ) (t : Task) (ts : List Task) (batch : List (NewUpdate B)) (cut : Option M)
      (last : Bool) (p q : List (NewUpdate B))
      → work {B = B} {M = M} timer idle (t ∷ ts) p ≡ true
      → work timer (appending batch cut last) ts q ≡ true
  work-appending timer t ts batch cut last p q h =
      let rest : followed timer ts ≡ true = ground arith in rw rest (ground arith)

module _ {B M : Type 0} (s : RoomPersistence B M)
    (alive : s.active ≡ true → s.disposed ≡ false) where
  pub finish-Served :
      (last : Bool)
      → (s.active ≡ true
          → s.closed ≡ false
          → work {B = B} {M = M} s.timer idle s.chain s.pending ≡ true)
      → Served (finish last s)
  unfolding finish
  finish-Served true h = record {
    alive = λ c. absurd (false≢true c);
    works = λ c. absurd (false≢true c);
  }
  finish-Served false h = record { alive = alive; works = h }

module _ {B M : Type 0} (s : RoomPersistence B M) (v : Served s) where
  pub enqueue-Served : (o : Options) (b : B) (author : Attribution) → Served (enqueue o b author s)
  unfolding enqueue schedule_flush
  enqueue-Served o b author = elim (Bool-cases s.active) [
    | inl a ↦
        rw (a, enqueue)
          (record {
            alive = λ _. v.alive a;
            works = λ _ c. work-arm s.closed _ s.timer s.running s.chain _ c;
          })
    | inr a ↦ rw (enqueue_passive s o b author a) v
  ]

  pub timer_fires-Served : Served (timer_fires s)
  unfolding timer_fires
  timer_fires-Served = record {
    alive = v.alive;
    works = λ _ _. work-flush none s.running s.chain flush_task s.pending refl;
  }

  pub flush-Served : Served (RoomPersistence.flush s)
  flush-Served = record {
    alive = v.alive;
    works = λ _ _. work-flush s.timer s.running s.chain flush_task s.pending refl;
  }

  pub compact-Served : Served (RoomPersistence.compact s)
  compact-Served = record {
    alive = v.alive;
    works = λ a c. work-compact s.timer s.running s.chain s.pending (v.works a c);
  }

  pub activate-Served : s.disposed ≡ false → Served (activate s)
  unfolding activate schedule_flush
  activate-Served live = elim (Bool-cases s.active) [
    | inl a ↦ rw (activate_active s a) v
    | inr a ↦
        rw (a, activate)
          (record {
            alive = λ _. live;
            works = λ _ _.
                work-arm false 0 s.timer s.running (s.chain ++ catch_up_task ∷ []) s.pending refl;
          })
  ]

  pub deactivate-Served : Served (deactivate s)
  deactivate-Served = elim (Bool-cases s.active) [
    | inl a ↦ rw (deactivate_active s a) (record {
      alive = v.alive;
      works = λ _ _. work-flush none s.running s.chain last_flush_task s.pending refl;
    })
    | inr a ↦ rw (deactivate_passive s a) v
  ]

  pub close-Served : s.disposed ≡ false → Served (close s)
  close-Served live = elim (Bool-cases s.active) [
    | inl a ↦
        rw (close_active s a)
          (record { alive = v.alive; works = λ _ c. absurd (false≢true (sym c)) })
    | inr a ↦
        rw (close_passive s a)
          (record { alive = λ _. live; works = λ _ c. absurd (false≢true (sym c)) })
  ]

  -- A task is taken from the chain.
  pub taken :
      (t : Task) (ts : List Task)
      → s.running ≡ idle
      → s.chain ≡ t ∷ ts
      → s.active ≡ true
      → s.closed ≡ false
      → work {B = B} {M = M} s.timer idle (t ∷ ts) s.pending ≡ true
  taken t ts i c a unclosed =
      subst (λ k. work {B = B} {M = M} s.timer idle k s.pending ≡ true) c
        (subst (λ r. work {B = B} {M = M} s.timer r s.chain s.pending ≡ true) i
          (v.works a unclosed))

  pub close_round-Served :
      (now deadline : ℕ) → s.closed ≡ true → Served (close_round now deadline s)
  unfolding close_round
  close_round-Served now deadline shut =
      elim (Bool-cases (not (is_empty s.pending) && ltb now deadline)) [
        | inl t ↦ rw (t, close_round) flush-Served
        | inr f ↦ elim (Bool-cases (ltb 0 s.updates_since_snapshot)) [
          | inl u ↦ rw (f, u, close_round) compact-Served
          | inr g ↦ rw (f, g, close_round) v
        ]
      ]

  pub reopen-Served : (writer : Bool) → s.disposed ≡ false → AtRest s → Served (reopen writer s)
  unfolding reopen schedule_flush
  reopen-Served true live rest = elim (Bool-cases (is_empty s.pending)) [
    | inl e ↦
        rw (e, reopen) (record { alive = λ _. live; works = λ _ _. rw (rest.0, rest.1, e) refl })
    | inr e ↦
        rw (e, reopen)
          (record {
            alive = λ _. live;
            works = λ _ _. work-arm false 0 s.timer s.running s.chain s.pending refl;
          })
  ]
  reopen-Served false live rest = record {
    alive = λ c. absurd (false≢true c);
    works = λ c. absurd (false≢true c);
  }

  pub dispose-Served : Served (dispose s)
  unfolding dispose
  dispose-Served = record { alive = λ c. absurd (false≢true c); works = λ c. absurd (false≢true c) }

  pub snapshot_installed-Served : (n : ℕ) → Served (snapshot_installed n s)
  unfolding snapshot_installed
  snapshot_installed-Served n = record { alive = v.alive; works = v.works }
