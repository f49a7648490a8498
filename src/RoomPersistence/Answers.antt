-- ===== src/RoomPersistence/Answers.antt =====
-- The answers of the repository, as apps/server/src/sync/roomPersistence.ts handles them, keep the
-- invariant of Durable.
use whiteboard_ai.Base.{
  ℕ, ◌+◌, leb, length, ◌≡◌, refl, subst, inl, inr, ◌≢◌, Bool, true, false, Option, none, some, List,
  [], ◌∷◌, ◌++◌, All, append_assoc, Sub, Sub-append_nil, Bool-cases, is_empty,
}
use whiteboard_ai.RoomPersistence.{
  NewUpdate, Options, idle, appending, compacting, catching_up, Effect, committed, finish,
  acknowledge, append_ok, append_missing, append_error, compact_done, catch_up_done,
}
use whiteboard_ai.RoomPersistence.System.{System, edits_of}
use whiteboard_ai.RoomPersistence.Phase.{
  batch_of, IsQuiet, edits_of-append, Phase-proceed, Phase-leave, Phase-caught_up, gone,
}
use whiteboard_ai.RoomPersistence.Durable.{Inv, Acked, IsCut, All-Acked-stored}
use whiteboard_ai.RoomPersistence.Tasks.{finish-Inv}

module _ {B M E : Type 0} (edits : B → List E) (durable_marker : List E → M) (w : System B M E)
    (v : Inv edits durable_marker w) where
  -- A task that was not a catch-up ends, and leaves the pending updates `p`.
  module _ (busy : w.queue.running ≢ idle) (not_reading : w.queue.running ≢ catching_up)
      (p : List (NewUpdate B)) (stored : List E)
      (kept : Sub w.doc (w.stored ++ edits_of edits (batch_of w.queue.running ++ w.queue.pending))
        → Sub w.doc (stored ++ edits_of edits p))
      (passive : w.queue.pending ≡ [] → IsQuiet w.queue.running → p ≡ []) where
    conclude-Inv :
        (last : Bool) (n delay : ℕ) (timer : Option ℕ) (closed : Bool) (es : List (Effect B M))
        → All (Acked edits durable_marker stored) es
        → Inv edits durable_marker (record w {
          queue = finish last (record w.queue {
            pending = p;
            updates_since_snapshot = n;
            timer = timer;
            retry_delay = delay;
            closed = closed;
            effects = es;
          });
          stored = stored;
        })
    conclude-Inv last n delay timer closed es h =
        finish-Inv edits durable_marker last
          (record w {
            queue = record w.queue {
              pending = p;
              updates_since_snapshot = n;
              timer = timer;
              retry_delay = delay;
              closed = closed;
              effects = es;
            };
            stored = stored;
          })
          (Phase-proceed edits not_reading (λ ts e _. busy e) (λ k. k) tt passive kept v.phase)
          (Phase-leave edits not_reading (λ ts e _. busy e) (λ k. k) v.phase) h

    -- The flush goes on with a compaction.
    compacting-Inv :
        (last : Bool) (n delay : ℕ) (timer : Option ℕ) (es : List (Effect B M))
        → All (Acked edits durable_marker stored) es
        → Inv edits durable_marker (record w {
          queue = record w.queue {
            pending = p;
            updates_since_snapshot = n;
            timer = timer;
            retry_delay = delay;
            effects = es;
            running = compacting last;
          };
          stored = stored;
        })
    compacting-Inv last n delay timer es h = record {
      phase = Phase-proceed edits not_reading (λ ts e _. busy e) (λ k. k) tt passive kept v.phase;
      cut = tt;
      acked = h;
    }

  pub compact_done-Inv :
      (folded last : Bool)
      → w.queue.running ≡ compacting last
      → Inv edits durable_marker (record w { queue = compact_done folded last w.queue })
  unfolding compact_done
  compact_done-Inv folded last i = cases folded
    where
      busy : w.queue.running ≢ idle
      busy e = cc

      not_reading : w.queue.running ≢ catching_up
      not_reading e = cc

      kept :
          Sub w.doc (w.stored ++ edits_of edits (batch_of w.queue.running ++ w.queue.pending))
          → Sub w.doc (w.stored ++ edits_of edits w.queue.pending)
      kept = subst (λ x. Sub w.doc (w.stored ++ edits_of edits (batch_of x ++ w.queue.pending))) i

      cases :
          (folded : Bool)
          → Inv edits durable_marker (record w { queue = compact_done folded last w.queue })
      cases true =
          conclude-Inv busy not_reading w.queue.pending w.stored kept (λ e _. e) last 0 _ _ _ _
            v.acked
      cases false =
          conclude-Inv busy not_reading w.queue.pending w.stored kept (λ e _. e) last _ _ _ _ _
            v.acked

  module _ (batch : List (NewUpdate B)) (cut : Option M) (last : Bool)
      (i : w.queue.running ≡ appending batch cut last) where
    busy : w.queue.running ≢ idle
    busy e = cc

    not_reading : w.queue.running ≢ catching_up
    not_reading e = cc

    not-IsQuiet : ¬ IsQuiet w.queue.running
    not-IsQuiet q = subst IsQuiet i q

    covered :
        Sub w.doc (w.stored ++ edits_of edits (batch_of w.queue.running ++ w.queue.pending))
        → Sub w.doc (w.stored ++ edits_of edits (batch ++ w.queue.pending))
    covered = subst (λ x. Sub w.doc (w.stored ++ edits_of edits (batch_of x ++ w.queue.pending))) i

    pub append_error-Inv :
        Inv edits durable_marker (record w { queue = append_error batch last w.queue })
    unfolding append_error
    append_error-Inv = elim (Bool-cases w.queue.closed) [
      | inl e ↦ rw e (
          conclude-Inv busy not_reading (batch ++ w.queue.pending) w.stored covered
            (λ _ q. absurd (not-IsQuiet q)) last _ _ _ _ _ v.acked)
      | inr e ↦ rw e (
          conclude-Inv busy not_reading (batch ++ w.queue.pending) w.stored covered
            (λ _ q. absurd (not-IsQuiet q)) last _ _ _ _ _ v.acked)
    ]

    pub append_missing-Inv :
        Inv edits durable_marker (record w { queue = append_missing last w.queue; purged = true })
    unfolding append_missing
    append_missing-Inv =
        finish-Inv edits durable_marker last
          (record w { queue = record w.queue { pending = [] }; purged = true }) (gone refl)
          (gone refl) v.acked

    -- The pending updates after a committed batch.
    committed_covers :
        Sub w.doc (w.stored ++ edits_of edits (batch_of w.queue.running ++ w.queue.pending))
        → Sub w.doc ((w.stored ++ edits_of edits batch) ++ edits_of edits w.queue.pending)
    committed_covers s =
        rw (append_assoc w.stored (edits_of edits batch), ← edits_of-append edits batch) (covered s)

    pub append_ok-Inv :
        (o : Options) (first : ℕ)
        → w.purged ≡ false
        → Inv edits durable_marker (record w {
          queue = append_ok o batch cut last first w.queue;
          stored = w.stored ++ edits_of edits batch;
        })
    unfolding append_ok
    append_ok-Inv o first live =
        elim (Bool-cases (leb o.snapshot_every (w.queue.updates_since_snapshot + length batch))) [
          | inl e ↦ rw e (
              compacting-Inv busy not_reading w.queue.pending (w.stored ++ edits_of edits batch)
                committed_covers (λ p _. p) last _ _ _ _ sound)
          | inr e ↦ rw e (
              conclude-Inv busy not_reading w.queue.pending (w.stored ++ edits_of edits batch)
                committed_covers (λ p _. p) last _ _ _ _ _ sound)
        ]
      where
        old : All (Acked edits durable_marker (w.stored ++ edits_of edits batch)) w.queue.effects
        old = All-Acked-stored edits durable_marker w.stored _ w.queue.effects v.acked

        sound_for :
            (c : Option M)
            → IsCut edits durable_marker w.purged (appending batch c last) w.stored
            → All
                (Acked edits durable_marker (w.stored ++ edits_of edits batch))
                (acknowledge c (committed batch first ∷ w.queue.effects))
        sound_for none h = (tt, old)
        sound_for (some m) (inl e) = cc
        sound_for (some m) (inr h) = (h, (tt, old))

        sound :
            All
              (Acked edits durable_marker (w.stored ++ edits_of edits batch))
              (acknowledge cut (committed batch first ∷ w.queue.effects))
        sound = sound_for cut (subst (λ r. IsCut edits durable_marker w.purged r w.stored) i v.cut)

  -- The catch-up was answered with nothing to write: what the document holds is stored.
  caught_up-Inv :
      (n : ℕ) (es : List (Effect B M))
      → w.queue.running ≡ catching_up
      → Sub w.doc (w.stored ++ [])
      → All (Acked edits durable_marker w.stored) es
      → Inv edits durable_marker (record w {
        queue = record w.queue { updates_since_snapshot = n; running = idle; effects = es };
      })
  caught_up-Inv n es i s h = record {
    phase = Phase-caught_up edits [] i s v.phase;
    cut = tt;
    acked = h;
  }

  pub catch_up_done-Inv :
      (missing : List (NewUpdate B)) (count : Option ℕ)
      → w.queue.running ≡ catching_up
      → Sub w.doc (w.stored ++ edits_of edits missing)
      → Inv edits durable_marker
          (record w { queue = catch_up_done (durable_marker w.doc) missing count w.queue })
  unfolding catch_up_done
  catch_up_done-Inv (u ∷ us) none i s = record {
    phase = Phase-caught_up edits (u ∷ us) i s v.phase;
    cut = tt;
    acked = v.acked;
  }
  catch_up_done-Inv (u ∷ us) (some n) i s = record {
    phase = Phase-caught_up edits (u ∷ us) i s v.phase;
    cut = tt;
    acked = v.acked;
  }
  catch_up_done-Inv [] none i s = elim (Bool-cases (is_empty w.queue.pending)) [
    | inl e ↦ rw e (caught_up-Inv _ _ i s ((w.doc, refl, Sub-append_nil w.stored s), v.acked))
    | inr e ↦ rw e (caught_up-Inv _ _ i s v.acked)
  ]
  catch_up_done-Inv [] (some n) i s = elim (Bool-cases (is_empty w.queue.pending)) [
    | inl e ↦ rw e (caught_up-Inv _ _ i s ((w.doc, refl, Sub-append_nil w.stored s), v.acked))
    | inr e ↦ rw e (caught_up-Inv _ _ i s v.acked)
  ]
