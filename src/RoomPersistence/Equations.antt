-- ===== src/RoomPersistence/Equations.antt =====
-- The branches of the methods of apps/server/src/sync/roomPersistence.ts, as equations.
use whiteboard_ai.Base.{
  ◌≡◌, Bool, true, false, none, some, [], ◌∷◌, ◌++◌, take, drop, is_empty, if◌then◌else◌,
  Bool-cases, inl, inr,
}
use whiteboard_ai.RoomPersistence.{
  RoomPersistence, Attribution, Options, catch_up_task, appending, max_batch, enqueue, activate,
  flush_now, finish, close, deactivate, last_flush_task, flush_task,
}

module _ {B M : Type 0} (s : RoomPersistence B M) where
  pub enqueue_active :
      (o : Options) (b : B) (author : Attribution)
      → s.active ≡ true
      → enqueue o b author s ≡ record s {
        pending =
            s.pending
            ++ record { update = b; client_id = author.client_id; user_id = author.user_id } ∷ [];
        timer = (enqueue o b author s).timer;
      }
  unfolding enqueue
  enqueue_active o b author e = rw e

  pub enqueue_passive :
      (o : Options) (b : B) (author : Attribution) → s.active ≡ false → enqueue o b author s ≡ s
  unfolding enqueue
  enqueue_passive o b author e = rw e

  pub activate_active : s.active ≡ true → activate s ≡ s
  unfolding activate
  activate_active e = rw e

  pub activate_passive :
      s.active ≡ false
      → activate s ≡ record s {
        active = true;
        closed = false;
        chain = s.chain ++ catch_up_task ∷ [];
        timer = (activate s).timer;
      }
  unfolding activate
  activate_passive e = rw e

  pub deactivate_active :
      s.active ≡ true
      → deactivate s ≡ record s { timer = none; chain = s.chain ++ last_flush_task ∷ [] }
  unfolding deactivate
  deactivate_active e = rw e

  pub deactivate_passive : s.active ≡ false → deactivate s ≡ s
  unfolding deactivate
  deactivate_passive e = rw e

  pub close_active :
      s.active ≡ true
      → close s ≡ record s { chain = s.chain ++ flush_task ∷ []; closed = true; timer = none }
  unfolding close
  close_active e = rw e

  pub close_passive :
      s.active ≡ false
      → close s ≡ record s {
        active = true;
        chain = (s.chain ++ catch_up_task ∷ []) ++ flush_task ∷ [];
        closed = true;
        timer = none;
      }
  unfolding close
  close_passive e = rw e

  pub flush_now_disposed :
      (m : M) (last : Bool) → s.disposed ≡ true → flush_now m last s ≡ finish last s
  unfolding flush_now
  flush_now_disposed m last e = rw e

  pub flush_now_empty :
      (m : M) (last : Bool) → is_empty s.pending ≡ true → flush_now m last s ≡ finish last s
  unfolding flush_now
  flush_now_empty m last e = elim (Bool-cases s.disposed) [ inl d ↦ rw d | inr d ↦ rw (d, e) ]

  pub flush_now_cut :
      (m : M) (last : Bool)
      → s.disposed ≡ false
      → is_empty s.pending ≡ false
      → flush_now m last s ≡ record s {
        pending = drop max_batch s.pending;
        running =
            appending
              (take max_batch s.pending)
              (if is_empty (drop max_batch s.pending) then some m else none)
              last;
      }
  unfolding flush_now
  flush_now_cut m last e h = rw (e, h)
