-- ===== src/RoomPersistence/Order.antt =====
-- The order of the pending updates in apps/server/src/sync/roomPersistence.ts.
use whiteboard_ai.Base.{
  ◌≡◌, sym, ap, ◌∙◌, true, false, List, [], ◌∷◌, ◌++◌, append_assoc, append-nil, Bool-cases, inl,
  inr, ◌≤◌, take, drop, take-append-drop, is_empty, length, length-take-le,
}
use whiteboard_ai.RoomPersistence.{
  RoomPersistence, NewUpdate, Attribution, Options, max_batch, enqueue, flush_now, append_error,
}
use whiteboard_ai.RoomPersistence.Equations.{enqueue_active, flush_now_cut}

module _ {B : Type 0} where
  abbrev pub attributed : B × Attribution → NewUpdate B
  attributed (b, author) = record {
    update = b;
    client_id = author.client_id;
    user_id = author.user_id;
  }

  abbrev pub attributed_all : List (B × Attribution) → List (NewUpdate B)
  attributed_all [] = []
  attributed_all (u ∷ us) = attributed u ∷ attributed_all us

module _ {B M : Type 0} where
  -- The updates that arrive while a batch is on its way.
  abbrev pub enqueue_all :
      Options → List (B × Attribution) → RoomPersistence B M → RoomPersistence B M
  enqueue_all o [] s = s
  enqueue_all o ((b, author) ∷ us) s = enqueue_all o us (enqueue o b author s)

  pending-enqueue_all :
      (o : Options) (us : List (B × Attribution)) (s : RoomPersistence B M)
      → s.active ≡ true
      → (enqueue_all o us s).pending ≡ s.pending ++ attributed_all us
  pending-enqueue_all o [] s e = sym (append-nil _)
  pending-enqueue_all o ((b, author) ∷ us) s e =
      let step = enqueue_active s o b author e in
      pending-enqueue_all o us (enqueue o b author s) (ap (λ x. x.active) step ∙ e)
      ∙ ap (λ x. x.pending ++ attributed_all us) step
      ∙ append_assoc s.pending _ _

  pending-append_error :
      (batch : List (NewUpdate B)) (s : RoomPersistence B M)
      → (append_error batch false s).pending ≡ batch ++ s.pending
  unfolding append_error
  pending-append_error batch s = elim (Bool-cases s.closed) [ inl e ↦ rw e | inr e ↦ rw e ]

  -- A writer that is not disposed of and has pending updates cuts a batch of at most 500 of them,
  -- the oldest. If the database refuses it, then the pending updates are again those of before, in
  -- their order, followed by those that arrived meanwhile, in theirs.
  pub failed_flush_keeps_order :
      (o : Options) (marker : M) (us : List (B × Attribution)) (s : RoomPersistence B M)
      → s.active ≡ true
      → s.disposed ≡ false
      → is_empty s.pending ≡ false
      → let batch = take max_batch s.pending in
        let s' = enqueue_all o us (flush_now marker false s) in
        (length batch ≤ 500)
        × ((flush_now marker false s).pending ≡ drop max_batch s.pending)
        × ((append_error batch false s').pending ≡ s.pending ++ attributed_all us)
  failed_flush_keeps_order o marker us s e live some_pending =
      let cut = flush_now_cut s marker false live some_pending in
      (
        length-take-le max_batch s.pending,
        ap (λ x. x.pending) cut,
        pending-append_error _ _
            ∙ ap (λ x. take max_batch s.pending ++ x)
                (pending-enqueue_all o us (flush_now marker false s) (ap (λ x. x.active) cut ∙ e)
                  ∙ ap (λ x. x.pending ++ attributed_all us) cut)
            ∙ sym (append_assoc (take max_batch s.pending) (drop max_batch s.pending) _)
            ∙ ap (λ x. x ++ attributed_all us) (take-append-drop max_batch s.pending),
      )
