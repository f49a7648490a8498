-- ===== src/EncryptedRoom/Grown.antt =====
-- What each call of a private room does to its log (encryptedRoom.ts).
use whiteboard_ai.Base.{
  ℕ, ◌≡◌, refl, sym, subst, inl, inr, ◌||◌, not, Bool, true, false, Option, none, some, List, [],
  ◌∷◌, any, includes, leb, is_none, is_empty, get_or_else, Bool-cases, Option-cases,
}
use whiteboard_ai.RoomPersistence.{Options}
use whiteboard_ai.CipherLog.{StoredUpdate, has}
use whiteboard_ai.EncryptedRoom.{
  Vector, Connections, EncryptedRoom, SnapshotRequest, ClusterMessage, Content, update, sync_reply,
  sync_request, awareness, peer_left, awareness_request, lease_released, unreadable, persisted,
  remove_member, mark_persisted, get_presence, Relayed,
}
use whiteboard_ai.EncryptedRoom.Snapshots.{
  is_envelope, pick_snapshot_peer, ask, request_snapshot, relay_rows, ask_for_snapshot,
  covered_upto, answers, accept_answer, receive_snapshot, request_times_out, is_request,
}
use whiteboard_ai.EncryptedRoom.Cluster.{
  answer_sync_request, lacking, are_envelopes, hear_persisted, hear_entries, is_local,
  apply_content, handle_cluster, handle_or_queue, handle_all, finish_loading,
}
use whiteboard_ai.EncryptedRoom.Folded.{
  Grows, stays, then-Grows, relay_rows-Grows, relay_entries-Grows,
}

module _ (hash : ℕ → ℕ) (bytes : ℕ → List ℕ) (c : Connections) (o : Options) where
  hear_entries-Grows :
      (xs : List Relayed) (r : EncryptedRoom)
      → Grows hash r.log (hear_entries hash bytes o xs r).log
  hear_entries-Grows xs r = elim (Bool-cases (are_envelopes bytes xs)) [
    | inl t ↦ rw t (relay_entries-Grows hash o xs r)
    | inr f ↦ rw f (stays hash r.log)
  ]

  pub mark_persisted_log :
      (marker : Vector) (announce : Bool) (r : EncryptedRoom)
      → (mark_persisted marker announce r).log ≡ r.log
  unfolding mark_persisted
  mark_persisted_log marker true r = refl
  mark_persisted_log marker false r = refl

  hear_persisted_log : (marker : Vector) (r : EncryptedRoom) → (hear_persisted marker r).log ≡ r.log
  hear_persisted_log marker r = elim (Option-cases r.persistence) [
    | inl n ↦ rw (n, hear_persisted) (mark_persisted_log marker false r)
    | inr (p, e) ↦
        rw (e, hear_persisted)
          (elim (Bool-cases p.active) [
            | inl t ↦ rw t refl
            | inr f ↦ rw f (mark_persisted_log marker false r)
          ])
  ]

  answer_sync_request_log :
      (from : ℕ) (theirs : List ℕ) (r : EncryptedRoom)
      → (answer_sync_request from theirs r).log ≡ r.log
  unfolding answer_sync_request
  answer_sync_request_log from theirs r =
      elim (Bool-cases (is_empty (lacking theirs r.log.entries))) [
        | inl t ↦ elim (Bool-cases (any (λ h. not (has h r.log)) theirs)) [
          | inl a ↦ rw (t, a) refl
          | inr b ↦ rw (t, b) refl
        ]
        | inr f ↦ elim (Bool-cases (any (λ h. not (has h r.log)) theirs)) [
          | inl a ↦ rw (f, a) refl
          | inr b ↦ rw (f, b) refl
        ]
      ]

  apply_content-Grows :
      (now from : ℕ) (content : Content) (r : EncryptedRoom)
      → Grows hash r.log (apply_content hash bytes o now from content r).log
  unfolding apply_content
  apply_content-Grows now from (update xs) r = hear_entries-Grows xs r
  apply_content-Grows now from (sync_reply xs) r = hear_entries-Grows xs r
  apply_content-Grows now from (sync_request theirs) r =
      rw (answer_sync_request_log from theirs r) (stays hash r.log)
  apply_content-Grows now from (awareness id blob) r =
      elim (Bool-cases (is_envelope (bytes blob))) [
        | inl t ↦ rw t (elim (Bool-cases (is_local (get_presence id r.presence))) [
          | inl l ↦ rw l (stays hash r.log)
          | inr l ↦ rw l (stays hash r.log)
        ])
        | inr f ↦ rw f (stays hash r.log)
      ]
  apply_content-Grows now from (peer_left id) r =
      elim (Bool-cases (is_local (get_presence id r.presence))) [
        | inl l ↦ rw l (stays hash r.log)
        | inr l ↦ rw l (stays hash r.log)
      ]
  apply_content-Grows now from awareness_request r = stays hash r.log
  apply_content-Grows now from (persisted marker) r =
      rw (hear_persisted_log marker r) (stays hash r.log)
  apply_content-Grows now from lease_released r = stays hash r.log
  apply_content-Grows now from unreadable r = stays hash r.log

  pub handle_cluster-Grows :
      (now : ℕ) (message : ClusterMessage) (r : EncryptedRoom)
      → Grows hash r.log (handle_cluster hash bytes o now message r).log
  unfolding handle_cluster
  handle_cluster-Grows now message r = queued r.queued_cluster
    where
      queued :
          (q : Option (List ClusterMessage))
          → Grows hash r.log (handle_or_queue hash bytes o now message q r).log
      queued (some queue) = stays hash r.log
      queued none = apply_content-Grows now message.from message.content r

  handle_all-Grows :
      (now : ℕ) (messages : List ClusterMessage) (r : EncryptedRoom)
      → Grows hash r.log (handle_all hash bytes o now messages r).log
  handle_all-Grows now [] r = stays hash r.log
  handle_all-Grows now (m ∷ ms) r =
      then-Grows hash (handle_cluster-Grows now m r) (handle_all-Grows now ms _)

  pub finish_loading-Grows :
      (now : ℕ) (r : EncryptedRoom) → Grows hash r.log (finish_loading hash bytes o now r).log
  unfolding finish_loading
  finish_loading-Grows now r =
      handle_all-Grows now (get_or_else r.queued_cluster []) (record r { queued_cluster = none })

  pub remove_member_log : (m : ℕ) (r : EncryptedRoom) → (remove_member c m r).log ≡ r.log
  unfolding remove_member
  remove_member_log m r = elim (Bool-cases (not (includes m r.peers))) [
    | inl t ↦ rw t refl
    | inr f ↦ rw f refl
  ]

  ask_log : (id upto : ℕ) (p : Option ℕ) (r : EncryptedRoom) → (ask c id upto p r).log ≡ r.log
  ask_log id upto none r = refl
  ask_log id upto (some p) r = elim (Bool-cases r.closing) [ inl t ↦ rw t refl | inr f ↦ rw f refl ]

  pub ask_for_snapshot-Grows :
      (id upto : ℕ) (rows : List StoredUpdate) (r : EncryptedRoom)
      → Grows hash r.log (ask_for_snapshot hash bytes c id upto rows r).log
  unfolding ask_for_snapshot
  ask_for_snapshot-Grows id upto rows r =
      let r1 = relay_rows hash bytes upto rows r in
      subst (Grows hash r.log) (sym (ask_log id upto (pick_snapshot_peer c r1) r1))
        (relay_rows-Grows hash bytes upto rows r)

  pub request_snapshot_log : (r : EncryptedRoom) → (request_snapshot c r).0.log ≡ r.log
  unfolding request_snapshot
  request_snapshot_log r =
      elim (Bool-cases (not (is_none r.snapshot_request) || r.snapshot_starting || r.closing)) [
        | inl t ↦ rw t refl
        | inr f ↦
            rw f
              (elim (Bool-cases (
                leb r.log.last_committed_seq (covered_upto r.log.snapshot)
                || is_none (pick_snapshot_peer c r))) [ inl t ↦ rw t refl | inr g ↦ rw g refl ])
      ]

  accept_answer_log :
      (p id : ℕ) (q : Option SnapshotRequest) (r : EncryptedRoom)
      → (accept_answer p id q r).0.log ≡ r.log
  accept_answer_log p id none r = refl
  accept_answer_log p id (some q) r = elim (Bool-cases (answers p id q)) [
    | inl t ↦ rw t refl
    | inr f ↦ rw f refl
  ]

  pub receive_snapshot_log :
      (p id : ℕ) (r : EncryptedRoom) → (receive_snapshot p id r).0.log ≡ r.log
  unfolding receive_snapshot
  receive_snapshot_log p id r = accept_answer_log p id r.snapshot_request r

  pub times_out_log : (id : ℕ) (r : EncryptedRoom) → (request_times_out id r).log ≡ r.log
  unfolding request_times_out
  times_out_log id r = elim (Bool-cases (is_request r.snapshot_request id)) [
    | inl t ↦ rw t refl
    | inr f ↦ rw f refl
  ]
