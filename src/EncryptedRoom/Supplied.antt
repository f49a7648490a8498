-- ===== src/EncryptedRoom/Supplied.antt =====
-- The connections of a private room have what its log has, and what a snapshot is asked for covers
-- (encryptedRoom.ts).
use whiteboard_ai.Base.{
  ℕ, ◌≡◌, refl, subst, inl, inr, true, false, Option, none, some, List, [], ◌∷◌, includes,
  get_or_else, Memᴰ, includes-map, Bool-cases, Option-cases,
}
use whiteboard_ai.RoomPersistence.{Options}
use whiteboard_ai.CipherLog.{CipherEntry}
use whiteboard_ai.EncryptedRoom.{
  Vector, Connections, EncryptedRoom, new_room, destroy, apply_loaded, ClusterMessage, Content,
  update, sync_reply, sync_request, awareness, peer_left, awareness_request, lease_released,
  unreadable, persisted, Relayed, get_presence, receive_awareness,
}
use whiteboard_ai.EncryptedRoom.Snapshots.{is_envelope, receive_snapshot}
use whiteboard_ai.EncryptedRoom.Cluster.{
  are_envelopes, hear_persisted, hear_entries, is_local, apply_content, handle_cluster,
  handle_or_queue, handle_all, finish_loading,
}
use whiteboard_ai.EncryptedRoom.System.{
  RoomStep, joins, loads, finishes, welcomes, delivers, shows, leaves, hears, persists, commits,
  catches_up, begins_snapshot, asks, fails, times_out, answered, stores, manages, destroys,
  ReachRoom, start, next,
}
use whiteboard_ai.EncryptedRoom.Synced.{holds, sent_more, joined_by}
use whiteboard_ai.EncryptedRoom.Preserved.{
  IsSynced, commits-IsSynced, catches_up-IsSynced, snapshot_stored-IsSynced,
  receive_update-IsSynced, welcome-IsSynced, remove_member-IsSynced, mark_persisted-IsSynced,
  ask_for_snapshot-IsSynced, request_snapshot-IsSynced, accept_answer-IsSynced, times_out-IsSynced,
  answer_sync_request-IsSynced, relay_entries-IsSynced,
}

module _ (hash : ℕ → ℕ) (bytes : ℕ → List ℕ) (c : Connections) (o : Options) where
  hear_entries-IsSynced :
      (xs : List Relayed) (r : EncryptedRoom)
      → IsSynced hash r
      → IsSynced hash (hear_entries hash bytes o xs r)
  hear_entries-IsSynced xs r v = elim (Bool-cases (are_envelopes bytes xs)) [
    | inl t ↦ rw t (relay_entries-IsSynced hash o xs r v)
    | inr f ↦ rw f v
  ]

  receive_snapshot-IsSynced :
      (p id : ℕ) (r : EncryptedRoom) → IsSynced hash r → IsSynced hash (receive_snapshot p id r).0
  unfolding receive_snapshot
  receive_snapshot-IsSynced p id r v = accept_answer-IsSynced hash p id r.snapshot_request r v

  hear_persisted-IsSynced :
      (marker : Vector) (r : EncryptedRoom)
      → IsSynced hash r
      → IsSynced hash (hear_persisted marker r)
  hear_persisted-IsSynced marker r v = elim (Option-cases r.persistence) [
    | inl n ↦ rw (n, hear_persisted) (mark_persisted-IsSynced hash marker false r v)
    | inr (p, e) ↦
        rw (e, hear_persisted)
          (elim (Bool-cases p.active) [
            | inl t ↦ rw t v
            | inr f ↦ rw f (mark_persisted-IsSynced hash marker false r v)
          ])
  ]

  apply_content-IsSynced :
      (now from : ℕ) (content : Content) (r : EncryptedRoom)
      → IsSynced hash r
      → IsSynced hash (apply_content hash bytes o now from content r)
  unfolding apply_content
  apply_content-IsSynced now from (update xs) r v = hear_entries-IsSynced xs r v
  apply_content-IsSynced now from (sync_reply xs) r v = hear_entries-IsSynced xs r v
  apply_content-IsSynced now from (sync_request theirs) r v =
      answer_sync_request-IsSynced hash from theirs r v
  apply_content-IsSynced now from (awareness id blob) r v =
      elim (Bool-cases (is_envelope (bytes blob))) [
        | inl t ↦ rw t (elim (Bool-cases (is_local (get_presence id r.presence))) [
          | inl l ↦ rw l v
          | inr l ↦ rw l (sent_more hash v _)
        ])
        | inr f ↦ rw f v
      ]
  apply_content-IsSynced now from (peer_left id) r v =
      elim (Bool-cases (is_local (get_presence id r.presence))) [
        | inl l ↦ rw l v
        | inr l ↦ rw l (sent_more hash v _)
      ]
  apply_content-IsSynced now from awareness_request r v = v
  apply_content-IsSynced now from (persisted marker) r v = hear_persisted-IsSynced marker r v
  apply_content-IsSynced now from lease_released r v = v
  apply_content-IsSynced now from unreadable r v = v

  handle_or_queue-IsSynced :
      (now : ℕ) (message : ClusterMessage) (q : Option (List ClusterMessage)) (r : EncryptedRoom)
      → IsSynced hash r
      → IsSynced hash (handle_or_queue hash bytes o now message q r)
  handle_or_queue-IsSynced now message (some queue) r v = v
  handle_or_queue-IsSynced now message none r v =
      apply_content-IsSynced now message.from message.content r v

  handle_cluster-IsSynced :
      (now : ℕ) (message : ClusterMessage) (r : EncryptedRoom)
      → IsSynced hash r
      → IsSynced hash (handle_cluster hash bytes o now message r)
  unfolding handle_cluster
  handle_cluster-IsSynced now message r v =
      handle_or_queue-IsSynced now message r.queued_cluster r v

  handle_all-IsSynced :
      (now : ℕ) (messages : List ClusterMessage) (r : EncryptedRoom)
      → IsSynced hash r
      → IsSynced hash (handle_all hash bytes o now messages r)
  handle_all-IsSynced now [] r v = v
  handle_all-IsSynced now (m ∷ ms) r v =
      handle_all-IsSynced now ms _ (handle_cluster-IsSynced now m r v)

  finish_loading-IsSynced :
      (now : ℕ) (r : EncryptedRoom)
      → IsSynced hash r
      → IsSynced hash (finish_loading hash bytes o now r)
  unfolding finish_loading
  finish_loading-IsSynced now r v =
      handle_all-IsSynced now (get_or_else r.queued_cluster []) (record r { queued_cluster = none })
        v

  -- Nobody was welcomed yet.
  unwelcomed-IsSynced : (r : EncryptedRoom) → r.peers ≡ [] → IsSynced hash r
  unwelcomed-IsSynced r none_yet = record {
    joined = λ p a. absurd (nobody p a);
    held = λ p h a b. absurd (nobody p a);
  }
    where
      nobody : (p : ℕ) → includes p r.peers ≡ true → ⊥
      nobody p a = let b = subst (λ ps. includes p ps ≡ true) none_yet a in cc

  step-IsSynced :
      {r s : EncryptedRoom} → RoomStep hash bytes c o r s → IsSynced hash r → IsSynced hash s
  unfolding receive_awareness destroy
  step-IsSynced {r} (joins m) v = joined_by hash v m
  step-IsSynced {r} (loads board e) v = unwelcomed-IsSynced (apply_loaded hash board r) e
  step-IsSynced {r} (finishes now) v = finish_loading-IsSynced now r v
  step-IsSynced {r} (welcomes now p m) v = welcome-IsSynced hash c now p r m v
  step-IsSynced {r} (delivers p n blob) v = receive_update-IsSynced hash c o p n blob r v
  step-IsSynced {r} (shows now p blob) v = sent_more hash v _
  step-IsSynced {r} (leaves m) v = remove_member-IsSynced hash c m r v
  step-IsSynced {r} (hears now message) v = handle_cluster-IsSynced now message r v
  step-IsSynced {r} (persists marker announce) v = mark_persisted-IsSynced hash marker announce r v
  step-IsSynced {r} (commits batch n) v = commits-IsSynced hash r batch n v
  step-IsSynced {r} (catches_up rows) v = catches_up-IsSynced hash r rows v
  step-IsSynced {r} begins_snapshot v = request_snapshot-IsSynced hash c r v
  step-IsSynced {r} (asks id upto rows) v = ask_for_snapshot-IsSynced hash bytes c id upto rows r v
  step-IsSynced {r} fails v = v
  step-IsSynced {r} (times_out id) v = times_out-IsSynced hash id r v
  step-IsSynced {r} (answered p id) v = receive_snapshot-IsSynced p id r v
  step-IsSynced {r} (stores q blob archived) v = snapshot_stored-IsSynced hash r q blob archived v
  step-IsSynced {r} (manages persistence closing) v = v
  step-IsSynced {r} destroys v = v

  pub reach-IsSynced : {r : EncryptedRoom} → ReachRoom hash bytes c o r → IsSynced hash r
  reach-IsSynced start = unwelcomed-IsSynced new_room refl
  reach-IsSynced (next h s) = step-IsSynced s (reach-IsSynced h)

  -- In every reachable room, each connection that was welcomed and has not left is a member, and was
  -- sent bytes with the hash of each entry of the log, or is a connection that delivered such bytes.
  pub every_peer_is_supplied :
      {r : EncryptedRoom} (p : ℕ) (e : CipherEntry)
      → ReachRoom hash bytes c o r
      → includes p r.peers ≡ true
      → Memᴰ e r.log.entries
      → (includes p r.members ≡ true) × (holds hash p (hash e.blob) r.sent r.received ≡ true)
  every_peer_is_supplied {r} p e h m k =
      let v = reach-IsSynced h in
      (v.joined p m, v.held p (hash e.blob) m (includes-map (λ f. hash f.blob) e r.log.entries k))
