-- ===== src/EncryptedRoom/Preserved.antt =====
-- Every call keeps the connections of a private room supplied with its log (encryptedRoom.ts).
use whiteboard_ai.Base.{
  ℕ, ◌≡◌, refl, sym, ap, subst, ◌∙◌, inl, inr, ◌||◌, ◌&&◌, not, Bool, true, false, Option, none,
  some, List, [], ◌∷◌, ◌++◌, arith, ◌==◌, ==_iff, any, any-append, filter, map, includes, ltb, leb,
  is_none, is_empty, Bool-cases, if◌then◌else◌,
}
use whiteboard_ai.RoomPersistence.{Options, NewUpdate}
use whiteboard_ai.CipherLog.{
  CipherEntry, Ack, StoredUpdate, add, has, is_after, install_snapshot, entry_of, committed,
  catch_up,
}
use whiteboard_ai.CipherLog.Known.{identities, identities-set_seqs, identities-catch_entries}
use whiteboard_ai.EncryptedRoom.{
  Vector, Connections, EncryptedRoom, SnapshotRequest, fresh_presence, snapshot_blob, Relayed,
  persisted_message, welcome, receive_update, remove_member, mark_persisted,
}
use whiteboard_ai.EncryptedRoom.Snapshots.{
  is_envelope, pick_snapshot_peer, ask, request_snapshot, relay_row, relay_rows, ask_for_snapshot,
  snapshot_stored, covered_upto, answers, accept_answer, request_times_out, is_request,
}
use whiteboard_ai.EncryptedRoom.Cluster.{relay_entry, relay_entries, answer_sync_request, lacking}
use whiteboard_ai.EncryptedRoom.Synced.{
  Synced, is_listed, sent_more, received_more, fewer, left_by, added, welcomed,
}

module _ (hash : ℕ → ℕ) where
  abbrev pub IsSynced : EncryptedRoom → Type 0
  IsSynced r = Synced hash r.members r.peers r.log.entries r.sent r.received

  is_listed-identities :
      (h : ℕ) (es : List CipherEntry)
      → is_listed hash h es ≡ includes h (map (λ i. hash i.0) (identities es))
  is_listed-identities h [] = refl
  is_listed-identities h (e ∷ es) = let rest = is_listed-identities h es in ground arith

  pub same_listed :
      (es es' : List CipherEntry)
      → identities es' ≡ identities es
      → (h : ℕ) → is_listed hash h es' ≡ true
      → is_listed hash h es ≡ true
  same_listed es es' e h b =
      is_listed-identities h es
      ∙ ap (λ is. includes h (map (λ i. hash i.0) is)) (sym e)
      ∙ sym (is_listed-identities h es')
      ∙ b

  pub listed_of_filter :
      (p : CipherEntry → Bool) (es : List CipherEntry) (h : ℕ)
      → is_listed hash h (filter p es) ≡ true
      → is_listed hash h es ≡ true
  listed_of_filter p [] h b = b
  listed_of_filter p (e ∷ es) h b =
      let rest = listed_of_filter p es h in
      elim (Bool-cases (p e)) [
        | inl t ↦
            let c =
              subst (λ k. is_listed hash h (if k then e ∷ filter p es else filter p es) ≡ true) t
                b in
            elim (Bool-cases (hash e.blob == h)) [
              | inl k ↦ ground arith
              | inr k ↦ let old = rest (ground arith) in ground arith
            ]
        | inr f ↦
            let c =
              subst (λ k. is_listed hash h (if k then e ∷ filter p es else filter p es) ≡ true) f
                b in
            let old = rest c in ground arith
      ]

  pub commits-IsSynced :
      (r : EncryptedRoom) (batch : List (NewUpdate ℕ)) (n : ℕ)
      → IsSynced r
      → IsSynced (record r { log = committed batch n r.log })
  unfolding committed
  commits-IsSynced r batch n v =
      fewer hash v _ (same_listed r.log.entries _ (identities-set_seqs batch n r.log.entries))

  pub catches_up-IsSynced :
      (r : EncryptedRoom) (rows : List StoredUpdate)
      → IsSynced r
      → IsSynced (record r { log = (catch_up hash rows r.log).0 })
  unfolding catch_up
  catches_up-IsSynced r rows v =
      fewer hash v _
        (same_listed r.log.entries _ (identities-catch_entries hash rows r.log.entries))

  pub snapshot_stored-IsSynced :
      (r : EncryptedRoom) (q : SnapshotRequest) (blob : ℕ) (archived : Option ℕ)
      → IsSynced r
      → IsSynced (snapshot_stored q blob archived r)
  unfolding snapshot_stored install_snapshot
  snapshot_stored-IsSynced r q blob none v = v
  snapshot_stored-IsSynced r q blob (some n) v =
      fewer hash v _ (listed_of_filter (is_after q.seq_upto) r.log.entries)

  pub relay_entry-IsSynced :
      (o : Options) (x : Relayed) (r : EncryptedRoom)
      → IsSynced r
      → IsSynced (relay_entry hash o x r)
  unfolding relay_entry
  relay_entry-IsSynced o x r v = elim (Bool-cases (has (hash x.blob) r.log)) [
    | inl k ↦ rw (k, add) v
    | inr k ↦ rw (k, add) (added hash v (entry_of hash x.blob x.ack none) none (λ p f. cc))
  ]

  relay_row-IsSynced :
      (bytes : ℕ → List ℕ) (upto : ℕ) (row : StoredUpdate) (r : EncryptedRoom)
      → IsSynced r
      → IsSynced (relay_row hash bytes upto row r)
  unfolding relay_row
  relay_row-IsSynced bytes upto row r v =
      elim (Bool-cases (ltb upto row.seq || not (is_envelope (bytes row.update)))) [
        | inl t ↦ rw t v
        | inr f ↦ rw f (elim (Bool-cases (has (hash row.update) r.log)) [
          | inl k ↦ rw (k, add) v
          | inr k ↦
              rw (k, add)
                (added hash v (entry_of hash row.update none (some row.seq)) none (λ p f. cc))
        ])
      ]

  pub receive_update-IsSynced :
      (c : Connections) (o : Options) (p n blob : ℕ) (r : EncryptedRoom)
      → IsSynced r
      → IsSynced (receive_update hash c o p n blob r)
  unfolding receive_update
  receive_update-IsSynced c o p n blob r v =
      let w = received_more hash v ((p, blob) ∷ []) in
      let ack : Ack = record { peer = c.peer_id p; n = n } in
      elim (Bool-cases (has (hash blob) r.log)) [
        | inl k ↦ rw (k, add) w
        | inr k ↦
            rw (k, add)
              (added hash w (entry_of hash blob (some ack) none) (some p) (λ q f.
                let same : q ≡ p = (==_iff _ _).0 (ground arith) in
                let both =
                  any-append (λ (m, b). m == q && hash b == hash blob) r.received
                    ((p, blob) ∷ []) in
                let again = ==_iff p q in
                let h = (==_iff (hash blob) (hash blob)).1 refl in
                let back = again.1 (sym same) in ground arith))
      ]

  pub welcome-IsSynced :
      (c : Connections) (now p : ℕ) (r : EncryptedRoom)
      → includes p r.members ≡ true
      → IsSynced r
      → IsSynced (welcome c now p r)
  unfolding welcome
  welcome-IsSynced c now p r m v =
      welcomed hash v p (c.peer_id p) (snapshot_blob r.log.snapshot)
        (fresh_presence now p r.presence ++ (p, persisted_message r.persisted_vector) ∷ []) m

  pub remove_member-IsSynced :
      (c : Connections) (m : ℕ) (r : EncryptedRoom) → IsSynced r → IsSynced (remove_member c m r)
  unfolding remove_member
  remove_member-IsSynced c m r v = elim (Bool-cases (not (includes m r.peers))) [
    | inl t ↦ rw t (left_by hash v m)
    | inr f ↦ rw f (sent_more hash (left_by hash v m) _)
  ]

  pub mark_persisted-IsSynced :
      (marker : Vector) (announce : Bool) (r : EncryptedRoom)
      → IsSynced r
      → IsSynced (mark_persisted marker announce r)
  unfolding mark_persisted
  mark_persisted-IsSynced marker true r v = sent_more hash v _
  mark_persisted-IsSynced marker false r v = sent_more hash v _

  ask-IsSynced :
      (c : Connections) (id upto : ℕ) (o : Option ℕ) (r : EncryptedRoom)
      → IsSynced r
      → IsSynced (ask c id upto o r)
  ask-IsSynced c id upto none r v = v
  ask-IsSynced c id upto (some p) r v = elim (Bool-cases r.closing) [
    | inl t ↦ rw t v
    | inr f ↦ rw f (sent_more hash v _)
  ]

  pub relay_rows-IsSynced :
      (bytes : ℕ → List ℕ) (upto : ℕ) (rows : List StoredUpdate) (r : EncryptedRoom)
      → IsSynced r
      → IsSynced (relay_rows hash bytes upto rows r)
  unfolding relay_rows
  relay_rows-IsSynced bytes upto [] r v = v
  relay_rows-IsSynced bytes upto (row ∷ rows) r v =
      relay_rows-IsSynced bytes upto rows _ (relay_row-IsSynced bytes upto row r v)

  pub ask_for_snapshot-IsSynced :
      (bytes : ℕ → List ℕ) (c : Connections) (id upto : ℕ) (rows : List StoredUpdate)
      (r : EncryptedRoom)
      → IsSynced r
      → IsSynced (ask_for_snapshot hash bytes c id upto rows r)
  unfolding ask_for_snapshot
  ask_for_snapshot-IsSynced bytes c id upto rows r v =
      let r1 = relay_rows hash bytes upto rows r in
      ask-IsSynced c id upto (pick_snapshot_peer c r1) r1 (relay_rows-IsSynced bytes upto rows r v)

  pub request_snapshot-IsSynced :
      (c : Connections) (r : EncryptedRoom) → IsSynced r → IsSynced (request_snapshot c r).0
  unfolding request_snapshot
  request_snapshot-IsSynced c r v =
      elim (Bool-cases (not (is_none r.snapshot_request) || r.snapshot_starting || r.closing)) [
        | inl t ↦ rw t v
        | inr f ↦
            rw f
              (elim (Bool-cases (
                leb r.log.last_committed_seq (covered_upto r.log.snapshot)
                || is_none (pick_snapshot_peer c r))) [ inl t ↦ rw t v | inr g ↦ rw g v ])
      ]

  pub accept_answer-IsSynced :
      (p id : ℕ) (o : Option SnapshotRequest) (r : EncryptedRoom)
      → IsSynced r
      → IsSynced (accept_answer p id o r).0
  accept_answer-IsSynced p id none r v = v
  accept_answer-IsSynced p id (some q) r v = elim (Bool-cases (answers p id q)) [
    | inl t ↦ rw t v
    | inr f ↦ rw f v
  ]

  pub times_out-IsSynced :
      (id : ℕ) (r : EncryptedRoom) → IsSynced r → IsSynced (request_times_out id r)
  unfolding request_times_out
  times_out-IsSynced id r v = elim (Bool-cases (is_request r.snapshot_request id)) [
    | inl t ↦ rw t v
    | inr f ↦ rw f v
  ]

  pub answer_sync_request-IsSynced :
      (from : ℕ) (theirs : List ℕ) (r : EncryptedRoom)
      → IsSynced r
      → IsSynced (answer_sync_request from theirs r)
  unfolding answer_sync_request
  answer_sync_request-IsSynced from theirs r v =
      elim (Bool-cases (is_empty (lacking theirs r.log.entries))) [
        | inl t ↦ elim (Bool-cases (any (λ h. not (has h r.log)) theirs)) [
          | inl a ↦ rw (t, a) v
          | inr b ↦ rw (t, b) v
        ]
        | inr f ↦ elim (Bool-cases (any (λ h. not (has h r.log)) theirs)) [
          | inl a ↦ rw (f, a) v
          | inr b ↦ rw (f, b) v
        ]
      ]

  pub relay_entries-IsSynced :
      (o : Options) (xs : List Relayed) (r : EncryptedRoom)
      → IsSynced r
      → IsSynced (relay_entries hash o xs r)
  unfolding relay_entries
  relay_entries-IsSynced o [] r v = v
  relay_entries-IsSynced o (x ∷ xs) r v =
      relay_entries-IsSynced o xs _ (relay_entry-IsSynced o x r v)
