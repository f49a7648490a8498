-- ===== src/EncryptedRoom/Presences.antt =====
-- Presence in a private room (handleCluster and removeMember of encryptedRoom.ts).
use whiteboard_ai.Base.{
  ℕ, ◌≡◌, ◌≢◌, refl, ap, ◌∙◌, inl, inr, not, true, false, Option, none, some, List, [], ◌∷◌, arith,
  ◌==◌, ==_iff, includes, includes-filter, any, is_empty, Memᴰ, Bool-cases, Option-cases,
  if◌then◌else◌,
}
use whiteboard_ai.Base.Memᴰ
use whiteboard_ai.RoomPersistence.{Options}
use whiteboard_ai.CipherLog.{add, has}
use whiteboard_ai.EncryptedRoom.{
  Vector, Connections, EncryptedRoom, Presence, Relayed, ClusterMessage, Content, update,
  sync_reply, sync_request, awareness, peer_left, awareness_request, lease_released, unreadable,
  persisted, get_presence, set_presence, delete_presence, without, mark_persisted, remove_member,
  peer_left_message, is_asked,
}
use whiteboard_ai.EncryptedRoom.Snapshots.{is_envelope}
use whiteboard_ai.EncryptedRoom.Counters.{told_all}
use whiteboard_ai.EncryptedRoom.Cluster.{
  is_local, lacking, are_envelopes, relay_entry, relay_entries, answer_sync_request, hear_entries,
  hear_persisted, apply_content, handle_or_queue, handle_cluster,
}

get-set_presence :
    (id i : ℕ) (p : Presence) (ps : List (ℕ × Presence))
    → get_presence id (set_presence i p ps) ≡ (if i == id then some p else get_presence id ps)
get-set_presence id i p [] = refl
get-set_presence id i p ((j, q) ∷ ps) =
    let rest = get-set_presence id i p ps in
    elim (Bool-cases (j == i)) [
      | inl t ↦
          let same : j ≡ i = (==_iff _ _).0 t in rw same (rw ((==_iff i i).1 refl) (ground arith))
      | inr f ↦ rw f (elim (Bool-cases (j == id)) [
        | inl t ↦
            let same : j ≡ id = (==_iff _ _).0 t in
            let other : (i == id) ≡ false = ground arith in rw (t, other) refl
        | inr n ↦ rw n rest
      ])
    ]

get-delete_presence :
    (id i : ℕ) (ps : List (ℕ × Presence))
    → get_presence id (delete_presence i ps) ≡ (if i == id then none else get_presence id ps)
get-delete_presence id i [] = ground arith
get-delete_presence id i ((j, q) ∷ ps) =
    let rest = get-delete_presence id i ps in
    elim (Bool-cases (j == i)) [
      | inl t ↦ let same : j ≡ i = (==_iff _ _).0 t in rw t (rw same (rest ∙ ground arith))
      | inr f ↦ rw f (elim (Bool-cases (j == id)) [
        | inl t ↦
            let same : j ≡ id = (==_iff _ _).0 t in
            let other : (i == id) ≡ false = ground arith in rw (t, other) refl
        | inr n ↦ rw n rest
      ])
    ]

-- An id without local presence is another one than that of a local presence.
not_ours :
    (id i : ℕ) (p : Presence) (ps : List (ℕ × Presence))
    → get_presence id ps ≡ some p
    → is_local (some p) ≡ true
    → is_local (get_presence i ps) ≡ false
    → (i == id) ≡ false
not_ours id i p ps e l k = elim (Bool-cases (i == id)) [
  | inl t ↦
      let same : i ≡ id = (==_iff _ _).0 t in
      absurd (
        let mine = ap is_local e ∙ l in
        let theirs = ap (λ j. is_local (get_presence j ps)) same in ground arith)
  | inr f ↦ f
]

module _ (hash : ℕ → ℕ) (bytes : ℕ → List ℕ) (o : Options) where
  presence-relay_entries :
      (xs : List Relayed) (r : EncryptedRoom) → (relay_entries hash o xs r).presence ≡ r.presence
  unfolding relay_entries
  presence-relay_entries [] r = refl
  presence-relay_entries (x ∷ xs) r = presence-relay_entries xs _ ∙ one
    where
      one : (relay_entry hash o x r).presence ≡ r.presence
      one = elim (Bool-cases (has (hash x.blob) r.log)) [
        | inl k ↦ rw (k, relay_entry, add) refl
        | inr k ↦ rw (k, relay_entry, add) refl
      ]

  presence-hear_entries :
      (xs : List Relayed) (r : EncryptedRoom)
      → (hear_entries hash bytes o xs r).presence ≡ r.presence
  presence-hear_entries xs r = elim (Bool-cases (are_envelopes bytes xs)) [
    | inl t ↦ rw t (presence-relay_entries xs r)
    | inr f ↦ rw f refl
  ]

  presence-answer :
      (from : ℕ) (theirs : List ℕ) (r : EncryptedRoom)
      → (answer_sync_request from theirs r).presence ≡ r.presence
  unfolding answer_sync_request
  presence-answer from theirs r = elim (Bool-cases (is_empty (lacking theirs r.log.entries))) [
    | inl t ↦ elim (Bool-cases (any (λ h. not (has h r.log)) theirs)) [
      | inl u ↦ rw (t, u) refl
      | inr u ↦ rw (t, u) refl
    ]
    | inr f ↦ elim (Bool-cases (any (λ h. not (has h r.log)) theirs)) [
      | inl u ↦ rw (f, u) refl
      | inr u ↦ rw (f, u) refl
    ]
  ]

  presence-hear_persisted :
      (marker : Vector) (r : EncryptedRoom) → (hear_persisted marker r).presence ≡ r.presence
  unfolding mark_persisted
  presence-hear_persisted marker r = elim (Option-cases r.persistence) [
    | inl n ↦ rw (n, hear_persisted) refl
    | inr (p, e) ↦
        rw (e, hear_persisted)
          (elim (Bool-cases p.active) [ inl t ↦ rw t refl | inr f ↦ rw f refl ])
  ]

  kept_by_content :
      (now from id : ℕ) (content : Content) (p : Presence) (r : EncryptedRoom)
      → get_presence id r.presence ≡ some p
      → is_local (some p) ≡ true
      → get_presence id (apply_content hash bytes o now from content r).presence ≡ some p
  unfolding apply_content
  kept_by_content now from id (update xs) p r e l = rw (presence-hear_entries xs r) e
  kept_by_content now from id (sync_reply xs) p r e l = rw (presence-hear_entries xs r) e
  kept_by_content now from id (sync_request theirs) p r e l = rw (presence-answer from theirs r) e
  kept_by_content now from id (awareness i blob) p r e l =
      elim (Bool-cases (is_envelope (bytes blob))) [
        | inr f ↦ rw f e
        | inl t ↦ rw t (elim (Bool-cases (is_local (get_presence i r.presence))) [
          | inl k ↦ rw k e
          | inr k ↦ rw k (
              get-set_presence id i (record { blob = blob; member = none; at = now }) r.presence
              ∙ rw (not_ours id i p r.presence e l k) e)
        ])
      ]
  kept_by_content now from id (peer_left i) p r e l =
      elim (Bool-cases (is_local (get_presence i r.presence))) [
        | inl k ↦ rw k e
        | inr k ↦
            rw k (get-delete_presence id i r.presence ∙ rw (not_ours id i p r.presence e l k) e)
      ]
  kept_by_content now from id awareness_request p r e l = e
  kept_by_content now from id (persisted marker) p r e l = rw (presence-hear_persisted marker r) e
  kept_by_content now from id lease_released p r e l = e
  kept_by_content now from id unreadable p r e l = e

  kept_or_queued :
      (now id : ℕ) (message : ClusterMessage) (q : Option (List ClusterMessage)) (p : Presence)
      (r : EncryptedRoom)
      → get_presence id r.presence ≡ some p
      → is_local (some p) ≡ true
      → get_presence id (handle_or_queue hash bytes o now message q r).presence ≡ some p
  kept_or_queued now id message (some q) p r e l = e
  kept_or_queued now id message none p r e l =
      kept_by_content now message.from id message.content p r e l

  -- No message of another instance changes or removes the presence of a connection of this one.
  pub local_presence_stays :
      (now id : ℕ) (message : ClusterMessage) (p : Presence) (m : ℕ) (r : EncryptedRoom)
      → get_presence id r.presence ≡ some p
      → p.member ≡ some m
      → get_presence id (handle_cluster hash bytes o now message r).presence ≡ some p
  unfolding handle_cluster
  local_presence_stays now id message p m r e l =
      kept_or_queued now id message r.queued_cluster p r e (rw (l, is_local) refl)

-- A connection that was welcomed and leaves is no member any more, has no presence and is asked for no
-- snapshot, and every member that stays is told that its peer left.
pub remove_member_lem :
    (c : Connections) (m k : ℕ) (r : EncryptedRoom)
    → includes m r.peers ≡ true
    → includes k r.members ≡ true
    → k ≢ m
    → let r' = remove_member c m r in
      (includes m r'.members ≡ false)
      × (includes m r'.peers ≡ false)
      × (get_presence (c.peer_id m) r'.presence ≡ none)
      × (is_asked r'.snapshot_request m ≡ false)
      × (Memᴰ (k, peer_left_message (c.peer_id m)) r'.sent)
unfolding remove_member
remove_member_lem c m k r welcomed stays other =
    let self = (==_iff m m).1 refl in
    let members = includes-filter (λ j. not (j == m)) m r.members in
    let peers = includes-filter (λ j. not (j == m)) m r.peers in
    let rest = includes-filter (λ j. not (j == m)) k r.members in
    rw welcomed (
      ground arith,
      ground arith,
      get-delete_presence (c.peer_id m) (c.peer_id m) r.presence
          ∙ rw ((==_iff (c.peer_id m) (c.peer_id m)).1 refl) refl,
      not_asked,
      Memᴰ.append_right r.sent
          (told_all (peer_left_message (c.peer_id m)) k (without m r.members) (ground arith)),
    )
  where
    not_asked :
        is_asked (if is_asked r.snapshot_request m then none else r.snapshot_request) m ≡ false
    not_asked = elim (Bool-cases (is_asked r.snapshot_request m)) [
      | inl t ↦ rw t refl
      | inr f ↦ rw f f
    ]
