-- ===== src/EncryptedRoom/Exchange.antt =====
-- One instance of a private room asks, another answers (requestSync and answerSyncRequest of
-- apps/server/src/sync/encryptedRoom.ts).
use whiteboard_ai.Base.{
  ℕ, ◌≡◌, refl, sym, ap, subst, ◌∙◌, inl, inr, not, Bool, true, false, none, some, List, [], ◌∷◌,
  ◌++◌, any, map, drop, length, includes, All, All-mem, Memᴰ, is_empty, filtered, Mem-filter,
  Bool-cases, append-nil, append_assoc, if◌then◌else◌,
}
use whiteboard_ai.Base.Memᴰ
use whiteboard_ai.RoomPersistence.{Options}
use whiteboard_ai.CipherLog.{CipherEntry, add, has}
use whiteboard_ai.CipherLog.Known.{IsLog, identity, identities}
use whiteboard_ai.EncryptedRoom.{
  EncryptedRoom, Publication, ClusterMessage, Relayed, Content, update, sync_reply, sync_request,
  awareness, peer_left, awareness_request, lease_released, unreadable, persisted,
}
use whiteboard_ai.EncryptedRoom.Snapshots.{is_envelope}
use whiteboard_ai.EncryptedRoom.Cluster.{
  relay_of, lacking, answer_sync_request, are_envelopes, relay_entry, relay_entries, apply_content,
  handle_cluster, handle_all, handle_or_queue,
}
use whiteboard_ai.EncryptedRoom.Relays.{
  drop-append, relay_entries_know, has-relay_entries, news, all_envelopes, log-answer,
}

abbrev pub is_sync_request : Content → Bool
is_sync_request (sync_request hashes) = true
is_sync_request (update xs) = false
is_sync_request (sync_reply xs) = false
is_sync_request (awareness id blob) = false
is_sync_request (peer_left id) = false
is_sync_request awareness_request = false
is_sync_request lease_released = false
is_sync_request unreadable = false
is_sync_request (persisted marker) = false

-- What is published in answer to a request.
abbrev answer_news : ℕ → List ℕ → EncryptedRoom → List Publication
answer_news from theirs r =
    (if is_empty (lacking theirs r.log.entries)
      then []
      else record {
        content = sync_reply (map relay_of (lacking theirs r.log.entries));
        to = some from;
      }
        ∷ [])
    ++ (if any (λ h. not (has h r.log)) theirs
        then record { content = sync_request r.log.known; to = none } ∷ []
        else [])

published-answer :
    (from : ℕ) (theirs : List ℕ) (r : EncryptedRoom)
    → (answer_sync_request from theirs r).published ≡ r.published ++ answer_news from theirs r
unfolding answer_sync_request
published-answer from theirs r = elim (Bool-cases (is_empty (lacking theirs r.log.entries))) [
  | inl t ↦ elim (Bool-cases (any (λ h. not (has h r.log)) theirs)) [
    | inl a ↦ rw (t, a) refl
    | inr b ↦ rw (t, b) (sym (append-nil r.published))
  ]
  | inr f ↦ elim (Bool-cases (any (λ h. not (has h r.log)) theirs)) [
    | inl a ↦ rw (f, a) (append_assoc r.published _ _)
    | inr b ↦ rw (f, b) refl
  ]
]

sound_entry :
    (P : ℕ × ℕ → Type 0) (e : CipherEntry) (es : List CipherEntry)
    → All P (identities es)
    → Memᴰ e es
    → P (identity e)
sound_entry P e [] h m = elim m [ ]
sound_entry P e (f ∷ es) h (Memᴰ.head k) = subst (λ z. P (identity z)) (sym k) h.0
sound_entry P e (f ∷ es) h (Memᴰ.tail m) = sound_entry P e es h.1 m

module _ (hash : ℕ → ℕ) (bytes : ℕ → List ℕ) (o : Options) where
  queue-relay_entry :
      (x : Relayed) (r : EncryptedRoom) → (relay_entry hash o x r).queued_cluster ≡ r.queued_cluster
  unfolding relay_entry
  queue-relay_entry x r = elim (Bool-cases (has (hash x.blob) r.log)) [
    | inl k ↦ rw (k, add) refl
    | inr k ↦ rw (k, add) refl
  ]

  queue-relay_entries :
      (xs : List Relayed) (r : EncryptedRoom)
      → (relay_entries hash o xs r).queued_cluster ≡ r.queued_cluster
  unfolding relay_entries
  queue-relay_entries [] r = refl
  queue-relay_entries (x ∷ xs) r = queue-relay_entries xs _ ∙ queue-relay_entry x r

  -- A room that is loaded handles a message at once.
  handle_loaded :
      (now : ℕ) (m : ClusterMessage) (r : EncryptedRoom)
      → r.queued_cluster ≡ none
      → handle_cluster hash bytes o now m r ≡ apply_content hash bytes o now m.from m.content r
  unfolding handle_cluster
  handle_loaded now m r q = ap (λ z. handle_or_queue hash bytes o now m z r) q

  -- A request leaves what is known alone.
  knows_after_request :
      (now from h : ℕ) (theirs : List ℕ) (r : EncryptedRoom)
      → r.queued_cluster ≡ none
      → has h r.log ≡ true
      → has h
          (handle_cluster hash bytes o now
            (record { from = from; content = sync_request theirs })
            r).log
        ≡ true
  unfolding apply_content
  knows_after_request now from h theirs r q k =
      rw (handle_loaded now (record { from = from; content = sync_request theirs }) r q)
        (rw (log-answer hash bytes o from theirs r) k)

  reply_relays :
      (now from : ℕ) (xs : List Relayed) (r : EncryptedRoom)
      → r.queued_cluster ≡ none
      → are_envelopes bytes xs ≡ true
      → handle_cluster hash bytes o now (record { from = from; content = sync_reply xs }) r
        ≡ relay_entries hash o xs r
  unfolding apply_content
  reply_relays now from xs r q v =
      handle_loaded now (record { from = from; content = sync_reply xs }) r q ∙ rw v refl

  abbrev from_instance : ℕ → Publication → ClusterMessage
  from_instance id p = record { from = id; content = p.content }

  asks_back :
      (ida idb : ℕ) (theirs : List ℕ) (a : EncryptedRoom)
      → any (λ n. is_sync_request n.content) (map (from_instance ida) (answer_news idb theirs a))
        ≡ any (λ h. not (has h a.log)) theirs
  asks_back ida idb theirs a = elim (Bool-cases (is_empty (lacking theirs a.log.entries))) [
    | inl t ↦ elim (Bool-cases (any (λ h. not (has h a.log)) theirs)) [
      | inl u ↦ rw (t, u) refl
      | inr u ↦ rw (t, u) refl
    ]
    | inr f ↦ elim (Bool-cases (any (λ h. not (has h a.log)) theirs)) [
      | inl u ↦ rw (f, u) refl
      | inr u ↦ rw (f, u) refl
    ]
  ]

  module _ (now ida idb : ℕ) (a b : EncryptedRoom) (e : CipherEntry) (qb : b.queued_cluster ≡ none)
      (env : All (λ d. is_envelope (bytes d.blob) ≡ true) a.log.entries) (v : IsLog hash a.log)
      (m : Memᴰ e a.log.entries) where
    hash_of : e.hash ≡ hash e.blob
    hash_of =
        (sound_entry (λ i. (i.1 ≡ hash i.0) × (has i.1 a.log ≡ true)) e a.log.entries v.sound m).0

    abbrev missed : List CipherEntry
    missed = lacking b.log.known a.log.entries

    not_missed : is_empty missed ≡ true → has (hash e.blob) b.log ≡ true
    not_missed t = elim (Bool-cases (includes e.hash b.log.known)) [
      | inl k ↦ subst (λ h. has h b.log ≡ true) hash_of k
      | inr n ↦
          let k =
            Mem-filter (λ d. not (includes d.hash b.log.known)) e a.log.entries m (rw n refl) in
          absurd (nothing missed t k)
    ]
      where
        nothing : (es : List CipherEntry) → is_empty es ≡ true → Memᴰ e es → ⊥
        nothing [] t k = elim k [ ]
        nothing (d ∷ es) t k = cc

    missed_relayed : (has (hash e.blob) (relay_entries hash o (map relay_of missed) b).log ≡ true)
    missed_relayed = elim (Bool-cases (includes e.hash b.log.known)) [
      | inl k ↦
          relay_entries_know hash o (hash e.blob) (map relay_of missed) b
            (subst (λ h. has h b.log ≡ true) hash_of k)
      | inr n ↦ has-relay_entries hash o (relay_of e) (map relay_of missed) b (
          Memᴰ.map relay_of
            (Mem-filter (λ d. not (includes d.hash b.log.known)) e a.log.entries m (rw n refl)))
    ]

    heard :
        has
          (hash e.blob)
          (handle_all hash bytes o now
            (map (from_instance ida) (answer_news idb b.log.known a))
            b).log
        ≡ true
    heard = elim (Bool-cases (is_empty missed)) [
      | inl t ↦ elim (Bool-cases (any (λ h. not (has h a.log)) b.log.known)) [
        | inl u ↦
            rw (t, u) (knows_after_request now ida (hash e.blob) a.log.known b qb (not_missed t))
        | inr u ↦ rw (t, u) (not_missed t)
      ]
      | inr f ↦ elim (Bool-cases (any (λ h. not (has h a.log)) b.log.known)) [
        | inl u ↦
            rw (f, u)
              (rw (reply_relays now ida (map relay_of missed) b qb whole) (
                knows_after_request now ida (hash e.blob) a.log.known _
                  (queue-relay_entries (map relay_of missed) b ∙ qb) missed_relayed))
        | inr u ↦
            rw (f, u) (rw (reply_relays now ida (map relay_of missed) b qb whole) missed_relayed)
      ]
    ]
      where
        whole : are_envelopes bytes (map relay_of missed) ≡ true
        whole = all_envelopes hash bytes o missed (λ d k.
            All-mem (λ d. is_envelope (bytes d.blob) ≡ true) d a.log.entries env
              (filtered (λ d. not (includes d.hash b.log.known)) d a.log.entries k).0)

  -- Of two loaded rooms of one board, `b` asks for what it lacks and handles what `a` publishes in
  -- answer. Then `b` knows the hash of every entry of `a`, if these are envelopes and the log of `a` is
  -- well formed; and `a` asks back exactly if `b` asked with a hash that `a` does not know.
  pub answered_request_teaches :
      (now ida idb : ℕ) (a b : EncryptedRoom) (e : CipherEntry)
      → a.queued_cluster ≡ none
      → b.queued_cluster ≡ none
      → All (λ d. is_envelope (bytes d.blob) ≡ true) a.log.entries
      → IsLog hash a.log
      → Memᴰ e a.log.entries
      → let request : ClusterMessage = record { from = idb; content = sync_request b.log.known } in
        let a' = handle_cluster hash bytes o now request a in
        (has (hash e.blob) (handle_all hash bytes o now (news ida a a') b).log ≡ true)
        × (any (λ n. is_sync_request n.content) (news ida a a')
            ≡ any (λ h. not (has h a.log)) b.log.known)
  unfolding apply_content
  answered_request_teaches now ida idb a b e qa qb env v m =
      let request : ClusterMessage = record { from = idb; content = sync_request b.log.known } in
      let new : news ida a (handle_cluster hash bytes o now request a)
          ≡ map (from_instance ida) (answer_news idb b.log.known a) =
        ap (λ z. news ida a z) (handle_loaded now request a qa)
        ∙ ap (λ ps. map (from_instance ida) (drop (length a.published) ps))
            (published-answer idb b.log.known a)
        ∙ ap (map (from_instance ida)) (drop-append a.published (answer_news idb b.log.known a)) in
      rw new (heard now ida idb a b e qb env v m, asks_back ida idb b.log.known a)
