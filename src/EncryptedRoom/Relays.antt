-- ===== src/EncryptedRoom/Relays.antt =====
-- How the instances of a private room bring their logs together (applyCluster and answerSyncRequest of
-- apps/server/src/sync/encryptedRoom.ts).
use whiteboard_ai.Base.{
  ℕ, ◌≡◌, refl, subst, inl, inr, not, true, none, List, [], ◌∷◌, ◌++◌, arith, any, map, drop,
  length, Memᴰ, is_empty, Bool-cases,
}
use whiteboard_ai.RoomPersistence.{Options}
use whiteboard_ai.CipherLog.{CipherEntry, add, has}
use whiteboard_ai.CipherLog.Known.{known_grows, has-add}
use whiteboard_ai.EncryptedRoom.{EncryptedRoom, ClusterMessage, Relayed}
use whiteboard_ai.EncryptedRoom.Snapshots.{is_envelope}
use whiteboard_ai.EncryptedRoom.Cluster.{
  relay_of, lacking, reply, answer_sync_request, are_envelopes, relay_entry, relay_entries,
}

pub drop-append {ℓ} : {A : Type ℓ} (xs ys : List A) → drop (length xs) (xs ++ ys) ≡ ys
drop-append [] ys = refl
drop-append (x ∷ xs) ys = drop-append xs ys

module _ (hash : ℕ → ℕ) (o : Options) where
  -- Relaying an entry does to the log what `add` does.
  log-relay_entry :
      (x : Relayed) (r : EncryptedRoom)
      → (relay_entry hash o x r).log ≡ (add hash x.blob x.ack none r.log).0
  unfolding relay_entry
  log-relay_entry x r = elim (Bool-cases (has (hash x.blob) r.log)) [
    | inl k ↦ rw (k, add) refl
    | inr k ↦ rw (k, add) refl
  ]

  relay_entry_knows :
      (h : ℕ) (x : Relayed) (r : EncryptedRoom)
      → has h r.log ≡ true
      → has h (relay_entry hash o x r).log ≡ true
  relay_entry_knows h x r k =
      rw (log-relay_entry x r) (known_grows hash h x.blob x.ack none r.log k)

  pub relay_entries_know :
      (h : ℕ) (xs : List Relayed) (r : EncryptedRoom)
      → has h r.log ≡ true
      → has h (relay_entries hash o xs r).log ≡ true
  unfolding relay_entries
  relay_entries_know h [] r k = k
  relay_entries_know h (x ∷ xs) r k = relay_entries_know h xs _ (relay_entry_knows h x r k)

  -- What was relayed is known.
  pub has-relay_entries :
      (x : Relayed) (xs : List Relayed) (r : EncryptedRoom)
      → Memᴰ x xs
      → has (hash x.blob) (relay_entries hash o xs r).log ≡ true
  unfolding relay_entries
  has-relay_entries x [] r m = elim m [ ]
  has-relay_entries x (y ∷ ys) r (Memᴰ.head e) = relay_entries_know (hash x.blob) ys _ (
      subst (λ z. has (hash x.blob) (relay_entry hash o z r).log ≡ true) e
        (rw (log-relay_entry x r) (has-add hash x.blob x.ack none r.log)))
  has-relay_entries x (y ∷ ys) r (Memᴰ.tail m) = has-relay_entries x ys _ m

  relay_known :
      (x : Relayed) (r : EncryptedRoom)
      → has (hash x.blob) r.log ≡ true
      → relay_entry hash o x r ≡ r
  unfolding relay_entry
  relay_known x r k = rw (k, add) refl

  relay_all_known :
      (xs : List Relayed) (r : EncryptedRoom)
      → ((x : Relayed) → Memᴰ x xs → has (hash x.blob) r.log ≡ true)
      → relay_entries hash o xs r ≡ r
  unfolding relay_entries
  relay_all_known [] r f = refl
  relay_all_known (x ∷ xs) r f =
      rw (relay_known x r (f x (Memᴰ.head refl))) (relay_all_known xs r (λ y m. f y (Memᴰ.tail m)))

  -- Relays are idempotent: entries that arrive again, whatever arrived in between, change nothing in
  -- the room; nothing is sent or stored a second time.
  pub relayed_again :
      (xs ys : List Relayed) (r : EncryptedRoom)
      → let r' = relay_entries hash o ys (relay_entries hash o xs r) in
        relay_entries hash o xs r' ≡ r'
  relayed_again xs ys r =
      relay_all_known xs _
        (λ x m. relay_entries_know (hash x.blob) ys _ (has-relay_entries x xs r m))

-- The publications of a room since it was `before`, as they arrive from the instance `from`.
abbrev pub news : ℕ → EncryptedRoom → EncryptedRoom → List ClusterMessage
news from before after =
    map (λ p. record { from = from; content = p.content })
      (drop (length before.published) after.published)

module _ (hash : ℕ → ℕ) (bytes : ℕ → List ℕ) (o : Options) where
  pub all_envelopes :
      (es : List CipherEntry)
      → ((e : CipherEntry) → Memᴰ e es → is_envelope (bytes e.blob) ≡ true)
      → are_envelopes bytes (map relay_of es) ≡ true
  all_envelopes [] f = refl
  all_envelopes (e ∷ es) f =
      let first = f e (Memᴰ.head refl) in
      let rest = all_envelopes es (λ d m. f d (Memᴰ.tail m)) in ground arith

  -- A request for what is lacking leaves the log alone.
  pub log-answer :
      (from : ℕ) (theirs : List ℕ) (r : EncryptedRoom)
      → (answer_sync_request from theirs r).log ≡ r.log
  unfolding answer_sync_request
  log-answer from theirs r = elim (Bool-cases (any (λ h. not (has h r.log)) theirs)) [
    | inl t ↦ rw t (log-reply r)
    | inr f ↦ rw f (log-reply r)
  ]
    where
      log-reply : (r : EncryptedRoom) → (reply from (lacking theirs r.log.entries) r).log ≡ r.log
      log-reply r = elim (Bool-cases (is_empty (lacking theirs r.log.entries))) [
        | inl t ↦ rw t refl
        | inr f ↦ rw f refl
      ]
