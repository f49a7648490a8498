-- ===== src/EncryptedRoom/Cluster.antt =====
-- Messages between the instances of a private room (finishLoading, requestSync, handleCluster,
-- applyCluster and answerSyncRequest of apps/server/src/sync/encryptedRoom.ts).
use whiteboard_ai.Base.{
  ℕ, Bool, false, not, Option, none, some, List, [], ◌∷◌, ◌++◌, filter, map, any, is_empty, is_none,
  includes, get_or_else, if◌then◌else◌,
}
use whiteboard_ai.RoomPersistence.{Options, Attribution}
use whiteboard_ai.CipherLog.{CipherEntry, has, add}
use whiteboard_ai.EncryptedRoom.{
  Relayed, Content, update, sync_reply, sync_request, awareness, peer_left, awareness_request,
  lease_released, unreadable, persisted, ClusterMessage, Presence, EncryptedRoom, Publication,
  update_message, awareness_message, peer_left_message, get_presence, set_presence, delete_presence,
  broadcast, publish, store, mark_persisted,
}
use whiteboard_ai.EncryptedRoom.Snapshots.{is_envelope}

abbrev pub no_author : Attribution
no_author = record { client_id = none; user_id = none }

-- `requestSync()`
abbrev pub request_sync : EncryptedRoom → EncryptedRoom
request_sync r = publish (sync_request r.log.known) none r

abbrev pub is_local : Option Presence → Bool
is_local none = false
is_local (some p) = not (is_none p.member)

-- The presence of local connections, as messages to the other instances.
abbrev pub local_presence : List (ℕ × Presence) → List Publication
local_presence [] = []
local_presence ((id, p) ∷ ps) =
    let rest = local_presence ps in
    if is_none p.member then rest else record { content = awareness id p.blob; to = none } ∷ rest

abbrev pub relay_of : CipherEntry → Relayed
relay_of e = record { blob = e.blob; ack = e.ack }

-- The entries whose hashes are not among `theirs`.
abbrev pub lacking : List ℕ → List CipherEntry → List CipherEntry
lacking theirs es = filter (λ e. not (includes e.hash theirs)) es

abbrev pub reply : ℕ → List CipherEntry → EncryptedRoom → EncryptedRoom
reply from es r = if is_empty es then r else publish (sync_reply (map relay_of es)) (some from) r

unfoldable pub answer_sync_request : ℕ → List ℕ → EncryptedRoom → EncryptedRoom
answer_sync_request from theirs r =
    let r1 = reply from (lacking theirs r.log.entries) r in
    if any (λ h. not (has h r.log)) theirs then request_sync r1 else r1

-- `if (!this.persistence?.isActive) this.markPersisted(payload, false)`
abbrev pub hear_persisted : List (ℕ × ℕ) → EncryptedRoom → EncryptedRoom
hear_persisted marker r =
    let marked = mark_persisted marker false r in
    elim r.persistence [ none ↦ marked | some p ↦ if p.active then r else marked ]

-- An instance's presence message: one of our own connections cannot also be elsewhere.
abbrev pub hear_awareness : ℕ → ℕ → ℕ → EncryptedRoom → EncryptedRoom
hear_awareness now id blob r =
    let theirs : Presence = record { blob = blob; member = none; at = now } in
    if is_local (get_presence id r.presence)
    then r
    else broadcast (awareness_message id blob) none
        (record r { presence = set_presence id theirs r.presence })

abbrev pub hear_peer_left : ℕ → EncryptedRoom → EncryptedRoom
hear_peer_left id r =
    if is_local (get_presence id r.presence)
    then r
    else broadcast (peer_left_message id) none
        (record r { presence = delete_presence id r.presence })

module _ (bytes : ℕ → List ℕ) where
  -- `decodeEntries(payload)`, which throws if one of them is no envelope.
  abbrev pub are_envelopes : List Relayed → Bool
  are_envelopes xs = not (any (λ x. not (is_envelope (bytes x.blob))) xs)

module _ (hash : ℕ → ℕ) (o : Options) where
  -- One round of the loop over relayed entries.
  unfoldable pub relay_entry : Relayed → EncryptedRoom → EncryptedRoom
  unfolding add
  relay_entry x r =
      let (log, entry) = add hash x.blob x.ack none r.log in
      if is_none entry
      then record r { log = log }
      else store o x.blob no_author
          (broadcast (update_message x.blob) none (record r { log = log }))

  unfoldable pub relay_entries : List Relayed → EncryptedRoom → EncryptedRoom
  unfolding relay_entry
  relay_entries [] r = r
  relay_entries (x ∷ xs) r = relay_entries xs (relay_entry x r)

module _ (hash : ℕ → ℕ) (bytes : ℕ → List ℕ) (o : Options) where
  abbrev pub hear_entries : List Relayed → EncryptedRoom → EncryptedRoom
  hear_entries xs r = if are_envelopes bytes xs then relay_entries hash o xs r else r

  -- `applyCluster(message)`; where it throws, `handleCluster` drops the message.
  unfoldable pub apply_content : ℕ → ℕ → Content → EncryptedRoom → EncryptedRoom
  unfolding relay_entries answer_sync_request
  apply_content now from (update xs) r = hear_entries xs r
  apply_content now from (sync_reply xs) r = hear_entries xs r
  apply_content now from (sync_request theirs) r = answer_sync_request from theirs r
  apply_content now from (awareness id blob) r =
      if is_envelope (bytes blob) then hear_awareness now id blob r else r
  apply_content now from (peer_left id) r = hear_peer_left id r
  apply_content now from awareness_request r = record r {
    published = r.published ++ local_presence r.presence;
  }
  apply_content now from (persisted marker) r = hear_persisted marker r
  apply_content now from lease_released r = r
  apply_content now from unreadable r = r

  -- Before the room is loaded, messages are queued.
  abbrev pub handle_or_queue :
      ℕ → ClusterMessage → Option (List ClusterMessage) → EncryptedRoom → EncryptedRoom
  handle_or_queue now message (some queue) r = record r {
    queued_cluster = some (queue ++ message ∷ []);
  }
  handle_or_queue now message none r = apply_content now message.from message.content r

  unfoldable pub handle_cluster : ℕ → ClusterMessage → EncryptedRoom → EncryptedRoom
  unfolding apply_content
  handle_cluster now message r = handle_or_queue now message r.queued_cluster r

  abbrev pub handle_all : ℕ → List ClusterMessage → EncryptedRoom → EncryptedRoom
  handle_all now [] r = r
  handle_all now (m ∷ ms) r = handle_all now ms (handle_cluster now m r)

  unfoldable pub finish_loading : ℕ → EncryptedRoom → EncryptedRoom
  unfolding handle_cluster
  finish_loading now r =
      let queued = get_or_else r.queued_cluster [] in
      let r1 = handle_all now queued (record r { queued_cluster = none }) in
      publish awareness_request none (request_sync r1)
