-- ===== src/EncryptedRoom.antt =====
-- EncryptedRoom of apps/server/src/sync/encryptedRoom.ts: the room of a private board on one
-- instance. A connection is a number, which stands for the object; its readonly members are the
-- record `Connections`. Messages are what they encode: lib0, which writes their bytes, is no part of
-- the repository. Metrics, logging and the handles of timers are left out.
pub mod Snapshots
pub mod Cluster
pub mod System
pub mod Synced
pub mod Preserved
pub mod Supplied
pub mod Requests
pub mod Folded
pub mod Grown
pub mod Replaced
pub mod Relays
pub mod Exchange
pub mod Answers
pub mod Counters
pub mod Presences
mod Tests
use whiteboard_ai.Base.{
  ℕ, ◌-◌, Bool, true, false, ◌&&◌, not, Option, none, some, List, [], ◌∷◌, ◌++◌, map, filter, find,
  length, is_empty, is_none, ltb, leb, ◌==◌, includes, if◌then◌else◌,
}
use whiteboard_ai.RoomPersistence.{
  RoomPersistence, Options, Attribution, enqueue, snapshot_installed, dispose,
}
use whiteboard_ai.CipherLog.{
  Ack, CipherLog, Snapshot, StoredUpdate, LoadedBoard, empty_log, note_ack, add, load,
  install_snapshot,
}

-- A map from peers to counters.
abbrev pub Vector : Type 0
Vector = List (ℕ × ℕ)

pub record Connections : Type 0 where
  pub peer_id : ℕ → ℕ
  pub can_write : ℕ → Bool
  pub attribution : ℕ → Attribution

-- What the room sends to a connection.
pub data Message : Type 0 where
  welcome_message : ℕ → Message
  state_message : Option ℕ → List ℕ → Message
  update_message : ℕ → Message
  awareness_message : ℕ → ℕ → Message
  peer_left_message : ℕ → Message
  persisted_message : Vector → Message
  request_message : ℕ → ℕ → Message

pub record Relayed : Type 0 where
  pub blob : ℕ
  pub ack : Option Ack

-- The kind and the payload of a message between instances; `unreadable` is one whose bytes are not
-- what its kind asks for.
pub data Content : Type 0 where
  update sync_reply : List Relayed → Content
  sync_request : List ℕ → Content
  awareness : ℕ → ℕ → Content
  peer_left : ℕ → Content
  awareness_request lease_released unreadable : Content
  persisted : Vector → Content

pub record ClusterMessage : Type 0 where
  pub from : ℕ
  pub content : Content

-- A call of `bus.publish`, with `to` where it is addressed to one instance.
pub record Publication : Type 0 where
  pub content : Content
  pub to : Option ℕ

pub record Presence : Type 0 where
  pub blob : ℕ
  pub member : Option ℕ
  pub at : ℕ

pub record SnapshotRequest : Type 0 where
  pub id : ℕ
  pub seq_upto : ℕ
  pub peer : ℕ

-- `queued_cluster` is none once the room is loaded. The last three fields are logs, oldest first:
-- what was sent to connections, what was published, and the updates that connections delivered.
pub record EncryptedRoom : Type 0 where
  pub members : List ℕ
  pub peers : List ℕ
  pub log : CipherLog
  pub presence : List (ℕ × Presence)
  pub persistence : Option (RoomPersistence ℕ Vector)
  pub closing : Bool
  pub persisted_vector : Vector
  pub queued_cluster : Option (List ClusterMessage)
  pub snapshot_request : Option SnapshotRequest
  pub snapshot_starting : Bool
  pub sent : List (ℕ × Message)
  pub published : List Publication
  pub received : List (ℕ × ℕ)

abbrev pub new_room : EncryptedRoom
new_room = record {
  members = [];
  peers = [];
  log = empty_log;
  presence = [];
  persistence = none;
  closing = false;
  persisted_vector = [];
  queued_cluster = some [];
  snapshot_request = none;
  snapshot_starting = false;
  sent = [];
  published = [];
  received = [];
}

abbrev pub presence_stale_ms : ℕ
presence_stale_ms = 30000

-- `this.presence.get(peerId)`
abbrev pub get_presence : ℕ → List (ℕ × Presence) → Option Presence
get_presence id [] = none
get_presence id ((i, p) ∷ ps) = if i == id then some p else get_presence id ps

-- `this.presence.set(peerId, p)`
abbrev pub set_presence : ℕ → Presence → List (ℕ × Presence) → List (ℕ × Presence)
set_presence id p [] = (id, p) ∷ []
set_presence id p ((i, q) ∷ ps) =
    let rest = set_presence id p ps in if i == id then (i, p) ∷ ps else (i, q) ∷ rest

-- `this.presence.delete(peerId)`
abbrev pub delete_presence : ℕ → List (ℕ × Presence) → List (ℕ × Presence)
delete_presence id [] = []
delete_presence id ((i, q) ∷ ps) =
    let rest = delete_presence id ps in if i == id then rest else (i, q) ∷ rest

-- `set.add(m)`, and `map.set(m, m)`
abbrev pub add_once : ℕ → List ℕ → List ℕ
add_once m ms = if includes m ms then ms else ms ++ m ∷ []

abbrev pub without : ℕ → List ℕ → List ℕ
without m ms = filter (λ k. not (k == m)) ms

-- `mergeStateVectors(a, b)`
unfoldable pub merge_vectors : Vector → Vector → Vector
unfolding note_ack
merge_vectors a [] = a
merge_vectors a ((p, n) ∷ b) = merge_vectors (note_ack (some (record { peer = p; n = n })) a) b

abbrev pub is_not : Option ℕ → ℕ → Bool
is_not none m = true
is_not (some e) m = not (m == e)

-- What `broadcast(message, except)` sends.
abbrev pub posts : Message → Option ℕ → List ℕ → List (ℕ × Message)
posts message except ms = map (λ m. (m, message)) (filter (is_not except) ms)

abbrev pub broadcast : Message → Option ℕ → EncryptedRoom → EncryptedRoom
broadcast message except r = record r { sent = r.sent ++ posts message except r.members }

abbrev pub send : ℕ → Message → EncryptedRoom → EncryptedRoom
send m message r = record r { sent = r.sent ++ (m, message) ∷ [] }

abbrev pub publish : Content → Option ℕ → EncryptedRoom → EncryptedRoom
publish content to r = record r {
  published = r.published ++ record { content = content; to = to } ∷ [];
}

abbrev pub add_member : ℕ → EncryptedRoom → EncryptedRoom
add_member m r = record r { members = add_once m r.members }

abbrev pub snapshot_blob : Option Snapshot → Option ℕ
snapshot_blob none = none
snapshot_blob (some s) = some s.blob

-- The presence that a newcomer `p` is sent at the time `now`.
abbrev pub fresh_presence : ℕ → ℕ → List (ℕ × Presence) → List (ℕ × Message)
fresh_presence now p [] = []
fresh_presence now p ((id, q) ∷ ps) =
    let rest = fresh_presence now p ps in
    let theirs : Bool = elim q.member [ none ↦ true | some m ↦ not (m == p) ] in
    if theirs && ltb (now - q.at) presence_stale_ms
    then (p, awareness_message id q.blob) ∷ rest
    else rest

-- `enqueuePersistence`: `this.persistence?.enqueue(blob, attribution)`
abbrev pub store : Options → ℕ → Attribution → EncryptedRoom → EncryptedRoom
store o blob author r = record r {
  persistence = elim r.persistence [ none ↦ none | some p ↦ some (enqueue o blob author p) ];
}

unfoldable pub mark_persisted : Vector → Bool → EncryptedRoom → EncryptedRoom
unfolding merge_vectors
mark_persisted marker announce r =
    let merged = merge_vectors r.persisted_vector marker in
    let r1 = broadcast (persisted_message merged) none (record r { persisted_vector = merged }) in
    if announce then publish (persisted marker) none r1 else r1

abbrev pub is_asked : Option SnapshotRequest → ℕ → Bool
is_asked none p = false
is_asked (some q) p = q.peer == p

module _ (c : Connections) where
  unfoldable pub welcome : ℕ → ℕ → EncryptedRoom → EncryptedRoom
  welcome now p r = record r {
    peers = add_once p r.peers;
    sent =
        r.sent
        ++ ((p, welcome_message (c.peer_id p))
            ∷ (p, state_message (snapshot_blob r.log.snapshot) (map (λ e. e.blob) r.log.entries))
            ∷ (fresh_presence now p r.presence ++ (p, persisted_message r.persisted_vector) ∷ []));
  }

  unfoldable pub receive_awareness : ℕ → ℕ → ℕ → EncryptedRoom → EncryptedRoom
  receive_awareness now p blob r =
      let mine : Presence = record { blob = blob; member = some p; at = now } in
      publish (awareness (c.peer_id p) blob) none (
        broadcast (awareness_message (c.peer_id p) blob) (some p)
          (record r { presence = set_presence (c.peer_id p) mine r.presence }))

  unfoldable pub remove_member : ℕ → EncryptedRoom → EncryptedRoom
  remove_member m r =
      let gone = record r { members = without m r.members; peers = without m r.peers } in
      if not (includes m r.peers)
      then gone
      else publish (peer_left (c.peer_id m)) none (
          broadcast (peer_left_message (c.peer_id m)) none (record gone {
            snapshot_request = if is_asked r.snapshot_request m then none else r.snapshot_request;
            presence = delete_presence (c.peer_id m) r.presence;
          }))

-- `destroy()`
unfoldable pub destroy : EncryptedRoom → EncryptedRoom
destroy r = record r {
  snapshot_request = none;
  persistence = elim r.persistence [ none ↦ none | some p ↦ some (dispose p) ];
  presence = [];
}

module _ (hash : ℕ → ℕ) (c : Connections) (o : Options) where
  -- What follows in `receiveUpdate` if the entry is new.
  abbrev pub relay_own : ℕ → Ack → ℕ → EncryptedRoom → EncryptedRoom
  relay_own p ack blob r =
      publish (update (record { blob = blob; ack = some ack } ∷ [])) none
        (store o blob (c.attribution p) (broadcast (update_message blob) (some p) r))

  unfoldable pub receive_update : ℕ → ℕ → ℕ → EncryptedRoom → EncryptedRoom
  unfolding add
  receive_update p n blob r =
      let ack : Ack = record { peer = c.peer_id p; n = n } in
      let (log, entry) = add hash blob (some ack) none r.log in
      let r1 = record r { received = r.received ++ (p, blob) ∷ [] } in
      if is_none entry then r1 else relay_own p ack blob (record r1 { log = log })

-- `applyLoaded(loaded)`
abbrev pub apply_loaded : (ℕ → ℕ) → LoadedBoard → EncryptedRoom → EncryptedRoom
apply_loaded hash board r = record r { log = load hash board r.log }
